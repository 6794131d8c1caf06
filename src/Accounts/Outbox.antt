-- ===== src/Accounts/Outbox.antt =====
-- backend/v2/outbox.py: the transactional outbox, its claims under a lease, and its retries.
pub mod Attempts
pub mod Drain
use agent_craft.Prelude.{
  ℕ, zero, suc, ◌+◌, Bool, true, false, not, ◌&&◌, ◌||◌, ◌==◌, ltb, leb, if◌then◌else◌, Option,
  none, some, List, [], ◌∷◌, ◌++◌, select, any, count, update_where, map, is_some_eq, order_by,
  limit,
}
use agent_craft.Accounts.Rows.{Mail, AccountDb, Email, Template, OutboxState, Purpose}
use agent_craft.Accounts.Service.{
  World, Service, Outcome, Failure, returned, raised, value_error, integrity_error, atomically,
  require, require_some, read, write, pure, ◌>>=◌, ◌>>◌,
}
use OutboxState.{sent, delivery_failed}
use Purpose.{email_verify, password_reset, deletion_cancel}
use Template.{invitation, action}

-- VALID_HOURS, in seconds
abbrev pub valid_seconds : Template → ℕ
valid_seconds invitation = 604800
valid_seconds (action email_verify) = 259200
valid_seconds (action password_reset) = 1800
valid_seconds (action deletion_cancel) = 1209600

abbrev pub max_attempts : ℕ
max_attempts = 5

abbrev pub lease_seconds : ℕ
lease_seconds = 300

-- BACKOFF_SECONDS, after so many attempts
abbrev pub backoff_seconds : ℕ → ℕ
backoff_seconds (suc zero) = 60
backoff_seconds (suc (suc zero)) = 300
backoff_seconds (suc (suc (suc zero))) = 900
backoff_seconds _ = 1800

abbrev pub new_mail : ℕ → Template → ℕ → Email → ℕ → ℕ → Mail
new_mail id purpose user_id recipient action_token now = record {
  id = id;
  user_id = user_id;
  purpose = purpose;
  recipient = recipient;
  action_token = action_token;
  state = OutboxState.pending;
  lease_owner = none;
  lease_expires_at = none;
  attempts = 0;
  next_attempt_at = none;
  created_at = now;
}

abbrev pub insert_mail : Mail → Service (Unit {0})
insert_mail m = do
  w ← read
  require (not (any (λ x. x.id == m.id) w.db.outbox)) integrity_error
  write (λ d. record d { outbox = d.outbox ++ m ∷ [] })

-- enqueue: `normalize` is email_validator's, and none where it refuses the address.
unfoldable pub enqueue :
    (Email → Option Email) → ℕ → Template → ℕ → Email → ℕ → ℕ → Service (Unit {0})
enqueue normalize id purpose user_id recipient action_token now = do
  to ← require_some (normalize recipient) value_error
  insert_mail (new_mail id purpose user_id to action_token now)

abbrev pub is_pending : Mail → Bool
is_pending m = elim m.state [ OutboxState.pending ↦ true | sent ↦ false | delivery_failed ↦ false ]

abbrev due : Option ℕ → ℕ → Bool
due none now = true
due (some at) now = leb at now

abbrev unleased : Option ℕ → ℕ → Bool
unleased none now = true
unleased (some at) now = ltb at now

-- The rows that _CLAIM_SQL may take.
abbrev pub is_claimable : ℕ → Mail → Bool
is_claimable now m = is_pending m && (due m.next_attempt_at now && unleased m.lease_expires_at now)

abbrev older : Mail → Mail → Bool
older a b = ltb a.created_at b.created_at

abbrev pub claimed_rows : ℕ → ℕ → List Mail → List Mail
claimed_rows batch now mails = limit batch (order_by older (select (is_claimable now) mails))

abbrev pub has_id : ℕ → Mail → Bool
has_id id m = m.id == id

abbrev pub is_among : List Mail → Mail → Bool
is_among claimed m = any (has_id m.id) claimed

abbrev pub leased : ℕ → ℕ → Mail → Mail
leased worker now m = record m {
  lease_owner = some worker;
  lease_expires_at = some (now + lease_seconds);
}

abbrev pub claim_mails : ℕ → ℕ → ℕ → List Mail → List Mail
claim_mails worker batch now mails =
    update_where (is_among (claimed_rows batch now mails)) (leased worker now) mails

-- _CLAIM_SQL; it returns the rows that it has leased.
unfoldable pub claim : ℕ → ℕ → ℕ → Service (List Mail)
claim worker batch now w =
    returned (claimed_rows batch now w.db.outbox)
      (record w { db = record w.db { outbox = claim_mails worker batch now w.db.outbox } })

-- What becomes of a row that is sent, or not, and when that is written.
pub record Delivery : Type 0 where
  pub is_ok : Bool
  pub at : ℕ

abbrev pub sent_row : Mail → Mail
sent_row m = record m { state = sent; lease_owner = none; lease_expires_at = none }

abbrev pub retry_row : ℕ → ℕ → Mail → Mail
retry_row attempts at m = record m {
  lease_owner = none;
  lease_expires_at = none;
  attempts = attempts;
  next_attempt_at = some (at + backoff_seconds attempts);
}

abbrev pub dead_row : ℕ → Mail → Mail
dead_row attempts m = record m {
  state = delivery_failed;
  lease_owner = none;
  lease_expires_at = none;
  attempts = attempts;
}

-- _SENT_SQL, _DEAD_SQL or _RETRY_SQL
abbrev pub outcome_row : Delivery → ℕ → Mail → Mail
outcome_row d attempts m =
    if d.is_ok
    then sent_row m
    else if leb max_attempts (attempts + 1)
    then dead_row (attempts + 1) m
    else retry_row (attempts + 1) d.at m

-- `WHERE id = :id AND lease_owner = :worker`
abbrev pub is_held_by : ℕ → ℕ → Mail → Bool
is_held_by worker id m = m.id == id && is_some_eq m.lease_owner worker

abbrev pub finalize_mails : ℕ → Delivery → Mail → List Mail → List Mail
finalize_mails worker d row mails =
    update_where (is_held_by worker row.id) (outcome_row d row.attempts) mails

-- _finalize_row: whether the row has turned to sent
unfoldable pub finalize_row : ℕ → Delivery → Mail → Service Bool
finalize_row worker d row w =
    returned (d.is_ok && count (is_held_by worker row.id) w.db.outbox == 1)
      (record w { db = record w.db { outbox = finalize_mails worker d row w.db.outbox } })

abbrev pub finalize_all : ℕ → (Mail → Delivery) → List Mail → ℕ → Service ℕ
finalize_all worker deliver [] sent_count = pure sent_count
finalize_all worker deliver (row ∷ rows) sent_count = do
  ok ← atomically (finalize_row worker (deliver row) row)
  finalize_all worker deliver rows (if ok then sent_count + 1 else sent_count)

-- dispatch_once: `deliver` says what decryption and the transport make of a row.
unfoldable pub dispatch_once : ℕ → (Mail → Delivery) → ℕ → ℕ → Service ℕ
dispatch_once worker deliver batch now = do
  require (leb 1 batch) value_error
  rows ← atomically (claim worker batch now)
  finalize_all worker deliver rows 0
