-- ===== src/Accounts/Deletion.antt =====
-- backend/v2/deletion_service.py: the request for an account's deletion, its cancellation within
-- fourteen days, and the sweep that makes it final.
use agent_craft.Prelude.{
  ℕ, ◌+◌, String, Bool, true, false, not, ◌&&◌, ◌==◌, leb, if◌then◌else◌, Option, none, some, List,
  [], ◌∷◌, select, map,
}
use agent_craft.Accounts.Rows.{
  User, Purpose, UserStatus, Route, Body, Scope, AccountDb, has_status, deleted_user,
}
use agent_craft.Accounts.Service.{
  Service, Failure, refused, account_pending, account_suspended, account_deleting, atomically,
  require, require_some, read, write, pure, raise, ◌>>=◌, ◌>>◌,
}
use agent_craft.Accounts.Primitives.{Primitives}
use agent_craft.Accounts.RateLimit.{enforce}
use agent_craft.Accounts.Idempotency.{Ticket, Idem, Reply, begin, store, ticket, replay_or}
use agent_craft.Accounts.Sessions.{SessionDraw, create_session, revoke_all}
use agent_craft.Accounts.Tokens.{TokenDraw, find_token, usable_token, consume_token, issue_token}
use agent_craft.Accounts.Users.{find_user, update_user}
use agent_craft.Accounts.Passwords.{totp_gate, invalid_current}

-- GRACE_DAYS, and the same in seconds
abbrev pub grace_days : ℕ
grace_days = 14

abbrev pub grace_seconds : ℕ
grace_seconds = 1209600

-- _deleting_conflict and _invalid_cancel, which differ in their messages only
abbrev pub deleting_conflict : Failure
deleting_conflict = refused account_deleting 409

-- _gate_active
abbrev pub gate_active : UserStatus → Service (Unit {0})
gate_active UserStatus.active = pure tt
gate_active UserStatus.pending = raise (refused account_pending 409)
gate_active UserStatus.suspended = raise (refused account_suspended 403)
gate_active UserStatus.deleting = raise deleting_conflict
gate_active UserStatus.deleted = raise deleting_conflict

abbrev pub is_active : UserStatus → Bool
is_active s = has_status s UserStatus.active

abbrev pub is_deleting : UserStatus → Bool
is_deleting s = has_status s UserStatus.deleting

-- _DEACTIVATE_SQL
abbrev pub deactivated : ℕ → User → User
deactivated now u = record u {
  status = UserStatus.deleting;
  deletion_deadline_at = some (now + grace_seconds);
}

-- The transaction of a request. `hook` is TERMINATE_TASKS_HOOK, on the user.
unfoldable pub request_tx :
    Primitives → (ℕ → Service (Unit {0})) → User → TokenDraw → Ticket → ℕ → Service Body
request_tx p hook u draw t now = do
  n ← update_user u.id is_active (deactivated now)
  require (n == 1) deleting_conflict
  revoke_all u.id now
  hook u.id
  issue_token p.hash_token p.validate_email Purpose.deletion_cancel u.id u.email draw now
  store t (record { status_code = 200; response_json = Body.closing grace_days }) now
  pure (Body.closing grace_days)

-- request_deletion, with the columns of the authenticated user
unfoldable pub request_deletion :
    Primitives
    → (ℕ → Service (Unit {0}))
    → User
    → (password : ℕ) → Option ℕ
    → TokenDraw
    → Idem
    → ℕ
    → Service (Reply Body)
request_deletion p hook u password code draw idem now = do
  gate_active u.status
  totp_gate p u.id u.mfa_secret_enc code now
  require (p.verify_password password u.password_hash) invalid_current
  let t = ticket (p.hash_token (p.text_of_id u.id)) Route.request_route idem
  known ← begin t now
  replay_or known (atomically (request_tx p hook u draw t now))

-- _REACTIVATE_SQL
abbrev pub reactivated : User → User
reactivated u = record u { status = UserStatus.active; deletion_deadline_at = none }

abbrev pub restored_body : User → SessionDraw → Body
restored_body u draw = Body.restored u.id u.email u.role draw.csrf_token

abbrev pub closing_user : Option User → Option User
closing_user none = none
closing_user (some u) = elim (is_deleting u.status) [ true ↦ some u | false ↦ none ]

-- The transaction of a cancellation, on the session of the token's owner.
unfoldable pub cancel_tx :
    Primitives → ℕ → (token : ℕ) → (password : ℕ) → SessionDraw → String → Ticket → ℕ → Service Body
cancel_tx p owner token password draw label t now = do
  w ← read
  row ←
      require_some (usable_token owner (p.hash_token token) Purpose.deletion_cancel now w.db)
        deleting_conflict
  u ← require_some (closing_user (find_user owner w.db)) deleting_conflict
  require (p.verify_password password u.password_hash) invalid_current
  n ← update_user owner is_deleting reactivated
  require (n == 1) deleting_conflict
  m ← consume_token owner row.id now
  require (m == 1) deleting_conflict
  create_session p.hash_token owner draw label false now
  store t (record { status_code = 200; response_json = restored_body u draw }) now
  pure (restored_body u draw)

-- A token that is not known is counted against the address; one that is, against its owner too.
abbrev pub cancel_found :
    Primitives
    → Option ℕ
    → (token password ip : ℕ) → SessionDraw
    → String
    → Ticket
    → ℕ
    → Service Body
cancel_found p none token password ip draw label t now = do
  enforce Scope.deletion_cancel_invalid (p.hmac_ip ip ∷ []) now
  raise deleting_conflict
cancel_found p (some owner) token password ip draw label t now = do
  enforce Scope.deletion_cancel_attempt (p.hmac_user owner ∷ p.hmac_ip ip ∷ []) now
  atomically (cancel_tx p owner token password draw label t now)

abbrev pub owner_of_token : ℕ → AccountDb → Option ℕ
owner_of_token h d = elim (find_token h Purpose.deletion_cancel d) [
  | none ↦ none
  | some row ↦ some row.user_id
]

-- cancel_deletion
unfoldable pub cancel_deletion :
    Primitives → (token password ip : ℕ) → SessionDraw → String → Idem → ℕ → Service (Reply Body)
cancel_deletion p token password ip draw label idem now = do
  let t = ticket (p.hash_token token) Route.cancel_route idem
  known ← begin t now
  replay_or known (do
    w ← read
    cancel_found p (owner_of_token (p.hash_token token) w.db) token password ip draw label t now)

abbrev overdue : Option ℕ → ℕ → Bool
overdue none now = false
overdue (some at) now = leb at now

abbrev pub is_expired : ℕ → User → Bool
is_expired now u = is_deleting u.status && overdue u.deletion_deadline_at now

-- _ANONYMIZE_SQL, with a random hash for the password
abbrev pub anonymized : (ℕ → ℕ) → ℕ → User → User
anonymized random_hash now u = record u {
  status = UserStatus.deleted;
  deleted_at = some now;
  deletion_deadline_at = none;
  password_hash = random_hash u.id;
  mfa_secret_enc = none;
  email = deleted_user u.id;
}

abbrev pub drop_providers : ℕ → AccountDb → AccountDb
drop_providers id d = record d { providers = select (λ o. not (o == id)) d.providers }

-- What follows the anonymization of a row; a user that has come back is left alone.
abbrev pub after_anonymize : ℕ → Bool → ℕ → Service Bool
after_anonymize id false now = pure false
after_anonymize id true now = do write (drop_providers id); revoke_all id now; pure true

unfoldable pub sweep_user : (ℕ → ℕ) → ℕ → ℕ → Service Bool
sweep_user random_hash id now = do
  n ← update_user id is_deleting (anonymized random_hash now)
  after_anonymize id (n == 1) now

abbrev pub sweep_users : (ℕ → ℕ) → List ℕ → ℕ → ℕ → Service ℕ
sweep_users random_hash [] processed now = pure processed
sweep_users random_hash (id ∷ ids) processed now = do
  done ← atomically (sweep_user random_hash id now)
  sweep_users random_hash ids (if done then processed + 1 else processed) now

-- sweep_expired
unfoldable pub sweep_expired : (ℕ → ℕ) → ℕ → Service ℕ
sweep_expired random_hash now = do
  w ← read
  sweep_users random_hash (map (λ (u : User). u.id) (select (is_expired now) w.db.users)) 0 now
