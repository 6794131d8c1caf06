-- ===== src/Accounts/Tokens.antt =====
-- The statements on account_action_tokens that the account services share (backend/v2:
-- verification_service.py, password_service.py, deletion_service.py).
pub mod Spent
use agent_craft.Prelude.{
  ℕ, ◌+◌, Bool, true, false, not, ◌&&◌, ◌==◌, ltb, Option, none, some, List, [], ◌∷◌, ◌++◌, find,
  any, count, update_where, is_none,
}
use agent_craft.Accounts.Rows.{ActionToken, Purpose, AccountDb, Email, Template, same_purpose}
use agent_craft.Accounts.Service.{
  World, Service, Failure, Outcome, returned, integrity_error, require, require_some, read, write,
  ◌>>=◌, ◌>>◌,
}
use agent_craft.Accounts.Outbox.{valid_seconds, enqueue}

-- The id of a new token row, the token that generate_token has drawn, and the id of its mail.
pub record TokenDraw : Type 0 where
  pub token_id : ℕ
  pub token : ℕ
  pub mail_id : ℕ

abbrev pub new_token : (ℕ → ℕ) → Purpose → ℕ → TokenDraw → ℕ → ActionToken
new_token hash_token purpose user_id draw now = record {
  id = draw.token_id;
  user_id = user_id;
  purpose = purpose;
  token_hash = hash_token draw.token;
  expires_at = now + valid_seconds (Template.action purpose);
  consumed_at = none;
}

abbrev pub insert_token : ActionToken → Service (Unit {0})
insert_token t = do
  w ← read
  require (not (any (λ x. x.token_hash == t.token_hash) w.db.tokens)) integrity_error
  write (λ d. record d { tokens = d.tokens ++ t ∷ [] })

-- A token and its mail, in the caller's transaction: _issue_email_verify, and the same lines in
-- request_password_reset and request_deletion.
unfoldable pub issue_token :
    (ℕ → ℕ) → (Email → Option Email) → Purpose → ℕ → Email → TokenDraw → ℕ → Service (Unit {0})
issue_token hash_token validate_email purpose user_id recipient draw now = do
  insert_token (new_token hash_token purpose user_id draw now)
  enqueue validate_email draw.mail_id (Template.action purpose) user_id recipient draw.token now

-- The row of a hash and a purpose, as the admin session reads it.
abbrev pub find_token : ℕ → Purpose → AccountDb → Option ActionToken
find_token h purpose d = find (λ t. t.token_hash == h && same_purpose t.purpose purpose) d.tokens

abbrev pub kept_if : Bool → ActionToken → Option ActionToken
kept_if true t = some t
kept_if false t = none

abbrev pub usable : ℕ → Option ActionToken → Option ActionToken
usable now none = none
usable now (some t) = kept_if (is_none t.consumed_at && ltb now t.expires_at) t

-- _SELECT_TOKEN_FOR_UPDATE, with the tests that follow it: the owner's row, unconsumed and live.
abbrev pub usable_token : ℕ → ℕ → Purpose → ℕ → AccountDb → Option ActionToken
usable_token owner h purpose now d = usable now (
    find (λ t. (t.token_hash == h && same_purpose t.purpose purpose) && t.user_id == owner)
      d.tokens)

abbrev pub consumed : ℕ → ActionToken → ActionToken
consumed now t = record t { consumed_at = some now }

abbrev pub consume_where : (ActionToken → Bool) → ℕ → Service ℕ
consume_where p now w =
    returned (count p w.db.tokens)
      (record w { db = record w.db { tokens = update_where p (consumed now) w.db.tokens } })

abbrev pub is_unconsumed : ℕ → ActionToken → Bool
is_unconsumed owner t = t.user_id == owner && is_none t.consumed_at

-- _CONSUME_TOKEN_SQL, with its rowcount
unfoldable pub consume_token : ℕ → ℕ → ℕ → Service ℕ
consume_token owner token_id now =
    consume_where (λ t. t.id == token_id && is_unconsumed owner t) now

-- _INVALIDATE_PRIOR_SQL
unfoldable pub invalidate_prior : ℕ → Purpose → ℕ → Service ℕ
invalidate_prior owner purpose now =
    consume_where (λ t. same_purpose t.purpose purpose && is_unconsumed owner t) now
