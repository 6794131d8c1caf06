-- ===== src/Accounts/Passwords.antt =====
-- backend/v2/password_service.py: the reset of a password by mail, and its change.
use agent_craft.Prelude.{
  ℕ, Bool, true, false, not, ◌&&◌, ◌==◌, Option, none, some, [], ◌∷◌, if◌then◌else◌,
}
use agent_craft.Accounts.Rows.{User, Purpose, UserStatus, Email, Route, Body, Scope}
use agent_craft.Accounts.Service.{
  Service, Failure, refused, email_not_verified, mfa_invalid, invalid_credentials, atomically,
  require, require_some, read, pure, raise, ◌>>=◌, ◌>>◌,
}
use agent_craft.Accounts.Primitives.{Primitives}
use agent_craft.Accounts.RateLimit.{enforce}
use agent_craft.Accounts.Idempotency.{Ticket, Idem, Reply, begin, store, ticket, replay_or}
use agent_craft.Accounts.Sessions.{revoke_all, revoke_where, is_unrevoked}
use agent_craft.Accounts.Tokens.{
  TokenDraw, find_token, usable_token, consume_token, invalidate_prior, issue_token,
}
use agent_craft.Accounts.Users.{user_by_email, update_user}

abbrev pub invalid_reset : Failure
invalid_reset = refused email_not_verified 400

abbrev pub invalid_current : Failure
invalid_current = refused invalid_credentials 401

abbrev pub invalid_code : Failure
invalid_code = refused mfa_invalid 400

-- _RESETTABLE_STATUSES
abbrev pub is_resettable : UserStatus → Bool
is_resettable UserStatus.pending = false
is_resettable UserStatus.active = true
is_resettable UserStatus.suspended = true
is_resettable UserStatus.deleting = true
is_resettable UserStatus.deleted = false

-- The mail of a reset, for a user that may have it.
abbrev pub send_reset : Primitives → Option User → TokenDraw → ℕ → Service (Unit {0})
send_reset p none draw now = pure tt
send_reset p (some u) draw now =
    if is_resettable u.status
    then atomically (
        invalidate_prior u.id Purpose.password_reset now
        >> issue_token p.hash_token p.validate_email Purpose.password_reset u.id u.email draw now)
    else pure tt

-- request_password_reset
unfoldable pub request_reset : Primitives → Email → ℕ → TokenDraw → ℕ → Service (Unit {0})
request_reset p email ip draw now = do
  let normalized = p.fold_email email
  enforce Scope.password_reset_request (p.hmac_email normalized ∷ p.hmac_ip ip ∷ []) now
  w ← read
  send_reset p (user_by_email normalized w.db) draw now

abbrev pub with_password : ℕ → User → User
with_password h u = record u { password_hash = h }

-- The transaction of a reset, on the session of the token's owner.
unfoldable pub reset_tx : (ℕ → ℕ) → ℕ → ℕ → ℕ → Ticket → ℕ → Service Body
reset_tx hash_token owner token new_hash t now = do
  w ← read
  row ←
      require_some (usable_token owner (hash_token token) Purpose.password_reset now w.db)
        invalid_reset
  m ← consume_token owner row.id now
  require (m == 1) invalid_reset
  n ← update_user owner is_resettable (with_password new_hash)
  require (n == 1) invalid_reset
  revoke_all owner now
  store t (record { status_code = 200; response_json = Body.password_set }) now
  pure Body.password_set

unfoldable pub reset_fresh : (ℕ → ℕ) → ℕ → ℕ → Ticket → ℕ → Service Body
reset_fresh hash_token token new_hash t now = do
  w ← read
  row ← require_some (find_token (hash_token token) Purpose.password_reset w.db) invalid_reset
  atomically (reset_tx hash_token row.user_id token new_hash t now)

-- confirm_password_reset; the hash of the new password is drawn before the transaction.
unfoldable pub confirm_reset : Primitives → ℕ → ℕ → Idem → ℕ → Service (Reply Body)
confirm_reset p token new_hash idem now = do
  let t = ticket (p.hash_token token) Route.reset_route idem
  known ← begin t now
  replay_or known (reset_fresh p.hash_token token new_hash t now)

-- A code that is missing or wrong is counted, and the 429 comes before the 400.
abbrev pub count_failure : Primitives → ℕ → ℕ → Service (Unit {0})
count_failure p user_id now = do
  enforce Scope.password_change_totp (p.hmac_user user_id ∷ []) now
  raise invalid_code

abbrev pub check_code : Primitives → ℕ → ℕ → Option ℕ → ℕ → Service (Unit {0})
check_code p user_id code none now = raise invalid_code
check_code p user_id code (some secret) now =
    if p.totp_verify secret code now then pure tt else count_failure p user_id now

-- _verify_change_totp
unfoldable pub verify_change_totp : Primitives → ℕ → ℕ → Option ℕ → ℕ → Service (Unit {0})
verify_change_totp p user_id envelope none now = count_failure p user_id now
verify_change_totp p user_id envelope (some code) now =
    check_code p user_id code (p.decrypt_secret user_id envelope) now

-- The check of the code where the user has one.
abbrev pub totp_gate : Primitives → ℕ → Option ℕ → Option ℕ → ℕ → Service (Unit {0})
totp_gate p user_id none code now = pure tt
totp_gate p user_id (some envelope) code now = verify_change_totp p user_id envelope code now

abbrev pub any_status : UserStatus → Bool
any_status s = true

-- _REVOKE_OTHER_SESSIONS_SQL
abbrev pub revoke_others : ℕ → ℕ → ℕ → Service ℕ
revoke_others owner current now =
    revoke_where (λ s. is_unrevoked owner s && not (s.id == current)) now

-- change_password, with the columns of the authenticated user
unfoldable pub change_password :
    Primitives
    → User
    → (session_id : ℕ) → (current_password : ℕ) → (new_hash : ℕ) → Option ℕ
    → ℕ
    → Service Body
change_password p u session_id current_password new_hash code now = do
  totp_gate p u.id u.mfa_secret_enc code now
  require (p.verify_password current_password u.password_hash) invalid_current
  atomically
      (do update_user u.id any_status (with_password new_hash); revoke_others u.id session_id now)
  pure Body.password_set
