-- ===== src/Accounts/Verification.antt =====
-- backend/v2/verification_service.py: the confirmation of an address, and its mail again.
use agent_craft.Prelude.{ℕ, ◌==◌, [], ◌∷◌, if◌then◌else◌}
use agent_craft.Accounts.Rows.{User, Purpose, UserStatus, Email, Route, Body, has_status, Scope}
use agent_craft.Accounts.Service.{
  Service, Failure, refused, no_result_found, email_not_verified, validation_error, atomically,
  require, require_some, read, pure, ◌>>=◌, ◌>>◌,
}
use agent_craft.Accounts.Primitives.{Primitives}
use agent_craft.Accounts.RateLimit.{enforce}
use agent_craft.Accounts.Idempotency.{Ticket, Idem, Reply, begin, store, ticket, replay_or}
use agent_craft.Accounts.Tokens.{
  TokenDraw, find_token, usable_token, consume_token, invalidate_prior, issue_token,
}
use agent_craft.Accounts.Users.{find_user, update_user}

abbrev pub invalid_link : Failure
invalid_link = refused email_not_verified 400

abbrev pub activated : User → User
activated u = record u { status = UserStatus.active }

abbrev pub active_already : ℕ → Service (Unit {0})
active_already owner = do
  w ← read
  u ← require_some (find_user owner w.db) no_result_found
  require (has_status u.status UserStatus.active) invalid_link

-- A user that was not pending must be active already.
abbrev pub was_active : ℕ → ℕ → Service (Unit {0})
was_active owner rowcount = if rowcount == 0 then active_already owner else pure tt

-- The transaction of a confirmation, on the session of the token's owner.
unfoldable pub confirm_tx : (ℕ → ℕ) → ℕ → ℕ → Ticket → ℕ → Service Body
confirm_tx hash_token owner token t now = do
  w ← read
  row ←
      require_some (usable_token owner (hash_token token) Purpose.email_verify now w.db)
        invalid_link
  n ← update_user owner (λ s. has_status s UserStatus.pending) activated
  was_active owner n
  m ← consume_token owner row.id now
  require (m == 1) invalid_link
  store t (record { status_code = 200; response_json = Body.verified }) now
  pure Body.verified

unfoldable pub confirm_fresh : (ℕ → ℕ) → ℕ → Ticket → ℕ → Service Body
confirm_fresh hash_token token t now = do
  w ← read
  row ← require_some (find_token (hash_token token) Purpose.email_verify w.db) invalid_link
  atomically (confirm_tx hash_token row.user_id token t now)

-- confirm_email_verification
unfoldable pub confirm_email : Primitives → ℕ → Idem → ℕ → Service (Reply Body)
confirm_email p token idem now = do
  let t = ticket (p.hash_token token) Route.confirm_route idem
  known ← begin t now
  replay_or known (confirm_fresh p.hash_token token t now)

-- resend_email_verification
unfoldable pub resend_email :
    Primitives → ℕ → Email → UserStatus → TokenDraw → ℕ → Service (Unit {0})
resend_email p user_id recipient status draw now = do
  enforce Scope.email_verify_resend (p.hmac_user user_id ∷ []) now
  require (has_status status UserStatus.pending) (refused validation_error 409)
  atomically (do
    invalidate_prior user_id Purpose.email_verify now
    issue_token p.hash_token p.validate_email Purpose.email_verify user_id recipient draw now)
