-- ===== src/Accounts/Invitations.antt =====
-- backend/v2/invitation_service.py: an invitation makes one account.
use agent_craft.Prelude.{
  ℕ, Bool, true, false, not, ◌&&◌, ◌||◌, ◌==◌, ltb, none, some, [], ◌∷◌, ◌++◌, String, find, any,
  count, update_where, is_none,
}
use agent_craft.Accounts.Rows.{
  User, Invitation, Purpose, UserStatus, Role, Email, Route, Body, Scope, same_email,
}
use agent_craft.Accounts.Service.{
  Service, Failure, returned, raised, refused, value_error, invitation_invalid, atomically, require,
  require_some, read, write, pure, ◌>>=◌, ◌>>◌,
}
use agent_craft.Accounts.Primitives.{Primitives}
use agent_craft.Accounts.RateLimit.{enforce}
use agent_craft.Accounts.Idempotency.{Ticket, Idem, Reply, begin, store, ticket, replay_or}
use agent_craft.Accounts.Sessions.{SessionDraw, create_session}
use agent_craft.Accounts.Tokens.{TokenDraw, issue_token}

abbrev pub invalid_invitation : Failure
invalid_invitation = refused invitation_invalid 409

abbrev pub is_valid : ℕ → Invitation → Bool
is_valid now i = (is_none i.consumed_at && is_none i.revoked_at) && ltb now i.expires_at

-- A valid invitation for another address leaves its audit row.
abbrev pub matched : Bool → Invitation → Service Invitation
matched true inv w = returned inv w
matched false inv w = raised invalid_invitation (record w { mismatches = inv.id ∷ w.mismatches })

-- _lock_and_validate, with _audit_email_mismatch
unfoldable pub lock_and_validate : (ℕ → ℕ) → ℕ → Email → ℕ → Service Invitation
lock_and_validate hash_token token normalized now = do
  w ← read
  inv ←
      require_some (find (λ i. i.token_hash == hash_token token) w.db.invitations)
        invalid_invitation
  require (is_valid now inv) invalid_invitation
  matched (same_email inv.email normalized) inv

abbrev pub new_user : ℕ → Email → ℕ → User
new_user id email password_hash = record {
  id = id;
  email = email;
  password_hash = password_hash;
  role = Role.user;
  status = UserStatus.pending;
  mfa_secret_enc = none;
  deleted_at = none;
  deletion_deadline_at = none;
}

-- The unique index on users.email, and the primary key: an IntegrityError is the same refusal.
abbrev pub insert_user : User → Service (Unit {0})
insert_user u = do
  w ← read
  require (not (any (λ x. same_email x.email u.email || x.id == u.id) w.db.users))
      invalid_invitation
  write (λ d. record d { users = d.users ++ u ∷ [] })

-- What an acceptance draws: the ids and tokens, and the Argon2 hash of the password.
pub record AcceptDraw : Type 0 where
  pub user_id : ℕ
  pub password_hash : ℕ
  pub session : SessionDraw
  pub token : TokenDraw

-- _persist_account
unfoldable pub persist_account : (ℕ → ℕ) → AcceptDraw → Email → String → ℕ → Service (Unit {0})
persist_account hash_token draw normalized label now = do
  insert_user (new_user draw.user_id normalized draw.password_hash)
  create_session hash_token draw.user_id draw.session label false now

abbrev pub used : ℕ → Invitation → Invitation
used now i = record i { consumed_at = some now }

abbrev pub is_unused : ℕ → Invitation → Bool
is_unused id i = i.id == id && (is_none i.consumed_at && is_none i.revoked_at)

unfoldable pub consume_invitation : ℕ → ℕ → Service ℕ
consume_invitation id now w = returned (count (is_unused id) w.db.invitations) (record w {
  db = record w.db { invitations = update_where (is_unused id) (used now) w.db.invitations };
})

abbrev pub accepted_body : AcceptDraw → Email → Body
accepted_body draw normalized = Body.accepted draw.user_id normalized draw.session.csrf_token

-- The transaction of an acceptance.
unfoldable pub accept_tx : Primitives → ℕ → Email → AcceptDraw → String → Ticket → ℕ → Service Body
accept_tx p token normalized draw label t now = do
  inv ← lock_and_validate p.hash_token token normalized now
  persist_account p.hash_token draw normalized label now
  n ← consume_invitation inv.id now
  require (n == 1) invalid_invitation
  issue_token p.hash_token p.validate_email Purpose.email_verify draw.user_id normalized draw.token
      now
  store t (record { status_code = 200; response_json = accepted_body draw normalized }) now
  pure (accepted_body draw normalized)

-- normalize_email, and the transaction
unfoldable pub accept_fresh :
    Primitives → ℕ → Email → AcceptDraw → String → Ticket → ℕ → Service Body
accept_fresh p token email draw label t now = do
  checked ← require_some (p.validate_email email) value_error
  atomically (accept_tx p token (p.fold_email checked) draw label t now)

-- accept_invitation
unfoldable pub accept_invitation :
    Primitives → ℕ → Email → ℕ → AcceptDraw → String → Idem → ℕ → Service (Reply Body)
accept_invitation p token email ip draw label idem now = do
  enforce Scope.invitation_accept (p.hmac_ip ip ∷ []) now
  let t = ticket (p.hash_token token) Route.accept_route idem
  known ← begin t now
  replay_or known (accept_fresh p token email draw label t now)
