-- ===== src/Accounts/Login.antt =====
-- backend/v2/login_service.py: signing in, with a second factor where the user has one.
use agent_craft.Prelude.{
  ℕ, String, Bool, true, false, ◌&&◌, ◌==◌, Option, none, some, [], ◌∷◌, is_none, if◌then◌else◌,
}
use agent_craft.Accounts.Rows.{User, Session, UserStatus, Role, Email, Scope, has_status}
use agent_craft.Accounts.Service.{
  Service, Failure, refused, invalid_credentials, account_suspended, account_deleting, mfa_invalid,
  mfa_not_configured, forbidden, Challenge, atomically, require, require_some, read, write, pure,
  raise, ◌>>=◌, ◌>>◌,
}
use agent_craft.Accounts.Primitives.{Primitives}
use agent_craft.Accounts.RateLimit.{enforce}
use agent_craft.Accounts.Sessions.{SessionDraw, create_session, update_sessions}
use agent_craft.Accounts.Users.{user_by_email, find_user, update_user}
use agent_craft.Accounts.Challenges.{
  create_challenge, get_challenge, record_failure, destroy, put_secret, get_secret, pop_secret,
}

-- MfaRequired or LoginSuccess; the user is as the response shows it.
pub data LoginReply : Type 0 where
  mfa_required : (mfa_challenge_id : ℕ) → LoginReply
  login_success : User → SessionDraw → LoginReply

abbrev pub invalid_login : Failure
invalid_login = refused invalid_credentials 401

-- _start_session
unfoldable pub start_session :
    Primitives → User → SessionDraw → String → Bool → ℕ → Service LoginReply
start_session p u draw label mfa_verified now = do
  atomically (create_session p.hash_token u.id draw label mfa_verified now)
  pure (login_success u draw)

-- A user that is missing or deleted does not sign in.
abbrev pub known_user : Option User → Option User
known_user none = none
known_user (some u) = elim (has_status u.status UserStatus.deleted) [ true ↦ none | false ↦ some u ]

-- The gate on the status of a user who has given the password.
abbrev pub login_gate : UserStatus → Service (Unit {0})
login_gate UserStatus.pending = pure tt
login_gate UserStatus.active = pure tt
login_gate UserStatus.suspended = raise (refused account_suspended 403)
login_gate UserStatus.deleting = raise (refused account_deleting 403)
login_gate UserStatus.deleted = pure tt

abbrev pub second_step :
    Primitives → User → Option ℕ → ℕ → SessionDraw → String → ℕ → Service LoginReply
second_step p u (some envelope) challenge_id draw label now = do
  id ← create_challenge challenge_id u.id now
  pure (mfa_required id)
second_step p u none challenge_id draw label now = start_session p u draw label false now

-- login, with what it may draw: the id of a challenge, or a session
unfoldable pub login :
    Primitives
    → Email
    → (password : ℕ) → (ip : ℕ) → (challenge_id : ℕ) → SessionDraw
    → String
    → ℕ
    → Service LoginReply
login p email password ip challenge_id draw label now = do
  let normalized = p.fold_email email
  enforce Scope.login (p.hmac_email normalized ∷ p.hmac_ip ip ∷ []) now
  w ← read
  u ← require_some (known_user (user_by_email normalized w.db)) invalid_login
  require (p.verify_password password u.password_hash) invalid_login
  login_gate u.status
  second_step p u u.mfa_secret_enc challenge_id draw label now

abbrev pub invalid_mfa : ℕ → Failure
invalid_mfa status = refused mfa_invalid status

-- _enforce_mfa_failure
abbrev pub enforce_mfa_failure : Primitives → ℕ → ℕ → Service (Unit {0})
enforce_mfa_failure p user_id now = enforce Scope.mfa_failure (p.hmac_user user_id ∷ []) now

abbrev pub wrong_code : Primitives → Challenge → ℕ → Service LoginReply
wrong_code p c now = do
  enforce_mfa_failure p c.user_id now
  record_failure c.id
  raise (invalid_mfa 401)

abbrev pub right_code :
    Primitives → Challenge → User → SessionDraw → String → ℕ → Service LoginReply
right_code p c u draw label now = do destroy c.id; start_session p u draw label true now

-- The secret of a user who has a second factor.
abbrev pub secret_of : Primitives → User → Option ℕ
secret_of p u = elim u.mfa_secret_enc [
  | none ↦ none
  | some envelope ↦ p.decrypt_secret u.id envelope
]

-- login_mfa
unfoldable pub login_mfa :
    Primitives → (challenge_id : ℕ) → (code : ℕ) → SessionDraw → String → ℕ → Service LoginReply
login_mfa p challenge_id code draw label now = do
  entry ← get_challenge challenge_id now
  c ← require_some entry (invalid_mfa 401)
  w ← read
  u ← require_some (find_user c.user_id w.db) (invalid_mfa 401)
  secret ← require_some (secret_of p u) (invalid_mfa 401)
  if p.totp_verify secret code now then right_code p c u draw label now else wrong_code p c now

abbrev pub has_envelope : Option User → Option User
has_envelope none = none
has_envelope (some u) = elim (is_none u.mfa_secret_enc) [ true ↦ none | false ↦ some u ]

-- The stamp on a session of its owner.
abbrev pub is_stampable : ℕ → ℕ → Session → Bool
is_stampable owner session_id s = s.user_id == owner && (s.id == session_id && is_none s.revoked_at)

abbrev pub stamped : ℕ → Session → Session
stamped now s = record s { mfa_verified_at = some now }

abbrev pub stamp_mfa : ℕ → ℕ → ℕ → Service (Unit {0})
stamp_mfa owner session_id now =
    write (update_sessions (is_stampable owner session_id) (stamped now))

-- A wrong code, counted before the answer.
abbrev pub check_mfa : Primitives → ℕ → Bool → ℕ → ℕ → Service (Unit {0})
check_mfa p user_id true status now = pure tt
check_mfa p user_id false status now = do
  enforce_mfa_failure p user_id now
  raise (invalid_mfa status)

-- verify_mfa
unfoldable pub verify_mfa : Primitives → (user_id session_id code now : ℕ) → Service (Unit {0})
verify_mfa p user_id session_id code now = do
  w ← read
  u ← require_some (has_envelope (find_user user_id w.db)) (refused mfa_not_configured 400)
  secret ← require_some (secret_of p u) (invalid_mfa 401)
  check_mfa p user_id (p.totp_verify secret code now) 401 now
  atomically (stamp_mfa user_id session_id now)

-- setup_mfa, with the drawn secret
unfoldable pub setup_mfa : (user_id secret now : ℕ) → Service ℕ
setup_mfa user_id secret now = do put_secret user_id secret now; pure secret

abbrev pub any_status : UserStatus → Bool
any_status s = true

abbrev pub with_envelope : Option ℕ → User → User
with_envelope e u = record u { mfa_secret_enc = e }

-- activate_mfa, with the envelope of the secret
unfoldable pub activate_mfa :
    Primitives → (user_id session_id code : ℕ) → (encrypt : ℕ → ℕ) → ℕ → Service (Unit {0})
activate_mfa p user_id session_id code encrypt now = do
  pending ← get_secret user_id now
  secret ← require_some pending (invalid_mfa 400)
  check_mfa p user_id (p.totp_verify secret code now) 400 now
  atomically (do
    update_user user_id any_status (with_envelope (some (encrypt secret)))
    stamp_mfa user_id session_id now)
  pop_secret user_id

-- disable_mfa
unfoldable pub disable_mfa : ℕ → Role → Service (Unit {0})
disable_mfa user_id Role.admin = raise (refused forbidden 403)
disable_mfa user_id Role.user = do
  atomically (update_user user_id any_status (with_envelope none))
  pure tt
