-- ===== src/Accounts/Actions/Entries.antt =====
-- backend/v2/login_service.py, session_service.py and outbox.py, within a relation that is closed under
-- their statements.
use agent_craft.Prelude.{
  ℕ, String, Bool, true, false, Option, none, some, List, [], ◌∷◌, ltb, leb, ◌+◌, if◌then◌else◌,
}
use agent_craft.Accounts.Rows.{User, Session, UserStatus, Email, Scope, Mail}
use agent_craft.Accounts.Service.{World, atomically, pure, Challenge}
use agent_craft.Accounts.Primitives.{Primitives}
use agent_craft.Accounts.RateLimit.{enforce}
use agent_craft.Accounts.Outbox.{
  Delivery, dispatch_once, claim, finalize_all, finalize_row, finalize_mails,
}
use agent_craft.Accounts.Sessions.{
  SessionDraw, create_session, Request, get_v2_auth, admit_request, gate, refresh_critical, csrf_ok,
  refresh_if_needed, refresh_threshold, resolve_session, expired_error, revoke,
}
use agent_craft.Accounts.Users.{user_by_email, find_user}
use agent_craft.Accounts.Challenges.{create_challenge, get_challenge, record_failure, destroy}
use agent_craft.Accounts.Login.{
  login, login_mfa, start_session, login_gate, second_step, known_user, right_code, wrong_code,
  secret_of, invalid_mfa, enforce_mfa_failure,
}
use agent_craft.Accounts.Changes.{Closed, Keeps}
use agent_craft.Accounts.Steps.{
  Keeps-pure, Keeps-raise, Keeps-bind, Keeps-read, Keeps-require, Keeps-require_some, Keeps-if,
  Keeps-atomically, enforce-Keeps,
}
use agent_craft.Accounts.Steps.Tables.{create_session-Keeps, revoke_where-Keeps, refresh-Keeps}

module _ (R : World → World → Type 0) (c : Closed R) where
  gate-Keeps : (s : UserStatus) → Keeps R (gate s)
  gate-Keeps UserStatus.pending = Keeps-pure R c tt
  gate-Keeps UserStatus.active = Keeps-pure R c tt
  gate-Keeps UserStatus.suspended = record { at = c.same }
  gate-Keeps UserStatus.deleting = record { at = c.same }
  gate-Keeps UserStatus.deleted = record { at = c.same }

  refresh_critical-Keeps : (u : User) (s : Session) (now : ℕ) → Keeps R (refresh_critical u s now)
  refresh_critical-Keeps u s now =
      Keeps-if R c (ltb s.expires_at (now + refresh_threshold))
        (atomically (refresh_if_needed u.id s.id now)) (pure tt)
        (Keeps-atomically R c _ (refresh-Keeps R c u.id s.id now)) (Keeps-pure R c tt)

  admit_request-Keeps :
      (hash : ℕ → ℕ) (r : Request) (now : ℕ) (q : Session × User)
      → Keeps R (admit_request hash r now q)
  admit_request-Keeps hash r now (s, u) = Keeps-require R c (csrf_ok hash r s) _ _ λ _.
      Keeps-bind R c (gate u.status) _ (gate-Keeps u.status) λ _.
        Keeps-bind R c (refresh_critical u s now) _ (refresh_critical-Keeps u s now)
          λ _. Keeps-pure R c (s, u)

  pub get_v2_auth-Keeps : (hash : ℕ → ℕ) (r : Request) (now : ℕ) → Keeps R (get_v2_auth hash r now)
  unfolding get_v2_auth
  get_v2_auth-Keeps hash r now = Keeps-read R c _ λ w.
      Keeps-require_some R c (resolve_session hash r.cookie now w.db) expired_error
        (admit_request hash r now) λ q _. admit_request-Keeps hash r now q

  pub revoke-Keeps : (owner id now : ℕ) → Keeps R (revoke owner id now)
  unfolding revoke
  revoke-Keeps owner id now = revoke_where-Keeps R c _ now

  finalize_row-Keeps :
      (worker : ℕ) (d : Delivery) (row : Mail) → Keeps R (finalize_row worker d row)
  unfolding finalize_row
  finalize_row-Keeps worker d row = record {
    at = λ w. c.outbox w (finalize_mails worker d row w.db.outbox);
  }

  finalize_all-Keeps :
      (worker : ℕ) (deliver : Mail → Delivery) (rows : List Mail) (n : ℕ)
      → Keeps R (finalize_all worker deliver rows n)
  finalize_all-Keeps worker deliver [] n = Keeps-pure R c n
  finalize_all-Keeps worker deliver (row ∷ rows) n =
      Keeps-bind R c (atomically (finalize_row worker (deliver row) row)) _
        (Keeps-atomically R c (finalize_row worker (deliver row) row)
          (finalize_row-Keeps worker (deliver row) row))
        λ ok. finalize_all-Keeps worker deliver rows (if ok then n + 1 else n)

  claim-Keeps : (worker batch now : ℕ) → Keeps R (claim worker batch now)
  unfolding claim
  claim-Keeps worker batch now = record { at = λ w. c.outbox w _ }

  pub dispatch_once-Keeps :
      (worker : ℕ) (deliver : Mail → Delivery) (batch now : ℕ)
      → Keeps R (dispatch_once worker deliver batch now)
  unfolding dispatch_once
  dispatch_once-Keeps worker deliver batch now = Keeps-require R c (leb 1 batch) _ _ λ _.
      Keeps-bind R c (atomically (claim worker batch now)) _
        (Keeps-atomically R c _ (claim-Keeps worker batch now))
        λ rows. finalize_all-Keeps worker deliver rows 0

  start_session-Keeps :
      (p : Primitives) (u : User) (draw : SessionDraw) (label : String) (mfa : Bool) (now : ℕ)
      → Keeps R (start_session p u draw label mfa now)
  unfolding start_session
  start_session-Keeps p u draw label mfa now =
      Keeps-bind R c (atomically (create_session p.hash_token u.id draw label mfa now)) _
        (Keeps-atomically R c _ (create_session-Keeps R c p.hash_token u.id draw label mfa now))
        λ _. Keeps-pure R c _

  login_gate-Keeps : (s : UserStatus) → Keeps R (login_gate s)
  login_gate-Keeps UserStatus.pending = Keeps-pure R c tt
  login_gate-Keeps UserStatus.active = Keeps-pure R c tt
  login_gate-Keeps UserStatus.suspended = Keeps-raise R c _
  login_gate-Keeps UserStatus.deleting = Keeps-raise R c _
  login_gate-Keeps UserStatus.deleted = Keeps-pure R c tt

  create_challenge-Keeps : (id user_id now : ℕ) → Keeps R (create_challenge id user_id now)
  unfolding create_challenge
  create_challenge-Keeps id user_id now = record { at = λ w. c.challenges w _ }

  second_step-Keeps :
      (p : Primitives) (u : User) (e : Option ℕ) (id : ℕ) (draw : SessionDraw) (label : String)
      (now : ℕ)
      → Keeps R (second_step p u e id draw label now)
  second_step-Keeps p u (some e) id draw label now =
      Keeps-bind R c (create_challenge id u.id now) _ (create_challenge-Keeps id u.id now)
        λ _. Keeps-pure R c _
  second_step-Keeps p u none id draw label now = start_session-Keeps p u draw label false now

  pub login-Keeps :
      (p : Primitives) (email : Email) (password ip id : ℕ) (draw : SessionDraw) (label : String)
      (now : ℕ)
      → Keeps R (login p email password ip id draw label now)
  unfolding login
  login-Keeps p email password ip id draw label now =
      Keeps-bind R c (enforce Scope.login _ now) _ (enforce-Keeps R c Scope.login _ now) λ _.
        Keeps-read R c _ λ w.
          Keeps-require_some R c (known_user (user_by_email (p.fold_email email) w.db)) _ _ λ u _.
            Keeps-require R c (p.verify_password password u.password_hash) _ _ λ _.
              Keeps-bind R c (login_gate u.status) _ (login_gate-Keeps u.status)
                λ _. second_step-Keeps p u u.mfa_secret_enc id draw label now

  pub mfa_failure-Keeps : (p : Primitives) (id now : ℕ) → Keeps R (enforce_mfa_failure p id now)
  mfa_failure-Keeps p id now = enforce-Keeps R c Scope.mfa_failure _ now

  record_failure-Keeps : (id : ℕ) → Keeps R (record_failure id)
  unfolding record_failure
  record_failure-Keeps id = record { at = λ w. c.challenges w _ }

  destroy-Keeps : (id : ℕ) → Keeps R (destroy id)
  unfolding destroy
  destroy-Keeps id = record { at = λ w. c.challenges w _ }

  get_challenge-Keeps : (id now : ℕ) → Keeps R (get_challenge id now)
  unfolding get_challenge
  get_challenge-Keeps id now = record { at = λ w. c.challenges w _ }

  wrong_code-Keeps : (p : Primitives) (e : Challenge) (now : ℕ) → Keeps R (wrong_code p e now)
  wrong_code-Keeps p e now =
      Keeps-bind R c (enforce_mfa_failure p e.user_id now) _ (mfa_failure-Keeps p e.user_id now)
        λ _.
          Keeps-bind R c (record_failure e.id) _ (record_failure-Keeps e.id)
            λ _. Keeps-raise R c (invalid_mfa 401)

  right_code-Keeps :
      (p : Primitives) (e : Challenge) (u : User) (draw : SessionDraw) (label : String) (now : ℕ)
      → Keeps R (right_code p e u draw label now)
  right_code-Keeps p e u draw label now =
      Keeps-bind R c (destroy e.id) _ (destroy-Keeps e.id)
        λ _. start_session-Keeps p u draw label true now

  pub login_mfa-Keeps :
      (p : Primitives) (id code : ℕ) (draw : SessionDraw) (label : String) (now : ℕ)
      → Keeps R (login_mfa p id code draw label now)
  unfolding login_mfa
  login_mfa-Keeps p id code draw label now =
      Keeps-bind R c (get_challenge id now) _ (get_challenge-Keeps id now) λ entry.
        Keeps-require_some R c entry _ _ λ e _. Keeps-read R c _ λ w.
          Keeps-require_some R c (find_user e.user_id w.db) _ _ λ u _.
            Keeps-require_some R c (secret_of p u) _ _ λ secret _.
              Keeps-if R c (p.totp_verify secret code now) (right_code p e u draw label now)
                (wrong_code p e now) (right_code-Keeps p e u draw label now)
                (wrong_code-Keeps p e now)
