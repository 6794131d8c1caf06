-- ===== src/Accounts/Actions/Leaving.antt =====
-- backend/v2/deletion_service.py, and the second factor's services of login_service.py, within a relation
-- that is closed under their statements.
use agent_craft.Prelude.{
  ℕ, String, Bool, true, false, ◌==◌, ◌≡◌, refl, Option, none, some, List, [], ◌∷◌, is_none, ◌+◌,
  if◌then◌else◌, subst, sym, ◌||◌,
}
use agent_craft.Accounts.Rows.{User, UserStatus, Role, Scope, Purpose, has_status}
use agent_craft.Accounts.Service.{World, Service, atomically, write}
use agent_craft.Accounts.Primitives.{Primitives}
use agent_craft.Accounts.RateLimit.{enforce}
use agent_craft.Accounts.Sessions.{SessionDraw, create_session, revoke_all}
use agent_craft.Accounts.Users.{find_user, update_user}
use agent_craft.Accounts.Challenges.{put_secret, get_secret, pop_secret}
use agent_craft.Accounts.Login.{
  verify_mfa, setup_mfa, activate_mfa, disable_mfa, secret_of, enforce_mfa_failure, has_envelope,
  stamp_mfa, check_mfa, any_status, with_envelope, is_stampable, stamped,
}
use agent_craft.Accounts.Changes.{Closed, Keeps, UserChange, stays, Move, closes, reopens, erases}
use agent_craft.Accounts.Steps.{
  Keeps-pure, Keeps-raise, Keeps-bind, Keeps-read, Keeps-require, Keeps-require_some,
  Keeps-atomically, enforce-Keeps, begin-Keeps, store-Keeps, replay_or-Keeps,
}
use agent_craft.Accounts.Steps.Tables.{
  create_session-Keeps, update_user-Keeps, issue_token-Keeps, consume_token-Keeps, revoke_all-Keeps,
}
use agent_craft.Accounts.Rows.Same.{has_status→eq}
use agent_craft.Accounts.Idempotency.{Ticket, Idem, begin, store}
use agent_craft.Accounts.Tokens.{TokenDraw, usable_token, consume_token, issue_token}
use agent_craft.Accounts.Passwords.{totp_gate}
use agent_craft.Accounts.Deletion.{
  request_deletion, request_tx, gate_active, deactivated, is_active, is_deleting, reactivated,
  cancel_deletion, cancel_tx, cancel_found, owner_of_token, closing_user, sweep_expired,
  sweep_users, sweep_user, after_anonymize, anonymized, drop_providers,
}
use agent_craft.Accounts.Actions.Joining.{totp_gate-Keeps}
use agent_craft.Accounts.Actions.Entries.{mfa_failure-Keeps}

deactivated-Change :
    (now : ℕ) (u : User) → is_active u.status ≡ true → UserChange u (deactivated now u)
deactivated-Change now u e =
    let st = has_status→eq u.status UserStatus.active e in
    record {
      same_id = refl;
      move = subst (λ s. Move s UserStatus.deleting) (sym st) closes;
      consistent = λ k. (
        subst (λ s. (is_none u.deleted_at || has_status s UserStatus.deleted) ≡ true) st k.0,
        refl,
      );
    }

reactivated-Change : (u : User) → is_deleting u.status ≡ true → UserChange u (reactivated u)
reactivated-Change u e =
    let st = has_status→eq u.status UserStatus.deleting e in
    record {
      same_id = refl;
      move = subst (λ s. Move s UserStatus.active) (sym st) reopens;
      consistent = λ k. (
        subst (λ s. (is_none u.deleted_at || has_status s UserStatus.deleted) ≡ true) st k.0,
        refl,
      );
    }

anonymized-Change :
    (random_hash : ℕ → ℕ) (now : ℕ) (u : User)
    → is_deleting u.status ≡ true
    → UserChange u (anonymized random_hash now u)
anonymized-Change random_hash now u e =
    let st = has_status→eq u.status UserStatus.deleting e in
    record {
      same_id = refl;
      move = subst (λ s. Move s UserStatus.deleted) (sym st) erases;
      consistent = λ k. (refl, refl);
    }

with_envelope-Change : (e : Option ℕ) (u : User) → UserChange u (with_envelope e u)
with_envelope-Change e u = record { same_id = refl; move = stays; consistent = λ k. k }

module _ (R : World → World → Type 0) (c : Closed R) where
  stamp_mfa-Keeps : (owner id now : ℕ) → Keeps R (stamp_mfa owner id now)
  stamp_mfa-Keeps owner id now = record {
    at = λ w.
        c.sessions w (is_stampable owner id) (stamped now)
          (λ s _. record { same_token = refl; same_owner = refl; still_revoked = λ r. r });
  }

  check_mfa-Keeps :
      (p : Primitives) (id : ℕ) (b : Bool) (status now : ℕ) → Keeps R (check_mfa p id b status now)
  check_mfa-Keeps p id true status now = Keeps-pure R c tt
  check_mfa-Keeps p id false status now =
      Keeps-bind R c (enforce_mfa_failure p id now) _ (mfa_failure-Keeps R c p id now)
        λ _. Keeps-raise R c _

  pub verify_mfa-Keeps :
      (p : Primitives) (user_id session_id code now : ℕ)
      → Keeps R (verify_mfa p user_id session_id code now)
  unfolding verify_mfa
  verify_mfa-Keeps p user_id session_id code now = Keeps-read R c _ λ w.
      Keeps-require_some R c (has_envelope (find_user user_id w.db)) _ _ λ u _.
        Keeps-require_some R c (secret_of p u) _ _ λ secret _.
          Keeps-bind R c (check_mfa p user_id (p.totp_verify secret code now) 401 now) _
            (check_mfa-Keeps p user_id (p.totp_verify secret code now) 401 now)
            λ _.
              Keeps-atomically R c (stamp_mfa user_id session_id now)
                (stamp_mfa-Keeps user_id session_id now)

  put_secret-Keeps : (user_id secret now : ℕ) → Keeps R (put_secret user_id secret now)
  unfolding put_secret
  put_secret-Keeps user_id secret now = record { at = λ w. c.secrets w _ }

  get_secret-Keeps : (user_id now : ℕ) → Keeps R (get_secret user_id now)
  unfolding get_secret
  get_secret-Keeps user_id now = record { at = λ w. c.secrets w _ }

  pop_secret-Keeps : (user_id : ℕ) → Keeps R (pop_secret user_id)
  unfolding pop_secret
  pop_secret-Keeps user_id = record { at = λ w. c.secrets w _ }

  pub setup_mfa-Keeps : (user_id secret now : ℕ) → Keeps R (setup_mfa user_id secret now)
  unfolding setup_mfa
  setup_mfa-Keeps user_id secret now =
      Keeps-bind R c (put_secret user_id secret now) _ (put_secret-Keeps user_id secret now)
        λ _. Keeps-pure R c secret

  envelope-Keeps :
      (user_id : ℕ) (e : Option ℕ) → Keeps R (update_user user_id any_status (with_envelope e))
  envelope-Keeps user_id e =
      update_user-Keeps R c user_id any_status (with_envelope e) (λ u _ _. with_envelope-Change e u)

  pub activate_mfa-Keeps :
      (p : Primitives) (user_id session_id code : ℕ) (encrypt : ℕ → ℕ) (now : ℕ)
      → Keeps R (activate_mfa p user_id session_id code encrypt now)
  unfolding activate_mfa
  activate_mfa-Keeps p user_id session_id code encrypt now =
      Keeps-bind R c (get_secret user_id now) _ (get_secret-Keeps user_id now) λ pending.
        Keeps-require_some R c pending _ _ λ secret _.
          Keeps-bind R c (check_mfa p user_id (p.totp_verify secret code now) 400 now) _
            (check_mfa-Keeps p user_id (p.totp_verify secret code now) 400 now)
            λ _.
              Keeps-bind R c (atomically _) _
                (Keeps-atomically R c _ (
                  Keeps-bind R c
                    (update_user user_id any_status (with_envelope (some (encrypt secret)))) _
                    (envelope-Keeps user_id (some (encrypt secret)))
                    λ _. stamp_mfa-Keeps user_id session_id now))
                λ _. pop_secret-Keeps user_id

  pub disable_mfa-Keeps : (user_id : ℕ) (role : Role) → Keeps R (disable_mfa user_id role)
  unfolding disable_mfa
  disable_mfa-Keeps user_id Role.admin = Keeps-raise R c _
  disable_mfa-Keeps user_id Role.user =
      Keeps-bind R c (atomically (update_user user_id any_status (with_envelope none))) _
        (Keeps-atomically R c _ (envelope-Keeps user_id none)) λ _. Keeps-pure R c tt

  gate_active-Keeps : (s : UserStatus) → Keeps R (gate_active s)
  gate_active-Keeps UserStatus.pending = Keeps-raise R c _
  gate_active-Keeps UserStatus.active = Keeps-pure R c tt
  gate_active-Keeps UserStatus.suspended = Keeps-raise R c _
  gate_active-Keeps UserStatus.deleting = Keeps-raise R c _
  gate_active-Keeps UserStatus.deleted = Keeps-raise R c _

  module _ (hook : ℕ → Service (Unit {0})) (hook-Keeps : (id : ℕ) → Keeps R (hook id)) where
    request_tx-Keeps :
        (p : Primitives) (u : User) (draw : TokenDraw) (t : Ticket) (now : ℕ)
        → Keeps R (request_tx p hook u draw t now)
    unfolding request_tx
    request_tx-Keeps p u draw t now =
        Keeps-bind R c (update_user u.id is_active (deactivated now)) _
          (update_user-Keeps R c u.id is_active (deactivated now)
            (λ v _ e. deactivated-Change now v e))
          λ n. Keeps-require R c (n == 1) _ _ λ _.
            Keeps-bind R c (revoke_all u.id now) _ (revoke_all-Keeps R c u.id now) λ _.
              Keeps-bind R c (hook u.id) _ (hook-Keeps u.id) λ _.
                Keeps-bind R c
                  (issue_token p.hash_token p.validate_email Purpose.deletion_cancel u.id u.email
                    draw now)
                  _
                  (issue_token-Keeps R c p.hash_token p.validate_email Purpose.deletion_cancel u.id
                    u.email draw now)
                  λ _.
                    Keeps-bind R c (store t _ now) _ (store-Keeps R c t _ now) λ _. Keeps-pure R c _

    pub request_deletion-Keeps :
        (p : Primitives) (u : User) (password : ℕ) (code : Option ℕ) (draw : TokenDraw)
        (idem : Idem) (now : ℕ)
        → Keeps R (request_deletion p hook u password code draw idem now)
    unfolding request_deletion
    request_deletion-Keeps p u password code draw idem now =
        Keeps-bind R c (gate_active u.status) _ (gate_active-Keeps u.status) λ _.
          Keeps-bind R c (totp_gate p u.id u.mfa_secret_enc code now) _
            (totp_gate-Keeps R c p u.id u.mfa_secret_enc code now)
            λ _. Keeps-require R c (p.verify_password password u.password_hash) _ _ λ _.
              Keeps-bind R c (begin _ now) _ (begin-Keeps R c _ now) λ known.
                replay_or-Keeps R c known (atomically (request_tx p hook u draw _ now))
                  (Keeps-atomically R c _ (request_tx-Keeps p u draw _ now))

  cancel_tx-Keeps :
      (p : Primitives) (owner token password : ℕ) (draw : SessionDraw) (label : String) (t : Ticket)
      (now : ℕ)
      → Keeps R (cancel_tx p owner token password draw label t now)
  unfolding cancel_tx
  cancel_tx-Keeps p owner token password draw label t now = Keeps-read R c _ λ w.
      Keeps-require_some R c
        (usable_token owner (p.hash_token token) Purpose.deletion_cancel now w.db) _ _
        λ row _. Keeps-require_some R c (closing_user (find_user owner w.db)) _ _ λ u _.
          Keeps-require R c (p.verify_password password u.password_hash) _ _ λ _.
            Keeps-bind R c (update_user owner is_deleting reactivated) _
              (update_user-Keeps R c owner is_deleting reactivated
                (λ v _ e. reactivated-Change v e))
              λ n. Keeps-require R c (n == 1) _ _ λ _.
                Keeps-bind R c (consume_token owner row.id now) _
                  (consume_token-Keeps R c owner row.id now)
                  λ m. Keeps-require R c (m == 1) _ _ λ _.
                    Keeps-bind R c (create_session p.hash_token owner draw label false now) _
                      (create_session-Keeps R c p.hash_token owner draw label false now)
                      λ _.
                        Keeps-bind R c (store t _ now) _ (store-Keeps R c t _ now)
                          λ _. Keeps-pure R c _

  cancel_found-Keeps :
      (p : Primitives) (o : Option ℕ) (token password ip : ℕ) (draw : SessionDraw) (label : String)
      (t : Ticket) (now : ℕ)
      → Keeps R (cancel_found p o token password ip draw label t now)
  cancel_found-Keeps p none token password ip draw label t now =
      Keeps-bind R c (enforce Scope.deletion_cancel_invalid _ now) _
        (enforce-Keeps R c Scope.deletion_cancel_invalid _ now) λ _. Keeps-raise R c _
  cancel_found-Keeps p (some owner) token password ip draw label t now =
      Keeps-bind R c (enforce Scope.deletion_cancel_attempt _ now) _
        (enforce-Keeps R c Scope.deletion_cancel_attempt _ now)
        λ _. Keeps-atomically R c _ (cancel_tx-Keeps p owner token password draw label t now)

  pub cancel_deletion-Keeps :
      (p : Primitives) (token password ip : ℕ) (draw : SessionDraw) (label : String) (idem : Idem)
      (now : ℕ)
      → Keeps R (cancel_deletion p token password ip draw label idem now)
  unfolding cancel_deletion
  cancel_deletion-Keeps p token password ip draw label idem now =
      Keeps-bind R c (begin _ now) _ (begin-Keeps R c _ now) λ known. replay_or-Keeps R c known _ (
        Keeps-read R c _ λ w.
          cancel_found-Keeps p (owner_of_token (p.hash_token token) w.db) token password ip draw
            label _ now)

  after_anonymize-Keeps : (id : ℕ) (b : Bool) (now : ℕ) → Keeps R (after_anonymize id b now)
  after_anonymize-Keeps id false now = Keeps-pure R c false
  after_anonymize-Keeps id true now =
      Keeps-bind R c (write (drop_providers id)) _ (record { at = λ w. c.providers w _ })
        λ _.
          Keeps-bind R c (revoke_all id now) _ (revoke_all-Keeps R c id now)
            λ _. Keeps-pure R c true

  sweep_user-Keeps : (h : ℕ → ℕ) (id now : ℕ) → Keeps R (sweep_user h id now)
  unfolding sweep_user
  sweep_user-Keeps h id now =
      Keeps-bind R c (update_user id is_deleting (anonymized h now)) _
        (update_user-Keeps R c id is_deleting (anonymized h now)
          (λ u _ e. anonymized-Change h now u e))
        λ n. after_anonymize-Keeps id (n == 1) now

  sweep_users-Keeps : (h : ℕ → ℕ) (ids : List ℕ) (n now : ℕ) → Keeps R (sweep_users h ids n now)
  sweep_users-Keeps h [] n now = Keeps-pure R c n
  sweep_users-Keeps h (id ∷ ids) n now =
      Keeps-bind R c (atomically (sweep_user h id now)) _
        (Keeps-atomically R c (sweep_user h id now) (sweep_user-Keeps h id now))
        λ done. sweep_users-Keeps h ids (if done then n + 1 else n) now

  pub sweep_expired-Keeps : (h : ℕ → ℕ) (now : ℕ) → Keeps R (sweep_expired h now)
  unfolding sweep_expired
  sweep_expired-Keeps h now = Keeps-read R c _ λ w. sweep_users-Keeps h _ 0 now
