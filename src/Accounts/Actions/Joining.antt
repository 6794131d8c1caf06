-- ===== src/Accounts/Actions/Joining.antt =====
-- backend/v2/invitation_service.py and password_service.py, within a relation that is closed under
-- their statements.
use agent_craft.Prelude.{
  ℕ, String, Bool, true, false, ◌==◌, refl, Option, none, some, find, any, Bool-cases, inl, inr,
  ◌||◌,
}
use agent_craft.Accounts.Rows.{User, Purpose, Email, Scope, Invitation, same_email}
use agent_craft.Accounts.Service.{World, atomically, pure}
use agent_craft.Accounts.Primitives.{Primitives}
use agent_craft.Accounts.Idempotency.{Ticket, Idem, begin, store}
use agent_craft.Accounts.RateLimit.{enforce}
use agent_craft.Accounts.Sessions.{revoke_all}
use agent_craft.Accounts.Tokens.{
  TokenDraw, find_token, usable_token, consume_token, invalidate_prior, issue_token,
}
use agent_craft.Accounts.Users.{user_by_email, update_user}
use agent_craft.Accounts.Invitations.{
  AcceptDraw, accept_invitation, accept_fresh, accept_tx, lock_and_validate, matched, insert_user,
  new_user, persist_account, consume_invitation, is_valid,
}
use agent_craft.Accounts.Passwords.{
  request_reset, send_reset, confirm_reset, reset_fresh, reset_tx, change_password, totp_gate,
  verify_change_totp, count_failure, with_password, is_resettable, invalid_code, check_code,
}
use agent_craft.Accounts.Changes.{Closed, Keeps, UserChange, stays}
use agent_craft.Accounts.Steps.{
  Keeps-pure, Keeps-raise, Keeps-bind, Keeps-read, Keeps-require, Keeps-require_some, Keeps-if,
  Keeps-atomically, enforce-Keeps, begin-Keeps, store-Keeps, replay_or-Keeps,
}
use agent_craft.Accounts.Steps.Tables.{
  create_session-Keeps, issue_token-Keeps, consume_token-Keeps, invalidate_prior-Keeps,
  revoke_where-Keeps, revoke_all-Keeps, update_user-Keeps,
}

-- A password or an envelope changes nothing else.
pub with_password-Change : (h : ℕ) (u : User) → UserChange u (with_password h u)
with_password-Change h u = record { same_id = refl; move = stays; consistent = λ k. k }

module _ (R : World → World → Type 0) (c : Closed R) where
  insert_user-Keeps : (id : ℕ) (email : Email) (h : ℕ) → Keeps R (insert_user (new_user id email h))
  insert_user-Keeps id email h = record {
    at = λ w. elim (Bool-cases (any (λ x. same_email x.email email || x.id == id) w.db.users)) [
      | inl e ↦ rw e (c.same w)
      | inr e ↦ rw e (c.user_in w id email h)
    ];
  }

  matched-Keeps : (b : Bool) (inv : Invitation) → Keeps R (matched b inv)
  matched-Keeps true inv = record { at = c.same }
  matched-Keeps false inv = record { at = λ w. c.mismatches w _ }

  lock_and_validate-Keeps :
      (hash : ℕ → ℕ) (token : ℕ) (email : Email) (now : ℕ)
      → Keeps R (lock_and_validate hash token email now)
  unfolding lock_and_validate
  lock_and_validate-Keeps hash token email now = Keeps-read R c _ λ w.
      Keeps-require_some R c (find (λ i. i.token_hash == hash token) w.db.invitations) _ _ λ inv _.
        Keeps-require R c (is_valid now inv) _ _ λ _. matched-Keeps (same_email inv.email email) inv

  persist_account-Keeps :
      (hash : ℕ → ℕ) (draw : AcceptDraw) (email : Email) (label : String) (now : ℕ)
      → Keeps R (persist_account hash draw email label now)
  unfolding persist_account
  persist_account-Keeps hash draw email label now =
      Keeps-bind R c (insert_user (new_user draw.user_id email draw.password_hash)) _
        (insert_user-Keeps draw.user_id email draw.password_hash)
        λ _. create_session-Keeps R c hash draw.user_id draw.session label false now

  consume_invitation-Keeps : (id now : ℕ) → Keeps R (consume_invitation id now)
  unfolding consume_invitation
  consume_invitation-Keeps id now = record { at = λ w. c.invitations w _ }

  accept_tx-Keeps :
      (p : Primitives) (token : ℕ) (email : Email) (draw : AcceptDraw) (label : String) (t : Ticket)
      (now : ℕ)
      → Keeps R (accept_tx p token email draw label t now)
  unfolding accept_tx
  accept_tx-Keeps p token email draw label t now =
      Keeps-bind R c (lock_and_validate p.hash_token token email now) _
        (lock_and_validate-Keeps p.hash_token token email now)
        λ inv.
          Keeps-bind R c (persist_account p.hash_token draw email label now) _
            (persist_account-Keeps p.hash_token draw email label now)
            λ _.
              Keeps-bind R c (consume_invitation inv.id now) _ (consume_invitation-Keeps inv.id now)
                λ n. Keeps-require R c (n == 1) _ _ λ _.
                  Keeps-bind R c
                    (issue_token p.hash_token p.validate_email Purpose.email_verify draw.user_id
                      email draw.token now)
                    _
                    (issue_token-Keeps R c p.hash_token p.validate_email Purpose.email_verify
                      draw.user_id email draw.token now)
                    λ _.
                      Keeps-bind R c (store t _ now) _ (store-Keeps R c t _ now)
                        λ _. Keeps-pure R c _

  pub accept_invitation-Keeps :
      (p : Primitives) (token : ℕ) (email : Email) (ip : ℕ) (draw : AcceptDraw) (label : String)
      (idem : Idem) (now : ℕ)
      → Keeps R (accept_invitation p token email ip draw label idem now)
  unfolding accept_invitation accept_fresh
  accept_invitation-Keeps p token email ip draw label idem now =
      Keeps-bind R c (enforce Scope.invitation_accept _ now) _
        (enforce-Keeps R c Scope.invitation_accept _ now)
        λ _. Keeps-bind R c (begin _ now) _ (begin-Keeps R c _ now) λ known.
          replay_or-Keeps R c known (accept_fresh p token email draw label _ now) (
            Keeps-require_some R c (p.validate_email email) _ _ λ checked _.
              Keeps-atomically R c _
                (accept_tx-Keeps p token (p.fold_email checked) draw label _ now))

  send_reset-Keeps :
      (p : Primitives) (o : Option User) (draw : TokenDraw) (now : ℕ)
      → Keeps R (send_reset p o draw now)
  send_reset-Keeps p none draw now = Keeps-pure R c tt
  send_reset-Keeps p (some u) draw now =
      Keeps-if R c (is_resettable u.status) _ (pure tt)
        (Keeps-atomically R c _ (
          Keeps-bind R c (invalidate_prior u.id Purpose.password_reset now) _
            (invalidate_prior-Keeps R c u.id Purpose.password_reset now)
            λ _.
              issue_token-Keeps R c p.hash_token p.validate_email Purpose.password_reset u.id
                u.email draw now))
        (Keeps-pure R c tt)

  pub request_reset-Keeps :
      (p : Primitives) (email : Email) (ip : ℕ) (draw : TokenDraw) (now : ℕ)
      → Keeps R (request_reset p email ip draw now)
  unfolding request_reset
  request_reset-Keeps p email ip draw now =
      Keeps-bind R c (enforce Scope.password_reset_request _ now) _
        (enforce-Keeps R c Scope.password_reset_request _ now)
        λ _.
          Keeps-read R c _
            λ w. send_reset-Keeps p (user_by_email (p.fold_email email) w.db) draw now

  reset_tx-Keeps :
      (hash : ℕ → ℕ) (owner token h : ℕ) (t : Ticket) (now : ℕ)
      → Keeps R (reset_tx hash owner token h t now)
  unfolding reset_tx
  reset_tx-Keeps hash owner token h t now = Keeps-read R c _ λ w.
      Keeps-require_some R c (usable_token owner (hash token) Purpose.password_reset now w.db) _ _
        λ row _.
          Keeps-bind R c (consume_token owner row.id now) _
            (consume_token-Keeps R c owner row.id now)
            λ m. Keeps-require R c (m == 1) _ _ λ _.
              Keeps-bind R c (update_user owner is_resettable (with_password h)) _
                (update_user-Keeps R c owner is_resettable (with_password h)
                  (λ u _ _. with_password-Change h u))
                λ n. Keeps-require R c (n == 1) _ _ λ _.
                  Keeps-bind R c (revoke_all owner now) _ (revoke_all-Keeps R c owner now) λ _.
                    Keeps-bind R c (store t _ now) _ (store-Keeps R c t _ now) λ _. Keeps-pure R c _

  pub confirm_reset-Keeps :
      (p : Primitives) (token h : ℕ) (idem : Idem) (now : ℕ)
      → Keeps R (confirm_reset p token h idem now)
  unfolding confirm_reset reset_fresh
  confirm_reset-Keeps p token h idem now =
      Keeps-bind R c (begin _ now) _ (begin-Keeps R c _ now) λ known.
        replay_or-Keeps R c known (reset_fresh p.hash_token token h _ now) (
          Keeps-read R c _ λ w.
            Keeps-require_some R c (find_token (p.hash_token token) Purpose.password_reset w.db) _ _
              λ row _.
                Keeps-atomically R c _ (reset_tx-Keeps p.hash_token row.user_id token h _ now))

  count_failure-Keeps : (p : Primitives) (user_id now : ℕ) → Keeps R (count_failure p user_id now)
  count_failure-Keeps p user_id now =
      Keeps-bind R c (enforce Scope.password_change_totp _ now) _
        (enforce-Keeps R c Scope.password_change_totp _ now) λ _. Keeps-raise R c invalid_code

  check_code-Keeps :
      (p : Primitives) (user_id code : ℕ) (o : Option ℕ) (now : ℕ)
      → Keeps R (check_code p user_id code o now)
  check_code-Keeps p user_id code none now = Keeps-raise R c invalid_code
  check_code-Keeps p user_id code (some secret) now =
      Keeps-if R c (p.totp_verify secret code now) (pure tt) (count_failure p user_id now)
        (Keeps-pure R c tt) (count_failure-Keeps p user_id now)

  verify_change_totp-Keeps :
      (p : Primitives) (user_id envelope : ℕ) (code : Option ℕ) (now : ℕ)
      → Keeps R (verify_change_totp p user_id envelope code now)
  unfolding verify_change_totp
  verify_change_totp-Keeps p user_id envelope none now = count_failure-Keeps p user_id now
  verify_change_totp-Keeps p user_id envelope (some code) now =
      check_code-Keeps p user_id code (p.decrypt_secret user_id envelope) now

  pub totp_gate-Keeps :
      (p : Primitives) (user_id : ℕ) (e code : Option ℕ) (now : ℕ)
      → Keeps R (totp_gate p user_id e code now)
  totp_gate-Keeps p user_id none code now = Keeps-pure R c tt
  totp_gate-Keeps p user_id (some e) code now = verify_change_totp-Keeps p user_id e code now

  pub change_password-Keeps :
      (p : Primitives) (u : User) (session_id current h : ℕ) (code : Option ℕ) (now : ℕ)
      → Keeps R (change_password p u session_id current h code now)
  unfolding change_password
  change_password-Keeps p u session_id current h code now =
      Keeps-bind R c (totp_gate p u.id u.mfa_secret_enc code now) _
        (totp_gate-Keeps p u.id u.mfa_secret_enc code now)
        λ _. Keeps-require R c (p.verify_password current u.password_hash) _ _ λ _.
          Keeps-bind R c (atomically _) _
            (Keeps-atomically R c _ (
              Keeps-bind R c (update_user u.id _ (with_password h)) _
                (update_user-Keeps R c u.id _ (with_password h) (λ v _ _. with_password-Change h v))
                λ _. revoke_where-Keeps R c _ now))
            λ _. Keeps-pure R c _
