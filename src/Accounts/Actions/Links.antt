-- ===== src/Accounts/Actions/Links.antt =====
-- backend/v2/verification_service.py, within a relation that is closed under its statements.
use agent_craft.Prelude.{ℕ, true, ◌==◌, ◌≡◌, refl, sym, subst, ◌||◌, is_none}
use agent_craft.Accounts.Rows.{User, UserStatus, Purpose, Email, Body, Scope, has_status}
use agent_craft.Accounts.Rows.Same.{has_status→eq}
use agent_craft.Accounts.Service.{World, require, pure, no_result_found}
use agent_craft.Accounts.Primitives.{Primitives}
use agent_craft.Accounts.Idempotency.{Ticket, Idem, begin, store}
use agent_craft.Accounts.RateLimit.{enforce}
use agent_craft.Accounts.Tokens.{
  TokenDraw, find_token, usable_token, consume_token, invalidate_prior,
}
use agent_craft.Accounts.Users.{find_user, update_user}
use agent_craft.Accounts.Verification.{
  confirm_email, confirm_fresh, confirm_tx, resend_email, was_active, activated, active_already,
  invalid_link,
}
use agent_craft.Accounts.Changes.{Closed, Keeps, UserChange, Move, verifies}
use agent_craft.Accounts.Steps.{
  Keeps-pure, Keeps-bind, Keeps-read, Keeps-require, Keeps-require_some, Keeps-if, Keeps-check,
  Keeps-atomically, enforce-Keeps, begin-Keeps, store-Keeps, replay_or-Keeps,
}
use agent_craft.Accounts.Steps.Tables.{
  issue_token-Keeps, consume_token-Keeps, invalidate_prior-Keeps, update_user-Keeps,
}

-- A confirmation makes a pending user active.
activated-Change :
    (u : User) → has_status u.status UserStatus.pending ≡ true → UserChange u (activated u)
activated-Change u e =
    let st = has_status→eq u.status UserStatus.pending e in
    record {
      same_id = refl;
      move = subst (λ s. Move s UserStatus.active) (sym st) verifies;
      consistent = λ k. (
        subst (λ s. (is_none u.deleted_at || has_status s UserStatus.deleted) ≡ true) st k.0,
        subst (λ s. (is_none u.deletion_deadline_at || has_status s UserStatus.deleting) ≡ true) st
            k.1,
      );
    }

module _ (R : World → World → Type 0) (c : Closed R) where
  active_already-Keeps : (owner : ℕ) → Keeps R (active_already owner)
  active_already-Keeps owner = Keeps-read R c _ λ w.
      Keeps-require_some R c (find_user owner w.db) no_result_found
        (λ u. require (has_status u.status UserStatus.active) invalid_link)
        λ u _. Keeps-check R c (has_status u.status UserStatus.active) invalid_link

  was_active-Keeps : (owner n : ℕ) → Keeps R (was_active owner n)
  was_active-Keeps owner n =
      Keeps-if R c (n == 0) (active_already owner) (pure tt) (active_already-Keeps owner)
        (Keeps-pure R c tt)

  confirm_tx-Keeps :
      (hash : ℕ → ℕ) (owner token : ℕ) (t : Ticket) (now : ℕ)
      → Keeps R (confirm_tx hash owner token t now)
  unfolding confirm_tx
  confirm_tx-Keeps hash owner token t now = Keeps-read R c _ λ w.
      Keeps-require_some R c (usable_token owner (hash token) Purpose.email_verify now w.db) _ _
        λ row _.
          Keeps-bind R c (update_user owner (λ s. has_status s UserStatus.pending) activated) _
            (update_user-Keeps R c owner _ activated (λ u _ e. activated-Change u e))
            λ n. Keeps-bind R c (was_active owner n) _ (was_active-Keeps owner n) λ _.
              Keeps-bind R c (consume_token owner row.id now) _
                (consume_token-Keeps R c owner row.id now)
                λ m. Keeps-require R c (m == 1) _ _ λ _.
                  Keeps-bind R c (store t _ now) _ (store-Keeps R c t _ now)
                    λ _. Keeps-pure R c Body.verified

  pub confirm_email-Keeps :
      (p : Primitives) (token : ℕ) (idem : Idem) (now : ℕ)
      → Keeps R (confirm_email p token idem now)
  unfolding confirm_email confirm_fresh
  confirm_email-Keeps p token idem now =
      Keeps-bind R c (begin _ now) _ (begin-Keeps R c _ now) λ known.
        replay_or-Keeps R c known (confirm_fresh p.hash_token token _ now) (
          Keeps-read R c _ λ w.
            Keeps-require_some R c (find_token (p.hash_token token) Purpose.email_verify w.db) _ _
              λ row _.
                Keeps-atomically R c _ (confirm_tx-Keeps p.hash_token row.user_id token _ now))

  pub resend_email-Keeps :
      (p : Primitives) (user_id : ℕ) (to : Email) (status : UserStatus) (draw : TokenDraw) (now : ℕ)
      → Keeps R (resend_email p user_id to status draw now)
  unfolding resend_email
  resend_email-Keeps p user_id to status draw now =
      Keeps-bind R c (enforce _ _ now) _ (enforce-Keeps R c Scope.email_verify_resend _ now) λ _.
        Keeps-require R c (has_status status UserStatus.pending) _ _ λ _. Keeps-atomically R c _ (
          Keeps-bind R c (invalidate_prior user_id Purpose.email_verify now) _
            (invalidate_prior-Keeps R c user_id Purpose.email_verify now)
            λ _.
              issue_token-Keeps R c p.hash_token p.validate_email Purpose.email_verify user_id to
                draw now)
