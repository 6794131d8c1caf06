-- ===== src/Accounts/Steps/Tables.antt =====
-- The statements on sessions, tokens, mails and users, within a relation that is closed under them.
use agent_craft.Prelude.{
  ℕ, String, Bool, true, ◌&&◌, ◌==◌, ◌≡◌, refl, Option, [], ◌∷◌, ◌++◌, any, Bool-cases, inl, inr,
  and_left, and_right, ==→eq,
}
use agent_craft.Accounts.Rows.{
  User, Session, ActionToken, Mail, UserStatus, Purpose, Email, Template,
}
use agent_craft.Accounts.Service.{World}
use agent_craft.Accounts.Outbox.{enqueue, insert_mail, new_mail}
use agent_craft.Accounts.Sessions.{
  SessionDraw, insert_session, create_session, revoke_all, revoke_where, revoked, refresh_if_needed,
  new_session, is_unrevoked, is_critical, extended,
}
use agent_craft.Accounts.Tokens.{
  TokenDraw, insert_token, issue_token, consume_token, consume_where, invalidate_prior, new_token,
}
use agent_craft.Accounts.Users.{update_user}
use agent_craft.Accounts.Changes.{Closed, Keeps, UserChange}
use agent_craft.Accounts.Steps.{Keeps-bind, Keeps-require_some}

module _ (R : World → World → Type 0) (c : Closed R) where
  -- An insert behind the test of its unique index.
  pub insert_session-Keeps : (s : Session) → Keeps R (insert_session s)
  insert_session-Keeps s = record {
    at = λ w. elim (Bool-cases (any (λ x. x.token_hash == s.token_hash) w.db.sessions)) [
      | inl e ↦ rw e (c.same w)
      | inr e ↦ rw e (c.session_in w s e)
    ];
  }

  pub create_session-Keeps :
      (hash_token : ℕ → ℕ) (user_id : ℕ) (draw : SessionDraw) (label : String) (mfa : Bool)
      (now : ℕ)
      → Keeps R (create_session hash_token user_id draw label mfa now)
  unfolding create_session
  create_session-Keeps hash_token user_id draw label mfa now =
      insert_session-Keeps (new_session hash_token user_id draw label mfa now)

  insert_mail-Keeps : (m : Mail) → Keeps R (insert_mail m)
  insert_mail-Keeps m = record {
    at = λ w. elim (Bool-cases (any (λ x. x.id == m.id) w.db.outbox)) [
      | inl e ↦ rw e (c.same w)
      | inr e ↦ rw e (c.outbox w (w.db.outbox ++ m ∷ []))
    ];
  }

  enqueue-Keeps :
      (validate : Email → Option Email) (id : ℕ) (t : Template) (user_id : ℕ) (to : Email)
      (token now : ℕ)
      → Keeps R (enqueue validate id t user_id to token now)
  unfolding enqueue
  enqueue-Keeps validate id t user_id to token now =
      Keeps-require_some R c (validate to) _ _
        (λ a _. insert_mail-Keeps (new_mail id t user_id a token now))

  insert_token-Keeps : (t : ActionToken) → Keeps R (insert_token t)
  insert_token-Keeps t = record {
    at = λ w. elim (Bool-cases (any (λ x. x.token_hash == t.token_hash) w.db.tokens)) [
      | inl e ↦ rw e (c.same w)
      | inr e ↦ rw e (c.token_in w t e)
    ];
  }

  pub issue_token-Keeps :
      (hash_token : ℕ → ℕ) (validate : Email → Option Email) (purpose : Purpose) (user_id : ℕ)
      (to : Email) (draw : TokenDraw) (now : ℕ)
      → Keeps R (issue_token hash_token validate purpose user_id to draw now)
  unfolding issue_token
  issue_token-Keeps hash_token validate purpose user_id to draw now =
      Keeps-bind R c (insert_token (new_token hash_token purpose user_id draw now)) _
        (insert_token-Keeps (new_token hash_token purpose user_id draw now))
        (λ _.
          enqueue-Keeps validate draw.mail_id (Template.action purpose) user_id to draw.token now)

  consume_where-Keeps : (p : ActionToken → Bool) (now : ℕ) → Keeps R (consume_where p now)
  consume_where-Keeps p now = record { at = λ w. c.tokens w p now }

  pub consume_token-Keeps : (owner id now : ℕ) → Keeps R (consume_token owner id now)
  unfolding consume_token
  consume_token-Keeps owner id now = consume_where-Keeps _ now

  pub invalidate_prior-Keeps :
      (owner : ℕ) (purpose : Purpose) (now : ℕ) → Keeps R (invalidate_prior owner purpose now)
  unfolding invalidate_prior
  invalidate_prior-Keeps owner purpose now = consume_where-Keeps _ now

  pub revoke_where-Keeps : (p : Session → Bool) (now : ℕ) → Keeps R (revoke_where p now)
  revoke_where-Keeps p now = record {
    at = λ w.
        c.sessions w p (revoked now)
          (λ s _. record { same_token = refl; same_owner = refl; still_revoked = λ _. refl });
  }

  pub revoke_all-Keeps : (owner now : ℕ) → Keeps R (revoke_all owner now)
  unfolding revoke_all
  revoke_all-Keeps owner now = revoke_where-Keeps (is_unrevoked owner) now

  pub refresh-Keeps : (owner id now : ℕ) → Keeps R (refresh_if_needed owner id now)
  unfolding refresh_if_needed
  refresh-Keeps owner id now = record {
    at = λ w.
        c.sessions w (is_critical owner id now) (extended now)
          (λ s _. record { same_token = refl; same_owner = refl; still_revoked = λ r. r });
  }

  pub update_user-Keeps :
      (owner : ℕ) (guard : UserStatus → Bool) (f : User → User)
      → ((u : User) → u.id ≡ owner → guard u.status ≡ true → UserChange u (f u))
      → Keeps R (update_user owner guard f)
  unfolding update_user
  update_user-Keeps owner guard f k = record {
    at = λ w.
        c.users w (λ u. u.id == owner && guard u.status) f
          (λ u e.
            k u (==→eq u.id owner (and_left (u.id == owner) (guard u.status) e))
              (and_right (u.id == owner) (guard u.status) e));
  }
