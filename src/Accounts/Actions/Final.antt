-- ===== src/Accounts/Actions/Final.antt =====
-- What no account service (backend/v2) takes back: a revocation, and the use of a link.
use agent_craft.Prelude.{
  ℕ, refl, ◌≡◌, ap, sym, subst, true, ◌==◌, Option, none, some, List, any, All,
}
use agent_craft.Accounts.Rows.{ActionToken, Session, Purpose, Route}
use agent_craft.Accounts.Service.{
  World, Service, raised, after, atomically, restore, require_some, ◌>>=◌,
}
use agent_craft.Accounts.Primitives.{Primitives}
use agent_craft.Accounts.Idempotency.{Ticket, Idem, ticket}
use agent_craft.Accounts.Sessions.{resolve_session, revoke_all}
use agent_craft.Accounts.Sessions.Lifetimes.{Revoked, Ended, is_for, updated-Revoked, added-Revoked}
use agent_craft.Accounts.Sessions.Gates.{Revoked-none, revoke_all-Revoked}
use agent_craft.Accounts.Tokens.{find_token}
use agent_craft.Accounts.Tokens.Spent.{Spent, updated-Spent, added-Spent, Spent-unusable}
use agent_craft.Accounts.Verification.{confirm_email, confirm_fresh, confirm_tx, invalid_link}
use agent_craft.Accounts.Passwords.{confirm_reset, reset_fresh, reset_tx, invalid_reset}
use agent_craft.Accounts.Changes.{Closed, SessionChange}
use agent_craft.Accounts.Actions.{AccountAction, serve_accounts}
use agent_craft.Accounts.Actions.Keeping.{serve_accounts-Keeps}
use agent_craft.Accounts.Actions.Status.{Elsewhere, Elsewhere-Keeps}
use agent_craft.Accounts.Idempotency.Nothing.{DoesNothing, replay_or-DoesNothing}

module _ (h : ℕ) where
  abbrev StaysRevoked : World → World → Type 0
  StaysRevoked v w = Revoked h v.db.sessions → Revoked h w.db.sessions

  changed_Ended : (s t : Session) → SessionChange s t → Ended h s → Ended h t
  changed_Ended s t c e d = c.still_revoked (e (subst (λ k. (k == h) ≡ true) c.same_token d))

  StaysRevoked-Closed : Closed StaysRevoked
  StaysRevoked-Closed = record {
    same = λ w r. r;
    then = λ u v w f g r. g (f r);
    restored = λ v w f r. r;
    events = λ w _ r. r;
    records = λ w _ r. r;
    outbox = λ w _ r. r;
    invitations = λ w _ r. r;
    providers = λ w _ r. r;
    mismatches = λ w _ r. r;
    challenges = λ w _ r. r;
    secrets = λ w _ r. r;
    session_in = λ w s fresh r. added-Revoked (λ n. n) h s w.db.sessions fresh r;
    sessions = λ w p f k r.
        updated-Revoked (λ n. n) h p f w.db.sessions (λ s e. ap (λ n. n == h) (k s e).same_token)
          (λ s e d. changed_Ended s (f s) (k s d) e) r;
    token_in = λ w _ _ r. r;
    tokens = λ w _ _ r. r;
    user_in = λ w _ _ _ r. r;
    users = λ w _ _ _ r. r;
  }

  abbrev StaysSpent : World → World → Type 0
  StaysSpent v w = Spent h v.db.tokens → Spent h w.db.tokens

  pub StaysSpent-Closed : Closed StaysSpent
  StaysSpent-Closed = record {
    same = λ w r. r;
    then = λ u v w f g r. g (f r);
    restored = λ v w f r. r;
    events = λ w _ r. r;
    records = λ w _ r. r;
    outbox = λ w _ r. r;
    invitations = λ w _ r. r;
    providers = λ w _ r. r;
    mismatches = λ w _ r. r;
    challenges = λ w _ r. r;
    secrets = λ w _ r. r;
    session_in = λ w _ _ r. r;
    sessions = λ w _ _ _ r. r;
    token_in = λ w t fresh r. added-Spent h t w.db.tokens fresh r;
    tokens = λ w p now r. updated-Spent h p now w.db.tokens r;
    user_in = λ w _ _ _ r. r;
    users = λ w _ _ _ r. r;
  }

module _ (p : Primitives) (hook : ℕ → Service (Unit {0})) (e : Elsewhere hook) where
  -- Once all sessions of its owner have been revoked, a session's token does not resolve again, at any
  -- time and after any account actions. The hook of a deletion is one that leaves the account domain as it
  -- was.
  pub revoke_all_final :
      (owner now later token : ℕ) (actions : List AccountAction) (w : World)
      → any (is_for (p.hash_token token)) w.db.sessions ≡ true
      → All (λ s. is_for (p.hash_token token) s ≡ true → s.user_id ≡ owner) w.db.sessions
      → resolve_session p.hash_token
          (some token)
          later
          (serve_accounts p hook actions (after (revoke_all owner now w))).db
        ≡ none
  revoke_all_final owner now later token actions w known owned =
      let h = p.hash_token token in
      let start = after (revoke_all owner now w) in
      Revoked-none p.hash_token token later (serve_accounts p hook actions start).db (
        serve_accounts-Keeps (StaysRevoked h) (StaysRevoked-Closed h) p hook
          (Elsewhere-Keeps (StaysRevoked h) (StaysRevoked-Closed h) hook e) actions start
          (revoke_all-Revoked p.hash_token h owner now w known owned))

module _ (p : Primitives) (token : ℕ) where
  abbrev h : ℕ
  h = p.hash_token token

  confirm_tx-Spent :
      (owner now : ℕ) (t : Ticket) (v : World)
      → Spent h v.db.tokens
      → confirm_tx p.hash_token owner token t now v ≡ raised invalid_link v
  unfolding confirm_tx
  confirm_tx-Spent owner now t v s =
      rw (Spent-unusable h owner now Purpose.email_verify v.db s) refl

  confirm_fresh-Spent :
      (now : ℕ) (t : Ticket) (v : World)
      → Spent h v.db.tokens
      → confirm_fresh p.hash_token token t now v ≡ raised invalid_link v
  unfolding confirm_fresh
  confirm_fresh-Spent now t v s = go (find_token h Purpose.email_verify v.db)
    where
      go :
          (o : Option ActionToken)
          → (require_some o invalid_link >>= λ row.
                atomically (confirm_tx p.hash_token row.user_id token t now))
              v
            ≡ raised invalid_link v
      go none = refl
      go (some row) = ap (restore v.db) (confirm_tx-Spent row.user_id now t v s)

  confirm_email-Spent :
      (idem : Idem) (now : ℕ) (w : World)
      → Spent h w.db.tokens
      → DoesNothing w (confirm_email p token idem now w)
  unfolding confirm_email
  confirm_email-Spent idem now w s =
      let t = ticket h Route.confirm_route idem in
      replay_or-DoesNothing (confirm_fresh p.hash_token token t now) invalid_link t now w
        (λ x e. confirm_fresh-Spent now t x (subst (Spent h) (sym e) s))

  reset_tx-Spent :
      (owner new_hash now : ℕ) (t : Ticket) (v : World)
      → Spent h v.db.tokens
      → reset_tx p.hash_token owner token new_hash t now v ≡ raised invalid_reset v
  unfolding reset_tx
  reset_tx-Spent owner new_hash now t v s =
      rw (Spent-unusable h owner now Purpose.password_reset v.db s) refl

  reset_fresh-Spent :
      (new_hash now : ℕ) (t : Ticket) (v : World)
      → Spent h v.db.tokens
      → reset_fresh p.hash_token token new_hash t now v ≡ raised invalid_reset v
  unfolding reset_fresh
  reset_fresh-Spent new_hash now t v s = go (find_token h Purpose.password_reset v.db)
    where
      go :
          (o : Option ActionToken)
          → (require_some o invalid_reset >>= λ row.
                atomically (reset_tx p.hash_token row.user_id token new_hash t now))
              v
            ≡ raised invalid_reset v
      go none = refl
      go (some row) = ap (restore v.db) (reset_tx-Spent row.user_id new_hash now t v s)

  confirm_reset-Spent :
      (new_hash : ℕ) (idem : Idem) (now : ℕ) (w : World)
      → Spent h w.db.tokens
      → DoesNothing w (confirm_reset p token new_hash idem now w)
  unfolding confirm_reset
  confirm_reset-Spent new_hash idem now w s =
      let t = ticket h Route.reset_route idem in
      replay_or-DoesNothing (reset_fresh p.hash_token token new_hash t now) invalid_reset t now w
        (λ x e. reset_fresh-Spent new_hash now t x (subst (Spent h) (sym e) s))

  module _ (hook : ℕ → Service (Unit {0})) (el : Elsewhere hook) where
    Spent-later :
        (actions : List AccountAction) (w : World)
        → Spent h w.db.tokens
        → Spent h (serve_accounts p hook actions w).db.tokens
    Spent-later actions w =
        serve_accounts-Keeps (StaysSpent h) (StaysSpent-Closed h) p hook
          (Elsewhere-Keeps (StaysSpent h) (StaysSpent-Closed h) hook el) actions w

    -- A link that has been consumed verifies no address again: after any account actions, confirm_email
    -- leaves everything as it was but the stored answers, whether it returns or raises, and whatever it
    -- returns is the replay of a stored answer. The hook of a deletion is one that leaves the account domain
    -- as it was.
    pub used_link_confirms :
        (actions : List AccountAction) (idem : Idem) (now : ℕ) (w : World)
        → Spent h w.db.tokens
        → DoesNothing
            (serve_accounts p hook actions w)
            (confirm_email p token idem now (serve_accounts p hook actions w))
    used_link_confirms actions idem now w s =
        confirm_email-Spent idem now (serve_accounts p hook actions w) (Spent-later actions w s)

    -- A link that has been consumed sets no password again: after any account actions, confirm_reset leaves
    -- everything as it was but the stored answers, whether it returns or raises, and whatever it returns is
    -- the replay of a stored answer. The hook of a deletion is one that leaves the account domain as it was.
    pub used_link_resets :
        (actions : List AccountAction) (new_hash : ℕ) (idem : Idem) (now : ℕ) (w : World)
        → Spent h w.db.tokens
        → DoesNothing
            (serve_accounts p hook actions w)
            (confirm_reset p token new_hash idem now (serve_accounts p hook actions w))
    used_link_resets actions new_hash idem now w s =
        confirm_reset-Spent new_hash idem now (serve_accounts p hook actions w)
          (Spent-later actions w s)
