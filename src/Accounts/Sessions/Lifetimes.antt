-- ===== src/Accounts/Sessions/Lifetimes.antt =====
-- backend/v2/session_service.py: how long a session lasts, and that a revocation is for good.
use agent_craft.Prelude.{
  ℕ, ◌+◌, ◌≤◌, ◌≡◌, inl, inr, refl, subst, ◌∙◌, Bool, true, false, ◌&&◌, ◌==◌, String, List, [],
  ◌∷◌, ◌++◌, any, update_where, is_none, All, All-append, All-update_where, any-append,
  any-update_where, arith, Bool-cases, ==→eq,
}
use agent_craft.Accounts.Rows.{Session}
use agent_craft.Accounts.Service.{World, after}
use agent_craft.Accounts.Sessions.{
  SessionDraw, create_session, insert_session, new_session, refresh_if_needed, revoke, revoke_all,
  extended, revoked, session_absolute, is_critical, is_unrevoked,
}

-- What the services do to the table of sessions.
pub data SessionOp : Type 0 where
  create :
      (user_id : ℕ) → SessionDraw → (label : String) → (mfa_verified : Bool) → (now : ℕ) → SessionOp
  refresh : (owner session_id now : ℕ) → SessionOp
  revoke_one : (owner session_id now : ℕ) → SessionOp
  revoke_every : (owner now : ℕ) → SessionOp

module _ (hash_token : ℕ → ℕ) where
  abbrev pub serve_session : SessionOp → World → World
  serve_session (create user_id draw label mfa now) w =
      after (create_session hash_token user_id draw label mfa now w)
  serve_session (refresh owner id now) w = after (refresh_if_needed owner id now w)
  serve_session (revoke_one owner id now) w = after (revoke owner id now w)
  serve_session (revoke_every owner now) w = after (revoke_all owner now w)

  abbrev pub serve_sessions : List SessionOp → World → World
  serve_sessions [] w = w
  serve_sessions (o ∷ os) w = serve_sessions os (serve_session o w)

-- A session ends thirty days after its creation at the latest.
abbrev pub Lasting : Session → Type 0
Lasting s = s.expires_at ≤ s.created_at + session_absolute

extended-Lasting : (now : ℕ) (s : Session) → Lasting (extended now s)
extended-Lasting now s = ground arith

-- A row for a token that has been revoked.
abbrev pub is_for : ℕ → Session → Bool
is_for h s = s.token_hash == h

abbrev pub Ended : ℕ → Session → Type 0
Ended h s = is_for h s ≡ true → is_none s.revoked_at ≡ false

abbrev pub Revoked : ℕ → List Session → Type 0
Revoked h ss = (any (is_for h) ss ≡ true) × All (Ended h) ss

-- What an insert keeps.
module _ (P : List Session → Type 0) (s : Session) where
  insert-Keeps :
      (w : World)
      → (any (λ x. x.token_hash == s.token_hash) w.db.sessions ≡ false
          → P w.db.sessions
          → P (w.db.sessions ++ s ∷ []))
      → P w.db.sessions
      → P (after (insert_session s w)).db.sessions
  insert-Keeps w k h = elim (Bool-cases (any (λ x. x.token_hash == s.token_hash) w.db.sessions)) [
    | inl e ↦ rw e h
    | inr e ↦ rw e (k e h)
  ]

module _ (hash_token : ℕ → ℕ) where
  serve_session-Lasting :
      (o : SessionOp) (w : World)
      → All Lasting w.db.sessions
      → All Lasting (serve_session hash_token o w).db.sessions
  unfolding create_session refresh_if_needed revoke revoke_all
  serve_session-Lasting (create user_id draw label mfa now) w h =
      insert-Keeps (All Lasting) (new_session hash_token user_id draw label mfa now) w
        (λ e k. All-append Lasting w.db.sessions _ k (omega arith, tt)) h
  serve_session-Lasting (refresh owner id now) w h =
      All-update_where Lasting Lasting (is_critical owner id now) (extended now) w.db.sessions
        (λ s _ _. extended-Lasting now s) (λ s k _. k) h
  serve_session-Lasting (revoke_one owner id now) w h =
      All-update_where Lasting Lasting (λ s. is_unrevoked owner s && s.id == id) (revoked now)
        w.db.sessions (λ s k _. k) (λ s k _. k) h
  serve_session-Lasting (revoke_every owner now) w h =
      All-update_where Lasting Lasting (is_unrevoked owner) (revoked now) w.db.sessions (λ s k _. k)
        (λ s k _. k) h

  pub serve_sessions-Lasting :
      (os : List SessionOp) (w : World)
      → All Lasting w.db.sessions
      → All Lasting (serve_sessions hash_token os w).db.sessions
  serve_sessions-Lasting [] w h = h
  serve_sessions-Lasting (o ∷ os) w h =
      serve_sessions-Lasting os (serve_session hash_token o w) (serve_session-Lasting o w h)

  pub updated-Revoked :
      (h : ℕ) (p : Session → Bool) (f : Session → Session) (ss : List Session)
      → ((s : Session) → p s ≡ true → is_for h (f s) ≡ is_for h s)
      → ((s : Session) → Ended h s → p s ≡ true → Ended h (f s))
      → Revoked h ss
      → Revoked h (update_where p f ss)
  updated-Revoked h p f ss same k r = (
    any-update_where (is_for h) p f ss same ∙ r.0,
    All-update_where (Ended h) (Ended h) p f ss k (λ s e _. e) r.1,
  )

  -- A second row for the same token is refused.
  pub added-Revoked :
      (h : ℕ) (s : Session) (ss : List Session)
      → any (λ x. x.token_hash == s.token_hash) ss ≡ false
      → Revoked h ss
      → Revoked h (ss ++ s ∷ [])
  added-Revoked h s ss fresh r = elim (Bool-cases (is_for h s)) [
    | inl e ↦ absurd (
        cc (
          r.0,
          subst (λ k. any (λ x. x.token_hash == k) ss ≡ false) (==→eq s.token_hash h e) fresh,
        ))
    | inr e ↦ (
      any-append (is_for h) ss (s ∷ []) r.0,
      All-append (Ended h) ss (s ∷ []) r.1 ((λ d. cc (d, e)), tt),
    )
  ]

  serve_session-Revoked :
      (h : ℕ) (o : SessionOp) (w : World)
      → Revoked h w.db.sessions
      → Revoked h (serve_session hash_token o w).db.sessions
  unfolding create_session refresh_if_needed revoke revoke_all
  serve_session-Revoked h (create user_id draw label mfa now) w r =
      let s = new_session hash_token user_id draw label mfa now in
      insert-Keeps (Revoked h) s w (added-Revoked h s w.db.sessions) r
  serve_session-Revoked h (refresh owner id now) w r =
      updated-Revoked h (is_critical owner id now) (extended now) w.db.sessions (λ s _. refl)
        (λ s e _. e) r
  serve_session-Revoked h (revoke_one owner id now) w r =
      updated-Revoked h (λ s. is_unrevoked owner s && s.id == id) (revoked now) w.db.sessions
        (λ s _. refl) (λ s e _ d. refl) r
  serve_session-Revoked h (revoke_every owner now) w r =
      updated-Revoked h (is_unrevoked owner) (revoked now) w.db.sessions (λ s _. refl)
        (λ s e _ d. refl) r

  pub serve_sessions-Revoked :
      (h : ℕ) (os : List SessionOp) (w : World)
      → Revoked h w.db.sessions
      → Revoked h (serve_sessions hash_token os w).db.sessions
  serve_sessions-Revoked h [] w r = r
  serve_sessions-Revoked h (o ∷ os) w r =
      serve_sessions-Revoked h os (serve_session hash_token o w) (serve_session-Revoked h o w r)
