-- ===== src/Accounts/Sessions/Gates.antt =====
-- backend/v2/session_service.py: which requests pass the gates, and for how long a token resolves.
use agent_craft.Prelude.{
  ℕ, ◌+◌, ◌<◌, ◌≡◌, ◌⊎◌, inl, inr, refl, ap, sym, subst, ◌∙◌, true, false, ◌&&◌, ◌==◌, ltb, none,
  some, List, [], ◌∷◌, any, is_none, All, All-update_where, any-update_where, find-All, find-any,
  find-holds, and_right, arith, Bool-cases, ==-refl,
}
use agent_craft.Accounts.Rows.{Session, User, AccountDb, UserStatus}
use agent_craft.Accounts.Service.{World, returned, after, ◌>>=◌, pure}
use agent_craft.Accounts.Sessions.{
  revoke_all, resolve_session, is_open, revoked, session_absolute, is_unrevoked, joined, Request,
  get_v2_auth, admit_request, csrf_ok, gate, refresh_critical, expired_error,
}
use agent_craft.Accounts.Sessions.Lifetimes.{
  SessionOp, serve_sessions, Lasting, serve_sessions-Lasting, Revoked, Ended, is_for,
}
use agent_craft.Accounts.Service.Runs.{returned-value, bind-Begun, required, required_some}
use agent_craft.Accounts.Sessions.Admission.{
  LetIn, IsSafe, ShowsToken, csrf-ShowsToken, resolved-LetIn, resolved_row,
}

module _ (hash_token : ℕ → ℕ) where
  -- From sessions that end within thirty days of their creation, and after any creations, refreshes and
  -- revocations, a session that resolves is no older than thirty days.
  pub resolved_young :
      (os : List SessionOp) (w : World) (token now : ℕ) (s : Session) (u : User)
      → All Lasting w.db.sessions
      → resolve_session hash_token (some token) now (serve_sessions hash_token os w).db
        ≡ some (s, u)
      → now < s.created_at + session_absolute
  resolved_young os w token now s u h e =
      let d = (serve_sessions hash_token os w).db in
      let row = resolved_row hash_token token now d s u e in
      let holds =
        find-holds (λ s. s.token_hash == hash_token token && is_open now s) d.sessions s row in
      let opened = and_right (s.token_hash == hash_token token) (is_open now s) holds in
      let late = and_right (is_none s.revoked_at) (ltb now s.expires_at) opened in
      let lasting =
        find-All Lasting (λ s. s.token_hash == hash_token token && is_open now s) d.sessions s
          (serve_sessions-Lasting hash_token os w h) row in
      ground (arith, late, lasting)

  Ended-any :
      (h now : ℕ) (ss : List Session)
      → All (Ended h) ss
      → any (λ s. s.token_hash == h && is_open now s) ss ≡ false
  Ended-any h now [] k = refl
  Ended-any h now (s ∷ ss) k = elim (Bool-cases (is_for h s)) [
    | inl e ↦ rw (e, k.0 e, Ended-any h now ss k.1) refl
    | inr e ↦ rw (e, Ended-any h now ss k.1) refl
  ]

  pub Revoked-none :
      (token now : ℕ) (d : AccountDb)
      → Revoked (hash_token token) d.sessions
      → resolve_session hash_token (some token) now d ≡ none
  unfolding resolve_session
  Revoked-none token now d r =
      ap (λ o. joined o d.users)
        (find-any (λ s. s.token_hash == hash_token token && is_open now s) d.sessions
          (Ended-any (hash_token token) now d.sessions r.1))

  pub revoke_all-Revoked :
      (h owner now : ℕ) (w : World)
      → any (is_for h) w.db.sessions ≡ true
      → All (λ s. is_for h s ≡ true → s.user_id ≡ owner) w.db.sessions
      → Revoked h (after (revoke_all owner now w)).db.sessions
  unfolding revoke_all
  revoke_all-Revoked h owner now w known owned = (
    any-update_where (is_for h) (is_unrevoked owner) (revoked now) w.db.sessions (λ s _. refl)
        ∙ known,
    All-update_where (λ s. is_for h s ≡ true → s.user_id ≡ owner) (Ended h) (is_unrevoked owner)
        (revoked now) w.db.sessions (λ s k e d. refl)
        (λ s k e d. elim (Bool-cases (is_none s.revoked_at)) [
          | inr f ↦ f
          | inl f ↦ absurd (cc (subst (λ o. (o == owner) ≡ true) (sym (k d)) (==-refl owner), f, e))
        ])
        owned,
  )

abbrev MayAct : UserStatus → Type 0
MayAct st = (st ≡ UserStatus.pending) ⊎ (st ≡ UserStatus.active)

gate-MayAct : (st : UserStatus) (w w' : World) → gate st w ≡ returned tt w' → MayAct st
gate-MayAct UserStatus.pending w w' e = inl refl
gate-MayAct UserStatus.active w w' e = inr refl
gate-MayAct UserStatus.suspended w w' e = absurd (cc e)
gate-MayAct UserStatus.deleting w w' e = absurd (cc e)
gate-MayAct UserStatus.deleted w w' e = absurd (cc e)

module _ (hash_token : ℕ → ℕ) where
  refreshed_or_same :
      (u : User) (s : Session) (now : ℕ) (p : Session × User) (w w' : World)
      → (refresh_critical u s now >>= λ _. pure (s, u)) w ≡ returned p w'
      → (s, u) ≡ p
  refreshed_or_same u s now p w w' e =
      returned-value (bind-Begun (refresh_critical u s now) (λ _. pure (s, u)) w w' p e).3

  admitted_pair :
      (r : Request) (now : ℕ) (q p : Session × User) (w w' : World)
      → admit_request hash_token r now q w ≡ returned p w'
      → (q ≡ p) × (csrf_ok hash_token r q.0 ≡ true) × MayAct q.1.status
  admitted_pair r now (s, u) p w w' e =
      let one = required (csrf_ok hash_token r s) _ _ w w' p e in
      let two = bind-Begun (gate u.status) (λ _ v. _) w w' p one.1 in
      (refreshed_or_same u s now p two.1 w' two.3, one.0, gate-MayAct u.status w two.1 two.2)

  -- A request that passes get_v2_auth comes with the token of a session in the table that has been neither
  -- revoked nor outlived, and is given that session with the user that it belongs to; the user is pending or
  -- active; and unless the method is another than POST, PUT, DELETE and PATCH, the request has a header with
  -- the session's CSRF token.
  pub auth_gates :
      (r : Request) (now : ℕ) (p : Session × User) (w w' : World)
      → get_v2_auth hash_token r now w ≡ returned p w'
      → LetIn hash_token r now w.db.sessions p.0 p.1
        × (IsSafe r.method ⊎ ShowsToken hash_token r p.0)
        × MayAct p.1.status
  unfolding get_v2_auth
  auth_gates r now p w w' e =
      let one =
        required_some (resolve_session hash_token r.cookie now w.db) expired_error
          (admit_request hash_token r now) w w' p e in
      let two = admitted_pair r now one.0 p w w' one.2 in
      subst
        (λ (q : Session × User).
          LetIn hash_token r now w.db.sessions q.0 q.1
          × (IsSafe r.method ⊎ ShowsToken hash_token r q.0)
          × MayAct q.1.status)
        two.0
        (
          resolved-LetIn hash_token r now w.db one.0.0 one.0.1 one.1,
          csrf-ShowsToken hash_token r one.0.0 two.1,
          two.2,
        )
