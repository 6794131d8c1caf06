-- ===== src/Accounts/RateLimit/Windows.antt =====
-- backend/v2/rate_limit.py: what the deletion of stale events leaves of a window.
use agent_craft.Prelude.{
  ℕ, ◌+◌, ◌≤◌, ◌≡◌, refl, ap, sym, subst, ◌∙◌, true, false, ltb, leb, List, [], ◌∷◌, arith,
  Bool-cases, inl, inr, and_left, and_right, and_false,
}
use agent_craft.Accounts.Rows.{Scope, RateLimitEvent, same_scope}
use agent_craft.Accounts.Rows.Same.{same_scope→eq}
use agent_craft.Accounts.RateLimit.{recent, cleanup, is_stale, in_window, window_of}

past : (a now t : ℕ) → leb a now ≡ true → now ≤ t → ltb t a ≡ false
past a now t h le = ground arith

module _ (scope s : Scope) (now t : ℕ) (le : now ≤ t) where
  -- A stale event is in no later window.
  stale-in_window : (e : RateLimitEvent) → is_stale scope now e ≡ true → in_window s t e ≡ false
  stale-in_window e h = elim (Bool-cases (same_scope e.scope s)) [
    | inr c ↦ rw c refl
    | inl c ↦
        let d : same_scope e.scope scope ≡ true =
          and_left (same_scope e.scope scope) (leb (e.occurred_at + window_of scope) now) h in
        let w : window_of scope ≡ window_of s =
          ap window_of (sym (same_scope→eq e.scope scope d) ∙ same_scope→eq e.scope s c) in
        let p : ltb t (e.occurred_at + window_of scope) ≡ false =
          past (e.occurred_at + window_of scope) now t
            (and_right (same_scope e.scope scope) (leb (e.occurred_at + window_of scope) now) h)
            le in
        and_false (same_scope e.scope s) (ltb t (e.occurred_at + window_of s))
          (subst (λ k. ltb t (e.occurred_at + k) ≡ false) w p)
  ]

  pub recent-cleanup :
      (es : List RateLimitEvent) → recent s t (cleanup scope now es) ≡ recent s t es
  recent-cleanup [] = refl
  recent-cleanup (e ∷ es) = elim (Bool-cases (is_stale scope now e)) [
    | inl h ↦ rw (h, stale-in_window e h) (recent-cleanup es)
    | inr h ↦ rw (h, recent-cleanup es) refl
  ]
