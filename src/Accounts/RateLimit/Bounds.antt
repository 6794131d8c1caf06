-- ===== src/Accounts/RateLimit/Bounds.antt =====
-- backend/v2/rate_limit.py: how many events a window can hold.
use agent_craft.Prelude.{
  ℕ, ◌+◌, ◌≤◌, ◌<◌, ◌≡◌, refl, ap, subst, ◌∙◌, true, false, ◌==◌, ltb, leb, List, [], ◌∷◌, ◌++◌,
  Option, none, some, if◌then◌else◌, length, total, select, select-append, length-append, arith,
  Bool-cases, inl, inr, ==→eq,
}
use agent_craft.Accounts.Rows.{Scope, RateLimitEvent, same_scope}
use agent_craft.Accounts.Rows.Same.{same_scope→eq}
use agent_craft.Accounts.Service.{World, after}
use agent_craft.Accounts.RateLimit.{
  admit, recent, cleanup, in_window, decide, enforce, with_events, hits, most_hits, max, limit_of,
  window_of,
}
use agent_craft.Accounts.RateLimit.Windows.{recent-cleanup}
use agent_craft.Accounts.RateLimit.Log.{Call, Chronological, call}

abbrev pub occurrences : ℕ → List ℕ → ℕ
occurrences h xs = total (λ x. if x == h then 1 else 0) xs

-- From a time on, no window holds more events of a subject than its scope allows.
abbrev pub Bounded : ℕ → List RateLimitEvent → Type 0
Bounded start es = (s : Scope) (h t : ℕ) → start ≤ t → hits h (recent s t es) ≤ limit_of s

-- The world after a sequence of calls.
abbrev pub after_calls : List Call → World → World
after_calls [] w = w
after_calls (c ∷ cs) w = after_calls cs (after (call c w))

abbrev pub end_of : ℕ → List Call → ℕ
end_of start [] = start
end_of start (c ∷ cs) = end_of c.now cs

-- No call names a subject twice.
abbrev pub DistinctSubjects : List Call → Type 0
DistinctSubjects [] = Unit
DistinctSubjects (c ∷ cs) = ((h : ℕ) → occurrences h c.subjects ≤ 1) × DistinctSubjects cs

hits-append : (h : ℕ) (xs ys : List RateLimitEvent) → hits h (xs ++ ys) ≡ hits h xs + hits h ys
hits-append h xs ys =
    ap length (select-append (λ e. e.subject_hash == h) xs ys)
    ∙ length-append (select (λ e. e.subject_hash == h) xs) (select (λ e. e.subject_hash == h) ys)

module _ (scope : Scope) (now : ℕ) where
  abbrev added : List ℕ → List RateLimitEvent
  added hs = with_events hs scope now []

  hits-added :
      (s : Scope) (t h : ℕ) (hs : List ℕ) → hits h (recent s t (added hs)) ≤ occurrences h hs
  hits-added s t h [] = omega arith
  hits-added s t h (x ∷ hs) =
      let rest = hits-added s t h hs in
      let e : RateLimitEvent = record { scope = scope; subject_hash = x; occurred_at = now } in
      elim (Bool-cases (in_window s t e)) [
        | inr c ↦ rw c (omega (arith, rest))
        | inl c ↦ rw c (elim (Bool-cases (x == h)) [
          | inl d ↦ rw d (omega (arith, rest))
          | inr d ↦ rw d (omega (arith, rest))
        ])
      ]

  added-other :
      (s : Scope) (t : ℕ) (hs : List ℕ) → same_scope scope s ≡ false → recent s t (added hs) ≡ []
  added-other s t [] d = refl
  added-other s t (x ∷ hs) d = rw d (added-other s t hs d)

-- A later window holds no more of what there was.
recent-later :
    (s : Scope) (now t h : ℕ) (es : List RateLimitEvent)
    → now ≤ t
    → hits h (recent s t es) ≤ hits h (recent s now es)
recent-later s now t h [] le = omega arith
recent-later s now t h (e ∷ es) le =
    let rest = recent-later s now t h es le in
    elim (Bool-cases (same_scope e.scope s)) [
      | inr c ↦ rw c rest
      | inl c ↦ rw c (elim (Bool-cases (ltb t (e.occurred_at + window_of s))) [
        | inl d ↦
            let d' : ltb now (e.occurred_at + window_of s) ≡ true = ground (arith, d, le) in
            rw (d, d')
              (elim (Bool-cases (e.subject_hash == h)) [
                | inl k ↦ rw k (omega (arith, rest))
                | inr k ↦ rw k rest
              ])
        | inr d ↦ rw d (elim (Bool-cases (ltb now (e.occurred_at + window_of s))) [
          | inr d' ↦ rw d' rest
          | inl d' ↦ rw d' (elim (Bool-cases (e.subject_hash == h)) [
            | inl k ↦ rw k (omega (arith, rest))
            | inr k ↦ rw k rest
          ])
        ])
      ])
    ]

max-left : (a b : ℕ) → a ≤ max a b
max-left a b = ground arith

max-right : (a b : ℕ) → b ≤ max a b
max-right a b = ground arith

most_hits-bound :
    (h : ℕ) (hs : List ℕ) (es : List RateLimitEvent)
    → 1 ≤ occurrences h hs
    → hits h es ≤ most_hits hs es
most_hits-bound h [] es o = omega (arith, o)
most_hits-bound h (x ∷ hs) es o = elim (Bool-cases (x == h)) [
  | inl d ↦
      subst (λ k. hits k es ≤ most_hits (x ∷ hs) es) (==→eq x h d)
        (max-left (hits x es) (most_hits hs es))
  | inr d ↦
      let rest = most_hits-bound h hs es (omega (arith, simp d at o)) in
      omega (arith, rest, max-right (hits x es) (most_hits hs es))
]

-- A call that passes had room for each of its subjects.
module _ (scope : Scope) (hs : List ℕ) (now : ℕ) (es : List RateLimitEvent) where
  room :
      (h : ℕ)
      → decide scope hs now es ≡ none
      → 1 ≤ occurrences h hs
      → hits h (recent scope now es) < limit_of scope
  room h pass o = elim (Bool-cases (leb (limit_of scope) (most_hits hs (recent scope now es)))) [
    | inl d ↦ absurd (cc (simp d at pass))
    | inr d ↦ ground (arith, d, most_hits-bound h hs (recent scope now es) o)
  ]

  admitted-Bounded :
      ((h : ℕ) → occurrences h hs ≤ 1)
      → decide scope hs now es ≡ none
      → Bounded now es
      → Bounded now (cleanup scope now (with_events hs scope now es))
  admitted-Bounded one pass bounded s h t le =
      let kept = ap (hits h) (
        recent-cleanup scope s now t le (with_events hs scope now es)
        ∙ select-append (in_window s t) es (with_events hs scope now [])) in
      let sum = hits-append h (recent s t es) (recent s t (with_events hs scope now [])) in
      let before = bounded s h t le in
      let few = hits-added scope now s t h hs in
      elim (Bool-cases (same_scope scope s)) [
        | inr d ↦
            let z = ap (hits h) (added-other scope now s t hs d) in
            omega (arith, kept, sum, before, z)
        | inl d ↦
            let q = same_scope→eq scope s d in
            let later = recent-later s now t h es le in
            elim (Bool-cases (ltb 0 (occurrences h hs))) [
              | inr e ↦
                  let none_new : occurrences h hs ≡ 0 = ground (arith, e) in
                  omega (arith, kept, sum, before, few, none_new)
              | inl e ↦
                  let r =
                    subst (λ k. hits h (recent k now es) < limit_of k) q
                      (room h pass (ground (arith, e))) in
                  omega (arith, kept, sum, few, one h, r, later)
            ]
      ]

later-Bounded :
    (start now : ℕ) (es : List RateLimitEvent) → start ≤ now → Bounded start es → Bounded now es
later-Bounded start now es le b s h t l = b s h t (omega (arith, le, l))

admit-Bounded :
    (scope : Scope) (hs : List ℕ) (now : ℕ) (w : World) (o : Option ℕ)
    → decide scope hs now w.db.events ≡ o
    → ((h : ℕ) → occurrences h hs ≤ 1)
    → Bounded now w.db.events
    → Bounded now (after (admit o scope hs now w)).db.events
admit-Bounded scope hs now w (some x) e one b = b
admit-Bounded scope hs now w none e one b = admitted-Bounded scope hs now w.db.events one e b

enforce-Bounded :
    (scope : Scope) (hs : List ℕ) (now : ℕ) (w : World)
    → ((h : ℕ) → occurrences h hs ≤ 1)
    → Bounded now w.db.events
    → Bounded now (after (enforce scope hs now w)).db.events
unfolding enforce
enforce-Bounded scope [] now w one b = b
enforce-Bounded scope (x ∷ hs) now w one b =
    admit-Bounded scope (x ∷ hs) now w (decide scope (x ∷ hs) now w.db.events) refl one b

calls-Bounded :
    (cs : List Call) (w : World) (start : ℕ)
    → Chronological start cs
    → DistinctSubjects cs
    → Bounded start w.db.events
    → Bounded (end_of start cs) (after_calls cs w).db.events
calls-Bounded [] w start o d b = b
calls-Bounded (c ∷ cs) w start o d b =
    calls-Bounded cs (after (call c w)) c.now o.1 d.1
      (enforce-Bounded c.scope c.subjects c.now w d.0 (later-Bounded start c.now w.db.events o.0 b))

-- After any calls in the order of the clock, none of which names a subject twice, the window of a scope
-- that ends at the last call or later holds at most as many events of a subject as the scope allows, if
-- that was so before the calls.
pub window_limit :
    (cs : List Call) (w : World) (start : ℕ) (s : Scope) (h t : ℕ)
    → Chronological start cs
    → DistinctSubjects cs
    → Bounded start w.db.events
    → end_of start cs ≤ t
    → hits h (recent s t (after_calls cs w).db.events) ≤ limit_of s
window_limit cs w start s h t o d b le = calls-Bounded cs w start o d b s h t le
