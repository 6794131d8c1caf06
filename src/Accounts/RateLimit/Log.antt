-- ===== src/Accounts/RateLimit/Log.antt =====
-- backend/v2/rate_limit.py: the limiter against a log that forgets nothing.
use agent_craft.Prelude.{
  ℕ, ◌≤◌, ◌≡◌, refl, ap, sym, subst, ◌∙◌, List, [], ◌∷◌, ◌++◌, Option, none, some, select-append,
  arith,
}
use agent_craft.Accounts.Rows.{Scope, RateLimitEvent}
use agent_craft.Accounts.Service.{
  World, Outcome, Failure, after, failure_of, too_many_requests, value_error,
}
use agent_craft.Accounts.RateLimit.{admit, recent, cleanup, in_window, decide, enforce, with_events}
use agent_craft.Accounts.RateLimit.Windows.{recent-cleanup}

pub record Call : Type 0 where
  pub scope : Scope
  pub subjects : List ℕ
  pub now : ℕ

-- The calls are served in the order of the clock.
abbrev pub Chronological : ℕ → List Call → Type 0
Chronological start [] = Unit
Chronological start (c ∷ cs) = (start ≤ c.now) × Chronological c.now cs

abbrev pub call : Call → World → Outcome (Unit {0})
call c w = enforce c.scope c.subjects c.now w

-- The answers of the limiter to the calls, one after the other.
abbrev pub answers : List Call → World → List (Option Failure)
answers [] w = []
answers (c ∷ cs) w = failure_of (call c w) ∷ answers cs (after (call c w))

-- The same calls answered from the whole log of the events that were ever admitted.
abbrev log_failure : Option ℕ → Option Failure
log_failure none = none
log_failure (some wait) = some (too_many_requests wait)

abbrev pub log_answer : Scope → List ℕ → ℕ → List RateLimitEvent → Option Failure
log_answer scope [] now log = some value_error
log_answer scope (h ∷ hs) now log = log_failure (decide scope (h ∷ hs) now log)

abbrev log_grown : Option Failure → Scope → List ℕ → ℕ → List RateLimitEvent → List RateLimitEvent
log_grown (some e) scope hs now log = log
log_grown none scope hs now log = with_events hs scope now log

abbrev pub log_after : Scope → List ℕ → ℕ → List RateLimitEvent → List RateLimitEvent
log_after scope hs now log = log_grown (log_answer scope hs now log) scope hs now log

abbrev pub log_answers : List Call → List RateLimitEvent → List (Option Failure)
log_answers [] log = []
log_answers (c ∷ cs) log =
    log_answer c.scope c.subjects c.now log
    ∷ log_answers cs (log_after c.scope c.subjects c.now log)

-- From a time on, two lists of events show the same windows.
abbrev pub SameWindows : ℕ → List RateLimitEvent → List RateLimitEvent → Type 0
SameWindows start es log = (s : Scope) (t : ℕ) → start ≤ t → recent s t es ≡ recent s t log

added-SameWindows :
    (scope : Scope) (hs : List ℕ) (now : ℕ) (es log : List RateLimitEvent)
    → SameWindows now es log
    → SameWindows now
        (cleanup scope now (with_events hs scope now es))
        (with_events hs scope now log)
added-SameWindows scope hs now es log same s t le =
    let new = with_events hs scope now [] in
    recent-cleanup scope s now t le (es ++ new)
    ∙ select-append (in_window s t) es new
    ∙ ap (λ l. l ++ recent s t new) (same s t le)
    ∙ sym (select-append (in_window s t) log new)

decide-SameWindows :
    (scope : Scope) (hs : List ℕ) (now : ℕ) (es log : List RateLimitEvent)
    → SameWindows now es log
    → decide scope hs now es ≡ decide scope hs now log
decide-SameWindows scope hs now es log same = rw (same scope now (omega arith)) refl

-- One call.
admitted :
    (o : Option ℕ) (scope : Scope) (hs : List ℕ) (now : ℕ) (w : World) (log : List RateLimitEvent)
    → SameWindows now w.db.events log
    → (failure_of (admit o scope hs now w) ≡ log_failure o)
      × SameWindows now
          (after (admit o scope hs now w)).db.events
          (log_grown (log_failure o) scope hs now log)
admitted none scope hs now w log same = (refl, added-SameWindows scope hs now w.db.events log same)
admitted (some x) scope hs now w log same = (refl, same)

step :
    (scope : Scope) (hs : List ℕ) (now : ℕ) (w : World) (log : List RateLimitEvent)
    → SameWindows now w.db.events log
    → (failure_of (enforce scope hs now w) ≡ log_answer scope hs now log)
      × SameWindows now (after (enforce scope hs now w)).db.events (log_after scope hs now log)
unfolding enforce
step scope [] now w log same = (refl, same)
step scope (h ∷ hs) now w log same =
    subst
      (λ o.
        (failure_of (admit o scope (h ∷ hs) now w) ≡ log_answer scope (h ∷ hs) now log)
        × SameWindows now (after (admit o scope (h ∷ hs) now w)).db.events
            (log_after scope (h ∷ hs) now log))
      (sym (decide-SameWindows scope (h ∷ hs) now w.db.events log same))
      (admitted (decide scope (h ∷ hs) now log) scope (h ∷ hs) now w log same)

-- Deleting the stale events of a scope changes no answer: over any calls in the order of the clock, the
-- limiter answers as one that reads the whole log of the events ever admitted, with the same waits, if
-- the table and the log show the same windows at the start.
pub answers-log :
    (cs : List Call) (w : World) (log : List RateLimitEvent) (start : ℕ)
    → Chronological start cs
    → SameWindows start w.db.events log
    → answers cs w ≡ log_answers cs log
answers-log [] w log start o same = refl
answers-log (c ∷ cs) w log start o same =
    let one = step c.scope c.subjects c.now w log (λ s t le. same s t (omega (arith, le, o.0))) in
    let rest =
      answers-log cs (after (call c w)) (log_after c.scope c.subjects c.now log) c.now o.1 one.1 in
    cc (one.0, rest)
