-- ===== src/Accounts/RateLimit.antt =====
-- backend/v2/rate_limit.py: the sliding window over the events of a scope, for calls that follow one another.
pub mod Windows
pub mod Log
pub mod Bounds
use agent_craft.Prelude.{
  ℕ, ◌+◌, ◌-◌, ◌*◌, Bool, true, false, not, ◌&&◌, ◌==◌, ltb, leb, if◌then◌else◌, Option, none, some,
  List, [], ◌∷◌, ◌++◌, length, select, map,
}
use agent_craft.Accounts.Rows.{Scope, RateLimitEvent, AccountDb, same_scope}
use Scope.{
  login, invitation_accept, email_verify_resend, password_reset_request, deletion_cancel_invalid,
  deletion_cancel_attempt, mfa_failure, password_change_totp, provider_test, mcp_discover, report,
  discover, task_create, upload, send_message, sse_connect, admin_kill_switch,
}
use agent_craft.Accounts.Service.{
  World, Outcome, returned, raised, Service, Failure, too_many_requests, value_error,
}

-- LIMITS, one column after the other
abbrev pub limit_of : Scope → ℕ
limit_of login = 10
limit_of invitation_accept = 5
limit_of email_verify_resend = 3
limit_of password_reset_request = 3
limit_of deletion_cancel_invalid = 10
limit_of deletion_cancel_attempt = 10
limit_of mfa_failure = 10
limit_of password_change_totp = 5
limit_of provider_test = 10
limit_of mcp_discover = 10
limit_of report = 10
limit_of discover = 60
limit_of task_create = 30
limit_of upload = 60
limit_of send_message = 60
limit_of sse_connect = 60
limit_of admin_kill_switch = 10

abbrev pub window_of : Scope → ℕ
window_of login = 900
window_of mfa_failure = 900
window_of password_change_totp = 900
window_of report = 86400
window_of task_create = 86400
window_of _ = 3600

-- `occurred_at > now() - window`
abbrev pub in_window : Scope → ℕ → RateLimitEvent → Bool
in_window scope now e = same_scope e.scope scope && ltb now (e.occurred_at + window_of scope)

abbrev pub recent : Scope → ℕ → List RateLimitEvent → List RateLimitEvent
recent scope now events = select (in_window scope now) events

abbrev pub hits : ℕ → List RateLimitEvent → ℕ
hits h events = length (select (λ e. e.subject_hash == h) events)

abbrev pub max : ℕ → ℕ → ℕ
max a b = if ltb a b then b else a

-- `max(cnt)` over the groups of the subjects
abbrev pub most_hits : List ℕ → List RateLimitEvent → ℕ
most_hits [] events = 0
most_hits (h ∷ hs) events = max (hits h events) (most_hits hs events)

abbrev pub member : ℕ → List ℕ → Bool
member h [] = false
member h (x ∷ xs) = let rest = member h xs in if h == x then true else rest

abbrev earlier : ℕ → Option ℕ → Option ℕ
earlier a none = some a
earlier a (some b) = some (if ltb a b then a else b)

-- `min(oldest)` over the events of all the subjects
abbrev pub oldest : List ℕ → List RateLimitEvent → Option ℕ
oldest hs [] = none
oldest hs (e ∷ events) =
    let rest = oldest hs events in
    if member e.subject_hash hs then earlier e.occurred_at rest else rest

-- `max(1, ceil(window - (now - oldest)))`
abbrev pub retry_after : ℕ → ℕ → Option ℕ → ℕ
retry_after window now none = window
retry_after window now (some first) = max 1 (window + first - now)

abbrev new_event : Scope → ℕ → ℕ → RateLimitEvent
new_event scope now h = record { scope = scope; subject_hash = h; occurred_at = now }

-- _CLEANUP_SQL
abbrev pub is_stale : Scope → ℕ → RateLimitEvent → Bool
is_stale scope now e = same_scope e.scope scope && leb (e.occurred_at + window_of scope) now

abbrev pub cleanup : Scope → ℕ → List RateLimitEvent → List RateLimitEvent
cleanup scope now events = select (λ e. not (is_stale scope now e)) events

abbrev pub with_events : List ℕ → Scope → ℕ → List RateLimitEvent → List RateLimitEvent
with_events subjects scope now events = events ++ map (new_event scope now) subjects

-- The answer to a call, with the events that it leaves.
abbrev pub decide : Scope → List ℕ → ℕ → List RateLimitEvent → Option ℕ
decide scope subjects now events =
    if leb (limit_of scope) (most_hits subjects (recent scope now events))
    then some (retry_after (window_of scope) now (oldest subjects (recent scope now events)))
    else none

abbrev pub record_events : Scope → List ℕ → ℕ → AccountDb → AccountDb
record_events scope subjects now d = record d {
  events = cleanup scope now (with_events subjects scope now d.events);
}

abbrev pub admit : Option ℕ → Scope → List ℕ → ℕ → Service (Unit {0})
admit (some wait) scope subjects now w = raised (too_many_requests wait) w
admit none scope subjects now w =
    returned tt (record w { db = record_events scope subjects now w.db })

-- enforce
unfoldable pub enforce : Scope → List ℕ → ℕ → Service (Unit {0})
enforce scope [] now w = raised value_error w
enforce scope (h ∷ hs) now w = admit (decide scope (h ∷ hs) now w.db.events) scope (h ∷ hs) now w
