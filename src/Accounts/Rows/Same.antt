-- ===== src/Accounts/Rows/Same.antt =====
-- The equality tests on the words of the account domain tell the words apart.
use agent_craft.Prelude.{ℕ, zero, suc, ◌≡◌, refl, sym, ap, ◌∙◌, true, List, [], ◌∷◌, ==→eq, ==-refl}
use agent_craft.Accounts.Rows.{
  Scope, same_scope, scope_no, Route, same_route, UserStatus, status_no, has_status,
}
use Route.{accept_route, confirm_route, reset_route, request_route, cancel_route}
use Scope.{
  login, invitation_accept, email_verify_resend, password_reset_request, deletion_cancel_invalid,
  deletion_cancel_attempt, mfa_failure, password_change_totp, provider_test, mcp_discover, report,
  discover, task_create, upload, send_message, sse_connect, admin_kill_switch,
}

abbrev scopes : List Scope
scopes =
    login ∷ invitation_accept ∷ email_verify_resend ∷ password_reset_request
    ∷ deletion_cancel_invalid ∷ deletion_cancel_attempt ∷ mfa_failure ∷ password_change_totp
    ∷ provider_test ∷ mcp_discover ∷ report ∷ discover ∷ task_create ∷ upload ∷ send_message
    ∷ sse_connect ∷ admin_kill_switch ∷ []

abbrev nth : List Scope → ℕ → Scope
nth [] n = login
nth (s ∷ rest) zero = s
nth (s ∷ rest) (suc n) = nth rest n

nth-scope_no : (s : Scope) → nth scopes (scope_no s) ≡ s
nth-scope_no login = refl
nth-scope_no invitation_accept = refl
nth-scope_no email_verify_resend = refl
nth-scope_no password_reset_request = refl
nth-scope_no deletion_cancel_invalid = refl
nth-scope_no deletion_cancel_attempt = refl
nth-scope_no mfa_failure = refl
nth-scope_no password_change_totp = refl
nth-scope_no provider_test = refl
nth-scope_no mcp_discover = refl
nth-scope_no report = refl
nth-scope_no discover = refl
nth-scope_no task_create = refl
nth-scope_no upload = refl
nth-scope_no send_message = refl
nth-scope_no sse_connect = refl
nth-scope_no admin_kill_switch = refl

pub same_scope→eq : (a b : Scope) → same_scope a b ≡ true → a ≡ b
same_scope→eq a b h =
    sym (nth-scope_no a) ∙ ap (nth scopes) (==→eq (scope_no a) (scope_no b) h) ∙ nth-scope_no b

pub same_scope_refl : (s : Scope) → same_scope s s ≡ true
same_scope_refl s = ==-refl (scope_no s)

pub same_route_refl : (r : Route) → same_route r r ≡ true
same_route_refl accept_route = refl
same_route_refl confirm_route = refl
same_route_refl reset_route = refl
same_route_refl request_route = refl
same_route_refl cancel_route = refl

abbrev all_statuses : List UserStatus
all_statuses =
    UserStatus.pending ∷ UserStatus.active ∷ UserStatus.suspended ∷ UserStatus.deleting
    ∷ UserStatus.deleted ∷ []

abbrev nth_status : List UserStatus → ℕ → UserStatus
nth_status [] n = UserStatus.pending
nth_status (s ∷ rest) zero = s
nth_status (s ∷ rest) (suc n) = nth_status rest n

nth-status_no : (s : UserStatus) → nth_status all_statuses (status_no s) ≡ s
nth-status_no UserStatus.pending = refl
nth-status_no UserStatus.active = refl
nth-status_no UserStatus.suspended = refl
nth-status_no UserStatus.deleting = refl
nth-status_no UserStatus.deleted = refl

pub has_status→eq : (a b : UserStatus) → has_status a b ≡ true → a ≡ b
has_status→eq a b h =
    sym (nth-status_no a)
    ∙ ap (nth_status all_statuses) (==→eq (status_no a) (status_no b) h)
    ∙ nth-status_no b
