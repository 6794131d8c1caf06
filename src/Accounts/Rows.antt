-- ===== src/Accounts/Rows.antt =====
-- The tables of the account domain (backend/v2/models/identity.py, and two of models/tasking.py). An
-- id is a number, a time is in seconds; a token, a digest, a password and an address are numbers too.
pub mod Same
use agent_craft.Prelude.{ℕ, String, Bool, true, false, Option, List, ◌==◌}

-- USER_STATUSES
pub data UserStatus : Type 0 where
  pending active suspended deleting deleted : UserStatus

-- USER_ROLES
pub data Role : Type 0 where
  user admin : Role

-- ACTION_TOKEN_PURPOSES
pub data Purpose : Type 0 where
  email_verify password_reset deletion_cancel : Purpose

-- An address that a person has given, and the one that an anonymized row is given instead.
pub data Email : Type 0 where
  address : ℕ → Email
  deleted_user : (id : ℕ) → Email

pub record User : Type 0 where
  pub id : ℕ
  pub email : Email
  pub password_hash : ℕ
  pub role : Role
  pub status : UserStatus
  pub mfa_secret_enc : Option ℕ
  pub deleted_at : Option ℕ
  pub deletion_deadline_at : Option ℕ

pub record Session : Type 0 where
  pub id : ℕ
  pub token_hash : ℕ
  pub user_id : ℕ
  pub csrf_hash : ℕ
  pub created_at : ℕ
  pub expires_at : ℕ
  pub revoked_at : Option ℕ
  pub mfa_verified_at : Option ℕ
  pub device_label : String

pub record ActionToken : Type 0 where
  pub id : ℕ
  pub user_id : ℕ
  pub purpose : Purpose
  pub token_hash : ℕ
  pub expires_at : ℕ
  pub consumed_at : Option ℕ

pub record Invitation : Type 0 where
  pub id : ℕ
  pub token_hash : ℕ
  pub email : Email
  pub expires_at : ℕ
  pub consumed_at : Option ℕ
  pub revoked_at : Option ℕ

-- OUTBOX_PURPOSES
pub data Template : Type 0 where
  invitation : Template
  action : Purpose → Template

pub data OutboxState : Type 0 where
  pending sent delivery_failed : OutboxState

-- EmailOutbox; the payload is the plain text, which the row keeps under the cipher.
pub record Mail : Type 0 where
  pub id : ℕ
  pub user_id : ℕ
  pub purpose : Template
  pub recipient : Email
  pub action_token : ℕ
  pub state : OutboxState
  pub lease_owner : Option ℕ
  pub lease_expires_at : Option ℕ
  pub attempts : ℕ
  pub next_attempt_at : Option ℕ
  pub created_at : ℕ

-- The scopes that LIMITS registers.
pub data Scope : Type 0 where
  login invitation_accept email_verify_resend password_reset_request : Scope
  deletion_cancel_invalid deletion_cancel_attempt mfa_failure password_change_totp : Scope
  provider_test mcp_discover report discover task_create upload send_message sse_connect : Scope
  admin_kill_switch : Scope

pub record RateLimitEvent : Type 0 where
  pub scope : Scope
  pub subject_hash : ℕ
  pub occurred_at : ℕ

-- The endpoints that take an Idempotency-Key, and what they answer.
pub data Route : Type 0 where
  accept_route confirm_route reset_route request_route cancel_route : Route

pub data Body : Type 0 where
  accepted : (user_id : ℕ) → Email → (csrf_token : ℕ) → Body
  verified : Body
  password_set : Body
  closing : (days_remaining : ℕ) → Body
  restored : (user_id : ℕ) → Email → Role → (csrf_token : ℕ) → Body

pub record IdempotencyRecord : Type 0 where
  pub subject_hash : ℕ
  pub route : Route
  pub key : ℕ
  pub request_hash : ℕ
  pub response_json : Body
  pub status_code : ℕ
  pub expires_at : ℕ

pub record AccountDb : Type 0 where
  pub users : List User
  pub sessions : List Session
  pub tokens : List ActionToken
  pub invitations : List Invitation
  pub outbox : List Mail
  pub records : List IdempotencyRecord
  pub events : List RateLimitEvent
  -- The owners of the rows of user_providers.
  pub providers : List ℕ

abbrev pub status_no : UserStatus → ℕ
status_no UserStatus.pending = 0
status_no UserStatus.active = 1
status_no UserStatus.suspended = 2
status_no UserStatus.deleting = 3
status_no UserStatus.deleted = 4

abbrev pub has_status : UserStatus → UserStatus → Bool
has_status a b = status_no a == status_no b

abbrev purpose_no : Purpose → ℕ
purpose_no email_verify = 0
purpose_no password_reset = 1
purpose_no deletion_cancel = 2

abbrev pub same_purpose : Purpose → Purpose → Bool
same_purpose a b = purpose_no a == purpose_no b

abbrev pub same_email : Email → Email → Bool
same_email (address a) (address b) = a == b
same_email (deleted_user a) (deleted_user b) = a == b
same_email _ _ = false

abbrev pub scope_no : Scope → ℕ
scope_no login = 0
scope_no invitation_accept = 1
scope_no email_verify_resend = 2
scope_no password_reset_request = 3
scope_no deletion_cancel_invalid = 4
scope_no deletion_cancel_attempt = 5
scope_no mfa_failure = 6
scope_no password_change_totp = 7
scope_no provider_test = 8
scope_no mcp_discover = 9
scope_no report = 10
scope_no discover = 11
scope_no task_create = 12
scope_no upload = 13
scope_no send_message = 14
scope_no sse_connect = 15
scope_no admin_kill_switch = 16

abbrev pub same_scope : Scope → Scope → Bool
same_scope a b = scope_no a == scope_no b

abbrev route_no : Route → ℕ
route_no accept_route = 0
route_no confirm_route = 1
route_no reset_route = 2
route_no request_route = 3
route_no cancel_route = 4

abbrev pub same_route : Route → Route → Bool
same_route a b = route_no a == route_no b
