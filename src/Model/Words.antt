-- ===== src/Model/Words.antt =====
-- The closed word lists of backend/v2/models/tasking.py and backend/errors.py, with SQL's `=`.
use agent_craft.Prelude.{Bool, true, false, ◌||◌, List, [], ◌∷◌}

pub data TaskStatus : Type 0 where
  uploading queued running ready completed failed aborted deleted : TaskStatus

pub data RoundState : Type 0 where
  pending running cancelling settled failed cancelled : RoundState

pub data ReservationState : Type 0 where
  held consumed released : ReservationState

pub data Kind : Type 0 where
  active running task_root artifact_copy : Kind

pub data SlotState : Type 0 where
  free leased : SlotState

pub data FileState : Type 0 where
  staged committed registered deleted : FileState

pub data Direction : Type 0 where
  input output : Direction

pub data Author : Type 0 where
  user assistant tool : Author

pub data AbortReason : Type 0 where
  user_cancel round_failed upload_expired provider_key_revoked tool_revoked admin_suspended :
      AbortReason

-- The error codes that the task domain raises.
pub data ErrorCode : Type 0 where
  quota_daily_exceeded quota_active_exceeded quota_storage_exceeded : ErrorCode
  input_committed file_limit_exceeded revision_not_published tool_revoked : ErrorCode
  task_not_found task_invalid_transition task_round_busy file_not_found not_found : ErrorCode

abbrev pub is_status : TaskStatus → TaskStatus → Bool
is_status TaskStatus.uploading TaskStatus.uploading = true
is_status TaskStatus.queued TaskStatus.queued = true
is_status TaskStatus.running TaskStatus.running = true
is_status TaskStatus.ready TaskStatus.ready = true
is_status TaskStatus.completed TaskStatus.completed = true
is_status TaskStatus.failed TaskStatus.failed = true
is_status TaskStatus.aborted TaskStatus.aborted = true
is_status TaskStatus.deleted TaskStatus.deleted = true
is_status _ _ = false

abbrev pub is_round : RoundState → RoundState → Bool
is_round RoundState.pending RoundState.pending = true
is_round RoundState.running RoundState.running = true
is_round RoundState.cancelling RoundState.cancelling = true
is_round RoundState.settled RoundState.settled = true
is_round RoundState.failed RoundState.failed = true
is_round RoundState.cancelled RoundState.cancelled = true
is_round _ _ = false

abbrev pub is_held : ReservationState → Bool
is_held ReservationState.held = true
is_held _ = false

abbrev pub is_kind : Kind → Kind → Bool
is_kind Kind.active Kind.active = true
is_kind Kind.running Kind.running = true
is_kind Kind.task_root Kind.task_root = true
is_kind Kind.artifact_copy Kind.artifact_copy = true
is_kind _ _ = false

abbrev pub is_leased : SlotState → Bool
is_leased SlotState.leased = true
is_leased SlotState.free = false

abbrev pub is_file_state : FileState → FileState → Bool
is_file_state FileState.staged FileState.staged = true
is_file_state FileState.committed FileState.committed = true
is_file_state FileState.registered FileState.registered = true
is_file_state FileState.deleted FileState.deleted = true
is_file_state _ _ = false

abbrev pub is_direction : Direction → Direction → Bool
is_direction Direction.input Direction.input = true
is_direction Direction.output Direction.output = true
is_direction _ _ = false

-- `status IN (...)`
abbrev pub status_in : TaskStatus → List TaskStatus → Bool
status_in s [] = false
status_in s (t ∷ ts) = is_status t s || status_in s ts
