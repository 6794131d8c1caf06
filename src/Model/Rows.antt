-- ===== src/Model/Rows.antt =====
-- The tables of the task domain. An id is a number, a time is in seconds.
use agent_craft.Prelude.{ℕ, String, Option, List}
use agent_craft.Model.Words.{
  TaskStatus, RoundState, ReservationState, Kind, FileState, SlotState, Direction, Author,
  AbortReason,
}

pub record Task : Type 0 where
  pub id : ℕ
  pub owner_id : ℕ
  pub expert_revision_id : ℕ
  pub provider_id : ℕ
  pub provider_catalog_id : Option ℕ
  pub provider_model_id : String
  pub provider_key_version : ℕ
  pub mcp_servers : List ℕ
  pub initial_message_id : Option ℕ
  pub status : TaskStatus
  pub input_manifest_sha256 : Option String
  pub input_committed_at : Option ℕ
  pub event_sequence : ℕ
  pub abort_reason : Option AbortReason
  pub pending_terminal : Option TaskStatus
  pub created_at : ℕ

pub record TaskFile : Type 0 where
  pub id : ℕ
  pub task_id : ℕ
  pub owner_id : ℕ
  pub direction : Direction
  pub file_name : String
  pub sha256 : String
  pub size_bytes : ℕ
  pub state : FileState

pub record Reservation : Type 0 where
  pub id : ℕ
  pub task_id : ℕ
  pub user_id : ℕ
  pub kind : Kind
  pub bytes : ℕ
  pub state : ReservationState

pub record TaskMessage : Type 0 where
  pub id : ℕ
  pub task_id : ℕ
  pub owner_id : ℕ
  pub event_sequence : ℕ
  pub author : Author
  pub content : String

pub record TaskRound : Type 0 where
  pub id : ℕ
  pub task_id : ℕ
  pub owner_id : ℕ
  pub source_message_id : ℕ
  pub state : RoundState
  pub lease_owner : Option ℕ
  pub lease_epoch : ℕ
  pub lease_expires_at : Option ℕ
  pub attempt : ℕ
  pub created_at : ℕ

-- An event's type with its payload.
pub data EventBody : Type 0 where
  message_saved : (message_id : ℕ) (event_sequence : ℕ) → Author → EventBody
  round_queued : (round_id : ℕ) → (attempt : Option ℕ) → EventBody
  round_running : (round_id : ℕ) (attempt : ℕ) → EventBody
  round_settled : (round_id : ℕ) (attempt : ℕ) → (finish_reason : String) → EventBody
  round_failed : (round_id : ℕ) (attempt : ℕ) → EventBody
  round_cancelled : (round_id : Option ℕ) → Option AbortReason → EventBody
  status_changed : TaskStatus → Option AbortReason → EventBody

pub record TaskEvent : Type 0 where
  pub task_id : ℕ
  pub owner_id : ℕ
  pub sequence : ℕ
  pub body : EventBody
  pub message_id : Option ℕ
  pub round_id : Option ℕ

pub record UserQuota : Type 0 where
  pub max_daily_tasks : ℕ
  pub max_active_tasks : ℕ
  pub max_running_tasks : ℕ
  pub max_retained_storage_bytes : ℕ

pub record UserQuotaUsage : Type 0 where
  pub active_tasks : ℕ
  pub running_tasks : ℕ
  pub retained_storage_bytes : ℕ

pub record PlatformSlot : Type 0 where
  pub slot_no : ℕ
  pub task_id : Option ℕ
  pub state : SlotState
  pub leased_until : Option ℕ

pub record PlatformStorage : Type 0 where
  pub retained_storage_bytes : ℕ
  pub max_retained_storage_bytes : ℕ

-- The tables. `tasks` and the quota tables are read and written by primary key, so they are maps;
-- `task_keys` lists the tasks that were inserted, for the scans. The other tables are lists of rows.
pub record Db : Type 0 where
  pub tasks : ℕ → Option Task
  pub task_keys : List ℕ
  pub files : List TaskFile
  pub reservations : List Reservation
  pub messages : List TaskMessage
  pub rounds : List TaskRound
  pub events : List TaskEvent
  pub quotas : ℕ → Option UserQuota
  pub usage : ℕ → Option UserQuotaUsage
  pub daily : ℕ → ℕ → Option ℕ
  pub slots : List PlatformSlot
  pub storage : PlatformStorage
