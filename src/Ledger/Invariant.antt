-- ===== src/Ledger/Invariant.antt =====
-- The invariant of the three accounts. It reads of a task its owner and its status only.
use agent_craft.Prelude.{
  ℕ, ◌≤◌, ◌≡◌, Bool, true, false, ◌==◌, Option, none, some, List, if◌then◌else◌, total, All,
}
use agent_craft.Model.Words.{TaskStatus, Kind}
use agent_craft.Model.Rows.{Db, Task, Reservation, UserQuotaUsage, PlatformSlot, PlatformStorage}
use agent_craft.Release.{leased_to}
use agent_craft.Ledger.Sums.{sum_held, of_user, of_task, bytes_of, all_bytes}
use agent_craft.Ledger.Accounting.{usage_of}

abbrev pub Profile : Type 0
Profile = Option (ℕ × TaskStatus)

abbrev pub profile : Option Task → Profile
profile none = none
profile (some t) = some (t.owner_id, t.status)

abbrev pub owner_of : Profile → Option ℕ
owner_of none = none
owner_of (some (u, s)) = some u

abbrev pub live_status : TaskStatus → Bool
live_status TaskStatus.uploading = true
live_status TaskStatus.queued = true
live_status TaskStatus.running = true
live_status TaskStatus.ready = true
live_status _ = false

abbrev pub running_status : TaskStatus → Bool
running_status TaskStatus.running = true
running_status _ = false

abbrev pub deleted_status : TaskStatus → Bool
deleted_status TaskStatus.deleted = true
deleted_status _ = false

-- A test of the status, false where there is no row.
abbrev pub row_is : (TaskStatus → Bool) → Profile → Bool
row_is p none = false
row_is p (some (u, s)) = p s

-- Only storage reservations carry bytes.
abbrev pub bytes_fit : Kind → ℕ → Bool
bytes_fit Kind.active b = b == 0
bytes_fit Kind.running b = b == 0
bytes_fit _ b = true

abbrev pub RowOk : (ℕ → Profile) → Reservation → Type 0
RowOk tasks r = (owner_of (tasks r.task_id) ≡ some r.user_id) × (bytes_fit r.kind r.bytes ≡ true)

abbrev pub slots_of : ℕ → List PlatformSlot → ℕ
slots_of t = total (λ s. if leased_to t s then 1 else 0)

abbrev pub of_task_any : ℕ → Reservation → ℕ
of_task_any t r = if r.task_id == t then 1 else 0

-- The counters of every user, and the platform's, are the sums of the held reservations.
pub record Accounts (rs : List Reservation) (usage : ℕ → Option UserQuotaUsage)
    (storage : PlatformStorage) : Type 0 where
  pub active : (v : ℕ) → (usage_of (usage v)).active_tasks ≡ sum_held (of_user v Kind.active) rs
  pub running : (v : ℕ) → (usage_of (usage v)).running_tasks ≡ sum_held (of_user v Kind.running) rs
  pub bytes : (v : ℕ) → (usage_of (usage v)).retained_storage_bytes ≡ sum_held (bytes_of v) rs
  pub platform : storage.retained_storage_bytes ≡ sum_held all_bytes rs

-- What holds of a task also between the flip of its status and the release.
pub record Loose (p : Profile) (t : ℕ) (rs : List Reservation) (slots : List PlatformSlot)
    : Type 0 where
  -- its slots are its held running reservations, and there is at most one
  pub slot : slots_of t slots ≡ sum_held (of_task t Kind.running) rs
  pub one_slot : sum_held (of_task t Kind.running) rs ≤ 1
  -- a live task holds one active reservation
  pub alive : row_is live_status p ≡ true → sum_held (of_task t Kind.active) rs ≡ 1

-- What a task in its status does not hold.
pub record Tight (p : Profile) (t : ℕ) (rs : List Reservation) : Type 0 where
  pub idle : row_is running_status p ≡ false → sum_held (of_task t Kind.running) rs ≡ 0
  pub over : row_is live_status p ≡ false → sum_held (of_task t Kind.active) rs ≡ 0
  pub gone : row_is deleted_status p ≡ true → sum_held (of_task_any t) rs ≡ 0

pub record Ledger (tasks : ℕ → Profile) (rs : List Reservation) (usage : ℕ → Option UserQuotaUsage)
    (slots : List PlatformSlot) (storage : PlatformStorage) : Type 0 where
  pub rows : All (RowOk tasks) rs
  pub accounts : Accounts rs usage storage
  pub loose : (t : ℕ) → Loose (tasks t) t rs slots
  pub tight : (t : ℕ) → Tight (tasks t) t rs

-- The same, but for what the task `t0`, of the owner `u`, is about to release.
pub record Before (u t0 : ℕ) (tasks : ℕ → Profile) (rs : List Reservation)
    (usage : ℕ → Option UserQuotaUsage) (slots : List PlatformSlot) (storage : PlatformStorage)
    : Type 0 where
  pub rows : All (RowOk tasks) rs
  pub accounts : Accounts rs usage storage
  pub loose : (t : ℕ) → Loose (tasks t) t rs slots
  pub tight : (t : ℕ) → (t0 == t) ≡ false → Tight (tasks t) t rs
  pub owned : owner_of (tasks t0) ≡ some u

abbrev pub profiles : Db → ℕ → Profile
profiles s k = profile (s.tasks k)

-- The invariant of a database.
abbrev pub Balanced : Db → Type 0
Balanced s = Ledger (profiles s) s.reservations s.usage s.slots s.storage

abbrev pub BeforeRelease : ℕ → ℕ → Db → Type 0
BeforeRelease u t s = Before u t (profiles s) s.reservations s.usage s.slots s.storage
