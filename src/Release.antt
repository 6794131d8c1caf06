-- ===== src/Release.antt =====
-- backend/v2/task_release.py: the symmetric release of a task's reservations, its platform slot and
-- the counters of its owner.
use agent_craft.Prelude.{
  ℕ, ◌-◌, Bool, true, false, ◌&&◌, ◌==◌, Option, none, some, List, [], ◌∷◌, ◌++◌, if◌then◌else◌,
  leb, ltb, total, update_where, is_some_eq,
}
use agent_craft.Model.Words.{
  TaskStatus, Kind, ReservationState, SlotState, is_status, is_held, is_kind, is_leased, status_in,
}
use agent_craft.Model.Rows.{Task, Reservation, UserQuotaUsage, PlatformSlot, PlatformStorage}
use agent_craft.Model.Tx.{Tx, ok, pure, get, ◌>>=◌, ◌>>◌}
use agent_craft.Table.{find_task, parse_id, set_row}
pub mod Frame

-- The rows of `UPDATE ... WHERE task_id = :t AND state = 'held' [AND kind IN kinds] RETURNING kind, bytes`.
abbrev pub hit : ℕ → (Kind → Bool) → Reservation → Bool
hit task_id kinds r = r.task_id == task_id && (is_held r.state && kinds r.kind)

abbrev pub released_rows : ℕ → (Kind → Bool) → List Reservation → List (Kind × ℕ)
released_rows task_id kinds [] = []
released_rows task_id kinds (r ∷ rs) =
    let rest = released_rows task_id kinds rs in
    if hit task_id kinds r then (r.kind, r.bytes) ∷ rest else rest

abbrev pub mark_released : Reservation → Reservation
mark_released r = record r { state = ReservationState.released }

-- _release_reservations
unfoldable pub release_reservations : ℕ → (Kind → Bool) → Tx (List (Kind × ℕ))
release_reservations task_id kinds db = ok (
  released_rows task_id kinds db.reservations,
  record db { reservations = update_where (hit task_id kinds) mark_released db.reservations },
)

-- UPDATE user_quota_usage ... WHERE user_id = :u AND guard; a shortfall is logged and nothing is written.
abbrev pub update_usage_row :
    Option UserQuotaUsage → (UserQuotaUsage → Bool) → (UserQuotaUsage → UserQuotaUsage) → ℕ → Tx ℕ
update_usage_row none guard f user_id db = ok (0, db)
update_usage_row (some q) guard f user_id db =
    if guard q
    then ok (1, record db { usage = set_row db.usage user_id (some (f q)) })
    else ok (0, db)

unfoldable pub update_usage : ℕ → (UserQuotaUsage → Bool) → (UserQuotaUsage → UserQuotaUsage) → Tx ℕ
update_usage user_id guard f db = update_usage_row (db.usage user_id) guard f user_id db

unfoldable pub update_storage :
    (PlatformStorage → Bool) → (PlatformStorage → PlatformStorage) → Tx ℕ
update_storage guard f db =
    if guard db.storage then ok (1, record db { storage = f db.storage }) else ok (0, db)

-- _refund_storage: the user's account, then the platform's; each refuses to go below zero.
unfoldable pub refund_storage : ℕ → ℕ → Tx (Unit {0})
refund_storage owner_id nbytes = do
  update_usage owner_id (λ q. leb nbytes q.retained_storage_bytes)
      (λ q. record q { retained_storage_bytes = q.retained_storage_bytes - nbytes })
  update_storage (λ p. leb nbytes p.retained_storage_bytes)
      (λ p. record p { retained_storage_bytes = p.retained_storage_bytes - nbytes })
  pure tt

abbrev pub leased_to : ℕ → PlatformSlot → Bool
leased_to task_id s = is_some_eq s.task_id task_id && is_leased s.state

abbrev pub free_slot : PlatformSlot → PlatformSlot
free_slot s = record s { task_id = none; state = SlotState.free; leased_until = none }

unfoldable pub free_slots : ℕ → Tx (Unit {0})
free_slots task_id db =
    ok (tt, record db { slots = update_where (leased_to task_id) free_slot db.slots })

abbrev pub count_kind : Kind → List (Kind × ℕ) → ℕ
count_kind k rows = total (λ r. if is_kind k r.0 then 1 else 0) rows

-- The three parts of _apply_release_accounting.
unfoldable pub release_running : ℕ → ℕ → ℕ → Tx (Unit {0})
release_running task_id owner_id n = do
  free_slots task_id
  update_usage owner_id (λ q. leb n q.running_tasks)
      (λ q. record q { running_tasks = q.running_tasks - n })
  pure tt

unfoldable pub release_active : ℕ → ℕ → Tx (Unit {0})
release_active owner_id n = do
  update_usage owner_id (λ q. leb n q.active_tasks)
      (λ q. record q { active_tasks = q.active_tasks - n })
  pure tt

-- `if test: body`
unfoldable pub when : Bool → Tx (Unit {0}) → Tx (Unit {0})
when b m = if b then m else pure tt

-- _apply_release_accounting
unfoldable pub apply_release_accounting : ℕ → ℕ → List (Kind × ℕ) → Bool → Tx (Unit {0})
apply_release_accounting task_id owner_id rows refund = do
  let running_n = count_kind Kind.running rows
  let active_n = count_kind Kind.active rows
  let nbytes = total (λ (r : Kind × ℕ). r.1) rows
  when (ltb 0 running_n) (release_running task_id owner_id running_n)
  when (ltb 0 active_n) (release_active owner_id active_n)
  when (refund && ltb 0 nbytes) (refund_storage owner_id nbytes)

-- _TERMINAL_NON_DELETED
abbrev pub terminal_non_deleted : List TaskStatus
terminal_non_deleted = TaskStatus.completed ∷ TaskStatus.failed ∷ TaskStatus.aborted ∷ []

abbrev pub any_kind : Kind → Bool
any_kind k = true

-- The branches of release_task_holdings on the status that has been written.
unfoldable pub release_by_status : ℕ → ℕ → Option Task → Tx (Unit {0})
release_by_status task_id owner_id none = pure tt
release_by_status task_id owner_id (some t) =
    if is_status TaskStatus.deleted t.status
    then (do
      rows ← release_reservations task_id any_kind
      apply_release_accounting task_id owner_id rows true)
    else (do
      rows ← release_reservations task_id (is_kind Kind.running)
      more ←
          if status_in t.status terminal_non_deleted
          then release_reservations task_id (is_kind Kind.active)
          else pure []
      apply_release_accounting task_id owner_id (rows ++ more) false)

-- release_task_holdings, on a session of `session_owner` (the callers pass the session's owner).
unfoldable pub release_task_holdings : ℕ → Option ℕ → Option ℕ → Tx (Unit {0})
release_task_holdings session_owner raw_task raw_owner = do
  task_id ← parse_id raw_task
  owner_id ← parse_id raw_owner
  db ← get
  release_by_status task_id owner_id (find_task session_owner task_id db)
