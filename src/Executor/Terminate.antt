-- ===== src/Executor/Terminate.antt =====
-- backend/v2/task_executor.py: the kill switch (_terminate_one), the reconciliation of tasks whose
-- round is gone (reconcile_pending_terminal), and the account deletion hook (terminate_tasks_hook).
use agent_craft.Prelude.{
  ℕ, ◌+◌, Bool, false, is_none, ◌&&◌, ◌==◌, not, Option, none, some, List, [], ◌∷◌, map,
  if◌then◌else◌, ltb, length, select, update_where,
}
use agent_craft.Model.Words.{
  TaskStatus, RoundState, AbortReason, tool_revoked, user_cancel, is_status, status_in,
}
use agent_craft.Model.Rows.{
  Db, Task, TaskRound, PlatformSlot, TaskFile, Reservation, TaskMessage, TaskEvent, round_cancelled,
  status_changed,
}
use agent_craft.Model.Tx.{Tx, ok, pure, get, ◌>>=◌, ◌>>◌}
use agent_craft.Table.{
  find_task, update_task, allocate_event_sequence, add_event, update_rounds, is_active_round, has,
}
use agent_craft.Release.{release_task_holdings}
use agent_craft.Frames.{Frame, status_frame, done_frame}

abbrev pub queued_or_running : List TaskStatus
queued_or_running = TaskStatus.queued ∷ TaskStatus.running ∷ []

abbrev pub may_terminate : Option Task → Bool
may_terminate none = false
may_terminate (some t) = status_in t.status queued_or_running

-- _TERMINATOR_ROUND_CANCEL_SQL
unfoldable pub cancel_rounds : ℕ → ℕ → Tx (List TaskRound)
cancel_rounds owner task_id =
    update_rounds owner (λ r. r.task_id == task_id && is_active_round r.state)
      (λ r. record r { state = RoundState.cancelled; lease_owner = none; lease_expires_at = none })

-- _TERMINATOR_TASK_FLIP_SQL
unfoldable pub abort_revoked : ℕ → ℕ → Tx ℕ
abort_revoked owner task_id =
    update_task owner task_id (λ t. status_in t.status queued_or_running)
      (λ t. record t {
        status = TaskStatus.aborted;
        abort_reason = some tool_revoked;
        pending_terminal = none;
      })

-- One round_cancelled event for each cancelled round, numbered from `sequence`.
unfoldable pub add_cancelled_events : ℕ → ℕ → ℕ → List TaskRound → Tx (Unit {0})
add_cancelled_events owner task_id sequence [] = pure tt
add_cancelled_events owner task_id sequence (r ∷ rows) = do
  add_event owner task_id sequence (round_cancelled (some r.id) (some tool_revoked)) none
      (some r.id)
  add_cancelled_events owner task_id (sequence + 1) rows

unfoldable pub record_termination : ℕ → ℕ → List TaskRound → Tx (List Frame)
record_termination owner task_id rows = do
  seq ← allocate_event_sequence owner task_id (1 + length rows)
  add_event owner task_id seq (status_changed TaskStatus.aborted (some tool_revoked)) none none
  add_cancelled_events owner task_id (seq + 1) rows
  release_task_holdings owner (some task_id) (some owner)
  pure (
      status_frame seq TaskStatus.aborted (some tool_revoked)
      ∷ map (λ r. done_frame "aborted") rows)

unfoldable pub terminate_active : (owner task_id : ℕ) → Tx (Option (List Frame))
terminate_active owner task_id = do
  rows ← cancel_rounds owner task_id
  flipped ← abort_revoked owner task_id
  if ltb 0 flipped
      then (record_termination owner task_id rows >>= λ frames. pure (some frames))
      else pure none

-- _terminate_one: none is the receipt {"flipped": False}.
unfoldable pub terminate_one : (owner task_id : ℕ) → Tx (Option (List Frame))
terminate_one owner task_id = do
  db ← get
  if may_terminate (find_task owner task_id db) then terminate_active owner task_id else pure none

-- _PENDING_TERMINAL_CANDIDATES_SQL
abbrev pub is_stranded : Db → Task → Bool
is_stranded db t =
    is_status TaskStatus.running t.status
    && not (is_none t.pending_terminal)
    && not (has (λ r. r.task_id == t.id && is_active_round r.state) db.rounds)

abbrev pub intends : TaskStatus → Option TaskStatus → Bool
intends terminal none = false
intends terminal (some p) = is_status terminal p

abbrev pub reason_of : TaskStatus → Option AbortReason
reason_of TaskStatus.aborted = some user_cancel
reason_of _ = none

-- _RECONCILE_FLIP_SQL
unfoldable pub reconcile_flip : ℕ → ℕ → TaskStatus → Tx ℕ
reconcile_flip owner task_id terminal =
    update_task owner task_id
      (λ t. is_status TaskStatus.running t.status && intends terminal t.pending_terminal)
      (λ t. record t {
        status = terminal;
        abort_reason = reason_of terminal;
        pending_terminal = none;
      })

unfoldable pub record_reconcile : ℕ → ℕ → TaskStatus → Tx (List Frame)
record_reconcile owner task_id terminal = do
  seq ← allocate_event_sequence owner task_id 1
  add_event owner task_id seq (status_changed terminal (reason_of terminal)) none none
  release_task_holdings owner (some task_id) (some owner)
  pure (status_frame seq terminal (reason_of terminal) ∷ [])

-- The transaction of reconcile_pending_terminal for one candidate; a lost flip writes nothing.
unfoldable pub reconcile_one : (owner task_id : ℕ) → TaskStatus → Tx (List Frame)
reconcile_one owner task_id terminal = do
  flipped ← reconcile_flip owner task_id terminal
  if ltb 0 flipped then record_reconcile owner task_id terminal else pure []

-- _TERMINATE_USER_ROUNDS_SQL
unfoldable pub cancel_user_rounds : ℕ → Tx (List TaskRound)
cancel_user_rounds user_id =
    update_rounds user_id (λ r. is_active_round r.state)
      (λ r. record r { state = RoundState.cancelled; lease_owner = none; lease_expires_at = none })

-- _TERMINATE_USER_TASK_FLIP_SQL
abbrev pub flip_row : ℕ → Option Task → Option Task
flip_row user_id none = none
flip_row user_id (some t) =
    if t.owner_id == user_id && not (is_status TaskStatus.deleted t.status)
    then some (record t { status = TaskStatus.deleted; pending_terminal = none })
    else some t

unfoldable pub flip_user_tasks : ℕ → Tx (Unit {0})
flip_user_tasks user_id db = ok (tt, record db { tasks = λ k. flip_row user_id (db.tasks k) })

unfoldable pub release_each : ℕ → List ℕ → Tx (Unit {0})
release_each user_id [] = pure tt
release_each user_id (task_id ∷ rest) = do
  release_task_holdings user_id (some task_id) (some user_id)
  release_each user_id rest

-- _TERMINATE_USER_TASK_DELETE_SQL: the rows of `tasks`, and by ON DELETE CASCADE their files,
-- messages, rounds, events and reservations; a slot of theirs is set to NULL.
abbrev pub owned_by : ℕ → Option Task → Bool
owned_by user_id none = false
owned_by user_id (some t) = t.owner_id == user_id

abbrev pub drop_row : ℕ → Option Task → Option Task
drop_row user_id none = none
drop_row user_id (some t) = if t.owner_id == user_id then none else some t

abbrev pub names_owned : Db → ℕ → Option ℕ → Bool
names_owned db user_id none = false
names_owned db user_id (some task_id) = owned_by user_id (db.tasks task_id)

unfoldable pub delete_user_tasks : ℕ → Tx (Unit {0})
delete_user_tasks user_id db = ok (
  tt,
  record db {
    tasks = λ k. drop_row user_id (db.tasks k);
    task_keys = select (λ k. not (owned_by user_id (db.tasks k))) db.task_keys;
    files = select (λ (x : TaskFile). not (owned_by user_id (db.tasks x.task_id))) db.files;
    reservations =
        select (λ (x : Reservation). not (owned_by user_id (db.tasks x.task_id))) db.reservations;
    messages =
        select (λ (x : TaskMessage). not (owned_by user_id (db.tasks x.task_id))) db.messages;
    rounds = select (λ (x : TaskRound). not (owned_by user_id (db.tasks x.task_id))) db.rounds;
    events = select (λ (x : TaskEvent). not (owned_by user_id (db.tasks x.task_id))) db.events;
    slots =
        update_where (λ (s : PlatformSlot). names_owned db user_id s.task_id)
          (λ s. record s { task_id = none }) db.slots;
  },
)

unfoldable pub erase_user_tasks : ℕ → Tx (List ℕ)
erase_user_tasks user_id = do
  db ← get
  let task_ids = select (λ k. owned_by user_id (db.tasks k)) db.task_keys
  cancel_user_rounds user_id
  flip_user_tasks user_id
  release_each user_id task_ids
  delete_user_tasks user_id
  pure task_ids

-- terminate_tasks_hook, inside the transaction of the account's deletion; without a V2 runtime it does
-- nothing. For a user without tasks the source returns before the statements, which would find no row.
unfoldable pub terminate_tasks_hook : (has_runtime : Bool) → ℕ → Tx (List ℕ)
terminate_tasks_hook has_runtime user_id = if has_runtime then erase_user_tasks user_id else pure []
