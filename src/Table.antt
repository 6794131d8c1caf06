-- ===== src/Table.antt =====
-- The statements that the task domain sends to its tables. Row-level security
-- (backend/alembic_v2/versions/0001_initial_schema_and_rls.py) hides the rows of `tasks`,
-- `task_rounds`, `task_events`, `task_messages` and `task_files` of every owner but the session's.
-- Reservations, quotas, slots and the platform's storage have no such policy.
use agent_craft.Prelude.{
  ℕ, ◌+◌, ◌-◌, Bool, true, false, ◌&&◌, ◌||◌, ◌==◌, Option, none, some, List, [], ◌∷◌, ◌++◌,
  if◌then◌else◌, map, select, update_where, is_none, not,
}
use agent_craft.Model.Words.{
  TaskStatus, RoundState, ReservationState, is_status, is_kind, task_not_found,
}
use agent_craft.Model.Rows.{Db, Task, TaskRound, TaskMessage, EventBody, Reservation}
use agent_craft.Model.Tx.{
  Exn, Tx, ok, app_error, pure, get, put, require, require_some, one_active_round_per_task,
  other_constraint, ◌>>=◌, ◌>>◌,
}

-- A row of `tasks` as a session of `owner` sees it.
abbrev pub visible : ℕ → Option Task → Option Task
visible owner none = none
visible owner (some t) = if t.owner_id == owner then some t else none

abbrev pub find_task : ℕ → ℕ → Db → Option Task
find_task owner task_id db = visible owner (db.tasks task_id)

abbrev pub set_row {ℓ} : {A : Type ℓ} → (ℕ → Option A) → ℕ → Option A → ℕ → Option A
set_row f k v j = if k == j then v else f j

-- UPDATE tasks ... WHERE id = :tid AND guard, with its rowcount.
abbrev pub update_found : Option Task → (Task → Bool) → (Task → Task) → ℕ → Tx ℕ
update_found none guard f task_id db = ok (0, db)
update_found (some t) guard f task_id db =
    if guard t
    then ok (1, record db { tasks = set_row db.tasks task_id (some (f t)) })
    else ok (0, db)

unfoldable pub update_task : ℕ → ℕ → (Task → Bool) → (Task → Task) → Tx ℕ
update_task owner task_id guard f db = update_found (find_task owner task_id db) guard f task_id db

abbrev pub task_not_found_error : Exn
task_not_found_error = app_error task_not_found 404

-- _parse_id: what `uuid.UUID` makes of the text, or the 400.
unfoldable pub parse_id : Option ℕ → Tx ℕ
parse_id raw = require_some raw Exn.validation_error

abbrev pub hide_deleted : Option Task → Option Task
hide_deleted none = none
hide_deleted (some t) = if is_status TaskStatus.deleted t.status then none else some t

-- _lock_task: a missing row, another owner's and a deleted one are the same 404. The id of the row is
-- the key that it was read by.
unfoldable pub lock_task : ℕ → Option ℕ → Tx Task
lock_task owner raw = do
  task_id ← parse_id raw
  db ← get
  task ← require_some (hide_deleted (find_task owner task_id db)) task_not_found_error
  pure (record task { id = task_id })

-- _allocate_event_sequence: the first number of a block of `count`; a missing task is an exception.
unfoldable pub allocate_event_sequence : ℕ → ℕ → ℕ → Tx ℕ
allocate_event_sequence owner task_id count = do
  update_task owner task_id (λ t. true)
      (λ t. record t { event_sequence = t.event_sequence + count })
  db ← get
  task ← require_some (find_task owner task_id db) Exn.no_result_found
  pure (task.event_sequence - count + 1)

-- _add_event
unfoldable pub add_event : ℕ → ℕ → ℕ → EventBody → Option ℕ → Option ℕ → Tx (Unit {0})
add_event owner task_id sequence body message_id round_id db = ok (
  tt,
  record db {
    events =
        db.events
        ++ record {
          task_id = task_id;
          owner_id = owner;
          sequence = sequence;
          body = body;
          message_id = message_id;
          round_id = round_id;
        }
          ∷ [];
  },
)

unfoldable pub add_message : TaskMessage → Tx (Unit {0})
add_message m db = ok (tt, record db { messages = db.messages ++ m ∷ [] })

-- UPDATE task_rounds ... WHERE test, with the rows RETURNING shows (after the update).
unfoldable pub update_rounds :
    ℕ → (TaskRound → Bool) → (TaskRound → TaskRound) → Tx (List TaskRound)
update_rounds owner test f db =
    let p = λ (r : TaskRound). r.owner_id == owner && test r in
    ok (map f (select p db.rounds), record db { rounds = update_where p f db.rounds })

abbrev pub is_active_round : RoundState → Bool
is_active_round RoundState.pending = true
is_active_round RoundState.running = true
is_active_round RoundState.cancelling = true
is_active_round _ = false

abbrev pub has {ℓ} : {A : Type ℓ} → (A → Bool) → List A → Bool
has p [] = false
has p (x ∷ xs) = p x || has p xs

-- INSERT INTO task_rounds: the partial unique index one_active_round_per_task, and the unique
-- source message.
unfoldable pub insert_round : TaskRound → Tx (Unit {0})
insert_round r = do
  db ← get
  require
      (not (
        is_active_round r.state
        && has (λ x. x.task_id == r.task_id && is_active_round x.state) db.rounds))
      (Exn.integrity_error one_active_round_per_task)
  require (not (has (λ x. x.source_message_id == r.source_message_id) db.rounds))
      (Exn.integrity_error other_constraint)
  put (record db { rounds = db.rounds ++ r ∷ [] })

abbrev pub is_live_reservation : ReservationState → Bool
is_live_reservation ReservationState.held = true
is_live_reservation ReservationState.consumed = true
is_live_reservation ReservationState.released = false

-- The row that one_live_{active,running,task_root}_reservation allows one of per task. A row of the fourth
-- kind is unique per task and file; only register_output inserts one, which is not modelled.
abbrev pub clashes : Reservation → Reservation → Bool
clashes r x = x.task_id == r.task_id && (is_kind r.kind x.kind && is_live_reservation x.state)

-- INSERT INTO task_reservations: the foreign key on the task and the partial unique indexes.
unfoldable pub insert_reservation : Reservation → Tx (Unit {0})
insert_reservation r = do
  db ← get
  require (not (is_none (db.tasks r.task_id))) (Exn.integrity_error other_constraint)
  require (not (has (clashes r) db.reservations)) (Exn.integrity_error other_constraint)
  put (record db { reservations = db.reservations ++ r ∷ [] })

-- INSERT INTO tasks: the primary key.
unfoldable pub insert_task : Task → Tx (Unit {0})
insert_task t = do
  db ← get
  require (is_none (db.tasks t.id)) (Exn.integrity_error other_constraint)
  put (record db { tasks = set_row db.tasks t.id (some t); task_keys = db.task_keys ++ t.id ∷ [] })
