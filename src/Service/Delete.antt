-- ===== src/Service/Delete.antt =====
-- backend/v2/task_service.py: delete_task.
use agent_craft.Prelude.{ℕ, Bool, false, Option, none, some, if◌then◌else◌, ltb, length}
use agent_craft.Model.Words.{TaskStatus, is_status}
use agent_craft.Model.Rows.{Task}
use agent_craft.Model.Tx.{Tx, pure, require, ◌>>=◌, ◌>>◌}
use agent_craft.Table.{update_task, parse_id, lock_task}
use agent_craft.State.{assert_transition, invalid_transition}
use agent_craft.Release.{release_task_holdings}
use agent_craft.Service.Finish.{
  cancel_active_rounds, cancel_pending_rounds, mark_pending_terminal, add_terminal_events,
}

-- The rounds of the task: a running one is asked to stop, a pending one is cancelled. The result
-- says whether a pending round was cancelled.
unfoldable pub cancel_for_delete : ℕ → Task → Tx Bool
cancel_for_delete owner task =
    if is_status TaskStatus.running task.status
    then (do
      cancel_active_rounds owner task.id
      mark_pending_terminal owner task.id TaskStatus.deleted
      pure false)
    else if is_status TaskStatus.queued task.status
    then (do hit ← cancel_pending_rounds owner task.id; pure (ltb 0 (length hit)))
    else pure false

-- UPDATE tasks SET status = 'deleted' WHERE id = :t AND status = :from
unfoldable pub flip_deleted : ℕ → ℕ → TaskStatus → Tx ℕ
flip_deleted owner task_id from =
    update_task owner task_id (λ t. is_status from t.status)
      (λ t. record t { status = TaskStatus.deleted })

-- delete_task
unfoldable pub delete_task : ℕ → Option ℕ → Option ℕ → Tx (ℕ × TaskStatus)
delete_task owner raw_owner raw_task = do
  task ← lock_task owner raw_task
  owner_id ← parse_id raw_owner
  assert_transition task.status TaskStatus.deleted
  round_cancelled ← cancel_for_delete owner task
  flipped ← flip_deleted owner task.id task.status
  require (ltb 0 flipped) invalid_transition
  add_terminal_events owner task.id TaskStatus.deleted none round_cancelled
  release_task_holdings owner (some task.id) (some owner_id)
  pure (task.id, TaskStatus.deleted)
