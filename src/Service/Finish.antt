-- ===== src/Service/Finish.antt =====
-- backend/v2/task_service.py: abort_task and complete_task, and the three ways to a terminal state.
use agent_craft.Prelude.{
  ℕ, ◌+◌, Bool, true, false, ◌&&◌, ◌==◌, Option, none, some, List, if◌then◌else◌, ltb, length,
}
use agent_craft.Model.Words.{TaskStatus, RoundState, AbortReason, user_cancel, is_status, is_round}
use agent_craft.Model.Rows.{Task, TaskRound, round_cancelled, status_changed}
use agent_craft.Model.Tx.{Tx, pure, get, require, ◌>>=◌, ◌>>◌}
use agent_craft.Table.{
  find_task, update_task, parse_id, lock_task, allocate_event_sequence, add_event, update_rounds,
  is_active_round,
}
use agent_craft.State.{assert_transition, invalid_transition}
use agent_craft.Release.{release_task_holdings}

-- The 200 answer with the task, or the 202 answer of a round that is being cancelled.
pub data Answer : Type 0 where
  done : Option Task → Answer
  cancelling : Option Task → Answer

abbrev pub view : ℕ → ℕ → Tx (Option Task)
view owner task_id = do db ← get; pure (find_task owner task_id db)

-- UPDATE task_rounds SET state = 'cancelling' WHERE task_id = :t AND state IN (active)
unfoldable pub cancel_active_rounds : ℕ → ℕ → Tx (List TaskRound)
cancel_active_rounds owner task_id =
    update_rounds owner (λ r. r.task_id == task_id && is_active_round r.state)
      (λ r. record r { state = RoundState.cancelling })

-- UPDATE task_rounds SET state = 'cancelled' WHERE task_id = :t AND state = 'pending'
unfoldable pub cancel_pending_rounds : ℕ → ℕ → Tx (List TaskRound)
cancel_pending_rounds owner task_id =
    update_rounds owner (λ r. r.task_id == task_id && is_round RoundState.pending r.state)
      (λ r. record r { state = RoundState.cancelled })

-- UPDATE tasks SET pending_terminal = :p WHERE id = :t AND status = 'running'
unfoldable pub mark_pending_terminal : ℕ → ℕ → TaskStatus → Tx ℕ
mark_pending_terminal owner task_id terminal =
    update_task owner task_id (λ t. is_status TaskStatus.running t.status)
      (λ t. record t { pending_terminal = some terminal })

-- _request_terminal_while_running
unfoldable pub request_terminal_while_running : ℕ → Task → TaskStatus → Tx Answer
request_terminal_while_running owner task terminal = do
  hit ← cancel_active_rounds owner task.id
  intent ← if ltb 0 (length hit) then mark_pending_terminal owner task.id terminal else pure 0
  v ← view owner task.id
  pure (if ltb 0 intent then cancelling v else done v)

-- UPDATE tasks SET status, abort_reason WHERE id = :t AND status = :from
unfoldable pub flip_task : ℕ → ℕ → TaskStatus → TaskStatus → Option AbortReason → Tx ℕ
flip_task owner task_id from to reason =
    update_task owner task_id (λ t. is_status from t.status)
      (λ t. record t { status = to; abort_reason = reason })

-- status_changed, and round_cancelled behind it if a round was cancelled.
unfoldable pub add_terminal_events : ℕ → ℕ → TaskStatus → Option AbortReason → Bool → Tx (Unit {0})
add_terminal_events owner task_id terminal reason true = do
  seq ← allocate_event_sequence owner task_id 2
  add_event owner task_id seq (status_changed terminal reason) none none
  add_event owner task_id (seq + 1) (round_cancelled none reason) none none
add_terminal_events owner task_id terminal reason false = do
  seq ← allocate_event_sequence owner task_id 1
  add_event owner task_id seq (status_changed terminal reason) none none

-- _terminalize_queued
unfoldable pub terminalize_queued : ℕ → ℕ → Task → TaskStatus → Option AbortReason → Tx Answer
terminalize_queued owner owner_id task terminal reason = do
  hit ← cancel_pending_rounds owner task.id
  assert_transition TaskStatus.queued terminal
  flipped ← flip_task owner task.id TaskStatus.queued terminal reason
  require (ltb 0 flipped) invalid_transition
  add_terminal_events owner task.id terminal reason (ltb 0 (length hit))
  release_task_holdings owner (some task.id) (some owner_id)
  v ← view owner task.id
  pure (done v)

-- _finalize_terminal
unfoldable pub finalize_terminal : ℕ → ℕ → Task → TaskStatus → Option AbortReason → Tx Answer
finalize_terminal owner owner_id task terminal reason = do
  assert_transition task.status terminal
  flipped ← flip_task owner task.id task.status terminal reason
  require (ltb 0 flipped) invalid_transition
  add_terminal_events owner task.id terminal reason false
  release_task_holdings owner (some task.id) (some owner_id)
  v ← view owner task.id
  pure (done v)

-- The branch on the status that abort_task and complete_task share.
unfoldable pub finish_by_status : ℕ → ℕ → Task → TaskStatus → Option AbortReason → Tx Answer
finish_by_status owner owner_id task terminal reason =
    if is_status TaskStatus.running task.status
    then request_terminal_while_running owner task terminal
    else if is_status TaskStatus.queued task.status
    then terminalize_queued owner owner_id task terminal reason
    else finalize_terminal owner owner_id task terminal reason

-- abort_task
unfoldable pub abort_task : ℕ → Option ℕ → Option ℕ → Tx Answer
abort_task owner raw_owner raw_task = do
  task ← lock_task owner raw_task
  owner_id ← parse_id raw_owner
  finish_by_status owner owner_id task TaskStatus.aborted (some user_cancel)

-- complete_task
unfoldable pub complete_task : ℕ → Option ℕ → Option ℕ → Tx Answer
complete_task owner raw_owner raw_task = do
  task ← lock_task owner raw_task
  owner_id ← parse_id raw_owner
  finish_by_status owner owner_id task TaskStatus.completed none
