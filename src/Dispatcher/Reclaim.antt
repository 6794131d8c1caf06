-- ===== src/Dispatcher/Reclaim.antt =====
-- backend/v2/task_dispatcher.py: _reclaim_expired_round, _cancel_cancelling_round and reclaim_once.
use agent_craft.Prelude.{
  ℕ, ◌+◌, Bool, true, false, ◌&&◌, ◌||◌, ◌==◌, Option, none, some, List, [], ◌∷◌, if◌then◌else◌,
  ltb, leb, is_some_eq, is_none, length,
}
use agent_craft.Model.Words.{
  TaskStatus, RoundState, is_status, is_round, round_failed as reason_round_failed,
}
use agent_craft.Model.Rows.{
  Db, TaskRound, round_failed, round_queued, round_cancelled, status_changed,
}
use agent_craft.Model.Tx.{Tx, candidate_dropped, pure, require, ◌>>=◌, ◌>>◌}
use agent_craft.Table.{update_task, allocate_event_sequence, add_event, update_rounds}
use agent_craft.Release.{release_task_holdings}
use agent_craft.Frames.{Frame, status_frame, queued_frame, done_frame}
use agent_craft.Dispatcher.Claim.{first_or_drop, Outcome, next_outcome}

-- _ATTEMPT_LIMIT
abbrev pub attempt_limit : ℕ
attempt_limit = 3

-- `lease_owner = :lo`: never true where the scan has read NULL.
abbrev pub same_owner : Option ℕ → Option ℕ → Bool
same_owner none o = false
same_owner (some a) o = is_some_eq o a

-- _FENCE_EXPIRED_SQL
unfoldable pub fence_expired : ℕ → ℕ → Option ℕ → ℕ → Tx TaskRound
fence_expired owner round_id lease_owner lease_epoch = do
  rows ←
      update_rounds owner
        (λ r.
          r.id == round_id
          && (is_round RoundState.running r.state
              && (same_owner lease_owner r.lease_owner && r.lease_epoch == lease_epoch)))
        (λ r. record r { lease_owner = none; lease_expires_at = none })
  first_or_drop rows

-- _FAIL_ROUND_SQL and _REQUEUE_ROUND_SQL
unfoldable pub set_unleased_round : ℕ → ℕ → RoundState → Tx ℕ
set_unleased_round owner round_id state = do
  rows ←
      update_rounds owner (λ r. r.id == round_id && is_none r.lease_owner)
        (λ r. record r { state = state })
  pure (length rows)

-- _FAIL_TASK_SQL and _REQUEUE_TASK_SQL
unfoldable pub fail_task : ℕ → ℕ → Tx ℕ
fail_task owner task_id =
    update_task owner task_id (λ t. is_status TaskStatus.running t.status)
      (λ t. record t { status = TaskStatus.failed; abort_reason = some reason_round_failed })

unfoldable pub requeue_task : ℕ → ℕ → Tx ℕ
requeue_task owner task_id =
    update_task owner task_id (λ t. is_status TaskStatus.running t.status)
      (λ t. record t { status = TaskStatus.queued })

-- The two events and the frames of the failing and of the retrying branch.
unfoldable pub record_reclaim : ℕ → ℕ → ℕ → ℕ → Bool → Tx (List Frame)
record_reclaim owner task_id round_id attempt true = do
  seq ← allocate_event_sequence owner task_id 2
  add_event owner task_id seq (status_changed TaskStatus.failed (some reason_round_failed)) none
      none
  add_event owner task_id (seq + 1) (round_failed round_id attempt) none (some round_id)
  pure (status_frame seq TaskStatus.failed (some reason_round_failed) ∷ done_frame "error" ∷ [])
record_reclaim owner task_id round_id attempt false = do
  seq ← allocate_event_sequence owner task_id 2
  add_event owner task_id seq (status_changed TaskStatus.queued none) none none
  add_event owner task_id (seq + 1) (round_queued round_id (some attempt)) none (some round_id)
  pure (status_frame seq TaskStatus.queued none ∷ queued_frame (seq + 1) round_id ∷ [])

-- _reclaim_expired_round, with what the scan has read of the lease
unfoldable pub reclaim_expired_round :
    (owner task_id round_id : ℕ) → Option ℕ → (lease_epoch : ℕ) → Tx (List Frame)
reclaim_expired_round owner task_id round_id lease_owner lease_epoch = do
  round ← fence_expired owner round_id lease_owner lease_epoch
  let to_failed = leb attempt_limit round.attempt
  step2 ←
      set_unleased_round owner round_id
        (if to_failed then RoundState.failed else RoundState.pending)
  require (ltb 0 step2) candidate_dropped
  flipped ← if to_failed then fail_task owner task_id else requeue_task owner task_id
  require (ltb 0 flipped) candidate_dropped
  frames ← record_reclaim owner task_id round_id round.attempt to_failed
  release_task_holdings owner (some task_id) (some owner)
  pure frames

-- _CANCEL_ROUND_SQL
unfoldable pub close_cancelling : ℕ → ℕ → Tx TaskRound
close_cancelling owner round_id = do
  rows ←
      update_rounds owner (λ r. r.id == round_id && is_round RoundState.cancelling r.state)
        (λ r. record r {
          state = RoundState.cancelled;
          lease_owner = none;
          lease_expires_at = none;
        })
  first_or_drop rows

-- _cancel_cancelling_round
unfoldable pub cancel_cancelling_round : (owner task_id round_id : ℕ) → Tx (List Frame)
cancel_cancelling_round owner task_id round_id = do
  close_cancelling owner round_id
  seq ← allocate_event_sequence owner task_id 1
  add_event owner task_id seq (round_cancelled (some round_id) none) none (some round_id)
  release_task_holdings owner (some task_id) (some owner)
  pure (done_frame "aborted" ∷ [])

abbrev pub is_past : Option ℕ → ℕ → Bool
is_past none now = false
is_past (some until) now = ltb until now

-- _RECLAIM_CANDIDATES_SQL
abbrev pub is_reclaimable : ℕ → TaskRound → Bool
is_reclaimable now r =
    is_round RoundState.cancelling r.state
    || (is_round RoundState.running r.state && is_past r.lease_expires_at now)

-- What `container_alive` answers for a task, or none where there is no executor or its probe fails.
abbrev pub Probe : Type 0
Probe = ℕ → Option Bool

abbrev pub is_dead : Option Bool → Bool
is_dead (some false) = true
is_dead _ = false

-- The body of the loop of reclaim_once on one candidate row of the scan.
unfoldable pub reclaim_one : Probe → TaskRound → Tx (List Frame)
reclaim_one probe r =
    if is_round RoundState.cancelling r.state
    then (do
      require (is_dead (probe r.task_id)) candidate_dropped
      cancel_cancelling_round r.owner_id r.task_id r.id)
    else reclaim_expired_round r.owner_id r.task_id r.id r.lease_owner r.lease_epoch

unfoldable pub reclaim_loop : Probe → List TaskRound → Db → ℕ → Outcome
reclaim_loop probe [] db done = record { db = db; done = done; failure = none }
reclaim_loop probe (r ∷ rs) db done =
    next_outcome db (reclaim_one probe r db) (reclaim_loop probe rs) done
