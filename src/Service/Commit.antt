-- ===== src/Service/Commit.antt =====
-- backend/v2/task_service.py: commit_input, which freezes the input and queues the first round.
use agent_craft.Prelude.{
  ℕ, String, ◌+◌, Bool, true, false, ◌&&◌, ◌||◌, ◌==◌, Option, none, some, List, [], ◌∷◌,
  if◌then◌else◌, leb, ltb, is_none, not, total, update_where,
}
use agent_craft.Model.Words.{
  TaskStatus, RoundState, Kind, ReservationState, FileState, Direction, is_status, is_file_state,
  is_direction, status_in, input_committed, quota_storage_exceeded,
}
use agent_craft.Model.Rows.{Task, TaskFile, UserQuota, round_queued, status_changed}
use agent_craft.Model.Tx.{
  Exn, Tx, ok, app_error, pure, raise, get, require, require_some, ◌>>=◌, ◌>>◌,
}
use agent_craft.Table.{
  find_task, update_task, parse_id, lock_task, allocate_event_sequence, add_event,
  insert_reservation, insert_round,
}
use agent_craft.State.{assert_transition, invalid_transition}
use agent_craft.Release.{update_usage, update_storage}

abbrev pub frozen_statuses : List TaskStatus
frozen_statuses = TaskStatus.queued ∷ TaskStatus.ready ∷ TaskStatus.running ∷ []

abbrev pub input_committed_error : Exn
input_committed_error = app_error input_committed 409

-- The status gate: `if task.status != "uploading": ...`, which may fall through.
unfoldable pub uploading_gate : Task → Tx (Unit {0})
uploading_gate task =
    if is_status TaskStatus.uploading task.status
    then pure tt
    else if not (is_none task.input_committed_at) || status_in task.status frozen_statuses
    then raise input_committed_error
    else assert_transition task.status TaskStatus.queued

-- UPDATE task_files SET state = 'committed' WHERE task_id = :t AND state = 'staged'
unfoldable pub commit_files : ℕ → ℕ → Tx (Unit {0})
commit_files owner task_id db = ok (
  tt,
  record db {
    files =
        update_where
          (λ f.
            f.owner_id == owner && (f.task_id == task_id && is_file_state FileState.staged f.state))
          (λ f. record f { state = FileState.committed }) db.files;
  },
)

-- SELECT coalesce(sum(size_bytes), 0) over the committed inputs
abbrev pub input_bytes : ℕ → ℕ → List TaskFile → ℕ
input_bytes owner task_id files =
    total
      (λ f.
        if f.owner_id == owner
          && (f.task_id == task_id
              && (is_direction Direction.input f.direction
                  && is_file_state FileState.committed f.state))
        then f.size_bytes
        else 0)
      files

abbrev pub within_quota : Option UserQuota → ℕ → Bool
within_quota none n = false
within_quota (some q) n = leb n q.max_retained_storage_bytes

-- The storage reservation with both conditional increments.
unfoldable pub charge_storage : ℕ → ℕ → ℕ → ℕ → Tx (Unit {0})
charge_storage owner task_id reservation_id nbytes = do
  insert_reservation (record {
    id = reservation_id;
    task_id = task_id;
    user_id = owner;
    kind = Kind.task_root;
    bytes = nbytes;
    state = ReservationState.held;
  })
  db ← get
  user_inc ←
      update_usage owner (λ q. within_quota (db.quotas owner) (q.retained_storage_bytes + nbytes))
        (λ q. record q { retained_storage_bytes = q.retained_storage_bytes + nbytes })
  require (ltb 0 user_inc) (app_error quota_storage_exceeded 429)
  platform_inc ←
      update_storage (λ p. leb (p.retained_storage_bytes + nbytes) p.max_retained_storage_bytes)
        (λ p. record p { retained_storage_bytes = p.retained_storage_bytes + nbytes })
  require (ltb 0 platform_inc) (app_error quota_storage_exceeded 429)

-- The first round, the flip to queued and the two events.
unfoldable pub queue_first_round : ℕ → Task → (round_id now : ℕ) → Tx ℕ
queue_first_round owner task round_id now = do
  message ← require_some task.initial_message_id invalid_transition
  insert_round (record {
    id = round_id;
    task_id = task.id;
    owner_id = owner;
    source_message_id = message;
    state = RoundState.pending;
    lease_owner = none;
    lease_epoch = 0;
    lease_expires_at = none;
    attempt = 0;
    created_at = now;
  })
  assert_transition TaskStatus.uploading TaskStatus.queued
  flipped ←
      update_task owner task.id (λ t. is_status TaskStatus.uploading t.status)
        (λ t. record t { status = TaskStatus.queued })
  require (ltb 0 flipped) invalid_transition
  seq ← allocate_event_sequence owner task.id 2
  add_event owner task.id seq (status_changed TaskStatus.queued none) none none
  add_event owner task.id (seq + 1) (round_queued round_id none) none (some round_id)
  pure seq

-- commit_input, on a session of `owner`; `digest` is the manifest's canonical SHA-256.
unfoldable pub commit_input :
    (owner : ℕ)
    → Option ℕ
    → Option ℕ
    → (digest : String) → (round_id reservation_id now : ℕ) → Tx (Option Task × String × ℕ × ℕ)
commit_input owner raw_owner raw_task digest round_id reservation_id now = do
  task ← lock_task owner raw_task
  owner_id ← parse_id raw_owner
  uploading_gate task
  update_task owner task.id (λ t. true)
      (λ t. record t { input_manifest_sha256 = some digest; input_committed_at = some now })
  commit_files owner task.id
  db ← get
  charge_storage owner_id task.id reservation_id (input_bytes owner task.id db.files)
  seq ← queue_first_round owner task round_id now
  after ← get
  pure (find_task owner task.id after, digest, round_id, seq + 1)
