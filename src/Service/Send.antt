-- ===== src/Service/Send.antt =====
-- backend/v2/task_service.py: send_message, and the frames that it publishes after the commit.
use agent_craft.Prelude.{
  ℕ, String, ◌+◌, Bool, ◌&&◌, ◌==◌, Option, none, some, List, [], ◌∷◌, ltb, not,
}
use agent_craft.Model.Words.{TaskStatus, RoundState, Author, is_status, task_round_busy}
use agent_craft.Model.Rows.{TaskRound, message_saved, round_queued, status_changed}
use agent_craft.Model.Tx.{
  Exn, Tx, Result, ok, err, app_error, integrity_error, one_active_round_per_task, pure, get,
  require, ◌>>=◌, ◌>>◌,
}
use agent_craft.Table.{
  update_task, parse_id, lock_task, allocate_event_sequence, add_event, add_message, insert_round,
  is_active_round, has,
}
use agent_craft.State.{assert_transition, invalid_transition}
use agent_craft.Settings.{Settings}
use agent_craft.Frames.{Frame, message_frame, status_frame, queued_frame}
use agent_craft.Service.Quota.{validate_message}

pub record Sent : Type 0 where
  pub message_id : ℕ
  pub message_sequence : ℕ
  pub event_sequence : ℕ
  pub round_id : ℕ
  pub frames : List Frame

-- _round_busy
abbrev pub round_busy : Exn
round_busy = app_error task_round_busy 429

-- The `except IntegrityError` of the flush, with _is_active_round_conflict.
abbrev pub map_conflict : Exn → Exn
map_conflict (integrity_error one_active_round_per_task) = round_busy
map_conflict e = e

abbrev pub catch_conflict : {A : Type 0} → Result A → Result A
catch_conflict (ok a) = ok a
catch_conflict (err e) = err (map_conflict e)

abbrev pub active_round_of : ℕ → ℕ → List TaskRound → Bool
active_round_of owner task_id rounds =
    has (λ r. r.owner_id == owner && (r.task_id == task_id && is_active_round r.state)) rounds

-- The message with its event; the result is the event's number.
unfoldable pub save_message : ℕ → ℕ → ℕ → Author → String → Option ℕ → Tx ℕ
save_message owner task_id message_id author content round_id = do
  seq ← allocate_event_sequence owner task_id 1
  add_message (record {
    id = message_id;
    task_id = task_id;
    owner_id = owner;
    event_sequence = seq;
    author = author;
    content = content;
  })
  add_event owner task_id seq (message_saved message_id seq author) (some message_id) round_id
  pure seq

-- The flip ready → queued, the round and their events.
unfoldable pub queue_round : ℕ → ℕ → (message_id round_id now : ℕ) → Tx ℕ
queue_round owner task_id message_id round_id now = do
  assert_transition TaskStatus.ready TaskStatus.queued
  flipped ←
      update_task owner task_id (λ t. is_status TaskStatus.ready t.status)
        (λ t. record t { status = TaskStatus.queued })
  require (ltb 0 flipped) invalid_transition
  seq ← allocate_event_sequence owner task_id 2
  add_event owner task_id seq (status_changed TaskStatus.queued none) none none
  (λ db. catch_conflict (
      insert_round
        (record {
          id = round_id;
          task_id = task_id;
          owner_id = owner;
          source_message_id = message_id;
          state = RoundState.pending;
          lease_owner = none;
          lease_epoch = 0;
          lease_expires_at = none;
          attempt = 0;
          created_at = now;
        })
        db))
  add_event owner task_id (seq + 1) (round_queued round_id none) none (some round_id)
  pure seq

-- send_message
unfoldable pub send_message :
    Settings → (owner : ℕ) → Option ℕ → Option ℕ → String → (message_id round_id now : ℕ) → Tx Sent
send_message settings owner raw_owner raw_task content message_id round_id now = do
  task ← lock_task owner raw_task
  owner_id ← parse_id raw_owner
  db ← get
  require (not (active_round_of owner task.id db.rounds)) round_busy
  require (is_status TaskStatus.ready task.status) invalid_transition
  validate_message settings content
  seq_m ← save_message owner task.id message_id Author.user content none
  seq_r ← queue_round owner task.id message_id round_id now
  pure (record {
    message_id = message_id;
    message_sequence = seq_m;
    event_sequence = seq_r + 1;
    round_id = round_id;
    frames =
        message_frame message_id seq_m Author.user
        ∷ status_frame seq_r TaskStatus.queued none
        ∷ queued_frame (seq_r + 1) round_id
        ∷ [];
  })
