-- ===== src/Executor/Round.antt =====
-- backend/v2/task_executor.py: what a running round writes (_persist_fact, settle, _renew_loop,
-- _enforce_round_deadline).
use agent_craft.Prelude.{
  ℕ, String, ◌+◌, Bool, true, ◌&&◌, ◌==◌, not, Option, none, some, List, [], ◌∷◌, if◌then◌else◌,
  ltb, length, is_some_eq, update_where,
}
use agent_craft.Model.Words.{
  TaskStatus, RoundState, Author, provider_key_revoked, is_status, is_round,
  round_failed as reason_round_failed,
}
use agent_craft.Model.Rows.{Task, TaskRound, round_settled, round_failed, status_changed}
use agent_craft.Model.Tx.{Tx, ok, no_result_found, pure, get, require_some, ◌>>=◌, ◌>>◌}
use agent_craft.Table.{find_task, update_task, allocate_event_sequence, add_event, update_rounds}
use agent_craft.Release.{release_task_holdings, leased_to}
use agent_craft.Service.Send.{save_message}
use agent_craft.Service.Finish.{flip_task}
use agent_craft.Frames.{Frame, status_frame, done_frame}

-- _RoundContext, with the instance that claimed the round.
pub record RoundContext : Type 0 where
  pub task_id : ℕ
  pub owner_id : ℕ
  pub round_id : ℕ
  pub instance_id : ℕ
  pub epoch : ℕ
  pub pending_assistant : Option String

-- WHERE id = :rid AND lease_owner = :iid AND lease_epoch = :epoch AND state = 'running'
abbrev pub holds_lease : RoundContext → TaskRound → Bool
holds_lease ctx r =
    r.id == ctx.round_id
    && (is_some_eq r.lease_owner ctx.instance_id
        && (r.lease_epoch == ctx.epoch && is_round RoundState.running r.state))

-- _FENCE_ROUND_SQL: an update that changes nothing and takes the row's lock.
unfoldable pub fence_round : RoundContext → Tx ℕ
fence_round ctx = do
  rows ← update_rounds ctx.owner_id (holds_lease ctx) (λ r. r)
  pure (length rows)

-- The transaction of _persist_fact: none where the fence has failed and nothing is written.
unfoldable pub persist_fact : RoundContext → Author → String → (message_id : ℕ) → Tx (Option ℕ)
persist_fact ctx author content message_id = do
  fenced ← fence_round ctx
  if ltb 0 fenced
      then (λ db.
          (save_message ctx.owner_id ctx.task_id message_id author content (some ctx.round_id)
              >>= λ seq. pure (some seq))
            db)
      else pure none

-- _RENEW_ROUND_SQL and _RENEW_SLOT_SQL: the transaction of one beat of _renew_loop.
unfoldable pub renew_slot : ℕ → ℕ → Tx (Unit {0})
renew_slot task_id until db = ok (
  tt,
  record db {
    slots = update_where (leased_to task_id) (λ s. record s { leased_until = some until }) db.slots;
  },
)

unfoldable pub renew_once : RoundContext → (ttl now : ℕ) → Tx Bool
renew_once ctx ttl now = do
  rows ←
      update_rounds ctx.owner_id (holds_lease ctx)
        (λ r. record r { lease_expires_at = some (now + ttl) })
  if ltb 0 (length rows) then renew_slot ctx.task_id (now + ttl) else pure tt
  pure (ltb 0 (length rows))

-- _SETTLE_ROUND_SQL
unfoldable pub settle_round : RoundContext → Tx (List TaskRound)
settle_round ctx =
    update_rounds ctx.owner_id (holds_lease ctx) (λ r. record r { state = RoundState.settled })

-- The message that the pump failed to save is saved in the settling transaction.
unfoldable pub save_pending : RoundContext → (message_id : ℕ) → Option String → Tx (Unit {0})
save_pending ctx message_id none = pure tt
save_pending ctx message_id (some content) = do
  save_message ctx.owner_id ctx.task_id message_id Author.assistant content (some ctx.round_id)
  pure tt

-- _provider_revoked: `resolved` is the key version that resolve_task_provider answers, none where it
-- raises.
abbrev pub provider_revoked : Option ℕ → Task → Bool
provider_revoked none task = true
provider_revoked (some version) task = not (version == task.provider_key_version)

-- The flip running → ready, or → aborted where the key is revoked, with its event if it takes.
unfoldable pub settle_task : RoundContext → Bool → Tx (Unit {0})
settle_task ctx revoked = do
  let terminal = if revoked then TaskStatus.aborted else TaskStatus.ready
  let reason = if revoked then some provider_key_revoked else none
  flipped ← flip_task ctx.owner_id ctx.task_id TaskStatus.running terminal reason
  if ltb 0 flipped
      then (allocate_event_sequence ctx.owner_id ctx.task_id 1 >>= λ seq.
          add_event ctx.owner_id ctx.task_id seq (status_changed terminal reason) none none)
      else pure tt

-- The transaction of settle behind its fence.
unfoldable pub settle_fenced :
    RoundContext → (attempt : ℕ) → String → Option ℕ → (message_id : ℕ) → Tx (Unit {0})
settle_fenced ctx attempt finish_reason resolved message_id = do
  save_pending ctx message_id ctx.pending_assistant
  seq ← allocate_event_sequence ctx.owner_id ctx.task_id 1
  add_event ctx.owner_id ctx.task_id seq (round_settled ctx.round_id attempt finish_reason) none
      (some ctx.round_id)
  db ← get
  task ← require_some (find_task ctx.owner_id ctx.task_id db) no_result_found
  settle_task ctx (provider_revoked resolved task)
  release_task_holdings ctx.owner_id (some ctx.task_id) (some ctx.owner_id)

-- settle: a lost fence writes nothing.
abbrev pub settle_rows :
    RoundContext → List TaskRound → String → Option ℕ → (message_id : ℕ) → Tx (Unit {0})
settle_rows ctx [] finish_reason resolved message_id = pure tt
settle_rows ctx (r ∷ rows) finish_reason resolved message_id =
    settle_fenced ctx r.attempt finish_reason resolved message_id

unfoldable pub settle : RoundContext → String → Option ℕ → (message_id : ℕ) → Tx (Unit {0})
settle ctx finish_reason resolved message_id = do
  rows ← settle_round ctx
  settle_rows ctx rows finish_reason resolved message_id

-- _DEADLINE_FAIL_ROUND_SQL and _DEADLINE_FAIL_TASK_SQL
unfoldable pub fail_leased_round : RoundContext → Tx (List TaskRound)
fail_leased_round ctx =
    update_rounds ctx.owner_id (holds_lease ctx)
      (λ r. record r { state = RoundState.failed; lease_owner = none; lease_expires_at = none })

unfoldable pub fail_running_task : ℕ → ℕ → Tx ℕ
fail_running_task owner task_id =
    update_task owner task_id (λ t. is_status TaskStatus.running t.status)
      (λ t. record t {
        status = TaskStatus.failed;
        abort_reason = some reason_round_failed;
        pending_terminal = none;
      })

-- The events, the release and the frames of a round past its deadline.
unfoldable pub record_deadline : RoundContext → (attempt : ℕ) → Tx (List Frame)
record_deadline ctx attempt = do
  seq ← allocate_event_sequence ctx.owner_id ctx.task_id 2
  add_event ctx.owner_id ctx.task_id seq
      (status_changed TaskStatus.failed (some reason_round_failed)) none none
  add_event ctx.owner_id ctx.task_id (seq + 1) (round_failed ctx.round_id attempt) none
      (some ctx.round_id)
  release_task_holdings ctx.owner_id (some ctx.task_id) (some ctx.owner_id)
  pure (status_frame seq TaskStatus.failed (some reason_round_failed) ∷ done_frame "error" ∷ [])

unfoldable pub enforce_rows : RoundContext → List TaskRound → Tx (List Frame)
enforce_rows ctx [] = pure []
enforce_rows ctx (r ∷ rows) = do
  flipped ← fail_running_task ctx.owner_id ctx.task_id
  if ltb 0 flipped then record_deadline ctx r.attempt else pure []

-- The transaction of _enforce_round_deadline.
unfoldable pub enforce_round_deadline : RoundContext → Tx (List Frame)
enforce_round_deadline ctx = do rows ← fail_leased_round ctx; enforce_rows ctx rows
