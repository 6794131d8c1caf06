-- ===== src/Provider.antt =====
-- backend/v2/provider_service.py: what the revocation of a provider, and a new key for it, do to the tasks
-- that have not started. It releases reservations on its own, without backend/v2/task_release.py.
pub mod Charged
pub mod Storage
use agent_craft.Prelude.{
  ℕ, ◌+◌, ◌-◌, Bool, true, false, ◌&&◌, ◌==◌, Option, none, some, List, [], ◌∷◌, if◌then◌else◌, ltb,
  length,
}
use agent_craft.Model.Words.{TaskStatus, RoundState, Kind, provider_key_revoked, is_round}
use agent_craft.Model.Rows.{Db, Task, round_cancelled, status_changed}
use agent_craft.Model.Tx.{Tx, pure, get, ◌>>=◌, ◌>>◌}
use agent_craft.Table.{find_task, update_task, update_rounds, add_event}
use agent_craft.Release.{release_reservations, update_usage, count_kind, any_kind, when}

-- _UNSTARTED_STATES_SQL
abbrev pub is_unstarted : TaskStatus → Bool
is_unstarted TaskStatus.uploading = true
is_unstarted TaskStatus.queued = true
is_unstarted TaskStatus.ready = true
is_unstarted _ = false

-- UPDATE user_quota_usage SET active_tasks = active_tasks - :n. The source has no guard, and its counter may
-- go below zero where the accounts do not agree; the natural number stops at zero.
unfoldable pub drop_active : ℕ → ℕ → Tx (Unit {0})
drop_active owner_id n = do
  update_usage owner_id (λ q. true) (λ q. record q { active_tasks = q.active_tasks - n })
  pure tt

-- _release_task_holdings of this module
unfoldable pub release_unstarted : ℕ → ℕ → Tx ℕ
release_unstarted task_id owner_id = do
  rows ← release_reservations task_id any_kind
  let active_released = count_kind Kind.active rows
  when (ltb 0 active_released) (drop_active owner_id active_released)
  pure active_released

-- One of the selected rows, on a session of `owner`.
unfoldable pub fail_unstarted : ℕ → Task → Tx (Unit {0})
fail_unstarted owner row = do
  release_unstarted row.id row.owner_id
  rounds ←
      update_rounds owner (λ r. r.task_id == row.id && is_round RoundState.pending r.state)
        (λ r. record r { state = RoundState.cancelled })
  let cancelled = ltb 0 (length rounds)
  update_task owner row.id (λ t. true)
      (λ t. record t {
        status = TaskStatus.failed;
        abort_reason = some provider_key_revoked;
        event_sequence = t.event_sequence + (1 + (if cancelled then 1 else 0));
      })
  add_event owner row.id (row.event_sequence + 1)
      (status_changed TaskStatus.failed (some provider_key_revoked)) none none
  when cancelled (
      add_event owner row.id (row.event_sequence + 2)
        (round_cancelled none (some provider_key_revoked)) none none)

unfoldable pub fail_each : ℕ → List Task → Tx (Unit {0})
fail_each owner [] = pure tt
fail_each owner (row ∷ rows) = do fail_unstarted owner row; fail_each owner rows

-- The rows that are selected for a provider.
abbrev pub unstarted_of : ℕ → ℕ → Db → List ℕ → List Task
unstarted_of owner provider_id db [] = []
unstarted_of owner provider_id db (k ∷ ks) =
    let rest = unstarted_of owner provider_id db ks in
    elim (find_task owner k db) [
      | none ↦ rest
      | some t ↦
          if t.provider_id == provider_id && is_unstarted t.status
          then record t { id = k } ∷ rest
          else rest
    ]

-- fail_unstarted_tasks, with the number of tasks that it has failed
unfoldable pub fail_unstarted_tasks : ℕ → ℕ → Tx ℕ
fail_unstarted_tasks owner provider_id = do
  db ← get
  fail_each owner (unstarted_of owner provider_id db db.task_keys)
  pure (length (unstarted_of owner provider_id db db.task_keys))
