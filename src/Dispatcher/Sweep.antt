-- ===== src/Dispatcher/Sweep.antt =====
-- backend/v2/task_dispatcher.py: sweep_upload_ttl and sweep_terminal_cleanup.
use agent_craft.Prelude.{
  ℕ, ◌+◌, ◌*◌, Bool, true, false, ◌&&◌, ◌||◌, ◌==◌, not, none, some, List, [], ◌∷◌, if◌then◌else◌,
  ltb, length, select,
}
use agent_craft.Model.Words.{TaskStatus, upload_expired, is_status, status_in}
use agent_craft.Model.Rows.{Db, Task, TaskRound, TaskEvent, TaskMessage, status_changed}
use agent_craft.Model.Tx.{Result, err, Tx, ok, candidate_dropped, pure, require, ◌>>=◌, ◌>>◌}
use agent_craft.Table.{update_task, allocate_event_sequence, add_event}
use agent_craft.Settings.{Settings}
use agent_craft.Release.{
  release_task_holdings, release_reservations, apply_release_accounting, any_kind,
}
use agent_craft.Frames.{Frame, status_frame}
use agent_craft.Dispatcher.Claim.{Outcome, next_outcome}

-- _UPLOAD_CANDIDATES_SQL
abbrev pub is_upload_expired : Settings → ℕ → Task → Bool
is_upload_expired settings now t =
    is_status TaskStatus.uploading t.status
    && ltb (t.created_at + settings.upload_ttl_hours * 3600) now

-- _UPLOAD_FAIL_SQL
unfoldable pub expire_upload : ℕ → ℕ → Tx ℕ
expire_upload owner task_id =
    update_task owner task_id (λ t. is_status TaskStatus.uploading t.status)
      (λ t. record t { status = TaskStatus.failed; abort_reason = some upload_expired })

-- The transaction of sweep_upload_ttl for one task.
unfoldable pub sweep_upload : (owner task_id : ℕ) → Tx (List Frame)
sweep_upload owner task_id = do
  flipped ← expire_upload owner task_id
  require (ltb 0 flipped) candidate_dropped
  seq ← allocate_event_sequence owner task_id 1
  add_event owner task_id seq (status_changed TaskStatus.failed (some upload_expired)) none none
  release_task_holdings owner (some task_id) (some owner)
  pure (status_frame seq TaskStatus.failed (some upload_expired) ∷ [])

unfoldable pub sweep_upload_loop : List (ℕ × ℕ) → Db → ℕ → Outcome
sweep_upload_loop [] db done = record { db = db; done = done; failure = none }
sweep_upload_loop ((task_id, owner) ∷ cs) db done =
    next_outcome db (sweep_upload owner task_id db) (sweep_upload_loop cs) done

-- _TERMINAL_CANDIDATES_SQL
abbrev pub is_cleanup_due : Settings → ℕ → Task → Bool
is_cleanup_due settings now t =
    status_in t.status
      (TaskStatus.completed ∷ TaskStatus.failed ∷ TaskStatus.aborted ∷ TaskStatus.deleted ∷ [])
    && ltb (t.created_at + settings.terminal_retention_days * 86400) now

-- The three DELETEs; the result says whether a row went.
unfoldable pub delete_history : ℕ → ℕ → Tx Bool
delete_history owner task_id db =
    let ev = λ (e : TaskEvent). e.owner_id == owner && e.task_id == task_id in
    let rd = λ (r : TaskRound). r.owner_id == owner && r.task_id == task_id in
    let msg = λ (m : TaskMessage). m.owner_id == owner && m.task_id == task_id in
    ok (
      ltb 0 (length (select ev db.events))
          || (ltb 0 (length (select rd db.rounds)) || ltb 0 (length (select msg db.messages))),
      record db {
        events = select (λ e. not (ev e)) db.events;
        rounds = select (λ r. not (rd r)) db.rounds;
        messages = select (λ m. not (msg m)) db.messages;
      },
    )

-- The transaction of sweep_terminal_cleanup for one task; the result is `dirty`.
unfoldable pub cleanup_task : (owner task_id : ℕ) → Tx Bool
cleanup_task owner task_id = do
  removed ← delete_history owner task_id
  rows ← release_reservations task_id any_kind
  if ltb 0 (length rows) then apply_release_accounting task_id owner rows true else pure tt
  pure (removed || ltb 0 (length rows))

-- The loop of sweep_terminal_cleanup counts the dirty tasks only, and no exception is caught.
abbrev pub next_cleanup : Db → Result (Bool × Db) → (Db → ℕ → Outcome) → ℕ → Outcome
next_cleanup before (ok (true, after)) continue done = continue after (done + 1)
next_cleanup before (ok (false, after)) continue done = continue after done
next_cleanup before (err e) continue done = record { db = before; done = done; failure = some e }

unfoldable pub cleanup_loop : List (ℕ × ℕ) → Db → ℕ → Outcome
cleanup_loop [] db done = record { db = db; done = done; failure = none }
cleanup_loop ((task_id, owner) ∷ cs) db done =
    next_cleanup db (cleanup_task owner task_id db) (cleanup_loop cs) done
