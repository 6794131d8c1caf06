-- ===== src/Service/Refusals.antt =====
-- backend/v2/task_service.py: requests on a task that the user does not see, and on one that is past
-- the transition.
use agent_craft.Prelude.{
  ◌≢◌, ◌⊎◌, inl, inr, ◌==◌, ==→eq, Bool-cases, ℕ, String, ◌≡◌, refl, ◌∙◌, Bool, true, false, Option,
  none, some, arith,
}
use agent_craft.Model.Words.{TaskStatus, user_cancel, AbortReason}
use agent_craft.Model.Rows.{Db, Task}
use agent_craft.Model.Tx.{Tx, ok, err, pure, get, require, require_some, ◌>>=◌}
use agent_craft.Table.{find_task, hide_deleted, lock_task, parse_id, task_not_found_error}
use agent_craft.State.{allowed, valid_transitions, assert_transition, invalid_transition}
use agent_craft.Settings.{Settings}
use agent_craft.Logic.{bind_at, bind_err}
use agent_craft.Service.Commit.{commit_input}
use agent_craft.Service.Finish.{finish_by_status, finalize_terminal, abort_task, complete_task}
use agent_craft.Service.Delete.{delete_task}
use agent_craft.Service.Send.{send_message}

not_locked :
    (owner task_id : ℕ) (s : Db)
    → hide_deleted (find_task owner task_id s) ≡ none
    → lock_task owner (some task_id) s ≡ err task_not_found_error
unfolding lock_task parse_id require_some get pure ◌>>=◌
not_locked owner task_id s e = rw e refl

-- A task that the owner does not see: there is no such row, it is another's, or it is deleted.
abbrev pub NotSeen : ℕ → ℕ → Db → Type 0
NotSeen owner task_id s =
    (s.tasks task_id ≡ none)
    ⊎ ((task : Task) × (s.tasks task_id ≡ some task)
        × ((task.owner_id ≢ owner) ⊎ (task.status ≡ TaskStatus.deleted)))

NotSeen-none :
    (owner task_id : ℕ) (s : Db)
    → NotSeen owner task_id s
    → hide_deleted (find_task owner task_id s) ≡ none
NotSeen-none owner task_id s (inl e) = rw e refl
NotSeen-none owner task_id s (inr (task, e, why)) = elim (Bool-cases (task.owner_id == owner)) [
  | inr f ↦ rw (e, f) refl
  | inl f ↦ elim why [
    | inl other ↦ absurd (other (==→eq task.owner_id owner f))
    | inr gone ↦ rw (e, f, gone) refl
  ]
]

-- A task that is missing, deleted or another owner's is the same 404 for every request on it.
pub hidden_task :
    (settings : Settings) (owner task_id : ℕ) (raw_owner : Option ℕ) (s : Db) (content : String)
    (a b c : ℕ)
    → NotSeen owner task_id s
    → (abort_task owner raw_owner (some task_id) s ≡ err task_not_found_error)
      × (complete_task owner raw_owner (some task_id) s ≡ err task_not_found_error)
      × (delete_task owner raw_owner (some task_id) s ≡ err task_not_found_error)
      × (commit_input owner raw_owner (some task_id) content a b c s ≡ err task_not_found_error)
      × (send_message settings owner raw_owner (some task_id) content a b c s
          ≡ err task_not_found_error)
unfolding abort_task complete_task delete_task commit_input send_message
hidden_task settings owner task_id raw_owner s content a b c e =
    (refused _, refused _, refused _, refused _, refused _)
  where
    refused :
        {B : Type 0} (f : Task → Tx B)
        → (lock_task owner (some task_id) >>= f) s ≡ err task_not_found_error
    refused f = bind_err _ f s _ (not_locked owner task_id s (NotSeen-none owner task_id s e))

pub locked_at :
    (owner task_id : ℕ) (s : Db) (task : Task)
    → hide_deleted (find_task owner task_id s) ≡ some task
    → lock_task owner (some task_id) s ≡ ok (record task { id = task_id }, s)
unfolding lock_task parse_id require_some get pure ◌>>=◌
locked_at owner task_id s task e = rw e refl

-- What may be aborted or completed: a queued, a running and a ready task.
abbrev pub may_finish : TaskStatus → Bool
may_finish TaskStatus.queued = true
may_finish TaskStatus.running = true
may_finish TaskStatus.ready = true
may_finish _ = false

refused_finish :
    (owner : ℕ) (task : Task) (reason : Option AbortReason) (s : Db)
    → may_finish task.status ≡ false
    → (finish_by_status owner owner task TaskStatus.aborted reason s ≡ err invalid_transition)
      × (finish_by_status owner owner task TaskStatus.completed reason s ≡ err invalid_transition)
unfolding finish_by_status finalize_terminal assert_transition allowed valid_transitions require
    ◌>>=◌
refused_finish owner task reason s e = (ground arith, ground arith)

pub parsed : (owner : ℕ) (s : Db) → parse_id (some owner) s ≡ ok (owner, s)
unfolding parse_id require_some
parsed owner s = refl

-- A task that its user sees, and that is uploading, completed, failed or aborted, is neither aborted
-- nor completed: both requests are refused as an invalid transition (409).
pub refused_late :
    (owner task_id : ℕ) (s : Db) (task : Task)
    → hide_deleted (find_task owner task_id s) ≡ some task
    → may_finish task.status ≡ false
    → (abort_task owner (some owner) (some task_id) s ≡ err invalid_transition)
      × (complete_task owner (some owner) (some task_id) s ≡ err invalid_transition)
unfolding abort_task complete_task
refused_late owner task_id s task e f = (
  bind_at _ _ s s _ (locked_at owner task_id s task e)
      ∙ bind_at _ _ s s _ (parsed owner s)
      ∙ (refused_finish owner _ (some user_cancel) s f).0,
  bind_at _ _ s s _ (locked_at owner task_id s task e)
      ∙ bind_at _ _ s s _ (parsed owner s)
      ∙ (refused_finish owner _ none s f).1,
)
