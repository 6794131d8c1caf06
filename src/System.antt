-- ===== src/System.antt =====
-- The task domain as a whole: the transactions that requests and background loops commit one after
-- the other (backend/v2/task_service.py, task_dispatcher.py, task_executor.py). A row that a
-- transaction reads is locked until it commits, so committed transactions form a sequence. Three others
-- write to these tables and are no actions: register_output (task_artifacts.py), terminate_tasks_hook, and
-- fail_unstarted_tasks (provider_service.py).
use agent_craft.Prelude.{ℕ, String, Bool, false, Option, none, some, List, [], ◌∷◌, if◌then◌else◌}
use agent_craft.Model.Words.{TaskStatus, Author}
use agent_craft.Model.Rows.{Db, Task, TaskRound}
use agent_craft.Model.Tx.{commit_or_rollback}
use agent_craft.Settings.{Settings}
use agent_craft.Table.{find_task}
use agent_craft.Service.Create.{Catalog, FreshIds, CreateRequest, create_task}
use agent_craft.Service.Commit.{commit_input}
use agent_craft.Service.Finish.{abort_task, complete_task}
use agent_craft.Service.Delete.{delete_task}
use agent_craft.Service.Send.{send_message}
use agent_craft.Dispatcher.Claim.{Candidate, dispatch_loop}
use agent_craft.Dispatcher.Reclaim.{Probe, reclaim_loop}
use agent_craft.Dispatcher.Sweep.{sweep_upload_loop, cleanup_task, is_cleanup_due}
use agent_craft.Executor.Round.{
  RoundContext, persist_fact, renew_once, settle, enforce_round_deadline,
}
use agent_craft.Executor.Terminate.{terminate_one, reconcile_one}
pub mod Accounts

-- A transaction, or a loop of them, with everything that it is given from outside: the catalogue, the
-- ids that are drawn, the clock, the probe's answers and what a scan has returned.
pub data Action : Type 0 where
  create : (owner : ℕ) → Catalog → FreshIds → CreateRequest → (day now : ℕ) → Action
  commit : (owner : ℕ) → Option ℕ → String → (round_id reservation_id now : ℕ) → Action
  abort : (owner : ℕ) → Option ℕ → Action
  complete : (owner : ℕ) → Option ℕ → Action
  delete : (owner : ℕ) → Option ℕ → Action
  send : (owner : ℕ) → Option ℕ → String → (message_id round_id now : ℕ) → Action
  dispatch : (instance_id now : ℕ) → List Candidate → Action
  reclaim : Probe → List TaskRound → Action
  sweep_uploads : List (ℕ × ℕ) → Action
  cleanup : (owner task_id now : ℕ) → Action
  persist : RoundContext → Author → String → (message_id : ℕ) → Action
  renew : RoundContext → (now : ℕ) → Action
  settle_round : RoundContext → String → Option ℕ → (message_id : ℕ) → Action
  deadline : RoundContext → Action
  terminate : (owner task_id : ℕ) → Action
  reconcile : (owner task_id : ℕ) → TaskStatus → Action

-- The retention sweep works on a task that its scan selects.
abbrev pub is_due : Settings → ℕ → Option Task → Bool
is_due settings now none = false
is_due settings now (some t) = is_cleanup_due settings now t

-- What an action leaves committed. A request is served on a session of its own user.
unfoldable pub serve : Settings → Action → Db → Db
serve st (create owner catalog ids request day now) s =
    commit_or_rollback
      (create_task st catalog ids (record request { owner_id = some owner }) day now) s
serve st (commit owner task digest round_id reservation_id now) s =
    commit_or_rollback (commit_input owner (some owner) task digest round_id reservation_id now) s
serve st (abort owner task) s = commit_or_rollback (abort_task owner (some owner) task) s
serve st (complete owner task) s = commit_or_rollback (complete_task owner (some owner) task) s
serve st (delete owner task) s = commit_or_rollback (delete_task owner (some owner) task) s
serve st (send owner task content message_id round_id now) s =
    commit_or_rollback (send_message st owner (some owner) task content message_id round_id now) s
serve st (dispatch instance_id now candidates) s =
    (dispatch_loop instance_id st.lease_ttl_seconds now candidates s 0).db
serve st (reclaim probe candidates) s = (reclaim_loop probe candidates s 0).db
serve st (sweep_uploads candidates) s = (sweep_upload_loop candidates s 0).db
serve st (cleanup owner task_id now) s =
    if is_due st now (find_task owner task_id s)
    then commit_or_rollback (cleanup_task owner task_id) s
    else s
serve st (persist ctx author content message_id) s =
    commit_or_rollback (persist_fact ctx author content message_id) s
serve st (renew ctx now) s = commit_or_rollback (renew_once ctx st.lease_ttl_seconds now) s
serve st (settle_round ctx reason resolved message_id) s =
    commit_or_rollback (settle ctx reason resolved message_id) s
serve st (deadline ctx) s = commit_or_rollback (enforce_round_deadline ctx) s
serve st (terminate owner task_id) s = commit_or_rollback (terminate_one owner task_id) s
serve st (reconcile owner task_id terminal) s =
    commit_or_rollback (reconcile_one owner task_id terminal) s

unfoldable pub serve_all : Settings → List Action → Db → Db
serve_all st [] s = s
serve_all st (a ∷ rest) s = serve_all st rest (serve st a s)
