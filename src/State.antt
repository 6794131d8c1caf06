-- ===== src/State.antt =====
-- backend/v2/task_state.py: the eight states of a task and the transitions that a request may make.
use agent_craft.Prelude.{Bool, List, [], ◌∷◌}
use agent_craft.Model.Words.{TaskStatus, status_in}
use agent_craft.Model.Tx.{Exn, Tx, require, app_error}
use agent_craft.Model.Words.{task_invalid_transition}
pub mod Graph

-- VALID_TRANSITIONS
unfoldable pub valid_transitions : TaskStatus → List TaskStatus
valid_transitions TaskStatus.uploading =
    TaskStatus.queued ∷ TaskStatus.failed ∷ TaskStatus.deleted ∷ []
valid_transitions TaskStatus.queued =
    TaskStatus.running ∷ TaskStatus.completed ∷ TaskStatus.aborted ∷ TaskStatus.failed
    ∷ TaskStatus.deleted ∷ []
valid_transitions TaskStatus.running =
    TaskStatus.ready ∷ TaskStatus.completed ∷ TaskStatus.aborted ∷ TaskStatus.failed
    ∷ TaskStatus.deleted ∷ []
valid_transitions TaskStatus.ready =
    TaskStatus.queued ∷ TaskStatus.completed ∷ TaskStatus.aborted ∷ TaskStatus.failed
    ∷ TaskStatus.deleted ∷ []
valid_transitions TaskStatus.completed = TaskStatus.deleted ∷ []
valid_transitions TaskStatus.failed = TaskStatus.deleted ∷ []
valid_transitions TaskStatus.aborted = TaskStatus.deleted ∷ []
valid_transitions TaskStatus.deleted = []

abbrev pub invalid_transition : Exn
invalid_transition = app_error task_invalid_transition 409

unfoldable pub allowed : TaskStatus → TaskStatus → Bool
allowed cur nxt = status_in nxt (valid_transitions cur)

unfoldable pub assert_transition : TaskStatus → TaskStatus → Tx (Unit {0})
assert_transition cur nxt = require (allowed cur nxt) invalid_transition
