-- ===== src/State/Graph.antt =====
-- The graph of backend/v2/task_state.py.
use agent_craft.Prelude.{◌≡◌, Bool, true, false, not, arith}
use agent_craft.Model.Words.{TaskStatus, is_status}
use agent_craft.State.{allowed, valid_transitions}

-- The statuses that a sequence of allowed transitions leads to.
pub data Reaches (start : TaskStatus) : TaskStatus → Type 0 where
  here : Reaches start start
  then : {a b : TaskStatus} → Reaches start a → allowed a b ≡ true → Reaches start b

abbrev pub has_ended : TaskStatus → Bool
has_ended TaskStatus.completed = true
has_ended TaskStatus.failed = true
has_ended TaskStatus.aborted = true
has_ended TaskStatus.deleted = true
has_ended _ = false

ended_step :
    (a b : TaskStatus)
    → has_ended a ≡ true
    → allowed a b ≡ true
    → is_status TaskStatus.deleted b ≡ true
unfolding allowed valid_transitions
ended_step a b e f = ground arith

deleted_ended : (b : TaskStatus) → is_status TaskStatus.deleted b ≡ true → has_ended b ≡ true
deleted_ended b e = ground arith

-- From a status that has ended (completed, failed, aborted, deleted), every sequence of allowed
-- transitions stays among the ended statuses.
pub ended_stays : (a b : TaskStatus) → has_ended a ≡ true → Reaches a b → has_ended b ≡ true
ended_stays a b e here = e
ended_stays a b e (then r f) = deleted_ended b (ended_step _ b (ended_stays a _ e r) f)

-- Every status but `deleted` may be deleted, and `deleted` allows no transition at all.
pub deletable :
    (a b : TaskStatus)
    → (allowed a TaskStatus.deleted ≡ not (is_status TaskStatus.deleted a))
      × (allowed TaskStatus.deleted b ≡ false)
unfolding allowed valid_transitions
deletable a b = (ground arith, ground arith)
