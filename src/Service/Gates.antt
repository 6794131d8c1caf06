-- ===== src/Service/Gates.antt =====
-- backend/v2/task_service.py: what commit_input and send_message answer to a task in the wrong status.
use agent_craft.Prelude.{
  subst, any, List, [], ◌∷◌, ◌&&◌, ◌==◌, ℕ, String, ◌≡◌, refl, ◌∙◌, Bool, true, false, ◌||◌, not,
  some, is_none, if◌then◌else◌, arith, Bool-cases, inl, inr,
}
use agent_craft.Model.Words.{RoundState, TaskStatus, is_status}
use agent_craft.Model.Rows.{Db, Task, TaskRound}
use agent_craft.Model.Tx.{Exn, ok, err, raise, get, require}
use agent_craft.Table.{find_task, hide_deleted, is_active_round}
use agent_craft.State.{allowed, valid_transitions, assert_transition, invalid_transition}
use agent_craft.Settings.{Settings}
use agent_craft.Logic.{bind_at, bind_err}
use agent_craft.Service.Commit.{uploading_gate, commit_input, input_committed_error}
use agent_craft.Service.Send.{send_message, active_round_of, round_busy}
use agent_craft.Service.Refusals.{locked_at, parsed}

-- What a request to freeze the input of a task answers, by what the task shows.
abbrev pub commit_error : Task → Exn
commit_error task =
    if not (is_none task.input_committed_at)
      || (is_status TaskStatus.queued task.status
          || (is_status TaskStatus.ready task.status || is_status TaskStatus.running task.status))
    then input_committed_error
    else invalid_transition

gate_refuses :
    (task : Task) (s : Db)
    → is_status TaskStatus.uploading task.status ≡ false
    → uploading_gate task s ≡ err (commit_error task)
unfolding uploading_gate assert_transition allowed valid_transitions raise require
gate_refuses task s e = ground arith

-- A task that its user sees and that is not uploading is not committed: the answer is INPUT_COMMITTED
-- if its input was frozen or it is queued, ready or running, and an invalid transition otherwise.
pub commit_refused :
    (owner task_id : ℕ) (digest : String) (round_id reservation_id now : ℕ) (s : Db) (task : Task)
    → hide_deleted (find_task owner task_id s) ≡ some task
    → is_status TaskStatus.uploading task.status ≡ false
    → commit_input owner (some owner) (some task_id) digest round_id reservation_id now s
      ≡ err (commit_error task)
unfolding commit_input
commit_refused owner task_id digest round_id reservation_id now s task e f =
    bind_at _ _ s s _ (locked_at owner task_id s task e)
    ∙ bind_at _ _ s s _ (parsed owner s)
    ∙ bind_err _ _ s _ (gate_refuses (record task { id = task_id }) s f)

-- What a message to a task that cannot take it is answered.
abbrev pub send_error : Bool → Exn
send_error busy = if busy then round_busy else invalid_transition

got_at : (s : Db) → get s ≡ ok (s, s)
unfolding get
got_at s = refl

passed : (b : Bool) (x : Exn) (s : Db) → b ≡ true → require b x s ≡ ok (tt, s)
unfolding require
passed b x s e = rw e refl

failed : (b : Bool) (x : Exn) (s : Db) → b ≡ false → require b x s ≡ err x
unfolding require
failed b x s e = rw e refl

not_ready : (a b : Bool) → a ≡ false → (a || not b) ≡ true → b ≡ false
not_ready a b e f = ground arith

refused_busy :
    (settings : Settings) (owner task_id : ℕ) (content : String) (message_id round_id now : ℕ)
    (s : Db) (task : Task)
    → hide_deleted (find_task owner task_id s) ≡ some task
    → (active_round_of owner task_id s.rounds || not (is_status TaskStatus.ready task.status))
      ≡ true
    → send_message settings owner (some owner) (some task_id) content message_id round_id now s
      ≡ err (send_error (active_round_of owner task_id s.rounds))
unfolding send_message
refused_busy settings owner task_id content message_id round_id now s task e f =
    bind_at _ _ s s _ (locked_at owner task_id s task e)
    ∙ bind_at _ _ s s _ (parsed owner s)
    ∙ bind_at _ _ s s _ (got_at s)
    ∙ elim (Bool-cases (active_round_of owner task_id s.rounds)) [
      | inl b ↦ rw b (bind_err _ _ s _ (failed false round_busy s refl))
      | inr b ↦ rw b (
          bind_at _ _ s s tt (passed true round_busy s refl)
          ∙ bind_err _ _ s _ (
              failed _ invalid_transition s (
                not_ready (active_round_of owner task_id s.rounds)
                  (is_status TaskStatus.ready task.status) b f)))
    ]

-- A round that has not come to its end: it is pending, running or cancelling.
abbrev pub unfinished : RoundState → Bool
unfinished RoundState.settled = false
unfinished RoundState.failed = false
unfinished RoundState.cancelled = false
unfinished _ = true

abbrev pub has_unfinished : ℕ → ℕ → List TaskRound → Bool
has_unfinished owner task_id rounds =
    any (λ (r : TaskRound). r.owner_id == owner && (r.task_id == task_id && unfinished r.state))
      rounds

active-unfinished : (st : RoundState) → is_active_round st ≡ unfinished st
active-unfinished RoundState.pending = refl
active-unfinished RoundState.running = refl
active-unfinished RoundState.cancelling = refl
active-unfinished RoundState.settled = refl
active-unfinished RoundState.failed = refl
active-unfinished RoundState.cancelled = refl

active_round-unfinished :
    (owner task_id : ℕ) (rs : List TaskRound)
    → active_round_of owner task_id rs ≡ has_unfinished owner task_id rs
active_round-unfinished owner task_id [] = refl
active_round-unfinished owner task_id (r ∷ rs) =
    rw (active-unfinished r.state, active_round-unfinished owner task_id rs) refl

-- A message to a task that its user sees is refused as TASK_ROUND_BUSY (429) if the task has a round
-- that is pending, running or cancelling, whatever its status, and as an invalid transition (409) if
-- it has none and is not ready.
pub send_refused :
    (settings : Settings) (owner task_id : ℕ) (content : String) (message_id round_id now : ℕ)
    (s : Db) (task : Task)
    → hide_deleted (find_task owner task_id s) ≡ some task
    → (has_unfinished owner task_id s.rounds || not (is_status TaskStatus.ready task.status)) ≡ true
    → send_message settings owner (some owner) (some task_id) content message_id round_id now s
      ≡ err (send_error (has_unfinished owner task_id s.rounds))
send_refused settings owner task_id content message_id round_id now s task e =
    subst
      (λ b.
        (b || not (is_status TaskStatus.ready task.status)) ≡ true
        → send_message settings owner (some owner) (some task_id) content message_id round_id now s
          ≡ err (send_error b))
      (active_round-unfinished owner task_id s.rounds)
      (refused_busy settings owner task_id content message_id round_id now s task e)
