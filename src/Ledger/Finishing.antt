-- ===== src/Ledger/Finishing.antt =====
-- backend/v2/task_service.py: the accounts through abort_task, complete_task and delete_task.
use agent_craft.Prelude.{
  ℕ, ◌≡◌, refl, subst, sym, Bool, true, false, Option, none, some, ltb, length, Bool-cases, inl,
  inr, arith,
}
use agent_craft.Model.Words.{TaskStatus, AbortReason, is_status}
use agent_craft.Model.Rows.{Task}
use agent_craft.Model.Tx.{Tx, pure, require, ◌>>=◌}
use agent_craft.Table.{lock_task, parse_id}
use agent_craft.Release.{release_task_holdings}
use agent_craft.Service.Finish.{
  view, cancel_active_rounds, cancel_pending_rounds, mark_pending_terminal,
  request_terminal_while_running, flip_task, add_terminal_events, terminalize_queued,
  finalize_terminal, finish_by_status, abort_task, complete_task,
}
use agent_craft.Service.Delete.{cancel_for_delete, flip_deleted, delete_task}
use agent_craft.Logic.{
  AnyError, Triple, Triple-bind, Triple-pure, Triple-pre, Triple-get, Triple-require, Triple-if,
}
use agent_craft.Ledger.Invariant.{Balanced, Before, BeforeRelease, live_status}
use agent_craft.Ledger.Steps.{
  Condition, On, Keeps, add_event-Keeps, allocate-Keeps, update_rounds-Keeps,
  assert_transition-Keeps,
}
use agent_craft.Ledger.Flips.{
  Flipped, flip-Triple, quiet-Keeps, release-Restores, parse-Triple, lock_task-Keeps,
}
use agent_craft.Ledger.Invariant.{Ledger}

module _ (F : Condition) (owner t : ℕ) where
  pub add_terminal_events-Keeps :
      (terminal : TaskStatus) (reason : Option AbortReason) (b : Bool)
      → Keeps (On F) (add_terminal_events owner t terminal reason b)
  unfolding add_terminal_events
  add_terminal_events-Keeps terminal reason true =
      Triple-bind (λ _. On F) _ _ (allocate-Keeps F owner t 2)
        λ seq.
          Triple-bind (λ _. On F) _ _ (add_event-Keeps F owner t _ _ _ _)
            λ _. add_event-Keeps F owner t _ _ _ _
  add_terminal_events-Keeps terminal reason false =
      Triple-bind (λ _. On F) _ _ (allocate-Keeps F owner t 1)
        λ seq. add_event-Keeps F owner t _ _ _ _

  pub view-Keeps : Keeps (On F) (view owner t)
  view-Keeps = Triple-get _ λ s h. Triple-pure _ (λ s' e. subst (On F) (sym e) h)

-- The tail of a request behind its flip: the guard on the row count, the events and the release.
module _ {B : Type 0} (owner t : ℕ) where
  pub after_flip :
      (n : ℕ) (e : _) (events : Tx (Unit {0})) (rest : Unit {0} → Tx B)
      → ((F : Condition) → Keeps (On F) events)
      → ((a : Unit {0}) → Keeps Balanced (rest a))
      → Triple AnyError
          (Flipped owner t n)
          (require (ltb 0 n) e >>= λ _.
            events >>= λ _. release_task_holdings owner (some t) (some owner) >>= rest)
          (λ _. Balanced)
  after_flip n e events rest k r = Triple-require _ _ _ tt λ took.
      Triple-pre (BeforeRelease owner t) (λ s h. h.took took)
        (Triple-bind (λ _. BeforeRelease owner t) _ _ (k (Before owner t))
          λ _. Triple-bind (λ _. Balanced) _ _ (release-Restores owner t) r)

module _ (owner : ℕ) (task : Task) (terminal : TaskStatus) (reason : Option AbortReason)
    (dead : live_status terminal ≡ false) where
  flip_task-Triple :
      (from : TaskStatus)
      → Triple AnyError Balanced
          (flip_task owner task.id from terminal reason)
          (Flipped owner task.id)
  unfolding flip_task
  flip_task-Triple from = flip-Triple owner task.id _ _ (λ x. refl) λ x g e. cc

  pub finalize-Keeps : Keeps Balanced (finalize_terminal owner owner task terminal reason)
  unfolding finalize_terminal
  finalize-Keeps =
      Triple-bind (λ _. Balanced) _ _ (assert_transition-Keeps Ledger _ _)
        λ _. Triple-bind (Flipped owner task.id) _ _ (flip_task-Triple _) λ n.
          after_flip owner task.id n _ _ _ (λ F. add_terminal_events-Keeps F owner _ _ _ _)
            λ _.
              Triple-bind (λ _. Balanced) _ _ (view-Keeps Ledger owner task.id)
                (λ v. Triple-pure _ (λ s h. h))

  pub terminalize-Keeps : Keeps Balanced (terminalize_queued owner owner task terminal reason)
  unfolding terminalize_queued cancel_pending_rounds
  terminalize-Keeps =
      Triple-bind (λ _. Balanced) _ _ (update_rounds-Keeps Ledger owner _ _)
        λ hit.
          Triple-bind (λ _. Balanced) _ _ (assert_transition-Keeps Ledger _ _)
            λ _. Triple-bind (Flipped owner task.id) _ _ (flip_task-Triple _) λ n.
              after_flip owner task.id n _ _ _ (λ F. add_terminal_events-Keeps F owner _ _ _ _)
                λ _.
                  Triple-bind (λ _. Balanced) _ _ (view-Keeps Ledger owner task.id)
                    (λ v. Triple-pure _ (λ s h. h))

running_is_live : (x : TaskStatus) → is_status TaskStatus.running x ≡ true → live_status x ≡ true
running_is_live x e = ground arith

pub mark_pending-Keeps :
    (owner t : ℕ) (terminal : TaskStatus) → Keeps Balanced (mark_pending_terminal owner t terminal)
unfolding mark_pending_terminal
mark_pending-Keeps owner t terminal =
    quiet-Keeps owner t _ _ (λ x. refl) (λ x g. running_is_live _ g) (λ x g. running_is_live _ g)
      (λ x g e. e)

pub request-Keeps :
    (owner : ℕ) (task : Task) (terminal : TaskStatus)
    → Keeps Balanced (request_terminal_while_running owner task terminal)
unfolding request_terminal_while_running cancel_active_rounds
request-Keeps owner task terminal =
    Triple-bind (λ _. Balanced) _ _ (update_rounds-Keeps Ledger owner _ _)
      λ hit.
        Triple-bind (λ _. Balanced) _ _
          (Triple-if (ltb 0 (length hit)) _ (pure 0)
            (λ _. mark_pending-Keeps owner task.id terminal) (λ _. Triple-pure _ (λ s h. h)))
          λ n.
            Triple-bind (λ _. Balanced) _ _ (view-Keeps Ledger owner task.id)
              (λ v. Triple-pure _ (λ s h. h))

pub finish-Keeps :
    (owner : ℕ) (task : Task) (terminal : TaskStatus) (reason : Option AbortReason)
    → live_status terminal ≡ false
    → Keeps Balanced (finish_by_status owner owner task terminal reason)
unfolding finish_by_status
finish-Keeps owner task terminal reason dead =
    elim (Bool-cases (is_status TaskStatus.running task.status)) [
      | inl e ↦ rw e (request-Keeps owner task terminal)
      | inr e ↦ rw e (elim (Bool-cases (is_status TaskStatus.queued task.status)) [
        | inl e ↦ rw e (terminalize-Keeps owner task terminal reason dead)
        | inr e ↦ rw e (finalize-Keeps owner task terminal reason dead)
      ])
    ]

-- A request first locks the task and reads the owner's id.
pub locked-Keeps :
    {A : Type 0} (owner : ℕ) (raw_task : Option ℕ) (f : Task → ℕ → Tx A)
    → ((task : Task) → Keeps Balanced (f task owner))
    → Keeps Balanced
        (lock_task owner raw_task >>= λ task. parse_id (some owner) >>= λ owner_id. f task owner_id)
locked-Keeps owner raw_task f k =
    Triple-bind (λ _. Balanced) _ _ (lock_task-Keeps owner raw_task)
      λ task. parse-Triple (some owner) _ λ o e.
        subst (λ (x : Option ℕ). Keeps Balanced (f task (elim x [ none ↦ owner | some y ↦ y ]))) e
          (k task)

pub abort_task-Keeps :
    (owner : ℕ) (raw_task : Option ℕ) → Keeps Balanced (abort_task owner (some owner) raw_task)
unfolding abort_task
abort_task-Keeps owner raw_task =
    locked-Keeps owner raw_task _ λ task. finish-Keeps owner task _ _ refl

pub complete_task-Keeps :
    (owner : ℕ) (raw_task : Option ℕ) → Keeps Balanced (complete_task owner (some owner) raw_task)
unfolding complete_task
complete_task-Keeps owner raw_task =
    locked-Keeps owner raw_task _ λ task. finish-Keeps owner task _ _ refl

cancel_for_delete-Keeps : (owner : ℕ) (task : Task) → Keeps Balanced (cancel_for_delete owner task)
unfolding cancel_for_delete cancel_active_rounds cancel_pending_rounds
cancel_for_delete-Keeps owner task = elim (Bool-cases (is_status TaskStatus.running task.status)) [
  | inl e ↦ rw e (
      Triple-bind (λ _. Balanced) _ _ (update_rounds-Keeps Ledger owner _ _)
        λ _.
          Triple-bind (λ _. Balanced) _ _ (mark_pending-Keeps owner task.id _)
            λ _. Triple-pure _ (λ s h. h))
  | inr e ↦ rw e (elim (Bool-cases (is_status TaskStatus.queued task.status)) [
    | inl e ↦ rw e (
        Triple-bind (λ _. Balanced) _ _ (update_rounds-Keeps Ledger owner _ _)
          λ _. Triple-pure _ (λ s h. h))
    | inr e ↦ rw e (Triple-pure _ (λ s h. h))
  ])
]

pub delete_task-Keeps :
    (owner : ℕ) (raw_task : Option ℕ) → Keeps Balanced (delete_task owner (some owner) raw_task)
unfolding delete_task flip_deleted
delete_task-Keeps owner raw_task = locked-Keeps owner raw_task _ λ task.
    Triple-bind (λ _. Balanced) _ _ (assert_transition-Keeps Ledger _ _)
      λ _.
        Triple-bind (λ _. Balanced) _ _ (cancel_for_delete-Keeps owner task)
          λ b.
            Triple-bind (Flipped owner task.id) _ _
              (flip-Triple owner task.id _ _ (λ x. refl) (λ x g e. cc))
              λ n.
                after_flip owner task.id n _ _ _ (λ F. add_terminal_events-Keeps F owner _ _ _ _)
                  (λ _. Triple-pure _ (λ s h. h))
