-- ===== src/Ledger/Queueing.antt =====
-- backend/v2/task_service.py: the accounts through commit_input and send_message.
use agent_craft.Prelude.{
  some_eq, ℕ, ◌≡◌, refl, subst, sym, ap, ◌∙◌, Bool, true, false, String, Option, some, arith, ◌||◌,
  is_none, not, Bool-cases, inl, inr,
}
use agent_craft.Model.Words.{TaskStatus, is_status, status_in}
use agent_craft.Model.Rows.{Db, Task}
use agent_craft.Model.Tx.{Tx, Result, ok, err, pure, raise, require}
use agent_craft.Table.{update_task}
use agent_craft.State.{allowed, assert_transition, valid_transitions}
use agent_craft.Settings.{Settings}
use agent_craft.Service.Quota.{validate_message}
use agent_craft.Service.Commit.{
  frozen_statuses, uploading_gate, commit_files, charge_storage, queue_first_round, commit_input,
}
use agent_craft.Service.Send.{queue_round, send_message, catch_conflict}
use agent_craft.Logic.{
  Post, AnyError, Triple, Triple-bind, Triple-pure, Triple-pre, Triple-get, Triple-require,
  Triple-require_some, Triple-fact,
}
use agent_craft.Ledger.Invariant.{Ledger, Balanced, owner_of, row_is, live_status}
use agent_craft.Ledger.Steps.{
  Condition, On, Keeps, add_event-Keeps, allocate-Keeps, insert_round-Keeps,
  assert_transition-Keeps, require-Keeps, same_profile,
}
use agent_craft.Ledger.Flips.{Locked, lock_task-Triple, lock_task-Keeps, quiet-Keeps, parse-Triple}
use agent_craft.Ledger.Background.{save_message-Keeps}
use agent_craft.Ledger.Charging.{charge_storage-Triple}

-- Only `uploading` passes the gate of a commit.
gate_only :
    (b : Bool) (x : TaskStatus)
    → is_status TaskStatus.uploading x ≡ false
    → (b || status_in x frozen_statuses) ≡ false
    → allowed x TaskStatus.queued ≡ false
unfolding allowed valid_transitions
gate_only b x e f = ground arith

pub gate-Triple :
    {P : Db → Type 0} (task : Task)
    → Triple AnyError P
        (uploading_gate task)
        (λ _ s. (is_status TaskStatus.uploading task.status ≡ true) × P s)
unfolding uploading_gate assert_transition pure raise require
gate-Triple task = elim (Bool-cases (is_status TaskStatus.uploading task.status)) [
  | inl e ↦ rw e (record { at = λ s h. (refl, h) })
  | inr e ↦
      rw e
        (elim (Bool-cases
          (not (is_none task.input_committed_at) || status_in task.status frozen_statuses)) [
            | inl f ↦ rw f (record { at = λ s h. tt })
            | inr f ↦ rw (f, gate_only _ task.status e f) (record { at = λ s h. tt })
          ])
]

to_queued :
    (owner t : ℕ) (from : TaskStatus)
    → live_status from ≡ true
    → is_status TaskStatus.running from ≡ false
    → Keeps Balanced (
        update_task owner t
          (λ x. is_status from x.status)
          (λ x. record x { status = TaskStatus.queued }))
to_queued owner t from l r =
    quiet-Keeps owner t _ _ (λ x. refl) (λ x g. ground arith) (λ x g. refl) (λ x g e. ground arith)

queue_first-Keeps :
    (owner : ℕ) (task : Task) (rid now : ℕ) → Keeps Balanced (queue_first_round owner task rid now)
unfolding queue_first_round
queue_first-Keeps owner task rid now = Triple-require_some _ _ _ tt λ m _.
    Triple-bind (λ _. Balanced) _ _ (insert_round-Keeps Ledger _)
      λ _.
        Triple-bind (λ _. Balanced) _ _ (assert_transition-Keeps Ledger _ _)
          λ _.
            Triple-bind (λ _. Balanced) _ _ (to_queued owner task.id TaskStatus.uploading refl refl)
              λ n. Triple-require _ _ _ tt λ _.
                Triple-bind (λ _. Balanced) _ _ (allocate-Keeps Ledger owner task.id 2)
                  λ seq.
                    Triple-bind (λ _. Balanced) _ _ (add_event-Keeps Ledger owner task.id _ _ _ _)
                      λ _.
                        Triple-bind (λ _. Balanced) _ _
                          (add_event-Keeps Ledger owner task.id _ _ _ _)
                          λ _. Triple-pure _ (λ s h. h)

commit_files-Keeps : (F : Condition) (owner t : ℕ) → Keeps (On F) (commit_files owner t)
unfolding commit_files
commit_files-Keeps F owner t = record { at = λ s h. h }

-- The storage of a task that was locked while uploading is charged to its owner.
charged :
    (owner : ℕ) (task : Task) (rid n : ℕ) {o : ℕ}
    → o ≡ owner
    → is_status TaskStatus.uploading task.status ≡ true
    → (s : Db) → On (Locked owner task.id task.status) s
    → Triple AnyError (λ x. x ≡ s) (charge_storage o task.id rid n) (λ _. Balanced)
charged owner task rid n {o} q e s h =
    subst (λ u. Triple AnyError (λ x. x ≡ s) (charge_storage u task.id rid n) (λ _. Balanced))
      (sym q)
      (charge_storage-Triple owner task.id rid n s h.0 (ap owner_of h.1)
        (ap (row_is live_status) h.1 ∙ ground arith))

pub commit_input-Keeps :
    (owner : ℕ) (raw : Option ℕ) (digest : String) (round_id reservation_id now : ℕ)
    → Keeps Balanced (commit_input owner (some owner) raw digest round_id reservation_id now)
unfolding commit_input
commit_input-Keeps owner raw digest round_id reservation_id now =
    Triple-bind (λ task. On (Locked owner task.id task.status)) _ _ (lock_task-Triple owner raw)
      λ task. parse-Triple (some owner) _ λ o eo. Triple-bind _ _ _ (gate-Triple task) λ _.
        Triple-fact λ e.
          Triple-bind (λ _. On (Locked owner task.id task.status)) _ _
            (same_profile (Locked owner task.id task.status) owner task.id _ (λ x. refl))
            λ _.
              Triple-bind (λ _. On (Locked owner task.id task.status)) _ _
                (commit_files-Keeps (Locked owner task.id task.status) owner task.id)
                λ _. Triple-get _ λ s h.
                  Triple-bind (λ _. Balanced) _ _
                    (charged owner task reservation_id _ (some_eq owner o eo) e s h)
                    λ _.
                      Triple-bind (λ _. Balanced) _ _ (queue_first-Keeps owner task round_id now)
                        λ seq.
                          Triple-get _ λ s' h'. Triple-pure _ (λ x q. subst Balanced (sym q) h')

caught-Keeps :
    {A : Type 0} (P : Db → Type 0) (m : Tx A) → Keeps P m → Keeps P (λ db. catch_conflict (m db))
caught-Keeps {A} P m k = record { at = λ s h. go (m s) (k.at s h) }
  where
    go :
        (r : Result (A × Db)) → Post AnyError (λ _. P) r → Post AnyError (λ _. P) (catch_conflict r)
    go (ok (a, s)) h = h
    go (err e) h = tt

queue_round-Keeps : (owner t m r now : ℕ) → Keeps Balanced (queue_round owner t m r now)
unfolding queue_round
queue_round-Keeps owner t m r now =
    Triple-bind (λ _. Balanced) _ _ (assert_transition-Keeps Ledger _ _)
      λ _.
        Triple-bind (λ _. Balanced) _ _ (to_queued owner t TaskStatus.ready refl refl)
          λ n. Triple-require _ _ _ tt λ _.
            Triple-bind (λ _. Balanced) _ _ (allocate-Keeps Ledger owner t 2)
              λ seq.
                Triple-bind (λ _. Balanced) _ _ (add_event-Keeps Ledger owner t _ _ _ _)
                  λ _.
                    Triple-bind (λ _. Balanced) _ _
                      (caught-Keeps Balanced _ (insert_round-Keeps Ledger _))
                      λ _.
                        Triple-bind (λ _. Balanced) _ _ (add_event-Keeps Ledger owner t _ _ _ _)
                          λ _. Triple-pure _ (λ s h. h)

validate-Keeps :
    (settings : Settings) (text : String) → Keeps Balanced (validate_message settings text)
unfolding validate_message
validate-Keeps settings text =
    Triple-bind (λ _. Balanced) _ _ (require-Keeps Ledger _ _) (λ _. require-Keeps Ledger _ _)

pub send_message-Keeps :
    (settings : Settings) (owner : ℕ) (raw_owner raw_task : Option ℕ) (content : String)
    (message_id round_id now : ℕ)
    → Keeps Balanced
        (send_message settings owner raw_owner raw_task content message_id round_id now)
unfolding send_message
send_message-Keeps settings owner raw_owner raw_task content message_id round_id now =
    Triple-bind (λ _. Balanced) _ _ (lock_task-Keeps owner raw_task)
      λ task. parse-Triple raw_owner _ λ o _. Triple-get _ λ s h.
        Triple-pre Balanced (λ x q. subst Balanced (sym q) h)
          (Triple-require _ _ _ tt λ _. Triple-require _ _ _ tt λ _.
            Triple-bind (λ _. Balanced) _ _ (validate-Keeps settings content)
              λ _.
                Triple-bind (λ _. Balanced) _ _
                  (save_message-Keeps Ledger owner task.id message_id _ _ _)
                  λ seq_m.
                    Triple-bind (λ _. Balanced) _ _
                      (queue_round-Keeps owner task.id message_id round_id now)
                      λ seq_r. Triple-pure _ (λ s h. h))
