-- ===== src/Ledger/Ending.antt =====
-- backend/v2/task_executor.py: the accounts through the deadline, the kill switch and the
-- reconciliation.
use agent_craft.Prelude.{
  ℕ, ◌+◌, refl, subst, sym, none, some, List, [], ◌∷◌, ltb, if◌then◌else◌, arith,
}
use agent_craft.Model.Words.{TaskStatus}
use agent_craft.Model.Rows.{TaskRound}
use agent_craft.Model.Tx.{Tx, pure, ◌>>=◌}
use agent_craft.Table.{find_task}
use agent_craft.Release.{release_task_holdings}
use agent_craft.Executor.Round.{
  RoundContext, fail_leased_round, fail_running_task, record_deadline, enforce_rows,
  enforce_round_deadline,
}
use agent_craft.Executor.Terminate.{
  may_terminate, cancel_rounds, abort_revoked, add_cancelled_events, record_termination,
  terminate_active, terminate_one, reconcile_flip, record_reconcile, reconcile_one,
}
use agent_craft.Logic.{
  AnyError, Triple, Triple-bind, Triple-pure, Triple-pre, Triple-get, Triple-if,
}
use agent_craft.Ledger.Invariant.{Ledger, Balanced, Before, BeforeRelease}
use agent_craft.Ledger.Steps.{
  Condition, On, Keeps, add_event-Keeps, allocate-Keeps, update_rounds-Keeps,
}
use agent_craft.Ledger.Flips.{Flipped, flip-Triple, release-Restores}
use agent_craft.Ledger.Background.{running_is_live}

-- The release at the end of a transaction, with the value returned.
released :
    {B : Type 0} (owner t : ℕ) (v : B)
    → Triple AnyError
        (BeforeRelease owner t)
        (release_task_holdings owner (some t) (some owner) >>= λ _. pure v)
        (λ _. Balanced)
released owner t v =
    Triple-bind (λ _. Balanced) _ _ (release-Restores owner t) λ _. Triple-pure _ (λ s h. h)

-- Behind a flip: what follows if it took, and nothing if it did not.
taken_or_not :
    {B : Type 0} (owner t n : ℕ) (m k : Tx B)
    → Triple AnyError (BeforeRelease owner t) m (λ _. Balanced)
    → Triple AnyError Balanced k (λ _. Balanced)
    → Triple AnyError (Flipped owner t n) (if ltb 0 n then m else k) (λ _. Balanced)
taken_or_not owner t n m k hm hk =
    Triple-if (ltb 0 n) m k (λ e. Triple-pre (BeforeRelease owner t) (λ s h. h.took e) hm)
      (λ e. Triple-pre Balanced (λ s h. h.missed e) hk)

record_deadline-Triple :
    (ctx : RoundContext) (attempt : ℕ)
    → Triple AnyError
        (BeforeRelease ctx.owner_id ctx.task_id)
        (record_deadline ctx attempt)
        (λ _. Balanced)
unfolding record_deadline
record_deadline-Triple ctx attempt =
    Triple-bind (λ _. BeforeRelease ctx.owner_id ctx.task_id) _ _
      (allocate-Keeps (Before ctx.owner_id ctx.task_id) ctx.owner_id ctx.task_id 2)
      λ seq.
        Triple-bind (λ _. BeforeRelease ctx.owner_id ctx.task_id) _ _
          (add_event-Keeps (Before ctx.owner_id ctx.task_id) ctx.owner_id ctx.task_id _ _ _ _)
          λ _.
            Triple-bind (λ _. BeforeRelease ctx.owner_id ctx.task_id) _ _
              (add_event-Keeps (Before ctx.owner_id ctx.task_id) ctx.owner_id ctx.task_id _ _ _ _)
              λ _. released ctx.owner_id ctx.task_id _

fail_running-Triple :
    (owner t : ℕ) → Triple AnyError Balanced (fail_running_task owner t) (Flipped owner t)
unfolding fail_running_task
fail_running-Triple owner t = flip-Triple owner t _ _ (λ x. refl) (λ x g e. cc)

enforce_rows-Keeps :
    (ctx : RoundContext) (rows : List TaskRound) → Keeps Balanced (enforce_rows ctx rows)
unfolding enforce_rows
enforce_rows-Keeps ctx [] = Triple-pure _ (λ s h. h)
enforce_rows-Keeps ctx (r ∷ rows) =
    Triple-bind (Flipped ctx.owner_id ctx.task_id) _ _
      (fail_running-Triple ctx.owner_id ctx.task_id)
      λ n.
        taken_or_not ctx.owner_id ctx.task_id n _ _ (record_deadline-Triple ctx r.attempt)
          (Triple-pure _ (λ s h. h))

pub enforce-Keeps : (ctx : RoundContext) → Keeps Balanced (enforce_round_deadline ctx)
unfolding enforce_round_deadline fail_leased_round
enforce-Keeps ctx =
    Triple-bind (λ _. Balanced) _ _ (update_rounds-Keeps Ledger ctx.owner_id _ _)
      (enforce_rows-Keeps ctx)

add_cancelled-Keeps :
    (F : Condition) (owner t n : ℕ) (rows : List TaskRound)
    → Keeps (On F) (add_cancelled_events owner t n rows)
unfolding add_cancelled_events
add_cancelled-Keeps F owner t n [] = Triple-pure _ (λ s h. h)
add_cancelled-Keeps F owner t n (r ∷ rows) =
    Triple-bind (λ _. On F) _ _ (add_event-Keeps F owner t _ _ _ _)
      λ _. add_cancelled-Keeps F owner t (n + 1) rows

record_termination-Triple :
    (owner t : ℕ) (rows : List TaskRound)
    → Triple AnyError (BeforeRelease owner t) (record_termination owner t rows) (λ _. Balanced)
unfolding record_termination
record_termination-Triple owner t rows =
    Triple-bind (λ _. BeforeRelease owner t) _ _ (allocate-Keeps (Before owner t) owner t _)
      λ seq.
        Triple-bind (λ _. BeforeRelease owner t) _ _
          (add_event-Keeps (Before owner t) owner t _ _ _ _)
          λ _.
            Triple-bind (λ _. BeforeRelease owner t) _ _
              (add_cancelled-Keeps (Before owner t) owner t _ rows) λ _. released owner t _

abort_revoked-Triple :
    (owner t : ℕ) → Triple AnyError Balanced (abort_revoked owner t) (Flipped owner t)
unfolding abort_revoked
abort_revoked-Triple owner t = flip-Triple owner t _ _ (λ x. refl) (λ x g e. cc)

terminate_active-Keeps : (owner t : ℕ) → Keeps Balanced (terminate_active owner t)
unfolding terminate_active cancel_rounds
terminate_active-Keeps owner t =
    Triple-bind (λ _. Balanced) _ _ (update_rounds-Keeps Ledger owner _ _)
      λ rows. Triple-bind (Flipped owner t) _ _ (abort_revoked-Triple owner t) λ n.
        taken_or_not owner t n _ _
          (Triple-bind (λ _. Balanced) _ _ (record_termination-Triple owner t rows)
            λ f. Triple-pure _ (λ s h. h))
          (Triple-pure _ (λ s h. h))

pub terminate_one-Keeps : (owner t : ℕ) → Keeps Balanced (terminate_one owner t)
unfolding terminate_one
terminate_one-Keeps owner t = Triple-get _ λ s h.
    Triple-pre Balanced (λ s' e. subst Balanced (sym e) h)
      (Triple-if (may_terminate (find_task owner t s)) _ (pure none)
        (λ _. terminate_active-Keeps owner t) (λ _. Triple-pure _ (λ s h. h)))

record_reconcile-Triple :
    (owner t : ℕ) (terminal : TaskStatus)
    → Triple AnyError (BeforeRelease owner t) (record_reconcile owner t terminal) (λ _. Balanced)
unfolding record_reconcile
record_reconcile-Triple owner t terminal =
    Triple-bind (λ _. BeforeRelease owner t) _ _ (allocate-Keeps (Before owner t) owner t 1)
      λ seq.
        Triple-bind (λ _. BeforeRelease owner t) _ _
          (add_event-Keeps (Before owner t) owner t _ _ _ _) λ _. released owner t _

reconcile_flip-Triple :
    (owner t : ℕ) (terminal : TaskStatus)
    → Triple AnyError Balanced (reconcile_flip owner t terminal) (Flipped owner t)
unfolding reconcile_flip
reconcile_flip-Triple owner t terminal =
    flip-Triple owner t _ _ (λ x. refl) (λ x g e. running_is_live x.status (ground arith))

pub reconcile_one-Keeps :
    (owner t : ℕ) (terminal : TaskStatus) → Keeps Balanced (reconcile_one owner t terminal)
unfolding reconcile_one
reconcile_one-Keeps owner t terminal =
    Triple-bind (Flipped owner t) _ _ (reconcile_flip-Triple owner t terminal) λ n.
      taken_or_not owner t n _ _ (record_reconcile-Triple owner t terminal)
        (Triple-pure _ (λ s h. h))
