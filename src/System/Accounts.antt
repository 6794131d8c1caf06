-- ===== src/System/Accounts.antt =====
-- The accounts in the states that the actions of System can reach.
use agent_craft.Prelude.{
  ℕ, ◌≡◌, refl, ap, true, false, Option, none, some, List, [], ◌∷◌, ◌==◌, Bool-cases, inl, inr,
  arith, ==→eq,
}
use agent_craft.Model.Words.{TaskStatus, RoundState, is_round}
use agent_craft.Model.Rows.{Db, Task, TaskRound}
use agent_craft.Model.Tx.{Tx, Exn, Result, ok, err, candidate_dropped, commit_or_rollback}
use agent_craft.Settings.{Settings}
use agent_craft.Table.{find_task, visible}
use agent_craft.Dispatcher.Claim.{Candidate, Outcome, next_outcome, dispatch_loop}
use agent_craft.Dispatcher.Reclaim.{Probe, reclaim_loop, reclaim_one}
use agent_craft.Dispatcher.Sweep.{sweep_upload_loop, cleanup_task, is_cleanup_due}
use agent_craft.Logic.{Post, AnyError, Triple, Triple-require, Triple-total}
use agent_craft.Ledger.Invariant.{Ledger, Balanced, profile, live_status}
use agent_craft.Ledger.Steps.{Keeps}
use agent_craft.Ledger.Creating.{create_task-Keeps}
use agent_craft.Ledger.Queueing.{commit_input-Keeps, send_message-Keeps}
use agent_craft.Ledger.Finishing.{abort_task-Keeps, complete_task-Keeps, delete_task-Keeps}
use agent_craft.Ledger.Claiming.{claim_round-Keeps}
use agent_craft.Ledger.Background.{reclaim-Keeps, cancel_cancelling-Keeps, sweep_upload-Keeps}
use agent_craft.Ledger.Rounds.{persist_fact-Keeps, renew_once-Keeps, settle-Keeps}
use agent_craft.Ledger.Ending.{enforce-Keeps, terminate_one-Keeps, reconcile_one-Keeps}
use agent_craft.Ledger.Cleaning.{cleanup-Triple}
use agent_craft.System.{Action, is_due, serve, serve_all}

left_by :
    {A : Type 0} (P Q : Db → Type 0) (m : Tx A)
    → Triple AnyError P m (λ _. Q)
    → (s : Db) → P s
    → Q s
    → Q (commit_or_rollback m s)
left_by {A} P Q m k s p h = go (m s) (k.at s p)
  where
    go :
        (r : Result (A × Db))
        → Post AnyError (λ _. Q) r
        → Q (elim r [ err e ↦ s | ok (a, s') ↦ s' ])
    go (ok (a, s')) q = q
    go (err e) q = h

kept :
    {A : Type 0} (m : Tx A)
    → Keeps Balanced m
    → (s : Db) → Balanced s
    → Balanced (commit_or_rollback m s)
kept m k s h = left_by Balanced Balanced m k s h h

-- One candidate of a loop, whatever becomes of it.
next-Keeps :
    {A : Type 0} (P : Db → Type 0) (s : Db) (r : Result (A × Db)) (continue : Db → ℕ → Outcome)
    (n : ℕ)
    → P s
    → Post AnyError (λ _. P) r
    → ((s' : Db) (k : ℕ) → P s' → P (continue s' k).db)
    → P (next_outcome s r continue n).db
next-Keeps P s (ok (a, s')) continue n h q k = k s' _ q
next-Keeps P s (err candidate_dropped) continue n h q k = k s n h
next-Keeps P s (err (Exn.app_error c w)) continue n h q k = h
next-Keeps P s (err Exn.validation_error) continue n h q k = h
next-Keeps P s (err Exn.no_result_found) continue n h q k = h
next-Keeps P s (err Exn.os_error) continue n h q k = h
next-Keeps P s (err Exn.multiple_results_found) continue n h q k = h
next-Keeps P s (err (Exn.integrity_error c)) continue n h q k = h

pub dispatch-Keeps :
    (i ttl now : ℕ) (cs : List Candidate) (s : Db) (n : ℕ)
    → Balanced s
    → Balanced (dispatch_loop i ttl now cs s n).db
unfolding dispatch_loop
dispatch-Keeps i ttl now [] s n h = h
dispatch-Keeps i ttl now (c ∷ cs) s n h =
    next-Keeps Balanced s _ _ n h
      ((claim_round-Keeps c.owner_id c.task_id c.round_id c.reservation_id i ttl now).at s h)
      (λ s' k q. dispatch-Keeps i ttl now cs s' k q)

reclaim_one-Keeps : (probe : Probe) (r : TaskRound) → Keeps Balanced (reclaim_one probe r)
unfolding reclaim_one
reclaim_one-Keeps probe r = elim (Bool-cases (is_round RoundState.cancelling r.state)) [
  | inl e ↦ rw e (Triple-require _ _ _ tt λ _. cancel_cancelling-Keeps r.owner_id r.task_id r.id)
  | inr e ↦ rw e (reclaim-Keeps r.owner_id r.task_id r.id r.lease_owner r.lease_epoch)
]

pub reclaim_loop-Keeps :
    (probe : Probe) (rs : List TaskRound) (s : Db) (n : ℕ)
    → Balanced s
    → Balanced (reclaim_loop probe rs s n).db
unfolding reclaim_loop
reclaim_loop-Keeps probe [] s n h = h
reclaim_loop-Keeps probe (r ∷ rs) s n h =
    next-Keeps Balanced s _ _ n h ((reclaim_one-Keeps probe r).at s h)
      (λ s' k q. reclaim_loop-Keeps probe rs s' k q)

pub sweep_loop-Keeps :
    (cs : List (ℕ × ℕ)) (s : Db) (n : ℕ) → Balanced s → Balanced (sweep_upload_loop cs s n).db
unfolding sweep_upload_loop
sweep_loop-Keeps [] s n h = h
sweep_loop-Keeps ((t, owner) ∷ cs) s n h =
    next-Keeps Balanced s _ _ n h ((sweep_upload-Keeps owner t).at s h)
      (λ s' k q. sweep_loop-Keeps cs s' k q)

-- A task that is due for the sweep is the owner's, and dead.
due_profile :
    (st : Settings) (now owner : ℕ) (o : Option Task)
    → is_due st now (visible owner o) ≡ true
    → (x : TaskStatus) × (profile o ≡ some (owner, x)) × (live_status x ≡ false)
due_profile st now owner none e = cc
due_profile st now owner (some t) e = elim (Bool-cases (t.owner_id == owner)) [
  | inl q ↦ (t.status, ap (λ u. some (u, t.status)) (==→eq _ _ q), dead t (rw q at e))
  | inr q ↦ cc (rw q at e)
]
  where
    dead : (t : Task) → is_cleanup_due st now t ≡ true → live_status t.status ≡ false
    dead t e = ground arith

serve-cleanup :
    (st : Settings) (owner t now : ℕ) (s : Db)
    → Balanced s
    → Balanced (serve st (Action.cleanup owner t now) s)
unfolding serve
serve-cleanup st owner t now s h = elim (Bool-cases (is_due st now (find_task owner t s))) [
  | inr e ↦ rw e h
  | inl e ↦ rw e (
      let p = due_profile st now owner (s.tasks t) e in
      left_by _ Balanced (cleanup_task owner t) (Triple-total (cleanup-Triple owner t p.0 p.2)) s
        (h, p.1) h)
]

-- Every action keeps the agreement of the reservations, the counters and the slots.
pub serve-Balanced : (st : Settings) (a : Action) (s : Db) → Balanced s → Balanced (serve st a s)
unfolding serve
serve-Balanced st (Action.create owner catalog ids request day now) s h =
    kept _ (create_task-Keeps st catalog ids _ owner day now refl) s h
serve-Balanced st (Action.commit owner task digest round_id reservation_id now) s h =
    kept _ (commit_input-Keeps owner task digest round_id reservation_id now) s h
serve-Balanced st (Action.abort owner task) s h = kept _ (abort_task-Keeps owner task) s h
serve-Balanced st (Action.complete owner task) s h = kept _ (complete_task-Keeps owner task) s h
serve-Balanced st (Action.delete owner task) s h = kept _ (delete_task-Keeps owner task) s h
serve-Balanced st (Action.send owner task content message_id round_id now) s h =
    kept _ (send_message-Keeps st owner (some owner) task content message_id round_id now) s h
serve-Balanced st (Action.dispatch i now cs) s h =
    dispatch-Keeps i st.lease_ttl_seconds now cs s 0 h
serve-Balanced st (Action.reclaim probe rs) s h = reclaim_loop-Keeps probe rs s 0 h
serve-Balanced st (Action.sweep_uploads cs) s h = sweep_loop-Keeps cs s 0 h
serve-Balanced st (Action.cleanup owner t now) s h = serve-cleanup st owner t now s h
serve-Balanced st (Action.persist ctx a c m) s h = kept _ (persist_fact-Keeps Ledger ctx a c m) s h
serve-Balanced st (Action.renew ctx now) s h =
    kept _ (renew_once-Keeps ctx st.lease_ttl_seconds now) s h
serve-Balanced st (Action.settle_round ctx reason resolved m) s h =
    kept _ (settle-Keeps ctx reason resolved m) s h
serve-Balanced st (Action.deadline ctx) s h = kept _ (enforce-Keeps ctx) s h
serve-Balanced st (Action.terminate owner t) s h = kept _ (terminate_one-Keeps owner t) s h
serve-Balanced st (Action.reconcile owner t terminal) s h =
    kept _ (reconcile_one-Keeps owner t terminal) s h

-- From a database whose accounts agree, any sequence of the actions of System.Action leads to one whose
-- accounts agree (register_output, terminate_tasks_hook and the revocation of a provider are none of them):
-- each user's counters and the platform's storage are the sums of the held reservations, a task's
-- slots are its held running reservations, and a task holds what its status allows.
pub serve_all-Balanced :
    (st : Settings) (actions : List Action) (s : Db)
    → Balanced s
    → Balanced (serve_all st actions s)
unfolding serve_all
serve_all-Balanced st [] s h = h
serve_all-Balanced st (a ∷ rest) s h =
    serve_all-Balanced st rest (serve st a s) (serve-Balanced st a s h)
