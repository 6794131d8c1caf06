-- ===== src/Ledger/Claiming.antt =====
-- backend/v2/task_dispatcher.py: the accounts through _claim_round.
use agent_craft.Model.Tx.{Exn}
use agent_craft.Prelude.{
  ℕ, ◌+◌, ◌≡◌, refl, ap, Bool, true, false, Option, none, some, List, [], ◌∷◌, ◌++◌, if◌then◌else◌,
  arith, ◌==◌, Bool-cases, inl, inr, ltb, ==→eq, ==-refl,
}
use agent_craft.Model.Words.{TaskStatus, Kind, ReservationState, is_status}
use agent_craft.Model.Rows.{Db, Task, Reservation, UserQuotaUsage, PlatformSlot}
use agent_craft.Table.{has, clashes, set_row, update_task, update_found, visible}
use agent_craft.Dispatcher.Claim.{
  claim_round_row, run_task, charge_running, lease_slot, take_slot, has_free_slot,
  take_running_account, claim_round,
}
use agent_craft.Logic.{
  Post, AnyError, Triple, Triple-bind, Triple-pure, Triple-require, Triple-fix, Triple-pre,
}
use agent_craft.Ledger.Invariant.{
  Ledger, Balanced, profile, profiles, owner_of, row_is, live_status, running_status, slots_of,
}
use agent_craft.Ledger.Steps.{
  On, Keeps, add_event-Keeps, allocate-Keeps, update_rounds-Keeps, flip_quiet,
}
use agent_craft.Ledger.Flips.{new_profiles, old_profile, Locked}
use agent_craft.Ledger.Background.{first-Keeps}
use agent_craft.Ledger.Growing.{grown}
use agent_craft.Ledger.Charging.{Took, took_then, took_last, insert_then, got, counted, from_state}

-- The first free slot is leased to the task, and no other slot changes its task.
slots_of-take :
    (t t' until : ℕ) (slots : List PlatformSlot)
    → has_free_slot slots ≡ true
    → slots_of t' (take_slot t until slots) ≡ slots_of t' slots + (if t == t' then 1 else 0)
slots_of-take t t' until [] e = cc
slots_of-take t t' until (s ∷ slots) e = ground (arith, slots_of-take t t' until slots)

pub leased :
    {E : Exn → Type 0} (t until : ℕ) (s : Db)
    → Triple E
        (λ x. x ≡ s)
        (lease_slot t until)
        (Took (has_free_slot s.slots ≡ true) (λ _. record s { slots = take_slot t until s.slots }))
unfolding lease_slot
leased t until s = from_state s (elim (Bool-cases (has_free_slot s.slots)) [
  | inl g ↦ rw g (λ _. (refl, refl))
  | inr g ↦ rw g (λ x. cc)
])

module _ (owner t rid until : ℕ) (s : Db) (h : Balanced s)
    (p : profiles s t ≡ some (owner, TaskStatus.running)) where
  abbrev running_row : Reservation
  running_row = record {
    id = rid;
    task_id = t;
    user_id = owner;
    kind = Kind.running;
    bytes = 0;
    state = ReservationState.held;
  }

  charged_running :
      (q : UserQuotaUsage)
      → s.usage owner ≡ some q
      → has (clashes running_row) s.reservations ≡ false
      → has_free_slot s.slots ≡ true
      → Balanced (record s {
        reservations = s.reservations ++ running_row ∷ [];
        usage = set_row s.usage owner (some (record q { running_tasks = q.running_tasks + 1 }));
        slots = take_slot t until s.slots;
      })
  charged_running q e c f =
      grown (profiles s) running_row s.reservations _ _ _ _ _ _
        (record {
          held = refl;
          row = (ap owner_of p, refl);
          fresh = c;
          active = λ v. ground (arith, e);
          running = λ v. ground (arith, e);
          bytes = λ v. ground (arith, e);
          platform = ground arith;
          slot = λ k. ground (arith, slots_of-take t k until s.slots f);
          live = ap (row_is live_status) p;
          runs = λ k. ap (row_is running_status) p;
          passive = refl;
        })
        h

  take_running-Triple :
      Triple AnyError (λ x. x ≡ s) (take_running_account owner t rid until) (λ _. Balanced)
  unfolding take_running_account charge_running
  take_running-Triple = insert_then running_row s _ tt λ c.
      took_then _ _ _ _ tt (got _ _ (counted owner _ _ _)) _
        λ a. took_last _ _ _ _ tt (leased t until _) Balanced (λ f. charged_running a.0 a.1 c f)

ran_state :
    (owner t : ℕ) (s : Db) (x : Task)
    → s.tasks t ≡ some x
    → Balanced s
    → x.owner_id ≡ owner
    → is_status TaskStatus.queued x.status ≡ true
    → On
        (Locked owner t TaskStatus.running)
        (record s { tasks = set_row s.tasks t (some (record x { status = TaskStatus.running })) })
ran_state owner t s x e h o g = (
  flip_quiet owner t x.status TaskStatus.running _ _ _ _ _ _
      (old_profile owner t test f same s x e o) new h (ground arith) refl (λ r. cc),
  ground (arith, new t, ==-refl t),
)
  where
    test : Task → Bool
    test y = true

    f : Task → Task
    f y = record y { status = TaskStatus.running }

    same : (y : Task) → (f y).owner_id ≡ y.owner_id
    same y = refl

    new :
        (k : ℕ)
        → profile (set_row s.tasks t (some (f x)) k)
          ≡ (if t == k then some (owner, TaskStatus.running) else profile (s.tasks k))
    new k = new_profiles owner t test f same s x k o

-- A task that was taken from the queue runs.
ran_found :
    (owner t : ℕ) (s : Db) (o : Option Task)
    → s.tasks t ≡ o
    → Balanced s
    → Post AnyError
        (λ n x. ltb 0 n ≡ true → On (Locked owner t TaskStatus.running) x)
        (update_found
          (visible owner o)
          (λ x. is_status TaskStatus.queued x.status)
          (λ x. record x { status = TaskStatus.running })
          t
          s)
ran_found owner t s none e h = λ x. cc
ran_found owner t s (some x) e h = elim (Bool-cases (x.owner_id == owner)) [
  | inr q ↦ rw q (λ x. cc)
  | inl q ↦ rw q (elim (Bool-cases (is_status TaskStatus.queued x.status)) [
    | inr g ↦ rw g (λ x. cc)
    | inl g ↦ rw g (λ _. ran_state owner t s x e h (==→eq _ _ q) g)
  ])
]

run_task-Triple :
    (owner t : ℕ)
    → Triple AnyError Balanced
        (run_task owner t)
        (λ n x. ltb 0 n ≡ true → On (Locked owner t TaskStatus.running) x)
unfolding run_task update_task
run_task-Triple owner t = record { at = λ s h. ran_found owner t s (s.tasks t) refl h }

claim_row-Keeps : (owner r i ttl now : ℕ) → Keeps Balanced (claim_round_row owner r i ttl now)
unfolding claim_round_row
claim_row-Keeps owner r i ttl now =
    Triple-bind (λ _. Balanced) _ _ (update_rounds-Keeps Ledger owner _ _) (first-Keeps Ledger)

pub claim_round-Keeps :
    (owner task_id round_id reservation_id instance_id ttl now : ℕ)
    → Keeps Balanced (claim_round owner task_id round_id reservation_id instance_id ttl now)
unfolding claim_round
claim_round-Keeps owner t r rid i ttl now =
    Triple-bind (λ _. Balanced) _ _ (claim_row-Keeps owner r i ttl now)
      λ round. Triple-bind _ _ _ (run_task-Triple owner t) λ n. Triple-require _ _ _ tt λ took.
        Triple-pre (On (Locked owner t TaskStatus.running)) (λ s h. h took)
          (Triple-bind (λ _. Balanced) _ _
            (Triple-fix λ s h. take_running-Triple owner t rid _ s h.0 h.1)
            λ _.
              Triple-bind (λ _. Balanced) _ _ (allocate-Keeps Ledger owner t 2)
                λ seq.
                  Triple-bind (λ _. Balanced) _ _ (add_event-Keeps Ledger owner t _ _ _ _)
                    λ _.
                      Triple-bind (λ _. Balanced) _ _ (add_event-Keeps Ledger owner t _ _ _ _)
                        λ _. Triple-pure _ (λ s h. h))
