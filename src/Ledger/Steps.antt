-- ===== src/Ledger/Steps.antt =====
-- How the statements of a transaction act on the accounts. A condition on the accounts reads the
-- profiles of the tasks, the reservations, the usage, the slots and the platform's storage only.
use agent_craft.Prelude.{
  ℕ, ◌≡◌, refl, sym, ap, subst, fun_ext, ◌∙◌, Bool, true, false, ◌==◌, Option, none, some, List, [],
  ◌∷◌, if◌then◌else◌, arith, All, Bool-cases, inl, inr, ==→eq, ==-refl,
}
use agent_craft.Model.Words.{TaskStatus}
use agent_craft.Model.Rows.{
  Db, Task, TaskMessage, TaskRound, EventBody, Reservation, UserQuotaUsage, PlatformSlot,
  PlatformStorage,
}
use agent_craft.Model.Tx.{Exn, Tx, require}
use agent_craft.Table.{
  visible, update_task, update_found, allocate_event_sequence, add_event, add_message,
  update_rounds, insert_round, set_row,
}
use agent_craft.State.{assert_transition}
use agent_craft.Logic.{
  Post, AnyError, Triple, Triple-bind, Triple-pure, Triple-get, Triple-require, Triple-put,
  Triple-require_some,
}
use agent_craft.Ledger.Invariant.{
  Profile, profile, profiles, owner_of, RowOk, Loose, Tight, Ledger, Before, row_is, live_status,
  running_status,
}

abbrev pub Condition : Type 1
Condition =
    (ℕ → Profile)
    → List Reservation
    → (ℕ → Option UserQuotaUsage)
    → List PlatformSlot
    → PlatformStorage
    → Type 0

abbrev pub On : Condition → Db → Type 0
On F s = F (profiles s) s.reservations s.usage s.slots s.storage

abbrev pub Keeps : {A : Type 0} → (Db → Type 0) → Tx A → Type 0
Keeps P m = Triple AnyError P m (λ _. P)

module _ (F : Condition) where
  pub add_event-Keeps :
      (owner t n : ℕ) (b : EventBody) (m r : Option ℕ) → Keeps (On F) (add_event owner t n b m r)
  unfolding add_event
  add_event-Keeps owner t n b m r = record { at = λ s h. h }

  pub add_message-Keeps : (m : TaskMessage) → Keeps (On F) (add_message m)
  unfolding add_message
  add_message-Keeps m = record { at = λ s h. h }

  pub update_rounds-Keeps :
      (owner : ℕ) (p : TaskRound → Bool) (f : TaskRound → TaskRound)
      → Keeps (On F) (update_rounds owner p f)
  unfolding update_rounds
  update_rounds-Keeps owner p f = record { at = λ s h. h }

  pub insert_round-Keeps : (r : TaskRound) → Keeps (On F) (insert_round r)
  unfolding insert_round
  insert_round-Keeps r =
      Triple-get _ λ s h.
        Triple-require _ _ _ tt (λ _. Triple-require _ _ _ tt (λ _. Triple-put _ (λ s' e. h)))

  -- A test that fails raises, and one that passes changes nothing.
  pub require-Keeps : (b : Bool) (e : Exn) → Keeps (On F) (require b e)
  unfolding require
  require-Keeps true e = record { at = λ s h. h }
  require-Keeps false e = record { at = λ s h. tt }

  pub assert_transition-Keeps : (a b : TaskStatus) → Keeps (On F) (assert_transition a b)
  unfolding assert_transition
  assert_transition-Keeps a b = require-Keeps _ _

  -- A write that keeps a task's owner and status.
  pub same_profile :
      (owner t : ℕ) (f : Task → Task)
      → ((x : Task) → profile (some (f x)) ≡ profile (some x))
      → Keeps (On F) (update_task owner t (λ x. true) f)
  unfolding update_task
  same_profile owner t f same = record { at = λ s h. go s (s.tasks t) refl h }
    where
      unchanged :
          (s : Db) (x : Task)
          → s.tasks t ≡ some x
          → profiles s ≡ (λ k. profile (set_row s.tasks t (some (f x)) k))
      unchanged s x e = fun_ext λ k. elim (Bool-cases (t == k)) [
        | inl q ↦ rw q (
            subst (λ j. profile (s.tasks j) ≡ profile (some (f x))) (==→eq t k q)
              (ap profile e ∙ sym (same x)))
        | inr q ↦ rw q
      ]

      go :
          (s : Db) (o : Option Task)
          → s.tasks t ≡ o
          → On F s
          → Post AnyError (λ _. On F) (update_found (visible owner o) (λ x. true) f t s)
      go s none e h = h
      go s (some x) e h = elim (Bool-cases (x.owner_id == owner)) [
        | inl q ↦
            rw q (subst (λ p. F p s.reservations s.usage s.slots s.storage) (unchanged s x e) h)
        | inr q ↦ rw q h
      ]

  pub allocate-Keeps : (owner t n : ℕ) → Keeps (On F) (allocate_event_sequence owner t n)
  unfolding allocate_event_sequence
  allocate-Keeps owner t n =
      Triple-bind (λ _. On F) _ _ (same_profile owner t _ (λ x. refl))
        λ _. Triple-get _ λ s h.
          Triple-require_some _ _ _ tt (λ c _. Triple-pure _ (λ s' e. subst (On F) (sym e) h))

-- A flip of the status of a task from `p` to `p'`.
module _ (owner t : ℕ) (p p' : TaskStatus) (tasks tasks' : ℕ → Profile) (rs : List Reservation)
    (usage : ℕ → Option UserQuotaUsage) (slots : List PlatformSlot) (storage : PlatformStorage)
    (old : tasks t ≡ some (owner, p))
    (new : (k : ℕ) → tasks' k ≡ (if t == k then some (owner, p') else tasks k))
    (h : Ledger tasks rs usage slots storage) where
  owner_same : (k : ℕ) → owner_of (tasks' k) ≡ owner_of (tasks k)
  owner_same k = elim (Bool-cases (t == k)) [
    | inl q ↦
        subst (λ j. owner_of (tasks' j) ≡ owner_of (tasks j)) (==→eq t k q)
          (ground (arith, new t, ==-refl t, old))
    | inr q ↦ ground (arith, new k)
  ]

  rows_kept : (xs : List Reservation) → All (RowOk tasks) xs → All (RowOk tasks') xs
  rows_kept [] a = tt
  rows_kept (x ∷ xs) a = ((owner_same x.task_id ∙ a.0.0, a.0.1), rows_kept xs a.1)

  at_task : tasks' t ≡ some (owner, p')
  at_task = ground (arith, new t, ==-refl t)

  pub Loose-kept :
      (live_status p' ≡ true → live_status p ≡ true) → (k : ℕ) → Loose (tasks' k) k rs slots
  Loose-kept w k = elim (Bool-cases (t == k)) [
    | inl q ↦ subst (λ j. Loose (tasks' j) j rs slots) (==→eq t k q) same
    | inr q ↦ subst (λ x. Loose x k rs slots) (sym (other q)) (h.loose k)
  ]
    where
      other : (t == k) ≡ false → tasks' k ≡ tasks k
      other q = ground (arith, new k)

      same : Loose (tasks' t) t rs slots
      same = record {
        slot = (h.loose t).slot;
        one_slot = (h.loose t).one_slot;
        alive = λ x.
            (h.loose t).alive
              (ap (row_is live_status) old ∙ w (sym (ap (row_is live_status) at_task) ∙ x));
      }

  -- After the flip only the release is missing.
  pub flip-Before :
      (live_status p' ≡ true → live_status p ≡ true) → Before owner t tasks' rs usage slots storage
  flip-Before w = record {
    rows = rows_kept rs h.rows;
    accounts = h.accounts;
    loose = Loose-kept w;
    tight = λ k q. subst (λ x. Tight x k rs) (sym (ground (arith, new k))) (h.tight k);
    owned = ap owner_of at_task;
  }

  -- Between live states of which the new one runs where the old one did, nothing is missing.
  pub flip_quiet :
      live_status p ≡ true
      → live_status p' ≡ true
      → (running_status p' ≡ false → running_status p ≡ false)
      → Ledger tasks' rs usage slots storage
  flip_quiet l l' w = record {
    rows = rows_kept rs h.rows;
    accounts = h.accounts;
    loose = Loose-kept (λ _. l);
    tight = λ k. elim (Bool-cases (t == k)) [
      | inl q ↦ subst (λ j. Tight (tasks' j) j rs) (==→eq t k q) same
      | inr q ↦ subst (λ x. Tight x k rs) (sym (ground (arith, new k))) (h.tight k)
    ];
  }
    where
      same : Tight (tasks' t) t rs
      same = record {
        idle = λ x.
            (h.tight t).idle
              (ap (row_is running_status) old ∙ w (sym (ap (row_is running_status) at_task) ∙ x));
        over = λ x. ground (arith, at_task);
        gone = λ x. ground (arith, at_task);
      }
