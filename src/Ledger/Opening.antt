-- ===== src/Ledger/Opening.antt =====
-- A task that is being created: its owner's counter is charged first, then the row is inserted, and
-- the reservation comes last.
use agent_craft.Prelude.{
  ℕ, ◌+◌, ◌≡◌, refl, subst, sym, ap, ◌∙◌, true, false, Option, none, some, List, [], ◌∷◌, ◌++◌,
  if◌then◌else◌, arith, ◌==◌, Bool-cases, inl, inr, All, All-append, ==→eq, ==-refl,
}
use agent_craft.Model.Words.{TaskStatus, Kind, ReservationState}
use agent_craft.Model.Rows.{Reservation, UserQuotaUsage, PlatformSlot, PlatformStorage}
use agent_craft.Ledger.Sums.{sum_held, of_user, of_task, bytes_of, all_bytes}
use agent_craft.Ledger.Accounting.{usage_of}
use agent_craft.Ledger.Invariant.{
  Profile, RowOk, Loose, Tight, Ledger, owner_of, slots_of, of_task_any,
}
use agent_craft.Ledger.Growing.{sum_held-snoc}

-- The active counter of `u` is one ahead of the reservations.
pub record Ahead (u : ℕ) (rs : List Reservation) (usage : ℕ → Option UserQuotaUsage)
    (storage : PlatformStorage) : Type 0 where
  pub active :
      (v : ℕ)
      → (usage_of (usage v)).active_tasks
        ≡ sum_held (of_user v Kind.active) rs + (if u == v then 1 else 0)
  pub running : (v : ℕ) → (usage_of (usage v)).running_tasks ≡ sum_held (of_user v Kind.running) rs
  pub bytes : (v : ℕ) → (usage_of (usage v)).retained_storage_bytes ≡ sum_held (bytes_of v) rs
  pub platform : storage.retained_storage_bytes ≡ sum_held all_bytes rs

pub record Paying (u : ℕ) (tasks : ℕ → Profile) (rs : List Reservation)
    (usage : ℕ → Option UserQuotaUsage) (slots : List PlatformSlot) (storage : PlatformStorage)
    : Type 0 where
  pub rows : All (RowOk tasks) rs
  pub accounts : Ahead u rs usage storage
  pub loose : (k : ℕ) → Loose (tasks k) k rs slots
  pub tight : (k : ℕ) → Tight (tasks k) k rs

-- The new task `t` has a row and no reservation.
pub record Opening (u t : ℕ) (tasks : ℕ → Profile) (rs : List Reservation)
    (usage : ℕ → Option UserQuotaUsage) (slots : List PlatformSlot) (storage : PlatformStorage)
    : Type 0 where
  pub rows : All (RowOk tasks) rs
  pub accounts : Ahead u rs usage storage
  pub loose : (k : ℕ) → (t == k) ≡ false → Loose (tasks k) k rs slots
  pub tight : (k : ℕ) → (t == k) ≡ false → Tight (tasks k) k rs
  pub created : tasks t ≡ some (u, TaskStatus.uploading)
  pub no_slot : slots_of t slots ≡ 0
  pub no_running : sum_held (of_task t Kind.running) rs ≡ 0
  pub no_active : sum_held (of_task t Kind.active) rs ≡ 0

module _ (u t : ℕ) (tasks tasks' : ℕ → Profile) (old : tasks t ≡ none)
    (new : (k : ℕ) → tasks' k ≡ (if t == k then some (u, TaskStatus.uploading) else tasks k)) where
  rows_kept : (xs : List Reservation) → All (RowOk tasks) xs → All (RowOk tasks') xs
  rows_kept [] a = tt
  rows_kept (x ∷ xs) a = (
    (
      elim (Bool-cases (t == x.task_id)) [
        | inl q ↦ cc (ap (λ j. owner_of (tasks j)) (==→eq t x.task_id q), a.0.0, ap owner_of old)
        | inr q ↦ ap owner_of (sym (ground (arith, new x.task_id))) ∙ a.0.0
      ],
      a.0.1,
    ),
    rows_kept xs a.1,
  )

  same_elsewhere : (k : ℕ) → (t == k) ≡ false → tasks k ≡ tasks' k
  same_elsewhere k e = ground (arith, new k)

  module _ (rs : List Reservation) (usage : ℕ → Option UserQuotaUsage) (slots : List PlatformSlot)
      (storage : PlatformStorage) (h : Paying u tasks rs usage slots storage) where
    no_running_before : sum_held (of_task t Kind.running) rs ≡ 0
    no_running_before = (h.tight t).idle (ground (arith, old))

    -- The insertion of the row.
    pub opening : Opening u t tasks' rs usage slots storage
    opening = record {
      rows = rows_kept rs h.rows;
      accounts = h.accounts;
      loose = λ k e. subst (λ p. Loose p k rs slots) (same_elsewhere k e) (h.loose k);
      tight = λ k e. subst (λ p. Tight p k rs) (same_elsewhere k e) (h.tight k);
      created = ground (arith, new t, ==-refl t);
      no_slot = (h.loose t).slot ∙ no_running_before;
      no_running = no_running_before;
      no_active = (h.tight t).over (ground (arith, old));
    }

module _ (u t rid : ℕ) (tasks : ℕ → Profile) (rs : List Reservation)
    (usage : ℕ → Option UserQuotaUsage) (slots : List PlatformSlot) (storage : PlatformStorage)
    (h : Opening u t tasks rs usage slots storage) where
  abbrev pub active_row : Reservation
  active_row = record {
    id = rid;
    task_id = t;
    user_id = u;
    kind = Kind.active;
    bytes = 0;
    state = ReservationState.held;
  }

  own : (k : ℕ) (X : Type 0) → ((t == k) ≡ true → X) → ((t == k) ≡ false → X) → X
  own k X a b = elim (Bool-cases (t == k)) [ inl e ↦ a e | inr e ↦ b e ]

  Loose-at : Loose (tasks t) t (rs ++ active_row ∷ []) slots
  Loose-at = record {
    slot =
        ground
          (arith, h.no_slot, h.no_running, sum_held-snoc (of_task t Kind.running) rs active_row);
    one_slot = ground (arith, h.no_running, sum_held-snoc (of_task t Kind.running) rs active_row);
    alive = λ _.
        ground (arith, h.no_active, sum_held-snoc (of_task t Kind.active) rs active_row, ==-refl t);
  }

  Tight-at : Tight (tasks t) t (rs ++ active_row ∷ [])
  Tight-at = record {
    idle = λ _. ground (arith, h.no_running, sum_held-snoc (of_task t Kind.running) rs active_row);
    over = λ e. ground (arith, h.created);
    gone = λ e. ground (arith, h.created);
  }

  -- The reservation of a new task settles the account.
  pub opened : Ledger tasks (rs ++ active_row ∷ []) usage slots storage
  opened = record {
    rows = All-append (RowOk tasks) rs (active_row ∷ []) h.rows ((ap owner_of h.created, refl), tt);
    accounts = record {
      active = λ v.
          ground (arith, sum_held-snoc (of_user v Kind.active) rs active_row, h.accounts.active v);
      running = λ v.
          ground
            (arith, sum_held-snoc (of_user v Kind.running) rs active_row, h.accounts.running v);
      bytes = λ v. ground (arith, sum_held-snoc (bytes_of v) rs active_row, h.accounts.bytes v);
      platform = ground (arith, sum_held-snoc all_bytes rs active_row, h.accounts.platform);
    };
    loose = λ k.
        own k _
          (λ e. subst (λ j. Loose (tasks j) j (rs ++ active_row ∷ []) slots) (==→eq t k e) Loose-at)
          (λ e. record {
            slot =
                ground
                  (arith, (h.loose k e).slot, sum_held-snoc (of_task k Kind.running) rs active_row);
            one_slot = ground (
              arith,
              (h.loose k e).one_slot,
              sum_held-snoc (of_task k Kind.running) rs active_row,
            );
            alive = λ x.
                ground (
                  arith,
                  (h.loose k e).alive x,
                  sum_held-snoc (of_task k Kind.active) rs active_row,
                );
          });
    tight = λ k.
        own k _ (λ e. subst (λ j. Tight (tasks j) j (rs ++ active_row ∷ [])) (==→eq t k e) Tight-at)
          (λ e. record {
            idle = λ x.
                ground (
                  arith,
                  (h.tight k e).idle x,
                  sum_held-snoc (of_task k Kind.running) rs active_row,
                );
            over = λ x.
                ground (
                  arith,
                  (h.tight k e).over x,
                  sum_held-snoc (of_task k Kind.active) rs active_row,
                );
            gone = λ x.
                ground (arith, (h.tight k e).gone x, sum_held-snoc (of_task_any k) rs active_row);
          });
  }
