-- ===== src/Ledger/Growing.antt =====
-- What a new reservation adds to the sums, and the invariant of the accounts that are charged for it.
use agent_craft.Prelude.{
  ℕ, ◌+◌, ◌≡◌, refl, ap, Bool, true, false, Option, List, [], ◌∷◌, ◌++◌, if◌then◌else◌, arith, ◌==◌,
  ◌&&◌, total-append, All-append, Bool-cases, inl, inr, ==→eq,
}
use agent_craft.Model.Words.{TaskStatus, Kind, is_kind, is_held}
use agent_craft.Model.Rows.{Reservation, UserQuotaUsage, PlatformSlot, PlatformStorage}
use agent_craft.Table.{has, clashes}
use agent_craft.Ledger.Sums.{sum_held, of_user, of_task, bytes_of, all_bytes}
use agent_craft.Ledger.Accounting.{usage_of}
use agent_craft.Ledger.Invariant.{
  Profile, RowOk, Accounts, Loose, Tight, Ledger, slots_of, of_task_any, row_is, live_status,
  running_status, deleted_status,
}

pub sum_held-snoc :
    (w : Reservation → ℕ) (rs : List Reservation) (r : Reservation)
    → sum_held w (rs ++ r ∷ []) ≡ sum_held w rs + (if is_held r.state then w r else 0)
sum_held-snoc w rs r =
    ground
      (arith, total-append (λ (x : Reservation). if is_held x.state then w x else 0) rs (r ∷ []))

-- The index leaves no other held row of the kind.
pub no_clash :
    (r : Reservation) (t : ℕ) (k : Kind) (rs : List Reservation)
    → (r.task_id == t && is_kind k r.kind) ≡ true
    → has (clashes r) rs ≡ false
    → sum_held (of_task t k) rs ≡ 0
no_clash r t k [] e f = refl
no_clash r t k (x ∷ rs) e f = ground (arith, no_clash r t k rs e)

-- Where a test of the row of `t` fails, it is not the row where the test holds.
elsewhere :
    (tasks : ℕ → Profile) (p : TaskStatus → Bool) (a t : ℕ)
    → row_is p (tasks a) ≡ true
    → row_is p (tasks t) ≡ false
    → (a == t) ≡ false
elsewhere tasks p a t e f = elim (Bool-cases (a == t)) [
  | inl q ↦ cc (ap (λ j. row_is p (tasks j)) (==→eq a t q))
  | inr q ↦ q
]

gone_not_live : (p : Profile) → row_is deleted_status p ≡ true → row_is live_status p ≡ false
gone_not_live p e = ground arith

-- A held row of `t`, of the owner `u`, and the accounts that were charged for it.
pub record Charged (tasks : ℕ → Profile) (r : Reservation) (rs : List Reservation)
    (usage usage' : ℕ → Option UserQuotaUsage) (slots slots' : List PlatformSlot)
    (storage storage' : PlatformStorage) : Type 0 where
  pub held : is_held r.state ≡ true
  pub row : RowOk tasks r
  pub fresh : has (clashes r) rs ≡ false
  pub active :
      (v : ℕ)
      → (usage_of (usage' v)).active_tasks
        ≡ (usage_of (usage v)).active_tasks + of_user v Kind.active r
  pub running :
      (v : ℕ)
      → (usage_of (usage' v)).running_tasks
        ≡ (usage_of (usage v)).running_tasks + of_user v Kind.running r
  pub bytes :
      (v : ℕ)
      → (usage_of (usage' v)).retained_storage_bytes
        ≡ (usage_of (usage v)).retained_storage_bytes + bytes_of v r
  pub platform : storage'.retained_storage_bytes ≡ storage.retained_storage_bytes + r.bytes
  pub slot : (t : ℕ) → slots_of t slots' ≡ slots_of t slots + of_task t Kind.running r
  -- the task may hold it
  pub live : row_is live_status (tasks r.task_id) ≡ true
  pub runs : is_kind Kind.running r.kind ≡ true → row_is running_status (tasks r.task_id) ≡ true
  pub passive : is_kind Kind.active r.kind ≡ false

module _ (tasks : ℕ → Profile) (r : Reservation) (rs : List Reservation)
    (usage usage' : ℕ → Option UserQuotaUsage) (slots slots' : List PlatformSlot)
    (storage storage' : PlatformStorage)
    (c : Charged tasks r rs usage usage' slots slots' storage storage')
    (h : Ledger tasks rs usage slots storage) where
  grown-Accounts : Accounts (rs ++ r ∷ []) usage' storage'
  grown-Accounts = record {
    active = λ v. ground (
      arith,
      sum_held-snoc (of_user v Kind.active) rs r,
      c.held,
      c.active v,
      h.accounts.active v,
    );
    running = λ v. ground (
      arith,
      sum_held-snoc (of_user v Kind.running) rs r,
      c.held,
      c.running v,
      h.accounts.running v,
    );
    bytes =
        λ v. ground (arith, sum_held-snoc (bytes_of v) rs r, c.held, c.bytes v, h.accounts.bytes v);
    platform =
        ground (arith, sum_held-snoc all_bytes rs r, c.held, c.platform, h.accounts.platform);
  }

  grown-Loose : (t : ℕ) → Loose (tasks t) t (rs ++ r ∷ []) slots'
  grown-Loose t = record {
    slot =
        ground
          (arith, sum_held-snoc (of_task t Kind.running) rs r, c.held, c.slot t, (h.loose t).slot);
    one_slot = elim (Bool-cases (r.task_id == t && is_kind Kind.running r.kind)) [
      | inl e ↦ ground (
        arith,
        sum_held-snoc (of_task t Kind.running) rs r,
        c.held,
        no_clash r t Kind.running rs e c.fresh,
      )
      | inr e ↦
          ground (arith, sum_held-snoc (of_task t Kind.running) rs r, c.held, (h.loose t).one_slot)
    ];
    alive = λ e.
        ground (
          arith,
          sum_held-snoc (of_task t Kind.active) rs r,
          c.held,
          c.passive,
          (h.loose t).alive e,
        );
  }

  grown-Tight : (t : ℕ) → Tight (tasks t) t (rs ++ r ∷ [])
  grown-Tight t = record {
    idle = λ e. elim (Bool-cases (is_kind Kind.running r.kind)) [
      | inl k ↦ ground (
        arith,
        sum_held-snoc (of_task t Kind.running) rs r,
        (h.tight t).idle e,
        elsewhere tasks running_status r.task_id t (c.runs k) e,
      )
      | inr k ↦ ground (arith, sum_held-snoc (of_task t Kind.running) rs r, (h.tight t).idle e)
    ];
    over = λ e.
        ground (
          arith,
          sum_held-snoc (of_task t Kind.active) rs r,
          c.held,
          (h.tight t).over e,
          c.passive,
        );
    gone = λ e. ground (
      arith,
      sum_held-snoc (of_task_any t) rs r,
      (h.tight t).gone e,
      elsewhere tasks live_status r.task_id t c.live (gone_not_live (tasks t) e),
    );
  }

  pub grown : Ledger tasks (rs ++ r ∷ []) usage' slots' storage'
  grown = record {
    rows = All-append (RowOk tasks) rs (r ∷ []) h.rows (c.row, tt);
    accounts = grown-Accounts;
    loose = grown-Loose;
    tight = grown-Tight;
  }
