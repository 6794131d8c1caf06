-- ===== src/Ledger/Releasing.antt =====
-- backend/v2/task_release.py: the invariant after a release, from what the release has taken.
use agent_craft.Prelude.{
  ℕ, ◌≡◌, refl, subst, sym, ◌∙◌, Bool, true, false, ◌&&◌, ◌==◌, List, if◌then◌else◌, arith, total,
  ltb, Bool-cases, inl, inr, ==-refl, ==→eq,
}
use agent_craft.Model.Words.{Kind}
use agent_craft.Model.Rows.{Db, Reservation, PlatformSlot}
use agent_craft.Release.{apply_release_accounting, count_kind}
use agent_craft.Logic.{NoError, Triple, Triple-pre, Triple-post}
use agent_craft.Ledger.Sums.{sum_held, of_user, bytes_of, all_bytes}
use agent_craft.Ledger.Accounting.{Sums, Owes, slots_after, accounting-Triple}
use agent_craft.Ledger.Invariant.{
  Profile, profile, profiles, slots_of, Accounts, Loose, Tight, Balanced, BeforeRelease, row_is,
  live_status, deleted_status,
}
use agent_craft.Ledger.Taken.{Taken}
use agent_craft.Ledger.Taking.{slots_of-free}

abbrev pub sums_of : List Reservation → Sums
sums_of rs = record {
  active = λ v. sum_held (of_user v Kind.active) rs;
  running = λ v. sum_held (of_user v Kind.running) rs;
  bytes = λ v. sum_held (bytes_of v) rs;
  all = sum_held all_bytes rs;
}

-- The status allows what is taken: a live task keeps its active reservation, and a dead one loses it.
pub record Fits (p : Profile) (act all : Bool) : Type 0 where
  pub keeps : row_is live_status p ≡ true → act ≡ false
  pub loses : row_is live_status p ≡ false → act ≡ true
  pub clears : row_is deleted_status p ≡ true → all ≡ true

-- The slots of a task after the release of `n` running reservations of `t`.
slots_of-slots_after :
    (sums : Sums) (base : Db) (t u t' n : ℕ)
    → slots_of t' (slots_after sums base t u n)
      ≡ (if t == t' && ltb 0 n then 0 else slots_of t' base.slots)
slots_of-slots_after sums base t u t' n = elim (Bool-cases (ltb 0 n)) [
  | inl e ↦ rw e (ground (arith, slots_of-free t t' base.slots))
  | inr e ↦ rw e (ground arith)
]

module _ (tasks : ℕ → Profile) (t u : ℕ) (act all : Bool) (rows : List (Kind × ℕ)) (b : ℕ)
    (rs rs' : List Reservation) (k : Taken tasks t u act all rows b rs rs') where
  Loose-after :
      (sums : Sums) (base : Db)
      → ((t' : ℕ) → Loose (tasks t') t' rs base.slots)
      → Fits (tasks t) act all
      → (t' : ℕ)
      → Loose (tasks t') t' rs' (slots_after sums base t u (count_kind Kind.running rows))
  Loose-after sums base h f t' = elim (Bool-cases (t == t')) [
    | inl e ↦ subst (λ x. Loose (tasks x) x rs' slots') (==→eq t t' e) same
    | inr e ↦ record {
      slot = ground (arith, slots_of-slots_after sums base t u t' n, k.run_task t', (h t').slot, e);
      one_slot = ground (arith, k.run_task t', (h t').one_slot, e);
      alive = λ x. ground (arith, (h t').alive x, k.act_task t', e);
    }
  ]
    where
      n : ℕ
      n = count_kind Kind.running rows

      slots' : List PlatformSlot
      slots' = slots_after sums base t u n

      same : Loose (tasks t) t rs' slots'
      same = record {
        slot = ground (
          arith,
          slots_of-slots_after sums base t u t n,
          k.run_task t,
          k.count,
          (h t).slot,
          ==-refl t,
        );
        one_slot = ground (arith, k.run_task t, ==-refl t);
        alive = λ x. ground (arith, (h t).alive x, k.act_task t, f.keeps x, ==-refl t);
      }

  Tight-after :
      ((t' : ℕ) → (t == t') ≡ false → Tight (tasks t') t' rs)
      → Fits (tasks t) act all
      → (t' : ℕ) → Tight (tasks t') t' rs'
  Tight-after h f t' = elim (Bool-cases (t == t')) [
    | inl e ↦ subst (λ x. Tight (tasks x) x rs') (==→eq t t' e) same
    | inr e ↦ record {
      idle = λ x. ground (arith, (h t' e).idle x, k.run_task t', e);
      over = λ x. ground (arith, (h t' e).over x, k.act_task t', e);
      gone = λ x. ground (arith, (h t' e).gone x, k.any_task t' e);
    }
  ]
    where
      same : Tight (tasks t) t rs'
      same = record {
        idle = λ x. ground (arith, k.run_task t, ==-refl t);
        over = λ x. ground (arith, f.loses x, k.act_task t, ==-refl t);
        gone = λ x. k.gone (f.clears x);
      }

  -- Before the payment, the accounts show too much by what has been taken.
  owes_before :
      (base : Db)
      → Accounts rs base.usage base.storage
      → Owes
          (sums_of rs')
          base
          base.slots
          u
          (count_kind Kind.active rows)
          (count_kind Kind.running rows)
          b
          b
          base
  owes_before base a = record {
    active = λ v. a.active v ∙ sym (k.active v);
    running = λ v. a.running v ∙ sym (k.running v);
    bytes = λ v. a.bytes v ∙ sym (k.bytes v);
    storage = a.platform ∙ sym k.platform;
    rest = refl;
  }

  Accounts-after :
      (base : Db) (slots : List PlatformSlot) (s : Db)
      → Owes (sums_of rs') base slots u 0 0 0 0 s
      → Accounts rs' s.usage s.storage
  Accounts-after base slots s o = record {
    active = λ v. ground (arith, o.active v);
    running = λ v. ground (arith, o.running v);
    bytes = λ v. ground (arith, o.bytes v);
    platform = ground (arith, o.storage);
  }

-- What a release leaves as it was.
pub record Outside (s s' : Db) : Type 0 where
  pub same : s' ≡ record s {
    reservations = s'.reservations;
    usage = s'.usage;
    slots = s'.slots;
    storage = s'.storage;
  }

abbrev pub Released : Db → Unit {0} → Db → Type 0
Released s _ s' = Balanced s' × Outside s s'

module _ (s : Db) (t u : ℕ) (act all refund : Bool) (rows : List (Kind × ℕ))
    (rs' : List Reservation) (h : BeforeRelease u t s) (f : Fits (profile (s.tasks t)) act all)
    (k : Taken
      (profiles s)
      t
      u
      act
      all
      rows
      (if refund then total (λ (x : Kind × ℕ). x.1) rows else 0)
      s.reservations
      rs') where
  abbrev base : Db
  base = record s { reservations = rs' }

  -- The payment after any of the releases restores the invariant.
  pub paid_lem :
      Triple NoError
        (λ x. x ≡ base)
        (apply_release_accounting t u rows refund)
        (λ a x. Released s a x)
  paid_lem =
      Triple-pre _
        (λ x e.
          subst
            (λ y.
              Owes (sums_of rs') base base.slots u (count_kind Kind.active rows)
                (count_kind Kind.running rows)
                (if refund then total (λ (x : Kind × ℕ). x.1) rows else 0)
                (if refund then total (λ (x : Kind × ℕ). x.1) rows else 0) y)
            (sym e) (owes_before _ t u act all rows _ s.reservations rs' k base h.accounts))
        (Triple-post _ (accounting-Triple (sums_of rs') base t u rows refund) (λ a x o.
          subst (λ y. Released s a y) (sym o.rest)
            (
              record {
                rows = k.rows_ok;
                accounts = Accounts-after _ t u act all rows _ s.reservations rs' k base _ x o;
                loose =
                    Loose-after _ t u act all rows _ s.reservations rs' k (sums_of rs') base h.loose
                      f;
                tight = Tight-after _ t u act all rows _ s.reservations rs' k h.tight f;
              },
              record { same = refl },
            )))
