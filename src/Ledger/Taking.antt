-- ===== src/Ledger/Taking.antt =====
-- What the reservations and the slots of a task hold after a release, by kinds.
use agent_craft.Prelude.{
  ℕ, ◌≤◌, ◌≡◌, refl, ap, Bool, true, false, ◌&&◌, ◌||◌, ◌==◌, some, List, [], ◌∷◌, if◌then◌else◌,
  arith, total, update_where, All,
}
use agent_craft.Model.Words.{Kind, is_kind}
use agent_craft.Model.Rows.{Reservation, PlatformSlot}
use agent_craft.Release.{released_rows, leased_to, free_slot}
use agent_craft.Ledger.Sums.{sum_held, of_task, after_release}
use agent_craft.Ledger.Invariant.{Profile, owner_of, RowOk, slots_of, of_task_any}

module _ (tasks : ℕ → Profile) (t u : ℕ) (owned : owner_of (tasks t) ≡ some u) where
  -- The reservations of the task are its owner's.
  pub rows_owned :
      (rs : List Reservation) → All (RowOk tasks) rs → All (λ r. r.task_id ≡ t → r.user_id ≡ u) rs
  rows_owned [] h = tt
  rows_owned (r ∷ rs) h =
      (λ e. cc (ap (λ k. owner_of (tasks k)) e, h.0.0, owned), rows_owned rs h.1)

pub RowOk-after_release :
    (tasks : ℕ → Profile) (t : ℕ) (kinds : Kind → Bool) (rs : List Reservation)
    → All (RowOk tasks) rs
    → All (RowOk tasks) (after_release t kinds rs)
RowOk-after_release tasks t kinds [] h = tt
RowOk-after_release tasks t kinds (r ∷ rs) h =
    (ground (arith, h.0), RowOk-after_release tasks t kinds rs h.1)

-- Rows of the active and the running kind carry no bytes.
pub no_bytes :
    (tasks : ℕ → Profile) (t : ℕ) (k : Kind) (rs : List Reservation)
    → (is_kind Kind.active k || is_kind Kind.running k) ≡ true
    → All (RowOk tasks) rs
    → total (λ x. x.1) (released_rows t (is_kind k) rs) ≡ 0
no_bytes tasks t k [] e h = refl
no_bytes tasks t k (r ∷ rs) e h = ground (arith, no_bytes tasks t k rs e h.1, h.0)

-- A release of all kinds leaves the task nothing.
abbrev any : Kind → Bool
any k = true

pub nothing_left :
    (t : ℕ) (rs : List Reservation) → sum_held (of_task_any t) (after_release t any rs) ≡ 0
nothing_left t [] = refl
nothing_left t (r ∷ rs) = ground (arith, nothing_left t rs)

pub of_task_any-after_release :
    (t t' : ℕ) (kinds : Kind → Bool) (rs : List Reservation)
    → (t == t') ≡ false
    → sum_held (of_task_any t') (after_release t kinds rs) ≡ sum_held (of_task_any t') rs
of_task_any-after_release t t' kinds [] e = refl
of_task_any-after_release t t' kinds (r ∷ rs) e =
    ground (arith, of_task_any-after_release t t' kinds rs e)

-- A kind that holds nothing in all holds nothing.
pub of_task-le-any :
    (t : ℕ) (k : Kind) (rs : List Reservation)
    → sum_held (of_task t k) rs ≤ sum_held (of_task_any t) rs
of_task-le-any t k [] = omega arith
of_task-le-any t k (r ∷ rs) = ground (arith, of_task-le-any t k rs)

-- The held rows of one kind of a task after the release of some kinds of `t`.
pub of_task-after_release :
    (t t' : ℕ) (k : Kind) (kinds : Kind → Bool) (rs : List Reservation)
    → sum_held (of_task t' k) (after_release t kinds rs)
      ≡ (if t == t' && kinds k then 0 else sum_held (of_task t' k) rs)
of_task-after_release t t' k kinds [] = ground arith
of_task-after_release t t' k kinds (r ∷ rs) = ground (arith, of_task-after_release t t' k kinds rs)

pub slots_of-free :
    (t t' : ℕ) (slots : List PlatformSlot)
    → slots_of t' (update_where (leased_to t) free_slot slots)
      ≡ (if t == t' then 0 else slots_of t' slots)
slots_of-free t t' [] = ground arith
slots_of-free t t' (s ∷ slots) = ground (arith, slots_of-free t t' slots)
