-- ===== src/Ledger/Sums.antt =====
-- Sums over the held reservations, and what a release takes out of them.
use agent_craft.Prelude.{
  ℕ, ◌+◌, ◌≡◌, refl, Bool, ◌&&◌, ◌==◌, List, [], ◌∷◌, if◌then◌else◌, arith, total, update_where,
  All,
}
use agent_craft.Model.Words.{Kind, is_held, is_kind}
use agent_craft.Model.Rows.{Reservation}
use agent_craft.Release.{hit, released_rows, mark_released, count_kind}

abbrev pub sum_held : (Reservation → ℕ) → List Reservation → ℕ
sum_held w = total (λ r. if is_held r.state then w r else 0)

abbrev pub sum_hit : ℕ → (Kind → Bool) → (Reservation → ℕ) → List Reservation → ℕ
sum_hit t kinds w = total (λ r. if hit t kinds r then w r else 0)

-- The weights that are summed: the rows of a user or a task of one kind, and their bytes.
abbrev pub of_user : ℕ → Kind → Reservation → ℕ
of_user u k r = if r.user_id == u && is_kind k r.kind then 1 else 0

abbrev pub of_task : ℕ → Kind → Reservation → ℕ
of_task t k r = if r.task_id == t && is_kind k r.kind then 1 else 0

abbrev pub bytes_of : ℕ → Reservation → ℕ
bytes_of u r = if r.user_id == u then r.bytes else 0

abbrev pub all_bytes : Reservation → ℕ
all_bytes r = r.bytes

abbrev pub after_release : ℕ → (Kind → Bool) → List Reservation → List Reservation
after_release t kinds = update_where (hit t kinds) mark_released

module _ (t : ℕ) (kinds : Kind → Bool) where
  pub sum_held-after_release :
      (w : Reservation → ℕ)
      → ((r : Reservation) → w (mark_released r) ≡ w r)
      → (rs : List Reservation)
      → sum_held w (after_release t kinds rs) + sum_hit t kinds w rs ≡ sum_held w rs
  sum_held-after_release w same [] = omega arith
  sum_held-after_release w same (r ∷ rs) = ground (arith, sum_held-after_release w same rs)

  pub count_kind-released_rows :
      (k : Kind) (rs : List Reservation)
      → count_kind k (released_rows t kinds rs) ≡ (if kinds k then sum_held (of_task t k) rs else 0)
  count_kind-released_rows k [] = ground arith
  count_kind-released_rows k (r ∷ rs) = ground (arith, count_kind-released_rows k rs)

  pub sum_hit-of_task :
      (t' : ℕ) (k : Kind) (rs : List Reservation)
      → sum_hit t kinds (of_task t' k) rs
        ≡ (if t == t' && kinds k then sum_held (of_task t k) rs else 0)
  sum_hit-of_task t' k [] = ground arith
  sum_hit-of_task t' k (r ∷ rs) = ground (arith, sum_hit-of_task t' k rs)

  pub sum_hit-all_bytes :
      (rs : List Reservation)
      → sum_hit t kinds all_bytes rs ≡ total (λ x. x.1) (released_rows t kinds rs)
  sum_hit-all_bytes [] = refl
  sum_hit-all_bytes (r ∷ rs) = ground (arith, sum_hit-all_bytes rs)

  -- The rows of the task are rows of the user `u`.
  module _ (u u' : ℕ) where
    pub sum_hit-of_user :
        (k : Kind) (rs : List Reservation)
        → All (λ r. r.task_id ≡ t → r.user_id ≡ u) rs
        → sum_hit t kinds (of_user u' k) rs
          ≡ (if u == u' then count_kind k (released_rows t kinds rs) else 0)
    sum_hit-of_user k [] h = ground arith
    sum_hit-of_user k (r ∷ rs) h = ground (arith, sum_hit-of_user k rs h.1, h.0)

    pub sum_hit-bytes_of :
        (rs : List Reservation)
        → All (λ r. r.task_id ≡ t → r.user_id ≡ u) rs
        → sum_hit t kinds (bytes_of u') rs
          ≡ (if u == u' then total (λ x. x.1) (released_rows t kinds rs) else 0)
    sum_hit-bytes_of [] h = ground arith
    sum_hit-bytes_of (r ∷ rs) h = ground (arith, sum_hit-bytes_of rs h.1, h.0)
