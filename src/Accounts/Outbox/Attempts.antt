-- ===== src/Accounts/Outbox/Attempts.antt =====
-- backend/v2/outbox.py: a mail's attempts, and their end.
use agent_craft.Prelude.{
  ℕ, zero, suc, ◌+◌, ◌≤◌, ◌<◌, ◌≡◌, ◌⊎◌, inl, inr, refl, true, false, ◌==◌, leb, none, some, List,
  [], ◌∷◌, All, All-update_where, arith, Bool-cases, ==-refl, All-weaken,
}
use agent_craft.Accounts.Rows.{Mail, OutboxState}
use agent_craft.Accounts.Service.{World, after}
use agent_craft.Accounts.Outbox.{
  Delivery, finalize_all, finalize_row, outcome_row, is_held_by, is_pending, is_claimable, is_among,
  max_attempts, backoff_seconds,
}

-- A row that waits, has been tried at least so many times but not five, and may be claimed at a time.
abbrev pub Waits : ℕ → ℕ → Mail → Type 0
Waits k now m =
    (m.state ≡ OutboxState.pending)
    × (k ≤ m.attempts)
    × (m.attempts < max_attempts)
    × (is_claimable now m ≡ true)

abbrev pub Tried : ℕ → ℕ → Mail → Type 0
Tried k now m = (is_pending m ≡ false) ⊎ Waits k now m

-- A row in the course of a round: over, or tried and free, or leased and still to be worked on.
abbrev pub InRound : ℕ → ℕ → ℕ → List Mail → Mail → Type 0
InRound k worker next rows m =
    Tried (k + 1) next m × (is_pending m ≡ true → m.lease_owner ≡ none)
    ⊎ ((m.state ≡ OutboxState.pending) × (m.lease_owner ≡ some worker) × (is_among rows m ≡ true))

-- A claimed row, tried at least so many times but not five.
abbrev pub Fresh : ℕ → Mail → Type 0
Fresh k row = (k ≤ row.attempts) × (row.attempts < max_attempts)

-- The outcome of a row is written in time for the next round.
abbrev pub InTime : ℕ → (Mail → Delivery) → Type 0
InTime next deliver = (row : Mail) → (deliver row).at + 1800 ≤ next

backoff-bound : (n : ℕ) → backoff_seconds n ≤ 1800
backoff-bound zero = omega arith
backoff-bound (suc zero) = omega arith
backoff-bound (suc (suc zero)) = omega arith
backoff-bound (suc (suc (suc zero))) = omega arith
backoff-bound (suc (suc (suc (suc n)))) = omega arith

module _ (k next worker : ℕ) where
  abbrev pub Free : Mail → Type 0
  Free m = Tried (k + 1) next m × (is_pending m ≡ true → m.lease_owner ≡ none)

  -- What one delivery makes of a row.
  outcome-Free :
      (d : Delivery) (attempts : ℕ) (m : Mail)
      → d.at + 1800 ≤ next
      → k ≤ attempts
      → attempts < max_attempts
      → m.state ≡ OutboxState.pending
      → Free (outcome_row d attempts m)
  outcome-Free d attempts m in_time le lt p = elim (Bool-cases d.is_ok) [
    | inl e ↦ rw e (inl refl, λ _. refl)
    | inr e ↦ rw e (elim (Bool-cases (leb max_attempts (attempts + 1))) [
      | inl f ↦ rw f (inl refl, λ _. refl)
      | inr f ↦ rw f (
          let due : leb (d.at + backoff_seconds (attempts + 1)) next ≡ true =
            ground (arith, in_time, backoff-bound (attempts + 1)) in
          (inr (p, omega (arith, le), ground (arith, f), rw (p, due) refl), λ _. refl))
    ])
  ]

  -- A row that no longer waits does not wait again.
  outcome-over :
      (d : Delivery) (attempts : ℕ) (m : Mail)
      → is_pending m ≡ false
      → is_pending (outcome_row d attempts m) ≡ false
  outcome-over d attempts m p = elim (Bool-cases d.is_ok) [
    | inl e ↦ rw e refl
    | inr e ↦
        rw e (elim (Bool-cases (leb max_attempts (attempts + 1))) [
          | inl f ↦ rw f refl
          | inr f ↦ rw f p
        ])
  ]

  finalized-one :
      (d : Delivery) (row : Mail) (rows : List Mail) (m : Mail)
      → d.at + 1800 ≤ next
      → Fresh k row
      → InRound k worker next (row ∷ rows) m
      → is_held_by worker row.id m ≡ true
      → InRound k worker next rows (outcome_row d row.attempts m)
  finalized-one d row rows m in_time fresh (inr h) e =
      inl (outcome-Free d row.attempts m in_time fresh.0 fresh.1 h.0)
  finalized-one d row rows m in_time fresh (inl (inl p, free)) e =
      let over = outcome-over d row.attempts m p in inl (inl over, λ q. cc (over, q))
  finalized-one d row rows m in_time fresh (inl (inr h, free)) e =
      inl (outcome-Free d row.attempts m in_time fresh.0 fresh.1 h.0)

  passed-one :
      (row : Mail) (rows : List Mail) (m : Mail)
      → InRound k worker next (row ∷ rows) m
      → is_held_by worker row.id m ≡ false
      → InRound k worker next rows m
  passed-one row rows m (inl h) e = inl h
  passed-one row rows m (inr h) e = elim (Bool-cases (row.id == m.id)) [
    | inl f ↦
        let same : (m.id == row.id) ≡ true = ground (arith, f) in
        absurd (cc (simp (same, h.1, ==-refl worker) at e))
    | inr f ↦ inr (h.0, h.1, simp f at h.2)
  ]

  pub finalized :
      (deliver : Mail → Delivery) (rows : List Mail) (n : ℕ) (w : World)
      → InTime next deliver
      → All (Fresh k) rows
      → All (InRound k worker next rows) w.db.outbox
      → All Free (after (finalize_all worker deliver rows n w)).db.outbox
  unfolding finalize_row
  finalized deliver [] n w in_time fresh h =
      All-weaken (InRound k worker next []) Free w.db.outbox
        (λ m c. elim c [ inl f ↦ f | inr g ↦ absurd (cc g.2) ]) h
  finalized deliver (row ∷ rows) n w in_time fresh h = finalized deliver rows _ _ in_time fresh.1 (
      All-update_where (InRound k worker next (row ∷ rows)) (InRound k worker next rows)
        (is_held_by worker row.id) (outcome_row (deliver row) row.attempts) w.db.outbox
        (λ m c e. finalized-one (deliver row) row rows m (in_time row) fresh.0 c e)
        (λ m c e. passed-one row rows m c e) h)
