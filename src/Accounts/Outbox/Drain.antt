-- ===== src/Accounts/Outbox/Drain.antt =====
-- backend/v2/outbox.py: rounds of the dispatcher until no mail waits.
use agent_craft.Prelude.{
  ℕ, ◌+◌, ◌≤◌, ◌≡◌, inl, inr, refl, ap, subst, ◌∙◌, true, false, List, [], ◌∷◌, length, select, any,
  All, All-update_where, All-weaken, All-both, All-select, All-order_by, All-limit, length-select,
  length-update_where, any-select, any-order_by, length-order_by, limit-all, arith, leb, ==-refl,
  order_by,
}
use agent_craft.Accounts.Rows.{Mail}
use agent_craft.Accounts.Service.{World, after}
use agent_craft.Accounts.Outbox.{
  Delivery, dispatch_once, finalize_all, finalize_row, claim, claim_mails, claimed_rows,
  is_claimable, is_among, is_pending, leased, has_id, older, outcome_row, is_held_by,
}
use agent_craft.Accounts.Outbox.Attempts.{Tried, InRound, InTime, Fresh, Free, finalized}

-- What is claimable and fits the batch is claimed.
module _ (batch now : ℕ) (mails : List Mail) (fits : length mails ≤ batch) where
  abbrev picked : List Mail
  picked = select (is_claimable now) mails

  claimed_eq : claimed_rows batch now mails ≡ order_by older picked
  claimed_eq =
      limit-all batch (order_by older picked)
        (omega (arith, fits, length-order_by older picked, length-select (is_claimable now) mails))

  claimed-among :
      All (λ m. is_claimable now m ≡ true → is_among (claimed_rows batch now mails) m ≡ true) mails
  claimed-among =
      All-weaken (λ (m : Mail). is_claimable now m ≡ true → any (has_id m.id) picked ≡ true)
        (λ m. is_claimable now m ≡ true → is_among (claimed_rows batch now mails) m ≡ true) mails
        (λ m h e. ap (any (has_id m.id)) claimed_eq ∙ any-order_by older (has_id m.id) picked ∙ h e)
        (any-select (λ (x y : Mail). has_id x.id y) (is_claimable now) mails (λ x. ==-refl x.id))

module _ (k now : ℕ) where
  claimable-Fresh : (m : Mail) → Tried k now m × (is_claimable now m ≡ true) → Fresh k m
  claimable-Fresh m (inl p, e) = absurd (cc (simp p at e))
  claimable-Fresh m (inr h, e) = (h.1, h.2)

  claimed-Fresh :
      (batch : ℕ) (mails : List Mail)
      → All (Tried k now) mails
      → All (Fresh k) (claimed_rows batch now mails)
  claimed-Fresh batch mails h =
      All-limit (Fresh k) batch (order_by older (select (is_claimable now) mails)) (
        All-order_by (Fresh k) older (select (is_claimable now) mails) (
          All-weaken (λ m. Tried k now m × (is_claimable now m ≡ true)) (Fresh k)
            (select (is_claimable now) mails) claimable-Fresh
            (All-select (Tried k now) (is_claimable now) mails h)))

module _ (k now worker next : ℕ) (rows : List Mail) where
  abbrev Claimable : Mail → Type 0
  Claimable m = Tried k now m × (is_claimable now m ≡ true → is_among rows m ≡ true)

  leased-InRound :
      (m : Mail)
      → Claimable m
      → is_among rows m ≡ true
      → InRound k worker next rows (leased worker now m)
  leased-InRound m (inl p, c) e = inl (inl p, λ q. cc (p, q))
  leased-InRound m (inr h, c) e = inr (h.0, refl, e)

  left-InRound : (m : Mail) → Claimable m → is_among rows m ≡ false → InRound k worker next rows m
  left-InRound m (inl p, c) e = inl (inl p, λ q. cc (p, q))
  left-InRound m (inr h, c) e = absurd (cc (c h.3, e))

-- One round tries every mail that waits once more.
dispatch_once-Tried :
    (k now worker batch next : ℕ) (deliver : Mail → Delivery) (w : World)
    → 1 ≤ batch
    → length w.db.outbox ≤ batch
    → InTime next deliver
    → All (Tried k now) w.db.outbox
    → All (Tried (k + 1) next) (after (dispatch_once worker deliver batch now w)).db.outbox
unfolding dispatch_once claim
dispatch_once-Tried k now worker batch next deliver w pos fits in_time h =
    let rows = claimed_rows batch now w.db.outbox in
    let positive : leb 1 batch ≡ true = ground (arith, pos) in
    let all_claimed =
      All-update_where (Claimable k now worker next rows) (InRound k worker next rows)
        (is_among rows) (leased worker now) w.db.outbox (leased-InRound k now worker next rows)
        (left-InRound k now worker next rows)
        (All-both (Tried k now) (λ m. is_claimable now m ≡ true → is_among rows m ≡ true)
          w.db.outbox h (claimed-among batch now w.db.outbox fits)) in
    let start = record w {
      db = record w.db { outbox = claim_mails worker batch now w.db.outbox };
    } in
    rw positive (
      All-weaken (Free k next worker) (Tried (k + 1) next) _ (λ m f. f.0)
        (finalized k next worker deliver rows 0 start in_time
          (claimed-Fresh k now batch w.db.outbox h) all_claimed))

finalize_all-length :
    (worker : ℕ) (deliver : Mail → Delivery) (rows : List Mail) (n : ℕ) (w : World)
    → length (after (finalize_all worker deliver rows n w)).db.outbox ≡ length w.db.outbox
unfolding finalize_row
finalize_all-length worker deliver [] n w = refl
finalize_all-length worker deliver (row ∷ rows) n w =
    finalize_all-length worker deliver rows _ _
    ∙ length-update_where (is_held_by worker row.id) (outcome_row (deliver row) row.attempts)
        w.db.outbox

dispatch_once-length :
    (worker batch now : ℕ) (deliver : Mail → Delivery) (w : World)
    → 1 ≤ batch
    → length (after (dispatch_once worker deliver batch now w)).db.outbox ≡ length w.db.outbox
unfolding dispatch_once claim
dispatch_once-length worker batch now deliver w pos =
    let positive : leb 1 batch ≡ true = ground (arith, pos) in
    rw positive (
      finalize_all-length worker deliver (claimed_rows batch now w.db.outbox) 0 _
      ∙ length-update_where (is_among (claimed_rows batch now w.db.outbox)) (leased worker now)
          w.db.outbox)

-- A round of the loop: who works, when it starts, and what the transport does.
pub record Round : Type 0 where
  pub worker : ℕ
  pub now : ℕ
  pub deliver : Mail → Delivery

abbrev pub start_of : List Round → ℕ → ℕ
start_of [] finish = finish
start_of (r ∷ rs) finish = r.now

-- Each round starts half an hour after the last write of the one before it, or later.
abbrev pub Spaced : List Round → ℕ → Type 0
Spaced [] finish = Unit
Spaced (r ∷ rs) finish = InTime (start_of rs finish) r.deliver × Spaced rs finish

abbrev pub run_rounds : ℕ → List Round → World → World
run_rounds batch [] w = w
run_rounds batch (r ∷ rs) w =
    run_rounds batch rs (after (dispatch_once r.worker r.deliver batch r.now w))

rounds-Tried :
    (k batch finish : ℕ) (rs : List Round) (w : World)
    → 1 ≤ batch
    → length w.db.outbox ≤ batch
    → Spaced rs finish
    → All (Tried k (start_of rs finish)) w.db.outbox
    → All (Tried (k + length rs) finish) (run_rounds batch rs w).db.outbox
rounds-Tried k batch finish [] w pos fits sp h =
    subst (λ n. All (Tried n finish) w.db.outbox) (omega arith) h
rounds-Tried k batch finish (r ∷ rs) w pos fits sp h =
    let w' = after (dispatch_once r.worker r.deliver batch r.now w) in
    let kept = dispatch_once-length r.worker batch r.now r.deliver w pos in
    let rest = rounds-Tried (k + 1) batch finish rs w' pos (omega (arith, fits, kept)) sp.1 (
      dispatch_once-Tried k r.now r.worker batch (start_of rs finish) r.deliver w pos fits sp.0
        h) in
    subst (λ n. All (Tried n finish) (run_rounds batch rs w').db.outbox) (omega arith) rest

-- Five rounds, each half an hour after the last write of the one before it or later, with a batch that holds
-- the outbox, leave no mail pending, whatever the transport does and whichever workers run them: from an
-- outbox whose pending mails have been tried fewer than five times and may be claimed.
pub rounds_drain :
    (batch finish : ℕ) (rs : List Round) (w : World)
    → length rs ≡ 5
    → 1 ≤ batch
    → length w.db.outbox ≤ batch
    → Spaced rs finish
    → All (Tried 0 (start_of rs finish)) w.db.outbox
    → All (λ m. is_pending m ≡ false) (run_rounds batch rs w).db.outbox
rounds_drain batch finish rs w five pos fits sp h =
    All-weaken (Tried (0 + length rs) finish) (λ m. is_pending m ≡ false)
      (run_rounds batch rs w).db.outbox
      (λ m t. elim t [ inl p ↦ p | inr q ↦ absurd (omega (arith, q.1, q.2, five)) ])
      (rounds-Tried 0 batch finish rs w pos fits sp h)
