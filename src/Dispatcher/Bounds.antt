-- ===== src/Dispatcher/Bounds.antt =====
-- backend/v2/task_dispatcher.py: the running account that a claim takes, and its limit.
use agent_craft.Prelude.{
  ℕ, ◌+◌, ◌≡◌, ◌≤◌, refl, ◌⊎◌, inl, inr, true, Option, none, some, arith, ==-refl,
}
use agent_craft.Model.Rows.{Db, UserQuota}
use agent_craft.Model.Tx.{Exn, candidate_dropped, integrity_error, other_constraint}
use agent_craft.Logic.{Post, Triple}
use agent_craft.Ledger.Accounting.{usage_of}
use agent_craft.Ledger.Charging.{insert_then, got, took_then, took_last, counted}
use agent_craft.Ledger.Claiming.{leased}
use agent_craft.Service.Quota.{below_quota}
use agent_craft.Dispatcher.Claim.{take_running_account, charge_running}

abbrev pub ClaimError : Exn → Type 0
ClaimError e = (e ≡ candidate_dropped) ⊎ (e ≡ integrity_error other_constraint)

-- The user has a quota row, and runs no more tasks than it allows.
pub record WithinRunning (owner : ℕ) (s : Db) : Type 0 where
  pub limit : UserQuota
  pub quota : s.quotas owner ≡ some limit
  pub fits : (usage_of (s.usage owner)).running_tasks ≤ limit.max_running_tasks

fits_after :
    (owner n : ℕ) (s : Db) (o : Option UserQuota)
    → s.quotas owner ≡ o
    → below_quota o (λ l. l.max_running_tasks) n ≡ true
    → (usage_of (s.usage owner)).running_tasks ≡ n + 1
    → WithinRunning owner s
fits_after owner n s none e b u = cc
fits_after owner n s (some l) e b u = record { limit = l; quota = e; fits = ground (arith, b, u) }

within :
    (owner t rid until : ℕ) (s : Db)
    → Triple ClaimError
        (λ x. x ≡ s)
        (take_running_account owner t rid until)
        (λ _. WithinRunning owner)
unfolding take_running_account charge_running
within owner t rid until s = insert_then _ s _ (inr refl) λ c.
    took_then _ _ _ _ (inl refl) (got _ _ (counted owner _ _ _)) _ λ a.
      took_last _ _ _ _ (inl refl) (leased t until _) (WithinRunning owner) (λ b.
        fits_after owner a.0.running_tasks _ (s.quotas owner) refl a.2
          (ground (arith, ==-refl owner)))

-- In any state, taking the running account of a claim either leaves the user with no more running tasks
-- than the user's quota allows, or it is refused: the candidate is dropped, or the reservation violates a
-- constraint.
pub take_running_account-WithinRunning :
    (owner t rid until : ℕ) (s : Db)
    → Post ClaimError
        (λ (_ : Unit {0}). WithinRunning owner)
        (take_running_account owner t rid until s)
take_running_account-WithinRunning owner t rid until s = (within owner t rid until s).at s refl
