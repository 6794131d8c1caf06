-- ===== src/Service/Bounds.antt =====
-- backend/v2/task_service.py: the storage that commit_input charges, and its limits.
use agent_craft.Prelude.{ℕ, ◌≡◌, refl, ◌⊎◌, inl, inr, true, leb, ==-refl}
use agent_craft.Model.Words.{quota_storage_exceeded}
use agent_craft.Model.Rows.{Db}
use agent_craft.Model.Tx.{Exn, app_error, integrity_error, other_constraint}
use agent_craft.Logic.{Post, Triple}
use agent_craft.Ledger.Accounting.{usage_of}
use agent_craft.Ledger.Charging.{insert_then, got, took_then, took_last, counted, stored}
use agent_craft.Service.Commit.{charge_storage, within_quota}

-- The user's account and the platform's are within their limits.
pub record WithinStorage (owner : ℕ) (s : Db) : Type 0 where
  pub user : within_quota (s.quotas owner) (usage_of (s.usage owner)).retained_storage_bytes ≡ true
  pub platform : leb s.storage.retained_storage_bytes s.storage.max_retained_storage_bytes ≡ true

abbrev pub ChargeError : Exn → Type 0
ChargeError e = (e ≡ app_error quota_storage_exceeded 429) ⊎ (e ≡ integrity_error other_constraint)

within :
    (owner t rid n : ℕ) (s : Db)
    → Triple ChargeError (λ x. x ≡ s) (charge_storage owner t rid n) (λ _. WithinStorage owner)
unfolding charge_storage
within owner t rid n s = insert_then _ s _ (inr refl) λ c. got _ _ (
    took_then _ _ _ _ (inl refl) (counted owner _ _ _) _ λ a.
      took_last _ _ _ _ (inl refl) (stored _ _ _) (WithinStorage owner)
        (λ b. record { user = rw (==-refl owner) (a.2); platform = b }))

-- In any state, the charge of a commit's storage either leaves the user's retained storage within the
-- user's quota and the platform's within its limit, or it is refused, with QUOTA_STORAGE_EXCEEDED (429)
-- or for a constraint that the reservation violates.
pub charge_storage-WithinStorage :
    (owner t rid n : ℕ) (s : Db)
    → Post ChargeError (λ (_ : Unit {0}). WithinStorage owner) (charge_storage owner t rid n s)
charge_storage-WithinStorage owner t rid n s = (within owner t rid n s).at s refl
