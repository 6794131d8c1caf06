-- ===== src/Ledger/Cleaning.antt =====
-- backend/v2/task_dispatcher.py: the accounts through the retention sweep.
use agent_craft.Prelude.{
  ℕ, ◌≡◌, refl, subst, sym, ap, ◌∙◌, Bool, true, false, ◌||◌, some, List, [], ◌∷◌, if◌then◌else◌,
  arith, ltb, length,
}
use agent_craft.Model.Words.{TaskStatus, Kind}
use agent_craft.Model.Rows.{Db, Reservation}
use agent_craft.Model.Tx.{pure, ◌>>=◌}
use agent_craft.Release.{apply_release_accounting, released_rows, any_kind}
use agent_craft.Dispatcher.Sweep.{delete_history, cleanup_task}
use agent_craft.Logic.{
  Post, NoError, Triple, Triple-bind, Triple-pure, Triple-fix, Triple-known, Triple-if, Triple-post,
}
use agent_craft.Ledger.Sums.{after_release}
use agent_craft.Ledger.Invariant.{
  Ledger, Balanced, Profile, profiles, owner_of, row_is, live_status, BeforeRelease,
}
use agent_craft.Ledger.Steps.{Condition, On}
use agent_craft.Ledger.Taken.{Taken-all}
use agent_craft.Ledger.Releasing.{Fits, paid_lem}
use agent_craft.Ledger.Restore.{release_reservations-Triple}
use agent_craft.Ledger.Background.{before_of}

-- The accounts, with the owner's task in the status `status`.
abbrev pub Standing : ℕ → ℕ → TaskStatus → Condition
Standing owner t status tasks rs usage slots storage =
    Ledger tasks rs usage slots storage × (tasks t ≡ some (owner, status))

-- A release that returns no row changes none.
nothing_hit :
    (t : ℕ) (kinds : Kind → Bool) (rs : List Reservation)
    → ltb 0 (length (released_rows t kinds rs)) ≡ false
    → after_release t kinds rs ≡ rs
nothing_hit t kinds [] e = refl
nothing_hit t kinds (r ∷ rs) e = ground (arith, nothing_hit t kinds rs)

module _ (owner t : ℕ) (status : TaskStatus) (dead : live_status status ≡ false) where
  history-Keeps :
      Triple NoError
        (On (Standing owner t status))
        (delete_history owner t)
        (λ _. On (Standing owner t status))
  unfolding delete_history
  history-Keeps = record { at = λ s h. h }

  all-Fits : (p : Profile) → p ≡ some (owner, status) → Fits p true true
  all-Fits p e = record {
    keeps = λ x. cc (ap (row_is live_status) e);
    loses = λ x. refl;
    clears = λ x. refl;
  }

  module _ (s : Db) (h : On (Standing owner t status) s) where
    before : BeforeRelease owner t s
    before = before_of owner t s h.0 (ap owner_of h.1)

    paid :
        Triple NoError
          (λ x. x ≡ record s { reservations = after_release t any_kind s.reservations })
          (apply_release_accounting t owner (released_rows t any_kind s.reservations) true)
          (λ _. Balanced)
    paid =
        Triple-post _
          (paid_lem s t owner true true true _ _ before (all-Fits _ h.1)
            (Taken-all (profiles s) t owner before.owned s.reservations before.rows))
          (λ a x r. r.0)

    account :
        Triple NoError
          (λ x. x ≡ record s { reservations = after_release t any_kind s.reservations })
          (if ltb 0 (length (released_rows t any_kind s.reservations))
            then apply_release_accounting t owner (released_rows t any_kind s.reservations) true
            else pure tt)
          (λ _. Balanced)
    account =
        Triple-if _ _ (pure tt) (λ _. paid)
          λ e. Triple-pure _ λ x q.
            subst Balanced
              (sym (
                q
                ∙ ap (λ rs. record s { reservations = rs })
                    (nothing_hit t any_kind s.reservations e)))
              h.0

  -- It cannot fail either.
  pub cleanup-Triple :
      Triple NoError (On (Standing owner t status)) (cleanup_task owner t) (λ _. Balanced)
  unfolding cleanup_task
  cleanup-Triple =
      Triple-bind (λ _. On (Standing owner t status)) _ _ history-Keeps
        λ removed. Triple-fix λ s h.
          Triple-bind _ _ _ (release_reservations-Triple t any_kind s) λ out.
            Triple-known
              (λ (x : List (Kind × ℕ)).
                (if ltb 0 (length x) then apply_release_accounting t owner x true else pure tt)
                >>= λ _. pure (removed || ltb 0 (length x)))
              out _ _ (Triple-bind (λ _. Balanced) _ _ (account s h) λ _. Triple-pure _ (λ x q. q))

-- On a task of `owner` that is completed, failed, aborted or deleted, and with accounts that agree, the
-- transaction of the retention sweep returns without an error and leaves accounts that agree.
pub cleanup_restores :
    (owner t : ℕ) (status : TaskStatus) (s : Db)
    → live_status status ≡ false
    → Balanced s
    → profiles s t ≡ some (owner, status)
    → Post NoError (λ (_ : Bool). Balanced) (cleanup_task owner t s)
cleanup_restores owner t status s dead h p = (cleanup-Triple owner t status dead).at s (h, p)
