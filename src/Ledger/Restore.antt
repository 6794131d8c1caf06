-- ===== src/Ledger/Restore.antt =====
-- backend/v2/task_release.py: release_task_holdings on a task whose status has just been written.
use agent_craft.Prelude.{
  ℕ, ◌≡◌, refl, sym, subst, Bool, true, false, Option, none, some, [], ◌++◌, if◌then◌else◌,
  Bool-cases, inl, inr, arith,
}
use mathlib.Core.List.{append-nil}
use agent_craft.Model.Words.{TaskStatus, Kind, is_kind, is_status, status_in}
use agent_craft.Model.Rows.{Db, Task}
use agent_craft.Model.Tx.{pure, get, require_some, ◌>>=◌}
use agent_craft.Table.{find_task, parse_id, visible}
use agent_craft.Release.{
  release_reservations, apply_release_accounting, release_by_status, release_task_holdings,
  released_rows, terminal_non_deleted, any_kind,
}
use agent_craft.Logic.{Post, NoError, Triple, Triple-bind, Triple-pure, Triple-if, Triple-known}
use agent_craft.Ledger.Sums.{after_release}
use agent_craft.Ledger.Invariant.{profile, profiles, owner_of, BeforeRelease}
use agent_craft.Ledger.Taken.{Taken-all, Taken-running, Taken-both}
use agent_craft.Ledger.Releasing.{Fits, Released, paid_lem}

-- What `UPDATE ... RETURNING` returns and leaves.
pub release_reservations-Triple :
    (t : ℕ) (kinds : Kind → Bool) (s : Db)
    → Triple NoError
        (λ x. x ≡ s)
        (release_reservations t kinds)
        (λ rows x.
          (rows ≡ released_rows t kinds s.reservations)
          × (x ≡ record s { reservations = after_release t kinds s.reservations }))
unfolding release_reservations
release_reservations-Triple t kinds s = record {
  at = λ x e.
      subst
        (λ y.
          (released_rows t kinds y.reservations ≡ released_rows t kinds s.reservations)
          × (record y { reservations = after_release t kinds y.reservations }
              ≡ record s { reservations = after_release t kinds s.reservations }))
        (sym e) (refl, refl);
}

fits :
    (row : Task) (act all : Bool)
    → (is_status TaskStatus.deleted row.status ≡ all)
    → ((if all then true else status_in row.status terminal_non_deleted) ≡ act)
    → Fits (profile (some row)) act all
fits row act all e f = record {
  keeps = λ x. ground arith;
  loses = λ x. ground arith;
  clears = λ x. ground arith;
}

module _ (s : Db) (t u : ℕ) (row : Task) (found : s.tasks t ≡ some row)
    (h : BeforeRelease u t s) where
  ok_row : (act all : Bool) → Fits (profile (some row)) act all → Fits (profile (s.tasks t)) act all
  ok_row act all f = subst (λ (r : Option Task). Fits (profile r) act all) (sym found) f

  deleted_branch :
      is_status TaskStatus.deleted row.status ≡ true
      → Triple NoError
          (λ x. x ≡ s)
          (release_reservations t any_kind >>= λ rows. apply_release_accounting t u rows true)
          (λ a x. Released s a x)
  deleted_branch e = Triple-bind _ _ _ (release_reservations-Triple t any_kind s) λ rows.
      Triple-known (λ rows. apply_release_accounting t u rows true) rows _ _
        (paid_lem s t u true true true _ _ h (ok_row true true (fits row true true e refl))
          (Taken-all (profiles s) t u h.owned s.reservations h.rows))

  live_branch :
      is_status TaskStatus.deleted row.status ≡ false
      → status_in row.status terminal_non_deleted ≡ false
      → Triple NoError
          (λ x. x ≡ s)
          (release_reservations t (is_kind Kind.running) >>= λ rows.
            pure [] >>= λ more. apply_release_accounting t u (rows ++ more) false)
          (λ a x. Released s a x)
  live_branch e f =
      Triple-bind _ _ _ (release_reservations-Triple t (is_kind Kind.running) s) λ rows.
        Triple-known (λ rows. pure [] >>= λ more. apply_release_accounting t u (rows ++ more) false)
          rows _ _
          (Triple-bind (λ more x. (more ≡ []) × (x ≡ base)) _ _ (Triple-pure _ (λ x e. (refl, e)))
            λ more.
              Triple-known
                (λ more.
                  apply_release_accounting t u
                    (released_rows t (is_kind Kind.running) s.reservations ++ more) false)
                more [] base
                (rw append-nil (
                  paid_lem s t u false false false _ _ h
                    (ok_row false false (fits row false false e f))
                    (Taken-running (profiles s) t u h.owned s.reservations h.rows))))
    where
      base : Db
      base = record s { reservations = after_release t (is_kind Kind.running) s.reservations }

  terminal_branch :
      is_status TaskStatus.deleted row.status ≡ false
      → status_in row.status terminal_non_deleted ≡ true
      → Triple NoError
          (λ x. x ≡ s)
          (release_reservations t (is_kind Kind.running) >>= λ rows.
            release_reservations t (is_kind Kind.active) >>= λ more.
            apply_release_accounting t u (rows ++ more) false)
          (λ a x. Released s a x)
  terminal_branch e f =
      Triple-bind _ _ _ (release_reservations-Triple t (is_kind Kind.running) s) λ rows.
        Triple-known
          (λ rows. release_reservations t (is_kind Kind.active) >>= λ more.
            apply_release_accounting t u (rows ++ more) false)
          rows _ _
          (Triple-bind _ _ _ (release_reservations-Triple t (is_kind Kind.active) _) λ more.
            Triple-known
              (λ more.
                apply_release_accounting t u
                  (released_rows t (is_kind Kind.running) s.reservations ++ more) false)
              more _ _
              (paid_lem s t u true false false _ _ h (ok_row true false (fits row true false e f))
                (Taken-both (profiles s) t u h.owned s.reservations h.rows)))

  by_status : Triple NoError (λ x. x ≡ s) (release_by_status t u (some row)) (λ a x. Released s a x)
  unfolding release_by_status
  by_status = Triple-if _ _ _ deleted_branch λ e.
      elim (Bool-cases (status_in row.status terminal_non_deleted)) [
        | inl f ↦ rw f (terminal_branch e f)
        | inr f ↦ rw f (live_branch e f)
      ]

-- A task that is owned is visible to its owner.
pub visible-owned :
    (o : Option Task) (u : ℕ)
    → owner_of (profile o) ≡ some u
    → (row : Task) × (o ≡ some row) × (visible u o ≡ some row)
visible-owned none u h = cc
visible-owned (some row) u h = (row, refl, ground arith)

module _ (s : Db) (t u : ℕ) (h : BeforeRelease u t s) where
  at_state : Post NoError (Released s) (release_by_status t u (find_task u t s) s)
  at_state =
      let seen = visible-owned (s.tasks t) u h.owned in
      subst (λ o. Post NoError (Released s) (release_by_status t u o s)) (sym seen.2)
        ((by_status s t u seen.0 seen.1 h).at s refl)

  -- release_task_holdings from a state that lacks only the release of `t`.
  pub release_task_holdings-Triple :
      Triple NoError
        (λ x. x ≡ s)
        (release_task_holdings u (some t) (some u))
        (λ a x. Released s a x)
  unfolding release_task_holdings ◌>>=◌ parse_id require_some get
  release_task_holdings-Triple = record {
    at = λ x e.
        subst (λ y. Post NoError (Released s) (release_by_status t u (find_task u t y) y)) (sym e)
          at_state;
  }

-- On a task `t` of `owner` for which only the release is missing, release_task_holdings returns without
-- an error, the accounts agree in the state that it leaves, and it has written the reservations, the
-- usage, the slots and the platform's storage only.
pub release_restores :
    (s : Db) (t owner : ℕ)
    → BeforeRelease owner t s
    → Post NoError (Released s) (release_task_holdings owner (some t) (some owner) s)
release_restores s t owner h = (release_task_holdings-Triple s t owner h).at s refl
