-- ===== src/Ledger/Flips.antt =====
-- The conditional updates of a task's status, and the release behind one that took.
use agent_craft.Prelude.{
  ℕ, ◌≡◌, refl, sym, ap, subst, ◌∙◌, Bool, true, false, ◌==◌, Option, none, some, if◌then◌else◌,
  arith, Bool-cases, inl, inr, ltb, ==→eq,
}
use agent_craft.Model.Words.{TaskStatus, is_status}
use agent_craft.Model.Rows.{Db, Task}
use agent_craft.Model.Tx.{Tx, ◌>>=◌}
use agent_craft.Table.{
  visible, update_task, update_found, parse_id, set_row, lock_task, hide_deleted,
}
use agent_craft.Release.{release_task_holdings}
use agent_craft.Logic.{
  Post, AnyError, Triple, Triple-pure, Triple-get, Triple-require_some, Triple-total, Triple-post,
  Triple-fix,
}
use agent_craft.Ledger.Invariant.{
  profile, Ledger, Balanced, BeforeRelease, live_status, running_status,
}
use agent_craft.Ledger.Restore.{release_task_holdings-Triple}
use agent_craft.Ledger.Steps.{Condition, On, Keeps, flip-Before, flip_quiet}

-- The state behind a flip: only the release is missing if it took, and nothing if it did not.
pub record Flipped (owner t n : ℕ) (s : Db) : Type 0 where
  pub took : ltb 0 n ≡ true → BeforeRelease owner t s
  pub missed : ltb 0 n ≡ false → Balanced s

module _ (owner t : ℕ) (guard : Task → Bool) (f : Task → Task)
    (same : (x : Task) → (f x).owner_id ≡ x.owner_id) where
  pub new_profiles :
      (s : Db) (x : Task) (k : ℕ)
      → x.owner_id ≡ owner
      → profile (set_row s.tasks t (some (f x)) k)
        ≡ (if t == k then some (owner, (f x).status) else profile (s.tasks k))
  new_profiles s x k e = ground (arith, same x)

  pub old_profile :
      (s : Db) (x : Task)
      → s.tasks t ≡ some x
      → x.owner_id ≡ owner
      → profile (s.tasks t) ≡ some (owner, x.status)
  old_profile s x e o = ap profile e ∙ ground arith

  -- A flip that makes no dead task live.
  module _
      (w : (x : Task)
        → guard x ≡ true
        → live_status (f x).status ≡ true
        → live_status x.status ≡ true) where
    flip_found :
        (s : Db) (o : Option Task)
        → s.tasks t ≡ o
        → Balanced s
        → Post AnyError (Flipped owner t) (update_found (visible owner o) guard f t s)
    flip_found s none e h = record { took = λ x. cc; missed = λ _. h }
    flip_found s (some x) e h = elim (Bool-cases (x.owner_id == owner)) [
      | inr q ↦ rw q (record { took = λ x. cc; missed = λ _. h })
      | inl q ↦ rw q (elim (Bool-cases (guard x)) [
        | inr g ↦ rw g (record { took = λ x. cc; missed = λ _. h })
        | inl g ↦ rw g (record {
          took = λ _.
              flip-Before owner t x.status (f x).status _ _ _ _ _ _
                (old_profile s x e (==→eq _ _ q)) (λ k. new_profiles s x k (==→eq _ _ q)) h (w x g);
          missed = λ x. cc;
        })
      ])
    ]

    pub flip-Triple : Triple AnyError Balanced (update_task owner t guard f) (Flipped owner t)
    unfolding update_task
    flip-Triple = record { at = λ s h. flip_found s (s.tasks t) refl h }

  -- A flip between live states.
  module _ (l : (x : Task) → guard x ≡ true → live_status x.status ≡ true)
      (l' : (x : Task) → guard x ≡ true → live_status (f x).status ≡ true)
      (w : (x : Task)
        → guard x ≡ true
        → running_status (f x).status ≡ false
        → running_status x.status ≡ false) where
    quiet_found :
        (s : Db) (o : Option Task)
        → s.tasks t ≡ o
        → Balanced s
        → Post AnyError (λ (_ : ℕ). Balanced) (update_found (visible owner o) guard f t s)
    quiet_found s none e h = h
    quiet_found s (some x) e h = elim (Bool-cases (x.owner_id == owner)) [
      | inr q ↦ rw q h
      | inl q ↦ rw q (elim (Bool-cases (guard x)) [
        | inr g ↦ rw g h
        | inl g ↦ rw g (
            flip_quiet owner t x.status (f x).status _ _ _ _ _ _ (old_profile s x e (==→eq _ _ q))
              (λ k. new_profiles s x k (==→eq _ _ q)) h (l x g) (l' x g) (w x g))
      ])
    ]

    pub quiet-Keeps : Keeps Balanced (update_task owner t guard f)
    unfolding update_task
    quiet-Keeps = record { at = λ s h. quiet_found s (s.tasks t) refl h }

-- The release after a flip that took.
pub release-Restores :
    (owner t : ℕ)
    → Triple AnyError
        (BeforeRelease owner t)
        (release_task_holdings owner (some t) (some owner))
        (λ _. Balanced)
release-Restores owner t =
    Triple-fix (λ s h.
      Triple-total (Triple-post _ (release_task_holdings-Triple s t owner h) (λ a x r. r.0)))

-- Reading an id or a row, or the whole state, changes nothing.
pub parse-Triple :
    {A : Type 0} {P : Db → Type 0} {Q : A → Db → Type 0} (raw : Option ℕ) (f : ℕ → Tx A)
    → ((k : ℕ) → raw ≡ some k → Triple AnyError P (f k) Q)
    → Triple AnyError P (parse_id raw >>= f) Q
unfolding parse_id
parse-Triple raw f k = Triple-require_some raw _ f tt k

-- The accounts, with the row of a task as it was locked.
abbrev pub Locked : ℕ → ℕ → TaskStatus → Condition
Locked owner t status tasks rs usage slots storage =
    Ledger tasks rs usage slots storage × (tasks t ≡ some (owner, status))

shown : (x task : Task) → hide_deleted (some x) ≡ some task → x.status ≡ task.status
shown x task e = elim (Bool-cases (is_status TaskStatus.deleted x.status)) [
  | inl q ↦ cc (rw q at e)
  | inr q ↦ ap (λ o. elim o [ none ↦ x.status | some y ↦ y.status ]) (rw q at e)
]

locked_row :
    (owner : ℕ) (o : Option Task) (task : Task)
    → hide_deleted (visible owner o) ≡ some task
    → profile o ≡ some (owner, task.status)
locked_row owner none task e = cc
locked_row owner (some x) task e = elim (Bool-cases (x.owner_id == owner)) [
  | inl q ↦ cc (==→eq _ _ q, shown x task (rw q at e))
  | inr q ↦ cc (rw q at e)
]

pub lock_task-Triple :
    (owner : ℕ) (raw : Option ℕ)
    → Triple AnyError Balanced (lock_task owner raw) (λ task. On (Locked owner task.id task.status))
unfolding lock_task
lock_task-Triple owner raw = parse-Triple raw _ λ k _. Triple-get _ λ s h.
    Triple-require_some _ _ _ tt λ task e. Triple-pure _ λ s' q.
      subst (On (Locked owner k task.status)) (sym q) (h, locked_row owner (s.tasks k) task e)

pub lock_task-Keeps : (owner : ℕ) (raw : Option ℕ) → Keeps Balanced (lock_task owner raw)
lock_task-Keeps owner raw = Triple-post _ (lock_task-Triple owner raw) (λ task s h. h.0)
