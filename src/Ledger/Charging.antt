-- ===== src/Ledger/Charging.antt =====
-- The statements that charge an account, each with the state that it leaves if it took.
use agent_craft.Prelude.{
  ℕ, ◌+◌, ◌≡◌, refl, subst, sym, Bool, true, false, Option, none, some, [], ◌∷◌, ◌++◌, arith,
  is_none, Bool-cases, inl, inr, ltb,
}
use agent_craft.Model.Words.{Kind, ReservationState}
use agent_craft.Model.Rows.{Db, Reservation, UserQuotaUsage, PlatformStorage}
use agent_craft.Model.Tx.{Tx, Exn, get, require, put, ◌>>=◌, other_constraint}
use agent_craft.Table.{has, clashes, insert_reservation, set_row}
use agent_craft.Release.{update_usage, update_usage_row, update_storage}
use agent_craft.Service.Commit.{charge_storage}
use agent_craft.Logic.{AnyError, Post, Triple, Triple-bind, Triple-require}
use agent_craft.Ledger.Invariant.{profiles, Balanced, owner_of, row_is, live_status}
use agent_craft.Ledger.Growing.{grown}

-- A transaction from one known state.
pub from_state :
    {A : Type 0} {E : Exn → Type 0} {Q : A → Db → Type 0} {m : Tx A} (s : Db)
    → Post E Q (m s)
    → Triple E (λ x. x ≡ s) m Q
from_state {E = E} {Q = Q} {m = m} s h = record {
  at = λ x e. subst (λ y. Post E Q (m y)) (sym e) h;
}

pub got :
    {A : Type 0} {E : Exn → Type 0} {Q : A → Db → Type 0} (f : Db → Tx A) (s : Db)
    → Triple E (λ x. x ≡ s) (f s) Q
    → Triple E (λ x. x ≡ s) (get >>= f) Q
unfolding get ◌>>=◌
got f s h = from_state s (h.at s refl)

-- The states that an update may leave if it took a row.
abbrev pub Took : (X : Type 0) → (X → Db) → ℕ → Db → Type 0
Took X g n x = ltb 0 n ≡ true → (a : X) × (x ≡ g a)

module _ {X : Type 0} {E : Exn → Type 0} (g : X → Db) (s : Db) (m : Tx ℕ) (e : Exn) (he : E e)
    (hm : Triple E (λ x. x ≡ s) m (Took X g)) where
  pub took_then :
      {B : Type 0} {Q : B → Db → Type 0} (k : Unit {0} → Tx B)
      → ((a : X) → Triple E (λ x. x ≡ g a) (k tt) Q)
      → Triple E (λ x. x ≡ s) (m >>= λ n. require (ltb 0 n) e >>= k) Q
  took_then k h =
      Triple-bind (Took X g) _ _ hm
        λ n. Triple-require _ _ _ he λ t. record { at = λ x c. let r = c t in (h r.0).at x r.1 }

  pub took_last :
      (Q : Db → Type 0)
      → ((a : X) → Q (g a))
      → Triple E (λ x. x ≡ s) (m >>= λ n. require (ltb 0 n) e) (λ _. Q)
  unfolding require
  took_last Q h = Triple-bind (Took X g) _ _ hm λ n. elim (Bool-cases (ltb 0 n)) [
    | inl t ↦ rw t (record { at = λ x c. let r = c t in subst Q (sym r.1) (h r.0) })
    | inr t ↦ rw t (record { at = λ x c. he })
  ]

inserted_at :
    (E : Exn → Type 0) (r : Reservation) (s : Db)
    → E (Exn.integrity_error other_constraint)
    → Post E
        (λ _ x.
          (has (clashes r) s.reservations ≡ false)
          × (x ≡ record s { reservations = s.reservations ++ r ∷ [] }))
        (insert_reservation r s)
unfolding insert_reservation get put require ◌>>=◌
inserted_at E r s he = elim (Bool-cases (is_none (s.tasks r.task_id))) [
  | inl e ↦ rw e he
  | inr e ↦ rw e (elim (Bool-cases (has (clashes r) s.reservations)) [
    | inl c ↦ rw c he
    | inr c ↦ rw c (refl, refl)
  ])
]

pub insert_then :
    {B : Type 0} {E : Exn → Type 0} {Q : B → Db → Type 0} (r : Reservation) (s : Db)
    (k : Unit {0} → Tx B)
    → E (Exn.integrity_error other_constraint)
    → (has (clashes r) s.reservations ≡ false
        → Triple E (λ x. x ≡ record s { reservations = s.reservations ++ r ∷ [] }) (k tt) Q)
    → Triple E (λ x. x ≡ s) (insert_reservation r >>= k) Q
insert_then r s k he h =
    Triple-bind _ _ _ (from_state s (inserted_at _ r s he))
      λ _. record { at = λ x c. (h c.0).at x c.1 }

abbrev pub Row : ℕ → (UserQuotaUsage → Bool) → Db → Type 0
Row u guard s = (q : UserQuotaUsage) × (s.usage u ≡ some q) × (guard q ≡ true)

abbrev pub with_row :
    (u : ℕ) (guard : UserQuotaUsage → Bool)
    → (UserQuotaUsage → UserQuotaUsage)
    → (s : Db) → Row u guard s
    → Db
with_row u guard f s a = record s { usage = set_row s.usage u (some (f a.0)) }

-- UPDATE user_quota_usage took the user's row, which met the guard.
module _ (E : Exn → Type 0) (u : ℕ) (guard : UserQuotaUsage → Bool)
    (f : UserQuotaUsage → UserQuotaUsage) (s : Db) where
  counted_at :
      (o : Option UserQuotaUsage)
      → s.usage u ≡ o
      → Post E (Took (Row u guard s) (with_row u guard f s)) (update_usage_row o guard f u s)
  counted_at none e = λ x. cc
  counted_at (some q) e = elim (Bool-cases (guard q)) [
    | inl g ↦ rw g (λ _. ((q, e, g), refl))
    | inr g ↦ rw g (λ x. cc)
  ]

pub counted :
    {E : Exn → Type 0} (u : ℕ) (guard : UserQuotaUsage → Bool) (f : UserQuotaUsage → UserQuotaUsage)
    (s : Db)
    → Triple E (λ x. x ≡ s) (update_usage u guard f) (Took (Row u guard s) (with_row u guard f s))
unfolding update_usage
counted {E} u guard f s = from_state s (counted_at E u guard f s (s.usage u) refl)

pub stored :
    {E : Exn → Type 0} (guard : PlatformStorage → Bool) (f : PlatformStorage → PlatformStorage)
    (s : Db)
    → Triple E
        (λ x. x ≡ s)
        (update_storage guard f)
        (Took (guard s.storage ≡ true) (λ _. record s { storage = f s.storage }))
unfolding update_storage
stored guard f s = from_state s (elim (Bool-cases (guard s.storage)) [
  | inl g ↦ rw g (λ _. (refl, refl))
  | inr g ↦ rw g (λ x. cc)
])

-- The storage reservation with its two increments.
module _ (owner t rid n : ℕ) (s : Db) (h : Balanced s) (o : owner_of (profiles s t) ≡ some owner)
    (l : row_is live_status (profiles s t) ≡ true) where
  abbrev root_row : Reservation
  root_row = record {
    id = rid;
    task_id = t;
    user_id = owner;
    kind = Kind.task_root;
    bytes = n;
    state = ReservationState.held;
  }

  stored_root :
      (q : UserQuotaUsage)
      → s.usage owner ≡ some q
      → has (clashes root_row) s.reservations ≡ false
      → Balanced (record s {
        reservations = s.reservations ++ root_row ∷ [];
        usage =
            set_row s.usage owner
              (some (record q { retained_storage_bytes = q.retained_storage_bytes + n }));
        storage = record s.storage {
          retained_storage_bytes = s.storage.retained_storage_bytes + n;
        };
      })
  stored_root q e c =
      grown (profiles s) root_row s.reservations _ _ _ _ _ _
        (record {
          held = refl;
          row = (o, refl);
          fresh = c;
          active = λ v. ground (arith, e);
          running = λ v. ground (arith, e);
          bytes = λ v. ground (arith, e);
          platform = refl;
          slot = λ k. ground arith;
          live = l;
          runs = λ k. cc;
          passive = refl;
        })
        h

  pub charge_storage-Triple :
      Triple AnyError (λ x. x ≡ s) (charge_storage owner t rid n) (λ _. Balanced)
  unfolding charge_storage
  charge_storage-Triple = insert_then root_row s _ tt λ c. got _ _ (
      took_then _ _ _ _ tt (counted owner _ _ _) _
        λ a. took_last _ _ _ _ tt (stored _ _ _) Balanced (λ _. stored_root a.0 a.1 c))
