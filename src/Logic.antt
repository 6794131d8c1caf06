-- ===== src/Logic.antt =====
-- Hoare triples for transactions: from a state where `P` holds, a transaction that returns leaves
-- `Q`, and an exception that it raises satisfies `E`.
use agent_craft.Prelude.{
  ◌≡◌, refl, ap, sym, subst, Bool, true, false, Option, none, some, if◌then◌else◌,
}
use agent_craft.Model.Rows.{Db}
use agent_craft.Model.Tx.{Exn, Result, ok, err, Tx, ◌>>=◌, require, require_some, pure, put, get}

abbrev pub Post : {A : Type 0} → (Exn → Type 0) → (A → Db → Type 0) → Result (A × Db) → Type 0
Post E Q (ok (a, s)) = Q a s
Post E Q (err e) = E e

-- Any exception may be raised; none is.
abbrev pub AnyError : Exn → Type 0
AnyError e = Unit

abbrev pub NoError : Exn → Type 0
NoError e = ⊥

pub record Triple {A : Type 0} (E : Exn → Type 0) (P : Db → Type 0) (m : Tx A) (Q : A → Db → Type 0)
    : Type 0 where
  pub at : (s : Db) → P s → Post E Q (m s)

module _ {A B : Type 0} (E : Exn → Type 0) (Q : B → Db → Type 0) where
  go :
      (R : A → Db → Type 0) (f : A → Tx B) (r : Result (A × Db))
      → Post E R r
      → ((a : A) → Triple E (R a) (f a) Q)
      → Post E Q (elim r [ err e ↦ err e | ok (a, s) ↦ f a s ])
  go R f (ok (a, s)) h k = (k a).at s h
  go R f (err e) h k = h

module _ {A B : Type 0} {E : Exn → Type 0} {P : Db → Type 0} {Q : B → Db → Type 0} where
  pub Triple-bind :
      (R : A → Db → Type 0) (m : Tx A) (f : A → Tx B)
      → Triple E P m R
      → ((a : A) → Triple E (R a) (f a) Q)
      → Triple E P (m >>= f) Q
  unfolding ◌>>=◌
  Triple-bind R m f h k = record { at = λ s p. go E Q R f (m s) (h.at s p) k }

module _ {A : Type 0} {E : Exn → Type 0} {P : Db → Type 0} {Q : A → Db → Type 0} where
  pub Triple-pure : (a : A) → ((s : Db) → P s → Q a s) → Triple E P (pure a) Q
  unfolding pure
  Triple-pure a h = record { at = h }

  pub Triple-if :
      (b : Bool) (m n : Tx A)
      → (b ≡ true → Triple E P m Q)
      → (b ≡ false → Triple E P n Q)
      → Triple E P (if b then m else n) Q
  Triple-if true m n hm hn = hm refl
  Triple-if false m n hm hn = hn refl

  pub Triple-require :
      (b : Bool) (e : Exn) (f : Unit {0} → Tx A)
      → E e
      → (b ≡ true → Triple E P (f tt) Q)
      → Triple E P (require b e >>= f) Q
  unfolding require ◌>>=◌
  Triple-require true e f he k = record { at = (k refl).at }
  Triple-require false e f he k = record { at = λ s p. he }

  pub Triple-require_some :
      {C : Type 0} (o : Option C) (e : Exn) (f : C → Tx A)
      → E e
      → ((c : C) → o ≡ some c → Triple E P (f c) Q)
      → Triple E P (require_some o e >>= f) Q
  unfolding require_some ◌>>=◌
  Triple-require_some none e f he k = record { at = λ s p. he }
  Triple-require_some (some c) e f he k = record { at = (k c refl).at }

  -- The state that `get` reads is fixed for the rest of the block.
  pub Triple-get :
      (f : Db → Tx A)
      → ((s : Db) → P s → Triple E (λ s'. s' ≡ s) (f s) Q)
      → Triple E P (get >>= f) Q
  unfolding get ◌>>=◌
  Triple-get f k = record { at = λ s p. (k s p).at s refl }

  pub Triple-pre :
      (P' : Db → Type 0) {m : Tx A} → ((s : Db) → P s → P' s) → Triple E P' m Q → Triple E P m Q
  Triple-pre P' w h = record { at = λ s p. h.at s (w s p) }

  -- A triple is proved state by state.
  pub Triple-fix : {m : Tx A} → ((s : Db) → P s → Triple E (λ s'. s' ≡ s) m Q) → Triple E P m Q
  Triple-fix k = record { at = λ s p. (k s p).at s refl }

module _ {A : Type 0} (E : Exn → Type 0) (Q : A → Db → Type 0) where
  weaken :
      (R : A → Db → Type 0) (r : Result (A × Db))
      → Post E R r
      → ((a : A) (s : Db) → R a s → Q a s)
      → Post E Q r
  weaken R (ok (a, s)) h k = k a s h
  weaken R (err e) h k = h

  total : (r : Result (A × Db)) → Post NoError Q r → Post E Q r
  total (ok (a, s)) h = h
  total (err e) h = absurd h

module _ {A : Type 0} {E : Exn → Type 0} {P : Db → Type 0} {Q : A → Db → Type 0} where
  pub Triple-post :
      (R : A → Db → Type 0) {m : Tx A}
      → Triple E P m R
      → ((a : A) (s : Db) → R a s → Q a s)
      → Triple E P m Q
  Triple-post R {m} h k = record { at = λ s p. weaken E Q R (m s) (h.at s p) k }

  -- A transaction that never fails meets any condition on exceptions.
  pub Triple-total : {m : Tx A} → Triple NoError P m Q → Triple E P m Q
  Triple-total {m} h = record { at = λ s p. total E Q (m s) (h.at s p) }

module _ {E : Exn → Type 0} {P : Db → Type 0} {Q : Unit {0} → Db → Type 0} where
  pub Triple-put : (s' : Db) → ((s : Db) → P s → Q tt s') → Triple E P (put s') Q
  unfolding put
  Triple-put s' h = record { at = h }

-- A value and a state that are known are put in for the variables of the rest of a block.
module _ {A B : Type 0} {E : Exn → Type 0} {Q : B → Db → Type 0} where
  pub Triple-known :
      (f : A → Tx B) (a a0 : A) (s0 : Db)
      → Triple E (λ x. x ≡ s0) (f a0) Q
      → Triple E (λ x. (a ≡ a0) × (x ≡ s0)) (f a) Q
  Triple-known f a a0 s0 h = record {
    at = λ x r. subst (λ b. Post E Q (f b x)) (sym r.0) (h.at x r.1);
  }

-- A fact that does not depend on the state is put aside.
pub Triple-fact :
    {A : Type 0} {E : Exn → Type 0} {P : Db → Type 0} {Q : A → Db → Type 0} {X : Type 0} {m : Tx A}
    → (X → Triple E P m Q)
    → Triple E (λ s. X × P s) m Q
Triple-fact k = record { at = λ s h. (k h.0).at s h.1 }

-- A block whose first transaction is known to return, or to fail.
pub bind_at :
    {A B : Type 0} (m : Tx A) (f : A → Tx B) (s s' : Db) (a : A)
    → m s ≡ ok (a, s')
    → (m >>= f) s ≡ f a s'
unfolding ◌>>=◌
bind_at {A} {B} m f s s' a e =
    ap
      (λ (r : Result (A × Db)). elim r as (λ _. Result (B × Db)) [
        | err x ↦ err x
        | ok (y, t) ↦ f y t
      ])
      e

pub bind_err :
    {A B : Type 0} (m : Tx A) (f : A → Tx B) (s : Db) (x : Exn) → m s ≡ err x → (m >>= f) s ≡ err x
unfolding ◌>>=◌
bind_err {A} {B} m f s x e =
    ap
      (λ (r : Result (A × Db)). elim r as (λ _. Result (B × Db)) [
        | err y ↦ err y
        | ok (y, t) ↦ f y t
      ])
      e
