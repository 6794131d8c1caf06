-- ===== src/Prelude/Lists.antt =====
-- Lists measured by native numbers, sums over them, and a predicate on every element.
use Prim.Native.Nat.{ℕ, suc, ◌+◌, ◌≤◌}
use mathlib.Core.Path.{◌≡◌, refl, subst}
use mathlib.Core.Logic.{inl, inr}
use mathlib.Core.List.{List, [], ◌∷◌, ◌++◌}
use mathlib.Core.Bool.{Bool, true, false, ◌||◌, ◌&&◌}
use mathlib.Core.Option.{Option, none, some}
use native.Mathlib.Omega.{arith}
use agent_craft.Prelude.Tests.{if◌then◌else◌, Bool-cases, some_inj}

or_true : (b : Bool) → (b || true) ≡ true
or_true true = refl
or_true false = refl

module _ {ℓ} {A : Type ℓ} where
  abbrev pub length : List A → ℕ
  length [] = 0
  length (x ∷ xs) = suc (length xs)

  -- Σ over the rows, as SQL's `sum` and `count` compute it.
  abbrev pub total : (A → ℕ) → List A → ℕ
  total w [] = 0
  total w (x ∷ xs) = w x + total w xs

  -- The rows for which a test holds, in order.
  abbrev pub select : (A → Bool) → List A → List A
  select p [] = []
  select p (x ∷ xs) = let rest = select p xs in if p x then x ∷ rest else rest

  -- Rewrites the rows for which a test holds.
  abbrev pub update_where : (A → Bool) → (A → A) → List A → List A
  update_where p f [] = []
  update_where p f (x ∷ xs) = (if p x then f x else x) ∷ update_where p f xs

  -- The first row for which a test holds.
  abbrev pub find : (A → Bool) → List A → Option A
  find p [] = none
  find p (x ∷ xs) = let rest = find p xs in if p x then some x else rest

  abbrev pub any : (A → Bool) → List A → Bool
  any p [] = false
  any p (x ∷ xs) = p x || any p xs

  -- How many rows a test holds for: the rowcount of a statement.
  abbrev pub count : (A → Bool) → List A → ℕ
  count p xs = length (select p xs)

  pub find-append :
      (p : A → Bool) (xs ys : List A) → any p xs ≡ false → find p (xs ++ ys) ≡ find p ys
  find-append p [] ys h = refl
  find-append p (x ∷ xs) ys h = elim (Bool-cases (p x)) [
    | inl e ↦ absurd (cc (simp e at h))
    | inr e ↦ rw e (find-append p xs ys (simp e at h))
  ]

  pub find-any : (p : A → Bool) (xs : List A) → any p xs ≡ false → find p xs ≡ none
  find-any p [] h = refl
  find-any p (x ∷ xs) h = elim (Bool-cases (p x)) [
    | inl e ↦ absurd (cc (simp e at h))
    | inr e ↦ rw e (find-any p xs (simp e at h))
  ]

  pub any-narrow :
      (p q : A → Bool) (xs : List A) → any p xs ≡ false → any (λ x. p x && q x) xs ≡ false
  any-narrow p q [] h = refl
  any-narrow p q (x ∷ xs) h = elim (Bool-cases (p x)) [
    | inl e ↦ absurd (cc (simp e at h))
    | inr e ↦ rw e (any-narrow p q xs (simp e at h))
  ]

  pub find-holds : (p : A → Bool) (xs : List A) (a : A) → find p xs ≡ some a → p a ≡ true
  find-holds p [] a h = absurd (cc h)
  find-holds p (x ∷ xs) a h = elim (Bool-cases (p x)) [
    | inl e ↦ cc (e, simp e at h)
    | inr e ↦ find-holds p xs a (simp e at h)
  ]

  pub select-append :
      (p : A → Bool) (xs ys : List A) → select p (xs ++ ys) ≡ select p xs ++ select p ys
  select-append p [] ys = refl
  select-append p (x ∷ xs) ys = elim (Bool-cases (p x)) [
    | inl h ↦ rw (h, select-append p xs ys) refl
    | inr h ↦ rw (h, select-append p xs ys) refl
  ]

  pub length-append : (xs ys : List A) → length (xs ++ ys) ≡ length xs + length ys
  length-append [] ys = omega arith
  length-append (x ∷ xs) ys = omega (arith, length-append xs ys)

  pub total-append : (w : A → ℕ) (xs ys : List A) → total w (xs ++ ys) ≡ total w xs + total w ys
  total-append w [] ys = omega arith
  total-append w (x ∷ xs) ys = omega (arith, total-append w xs ys)

abbrev pub All {ℓ κ} : {A : Type ℓ} → (A → Type κ) → List A → Type κ
All P [] = Unit
All P (x ∷ xs) = P x × All P xs

pub All-append {ℓ κ} :
    {A : Type ℓ} (P : A → Type κ) (xs ys : List A) → All P xs → All P ys → All P (xs ++ ys)
All-append P [] ys hx hy = hy
All-append P (x ∷ xs) ys hx hy = (hx.0, All-append P xs ys hx.1 hy)

pub All-update_where {ℓ κ μ} :
    {A : Type ℓ} (P : A → Type κ) (Q : A → Type μ) (p : A → Bool) (f : A → A) (xs : List A)
    → ((x : A) → P x → p x ≡ true → Q (f x))
    → ((x : A) → P x → p x ≡ false → Q x)
    → All P xs
    → All Q (update_where p f xs)
All-update_where P Q p f [] k l h = tt
All-update_where P Q p f (x ∷ xs) k l h =
    let rest = All-update_where P Q p f xs k l h.1 in
    elim (Bool-cases (p x)) [ inl e ↦ rw e (k x h.0 e, rest) | inr e ↦ rw e (l x h.0 e, rest) ]

pub All-weaken {ℓ κ μ} :
    {A : Type ℓ} (P : A → Type κ) (Q : A → Type μ) (xs : List A)
    → ((x : A) → P x → Q x)
    → All P xs
    → All Q xs
All-weaken P Q [] k h = tt
All-weaken P Q (x ∷ xs) k h = (k x h.0, All-weaken P Q xs k h.1)

pub All-both {ℓ κ μ} :
    {A : Type ℓ} (P : A → Type κ) (Q : A → Type μ) (xs : List A)
    → All P xs
    → All Q xs
    → All (λ x. P x × Q x) xs
All-both P Q [] h k = tt
All-both P Q (x ∷ xs) h k = ((h.0, k.0), All-both P Q xs h.1 k.1)

pub All-select {ℓ κ} :
    {A : Type ℓ} (P : A → Type κ) (p : A → Bool) (xs : List A)
    → All P xs
    → All (λ x. P x × (p x ≡ true)) (select p xs)
All-select P p [] h = tt
All-select P p (x ∷ xs) h =
    let rest = All-select P p xs h.1 in
    elim (Bool-cases (p x)) [ inl e ↦ rw e ((h.0, e), rest) | inr e ↦ rw e rest ]

module _ {ℓ} {A : Type ℓ} (p : A → Bool) where
  pub length-update_where : (f : A → A) (xs : List A) → length (update_where p f xs) ≡ length xs
  length-update_where f [] = refl
  length-update_where f (x ∷ xs) = omega (arith, length-update_where f xs)

  pub length-select : (xs : List A) → length (select p xs) ≤ length xs
  length-select [] = omega arith
  length-select (x ∷ xs) = elim (Bool-cases (p x)) [
    | inl e ↦ rw e (omega (arith, length-select xs))
    | inr e ↦ rw e (omega (arith, length-select xs))
  ]

-- What a test selects is found among what it selects.
pub any-select {ℓ} :
    {A : Type ℓ} (q : A → A → Bool) (p : A → Bool) (xs : List A)
    → ((x : A) → q x x ≡ true)
    → All (λ x. p x ≡ true → any (q x) (select p xs) ≡ true) xs
any-select q p [] r = tt
any-select {A} q p (x ∷ xs) r = (
  λ e. rw (e, r x) refl,
  All-weaken (λ (y : A). p y ≡ true → any (q y) (select p xs) ≡ true)
      (λ y. p y ≡ true → any (q y) (select p (x ∷ xs)) ≡ true) xs
      (λ y h e. elim (Bool-cases (p x)) [
        | inl d ↦ rw (d, h e) (or_true (q y x))
        | inr d ↦ rw d (h e)
      ])
      (any-select q p xs r),
)

pub any-append {ℓ} :
    {A : Type ℓ} (p : A → Bool) (xs ys : List A) → any p xs ≡ true → any p (xs ++ ys) ≡ true
any-append p [] ys h = absurd (cc h)
any-append p (x ∷ xs) ys h = elim (Bool-cases (p x)) [
  | inl e ↦ rw e refl
  | inr e ↦ rw e (any-append p xs ys (simp e at h))
]

-- An update that keeps what a test reads keeps what it finds.
pub any-update_where {ℓ} :
    {A : Type ℓ} (q p : A → Bool) (f : A → A) (xs : List A)
    → ((x : A) → p x ≡ true → q (f x) ≡ q x)
    → any q (update_where p f xs) ≡ any q xs
any-update_where q p f [] h = refl
any-update_where q p f (x ∷ xs) h = elim (Bool-cases (p x)) [
  | inl e ↦ rw (e, h x e, any-update_where q p f xs h) refl
  | inr e ↦ rw (e, any-update_where q p f xs h) refl
]

pub find-All {ℓ κ} :
    {A : Type ℓ} (P : A → Type κ) (p : A → Bool) (xs : List A) (a : A)
    → All P xs
    → find p xs ≡ some a
    → P a
find-All P p [] a h e = absurd (cc e)
find-All P p (x ∷ xs) a h e = elim (Bool-cases (p x)) [
  | inl d ↦ subst P (some_inj (simp d at e)) h.0
  | inr d ↦ find-All P p xs a h.1 (simp d at e)
]
