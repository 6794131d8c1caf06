-- ===== src/Prelude/Sorting.antt =====
-- ORDER BY and LIMIT: insertion in an order, and the first rows of a list.
use Prim.Native.Nat.{ℕ, zero, suc, ◌≤◌, ◌+◌}
use mathlib.Core.Path.{◌≡◌, refl, ap, ◌∙◌}
use mathlib.Core.Logic.{inl, inr}
use mathlib.Core.List.{List, [], ◌∷◌}
use mathlib.Core.Bool.{Bool, true, false, ◌||◌}
use native.Mathlib.Omega.{arith}
use agent_craft.Prelude.Tests.{if◌then◌else◌, Bool-cases}
use agent_craft.Prelude.Lists.{length, any, All}

or_swap : (a b c : Bool) → (a || (b || c)) ≡ (b || (a || c))
or_swap true true c = refl
or_swap true false c = refl
or_swap false b c = refl

module _ {ℓ} {A : Type ℓ} where
  module _ (before : A → A → Bool) where
    abbrev pub insert_by : A → List A → List A
    insert_by x [] = x ∷ []
    insert_by x (y ∷ ys) = let rest = insert_by x ys in if before y x then y ∷ rest else x ∷ y ∷ ys

    abbrev pub order_by : List A → List A
    order_by [] = []
    order_by (x ∷ xs) = insert_by x (order_by xs)

  abbrev pub limit : ℕ → List A → List A
  limit n [] = []
  limit zero (x ∷ xs) = []
  limit (suc n) (x ∷ xs) = x ∷ limit n xs

  pub limit-all : (n : ℕ) (xs : List A) → length xs ≤ n → limit n xs ≡ xs
  limit-all n [] h = refl
  limit-all zero (x ∷ xs) h = absurd (omega (arith, h))
  limit-all (suc n) (x ∷ xs) h = ap (λ l. x ∷ l) (limit-all n xs (omega (arith, h)))

  module _ (before : A → A → Bool) (p : A → Bool) where
    any-insert_by : (x : A) (xs : List A) → any p (insert_by before x xs) ≡ (p x || any p xs)
    any-insert_by x [] = refl
    any-insert_by x (y ∷ ys) = elim (Bool-cases (before y x)) [
      | inl e ↦ rw e (ap (λ b. p y || b) (any-insert_by x ys) ∙ or_swap (p y) (p x) (any p ys))
      | inr e ↦ rw e refl
    ]

    pub any-order_by : (xs : List A) → any p (order_by before xs) ≡ any p xs
    any-order_by [] = refl
    any-order_by (x ∷ xs) =
        any-insert_by x (order_by before xs) ∙ ap (λ b. p x || b) (any-order_by xs)

  module _ (before : A → A → Bool) where
    length-insert_by : (x : A) (xs : List A) → length (insert_by before x xs) ≡ length xs + 1
    length-insert_by x [] = refl
    length-insert_by x (y ∷ ys) = elim (Bool-cases (before y x)) [
      | inl e ↦ rw e (omega (arith, length-insert_by x ys))
      | inr e ↦ rw e (omega arith)
    ]

    pub length-order_by : (xs : List A) → length (order_by before xs) ≡ length xs
    length-order_by [] = refl
    length-order_by (x ∷ xs) =
        omega (arith, length-insert_by x (order_by before xs), length-order_by xs)

  module _ {κ} (P : A → Type κ) where
    pub All-limit : (n : ℕ) (xs : List A) → All P xs → All P (limit n xs)
    All-limit n [] h = tt
    All-limit zero (x ∷ xs) h = tt
    All-limit (suc n) (x ∷ xs) h = (h.0, All-limit n xs h.1)

    All-insert_by :
        (before : A → A → Bool) (x : A) (xs : List A)
        → P x
        → All P xs
        → All P (insert_by before x xs)
    All-insert_by before x [] hx h = (hx, tt)
    All-insert_by before x (y ∷ ys) hx h = elim (Bool-cases (before y x)) [
      | inl e ↦ rw e (h.0, All-insert_by before x ys hx h.1)
      | inr e ↦ rw e (hx, h)
    ]

    pub All-order_by : (before : A → A → Bool) (xs : List A) → All P xs → All P (order_by before xs)
    All-order_by before [] h = tt
    All-order_by before (x ∷ xs) h =
        All-insert_by before x (order_by before xs) h.0 (All-order_by before xs h.1)
