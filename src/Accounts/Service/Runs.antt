-- ===== src/Accounts/Service/Runs.antt =====
-- Runs of a request that return: what each of its steps has returned.
use agent_craft.Prelude.{◌≡◌, refl, ap, Bool, true, false, Option, none, some}
use agent_craft.Accounts.Rows.{AccountDb}
use agent_craft.Accounts.Service.{
  World, Outcome, Failure, returned, raised, Service, after, require, require_some, restore, ◌>>=◌,
}

module _ {A : Type 0} where
  abbrev value_or : A → Outcome A → A
  value_or d (returned a w) = a
  value_or d (raised e w) = d

  abbrev is_return : Outcome A → Bool
  is_return (returned a w) = true
  is_return (raised e w) = false

  pub returned-value : {a b : A} {w w' : World} → returned a w ≡ returned b w' → a ≡ b
  returned-value {a} e = ap (value_or a) e

  pub returned-world : {a b : A} {w w' : World} → returned a w ≡ returned b w' → w ≡ w'
  returned-world e = ap after e

  pub raised≢returned : {x : Failure} {b : A} {w w' : World} → raised x w ≡ returned b w' → ⊥
  raised≢returned e = cc e

  pub restored-returned :
      (d : AccountDb) (o : Outcome A) (a : A) (w : World)
      → restore d o ≡ returned a w
      → o ≡ returned a w
  restored-returned d (returned b v) a w e = e
  restored-returned d (raised x v) a w e = absurd (raised≢returned e)

module _ {A B : Type 0} where
  -- The step that a run has begun with, and the run of the rest.
  abbrev pub Begun : Outcome A → (A → Service B) → B → World → Type 0
  Begun o f b w = (a : A) × (v : World) × (o ≡ returned a v) × (f a v ≡ returned b w)

  pub bind-Begun :
      (m : Service A) (f : A → Service B) (w w' : World) (b : B)
      → (m >>= f) w ≡ returned b w'
      → Begun (m w) f b w'
  bind-Begun m f w w' b e = go (m w) e
    where
      go :
          (o : Outcome A)
          → (elim o as (λ _. Outcome B) [ returned a v ↦ f a v | raised x v ↦ raised x v ])
            ≡ returned b w'
          → Begun o f b w'
      go (returned a v) e = (a, v, refl, e)
      go (raised x v) e = absurd (raised≢returned e)

module _ {B : Type 0} where
  -- A test that a run has passed.
  pub required :
      (b : Bool) (x : Failure) (f : Unit {0} → Service B) (w w' : World) (r : B)
      → (require b x >>= f) w ≡ returned r w'
      → (b ≡ true) × (f tt w ≡ returned r w')
  required true x f w w' r e = (refl, e)
  required false x f w w' r e = absurd (raised≢returned e)

  pub required_some :
      {A : Type 0} (o : Option A) (x : Failure) (f : A → Service B) (w w' : World) (r : B)
      → (require_some o x >>= f) w ≡ returned r w'
      → (a : A) × (o ≡ some a) × (f a w ≡ returned r w')
  required_some none x f w w' r e = absurd (raised≢returned e)
  required_some (some a) x f w w' r e = (a, refl, e)
