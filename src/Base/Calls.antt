-- ===== src/Base/Calls.antt =====
-- Python's exceptions as values, and methods that mutate an object and may raise. What was written
-- before a raise stays written, so the state comes back beside the error too.
use mathlib.Core.Logic.{◌⊎◌, inl, inr}
use Prim.Native.Nat.{ℕ}
use Prim.Native.String.{String}
use mathlib.Core.Path.{◌≡◌, refl}
use mathlib.Core.Bool.{Bool, true, false}
use runvard.Base.Tests.{if◌then◌else◌}

-- The exception classes that the modelled code raises, with their messages.
pub data Error : Type 0 where
  value_error : String → Error
  permission_error : String → Error
  key_error : String → Error
  runtime_error : String → Error
  http_error : (status : ℕ) → (detail : String) → Error

pub data Result {ℓ} (A : Type ℓ) : Type ℓ where
  ok : A → Result A
  err : Error → Result A

-- To split on a reply and keep the equation.
pub Result-cases {κ} :
    {A : Type κ} (r : Result A) → ((e : Error) × (r ≡ err e)) ⊎ ((a : A) × (r ≡ ok a))
Result-cases (ok a) = inr (a, refl)
Result-cases (err e) = inl (e, refl)

abbrev pub Action {ℓ κ} : Type ℓ → Type κ → Type (ℓ ⊔ κ)
Action S A = S → Result A × S

module _ {ℓ κ} {S : Type ℓ} {A : Type κ} where
  abbrev pub pure : A → Action S A
  pure a s = (ok a, s)

  abbrev pub raise : Error → Action S A
  raise e s = (err e, s)

  -- a call that may raise and touches no state
  abbrev pub lift : Result A → Action S A
  lift r s = (r, s)

  abbrev pub gets : (S → A) → Action S A
  gets f s = (ok (f s), s)

module _ {ℓ} {S : Type ℓ} where
  abbrev pub modify : (S → S) → Action S (Unit {0})
  modify f s = (ok tt, f s)

  -- `if bad: raise e`
  abbrev pub raise_if : Bool → Error → Action S (Unit {0})
  raise_if true e s = (err e, s)
  raise_if false e s = (ok tt, s)

module _ {ℓ κ μ} {S : Type ℓ} {A : Type κ} {B : Type μ} where
  abbrev pub continue : Result A → (A → Action S B) → Action S B
  continue (ok a) f s = f a s
  continue (err e) f s = (err e, s)

  infixl 5 ◌>>=◌
  abbrev pub ◌>>=◌ : Action S A → (A → Action S B) → Action S B
  ◌>>=◌ m f s = let (r, s') = m s in continue r f s'

module _ {ℓ κ} {S : Type ℓ} {B : Type κ} where
  infixl 5 ◌>>◌
  abbrev pub ◌>>◌ : Action S (Unit {0}) → Action S B → Action S B
  m >> k = m >>= λ _. k

-- The reply of a call, and the state after it.
module _ {ℓ κ} {S : Type ℓ} {A : Type κ} where
  abbrev pub reply : Action S A → S → Result A
  reply m s = (m s).0

  abbrev pub after : Action S A → S → S
  after m s = (m s).1

-- A call whose final state has the property `P`, whether it returns or raises.
pub record Leaves {ℓ κ μ} {S : Type ℓ} {A : Type κ} (P : S → Type μ) (r : Result A × S)
    : Type μ where
  pub left : P r.1

module _ {ℓ κ μ} {S : Type ℓ} {A : Type κ} {P : S → Type μ} where
  pub Leaves-done : (r : Result A) (s : S) → P s → Leaves P (r, s)
  Leaves-done r s h = record { left = h }

  pub Leaves-if :
      (b : Bool) (x y : Result A × S)
      → (b ≡ true → Leaves P x)
      → (b ≡ false → Leaves P y)
      → Leaves P (if b then x else y)
  Leaves-if true x y hx hy = hx refl
  Leaves-if false x y hx hy = hy refl

  pub Leaves-continue {ν} :
      {B : Type ν} (r : Result B) (f : B → Action S A) (s : S)
      → P s
      → ((b : B) → r ≡ ok b → Leaves P (f b s))
      → Leaves P (continue r f s)
  Leaves-continue (ok b) f s h k = k b refl
  Leaves-continue (err e) f s h k = record { left = h }
