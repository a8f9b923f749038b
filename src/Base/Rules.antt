-- ===== src/Base/Rules.antt =====
-- Invariants of calls that change a state, one rule for each way to build a call.
use mathlib.Core.Bool.{Bool, true, false}
use runvard.Base.Tests.{if◌then◌else◌}
use runvard.Base.Calls.{
  Error, Result, ok, err, Action, pure, raise, lift, gets, modify, raise_if, continue, ◌>>=◌, ◌>>◌,
}

-- The call keeps `P`, whether it returns or raises.
pub record Keeps {ℓ κ μ} {S : Type ℓ} {A : Type κ} (P : S → Type μ) (m : Action S A)
    : Type (ℓ ⊔ μ) where
  pub at : (s : S) → P s → P (m s).1

module _ {ℓ κ μ} {S : Type ℓ} {A : Type κ} {P : S → Type μ} where
  pub Keeps-pure : (a : A) → Keeps P (pure a)
  Keeps-pure a = record { at = λ s h. h }

  pub Keeps-raise : (e : Error) → Keeps P (raise {A = A} e)
  Keeps-raise e = record { at = λ s h. h }

  pub Keeps-lift : (r : Result A) → Keeps P (lift r)
  Keeps-lift r = record { at = λ s h. h }

  -- a call that reads the state and may raise
  pub Keeps-read : (f : S → Result A) → Keeps P (λ s. (f s, s))
  Keeps-read f = record { at = λ s h. h }

  pub Keeps-gets : (f : S → A) → Keeps P (gets f)
  Keeps-gets f = record { at = λ s h. h }

  pub Keeps-if :
      (b : Bool) (m n : Action S A) → Keeps P m → Keeps P n → Keeps P (if b then m else n)
  Keeps-if true m n hm hn = hm
  Keeps-if false m n hm hn = hn

module _ {ℓ μ} {S : Type ℓ} {P : S → Type μ} where
  pub Keeps-raise_if : (b : Bool) (e : Error) → Keeps P (raise_if b e)
  Keeps-raise_if true e = record { at = λ s h. h }
  Keeps-raise_if false e = record { at = λ s h. h }

  pub Keeps-modify : (f : S → S) → ((s : S) → P s → P (f s)) → Keeps P (modify f)
  Keeps-modify f h = record { at = h }

module _ {ℓ κ μ ν} {S : Type ℓ} {A : Type κ} {B : Type ν} {P : S → Type μ} where
  pub Keeps-continue :
      (r : Result A) (f : A → Action S B) (s : S)
      → ((a : A) → Keeps P (f a))
      → P s
      → P (continue r f s).1
  Keeps-continue (ok a) f s k h = (k a).at s h
  Keeps-continue (err e) f s k h = h

  pub Keeps-bind :
      (m : Action S A) (f : A → Action S B)
      → Keeps P m
      → ((a : A) → Keeps P (f a))
      → Keeps P (m >>= f)
  Keeps-bind m f hm hf = record { at = λ s h. Keeps-continue (m s).0 f (m s).1 hf (hm.at s h) }

module _ {ℓ ν μ} {S : Type ℓ} {B : Type ν} {P : S → Type μ} where
  pub Keeps-then :
      (m : Action S (Unit {0})) (n : Action S B) → Keeps P m → Keeps P n → Keeps P (m >> n)
  Keeps-then m n hm hn = Keeps-bind m (λ _. n) hm (λ _. hn)

pub ruleset keeps_rules = (
  Keeps-pure, Keeps-raise, Keeps-lift, Keeps-gets, Keeps-if, Keeps-raise_if, Keeps-modify,
  Keeps-bind, Keeps-then,
)
