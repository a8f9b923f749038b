-- ===== src/Base/Lists.antt =====
-- Lists measured by native numbers, predicates over lists, and sums of tests.
use Prim.Native.Nat.{ℕ, suc, ◌+◌, ◌-◌, ◌≤◌}
use mathlib.Core.Path.{◌≡◌, refl}
use mathlib.Core.Bool.{Bool, true, false}
use mathlib.Core.List.{List, [], ◌∷◌, ◌++◌}
use native.Mathlib.Omega.{arith}
use runvard.Base.Tests.{ltb, if◌then◌else◌}

module _ {ℓ} {A : Type ℓ} where
  abbrev pub length : List A → ℕ
  length [] = 0
  length (x ∷ xs) = suc (length xs)

  -- `[x for x in xs if p(x)]`
  abbrev pub keep : (A → Bool) → List A → List A
  keep p [] = []
  keep p (x ∷ xs) = let rest = keep p xs in if p x then x ∷ rest else rest

  -- `xs[:n]`
  abbrev pub first_of : ℕ → List A → List A
  first_of n [] = []
  first_of n (x ∷ xs) = let rest = first_of (n - 1) xs in if ltb 0 n then x ∷ rest else []

  -- `sum(1 for x in xs if p(x))`
  abbrev pub count_if : (A → Bool) → List A → ℕ
  count_if p [] = 0
  count_if p (x ∷ xs) = let rest = count_if p xs in if p x then suc rest else rest

  abbrev pub All {κ} : (A → Type κ) → List A → Type κ
  All P [] = Unit
  All P (x ∷ xs) = P x × All P xs

  pub length-append : (xs ys : List A) → length (xs ++ ys) ≡ length xs + length ys
  length-append [] ys = omega arith
  length-append (x ∷ xs) ys = omega (arith, length-append xs ys)

  pub length-keep-le : (p : A → Bool) (xs : List A) → length (keep p xs) ≤ length xs
  length-keep-le p [] = omega arith
  length-keep-le p (x ∷ xs) = ground (arith, length-keep-le p xs)

  -- What passes `q` passes `p`, so keeping `p` loses none of it.
  pub count_if-keep :
      (q p : A → Bool) (xs : List A)
      → ((x : A) → q x ≡ true → p x ≡ true)
      → count_if q (keep p xs) ≡ count_if q xs
  count_if-keep q p [] h = refl
  count_if-keep q p (x ∷ xs) h = ground (arith, h x, count_if-keep q p xs h)

  pub count_if-append :
      (q : A → Bool) (xs ys : List A) → count_if q (xs ++ ys) ≡ count_if q xs + count_if q ys
  count_if-append q [] ys = omega arith
  count_if-append q (x ∷ xs) ys = ground (arith, count_if-append q xs ys)

  pub count_if-le : (q : A → Bool) (xs : List A) → count_if q xs ≤ length xs
  count_if-le q [] = omega arith
  count_if-le q (x ∷ xs) = ground (arith, count_if-le q xs)

module _ {ℓ κ} {A : Type ℓ} (Q : A → Type κ) where
  pub All-append : (xs ys : List A) → All Q xs → All Q ys → All Q (xs ++ ys)
  All-append [] ys all also = also
  All-append (x ∷ xs) ys (first, all) also = (first, All-append xs ys all also)

  pub All-keep : (p : A → Bool) (xs : List A) → All Q xs → All Q (keep p xs)
  All-keep p [] all = tt
  All-keep p (x ∷ xs) (first, all) = All-keep_one x (p x) (keep p xs) first (All-keep p xs all)
    where
      All-keep_one :
          (x : A) (b : Bool) (ys : List A) → Q x → All Q ys → All Q (if b then x ∷ ys else ys)
      All-keep_one x true ys first all = (first, all)
      All-keep_one x false ys first all = all
