-- ===== src/Base/Dict.antt =====
-- Python dicts with string keys, in insertion order. Proofs elsewhere go by the laws.
use Prim.Native.Nat.{◌+◌, ◌≤◌, ◌<◌}
use Prim.Native.String.{String}
use mathlib.Core.Path.{◌≡◌, refl}
use mathlib.Core.Bool.{Bool, true, false}
use mathlib.Core.Option.{Option, none, some}
use mathlib.Core.List.{List, [], ◌∷◌}
use native.Mathlib.Omega.{arith}
use runvard.Base.Tests.{◌==◌, contains, is_some, if◌then◌else◌}
use runvard.Base.Lists.{length}

abbrev pub Dict {ℓ} : Type ℓ → Type ℓ
Dict V = List (String × V)

module _ {ℓ} {V : Type ℓ} where
  -- `d.get(k)`
  unfoldable pub get : String → Dict V → Option V
  get k [] = none
  get k ((j, v) ∷ d) = if j == k then some v else get k d

  -- `d[k] = v`: an old key keeps its place.
  unfoldable pub insert : String → V → Dict V → Dict V
  insert k v [] = (k, v) ∷ []
  insert k v ((j, w) ∷ d) = if j == k then (k, v) ∷ d else (j, w) ∷ insert k v d

  -- `d.pop(k, None)`
  unfoldable pub erase : String → Dict V → Dict V
  erase k [] = []
  erase k ((j, w) ∷ d) = let rest = erase k d in if j == k then rest else (j, w) ∷ rest

  -- `d.values()`
  abbrev pub values : Dict V → List V
  values [] = []
  values ((j, w) ∷ d) = w ∷ values d

  -- `[k for k, v in d.items() if p(v)]`
  unfoldable pub keys_where : (V → Bool) → Dict V → List String
  keys_where p [] = []
  keys_where p ((j, w) ∷ d) = let rest = keys_where p d in if p w then j ∷ rest else rest

  -- `for k in ks: d.pop(k, None)`
  unfoldable pub pop_all : List String → Dict V → Dict V
  pop_all [] d = d
  pop_all (k ∷ ks) d = pop_all ks (erase k d)

  -- No key is listed twice, which holds of every Python dict.
  abbrev pub NodupKeys : Dict V → Type ℓ
  NodupKeys [] = Unit
  NodupKeys ((k, v) ∷ d) = (get k d ≡ none) × NodupKeys d

  pub get-nil : (k : String) → get k [] ≡ none
  unfolding get
  get-nil k = refl

  pub get-insert :
      (j k : String) (v : V) (d : Dict V)
      → get j (insert k v d) ≡ (if k == j then some v else get j d)
  unfolding get insert
  get-insert j k v [] = refl
  get-insert j k v ((i, w) ∷ d) = ground (arith, get-insert j k v d)

  pub get-erase :
      (j k : String) (d : Dict V) → get j (erase k d) ≡ (if k == j then none else get j d)
  unfolding get erase
  get-erase j k [] = ground arith
  get-erase j k ((i, w) ∷ d) = ground (arith, get-erase j k d)

  pub get-pop_all :
      (j : String) (ks : List String) (d : Dict V)
      → get j (pop_all ks d) ≡ (if contains ks j then none else get j d)
  unfolding pop_all
  get-pop_all j [] d = refl
  get-pop_all j (k ∷ ks) d = ground (arith, get-pop_all j ks (erase k d), get-erase j k d)

  pub keys_where-mem :
      (p : V → Bool) (k : String) (v : V) (d : Dict V)
      → get k d ≡ some v
      → p v ≡ true
      → contains (keys_where p d) k ≡ true
  unfolding get keys_where
  keys_where-mem p k v [] h e = ground arith
  keys_where-mem p k v ((j, w) ∷ d) h e = ground (arith, keys_where-mem p k v d)

  pub keys_where-absent :
      (p : V → Bool) (k : String) (d : Dict V)
      → get k d ≡ none
      → contains (keys_where p d) k ≡ false
  unfolding get keys_where
  keys_where-absent p k [] h = refl
  keys_where-absent p k ((j, w) ∷ d) h = ground (arith, keys_where-absent p k d)

  pub keys_where-ne :
      (p : V → Bool) (k : String) (v : V) (d : Dict V)
      → NodupKeys d
      → get k d ≡ some v
      → p v ≡ false
      → contains (keys_where p d) k ≡ false
  unfolding get keys_where
  keys_where-ne p k v [] n h e = refl
  keys_where-ne p k v ((j, w) ∷ d) (fresh, n) h e =
      ground (arith, keys_where-ne p k v d n, keys_where-absent p k d)

  pub insert-NodupKeys : (k : String) (v : V) (d : Dict V) → NodupKeys d → NodupKeys (insert k v d)
  unfolding insert
  insert-NodupKeys k v [] n = (get-nil k, tt)
  insert-NodupKeys k v ((j, w) ∷ d) (fresh, n) =
      ground (arith, insert-NodupKeys k v d n, get-insert j k v d)

  pub erase-NodupKeys : (k : String) (d : Dict V) → NodupKeys d → NodupKeys (erase k d)
  unfolding erase
  erase-NodupKeys k [] n = tt
  erase-NodupKeys k ((j, w) ∷ d) (fresh, n) = ground (arith, erase-NodupKeys k d n, get-erase j k d)

  pub pop_all-NodupKeys : (ks : List String) (d : Dict V) → NodupKeys d → NodupKeys (pop_all ks d)
  unfolding pop_all
  pop_all-NodupKeys [] d n = n
  pop_all-NodupKeys (k ∷ ks) d n = pop_all-NodupKeys ks (erase k d) (erase-NodupKeys k d n)

  pub length-insert-le : (k : String) (v : V) (d : Dict V) → length (insert k v d) ≤ length d + 1
  unfolding insert
  length-insert-le k v [] = omega arith
  length-insert-le k v ((j, w) ∷ d) = ground (arith, length-insert-le k v d)

  pub length-insert-known :
      (k : String) (v w : V) (d : Dict V) → get k d ≡ some w → length (insert k v d) ≡ length d
  unfolding get insert
  length-insert-known k v w [] h = absurd (ground arith)
  length-insert-known k v w ((j, u) ∷ d) h = ground (arith, length-insert-known k v w d)

  pub length-erase-le : (k : String) (d : Dict V) → length (erase k d) ≤ length d
  unfolding erase
  length-erase-le k [] = omega arith
  length-erase-le k ((j, w) ∷ d) = ground (arith, length-erase-le k d)

  pub length-pop_all-le : (ks : List String) (d : Dict V) → length (pop_all ks d) ≤ length d
  unfolding pop_all
  length-pop_all-le [] d = omega arith
  length-pop_all-le (k ∷ ks) d =
      omega (arith, length-pop_all-le ks (erase k d), length-erase-le k d)

  -- `for k in [k for k, v in d.items() if p(v)]: d.pop(k, None)`
  unfoldable pub prune : (V → Bool) → Dict V → Dict V
  prune p d = pop_all (keys_where p d) d

  abbrev pub survives : (V → Bool) → Option V → Option V
  survives p none = none
  survives p (some v) = if p v then none else some v

  -- What is pruned is gone, and nothing else is.
  pub get-prune :
      (p : V → Bool) (k : String) (d : Dict V)
      → NodupKeys d
      → get k (prune p d) ≡ survives p (get k d)
  unfolding prune
  get-prune p k d n = go (get k d) refl
    where
      go : (o : Option V) → get k d ≡ o → get k (pop_all (keys_where p d) d) ≡ survives p o
      go none e = ground (arith, get-pop_all k (keys_where p d) d)
      go (some v) e = ground (
        arith,
        get-pop_all k (keys_where p d) d,
        keys_where-mem p k v d e,
        keys_where-ne p k v d n e,
      )

  pub prune-NodupKeys : (p : V → Bool) (d : Dict V) → NodupKeys d → NodupKeys (prune p d)
  unfolding prune
  prune-NodupKeys p d n = pop_all-NodupKeys (keys_where p d) d n

  pub length-prune-le : (p : V → Bool) (d : Dict V) → length (prune p d) ≤ length d
  unfolding prune
  length-prune-le p d = length-pop_all-le (keys_where p d) d

  -- Erasing a key that is there makes the dict shorter.
  pub length-erase-lt :
      (k : String) (d : Dict V) → is_some (get k d) ≡ true → length (erase k d) < length d
  unfolding get erase
  length-erase-lt k [] h = absurd (ground arith)
  length-erase-lt k ((j, w) ∷ d) h = ground (arith, length-erase-lt k d, length-erase-le k d)
