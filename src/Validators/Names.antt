-- ===== src/Validators/Names.antt =====
-- What the patterns of names let through.
use runvard.Base.{
  ℕ, ◌-◌, ◌≤◌, subst, sym, String, ◌≡◌, refl, Bool, true, false, List, [], ◌∷◌, ◌||◌, All, arith,
  length, ok, err, value_error, codes, eqb,
}
use runvard.Validators.{
  at_most, is_slug_char, is_slug, require_slug, service_rest, is_service, require_service,
}

at_most-length :
    (n : ℕ) (cs : List ℕ)
    → at_most n is_slug_char cs ≡ true
    → (length cs ≤ n) × All (λ c. is_slug_char c ≡ true) cs
at_most-length n [] h = (omega arith, tt)
at_most-length n (c ∷ cs) h =
    let (short, all) = at_most-length (n - 1) cs (ground arith) in
    (ground arith, (ground arith, all))

is_slug-length :
    (cs : List ℕ)
    → is_slug cs ≡ true
    → (1 ≤ length cs) × (length cs ≤ 64) × All (λ c. is_slug_char c ≡ true) cs
unfolding is_slug
is_slug-length [] h = absurd (ground arith)
is_slug-length (c ∷ cs) h =
    let (short, all) = at_most-length 63 cs (ground arith) in
    (omega arith, omega (arith, short), (ground arith, all))

-- An accepted slug is returned as it is. It has at most 64 characters, the first one a letter or
-- a digit and all of them letters, digits, `_`, `.` or `-`, so that no slash is among them.
pub require_slug-bounded :
    (value label slug : String)
    → require_slug value label ≡ ok slug
    → (slug ≡ value)
      × (1 ≤ length (codes slug))
      × (length (codes slug) ≤ 64)
      × All (λ c. is_slug_char c ≡ true) (codes slug)
unfolding require_slug
require_slug-bounded value label slug h =
    let (same, accepted) : (slug ≡ value) × (is_slug (codes value) ≡ true) =
      (ground arith, ground arith) in
    let (nonempty, short, all) =
      is_slug-length (codes slug) (subst (λ v. is_slug (codes v) ≡ true) (sym same) accepted) in
    (same, nonempty, short, all)

abbrev has_backslash : List ℕ → Bool
has_backslash [] = false
has_backslash (c ∷ cs) = eqb c b'\\' || has_backslash cs

service_rest-false : (cs : List ℕ) → has_backslash cs ≡ false → service_rest cs ≡ false
service_rest-false [] h = refl
service_rest-false (c ∷ cs) h = ground (arith, service_rest-false cs)

is_service-false : (cs : List ℕ) → has_backslash cs ≡ false → is_service cs ≡ false
unfolding is_service
is_service-false [] h = refl
is_service-false (c ∷ cs) h = ground (arith, service_rest-false cs)

-- A name without a backslash is never accepted as the name of a service, whether it ends in
-- `.service` or not.
pub require_service-refused :
    (value : String)
    → has_backslash (codes value) ≡ false
    → require_service value ≡ err (value_error "Invalid service")
unfolding require_service
require_service-refused value h = ground (arith, is_service-false (codes value))
