-- ===== src/Validators/Paths.antt =====
-- What a guarded path has shown.
use runvard.Base.{
  ◌<>◌, String, ◌≡◌, ◌≢◌, refl, sym, ◌∙◌, ap, subst, true, false, List, [], ◌∷◌, ◌++◌, ◌==◌, All,
  arith, contains, Result, ok, err, ==→≡, starts_with, starts_with-split, starts_with-append,
  suffix, text_length, Bool-cases, inl, inr,
}
use runvard.Validators.{
  PathLibrary, blocked_paths, readonly_paths, is_at_or_below, is_below_any, real_path, is_under,
  is_blocked_path, is_readonly_path, refuse, guard_read_path, guard_write_path, safe_join,
  check_members, validate_zip_members,
}

-- The path is neither the root nor below it.
pub record IsOutside (root path : String) : Type 0 where
  pub apart : path ≢ root
  pub not_below : (rest : String) → path ≢ (root <> "/") <> rest

-- The path is the base or below it.
pub data IsInside (base path : String) : Type 0 where
  at_base : path ≡ base → IsInside base path
  below : (rest : String) → path ≡ (base <> "/") <> rest → IsInside base path

is_at_or_below-IsInside :
    (base path : String) → is_at_or_below base path ≡ true → IsInside base path
is_at_or_below-IsInside base path h = elim (Bool-cases (path == base)) [
  | inl e ↦ IsInside.at_base (==→≡ path base e)
  | inr e ↦
      let start = base <> "/" in
      IsInside.below (suffix (text_length start) path) (starts_with-split path start (ground arith))
]

is_at_or_below-IsOutside :
    (root path : String) → is_at_or_below root path ≡ false → IsOutside root path
is_at_or_below-IsOutside root path h = record {
  apart = λ e. ground arith;
  not_below = λ rest e.
      let start : starts_with path (root <> "/") ≡ true =
        subst (λ p. starts_with p (root <> "/") ≡ true) (sym e)
          (starts_with-append (root <> "/") rest) in
      ground arith;
}

is_below_any-IsOutside :
    (roots : List String) (root path : String)
    → is_below_any roots path ≡ false
    → contains roots root ≡ true
    → IsOutside root path
is_below_any-IsOutside [] root path h k = absurd (ground arith)
is_below_any-IsOutside (other ∷ roots) root path h k = elim (Bool-cases (other == root)) [
  | inl e ↦
      is_at_or_below-IsOutside root path
        (subst (λ r. is_at_or_below r path ≡ false) (==→≡ other root e) (ground arith))
  | inr e ↦ is_below_any-IsOutside roots root path (ground arith) (ground arith)
]

-- What a path that may be read or written has shown.
pub record IsOpen (F : PathLibrary) (closed : List String) (path resolved : String) : Type 0 where
  pub canonical : resolved ≡ F.realpath path
  pub outside : (root : String) → contains closed root ≡ true → IsOutside root resolved

refuse-ok :
    (F : PathLibrary) (roots : List String) (message path resolved : String)
    → refuse F (is_under F path roots) message path ≡ ok resolved
    → (path ≡ resolved) × (is_below_any roots (F.realpath path) ≡ false)
unfolding is_under real_path
refuse-ok F roots message path resolved h = (ground arith, ground arith)

module _ (F : PathLibrary) (path : String)
    (again : F.realpath (F.realpath path) ≡ F.realpath path) where
  -- A test of the resolved path is a test of the path that is returned.
  refuse-resolved :
      (roots : List String) (message r resolved : String)
      → r ≡ F.realpath path
      → refuse F (is_under F r roots) message r ≡ ok resolved
      → (r ≡ resolved) × (is_below_any roots resolved ≡ false)
  refuse-resolved roots message r resolved same h =
      let (kept, clear) = refuse-ok F roots message r resolved h in
      let back : F.realpath r ≡ resolved = ap F.realpath same ∙ (again ∙ (sym same ∙ kept)) in
      (kept, subst (λ p. is_below_any roots p ≡ false) back clear)

  guard_read_path-ok :
      (resolved : String)
      → guard_read_path F path ≡ ok resolved
      → (resolved ≡ F.realpath path) × (is_below_any blocked_paths resolved ≡ false)
  unfolding guard_read_path is_blocked_path is_under real_path
  guard_read_path-ok resolved h = (ground arith, ground (arith, again))

  guard_write_path-ok :
      (resolved : String)
      → guard_write_path F path ≡ ok resolved
      → (guard_read_path F path ≡ ok resolved) × (is_below_any readonly_paths resolved ≡ false)
  unfolding guard_write_path is_readonly_path
  guard_write_path-ok resolved h = go (guard_read_path F path) refl
    where
      go :
          (r : Result String)
          → guard_read_path F path ≡ r
          → (guard_read_path F path ≡ ok resolved) × (is_below_any readonly_paths resolved ≡ false)
      go (err e) eq = absurd (ground arith)
      go (ok p) eq =
          let (kept, clear) =
            refuse-resolved readonly_paths "Path is read-only" p resolved
              (guard_read_path-ok p eq).0
              (subst
                (λ (r : Result String).
                  elim r [
                    | err e ↦ err e
                    | ok q ↦ refuse F (is_under F q readonly_paths) "Path is read-only" q
                  ]
                  ≡ ok resolved)
                eq h) in
          (eq ∙ ap ok kept, clear)

  -- A path that may be written is the canonical one, and it is neither equal to nor below any of the
  -- protected directories: those of the running system, and those that are read-only. Resolving the
  -- resolved path is assumed to give it again.
  pub guard_write_path-IsOpen :
      (resolved : String)
      → guard_write_path F path ≡ ok resolved
      → IsOpen F (blocked_paths ++ readonly_paths) path resolved
  guard_write_path-IsOpen resolved h =
      let (read, writable) = guard_write_path-ok resolved h in
      let (canonical, clear) = guard_read_path-ok resolved read in
      record {
        canonical = canonical;
        outside = λ root mem.
            is_below_any-IsOutside (blocked_paths ++ readonly_paths) root resolved (ground arith)
              mem;
      }

-- A joined path is the base directory or below it, and the base is a directory that may be written.
pub safe_join-IsInside :
    (F : PathLibrary) (directory filename dest : String)
    → safe_join F directory filename ≡ ok dest
    → (base : String) × (guard_write_path F directory ≡ ok base) × IsInside base dest
unfolding safe_join
safe_join-IsInside F directory filename dest h = go (guard_write_path F directory) refl
  where
    go :
        (r : Result String)
        → guard_write_path F directory ≡ r
        → (base : String) × (guard_write_path F directory ≡ ok base) × IsInside base dest
    go (err e) eq = absurd (ground arith)
    go (ok base) eq = (base, eq, is_at_or_below-IsInside base dest (ground arith))

check_members-IsInside :
    (F : PathLibrary) (dest : String) (members : List String)
    → check_members F dest members ≡ ok tt
    → All (λ (member : String). IsInside dest (F.realpath (F.join dest member))) members
unfolding check_members
check_members-IsInside F dest [] h = tt
check_members-IsInside F dest (member ∷ members) h = (
  is_at_or_below-IsInside dest (F.realpath (F.join dest member)) (ground arith),
  check_members-IsInside F dest members (ground arith),
)

-- Every member of an archive that is let through goes to the destination or below it, and the
-- destination is a directory that may be written.
pub validate_zip_members-IsInside :
    (F : PathLibrary) (archive : List String) (destination : String)
    → validate_zip_members F archive destination ≡ ok tt
    → (dest : String) × (guard_write_path F destination ≡ ok dest)
      × All (λ (member : String). IsInside dest (F.realpath (F.join dest member))) archive
unfolding validate_zip_members
validate_zip_members-IsInside F archive destination h = go (guard_write_path F destination) refl
  where
    go :
        (r : Result String)
        → guard_write_path F destination ≡ r
        → (dest : String) × (guard_write_path F destination ≡ ok dest)
          × All (λ (member : String). IsInside dest (F.realpath (F.join dest member))) archive
    go (err e) eq = absurd (ground arith)
    go (ok dest) eq = (dest, eq, check_members-IsInside F dest archive (ground arith))
