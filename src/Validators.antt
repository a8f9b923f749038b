-- ===== src/Validators.antt =====
-- modules/validators.py: guards of paths and of names. `os.path.realpath`, `os.path.join` and
-- `Path(...).parts` are parameters; the file system stays the same during a call. A pattern is a scan of the
-- character codes, since each of them can be matched without going back.
pub mod Paths
pub mod Names
pub mod Tests
use runvard.Base.{
  ℕ, ◌-◌, ◌<>◌, String, Bool, true, false, List, [], ◌∷◌, not, ◌&&◌, ◌||◌, ltb, leb, ◌==◌, contains,
  if◌then◌else◌, value_error, permission_error, Result, ok, err, codes, eqb, in_range, is_alnum,
  starts_with,
}

pub record PathLibrary : Type 0 where
  pub realpath : String → String
  pub join : String → String → String
  pub parts : String → List String

abbrev pub blocked_paths : List String
blocked_paths = "/proc" ∷ "/sys" ∷ "/dev" ∷ "/run" ∷ []

abbrev pub readonly_paths : List String
readonly_paths = "/etc" ∷ "/bin" ∷ "/sbin" ∷ "/usr" ∷ "/lib" ∷ "/lib64" ∷ "/boot" ∷ []

abbrev pub sensitive_host_paths : List String
sensitive_host_paths =
    "/" ∷ "/etc" ∷ "/root" ∷ "/opt/runvard" ∷ "/var/run/docker.sock" ∷ "/var/lib/docker"
    ∷ "/var/lib/libvirt" ∷ []

-- `path == root or path.startswith(root + "/")`
abbrev pub is_at_or_below : (root path : String) → Bool
is_at_or_below root path = path == root || starts_with path (root <> "/")

-- `any(... for root in roots)`
abbrev pub is_below_any : List String → String → Bool
is_below_any [] path = false
is_below_any (root ∷ roots) path = is_at_or_below root path || is_below_any roots path

module _ (F : PathLibrary) where
  unfoldable pub real_path : String → Result String
  real_path path = if path == "" then err (value_error "Path is required") else ok (F.realpath path)

  unfoldable pub is_under : String → List String → Result Bool
  is_under path roots = elim (real_path path) [
    | err e ↦ err e
    | ok resolved ↦ ok (is_below_any roots resolved)
  ]

  unfoldable pub is_blocked_path : String → Result Bool
  is_blocked_path path = is_under path blocked_paths

  unfoldable pub is_readonly_path : String → Result Bool
  is_readonly_path path = is_under path readonly_paths

  -- `if bad: raise e`, where the test may raise
  abbrev pub refuse : Result Bool → String → String → Result String
  refuse (err e) message path = err e
  refuse (ok true) message path = err (permission_error message)
  refuse (ok false) message path = ok path

  unfoldable pub guard_read_path : String → Result String
  guard_read_path path = elim (real_path path) [
    | err e ↦ err e
    | ok resolved ↦ refuse (is_blocked_path resolved) "Path is blocked" resolved
  ]

  unfoldable pub guard_write_path : String → Result String
  guard_write_path path = elim (guard_read_path path) [
    | err e ↦ err e
    | ok resolved ↦ refuse (is_readonly_path resolved) "Path is read-only" resolved
  ]

  unfoldable pub guard_host_mount : String → Result String
  guard_host_mount path = elim (guard_read_path path) [
    | err e ↦ err e
    | ok resolved ↦
        refuse (is_under resolved sensitive_host_paths) "Sensitive host path cannot be mounted"
          resolved
  ]

  -- `"/" in filename or "\\" in filename`
  abbrev has_slash : List ℕ → Bool
  has_slash [] = false
  has_slash (c ∷ cs) = eqb c b'/' || eqb c b'\\' || has_slash cs

  abbrev is_bad_name : String → Bool
  is_bad_name filename =
      filename == ""
      || has_slash (codes filename)
      || filename == "."
      || filename == ".."
      || contains (F.parts filename) ".."

  unfoldable pub safe_join : (directory filename : String) → Result String
  safe_join directory filename =
      if is_bad_name filename
      then err (value_error "Invalid filename")
      else elim (guard_write_path directory) [
        | err e ↦ err e
        | ok base ↦
            let dest = F.realpath (F.join base filename) in
            if is_at_or_below base dest
            then ok dest
            else err (value_error "Destination escapes base directory")
      ]

  check_members : String → List String → Result (Unit {0})
  check_members dest [] = ok tt
  check_members dest (member ∷ members) =
      let rest = check_members dest members in
      if is_at_or_below dest (F.realpath (F.join dest member))
      then rest
      else err (value_error "ZIP archive contains unsafe paths")

  -- The archive is the list of its members' names.
  unfoldable pub validate_zip_members : List String → (destination : String) → Result (Unit {0})
  unfolding check_members
  validate_zip_members archive destination = elim (guard_write_path destination) [
    | err e ↦ err e
    | ok dest ↦ check_members dest archive
  ]

abbrev all_of : (ℕ → Bool) → List ℕ → Bool
all_of p [] = true
all_of p (c ∷ cs) = p c && all_of p cs

-- `[...]{0,n}` to the end
abbrev pub at_most : ℕ → (ℕ → Bool) → List ℕ → Bool
at_most n p [] = true
at_most n p (c ∷ cs) = ltb 0 n && p c && at_most (n - 1) p cs

abbrev pub is_slug_char : ℕ → Bool
is_slug_char c = is_alnum c || eqb c b'_' || eqb c b'.' || eqb c b'-'

-- `SLUG_RE`
unfoldable pub is_slug : List ℕ → Bool
is_slug [] = false
is_slug (c ∷ cs) = is_alnum c && at_most 63 is_slug_char cs

-- `LINUX_NAME_RE`
unfoldable pub is_linux_name : List ℕ → Bool
is_linux_name [] = false
is_linux_name (c ∷ cs) =
    (in_range b'a' b'z' c || eqb c b'_')
    && at_most 31 (λ d. in_range b'a' b'z' d || in_range b'0' b'9' d || eqb d b'_' || eqb d b'-') cs

abbrev some_of : (ℕ → Bool) → List ℕ → Bool
some_of p [] = false
some_of p (c ∷ cs) = all_of p (c ∷ cs)

abbrev is_device_char : ℕ → Bool
is_device_char c = is_slug_char c || eqb c b'+'

-- `DEVICE_RE`: with or without "/dev/" in front
unfoldable pub is_device : String → Bool
is_device value = go (codes value)
  where
    go : List ℕ → Bool
    go (a ∷ b ∷ c ∷ d ∷ e ∷ cs) =
        some_of is_device_char (a ∷ b ∷ c ∷ d ∷ e ∷ cs)
        || (starts_with value "/dev/" && some_of is_device_char cs)
    go cs = some_of is_device_char cs

abbrev pub is_service_char : ℕ → Bool
is_service_char c = is_slug_char c || eqb c b'@' || eqb c b':' || eqb c b'+'

abbrev same_codes : List ℕ → List ℕ → Bool
same_codes [] [] = true
same_codes [] (d ∷ ds) = false
same_codes (c ∷ cs) [] = false
same_codes (c ∷ cs) (d ∷ ds) = eqb c d && same_codes cs ds

-- `.service` to the end, where the dot is any character but a newline
abbrev ends_service : List ℕ → Bool
ends_service [] = false
ends_service (c ∷ cs) = not (eqb c 10) && same_codes cs (codes "service")

-- After the first character: the class again, or a backslash and the end.
abbrev pub service_rest : List ℕ → Bool
service_rest [] = false
service_rest (c ∷ cs) =
    let rest = service_rest cs in if is_service_char c then rest else eqb c b'\\' && ends_service cs

-- `SERVICE_RE`, as it is written: the raw string's two backslashes match one.
unfoldable pub is_service : List ℕ → Bool
is_service [] = false
is_service (c ∷ cs) = is_service_char c && service_rest cs

unfoldable pub require_slug : (value label : String) → Result String
require_slug value label =
    if is_slug (codes value) then ok value else err (value_error ("Invalid " <> label))

unfoldable pub require_linux_name : (value label : String) → Result String
require_linux_name value label =
    if is_linux_name (codes value) then ok value else err (value_error ("Invalid " <> label))

unfoldable pub require_device : String → Result String
require_device value = if is_device value then ok value else err (value_error "Invalid device")

unfoldable pub require_service : String → Result String
require_service value =
    if is_service (codes value) then ok value else err (value_error "Invalid service")
