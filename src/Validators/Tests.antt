-- ===== src/Validators/Tests.antt =====
-- The theorems on validators at concrete data. The toy file system has no links.
use runvard.Base.{
  String, ◌<>◌, ◌≡◌, refl, [], ◌∷◌, ◌++◌, All, ok, err, value_error, string_dec, starts_with,
  prefix, text_length,
}
use runvard.Validators.{
  PathLibrary, blocked_paths, readonly_paths, real_path, is_under, is_blocked_path,
  is_readonly_path, guard_read_path, guard_write_path, safe_join, validate_zip_members, is_slug,
  require_slug, is_service, require_service, is_device, require_device, is_linux_name,
  require_linux_name,
}
use runvard.Validators.Paths.{
  IsInside, IsOpen, guard_write_path-IsOpen, safe_join-IsInside, validate_zip_members-IsInside,
}

abbrev files : PathLibrary
files = record {
  realpath = λ path. path;
  join = λ base name. base <> ("/" <> name);
  parts = λ name. name ∷ [];
}

writable : guard_write_path files "/srv" ≡ ok "/srv"
unfolding guard_write_path guard_read_path is_readonly_path is_blocked_path is_under real_path
    starts_with prefix text_length string_dec
writable = refl

guard_write_path-IsOpen_example : IsOpen files (blocked_paths ++ readonly_paths) "/srv" "/srv"
guard_write_path-IsOpen_example = guard_write_path-IsOpen files "/srv" refl "/srv" writable

joined : safe_join files "/srv" "a.txt" ≡ ok "/srv/a.txt"
unfolding safe_join guard_write_path guard_read_path is_readonly_path is_blocked_path is_under
    real_path starts_with prefix text_length string_dec
joined = refl

safe_join-IsInside_example :
    (base : String) × (guard_write_path files "/srv" ≡ ok base) × IsInside base "/srv/a.txt"
safe_join-IsInside_example = safe_join-IsInside files "/srv" "a.txt" "/srv/a.txt" joined

let_through : validate_zip_members files ("a.txt" ∷ "b/c.txt" ∷ []) "/srv" ≡ ok tt
unfolding validate_zip_members guard_write_path guard_read_path is_readonly_path is_blocked_path
    is_under real_path starts_with prefix text_length string_dec
let_through = refl

validate_zip_members-IsInside_example :
    (dest : String) × (guard_write_path files "/srv" ≡ ok dest)
    × All
        (λ (member : String). IsInside dest (files.realpath (files.join dest member)))
        ("a.txt" ∷ "b/c.txt" ∷ [])
validate_zip_members-IsInside_example =
    validate_zip_members-IsInside files ("a.txt" ∷ "b/c.txt" ∷ []) "/srv" let_through

slug : require_slug "my-app_1.2" "app" ≡ ok "my-app_1.2"
unfolding require_slug is_slug
slug = refl

-- The pattern wants a backslash and one more character before `service`.
odd_service : require_service "ssh\\xservice" ≡ ok "ssh\\xservice"
unfolding require_service is_service
odd_service = refl

devices :
    (require_device "/dev/sda1" ≡ ok "/dev/sda1")
    × (require_device "sda1" ≡ ok "sda1")
    × (require_device "/dev/" ≡ err (value_error "Invalid device"))
    × (require_device "../sda" ≡ err (value_error "Invalid device"))
unfolding require_device is_device starts_with prefix text_length string_dec
devices = (refl, refl, refl, refl)

linux_names :
    (require_linux_name "www-data" "user" ≡ ok "www-data")
    × (require_linux_name "Root" "user" ≡ err (value_error "Invalid user"))
unfolding require_linux_name is_linux_name
linux_names = (refl, refl)
