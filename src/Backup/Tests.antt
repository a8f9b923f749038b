-- ===== src/Backup/Tests.antt =====
-- The theorems on backups at concrete data. A toy path is its own real path, and its parent is the empty
-- text.
use runvard.Base.{
  String, ◌<◌, ◌≡◌, true, false, none, some, List, [], ◌∷◌, ok, ◌==◌, arith, text_length,
  string_dec,
}
use runvard.Backup.{Paths, Disk, Store, existing_ancestor}
use runvard.Backup.Climb.{IsEnd, existing_ancestor-IsEnd}
use runvard.Backup.Safe.{IsSafe, BackupCall, add, delete, run, perform_all, perform_all-IsSafe}

abbrev paths : Paths
paths = record {
  real = λ path. path;
  commonpath = λ path parent. none;
  dirname = λ path. "";
  isabs = λ path. true;
  strip = λ text. text;
}

abbrev disk : Disk
disk = record {
  exists = λ path. path == "/home/ann";
  isdir = λ path. true;
  is_readable = λ path. true;
  is_writable = λ path. true;
  space = λ path. some (record { device = 1; free = 5; total = 10 });
  makedirs = ok tt;
}

shorter : (path : String) → ("" == path) ≡ false → 0 < text_length path
unfolding text_length string_dec
shorter String.[] h = absurd (ground arith)
shorter (String.◌∷◌ c path) h = omega arith

existing_ancestor-IsEnd_example : IsEnd paths disk (existing_ancestor paths disk "/home/ann/copies")
unfolding text_length
existing_ancestor-IsEnd_example = existing_ancestor-IsEnd paths disk shorter "/home/ann/copies"

abbrev nothing : Store
nothing = record { jobs = []; history = [] }

nothing-IsSafe : IsSafe paths nothing
nothing-IsSafe = record { sound = tt; bounded = omega arith }

abbrev calls : List (BackupCall paths)
calls =
    add disk "photos" "/home/ann" "/mnt/usb" "daily" "push" 100
    ∷ run 100 disk 200 (ok (record { success = true; output = ""; duration = 1 }))
    ∷ delete 7
    ∷ []

perform_all-IsSafe_example : IsSafe paths (perform_all paths calls nothing)
perform_all-IsSafe_example = perform_all-IsSafe paths calls nothing nothing-IsSafe
