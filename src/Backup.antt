-- ===== src/Backup.antt =====
-- modules/backup.py: the jobs that copy a folder, their history, and the checks of their paths. The two
-- lists are what `_load` reads and `_save` writes. `os.path` is a parameter, and what the file system answers to
-- a call is its `Disk`.
pub mod Climb
pub mod Safe
pub mod Tests
use runvard.Base.{
  ℕ, zero, suc, ◌+◌, ◌-◌, ◌<>◌, String, Bool, true, false, Option, none, some, List, [], ◌∷◌, ◌++◌,
  not, ◌&&◌, ◌||◌, ltb, leb, eqb, ◌==◌, length, first_of, keep, contains, text_length, starts_with,
  if◌then◌else◌, value_error, Error, Result, ok, err, Action, pure, raise, raise_if, lift, modify,
  gets, continue, ◌>>=◌, ◌>>◌,
}

-- `os.path`: `real` is `realpath(abspath(path))`, and `commonpath` is `none` where it raises.
pub record Paths : Type 0 where
  pub real : String → String
  pub commonpath : String → String → Option String
  pub dirname : String → String
  pub isabs : String → Bool
  pub strip : String → String

-- `os.stat(...).st_dev` and `shutil.disk_usage`, which may raise
pub record Space : Type 0 where
  pub device : ℕ
  pub free : ℕ
  pub total : ℕ

pub record Disk : Type 0 where
  pub exists : String → Bool
  pub isdir : String → Bool
  pub is_readable : String → Bool
  pub is_writable : String → Bool
  pub space : String → Option Space
  pub makedirs : Result (Unit {0})

abbrev pub blocked_paths : List String
blocked_paths = "/proc" ∷ "/sys" ∷ "/dev" ∷ "/run" ∷ []

pub record Validation : Type 0 where
  pub source : String
  pub dest : String
  pub same_filesystem : Bool
  pub free : ℕ
  pub total : ℕ

pub record Job : Type 0 where
  pub id : ℕ
  pub name : String
  pub source : String
  pub dest : String
  pub schedule : String
  pub direction : String
  pub last_run : Option ℕ

-- An entry of the history.
pub record Entry : Type 0 where
  pub job_id : ℕ
  pub name : String
  pub time : ℕ
  pub duration : ℕ
  pub success : Bool
  pub output : String

pub record Store : Type 0 where
  pub jobs : List Job
  pub history : List Entry

abbrev pub schedules : List String
schedules = "manual" ∷ "hourly" ∷ "daily" ∷ "weekly" ∷ []

-- What rsync did: whether it returned 0, the end of its output, and how long it took. It raises where there
-- is no rsync or its time is over.
pub record Copied : Type 0 where
  pub success : Bool
  pub output : String
  pub duration : ℕ

abbrev pub find_job : ℕ → List Job → Option Job
find_job job_id [] = none
find_job job_id (job ∷ jobs) =
    let rest = find_job job_id jobs in if eqb job.id job_id then some job else rest

-- `job["last_run"] = start`, of the job that was found
abbrev pub mark_run : ℕ → ℕ → List Job → List Job
mark_run job_id start [] = []
mark_run job_id start (job ∷ jobs) =
    let rest = mark_run job_id start jobs in
    if eqb job.id job_id then record job { last_run = some start } ∷ jobs else job ∷ rest

abbrev pub entry_of : Job → ℕ → Copied → Entry
entry_of job start copied = record {
  job_id = job.id;
  name = job.name;
  time = start;
  duration = copied.duration;
  success = copied.success;
  output = copied.output;
}

abbrev pub ran : Job → ℕ → Copied → Store → Store
ran job start copied s = record {
  jobs = mark_run job.id start s.jobs;
  history = first_of 100 (entry_of job start copied ∷ s.history);
}

module _ (P : Paths) where
  abbrev is_below_any : List String → String → Bool
  is_below_any [] resolved = false
  is_below_any (blocked ∷ rest) resolved =
      resolved == P.real blocked
      || starts_with resolved (P.real blocked <> "/")
      || is_below_any rest resolved

  unfoldable pub is_blocked : String → Bool
  is_blocked path = is_below_any blocked_paths (P.real path)

  abbrev same_path : Option String → String → Bool
  same_path none parent = false
  same_path (some common) parent = common == parent

  unfoldable pub is_within : (path parent : String) → Bool
  is_within path parent = same_path (P.commonpath (P.real path) (P.real parent)) (P.real parent)

  -- The loop, with room for `fuel` steps.
  unfoldable pub climb : Disk → (fuel : ℕ) → String → String
  climb disk zero current = current
  climb disk (suc fuel) current =
      let above = climb disk fuel (P.dirname current) in
      if disk.exists current || P.dirname current == current then current else above

  -- A path is longer than its parent, so that its length is room enough.
  unfoldable pub existing_ancestor : Disk → String → String
  existing_ancestor disk path = let start = P.real path in climb disk (text_length start) start

  abbrev described : (source dest : String) → Option Space → Option Space → Result Validation
  described source dest none there = err (value_error "The destination cannot be inspected")
  described source dest (some here) none = err (value_error "The destination cannot be inspected")
  described source dest (some here) (some there) = ok (record {
    source = source;
    dest = dest;
    same_filesystem = eqb here.device there.device;
    free = there.free;
    total = there.total;
  })

  abbrev check_pair : Disk → (source dest : String) → Result Validation
  check_pair disk source dest =
      if is_blocked source || is_blocked dest
      then err (value_error "This system location is not available for backups")
      else if not (P.isabs source) || not (disk.isdir source)
      then err (value_error "The source folder does not exist")
      else if not (disk.is_readable source)
      then err (value_error "The source folder is not readable")
      else if source == dest
      then err (value_error "Source and destination must be different")
      else if is_within dest source
      then err (value_error "The destination cannot be inside the source")
      else if is_within source dest
      then err (value_error "The source cannot be inside the destination")
      else if not (disk.isdir (existing_ancestor disk dest))
      then err (value_error "The destination parent does not exist")
      else if not (disk.is_writable (existing_ancestor disk dest))
      then err (value_error "The destination is not writable")
      else described source dest (disk.space source) (disk.space (existing_ancestor disk dest))

  unfoldable pub validate_paths : Disk → (source dest : String) → Result Validation
  validate_paths disk source dest = check_pair disk (P.real source) (P.real dest)

  -- `now` is the time in whole seconds.
  unfoldable pub add_job :
      Disk → (name source dest schedule direction : String) → (now : ℕ) → Action Store Validation
  add_job disk name source dest schedule direction now = do
    validation ← lift (validate_paths disk source dest)
    raise_if (P.strip name == "") (value_error "A backup name is required")
    raise_if (not (contains schedules schedule)) (value_error "Unsupported backup schedule")
    modify (λ s. record s {
      jobs =
          s.jobs
          ++ (record {
            id = now;
            name = P.strip name;
            source = validation.source;
            dest = validation.dest;
            schedule = schedule;
            direction = direction;
            last_run = none;
          }
              ∷ []);
    })
    pure validation

  unfoldable pub delete_job : (job_id : ℕ) → Store → Store
  delete_job job_id s = record s { jobs = keep (λ job. not (eqb job.id job_id)) s.jobs }

  abbrev pub copy : Option Job → Disk → ℕ → Result Copied → Action Store Copied
  copy none disk start rsync = raise (value_error "Job nicht gefunden")
  copy (some job) disk start rsync = do
    _ ← lift (validate_paths disk job.source job.dest)
    lift disk.makedirs
    copied ← lift rsync
    modify (ran job start copied)
    pure copied

  -- The errors that the code answers with `{"ok": False}` are raised here.
  unfoldable pub run_job : (job_id : ℕ) → Disk → (start : ℕ) → Result Copied → Action Store Copied
  run_job job_id disk start rsync s = copy (find_job job_id s.jobs) disk start rsync s
