-- ===== src/TimeMachine/SiteTests.antt =====
-- The theorems on the targets of the Time Machine at concrete data.
use runvard.Base.{
  String, refl, true, false, none, some, [], ◌∷◌, ok, All, after, string_dec, starts_with, prefix,
  text_length, ◌==◌, ◌&&◌, ◌≤◌, count_if, if◌then◌else◌,
}
use runvard.TimeMachine.Records.{Target, zfs, Point, daily}
use runvard.TimeMachine.State.{State, default_state, is_id, find_target}
use runvard.TimeMachine.Samba.{
  share_block, validate_share, validate_account, clean_text, validate_target_path, size_for_samba,
  activate_managed_config, has_drift, activate_samba_config, activate_avahi_config,
  render_samba_config,
}
use runvard.TimeMachine.Targets.{
  Site, Host, commit, quarantine_code, unavailable, quarantine_unavailable_targets,
}
use runvard.TimeMachine.Removal.{without_target, remove_target}
use runvard.TimeMachine.Points.{
  OsPath, Scene, is_kind, prune_protection_points, destroy_all, candidates, surplus, check_point,
}
use runvard.TimeMachine.Retention.{prune_protection_points-bounded}
use runvard.TimeMachine.Retired.{
  IsRetired, IsUsable, remove_target-IsRetired, quarantine_unavailable_targets-IsUsable,
}
use runvard.TimeMachine.Tests.{mac, mirror, waiting_one, system, up, empty_file}

-- The disk of the first target is mounted; nothing else is.
abbrev host : Host
host = record {
  system = system;
  mount_info = λ root.
      if root == "/mnt/a"
      then some (record { mountpoint = "/mnt/a"; source = "/dev/sda1" })
      else none;
  realpath = λ path. path;
  is_dir = λ path. true;
  allocated = λ target. ok 0;
  open_handles = λ target. false;
  quota = ok tt;
  quota_back = ok tt;
  daemons = up;
  again = up;
  undo = up;
  undo_again = up;
  save = ok tt;
}

-- A target that is not on the disk that it was made on. It is off for Samba, so that its file is the empty one.
abbrev lost : Target
lost = record mac { id = "dddddddd"; share_name = "old"; storage_root = "/mnt/z"; enabled = false }

abbrev site : Site
site = record {
  state = record default_state {
    targets = lost ∷ [];
    replications = record mirror { target_id = "dddddddd" } ∷ [];
    jobs = waiting_one ∷ [];
  };
  config = record { samba = some empty_file; avahi = none };
  quotas = [];
}

remove_target-IsRetired_example :
    IsRetired "dddddddd" (after (remove_target host "dddddddd" "root" 9 "e1") site).state
unfolding remove_target find_target is_id string_dec commit without_target activate_managed_config
    has_drift activate_samba_config activate_avahi_config render_samba_config
remove_target-IsRetired_example = remove_target-IsRetired host "dddddddd" "root" 9 "e1" site refl

-- The target is on, and its disk is gone: the file for Samba has it.
abbrev lonely : Target
lonely = record mac { storage_root = "/mnt/z" }

abbrev lonely_file : String
lonely_file =
    "# Managed by runvard. Manual changes are reported as configuration drift.\n# Time Machine targets are dedicated shares; do not store other files here.\n\n[mac]\n   comment = runvard Time Machine target cccccccc\n   path = /mnt/a/mac\n   browseable = yes\n   read only = no\n   guest ok = no\n   valid users = ann\n   create mask = 0600\n   directory mask = 0700\n   vfs objects = catia fruit streams_xattr\n   fruit:time machine = yes\n   fruit:time machine max size = 10G\n   server smb encrypt = required\n   hosts allow = 127.0.0.1 ::1 10.0.0.0/8 172.16.0.0/12 192.168.0.0/16 100.64.0.0/10 169.254.0.0/16 fc00::/7 fe80::/10\n"

abbrev lonely_site : Site
lonely_site = record site {
  state = record default_state { targets = lonely ∷ [] };
  config = record { samba = some lonely_file; avahi = none };
}

quarantine_unavailable_targets-IsUsable_example :
    All
      (IsUsable host)
      (after (quarantine_unavailable_targets host (λ target_id. "e1") 9) lonely_site).state.targets
unfolding quarantine_unavailable_targets quarantine_code unavailable string_dec commit
    activate_managed_config has_drift activate_samba_config activate_avahi_config
    render_samba_config share_block validate_share validate_account clean_text validate_target_path
    starts_with prefix text_length is_id size_for_samba
quarantine_unavailable_targets-IsUsable_example =
    quarantine_unavailable_targets-IsUsable host (λ target_id. "e1") 9 lonely_site
      (("cccccccc", "mount_missing") ∷ []) refl

-- A target that keeps one daily point, and has two.
abbrev pool : Target
pool = record mac {
  backend = zfs;
  dataset = "tank/mac";
  protection_policy = record { daily_points = 1; weekly_points = 0; monthly_points = 0 };
}

abbrev older : Point
older = record {
  id = "p1";
  target_id = "cccccccc";
  kind = daily;
  backend = zfs;
  native_name = "tank/mac@runvard-daily-1";
  created_at = 1;
}

abbrev newer : Point
newer = record older { id = "p2"; native_name = "tank/mac@runvard-daily-2"; created_at = 2 }

abbrev os_path : OsPath
os_path = record { realpath = λ path. path; join = λ parts. ""; commonpath = λ path other. "" }

abbrev scene : Scene
scene = record {
  mount = ok tt;
  is_busy = false;
  snapshot = ok tt;
  destroy = λ point. ok tt;
  save = ok tt;
}

abbrev pool_state : State
pool_state = record default_state { targets = pool ∷ []; protection_points = newer ∷ older ∷ [] }

prune_protection_points-bounded_example :
    count_if
      (λ point. point.target_id == "cccccccc" && is_kind point.kind daily)
      (after
        (prune_protection_points os_path (λ n. "1") "cccccccc" scene)
        pool_state).protection_points
    ≤ 1
unfolding prune_protection_points find_target is_id string_dec destroy_all candidates surplus
    check_point starts_with prefix text_length
prune_protection_points-bounded_example =
    prune_protection_points-bounded os_path (λ n. "1") "cccccccc" daily scene pool_state pool 1 refl
      refl (refl, (refl, tt)) refl
