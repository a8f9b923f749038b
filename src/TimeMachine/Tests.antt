-- ===== src/TimeMachine/Tests.antt =====
-- The theorems on the Time Machine at concrete data.
use runvard.Base.{
  String, ◌≡◌, refl, true, false, none, some, [], ◌∷◌, ok, err, Result, reply, after, string_dec,
  runtime_error, value_error, arith,
}
use runvard.TimeMachine.Records.{
  Job, replication_job, queued, running, Replication, passive, promoted, local_kind, Target,
  waiting, directory,
}
use runvard.TimeMachine.State.{State, default_state, is_id, find_replication, find_target}
use runvard.TimeMachine.Queue.{is_inactive, apply_policy, update_replication_policy}
use runvard.TimeMachine.Recovery.{recover_jobs, recover_interrupted_jobs}
use runvard.TimeMachine.Settled.{AreFates, recover_interrupted_jobs-AreFates}
use runvard.TimeMachine.Single.{IsOrderly, queue, recover, perform_all, perform_all-IsOrderly}
use runvard.TimeMachine.Run.{
  World, Worker, process_replication_queue, pick_job, start_replication, run_replication, queue_of,
}
use runvard.TimeMachine.Claims.{run_replication-active, start_replication-leaks}
use runvard.TimeMachine.Waiting.{process_replication_queue-inactive}
use runvard.TimeMachine.Policy.{promoted_active_again}
use runvard.TimeMachine.Samba.{System, Config, Daemons}

abbrev pub mirror : Replication
mirror = record {
  id = "aaaaaaaa";
  target_id = "cccccccc";
  kind = local_kind;
  remote_host = "";
  destination_root = "/mnt/b";
  destination_mount_source = "/dev/sdb1";
  enabled = true;
  status = passive;
  schedule_hour = 2;
  bandwidth_mbps = 0;
  last_scheduled_day = 0;
  created_at = 1;
  updated_at = none;
  last_attempt_at = none;
  last_complete_at = none;
  last_complete_path = none;
  last_error = none;
}

abbrev pub crashed : Job
crashed = record {
  id = "11111111";
  type = replication_job;
  replication_id = "aaaaaaaa";
  status = running;
  queued_at = some 5;
  started_at = some 6;
  finished_at = none;
  recovered_at = none;
  recovery_count = 1;
  error = none;
}

abbrev second_crash : Job
second_crash = record crashed { recovery_count = 2 }

abbrev pub waiting_one : Job
waiting_one = record crashed { status = queued; started_at = none }

abbrev pub mac : Target
mac = record {
  id = "cccccccc";
  enabled = true;
  status = waiting;
  health_code = "";
  share_name = "mac";
  owner = "ann";
  storage_root = "/mnt/a";
  mount_source = "/dev/sda1";
  path = "/mnt/a/mac";
  backend = directory;
  dataset = "";
  hard_limit_bytes = 10737418240;
  advertised_bytes = 10737418240;
  protection_policy = record { daily_points = 0; weekly_points = 0; monthly_points = 0 };
  allocated_bytes = none;
  usage_measured_at = none;
  policy_updated_at = none;
  quarantined_at = none;
  removed_at = none;
  last_activity = none;
}

abbrev interrupted : State
interrupted = record default_state { replications = mirror ∷ []; jobs = crashed ∷ [] }

abbrev cleanup : Replication → Result (Unit {0})
cleanup r = ok tt

recover_interrupted_jobs-AreFates_example :
    AreFates (crashed ∷ []) (after (recover_interrupted_jobs cleanup 9) interrupted).jobs
unfolding recover_interrupted_jobs recover_jobs find_replication is_id string_dec
recover_interrupted_jobs-AreFates_example =
    recover_interrupted_jobs-AreFates cleanup 9 interrupted ("11111111" ∷ [], []) refl

interrupted_again : State
interrupted_again = record interrupted { jobs = second_crash ∷ [] }

abbrev idle : State
idle = record default_state { replications = mirror ∷ [] }

idle-IsOrderly : IsOrderly idle
idle-IsOrderly = record { bounded = omega arith; single = λ asked. omega arith }

-- The replication is queued twice, and its job is recovered.
perform_all-IsOrderly_example : IsOrderly (
    perform_all
      (queue "aaaaaaaa" 3 "22222222" ∷ queue "aaaaaaaa" 4 "33333333" ∷ recover cleanup 5 ∷ [])
      idle)
perform_all-IsOrderly_example =
    perform_all-IsOrderly
      (queue "aaaaaaaa" 3 "22222222" ∷ queue "aaaaaaaa" 4 "33333333" ∷ recover cleanup 5 ∷ []) idle
      idle-IsOrderly

abbrev world : World
world = record {
  mount = ok tt;
  source = ok (record { total = 100; used = 10 });
  is_busy = false;
  destination = ok (record { total = 100; used = 10 });
  transfer = ok "/mnt/b/runvard-time-machine-replicas/aaaaaaaa/versions/9";
  meanwhile = λ s. s;
  begin_save = ok tt;
  complete_save = ok tt;
  fail_save = ok tt;
  finished_at = 10;
  shown = λ e. "failed";
}

abbrev worker : Worker
worker = record {
  state = record default_state {
    targets = mac ∷ [];
    replications = mirror ∷ [];
    jobs = waiting_one ∷ [];
  };
  active = ("/dev/sdx", "/dev/sdy") ∷ [];
}

run_replication-active_example :
    (after (run_replication world "aaaaaaaa" 9 (some "11111111") "") worker).active
    ≡ ("/dev/sdx", "/dev/sdy") ∷ []
unfolding pick_job is_id string_dec
run_replication-active_example =
    run_replication-active world "aaaaaaaa" 9 (some "11111111") ""
      (record waiting_one { started_at = some 9; status = running }) worker refl refl

start_replication-leaks_example :
    reply
      (start_replication world "aaaaaaaa" 20 mirror mac (some "11111111") "")
      (after (start_replication world "aaaaaaaa" 9 mirror mac (some "33333333") "") worker)
    ≡ err (runtime_error "Another replication is active for this source or destination")
unfolding pick_job is_id string_dec
start_replication-leaks_example =
    start_replication-leaks world world "aaaaaaaa" 9 20 mirror mac (some "33333333")
      (some "11111111") "" _ worker refl refl

abbrev off : Replication
off = record mirror { enabled = false }

abbrev stuck : Worker
stuck = record worker { state = record worker.state { replications = off ∷ [] } }

process_replication_queue-inactive_example : process_replication_queue (λ job. world) 9 1 stuck ≡ (
  record {
    processed = 1;
    deferred_jobs = 0;
    errors = ("11111111", value_error "Replication is not active") ∷ [];
  },
  stuck,
)
unfolding queue_of find_replication find_target is_id string_dec
process_replication_queue-inactive_example =
    process_replication_queue-inactive (λ job. world) 9 stuck waiting_one [] off mac refl refl refl
      refl

abbrev live : Replication
live = record mirror { status = promoted; enabled = false }

abbrev promoted_state : State
promoted_state = record default_state { replications = live ∷ [] }

promoted_active_again_example :
    (reply (update_replication_policy "aaaaaaaa" 3 0 true "root" 9 "e1") promoted_state
      ≡ err (value_error "A promoted replication cannot be re-enabled"))
    × (find_replication "aaaaaaaa"
          (after (update_replication_policy "aaaaaaaa" 3 0 true "root" 9 "e1") (
            after
              (update_replication_policy "aaaaaaaa" 3 0 false "root" 9 "e1")
              promoted_state)).replications
        ≡ ok (apply_policy 3 0 true 9 (apply_policy 3 0 false 9 live)))
    × (is_inactive (apply_policy 3 0 true 9 (apply_policy 3 0 false 9 live)) ≡ false)
unfolding find_replication is_id string_dec
promoted_active_again_example =
    promoted_active_again "aaaaaaaa" 3 0 "root" 9 "e1" promoted_state live refl refl refl refl

abbrev pub system : System
system = record { strip = λ text. text; normpath = λ text. text; decimal = λ n. "10" }

abbrev pub up : Daemons
up = record { testparm = ok tt; smbd = ok tt; avahi_daemon = ok tt }

-- Avahi does not reload.
abbrev deaf : Daemons
deaf = record up { avahi_daemon = err (runtime_error "Avahi reload failed") }

abbrev pub empty_file : String
empty_file =
    "# Managed by runvard. Manual changes are reported as configuration drift.\n# Time Machine targets are dedicated shares; do not store other files here.\n"

abbrev config : Config
config = record { samba = some empty_file; avahi = none }
