-- ===== src/External/Tests.antt =====
-- A history of the registry, and a run of polls.
use runvard.Base.{◌≡◌, refl, true, false, none, some, List, [], ◌∷◌, ok, err, runtime_error, arith}
use runvard.Base.Dict
use runvard.Federation.Urls.{Url}
use runvard.External.Config.{Library, Flag, RawConfig, Credentials}
use runvard.External.Registry.{Manager, Snapshot, Files, Answer, no_status, polled}
use runvard.External.Calls.{Call, perform_all}
use runvard.External.Sound.{IsSound}
use runvard.External.Upkeep.{perform_all-IsSound}

abbrev url : Url
url = record {
  scheme = "https";
  netloc = "h:5986";
  username = none;
  password = none;
  path = "/wsman";
  query = "";
  fragment = "";
  hostname = some "h";
  port = ok (some 5986);
}

abbrev library : Library
library = record {
  urls = record {
    strip = λ text. text;
    rstrip_slash = λ text. text;
    urlsplit = λ text. url;
    ip_address = λ text. some text;
    ip_network = λ text. some text;
    ip_version = λ text. 4;
    is_in = λ address network. true;
  };
  lower = λ text. text;
  int = λ text. some 22;
}

abbrev desktop : RawConfig
desktop = record {
  name = "desktop";
  kind = "windows";
  admin_url = "https://h";
  enabled = Flag.absent;
  verify_tls = Flag.flag false;
  host = "";
  port = "";
  username = "root";
  host_key = "";
  status_url = "https://h:5986/wsman";
  node = "";
}

abbrev secret : Credentials
secret = record {
  private_key = "";
  passphrase = "";
  token_id = "";
  token_secret = "";
  password = "pw";
}

abbrev blank : Snapshot
blank = record { values = ""; updates = none }

abbrev no_servers : Manager
no_servers = record {
  state = record { servers = []; statuses = [] };
  saved = record { servers = []; statuses = [] };
  secrets = [];
}

no_servers-IsSound : IsSound library no_servers
unfolding Dict.get
no_servers-IsSound = record { at_id = λ id. refl; bounded = omega arith }

abbrev writable : Files
writable = record { read = ok tt; secrets = ok tt; state = ok tt }

-- The state file cannot be written.
abbrev full_disk : Files
full_disk = record writable { state = err (runtime_error "No space left on device") }

-- A poll of the server ends after the server was deleted.
abbrev calls : List Call
calls =
    Call.create desktop (some secret) "s1" blank full_disk
    ∷ Call.update "s1" (record desktop { kind = "linux" }) none writable
    ∷ Call.delete "s1" writable
    ∷ Call.poll_finish "s1" no_status (ok tt)
    ∷ []

perform_all-IsSound_example : IsSound library (perform_all library calls no_servers)
perform_all-IsSound_example =
    perform_all-IsSound library calls no_servers refl (refl, (refl, (refl, (tt, tt))))
      no_servers-IsSound

-- The third failure in a row takes a server offline, and its snapshot stays.
offline :
    polled false 130 (Answer.failed "timeout") (
      polled false 115 (Answer.failed "timeout") (
        polled false 101
          (Answer.failed "timeout")
          (polled false 100 (Answer.collected "cpu" (some (some "3 updates"))) no_status)))
    ≡ record {
      health = some "offline";
      failures = some 3;
      snapshot = some (record { values = "cpu"; updates = some "3 updates" });
      last_attempt = some 130;
      last_success = some 100;
      updates_checked_at = some 100;
      error = some "timeout";
    }
unfolding polled
offline = refl
