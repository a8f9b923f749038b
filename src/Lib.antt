-- ===== src/Lib.antt =====
-- A model of the core of runvard, a web front end for one Linux host that can be joined with others
-- into a federation of equal servers: who may do what, and the server's part of macOS backups. Paths are
-- those of the repository.
--
-- The parts and their files:
--   Base         Python's exceptions (`Result`), methods that change an object and may raise
--                (`Action`), dicts (`Dict`), tests on numbers and texts, parts of texts, and rules for
--                invariants.
--   Tokens       modules/security_tokens.py. `Stores` holds the module's two dicts; the functions
--                keep their names. A dangerous action needs a confirmation token, a terminal
--                session a terminal token.
--   Jobs         modules/jobs.py. `start_job`, `get_job` and `list_jobs`; `finish_job` is the end of
--                `runner` in its thread. A run is a list of steps: what holds the lock, and the
--                start of a thread (`launch_job`), which may fail.
--   Accounts     modules/accounts.py. The operations on the dict of accounts.
--   Server       server.py. Session makes and reads the signed cookies, Requests has the checks of
--                requests, Rate the limit on attempts to sign in, Danger the table of the requests that
--                want a confirmation, App the handlers for signing in and out, confirmations, expert
--                mode, terminals and accounts, on the state that they share (`App`). Terminals is the
--                registry of modules/terminal.py.
--   TimeMachine  modules/time_machine.py. Records and State hold the state file; Queue has the jobs that
--                wait, Recovery what becomes of jobs that a worker left running, Run the runs of
--                replications (`run_replication` ends with `start_replication`, and the transfer of data is the
--                field `transfer` of its `World`), Samba the files for Samba and Avahi with their ways
--                back, Targets and Removal the operations on targets, Points the protection points.
--   Validators   modules/validators.py. The guards of paths, over `os.path.realpath` as a parameter,
--                and the patterns of names, as scans of the character codes.
--   Backup       modules/backup.py. The checks of the folders, `add_job`, `delete_job` and `run_job`;
--                what rsync does is an argument.
--   Audit        modules/audit.py. `sanitize_payload` and `record_event`; the log is a list.
--   Alerts       modules/monitoring.py. `add_alert_rule` and `trigger_alert`, and from
--                modules/time_machine.py `_emit_deduplicated_alert`; what the senders answer is an
--                argument.
--   External     modules/external_servers/service.py. Config checks the configuration and the
--                credentials of an external server, Registry has the operations of
--                `ExternalServerManager`, with `_poll_one` in the two parts that hold the lock
--                (`poll_start`, `poll_finish`) and what it computes between them (`polled`). What its
--                files answer to an operation is its `Files`.
--   Federation   modules/federation. Types holds the dicts that are exchanged and stored, as
--                records. Crypto (crypto.py) signs payloads; Membership (membership.py) applies
--                signed events; Pairing (pairing.py) keeps the codes that let a server join; Nonces
--                and Protocol (protocol.py) let signed requests in, once each; Sso (sso.py) keeps
--                the tickets of sign-ins on other servers; Urls has `validate_internal_url` of
--                protocol.py and `validate_browser_url` of service.py. Manager (service.py) is one
--                server, `FederationManager`: Manager has its state and `enable`, `update_settings`
--                and `revoke`, Manager.Pair has pairing, Manager.Peers the requests of peers, polls
--                and sign-ins, Manager.Calls all of them as data. `join` is in two parts,
--                `join_request` and `join_finish`, since the lock is released between them.
--
-- The clock, random tokens, the answers of other servers and the environment are arguments. Times
-- are natural numbers: whole seconds in the federation and for external servers, where the code
-- reads `int(time.time())`, and microseconds elsewhere. JSON, SHA-256, Ed25519, PBKDF2,
-- `urllib.parse`, `ipaddress`,
-- `os.path`, the commands and the daemons are parameters; a theorem that needs a law of theirs has
-- it as a hypothesis. All functions recur on their data, except that `climb` of Backup has fuel, of which the length of
-- the path is enough. A dict that is assumed
-- to list no key twice is so in Python.
--
-- A thread that does not hold the lock during a transfer lets the others change the state: that is the
-- field `meanwhile` of a `World`. Its fields `begin_save`, `complete_save` and `fail_save` are what the state
-- file answers; elsewhere in TimeMachine the field `save` of a `Host` is, where the code undoes what it did
-- when the file cannot be written.
--
-- Not modelled: HTTP, files (the field `saved` of a server stands for its state file), other threads
-- than those of jobs and of replications, the routes that only hand their arguments to a module, the drivers
-- of Docker, virtual machines, disks and the system, the creation and promotion of backup targets, smb.conf
-- but for the file that it includes, and the replies `overview`, `admin_list`, `snapshot` and `signed_response`,
-- which change no state that the operations read. The fields that the code reads as `str(x or "")` are texts.
-- The fingerprint of a pairing request is the one without blanks around it.
pub mod Accounts
pub mod Alerts
pub mod Audit
pub mod Backup
pub mod Base
pub mod External
pub mod Federation
pub mod Jobs
pub mod Server
pub mod TimeMachine
pub mod Tokens
pub mod Validators
