-- ===== src/Server/Terminals.antt =====
-- The registry of modules/terminal.py: the sessions that run, with their owners. What the sessions do
-- is left out; a session that is killed is one that is taken off the registry here.
use runvard.Base.{
  ℕ, String, Bool, false, Option, none, some, List, [], ◌∷◌, not, ◌&&◌, ◌||◌, opt_eq, is_blank,
  length, if◌then◌else◌, permission_error, ok, err, Action, count_if,
}
use runvard.Base.Dict
use runvard.Base.Dict.{Dict, values}

-- `_ACTIVE_SESSIONS`: the owner of each session.
abbrev pub Sessions : Type 0
Sessions = Dict (Option String)

abbrev pub any_owner : Option String → List (Option String) → Bool
any_owner owner [] = false
any_owner owner (current ∷ rest) = opt_eq current owner || any_owner owner rest

unfoldable pub register_session : (session_id : String) → Option String → Action Sessions (Unit {0})
register_session session_id owner sessions =
    if not (is_blank owner) && any_owner owner (values sessions)
    then (err (permission_error "A root terminal is already active for this user"), sessions)
    else (ok tt, Dict.insert session_id owner sessions)

unfoldable pub unregister_session : String → Sessions → Sessions
unregister_session session_id sessions = Dict.erase session_id sessions

unfoldable pub active_session_count : Option String → Sessions → ℕ
active_session_count none sessions = length sessions
active_session_count (some owner) sessions =
    count_if (λ current. opt_eq current (some owner)) (values sessions)

unfoldable pub kill_user_sessions : Option String → Sessions → Sessions
kill_user_sessions owner sessions = Dict.prune (λ current. opt_eq current owner) sessions

unfoldable pub kill_all_sessions : Sessions → Sessions
kill_all_sessions sessions = []
