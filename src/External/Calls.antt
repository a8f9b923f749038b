-- ===== src/External/Calls.antt =====
-- The operations of `ExternalServerManager` as data, so that a history is a list of calls.
use runvard.Base.{String, Option, List, [], ◌∷◌, after, Result}
use runvard.External.Config.{Library, Flag, RawConfig, Credentials}
use runvard.External.Registry
use runvard.External.Registry.{Manager, Status, Snapshot, Files}

-- A poll takes the lock twice, so that other operations come in between.
pub data Call : Type 0 where
  create : RawConfig → Option Credentials → String → Snapshot → Files → Call
  update : String → RawConfig → Option Credentials → Files → Call
  set_enabled : String → Flag → (written : Result (Unit {0})) → Call
  delete : String → Files → Call
  poll_finish : String → Status → (written : Result (Unit {0})) → Call

unfoldable pub perform : Library → Call → Manager → Manager
perform L (Call.create source credentials id blank files) m =
    after (Registry.create L source credentials id blank files) m
perform L (Call.update id source credentials files) m =
    after (Registry.update L id source credentials files) m
perform L (Call.set_enabled id enabled written) m =
    after (Registry.set_enabled L id enabled written) m
perform L (Call.delete id files) m = after (Registry.delete id files) m
perform L (Call.poll_finish id updated written) m = Registry.poll_finish id updated written m

unfoldable pub perform_all : Library → List Call → Manager → Manager
perform_all L [] m = m
perform_all L (c ∷ cs) m = perform_all L cs (perform L c m)
