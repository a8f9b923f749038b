-- ===== src/External.antt =====
-- modules/external_servers/service.py: the registry of external servers, with their credentials and
-- the health of their polls. `urllib.parse`, `ipaddress`, `lower` and `int` are parameters; the clock, the
-- random ids and what a connector answers are arguments. The store of secrets is a dict of credentials,
-- whose encryption and file are left out. Ports are natural numbers.
pub mod Config
pub mod Registry
pub mod Calls
pub mod Sound
pub mod Upkeep
pub mod Tests
