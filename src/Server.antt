-- ===== src/Server.antt =====
-- server.py: who may call which route. Sessions are signed cookies; a request is a record of what the
-- handlers read of it.
pub mod Session
pub mod Roundtrip
pub mod Requests
pub mod Danger
pub mod Rate
pub mod Limit
pub mod Terminals
pub mod App
pub mod Guards
pub mod Login
pub mod Changes
pub mod Owners
pub mod Tests
