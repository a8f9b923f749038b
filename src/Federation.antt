-- ===== src/Federation.antt =====
-- modules/federation: equal servers that share a signed membership.
pub mod Types
pub mod Crypto
pub mod Membership
pub mod Pairing
pub mod Nonces
pub mod Protocol
pub mod Sso
pub mod Urls
pub mod Manager
pub mod Tests
