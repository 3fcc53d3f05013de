-- ===== src/Common.antt =====
-- backend/common/src: the crate that agent, relay tests and shims share.
pub mod Constants
pub mod Crypto
pub mod Messages
