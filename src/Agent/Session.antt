-- ===== src/Agent/Session.antt =====
-- backend/agent/src/session.rs
pub mod State
pub mod SyncReq
pub mod Bridge
pub mod Traffic
pub mod History
pub mod Rounds
pub mod Printed
pub mod Recovery
pub mod Guards
pub mod Secrecy
pub mod Handshake
pub mod Wait
pub mod Joining
pub mod Run
