-- ===== src/Relay.antt =====
-- backend/relay/src/main.rs
pub mod Channel
pub mod Room
pub mod RoomMap
pub mod State
pub mod Handler
pub mod Socket
pub mod Entry
pub mod Invariant
pub mod Delivery
pub mod Membership
