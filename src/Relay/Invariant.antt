-- ===== src/Relay/Invariant.antt =====
-- What holds of the relay's shared state whatever the order of the sections.
pub mod Peers
pub mod Rooms
pub mod State
pub mod Sections
pub mod Steps
