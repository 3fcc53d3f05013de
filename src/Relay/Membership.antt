-- ===== src/Relay/Membership.antt =====
-- How peers enter and leave a room.
pub mod Joining
pub mod Leaving
pub mod Sweeping
pub mod Ages
pub mod Silence
pub mod Slots
pub mod Reuse
