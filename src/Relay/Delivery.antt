-- ===== src/Relay/Delivery.antt =====
-- Which channels a section writes to, and what.
pub mod Sending
pub mod Forwarding
pub mod Stripping
