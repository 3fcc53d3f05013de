-- ===== src/Meeting.antt =====
-- Agent, relay and client together: theorems over the definitions of the agent
-- (backend/agent/src/session.rs) and of the relay (backend/relay/src/main.rs) at once.
pub mod Stamps
pub mod Offer
pub mod Joins
pub mod Greeting
pub mod Relayed
pub mod Rendezvous
pub mod Passing
pub mod Opening
pub mod Envelopes
