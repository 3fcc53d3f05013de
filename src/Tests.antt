-- ===== src/Tests.antt =====
-- Concrete crates, runs on small inputs, and the theorems at concrete data.
mod ToyJson
mod ToyCrates
mod ToyCiphers
mod Session
mod RingBuffer
mod Relay
mod Meeting
mod Envelopes
mod Opening
mod Silence
mod Handshake
mod Client
mod Wait
mod Run
mod Main
mod Entry
