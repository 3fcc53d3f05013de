-- ===== src/Agent.antt =====
-- backend/agent/src: the program on the host.
pub mod RingBuffer
pub mod Pty
pub mod Session
pub mod Startup
pub mod Main
