-- ===== src/Client.antt =====
-- The client's cryptography, which is reached through bindings.
pub mod Wasm
pub mod Ffi
