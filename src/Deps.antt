-- ===== src/Deps.antt =====
-- The third-party crates, as records of the operations that the code calls. The laws that the
-- proofs rely on are records of their own, so that a theorem names what it assumes.
pub mod Json
pub mod Ciphers
pub mod Serde
pub mod Crates
pub mod PortablePty
