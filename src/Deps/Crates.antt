-- ===== src/Deps/Crates.antt =====
-- The crates that the agent calls, together.
use ktty.Base.{ℕ, Bytes, ◌≡◌, length}
use ktty.Common.Constants.{nonce_len}
use ktty.Deps.Json.{Json}
use ktty.Deps.Serde.{Serde, SerdeLaws}
use ktty.Deps.Ciphers.{Encodings, EncodingsLaws, Aead, AeadLaws, Hmac, Kem}

pub record Crates : Type 1 where
  pub json : Json
  pub serde : Serde
  pub encodings : Encodings
  pub aead : Aead
  pub hmac : Hmac
  pub kem : Kem
  pub nonce : ℕ → Bytes  -- what the generator yields, in the order of the draws

-- What the proofs about the encrypted traffic rely on.
pub record TrafficLaws (X : Crates) : Type 0 where
  pub serde : SerdeLaws X.serde
  pub encodings : EncodingsLaws X.encodings
  pub aead : AeadLaws X.aead
  pub length-nonce : (i : ℕ) → length (X.nonce i) ≡ nonce_len
