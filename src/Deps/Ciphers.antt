-- ===== src/Deps/Ciphers.antt =====
-- The cryptographic crates and the two text encodings.
use ktty.Base.{
  ℕ, ◌+◌, ◌-◌, ◌*◌, ◌^◌, ◌<◌, Text, Bytes, ◌≡◌, Bool, true, ◌↔◌, Option, some, length, Result,
}
use ktty.Common.Constants.{nonce_len, mac_len}

-- `hex::encode` and the standard alphabet of the `base64` crate.
pub record Encodings : Type 0 where
  pub hex_encode : Bytes → Text
  pub base64_encode : Bytes → Text
  pub base64_decode : Text → Option Bytes

pub record EncodingsLaws (E : Encodings) : Type 0 where
  pub length-hex_encode : (b : Bytes) → length (E.hex_encode b) ≡ 2 * length b
  pub hex_encode-injective : (a b : Bytes) → E.hex_encode a ≡ E.hex_encode b → a ≡ b
  pub decode-encode : (b : Bytes) → E.base64_decode (E.base64_encode b) ≡ some b

-- `chacha20poly1305`: a cipher made from a key, and its two operations. The ciphertext carries
-- the tag at its end.
pub record Aead : Type 1 where
  pub Cipher : Type 0
  pub new_from_slice : Bytes → Option Cipher
  pub encrypt : Cipher → Bytes → Bytes → Option Bytes
  pub decrypt : Cipher → Bytes → Bytes → Option Bytes

pub record AeadLaws (A : Aead) : Type 0 where
  -- Every key of 32 bytes makes a cipher.
  pub accepts_key : (k : Bytes) → length k ≡ 32 → (c : A.Cipher) × (A.new_from_slice k ≡ some c)
  -- Encryption fails only where the counter of 64-byte blocks would run out.
  pub encrypts :
      (c : A.Cipher) (nonce p : Bytes)
      → length nonce ≡ nonce_len
      → length p < 64 * (2 ^ 32 - 1)
      → (ct : Bytes) × (A.encrypt c nonce p ≡ some ct)
  -- What was encrypted under a nonce decrypts under it, and is longer by the tag.
  pub decrypt-encrypt :
      (c : A.Cipher) (nonce p ct : Bytes)
      → A.encrypt c nonce p ≡ some ct
      → A.decrypt c nonce ct ≡ some p
  pub length-encrypt :
      (c : A.Cipher) (nonce p ct : Bytes)
      → A.encrypt c nonce p ≡ some ct
      → length ct ≡ length p + mac_len

-- `argon2`: its parameters may be refused, and so may the hashing, with a message.
pub record Argon2 : Type 1 where
  pub Params : Type 0
  pub new : ℕ → ℕ → ℕ → Option ℕ → Result Text Params
  pub hash_password_into : Params → Text → Bytes → ℕ → Result Text Bytes

-- HMAC-SHA256 over one message, and its comparison of a tag.
pub record Hmac : Type 0 where
  pub finalize : Bytes → Bytes → Bytes
  pub verify_slice : Bytes → Bytes → Bytes → Bool

pub record HmacLaws (H : Hmac) : Type 0 where
  pub verify_iff :
      (key message tag : Bytes)
      → (H.verify_slice key message tag ≡ true) ↔ (H.finalize key message ≡ tag)

-- `ml_kem` at ML-KEM-768. `Seed` is what a call draws from the random number generator.
pub record Kem : Type 1 where
  pub Dk : Type 0
  pub Ek : Type 0
  pub Seed : Type 0
  pub generate : Seed → Dk × Ek
  pub as_bytes : Ek → Bytes
  pub from_bytes : Bytes → Ek
  pub encapsulate : Ek → Seed → Option (Bytes × Bytes)
  pub decapsulate : Dk → Bytes → Option Bytes

pub record KemLaws (K : Kem) : Type 0 where
  pub length-as_bytes : (e : K.Ek) → length (K.as_bytes e) ≡ 1184
  pub from_bytes-as_bytes : (e : K.Ek) → K.from_bytes (K.as_bytes e) ≡ e
  pub length-encapsulate :
      (e : K.Ek) (s : K.Seed) (ct ss : Bytes)
      → K.encapsulate e s ≡ some (ct, ss)
      → (length ct ≡ 1088) × (length ss ≡ 32)
  pub decapsulate-encapsulate :
      (g s : K.Seed) (ct ss : Bytes)
      → K.encapsulate (K.generate g).1 s ≡ some (ct, ss)
      → K.decapsulate (K.generate g).0 ct ≡ some ss
  -- A decapsulation yields 32 bytes, whatever it is given.
  pub length-decapsulate :
      (d : K.Dk) (ct ss : Bytes) → K.decapsulate d ct ≡ some ss → length ss ≡ 32
