-- ===== src/Client/Wasm.antt =====
-- backend/wasm-crypto/src/lib.rs. A failure is the text of its message; the text of a
-- `CryptoError` is made by `thiserror`, so it is a parameter.
pub mod Splitting
use ktty.Base.{
  ℕ, Text, Bytes, Bool, lit, ◌++◌, length, ◌==◌, if◌then◌else◌, Result, ok, err, map_err, ◌>>=◌,
}
use ktty.Deps.Ciphers.{Encodings, Aead, Argon2, Hmac, Kem}
use ktty.Common.Crypto
use ktty.Common.Crypto.{CryptoError}

-- `try_into` a `[u8; 32]`
unfoldable pub to_array : Text → Bytes → Result Text Bytes
to_array message b = if length b == 32 then ok b else err message

module _ (to_string : CryptoError → Text) where
  unfoldable pub derive_key : Argon2 → Text → Result Text Bytes
  derive_key A pin = map_err to_string (Crypto.derive_key A pin)

  unfoldable pub room_id : Encodings → Bytes → Result Text Text
  room_id E derived_key = do
    arr ← to_array (lit "derived_key must be 32 bytes") derived_key
    ok (Crypto.room_id E arr)

  unfoldable pub encrypt : (A : Aead) → Bytes → Bytes → Bytes → Result Text Bytes
  encrypt A nonce key plaintext = do
    arr ← to_array (lit "key must be 32 bytes") key
    map_err to_string (Crypto.encrypt A nonce arr plaintext)

  unfoldable pub decrypt : (A : Aead) → Bytes → Bytes → Result Text Bytes
  decrypt A key packed = do
    arr ← to_array (lit "key must be 32 bytes") key
    map_err to_string (Crypto.decrypt A arr packed)

  unfoldable pub mlkem_encapsulate : (K : Kem) → K.Seed → Bytes → Result Text Bytes
  mlkem_encapsulate K seed ek_bytes = do
    (ct, ss) ← map_err to_string (Crypto.mlkem_encapsulate K seed ek_bytes)
    ok (ct ++ ss)

  unfoldable pub compute_hmac : Hmac → Bytes → Bytes → Result Text Bytes
  compute_hmac H argon2_key data' = do
    arr ← to_array (lit "argon2_key must be 32 bytes") argon2_key
    ok (Crypto.compute_hmac H arr data')

  unfoldable pub verify_hmac : Hmac → Bytes → Bytes → Bytes → Result Text Bool
  verify_hmac H argon2_key data' expected = do
    arr ← to_array (lit "argon2_key must be 32 bytes") argon2_key
    ok (Crypto.verify_hmac H arr data' expected)
