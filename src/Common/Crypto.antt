-- ===== src/Common/Crypto.antt =====
-- backend/common/src/crypto.rs. A `[u8; 32]` is a list of bytes; what a call draws from the random
-- number generator (the nonce, the encapsulation's seed) is an argument.
pub mod Packing
pub mod Encapsulation
use ktty.Base.{
  ℕ, ◌+◌, Text, Bytes, Bool, ◌++◌, Option, some, length, take, drop, ltb, ◌==◌, if◌then◌else◌,
  Result, ok, err, ◌>>=◌, map_err, or_err,
}
use ktty.Common.Constants.{
  static_salt, argon2_m_cost, argon2_t_cost, argon2_p_cost, argon2_output_len, nonce_len, mac_len,
}
use ktty.Deps.Ciphers.{Encodings, Aead, Argon2, Hmac, Kem}

pub data CryptoError : Type 0 where
  argon2 : Text → CryptoError
  encrypt_failed decrypt_failed invalid_length ml_kem : CryptoError

unfoldable pub derive_key : Argon2 → Text → Result CryptoError Bytes
derive_key A pin = do
  params ← map_err argon2 (A.new argon2_m_cost argon2_t_cost argon2_p_cost (some argon2_output_len))
  map_err argon2 (A.hash_password_into params pin static_salt 32)

unfoldable pub room_id : Encodings → Bytes → Text
room_id E derived_key = E.hex_encode derived_key

unfoldable pub session_id : Encodings → Bytes → Text
session_id E session_key = E.hex_encode (take 8 session_key)

unfoldable pub encrypt : (A : Aead) → Bytes → Bytes → Bytes → Result CryptoError Bytes
encrypt A nonce key plaintext = do
  cipher ← or_err encrypt_failed (A.new_from_slice key)
  ct_with_tag ← or_err encrypt_failed (A.encrypt cipher nonce plaintext)
  ok (nonce ++ ct_with_tag)

unfoldable pub decrypt : (A : Aead) → Bytes → Bytes → Result CryptoError Bytes
decrypt A key packed =
    let opened : Result CryptoError Bytes = do
      cipher ← or_err decrypt_failed (A.new_from_slice key)
      or_err decrypt_failed (A.decrypt cipher (take nonce_len packed) (drop nonce_len packed))
    in if ltb (length packed) (nonce_len + mac_len) then err invalid_length else opened

unfoldable pub compute_hmac : Hmac → Bytes → Bytes → Bytes
compute_hmac H argon2_key message = H.finalize argon2_key message

unfoldable pub verify_hmac : Hmac → Bytes → Bytes → Bytes → Bool
verify_hmac H argon2_key message expected = H.verify_slice argon2_key message expected

unfoldable pub mlkem_encapsulate : (K : Kem) → K.Seed → Bytes → Result CryptoError (Bytes × Bytes)
mlkem_encapsulate K seed ek_bytes =
    if length ek_bytes == 1184
    then or_err ml_kem (K.encapsulate (K.from_bytes ek_bytes) seed)
    else err ml_kem
