-- ===== src/Agent/Startup.antt =====
-- backend/agent/src/main.rs up to its loop: the PIN, the key derived from it, and the token for the
-- relay's address.
pub mod Token
use ktty.Base.{
  ℕ, Text, Bytes, Bool, ◌&&◌, length, leb, ltb, retain, if◌then◌else◌, Result, ok, err, ◌>>=◌,
}
use ktty.Deps.Ciphers.{Encodings, Aead, Argon2}
use ktty.Common.Crypto
use ktty.Common.Crypto.{CryptoError}

abbrev pub is_ascii_digit : ℕ → Bool
is_ascii_digit b = leb b'0' b && leb b b'9'

-- The digits of the line. `trim` takes off white space, which the filter drops as well; a character
-- outside ASCII has no byte that is a digit.
unfoldable pub digits : Text → Text
digits line = retain is_ascii_digit line

-- The process ends with a message, an error or the token, or goes on to its loop with the key and
-- the room.
pub data Startup : Type 0 where
  pin_too_short : Startup
  fails : CryptoError → Startup
  prints : Text → Startup
  connects : Bytes → Text → Startup

module _ (A : Argon2) (C : Aead) (E : Encodings) (nonce : Bytes) where
  unfoldable pub encrypt_url_token : Bytes → Text → Startup
  encrypt_url_token derived_key relay_url = elim (Crypto.encrypt C nonce derived_key relay_url) [
    | err e ↦ fails e
    | ok encrypted ↦ prints (E.hex_encode encrypted)
  ]

  -- With the flag `--encrypt-url`, and the line that was typed.
  unfoldable pub startup : Bool → Text → Text → Startup
  unfolding digits encrypt_url_token
  startup encrypt_url relay_url line =
      let derived : Startup = elim (Crypto.derive_key A (digits line)) [
        | err e ↦ fails e
        | ok derived_key ↦
            if encrypt_url
            then encrypt_url_token derived_key relay_url
            else connects derived_key (Crypto.room_id E derived_key)
      ] in
      if ltb (length (digits line)) 8 then pin_too_short else derived
