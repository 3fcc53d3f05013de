-- ===== src/Agent/Startup/Token.antt =====
-- The token that the agent prints for its relay's address.
use ktty.Base.{
  ℕ, [], ◌∷◌, ◌⊎◌, ap, ◌≡◌, ◌≤◌, ◌<◌, ◌*◌, ◌-◌, ◌^◌, refl, Text, Bytes, true, false, length, ltb,
  ok, arith,
}
use ktty.Common.Constants.{nonce_len}
use ktty.Deps.Ciphers.{Encodings, Aead, AeadLaws, Argon2}
use ktty.Common.Crypto.{decrypt, derive_key}
use ktty.Common.Crypto.Packing.{encrypt_roundtrip}
use ktty.Agent.Startup.{is_ascii_digit, digits, prints, startup, encrypt_url_token}

-- The digits of the line are the PIN, in this order, whatever else was typed between them.
pub data Types : Text → Text → Type 0 where
  done : Types [] []
  digit :
      {c : ℕ} {pin line : Text} → b'0' ≤ c → c ≤ b'9' → Types pin line → Types (c ∷ pin) (c ∷ line)
  other :
      {c : ℕ} {pin line : Text} → (c < b'0') ⊎ (b'9' < c) → Types pin line → Types pin (c ∷ line)

digits-Types : {pin line : Text} → Types pin line → digits line ≡ pin
unfolding digits
digits-Types done = refl
digits-Types (digit {c} lo hi t) =
    let e : is_ascii_digit c ≡ true = ground arith in rw e (ap (◌∷◌ c) (digits-Types t))
digits-Types (other {c} out t) =
    let e : is_ascii_digit c ≡ false = ground arith in rw e (digits-Types t)

module _ (A : Argon2) (C : Aead) (E : Encodings) where
  -- A PIN of at least eight digits is typed, with anything but digits between them, the key that is
  -- derived from this PIN has 32 bytes, the nonce has the cipher's length, and the address is shorter
  -- than the cipher's limit. Then the agent prints the hexadecimal form of bytes that decrypt to the
  -- address under the key.
  pub startup-prints :
      AeadLaws C
      → (nonce key : Bytes) (relay_url pin line : Text) → Types pin line
      → derive_key A pin ≡ ok key
      → 8 ≤ length pin
      → length nonce ≡ nonce_len
      → length key ≡ 32
      → length relay_url < 64 * (2 ^ 32 - 1)
      → (packed : Bytes) × (startup A C E nonce true relay_url line ≡ prints (E.hex_encode packed))
        × (decrypt C key packed ≡ ok relay_url)
  unfolding startup
  startup-prints aead nonce key relay_url pin line typed derived enough n k small =
      let (packed, made, size, opens) = encrypt_roundtrip C aead nonce key relay_url n k small in
      let long : ltb (length pin) 8 ≡ false = ground arith in
      (packed, rw (digits-Types typed, long, derived, encrypt_url_token, made) refl, opens)
