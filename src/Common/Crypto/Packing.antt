-- ===== src/Common/Crypto/Packing.antt =====
-- The packed form `nonce ++ ciphertext ++ tag`, and the identifiers cut from the keys.
use ktty.Base.{
  ◌+◌, ◌-◌, ◌*◌, ◌^◌, ◌≤◌, ◌<◌, ◌≡◌, ap, Bytes, ◌++◌, some, length, length-append, take-append,
  drop-append, ok, arith, Option-cases, inl, inr, le→ltb_false,
}
use ktty.Common.Constants.{nonce_len, mac_len}
use ktty.Deps.Ciphers.{Aead, AeadLaws}
use ktty.Common.Crypto.{encrypt, decrypt}

module _ (A : Aead) (laws : AeadLaws A) where
  packed_lem :
      (nonce key plaintext packed : Bytes)
      → encrypt A nonce key plaintext ≡ ok packed
      → (c : A.Cipher) × (ct : Bytes) × (A.new_from_slice key ≡ some c)
        × (A.encrypt c nonce plaintext ≡ some ct)
        × (packed ≡ nonce ++ ct)
  unfolding encrypt
  packed_lem nonce key plaintext packed h = elim (Option-cases (A.new_from_slice key)) [
    | inl e ↦ absurd (ground arith)
    | inr (c, e) ↦ elim (Option-cases (A.encrypt c nonce plaintext)) [
      | inl e' ↦ absurd (ground arith)
      | inr (ct, e') ↦ (c, ct, e, e', ground arith)
    ]
  ]

  length-encrypt :
      (nonce key plaintext packed : Bytes)
      → length nonce ≡ nonce_len
      → encrypt A nonce key plaintext ≡ ok packed
      → length packed ≡ nonce_len + length plaintext + mac_len
  length-encrypt nonce key plaintext packed n h =
      let (c, ct, made, sealed, e) = packed_lem nonce key plaintext packed h in
      omega (
        arith,
        n,
        ap length e,
        length-append nonce ct,
        laws.length-encrypt c nonce plaintext ct sealed,
      )

  pub decrypt-encrypt :
      (nonce key plaintext packed : Bytes)
      → length nonce ≡ nonce_len
      → encrypt A nonce key plaintext ≡ ok packed
      → decrypt A key packed ≡ ok plaintext
  unfolding decrypt
  decrypt-encrypt nonce key plaintext packed n h =
      let (c, ct, made, sealed, e) = packed_lem nonce key plaintext packed h in
      let long : nonce_len + mac_len ≤ length packed =
        omega (arith, length-encrypt nonce key plaintext packed n h) in
      let opened = laws.decrypt-encrypt c nonce plaintext ct sealed in
      rw (
        le→ltb_false (length packed) (nonce_len + mac_len) long,
        made,
        e,
        take-append nonce ct nonce_len (omega (arith, n)),
        drop-append nonce ct nonce_len (omega (arith, n)),
        opened,
      )

  encrypt_total :
      (nonce key plaintext : Bytes)
      → length nonce ≡ nonce_len
      → length key ≡ 32
      → length plaintext < 64 * (2 ^ 32 - 1)
      → (packed : Bytes) × (encrypt A nonce key plaintext ≡ ok packed)
  unfolding encrypt
  encrypt_total nonce key plaintext n k short =
      let (c, made) = laws.accepts_key key k in
      let (ct, sealed) = laws.encrypts c nonce plaintext n short in (nonce ++ ct, rw (made, sealed))

  -- Encryption under a 32-byte key and a 24-byte nonce succeeds on every text that the cipher's
  -- block counter can take; the packed message is longer than the text by the nonce and the tag,
  -- and decryption under the key gives the text back.
  pub encrypt_roundtrip :
      (nonce key plaintext : Bytes)
      → length nonce ≡ nonce_len
      → length key ≡ 32
      → length plaintext < 64 * (2 ^ 32 - 1)
      → (packed : Bytes) × (encrypt A nonce key plaintext ≡ ok packed)
        × (length packed ≡ nonce_len + length plaintext + mac_len)
        × (decrypt A key packed ≡ ok plaintext)
  encrypt_roundtrip nonce key plaintext n k short =
      let (packed, h) = encrypt_total nonce key plaintext n k short in
      (
        packed,
        h,
        length-encrypt nonce key plaintext packed n h,
        decrypt-encrypt nonce key plaintext packed n h,
      )
