-- ===== src/Client/Wasm/Splitting.antt =====
-- The client cuts the shared secret off what the binding returns.
use ktty.Base.{
  ◌≡◌, sym, Text, Bytes, ◌++◌, some, ok, length, take, drop, arith, take-append, drop-append,
  length-append, Result-cases, inl, inr,
}
use ktty.Deps.Ciphers.{Kem, KemLaws}
use ktty.Common.Crypto
use ktty.Common.Crypto.{CryptoError}
use ktty.Common.Crypto.Encapsulation.{encapsulate_ok}
use ktty.Client.Wasm.{mlkem_encapsulate}

module _ (to_string : CryptoError → Text) (K : Kem) (laws : KemLaws K) where
  combined_lem :
      (s : K.Seed) (ek_bytes b : Bytes)
      → mlkem_encapsulate to_string K s ek_bytes ≡ ok b
      → (ct : Bytes) × (ss : Bytes) × (Crypto.mlkem_encapsulate K s ek_bytes ≡ ok (ct, ss))
        × (b ≡ ct ++ ss)
  unfolding mlkem_encapsulate
  combined_lem s ek_bytes b h = elim (Result-cases (Crypto.mlkem_encapsulate K s ek_bytes)) [
    | inl (e, made) ↦ absurd (ground (arith, made, h))
    | inr ((ct, ss), made) ↦ (ct, ss, made, ground (arith, made, h))
  ]

  -- What the binding returns for the agent's key has 1120 bytes; the client that cuts off the last
  -- 32 has the shared secret that the agent finds in the first 1088.
  pub mlkem_encapsulate_splits :
      (g s : K.Seed) (b : Bytes)
      → mlkem_encapsulate to_string K s (K.as_bytes (K.generate g).1) ≡ ok b
      → (length b ≡ 1120)
        × (length (drop 1088 b) ≡ 32)
        × (K.decapsulate (K.generate g).0 (take 1088 b) ≡ some (drop 1088 b))
  mlkem_encapsulate_splits g s b h =
      let (ct, ss, made, joined) = combined_lem s (K.as_bytes (K.generate g).1) b h in
      let sealed = encapsulate_ok K laws (K.generate g).1 s ct ss made in
      let (n, n') = laws.length-encapsulate (K.generate g).1 s ct ss sealed in
      rw (joined, take-append ct ss 1088 (sym n), drop-append ct ss 1088 (sym n))
        (
          omega (arith, length-append ct ss, n, n'),
          n',
          laws.decapsulate-encapsulate g s ct ss sealed,
        )
