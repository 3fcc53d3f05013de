-- ===== src/Common/Crypto/Encapsulation.antt =====
-- `mlkem_encapsulate` on the bytes of a key is the key exchange's own operation on that key.
use ktty.Base.{◌≡◌, Bytes, none, some, ok, err, arith, Option-cases, inl, inr}
use ktty.Deps.Ciphers.{Kem, KemLaws}
use ktty.Common.Crypto.{CryptoError, mlkem_encapsulate}

pub encapsulate_ok :
    (K : Kem)
    → KemLaws K
    → (ek : K.Ek) (s : K.Seed) (ct ss : Bytes) → mlkem_encapsulate K s (K.as_bytes ek) ≡ ok (ct, ss)
    → K.encapsulate ek s ≡ some (ct, ss)
unfolding mlkem_encapsulate
encapsulate_ok K laws ek s ct ss h = elim (Option-cases (K.encapsulate ek s)) [
  | inl e ↦ ground (arith, e, h, laws.length-as_bytes ek, laws.from_bytes-as_bytes ek)
  | inr (z, e) ↦ ground (arith, e, h, laws.length-as_bytes ek, laws.from_bytes-as_bytes ek)
]

-- It fails only where the operation does.
pub encapsulate_err :
    (K : Kem)
    → KemLaws K
    → (ek : K.Ek) (s : K.Seed) (why : CryptoError) → mlkem_encapsulate K s (K.as_bytes ek) ≡ err why
    → K.encapsulate ek s ≡ none
unfolding mlkem_encapsulate
encapsulate_err K laws ek s why h = elim (Option-cases (K.encapsulate ek s)) [
  | inl e ↦ e
  | inr (z, e) ↦ absurd (ground (arith, e, h, laws.length-as_bytes ek, laws.from_bytes-as_bytes ek))
]
