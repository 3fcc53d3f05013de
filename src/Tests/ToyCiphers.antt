-- ===== src/Tests/ToyCiphers.antt =====
-- A cipher that appends a tag, a MAC that keeps the key and the message, a key exchange that adds
-- two numbers, and the crates together.
use ktty.Base.{
  ℕ, zero, suc, ◌+◌, ◌-◌, ◌≡◌, refl, ap, sym, ◌∙◌, Bytes, [], ◌∷◌, ◌++◌, Option, none, some, length,
  take, text_eq, text_eq_iff, if◌then◌else◌, ◌==◌, take-append, length-append, arith,
}
use mathlib.Core.Option.{some-injective}
use ktty.Deps.Ciphers.{Aead, AeadLaws, Hmac, HmacLaws, Kem, KemLaws}
use ktty.Deps.Crates.{Crates, TrafficLaws}
use ktty.Tests.ToyJson.{toy_json}
use ktty.Tests.ToyCrates.{toy_serde, toy_serde_laws, toy_encodings, toy_encodings_laws}

abbrev pub replicate : ℕ → ℕ → Bytes
replicate zero b = []
replicate (suc n) b = b ∷ replicate n b

length-replicate : (n b : ℕ) → length (replicate n b) ≡ n
length-replicate zero b = refl
length-replicate (suc n) b = ap suc (length-replicate n b)

new_from_slice : Bytes → Option Bytes
new_from_slice k = if length k == 32 then some k else none

unfoldable pub toy_aead : Aead
unfolding new_from_slice
toy_aead = record {
  Cipher = Bytes;
  new_from_slice = new_from_slice;
  encrypt = λ c nonce p. some (p ++ replicate 16 7);
  decrypt = λ c nonce ct. some (take (length ct - 16) ct);
}

tagged : (p : Bytes) → take (length (p ++ replicate 16 7) - 16) (p ++ replicate 16 7) ≡ p
tagged p = take-append p (replicate 16 7) _ (omega (arith, length-append {0} p, length-replicate))

pub toy_aead_laws : AeadLaws toy_aead
unfolding toy_aead
toy_aead_laws = record {
  accepts_key = λ k h. (k, rw h refl);
  encrypts = λ c nonce p n h. (p ++ replicate 16 7, refl);
  decrypt-encrypt = λ c nonce p ct e.
      let e' = some-injective (p ++ replicate 16 7) ct e in rw (← e') (ap some (tagged p));
  length-encrypt = λ c nonce p ct e.
      let e' = some-injective (p ++ replicate 16 7) ct e in
      rw (← e') (omega (arith, length-append {0} p, length-replicate));
}

unfoldable pub toy_hmac : Hmac
toy_hmac = record {
  finalize = λ key message. key ++ message;
  verify_slice = λ key message tag. text_eq (key ++ message) tag;
}

pub toy_hmac_laws : HmacLaws toy_hmac
unfolding toy_hmac
toy_hmac_laws = record { verify_iff = λ key message tag. text_eq_iff (key ++ message) tag }

abbrev first : Bytes → ℕ
first [] = 0
first (b ∷ bs) = b

unfoldable pub toy_kem : Kem
toy_kem = record {
  Dk = ℕ;
  Ek = ℕ;
  Seed = ℕ;
  generate = λ s. (s, s);
  as_bytes = λ e. replicate 1184 e;
  from_bytes = first;
  encapsulate = λ e s. some (replicate 1088 s, replicate 32 (e + s));
  decapsulate = λ d ct. some (replicate 32 (d + first ct));
}

pub toy_kem_laws : KemLaws toy_kem
unfolding toy_kem
toy_kem_laws = record {
  length-as_bytes = λ e. length-replicate 1184 e;
  from_bytes-as_bytes = λ e. refl;
  length-encapsulate = λ e s ct ss h.
      let q = some-injective (replicate 1088 s, replicate 32 (e + s)) (ct, ss) h in
      (
        sym (ap (λ (z : Bytes × Bytes). length z.0) q) ∙ length-replicate 1088 s,
        sym (ap (λ (z : Bytes × Bytes). length z.1) q) ∙ length-replicate 32 (e + s),
      );
  decapsulate-encapsulate = λ g s ct ss h.
      let q = some-injective (replicate 1088 s, replicate 32 (g + s)) (ct, ss) h in
      ap (λ (z : Bytes × Bytes). some (replicate 32 (g + first z.0))) (sym q)
      ∙ ap (λ (z : Bytes × Bytes). some z.1) q;
  length-decapsulate = λ d ct ss h.
      sym (ap length (some-injective (replicate 32 (d + first ct)) ss h))
      ∙ length-replicate 32 (d + first ct);
}

unfoldable pub toy_crates : Crates
toy_crates = record {
  json = toy_json;
  serde = toy_serde;
  encodings = toy_encodings;
  aead = toy_aead;
  hmac = toy_hmac;
  kem = toy_kem;
  nonce = λ i. replicate 24 i;
}

pub toy_crates_laws : TrafficLaws toy_crates
unfolding toy_crates
toy_crates_laws = record {
  serde = toy_serde_laws;
  encodings = toy_encodings_laws;
  aead = toy_aead_laws;
  length-nonce = λ i. length-replicate 24 i;
}
