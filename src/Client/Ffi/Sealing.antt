-- ===== src/Client/Ffi/Sealing.antt =====
-- What the C binding leaves in the caller's buffers.
use ktty.Base.{
  ◌≡◌, ◌⊎◌, inl, inr, refl, sym, Bytes, ◌++◌, Option, none, some, length, take, drop, take_all,
  take-append, Result-cases, ap,
}
use ktty.Deps.Ciphers.{Kem, KemLaws}
use ktty.Common.Crypto
use mathlib.Core.Option.{some-injective}
use ktty.Common.Crypto.Encapsulation.{encapsulate_ok, encapsulate_err}
use ktty.Client.Ffi.{plus, minus, Call, encapsulate_into, ktty_mlkem_encapsulate}

-- Both buffers are as they were.
abbrev pub IsUntouched : Option Bytes → Option Bytes → Call → Type 0
IsUntouched ct_out ss_out c = (c.ct_out ≡ ct_out) × (c.ss_out ≡ ss_out)

module _ (K : Kem) (g s : K.Seed) where
  -- The buffers begin with a ciphertext and the secret that the agent finds in it, and go on as they
  -- did before.
  pub record Seals (ct_out ss_out : Option Bytes) (c : Call) : Type 0 where
    pub old_ct : Bytes
    pub old_ss : Bytes
    pub ct : Bytes
    pub ss : Bytes
    pub ct_given : ct_out ≡ some old_ct
    pub ss_given : ss_out ≡ some old_ss
    pub ct_written : c.ct_out ≡ some (ct ++ drop 1088 old_ct)
    pub ss_written : c.ss_out ≡ some (ss ++ drop 32 old_ss)
    pub sizes : (length ct ≡ 1088) × (length ss ≡ 32)
    pub opens : K.decapsulate (K.generate g).0 ct ≡ some ss

  -- With no null pointer.
  sealing :
      (laws : KemLaws K) (rest old_ct old_ss : Bytes)
      → let call = encapsulate_into K s (K.as_bytes (K.generate g).1 ++ rest) old_ct old_ss in
        ((call.returns ≡ minus 1)
          × ((some (K.as_bytes (K.generate g).1 ++ rest) ≡ none)
              ⊎ (some old_ct ≡ none)
              ⊎ (some old_ss ≡ none))
          × IsUntouched (some old_ct) (some old_ss) call)
        ⊎ ((call.returns ≡ minus 2)
            × (K.encapsulate (K.generate g).1 s ≡ none)
            × IsUntouched (some old_ct) (some old_ss) call)
        ⊎ ((call.returns ≡ plus 0) × Seals (some old_ct) (some old_ss) call)
  unfolding encapsulate_into
  sealing laws rest old_ct old_ss =
      let ek = K.as_bytes (K.generate g).1 in
      let cut : take 1184 (ek ++ rest) ≡ ek =
        take-append ek rest 1184 (sym (laws.length-as_bytes (K.generate g).1)) in
      elim (Result-cases (Crypto.mlkem_encapsulate K s ek)) [
        | inl (e, failed) ↦ inr (
            inl (
              rw (encapsulate_into, cut, failed)
                (refl, encapsulate_err K laws (K.generate g).1 s e failed, (refl, refl))))
        | inr ((ct, ss), made) ↦
            let sealed = encapsulate_ok K laws (K.generate g).1 s ct ss made in
            let (n, n') = laws.length-encapsulate (K.generate g).1 s ct ss sealed in
            let call = encapsulate_into K s (ek ++ rest) old_ct old_ss in
            let e : call ≡ record {
              returns = plus 0;
              ct_out = some (ct ++ drop 1088 old_ct);
              ss_out = some (ss ++ drop 32 old_ss);
            } =
              rw (encapsulate_into, cut, made, n, take_all ct 1088 n, take_all ss 32 n') refl in
            inr (
              inr (
                ap (λ c. c.returns) e,
                record {
                  old_ct = old_ct;
                  old_ss = old_ss;
                  ct = ct;
                  ss = ss;
                  ct_given = refl;
                  ss_given = refl;
                  ct_written = ap (λ c. c.ct_out) e;
                  ss_written = ap (λ c. c.ss_out) e;
                  sizes = (n, n');
                  opens = laws.decapsulate-encapsulate g s ct ss sealed;
                },
              ))
      ]

  -- The pointer to the key is null, or points to the agent's key with anything behind it. The
  -- result -1 comes only where a pointer is null, and neither buffer changes; -2 comes only where the key exchange itself fails on
  -- this key, and neither buffer changes; in any other case the result is 0, never -3, and the
  -- buffers hold a ciphertext of 1088 bytes and the 32-byte secret that the agent finds in it, and
  -- nothing behind these bytes changes.
  pub ktty_mlkem_encapsulate-Seals :
      (laws : KemLaws K) (rest : Bytes) (ek ct_out ss_out : Option Bytes)
      → (ek ≡ none) ⊎ (ek ≡ some (K.as_bytes (K.generate g).1 ++ rest))
      → let call = ktty_mlkem_encapsulate K s ek ct_out ss_out in
        ((call.returns ≡ minus 1)
          × ((ek ≡ none) ⊎ (ct_out ≡ none) ⊎ (ss_out ≡ none))
          × IsUntouched ct_out ss_out call)
        ⊎ ((call.returns ≡ minus 2)
            × (K.encapsulate (K.generate g).1 s ≡ none)
            × IsUntouched ct_out ss_out call)
        ⊎ ((call.returns ≡ plus 0) × Seals ct_out ss_out call)
  unfolding ktty_mlkem_encapsulate
  ktty_mlkem_encapsulate-Seals laws rest none ct_out ss_out given =
      inl (refl, inl refl, (refl, refl))
  ktty_mlkem_encapsulate-Seals laws rest (some ek) none ss_out given =
      inl (refl, inr (inl refl), (refl, refl))
  ktty_mlkem_encapsulate-Seals laws rest (some ek) (some old) none given =
      inl (refl, inr (inr refl), (refl, refl))
  ktty_mlkem_encapsulate-Seals laws rest (some ek) (some old_ct) (some old_ss) (inl e) = cc
  ktty_mlkem_encapsulate-Seals laws rest (some bytes) (some old_ct) (some old_ss) (inr given) =
      rw (some-injective _ _ given) (sealing laws rest old_ct old_ss)
