-- ===== src/Client/Ffi.antt =====
-- backend/ffi-crypto/src/lib.rs. A pointer is what can be read or written there, none where it is
-- null; the three regions do not overlap. The result comes with what the two buffers hold then.
pub mod Sealing
use ktty.Base.{
  ℕ, ◌≡◌, Bytes, ◌++◌, Option, none, some, length, take, drop, ◌==◌, if◌then◌else◌, ok, err,
}
use ktty.Deps.Ciphers.{Kem}
use ktty.Common.Crypto

-- `i32`; `minus n` is the negative of `n`.
pub data Code : Type 0 where
  plus minus : ℕ → Code

-- `copy_nonoverlapping(src, dst, n)`
abbrev pub copy : ℕ → Bytes → Bytes → Bytes
copy n src dst = take n src ++ drop n dst

pub record Call : Type 0 where
  pub returns : Code
  pub ct_out : Option Bytes
  pub ss_out : Option Bytes

module _ (K : Kem) (seed : K.Seed) where
  -- The call with no null pointer.
  unfoldable pub encapsulate_into : Bytes → Bytes → Bytes → Call
  encapsulate_into ek ct_out ss_out = elim (Crypto.mlkem_encapsulate K seed (take 1184 ek)) [
    | err e ↦ record { returns = minus 2; ct_out = some ct_out; ss_out = some ss_out }
    | ok (ct, ss) ↦
        if length ct == 1088
        then record {
          returns = plus 0;
          ct_out = some (copy 1088 ct ct_out);
          ss_out = some (copy 32 ss ss_out);
        }
        else record { returns = minus 3; ct_out = some ct_out; ss_out = some ss_out }
  ]

  unfoldable pub ktty_mlkem_encapsulate : Option Bytes → Option Bytes → Option Bytes → Call
  unfolding encapsulate_into
  ktty_mlkem_encapsulate (some ek) (some ct_out) (some ss_out) = encapsulate_into ek ct_out ss_out
  ktty_mlkem_encapsulate ek ct_out ss_out = record {
    returns = minus 1;
    ct_out = ct_out;
    ss_out = ss_out;
  }

abbrev pub ktty_ffi_crypto_version : ℕ
ktty_ffi_crypto_version = 1
