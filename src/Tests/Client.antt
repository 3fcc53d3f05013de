-- ===== src/Tests/Client.antt =====
-- The bindings of the client at the toy key exchange.
use ktty.Base.{
  inr, ◌≡◌, ◌⊎◌, none, Option, refl, Text, Bytes, lit, ◌++◌, ok, length, some, take, drop,
}
use ktty.Common.Crypto
use ktty.Common.Crypto.{CryptoError}
use ktty.Client.Wasm.{mlkem_encapsulate}
use ktty.Client.Wasm.Splitting.{mlkem_encapsulate_splits}
use ktty.Client.Ffi.{plus, minus, Call, ktty_mlkem_encapsulate}
use ktty.Client.Ffi.Sealing.{IsUntouched, Seals, ktty_mlkem_encapsulate-Seals}
use ktty.Tests.ToyCiphers.{toy_kem, toy_kem_laws, replicate}

abbrev message : CryptoError → Text
message e = lit "failed"

unfoldable agent_draw : toy_kem.Seed
unfolding toy_kem
agent_draw = 2

unfoldable client_draw : toy_kem.Seed
unfolding toy_kem
client_draw = 3

abbrev combined : Bytes
combined = replicate 1088 3 ++ replicate 32 5

binding_returns :
    mlkem_encapsulate message toy_kem client_draw (toy_kem.as_bytes (toy_kem.generate agent_draw).1)
    ≡ ok combined
unfolding mlkem_encapsulate Crypto.mlkem_encapsulate toy_kem client_draw agent_draw
binding_returns = refl

mlkem_encapsulate_splits_example :
    (length combined ≡ 1120)
    × (length (drop 1088 combined) ≡ 32)
    × (toy_kem.decapsulate (toy_kem.generate agent_draw).0 (take 1088 combined)
        ≡ some (drop 1088 combined))
mlkem_encapsulate_splits_example =
    mlkem_encapsulate_splits message toy_kem toy_kem_laws agent_draw client_draw combined
      binding_returns

-- Buffers that are larger than what is written to them, and a key with a byte behind it.
abbrev ct_buffer : Option Bytes
ct_buffer = some (replicate 1090 0)

abbrev ss_buffer : Option Bytes
ss_buffer = some (replicate 33 0)

abbrev given : Option Bytes
given = some (toy_kem.as_bytes (toy_kem.generate agent_draw).1 ++ replicate 1 9)

abbrev call : Call
call = ktty_mlkem_encapsulate toy_kem client_draw given ct_buffer ss_buffer

ktty_mlkem_encapsulate-Seals_example :
    ((call.returns ≡ minus 1)
      × ((given ≡ none) ⊎ (ct_buffer ≡ none) ⊎ (ss_buffer ≡ none))
      × IsUntouched ct_buffer ss_buffer call)
    ⊎ ((call.returns ≡ minus 2)
        × (toy_kem.encapsulate (toy_kem.generate agent_draw).1 client_draw ≡ none)
        × IsUntouched ct_buffer ss_buffer call)
    ⊎ ((call.returns ≡ plus 0) × Seals toy_kem agent_draw client_draw ct_buffer ss_buffer call)
ktty_mlkem_encapsulate-Seals_example =
    ktty_mlkem_encapsulate-Seals toy_kem agent_draw client_draw toy_kem_laws (replicate 1 9) given
      ct_buffer ss_buffer (inr refl)
