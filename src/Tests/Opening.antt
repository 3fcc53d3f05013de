-- ===== src/Tests/Opening.antt =====
-- A client's reply that opens a session, in a relay with a room of two: the keys are made from the
-- seeds 2 and 3.
use ktty.Base.{ℕ, Text, Bytes, lit, [], ◌∷◌, some}
use ktty.Common.Crypto
use ktty.Agent.Session.Joining.{Session}
use ktty.Agent.Session.Run.{Phase, State, start}
use ktty.Tests.ToyJson.{toy_json}
use ktty.Tests.ToyCrates.{toy_encodings}
use ktty.Tests.ToyCiphers.{toy_crates, toy_kem, replicate}

abbrev session : Session
session = record { relay_url = lit "ws://h"; derived_key = replicate 32 9; room_id = lit "a" }

unfoldable seeds : ℕ → toy_crates.kem.Seed
unfolding toy_crates toy_kem
seeds i = i

abbrev shaking : State toy_crates
shaking = record (start toy_crates session seeds) {
  phase = Phase.shaking (toy_crates.kem.generate (seeds 2)).0;
  token = some (lit "t0");
}

abbrev sealed : Bytes
sealed = replicate 1088 3

abbrev secret : Bytes
secret = replicate 32 5

reply_stripped : Text
unfolding toy_crates toy_json toy_encodings
reply_stripped = toy_json.to_string (
    toy_json.object (
      (lit "type", toy_json.string (lit "handshake"))
      ∷ (lit "mlkem_ciphertext", toy_json.string (toy_crates.encodings.base64_encode sealed))
      ∷ []))
