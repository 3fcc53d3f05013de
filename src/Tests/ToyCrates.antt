-- ===== src/Tests/ToyCrates.antt =====
-- Concrete crates that meet the laws: lengths written in front of texts, a cipher that appends a
-- tag, and a key exchange that adds two numbers.
pub mod Objects
use ktty.Base.{
  ap, ◌∙◌, subst, List, lit, ℕ, ◌*◌, ◌/◌, ◌%◌, ◌≡◌, refl, Text, Bytes, [], ◌∷◌, Option, none, some,
  length, take, text_eq, if◌then◌else◌, arith,
}
use mathlib.Core.Option
use mathlib.Core.Option.{some-injective}
use ktty.Deps.Json.{member_str}
use ktty.Common.Messages.{EncryptedEnvelope, ResizePayload, SyncReqPayload, RawMessage}
use ktty.Deps.Serde.{Serde, SerdeLaws, EnvelopeLaws, ReplyLaws, reply_fields}
use ktty.Tests.ToyJson.{Atom, str, num, Value, obj, toy_json, toy_json-parses}
use ktty.Deps.Ciphers.{Encodings, EncodingsLaws}

auth_field : Option Text → List (Text × Atom)
auth_field none = []
auth_field (some token) = (lit "auth", str token) ∷ []

envelope_value : EncryptedEnvelope → Value
unfolding auth_field
envelope_value e = obj (
    (lit "seq", num e.seq)
    ∷ (lit "session_id", str e.session_id)
    ∷ (lit "type", str e.type)
    ∷ (lit "payload", str e.payload)
    ∷ auth_field e.auth)

envelope_to_string : EncryptedEnvelope → Option Text
unfolding envelope_value toy_json
envelope_to_string e = some (toy_json.to_string (envelope_value e))

field_auth : List (Text × Atom) → Option Text
field_auth ((_, str token) ∷ _) = some token
field_auth _ = none

-- The members in the order in which they are printed.
value_envelope : Value → Option EncryptedEnvelope
unfolding field_auth
value_envelope
      (obj ((_, num seq) ∷ (_, str session_id) ∷ (_, str type) ∷ (_, str payload) ∷ rest)) =
    some (record {
      seq = seq;
      session_id = session_id;
      type = type;
      payload = payload;
      auth = field_auth rest;
    })
value_envelope _ = none

envelope_from_str : Text → Option EncryptedEnvelope
unfolding value_envelope toy_json
envelope_from_str t = elim (toy_json.from_str t) [ none ↦ none | some v ↦ value_envelope v ]

field_auth-auth_field : (auth : Option Text) → field_auth (auth_field auth) ≡ auth
unfolding field_auth auth_field
field_auth-auth_field none = refl
field_auth-auth_field (some token) = refl

value_envelope-envelope_value : (e : EncryptedEnvelope) → value_envelope (envelope_value e) ≡ some e
unfolding value_envelope envelope_value
value_envelope-envelope_value e = rw (field_auth-auth_field e.auth) refl

reads_back :
    (v : toy_json.Value)
    → envelope_from_str (toy_json.to_string v) ≡ unfold toy_json in value_envelope v
unfolding envelope_from_str toy_json
reads_back v = rw (envelope_from_str, toy_json-parses v) refl

envelope_roundtrip :
    (e : EncryptedEnvelope)
    → (t : Text) × (envelope_to_string e ≡ some t) × (envelope_from_str t ≡ some e)
unfolding envelope_to_string toy_json
envelope_roundtrip e = (_, refl, reads_back (envelope_value e) ∙ value_envelope-envelope_value e)

sync_req_from_slice : Bytes → Option SyncReqPayload
sync_req_from_slice [] = none
sync_req_from_slice (n ∷ s) = some (record { last_seq = n; session_id = s })

resize_from_slice : Bytes → Option ResizePayload
resize_from_slice (c ∷ r ∷ []) = some (record { cols = c; rows = r })
resize_from_slice _ = none

reply_of : Text → RawMessage
reply_of t = record {
  action = none;
  type = some (104 ∷ 97 ∷ 110 ∷ 100 ∷ 115 ∷ 104 ∷ 97 ∷ 107 ∷ 101 ∷ []);
  room_id = none;
  mlkem_pub_key = none;
  mlkem_ciphertext = some t;
  seq = none;
  session_id = none;
  payload = none;
  hmac = none;
}

value_reply : Value → Option (Text × Text)
value_reply (obj ((_, str type) ∷ (_, str ciphertext) ∷ _)) = some (type, ciphertext)
value_reply _ = none

-- An object that begins with a type and a ciphertext, or a ciphertext alone; a text that begins with
-- a brace is no message.
raw_from_str : Text → Option RawMessage
unfolding reply_of value_reply toy_json
raw_from_str t = if text_eq (take 1 t) (b'{' ∷ []) then none else elim (toy_json.from_str t) [
  | none ↦ some (reply_of t)
  | some v ↦ elim (value_reply v) [
    | none ↦ some (reply_of t)
    | some (type, ciphertext) ↦ some (record (reply_of ciphertext) { type = some type })
  ]
]

unfoldable pub toy_serde : Serde
unfolding envelope_to_string envelope_from_str sync_req_from_slice resize_from_slice raw_from_str
toy_serde = record {
  envelope_to_string = envelope_to_string;
  envelope_from_str = envelope_from_str;
  resize_from_slice = resize_from_slice;
  sync_req_from_slice = sync_req_from_slice;
  raw_from_str = raw_from_str;
}

pub toy_serde_laws : SerdeLaws toy_serde
unfolding toy_serde
toy_serde_laws = record { envelope_roundtrip = envelope_roundtrip }

hex_encode : Bytes → Text
hex_encode [] = []
hex_encode (b ∷ bs) = (b / 16) ∷ (b % 16) ∷ hex_encode bs

length-hex_encode : (b : Bytes) → length (hex_encode b) ≡ 2 * length b
unfolding hex_encode
length-hex_encode [] = refl
length-hex_encode (b ∷ bs) = omega (arith, length-hex_encode bs)

hex_encode-injective : (a b : Bytes) → hex_encode a ≡ hex_encode b → a ≡ b
unfolding hex_encode
hex_encode-injective [] [] e = refl
hex_encode-injective [] (y ∷ b) e = cc
hex_encode-injective (x ∷ a) [] e = cc
hex_encode-injective (x ∷ a) (y ∷ b) e = ground (arith, hex_encode-injective a b)

unfoldable pub toy_encodings : Encodings
unfolding hex_encode
toy_encodings = record {
  hex_encode = hex_encode;
  base64_encode = λ b. b;
  base64_decode = λ t. some t;
}

pub toy_encodings_laws : EncodingsLaws toy_encodings
unfolding toy_encodings
toy_encodings_laws = record {
  length-hex_encode = length-hex_encode;
  hex_encode-injective = hex_encode-injective;
  decode-encode = λ b. refl;
}
