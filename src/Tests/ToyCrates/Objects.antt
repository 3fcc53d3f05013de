-- ===== src/Tests/ToyCrates/Objects.antt =====
-- The toy envelopes and replies as JSON.
use ktty.Base.{ap, ◌∙◌, subst, lit, ℕ, ◌≡◌, refl, Text, [], ◌∷◌, Option, none, some, text_eq}
use mathlib.Core.Option
use mathlib.Core.Option.{some-injective}
use ktty.Deps.Json.{member_str}
use ktty.Deps.Serde.{EnvelopeLaws, ReplyLaws, reply_fields}
use ktty.Common.Messages.{EncryptedEnvelope}
use ktty.Tests.ToyJson.{str, obj, toy_json, toy_json-parses}
use ktty.Tests.ToyCrates.{
  envelope_from_str, auth_field, envelope_value, envelope_to_string, reads_back,
  value_envelope-envelope_value, value_reply, reply_of, raw_from_str, toy_serde,
}

-- The object has the token as its `auth` member, and without it is the object of no token.
auth_of_object :
    (seq : ℕ) (session_id type payload : Text) (auth : Option Text)
    → unfold toy_json in
      let e : EncryptedEnvelope = record {
        seq = seq;
        session_id = session_id;
        type = type;
        payload = payload;
        auth = auth;
      } in
      (member_str toy_json (envelope_value e) (lit "auth") ≡ auth)
      × (toy_json.remove (envelope_value e) (lit "auth")
          ≡ envelope_value (record e { auth = none }))
unfolding toy_json envelope_value auth_field text_eq Option.bind
auth_of_object seq session_id type payload none = (refl, refl)
auth_of_object seq session_id type payload (some token) = (refl, refl)

pub toy_serde-EnvelopeLaws : EnvelopeLaws toy_json toy_serde
unfolding toy_serde envelope_to_string toy_json
toy_serde-EnvelopeLaws = record {
  envelope_object = λ e t printed.
      let (read, removed) = auth_of_object e.seq e.session_id e.type e.payload e.auth in
      (
        envelope_value e,
        subst (λ u. toy_json.from_str u ≡ some (envelope_value e)) (some-injective _ _ printed)
            (toy_json-parses (envelope_value e)),
        read,
        ap (λ v. envelope_from_str (toy_json.to_string v)) removed
            ∙ reads_back (envelope_value (record e { auth = none }))
            ∙ value_envelope-envelope_value (record e { auth = none }),
      );
}

reply_value : Text → Text → toy_json.Value
unfolding toy_json
reply_value type ciphertext =
    obj ((lit "type", str type) ∷ (lit "mlkem_ciphertext", str ciphertext) ∷ [])

raw_from_str-reply_value :
    (type ciphertext : Text)
    → raw_from_str (toy_json.to_string (reply_value type ciphertext))
      ≡ some (record (reply_of ciphertext) { type = some type })
unfolding raw_from_str reply_value value_reply text_eq toy_json
raw_from_str-reply_value type ciphertext =
    rw (raw_from_str, toy_json-parses (reply_value type ciphertext)) refl

pub toy_serde-ReplyLaws : ReplyLaws toy_json toy_serde
unfolding toy_serde toy_json text_eq reply_value reply_of Option.bind
toy_serde-ReplyLaws = record {
  reply_object = λ type ciphertext token. (
    toy_json.insert (toy_json.object (reply_fields toy_json type ciphertext)) (lit "auth")
        (toy_json.string token),
    toy_json-parses _,
    refl,
    (_, raw_from_str-reply_value type ciphertext, refl, refl),
  );
}
