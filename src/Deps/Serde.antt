-- ===== src/Deps/Serde.antt =====
-- The derived (de)serialisers of the message types, as `serde_json` calls them.
use ktty.Base.{Text, Bytes, ◌≡◌, lit, List, [], ◌∷◌, Option, none, some}
use ktty.Deps.Json.{Json, member_str}
use ktty.Common.Messages.{EncryptedEnvelope, ResizePayload, SyncReqPayload, RawMessage}

pub record Serde : Type 0 where
  pub envelope_to_string : EncryptedEnvelope → Option Text
  pub envelope_from_str : Text → Option EncryptedEnvelope
  pub resize_from_slice : Bytes → Option ResizePayload
  pub sync_req_from_slice : Bytes → Option SyncReqPayload
  pub raw_from_str : Text → Option RawMessage

pub record SerdeLaws (S : Serde) : Type 0 where
  -- An envelope can be printed, and the printed text parses to it.
  pub envelope_roundtrip :
      (e : EncryptedEnvelope)
      → (t : Text) × (S.envelope_to_string e ≡ some t) × (S.envelope_from_str t ≡ some e)

-- The texts of envelopes as JSON.
pub record EnvelopeLaws (J : Json) (S : Serde) : Type 0 where
  -- A printed envelope is an object whose `auth` member is the token, where there is one. Without
  -- this member it parses to the envelope without a token.
  pub envelope_object :
      (e : EncryptedEnvelope) (t : Text)
      → S.envelope_to_string e ≡ some t
      → (v : J.Value) × (J.from_str t ≡ some v)
        × (member_str J v (lit "auth") ≡ e.auth)
        × (S.envelope_from_str (J.to_string (J.remove v (lit "auth")))
            ≡ some (record e { auth = none }))

-- The members of a `HandshakeReply`.
abbrev pub reply_fields : (J : Json) → Text → Text → List (Text × J.Value)
reply_fields J type ciphertext =
    (lit "type", J.string type) ∷ (lit "mlkem_ciphertext", J.string ciphertext) ∷ []

-- A reply with a token as JSON.
pub record ReplyLaws (J : Json) (S : Serde) : Type 0 where
  -- The printed object parses to one that has the token, and without it reads as a message of this
  -- type with this ciphertext.
  pub reply_object :
      (type ciphertext token : Text)
      → (w : J.Value) × (J.from_str (
            J.to_string
              (J.insert (J.object (reply_fields J type ciphertext)) (lit "auth") (J.string token)))
          ≡ some w)
        × (member_str J w (lit "auth") ≡ some token)
        × ((raw : RawMessage) × (S.raw_from_str (J.to_string (J.remove w (lit "auth"))) ≡ some raw)
            × (raw.type ≡ some type)
            × (raw.mlkem_ciphertext ≡ some ciphertext))
