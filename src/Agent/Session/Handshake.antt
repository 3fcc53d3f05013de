-- ===== src/Agent/Session/Handshake.antt =====
-- `perform_handshake`: the offer that it sends, and the loop over the messages that come.
pub mod Agreement
pub mod Replies
pub mod Pin
pub mod Panics
pub mod Sending
use ktty.Base.{
  ℕ, Text, Bytes, Message, text, binary, ping, pong, close, Incoming, frame, failed, ended, lit,
  List, [], ◌∷◌, none, some, Option, length, ◌==◌, if◌then◌else◌,
}
use ktty.Common.Crypto.{compute_hmac}
use ktty.Common.Messages.{HandshakeOffer, handshake_offer, is_handshake}
use ktty.Deps.Json.{Json}
use ktty.Deps.Crates.{Crates}
use ktty.Agent.Session.State.{Outbox, send, can_slice}

-- What the handshake comes to: it waits for more messages, has a key, has an error for its caller,
-- or panics.
pub data Handshake : Type 0 where
  waits : Outbox → Handshake
  agrees : Bytes → Outbox → Handshake
  aborts : Outbox → Handshake
  breaks : Handshake

-- `if let Some(token) = relay_auth_token { v["auth"] = … }`
unfoldable pub stamp : (J : Json) → Option Text → J.Value → J.Value
stamp J none v = v
stamp J (some token) v = J.insert v (lit "auth") (J.string token)

unfoldable pub or_same : Option Outbox → Outbox → Outbox
or_same none o = o
or_same (some o') o = o'

-- Go on while the handshake waits.
abbrev pub while_waiting : Handshake → (Outbox → Handshake) → Handshake
while_waiting (waits o) next = next o
while_waiting (agrees key o) next = agrees key o
while_waiting (aborts o) next = aborts o
while_waiting breaks next = breaks

module _ (X : Crates) (derived_key : Bytes) (auth : Option Text) where
  -- The message `{"type", "mlkem_pub_key"}`, as `to_value` makes it of the offer.
  unfoldable pub offer_text : HandshakeOffer → Text
  unfolding stamp
  offer_text offer = X.json.to_string (
      stamp X.json auth (
        X.json.object (
          (lit "type", X.json.string offer.type)
          ∷ (lit "mlkem_pub_key", X.json.string offer.mlkem_pub_key)
          ∷ [])))

  unfoldable pub hmac_text : Bytes → Text
  unfolding stamp
  hmac_text key = X.json.to_string (
      stamp X.json auth (
        X.json.object (
          (lit "type", X.json.string (lit "handshake"))
          ∷ (
            lit "hmac",
            X.json.string (X.encodings.base64_encode (compute_hmac X.hmac derived_key key)),
          )
          ∷ [])))

  -- The shared secret is the key, and its tag goes out.
  unfoldable pub confirm : Bytes → Outbox → Handshake
  unfolding hmac_text send
  confirm key o = elim (send (text (hmac_text key)) o) [ none ↦ aborts o | some o' ↦ agrees key o' ]

  -- `from_slice` panics on a slice of another length than the ciphertext's.
  unfoldable pub accept_ciphertext : X.kem.Dk → Bytes → Outbox → Handshake
  unfolding confirm
  accept_ciphertext dk ct_bytes o =
      let opened : Handshake = elim (X.kem.decapsulate dk ct_bytes) [
        | none ↦ aborts o
        | some shared_secret ↦ confirm shared_secret o
      ] in
      if length ct_bytes == 1088 then opened else breaks

  unfoldable pub on_reply : X.kem.Dk → Text → Outbox → Handshake
  unfolding accept_ciphertext
  on_reply dk t o = elim (X.serde.raw_from_str t) [
    | none ↦ waits o
    | some raw ↦ elim raw.mlkem_ciphertext [
      | none ↦ waits o
      | some ct_b64 ↦
          let decoded : Handshake = elim (X.encodings.base64_decode ct_b64) [
            | none ↦ aborts o
            | some ct_bytes ↦ accept_ciphertext dk ct_bytes o
          ] in
          if is_handshake raw then decoded else waits o
    ]
  ]

  unfoldable pub on_message : X.kem.Dk → Incoming → Outbox → Handshake
  unfolding on_reply
  on_message dk (frame (text t)) o = if can_slice t 80 then on_reply dk t o else breaks
  on_message dk (frame (ping d)) o = waits (or_same (send (pong d) o) o)
  on_message dk (frame (pong d)) o = waits o
  on_message dk (frame (binary b)) o = waits o
  on_message dk (frame close) o = waits o
  on_message dk failed o = aborts o
  on_message dk ended o = aborts o

  unfoldable pub handshake_loop : X.kem.Dk → List Incoming → Outbox → Handshake
  unfolding on_message
  handshake_loop dk [] o = waits o
  handshake_loop dk (m ∷ ms) o = while_waiting (on_message dk m o) (λ o'. handshake_loop dk ms o')

  unfoldable pub perform_handshake : X.kem.Seed → List Incoming → Outbox → Handshake
  unfolding offer_text handshake_loop
  perform_handshake seed ms o =
      let (dk, ek) = X.kem.generate seed in
      let offer = handshake_offer (X.encodings.base64_encode (X.kem.as_bytes ek)) in
      elim (send (text (offer_text offer)) o) [
        | none ↦ aborts o
        | some o' ↦ handshake_loop dk ms o'
      ]
