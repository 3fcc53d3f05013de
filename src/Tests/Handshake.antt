-- ===== src/Tests/Handshake.antt =====
-- The handshake with the toy crates: the keys are made from the seeds 2 and 3.
use ktty.Base.{
  ℕ, ◌≡◌, ◌⊎◌, ◌↔◌, refl, Text, Bytes, text, ping, pong, Incoming, frame, false, List, [], ◌∷◌,
  ◌++◌, some, ok, get_elem?, lit, is_char_boundary, text_eq,
}
use ktty.Common.Crypto.{mlkem_encapsulate}
use ktty.Common.Messages.{handshake_offer, is_handshake}
use ktty.Agent.Session.State.{Outbox, can_slice}
use ktty.Agent.Session.Handshake.{
  agrees, breaks, offer_text, hmac_text, on_reply, on_message, perform_handshake, accept_ciphertext,
}
use ktty.Agent.Session.Handshake.Agreement.{open_outbox, offer_of, Replies, handshake_agrees}
use ktty.Agent.Session.Handshake.Replies.{Brings, key_needs_reply}
use ktty.Agent.Session.Handshake.Pin.{key_of, handshake_ignores_pin}
use ktty.Agent.Session.Handshake.Panics.{HasWrongLength, handshake_panics_iff}
use ktty.Tests.ToyCrates.{toy_serde, toy_encodings, toy_encodings_laws}
use ktty.Tests.ToyCiphers.{toy_crates, toy_kem, toy_kem_laws, toy_hmac_laws, replicate}

abbrev derived : Bytes
derived = replicate 32 9

abbrev token : Text
token = lit "t0"

abbrev sealed : Text
sealed = replicate 1088 3

abbrev secret : Bytes
secret = replicate 32 5

abbrev offered_key : Bytes
offered_key = replicate 1184 2

sealed-Replies : Replies toy_crates sealed sealed
unfolding toy_crates toy_serde toy_encodings is_handshake text_eq is_char_boundary
sealed-Replies = record { raw = _; parses = refl; kind = refl; carries = refl; loggable = refl }

unfoldable agent_seed : toy_crates.kem.Seed
unfolding toy_crates toy_kem
agent_seed = 2

unfoldable client_seed : toy_crates.kem.Seed
unfolding toy_crates toy_kem
client_seed = 3

client_reads :
    toy_crates.encodings.base64_decode (offer_of toy_crates agent_seed).mlkem_pub_key
    ≡ some offered_key
unfolding toy_crates toy_kem toy_encodings handshake_offer agent_seed
client_reads = refl

client_seals : mlkem_encapsulate toy_crates.kem client_seed offered_key ≡ ok (sealed, secret)
unfolding toy_crates toy_kem mlkem_encapsulate client_seed
client_seals = refl

abbrev messages : List Incoming
messages = frame (ping (lit "p")) ∷ frame (text sealed) ∷ []

-- The outbox in the end.
abbrev ended_with : Bytes → Outbox
ended_with key = open_outbox (
    text (offer_text toy_crates key (some token) (offer_of toy_crates agent_seed))
    ∷ pong (lit "p")
    ∷ text (hmac_text toy_crates key (some token) secret)
    ∷ [])

handshake_agreed :
    perform_handshake toy_crates derived (some token) agent_seed messages (open_outbox [])
    ≡ agrees secret (ended_with derived)
unfolding toy_crates
handshake_agreed =
    (handshake_agrees toy_crates derived (some token) toy_encodings_laws toy_kem_laws toy_hmac_laws
      agent_seed client_seed [] (frame (ping (lit "p")) ∷ []) [] offered_key sealed secret sealed
      client_reads client_seals (refl, tt) sealed-Replies).0

key_needs_reply_example :
    (i : ℕ) × (t : Text) × (o1 : Outbox) × (get_elem? messages i ≡ some (frame (text t)))
    × Brings toy_crates (some token) (toy_crates.kem.generate agent_seed).0 t secret
    × ((ended_with derived).sent
        ≡ o1.sent ++ text (hmac_text toy_crates derived (some token) secret) ∷ [])
key_needs_reply_example =
    key_needs_reply toy_crates (some token) derived agent_seed messages (open_outbox [])
      (ended_with derived) secret handshake_agreed

handshake_ignores_pin_example :
    key_of (perform_handshake toy_crates derived (some token) agent_seed messages (open_outbox []))
    ≡ key_of (
        perform_handshake toy_crates
          (replicate 32 1)
          (some token)
          agent_seed
          messages
          (open_outbox []))
handshake_ignores_pin_example =
    handshake_ignores_pin toy_crates (some token) derived (replicate 32 1) agent_seed messages
      (open_outbox [])

-- A reply of one byte.
abbrev short_reply : Incoming
short_reply = frame (text (lit "a"))

short_reply_breaks :
    on_message toy_crates derived
      (some token)
      (toy_crates.kem.generate agent_seed).0
      short_reply
      (open_outbox [])
    ≡ breaks
unfolding on_message on_reply accept_ciphertext toy_crates toy_serde toy_encodings is_handshake
    text_eq is_char_boundary
short_reply_breaks = refl

handshake_panics_iff_example :
    (on_message toy_crates derived
        (some token)
        (toy_crates.kem.generate agent_seed).0
        short_reply
        (open_outbox [])
      ≡ breaks)
    ↔ ((t : Text) × (short_reply ≡ frame (text t))
        × ((can_slice t 80 ≡ false)
            ⊎ HasWrongLength toy_crates derived
                (some token)
                (toy_crates.kem.generate agent_seed).0
                t))
handshake_panics_iff_example =
    handshake_panics_iff toy_crates derived (some token) (toy_crates.kem.generate agent_seed).0
      short_reply (open_outbox [])
