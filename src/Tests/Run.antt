-- ===== src/Tests/Run.antt =====
-- A connection with the toy crates: a client joins, its handshake, one output, a second join, and a key pressed.
mod Quiet
mod Returning
use ktty.Base.{
  ℕ, suc, ◌≤◌, ◌≡◌, inl, refl, Text, Bytes, Message, text, frame, true, List, [], ◌∷◌, ◌++◌, map,
  none, some, retain, ltb, arith, lit, text_eq, contains, is_char_boundary, All, word_add,
}
use mathlib.Core.Option
use mathlib.Core.List.{head?}
use ktty.Common.Crypto
use ktty.Common.Crypto.{decrypt, encrypt}
use ktty.Common.Messages.{SyncReqPayload, boot_signal, is_handshake}
use ktty.Agent.RingBuffer
use ktty.Agent.RingBuffer.{packets_since, push, evict, gap}
use ktty.Agent.RingBuffer.Replay.{Counts, resumes_at, ReportsGap}
use ktty.Agent.Session.State.{Link, write_input, send}
use ktty.Agent.Session.Bridge.{
  BridgeEvent, pty_output, socket, tick, bridge_step, on_output, record_output, send_output,
  on_text, on_socket, on_envelope, dispatch, writer_ended,
}
use ktty.Agent.Session.SyncReq.{warn_bytes}
use ktty.Agent.Session.Traffic.{reads, reading_of, warning_of}
use ktty.Agent.Session.History.{IsRecent}
use ktty.Agent.Session.Recovery.{ShortWarnings}
use ktty.Agent.Session.Handshake.{offer_text, on_message, on_reply, accept_ciphertext}
use ktty.Agent.Session.Handshake.Agreement.{offer_of, open_outbox}
use ktty.Agent.Session.Joining.{Session, joining_socket, joining_text, token_in}
use ktty.Agent.Session.Joining.{ends_with, ws_url, trim_end_matches}
use ktty.Agent.Session.Run.{
  Phase, State, receives, boot_text, boot, shake, start, step, steps, after_joining, after_message,
  after_wait, after_bridge, Reach, here, next, takes,
}
use ktty.Agent.Session.Run.Keys.{IsKeyed}
use ktty.Agent.Session.Run.Memory.{Reach-Sound}
use ktty.Agent.Session.Printed.{Remembers, kept}
use ktty.Agent.Session.Wait.{wait_step, wait_socket, wait_text}
use ktty.Agent.Session.Run.Reconnecting.{Requests, reconnect_recovers, IsJoin, rejoin_offers}
use ktty.Agent.Session.Run.Terminal.{Types, terminal_needs_session}
use ktty.Agent.Session.Run.Secrecy.{Fits, sends_in_phase}
use ktty.Agent.Session.Run.Silence.{IsOver, IsLate, IsUnheard, silence_ends, handshake_deaf}
use ktty.Tests.ToyJson.{toy_json}
use ktty.Tests.ToyCrates.{toy_serde, toy_encodings}
use ktty.Tests.ToyCiphers.{toy_crates, toy_crates_laws, toy_kem, toy_kem_laws, toy_aead, replicate}

abbrev derived : Bytes
derived = replicate 32 9

abbrev session : Session
session = record { relay_url = lit "ws://h"; derived_key = derived; room_id = lit "r" }

unfoldable seeds : ℕ → toy_crates.kem.Seed
unfolding toy_crates toy_kem
seeds i = i

abbrev join_text : Text
join_text = lit "{\"action\":\"join\"}"

abbrev join_event : BridgeEvent
join_event = socket 3 (frame (text join_text))

abbrev reply_event : BridgeEvent
reply_event = socket 4 (frame (text (replicate 1088 3)))

abbrev s0 : State toy_crates
s0 = start toy_crates session seeds

abbrev s1 : State toy_crates
s1 = step toy_crates session seeds join_event s0

abbrev s2 : State toy_crates
s2 = step toy_crates session seeds reply_event s1

abbrev s3 : State toy_crates
s3 = step toy_crates session seeds (pty_output (lit "a")) s2

s1_phase : s1.phase ≡ Phase.shaking (toy_crates.kem.generate (seeds 0)).0
unfolding step after_joining boot shake start contains text_eq is_char_boundary toy_crates toy_json
    token_in joining_text send joining_socket
s1_phase = refl

abbrev link : Link
link = record {
  key = replicate 32 3;
  session_id = Crypto.session_id toy_crates.encodings (replicate 32 3);
  auth = none;
}

s2_phase : s2.phase ≡ Phase.bridging link
unfolding step after_joining after_message boot shake start contains text_eq is_char_boundary
    toy_crates toy_json token_in joining_text send on_message on_reply is_handshake toy_serde
    toy_encodings toy_kem accept_ciphertext seeds joining_socket
s2_phase = refl

-- The terminal has printed a letter, under the number 1.
s3_phase : s3.phase ≡ Phase.bridging link
unfolding step after_joining after_message after_bridge boot shake start contains text_eq
    is_char_boundary toy_crates toy_json token_in joining_text send on_message on_reply is_handshake
    toy_serde toy_encodings toy_kem accept_ciphertext seeds joining_socket bridge_step on_output
    record_output send_output push evict RingBuffer.new word_add RingBuffer.byte_size encrypt
    toy_aead
s3_phase = refl

s3_open : s3.agent.outbox.is_open ≡ true
unfolding step after_joining after_message after_bridge boot shake start contains text_eq
    is_char_boundary toy_crates toy_json token_in joining_text send on_message on_reply is_handshake
    toy_serde toy_encodings toy_kem accept_ciphertext seeds joining_socket bridge_step on_output
    record_output send_output push evict RingBuffer.new word_add RingBuffer.byte_size encrypt
    toy_aead
s3_open = refl

s3_heard : IsLate 60_000_000_000 s3.agent.last_ws_rx
unfolding step after_joining after_message after_bridge boot shake start contains text_eq
    is_char_boundary toy_crates toy_json token_in joining_text send on_message on_reply is_handshake
    toy_serde toy_encodings toy_kem accept_ciphertext seeds joining_socket bridge_step on_output
    record_output send_output push evict RingBuffer.new word_add RingBuffer.byte_size encrypt
    toy_aead
s3_heard = omega arith

s3_seq : s3.agent.seq ≡ 1
unfolding step after_joining after_message after_bridge boot shake start contains text_eq
    is_char_boundary toy_crates toy_json token_in joining_text send on_message on_reply is_handshake
    toy_serde toy_encodings toy_kem accept_ciphertext seeds joining_socket bridge_step on_output
    record_output send_output push evict RingBuffer.new word_add RingBuffer.byte_size encrypt
    toy_aead
s3_seq = refl

s0_receives : receives toy_crates s0.phase join_event ≡ true
unfolding start
s0_receives = refl

abbrev reached : Reach toy_crates session seeds 3 s3
reached =
    next
      (next (next here (takes join_event s0_receives tt)) (takes reply_event (rw s1_phase refl) tt))
      (takes (pty_output (lit "a")) (rw s2_phase refl) (omega arith))

-- The payload `plain` in an envelope of the session.
sealed : ℕ → Text → Bytes → Text
sealed key kind plain =
    Option.get_or
      (toy_serde.envelope_to_string (record {
        seq = 5;
        session_id = toy_crates.encodings.hex_encode (replicate 8 key);
        type = kind;
        payload = replicate 24 3 ++ (plain ++ replicate 16 7);
        auth = none;
      }))
      []

join_text-IsJoin : IsJoin toy_crates session seeds join_text
unfolding contains text_eq is_char_boundary
join_text-IsJoin = (refl, refl, refl, refl)

-- The same client joins again in the middle of the session.
rejoin_offers_example : step toy_crates session seeds join_event s3 ≡ record s3 {
  phase = Phase.shaking (toy_crates.kem.generate (seeds s3.seeds)).0;
  seeds = suc s3.seeds;
  agent = record s3.agent {
    last_ws_rx = 3;
    outbox = open_outbox (
        s3.agent.outbox.sent
        ++ text (boot_text toy_crates session seeds s3.token boot_signal)
          ∷ text (offer_text toy_crates derived s3.token (offer_of toy_crates (seeds s3.seeds)))
          ∷ []);
  };
}
rejoin_offers_example =
    rejoin_offers toy_crates session seeds 3 join_text s3 (inl (link, s3_phase)) join_text-IsJoin
      s3_open

-- A key is pressed.
abbrev typed : BridgeEvent
typed = socket 9 (frame (text (sealed 3 (lit "pty") (lit "l"))))

s4_typed : (step toy_crates session seeds typed s3).agent.pty ≡ write_input (lit "l") ∷ []
unfolding step after_joining after_message after_bridge boot shake start contains text_eq
    is_char_boundary toy_crates toy_json token_in joining_text send on_message on_reply is_handshake
    toy_serde toy_encodings toy_kem accept_ciphertext seeds joining_socket bridge_step on_output
    record_output send_output push evict RingBuffer.new word_add RingBuffer.byte_size encrypt
    toy_aead on_text on_envelope dispatch decrypt Crypto.session_id sealed
s4_typed = refl

s3_untyped : s3.agent.pty ≡ []
unfolding step after_joining after_message after_bridge boot shake start contains text_eq
    is_char_boundary toy_crates toy_json token_in joining_text send on_message on_reply is_handshake
    toy_serde toy_encodings toy_kem accept_ciphertext seeds joining_socket bridge_step on_output
    record_output send_output push evict RingBuffer.new word_add RingBuffer.byte_size encrypt
    toy_aead
s3_untyped = refl

terminal_needs_session_example :
    (l : Link) × (s3.phase ≡ Phase.bridging l)
    × Types toy_crates l typed s3.agent (step toy_crates session seeds typed s3).agent
terminal_needs_session_example =
    terminal_needs_session toy_crates session seeds typed s3 (λ e. cc (e, s4_typed, s3_untyped))

sends_in_phase_example :
    (ms : List Message) × ((step toy_crates session seeds typed s3).agent.outbox.sent
      ≡ s3.agent.outbox.sent ++ ms)
    × All (Fits toy_crates session seeds s3.phase) ms
sends_in_phase_example = sends_in_phase toy_crates session seeds typed s3

address : ws_url (lit "ws://h//") ≡ lit "ws://h/ws"
unfolding ws_url trim_end_matches ends_with text_eq
address = refl
