-- ===== src/Tests/Run/Returning.antt =====
-- The same connection further: the client goes, the terminal prints on, and the client comes back with
-- new keys and asks for what it missed.
use ktty.Base.{
  ℕ, ◌≤◌, ◌≡◌, refl, Text, Bytes, Message, text, frame, true, List, [], ◌∷◌, ◌++◌, map, none, some,
  retain, ltb, arith, lit, text_eq, contains, is_char_boundary, word_add,
}
use mathlib.Core.Option
use mathlib.Core.List.{head?}
use ktty.Common.Crypto
use ktty.Common.Crypto.{decrypt, encrypt}
use ktty.Common.Messages.{SyncReqPayload, is_handshake}
use ktty.Agent.RingBuffer
use ktty.Agent.RingBuffer.{packets_since, push, evict, gap}
use ktty.Agent.RingBuffer.Replay.{Counts, resumes_at, ReportsGap}
use ktty.Agent.Session.State.{Link, send}
use ktty.Agent.Session.Bridge.{
  BridgeEvent, pty_output, socket, bridge_step, on_output, record_output, send_output, on_text,
  on_socket,
}
use ktty.Agent.Session.SyncReq.{warn_bytes}
use ktty.Agent.Session.Traffic.{reads, reading_of, warning_of}
use ktty.Agent.Session.History.{IsRecent}
use ktty.Agent.Session.Recovery.{ShortWarnings}
use ktty.Agent.Session.Handshake.{on_message, on_reply, accept_ciphertext}
use ktty.Agent.Session.Joining.{joining_socket, joining_text, token_in}
use ktty.Agent.Session.Run.{
  Phase, State, boot, shake, start, step, after_joining, after_message, after_wait, after_bridge,
  Reach, next, takes,
}
use ktty.Agent.Session.Run.Keys.{IsKeyed}
use ktty.Agent.Session.Run.Memory.{Reach-Sound}
use ktty.Agent.Session.Printed.{Remembers, kept}
use ktty.Agent.Session.Wait.{wait_step, wait_socket, wait_text}
use ktty.Agent.Session.Run.Reconnecting.{Requests, reconnect_recovers}
use ktty.Tests.ToyJson.{toy_json}
use ktty.Tests.ToyCrates.{toy_serde, toy_encodings}
use ktty.Tests.ToyCiphers.{toy_crates, toy_crates_laws, toy_kem, toy_kem_laws, toy_aead, replicate}
use ktty.Tests.Run.{session, seeds, join_event, reply_event, s3, s3_phase, reached, sealed}

abbrev gone_event : BridgeEvent
gone_event = socket 5 (frame (text (lit "{\"type\":\"peer_disconnect\"}")))

abbrev s4 : State toy_crates
s4 = step toy_crates session seeds gone_event s3

abbrev s5 : State toy_crates
s5 = step toy_crates session seeds (pty_output (lit "b")) s4

abbrev s6 : State toy_crates
s6 = step toy_crates session seeds join_event s5

abbrev s7 : State toy_crates
s7 = step toy_crates session seeds reply_event s6

abbrev new_link : Link
new_link = record {
  key = replicate 32 4;
  session_id = Crypto.session_id toy_crates.encodings (replicate 32 4);
  auth = none;
}

s4_phase : s4.phase ≡ Phase.waiting true
unfolding step after_joining after_message after_bridge after_wait boot shake start contains text_eq
    is_char_boundary toy_crates toy_json token_in joining_text send on_message on_reply is_handshake
    toy_serde toy_encodings toy_kem accept_ciphertext seeds joining_socket bridge_step on_output
    record_output send_output push evict RingBuffer.new word_add RingBuffer.byte_size encrypt
    toy_aead on_socket on_text wait_step wait_socket wait_text
s4_phase = refl

s5_phase : s5.phase ≡ Phase.waiting true
unfolding step after_joining after_message after_bridge after_wait boot shake start contains text_eq
    is_char_boundary toy_crates toy_json token_in joining_text send on_message on_reply is_handshake
    toy_serde toy_encodings toy_kem accept_ciphertext seeds joining_socket bridge_step on_output
    record_output send_output push evict RingBuffer.new word_add RingBuffer.byte_size encrypt
    toy_aead on_socket on_text wait_step wait_socket wait_text
s5_phase = refl

s6_phase : s6.phase ≡ Phase.shaking (toy_crates.kem.generate (seeds 1)).0
unfolding step after_joining after_message after_bridge after_wait boot shake start contains text_eq
    is_char_boundary toy_crates toy_json token_in joining_text send on_message on_reply is_handshake
    toy_serde toy_encodings toy_kem accept_ciphertext seeds joining_socket bridge_step on_output
    record_output send_output push evict RingBuffer.new word_add RingBuffer.byte_size encrypt
    toy_aead on_socket on_text wait_step wait_socket wait_text
s6_phase = refl

s7_phase : s7.phase ≡ Phase.bridging new_link
unfolding step after_joining after_message after_bridge after_wait boot shake start contains text_eq
    is_char_boundary toy_crates toy_json token_in joining_text send on_message on_reply is_handshake
    toy_serde toy_encodings toy_kem accept_ciphertext seeds joining_socket bridge_step on_output
    record_output send_output push evict RingBuffer.new word_add RingBuffer.byte_size encrypt
    toy_aead on_socket on_text wait_step wait_socket wait_text
s7_phase = refl

s7_open : s7.agent.outbox.is_open ≡ true
unfolding step after_joining after_message after_bridge after_wait boot shake start contains text_eq
    is_char_boundary toy_crates toy_json token_in joining_text send on_message on_reply is_handshake
    toy_serde toy_encodings toy_kem accept_ciphertext seeds joining_socket bridge_step on_output
    record_output send_output push evict RingBuffer.new word_add RingBuffer.byte_size encrypt
    toy_aead on_socket on_text wait_step wait_socket wait_text
s7_open = refl

abbrev come_back : Reach toy_crates session seeds 7 s7
come_back =
    next
      (next
        (next (next reached (takes gone_event (rw s3_phase refl) tt))
          (takes (pty_output (lit "b")) (rw s4_phase refl) (omega arith)))
        (takes join_event (rw s5_phase refl) tt))
      (takes reply_event (rw s6_phase refl) tt)

Reach-Sound_example :
    Remembers (lit "a" ∷ lit "b" ∷ []) s7.agent
    × IsRecent s7.agent.seq s7.agent.ring
    × (s7.agent.seq ≤ 7)
    × IsKeyed toy_crates session seeds s7.token s7.phase
unfolding toy_crates toy_kem
Reach-Sound_example = Reach-Sound toy_crates session seeds toy_kem_laws come_back (omega arith)

-- The client saw only the first output.
abbrev request : SyncReqPayload
request = record { last_seq = 1; session_id = new_link.session_id }

abbrev request_text : Text
request_text = sealed 4 (lit "sync_req") (1 ∷ new_link.session_id)

request-Requests : Requests toy_crates new_link request_text request
unfolding sealed toy_crates toy_json toy_serde toy_encodings toy_aead decrypt contains text_eq
    Crypto.session_id
request-Requests = record {
  env = _;
  packed = _;
  plain = _;
  plainly = (refl, refl, refl);
  parses = refl;
  kind = refl;
  session = refl;
  decodes = refl;
  opens = refl;
  asks = refl;
  current = refl;
}

short_warnings : ShortWarnings toy_crates new_link
unfolding warn_bytes toy_crates toy_json
short_warnings start' end h k = omega arith

abbrev history : List Bytes
history = lit "a" ∷ lit "b" ∷ []

reconnect_recovers_example :
    let (packets, dropped) = packets_since s7.agent.ring 1 in
    (ms : List Message) × (first : ℕ) × ((step toy_crates session seeds
        (socket 9 (frame (text request_text)))
        s7).agent.outbox
      ≡ record { sent = s7.agent.outbox.sent ++ ms; is_open = true })
    × (map (reads toy_crates new_link) ms
        ≡ warning_of toy_crates new_link dropped ++ map (reading_of toy_crates new_link) packets)
    × (packets ≡ retain (λ p. ltb 1 p.seq) (kept history))
    × Counts (resumes_at 1 dropped) packets 3
    × (Option.map (λ p. p.seq) (head? (kept history)) ≡ some first)
    × ReportsGap 1 first dropped
unfolding toy_crates toy_kem
reconnect_recovers_example =
    reconnect_recovers toy_crates session seeds toy_crates_laws toy_kem_laws come_back (omega arith)
      new_link 9 request_text request s7_phase request-Requests short_warnings s7_open (λ e. cc)
      (omega arith)
