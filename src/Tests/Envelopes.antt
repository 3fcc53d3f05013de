-- ===== src/Tests/Envelopes.antt =====
-- An output of the terminal and a client's input, on their way through a relay with a room of two.
use ktty.Base.{
  ℕ, ◌≡◌, ◌≤◌, refl, arith, Text, Bytes, text, frame, lit, [], ◌∷◌, ◌++◌, none, some, true, ok,
  length, if◌then◌else◌, text_eq, text_eq_iff, contains, word_add, subst,
}
use mathlib.Core.Option
use ktty.Common.Crypto.{encrypt}
use ktty.Common.Messages.{EncryptedEnvelope, envelope, with_auth}
use ktty.Agent.RingBuffer
use ktty.Agent.RingBuffer.{push}
use ktty.Agent.Session.State.{Agent, Link, write_input, goes_on}
use ktty.Agent.Session.SyncReq.{envelope_text}
use ktty.Agent.Session.Bridge.{socket, on_output, bridge_step}
use ktty.Agent.Session.Traffic.{reads}
use ktty.Agent.Session.Run.Reconnecting.{IsPlain}
use ktty.Relay.Channel.{offered}
use ktty.Relay.Handler.{max_text_frame_bytes, strip_auth, handle_message}
use ktty.Relay.Room.{find_peer}
use ktty.Relay.Delivery.Sending.{receives}
use ktty.Meeting.Envelopes.{output_reaches_client, input_reaches_terminal}
use ktty.Tests.ToyJson.{toy_json}
use ktty.Tests.ToyCrates.{toy_serde, toy_encodings}
use ktty.Tests.ToyCrates.Objects.{toy_serde-EnvelopeLaws}
use ktty.Tests.ToyCiphers.{toy_crates, toy_crates_laws, toy_aead, replicate}
use ktty.Tests.Relay.{pair, pair-Inv, pair_room, pair_found, peer0, peer1, conn0, conn1}

abbrev link : Link
link = record { key = replicate 32 1; session_id = lit "ab"; auth = some (lit "t0") }

abbrev idle : Agent
idle = record {
  seq = 0;
  ring = RingBuffer.new;
  outbox = record { sent = []; is_open = true };
  pty = [];
  last_ws_rx = 0;
  drawn = 0;
}

abbrev packed : Bytes
packed = replicate 24 0 ++ (lit "hi" ++ replicate 16 7)

output_sealed : encrypt toy_crates.aead (toy_crates.nonce 0) link.key (lit "hi") ≡ ok packed
unfolding encrypt toy_crates toy_aead
output_sealed = refl

packed_short :
    length (envelope_text toy_crates link (word_add 0 1) (lit "pty") packed) ≤ max_text_frame_bytes
unfolding envelope_text envelope with_auth toy_crates toy_serde toy_json toy_encodings word_add
packed_short = omega arith

output_short :
    (enc : Bytes)
    → encrypt toy_crates.aead (toy_crates.nonce 0) link.key (lit "hi") ≡ ok enc
    → length (envelope_text toy_crates link (word_add 0 1) (lit "pty") enc) ≤ max_text_frame_bytes
output_short enc sealed =
    let same : packed ≡ enc = cc (sealed, output_sealed) in
    subst
      (λ b.
        length (envelope_text toy_crates link (word_add 0 1) (lit "pty") b) ≤ max_text_frame_bytes)
      same packed_short

slot0 : find_peer conn0.peer_id pair_room.peers ≡ some peer0
unfolding find_peer
slot0 = refl

output_reaches_client_example :
    (t : Text) × (t' : Text) × (env : EncryptedEnvelope) × (on_output toy_crates link
        (lit "hi")
        idle
      ≡ goes_on (record idle {
        seq = word_add 0 1;
        ring =
            push RingBuffer.new
              (record { seq = word_add 0 1; msg_type = lit "pty"; payload = lit "hi" });
        outbox = record { sent = text t ∷ []; is_open = true };
        drawn = 1;
      }))
    × (toy_crates.serde.envelope_from_str t' ≡ some env)
    × (env.auth ≡ none)
    × (reads toy_crates link (text t') ≡ some (word_add 0 1, lit "ab", lit "pty", lit "hi"))
    × ((tx : ℕ)
        → (handle_message toy_crates.json text_eq conn0 9 (text t) pair).0.chans tx ≡ (
            if receives 0 tx pair_room.peers
            then offered (pair.chans tx) (text t')
            else pair.chans tx))
unfolding toy_crates
output_reaches_client_example =
    output_reaches_client toy_crates toy_serde-EnvelopeLaws text_eq text_eq_iff 2 conn0 9 pair
      pair_room peer0 pair-Inv pair_found slot0 toy_crates_laws link refl (lit "hi") idle
      (omega arith) refl refl output_short

-- The client types `ls`.
abbrev packed_ls : Bytes
packed_ls = replicate 24 3 ++ (lit "ls" ++ replicate 16 7)

input_sealed : encrypt toy_crates.aead (replicate 24 3) link.key (lit "ls") ≡ ok packed_ls
unfolding encrypt toy_crates toy_aead
input_sealed = refl

command : Text
unfolding toy_crates envelope with_auth toy_serde toy_encodings
command =
    Option.get_or
      (toy_crates.serde.envelope_to_string (
        with_auth (envelope 5 (lit "ab") (lit "pty") (toy_crates.encodings.base64_encode packed_ls))
          (some (lit "t1"))))
      []

command_short : length command ≤ max_text_frame_bytes
unfolding command toy_json toy_serde toy_crates toy_encodings envelope with_auth
command_short = omega arith

command_printed :
    toy_crates.serde.envelope_to_string (
      with_auth
        (envelope 5 (lit "ab") (lit "pty") (toy_crates.encodings.base64_encode packed_ls))
        (some (lit "t1")))
    ≡ some command
unfolding command toy_serde toy_crates
command_printed = refl

command_stripped : Text
unfolding toy_crates envelope with_auth toy_serde toy_encodings
command_stripped =
    Option.get_or
      (toy_crates.serde.envelope_to_string
        (envelope 5 (lit "ab") (lit "pty") (toy_crates.encodings.base64_encode packed_ls)))
      []

command_strips : strip_auth toy_crates.json text_eq (text command) ≡ text command_stripped
unfolding strip_auth command command_stripped toy_json toy_serde toy_crates toy_encodings envelope
    with_auth text_eq
command_strips = refl

command_stripped-IsPlain : IsPlain command_stripped
unfolding command_stripped toy_json toy_serde toy_crates toy_encodings envelope with_auth text_eq
    contains
command_stripped-IsPlain = (refl, refl, refl)

plainly : (t' : Text) → strip_auth toy_crates.json text_eq (text command) ≡ text t' → IsPlain t'
plainly t' stripped =
    let same : command_stripped ≡ t' = cc (stripped, command_strips) in
    subst IsPlain same command_stripped-IsPlain

slot1 : find_peer conn1.peer_id pair_room.peers ≡ some peer1
unfolding find_peer
slot1 = refl

input_reaches_terminal_example :
    (t' : Text) × ((tx : ℕ)
      → (handle_message toy_crates.json text_eq conn1 9 (text command) pair).0.chans tx ≡ (
          if receives 1 tx pair_room.peers
          then offered (pair.chans tx) (text t')
          else pair.chans tx))
    × ((later : ℕ) (a : Agent)
        → bridge_step toy_crates link (socket later (frame (text t'))) a
          ≡ goes_on (record a { pty = a.pty ++ write_input (lit "ls") ∷ []; last_ws_rx = later }))
unfolding toy_crates
input_reaches_terminal_example =
    input_reaches_terminal toy_crates toy_serde-EnvelopeLaws text_eq text_eq_iff 2 conn1 9 pair
      pair_room peer1 pair-Inv pair_found slot1 toy_crates_laws link refl 5 (lit "ls")
      (replicate 24 3) packed_ls command (omega arith) refl input_sealed command_printed
      command_short plainly
