-- ===== src/Meeting/Envelopes.antt =====
-- Encrypted traffic on its way through the relay: from the agent to a client, and back.
use ktty.Base.{
  subst, ℕ, suc, ◌<◌, ◌≤◌, ◌≡◌, ◌↔◌, refl, ◌∙◌, Text, Bytes, text, frame, lit, Bool, true, [], ◌∷◌,
  ◌++◌, none, some, ok, length, if◌then◌else◌, word_add, text_eq, text_eq_refl,
}
use mathlib.Core.Option
use ktty.Common.Constants.{nonce_len}
use ktty.Common.Crypto.{encrypt, decrypt}
use ktty.Common.Crypto.Packing.{encrypt_roundtrip}
use ktty.Common.Messages.{EncryptedEnvelope, envelope, with_auth}
use ktty.Deps.Serde.{EnvelopeLaws}
use ktty.Deps.Crates.{Crates, TrafficLaws}
use ktty.Agent.RingBuffer.{push}
use ktty.Agent.Session.State.{Agent, Link, write_input, goes_on}
use ktty.Agent.Session.SyncReq.{envelope_text}
use ktty.Agent.Session.Bridge.{
  socket, on_output, on_text, on_envelope, dispatch, on_socket, bridge_step, send_output,
}
use ktty.Agent.Session.Traffic.{read_envelope, reads, max_plain}
use ktty.Agent.Session.Run.Reconnecting.{IsPlain}
use ktty.Relay.Channel.{Tx, offered}
use ktty.Relay.Room.{Peer, Room, find_peer}
use ktty.Relay.RoomMap.{get}
use ktty.Relay.State.{Relay, Conn}
use ktty.Relay.Handler.{max_text_frame_bytes, strip_auth, handle_message}
use ktty.Relay.Invariant.State.{Inv}
use ktty.Relay.Delivery.Sending.{receives}
use ktty.Meeting.Passing.{passed}

module _ (X : Crates) (objects : EnvelopeLaws X.json X.serde) (ct_eq : Bytes → Bytes → Bool) where
  module _ (ct_eq_iff : (a b : Bytes) → (ct_eq a b ≡ true) ↔ (a ≡ b)) (n : ℕ) (c : Conn) (now : ℕ)
      (r : Relay) (room : Room) (p : Peer) (v : Inv n r) (found : get c.room_id r.rooms ≡ some room)
      (slot : find_peer c.peer_id room.peers ≡ some p) where
    -- A printed envelope with the token of the connection's slot.
    envelope_forwarded :
        (e : EncryptedEnvelope) (t : Text)
        → e.auth ≡ some p.auth_token
        → X.serde.envelope_to_string e ≡ some t
        → length t ≤ max_text_frame_bytes
        → (t' : Text) × (strip_auth X.json ct_eq (text t) ≡ text t')
          × (X.serde.envelope_from_str t' ≡ some (record e { auth = none }))
          × ((tx : Tx)
              → (handle_message X.json ct_eq c now (text t) r).0.chans tx ≡ (
                  if receives c.peer_id tx room.peers
                  then offered (r.chans tx) (text t')
                  else r.chans tx))
    envelope_forwarded e t has printed short =
        let (w, parsed, read, bare) = objects.envelope_object e t printed in
        let (stripped, chans) =
          passed X.json ct_eq ct_eq_iff n c now r room p v found slot t w parsed (read ∙ has)
            short in
        (X.json.to_string (X.json.remove w (lit "auth")), stripped, bare, chans)

    module _ (laws : TrafficLaws X) (l : Link) (key_size : length l.key ≡ 32) where
      -- In a state of the relay that meets the invariant, where the agent's connection has a slot in
      -- a room, and the bridge has the token of this slot and a 32-byte key: output of the terminal,
      -- shorter than the cipher's limit and in an envelope within the relay's, over an open channel,
      -- is sent as one message, and recorded under the next number. The relay offers to each other
      -- peer of the room, once, a text that parses to an envelope without a token and that a client
      -- with the key reads as this output under this number; to no other channel it offers
      -- anything.
      pub output_reaches_client :
          (output : Bytes) (a : Agent)
          → length output < max_plain
          → a.outbox.is_open ≡ true
          → l.auth ≡ some p.auth_token
          → ((enc : Bytes)
              → encrypt X.aead (X.nonce a.drawn) l.key output ≡ ok enc
              → length (envelope_text X l (word_add a.seq 1) (lit "pty") enc)
                ≤ max_text_frame_bytes)
          → (t : Text) × (t' : Text) × (env : EncryptedEnvelope) × (on_output X l output a
              ≡ goes_on (record a {
                seq = word_add a.seq 1;
                ring =
                    push a.ring
                      (record { seq = word_add a.seq 1; msg_type = lit "pty"; payload = output });
                outbox = record { sent = a.outbox.sent ++ text t ∷ []; is_open = true };
                drawn = suc a.drawn;
              }))
            × (X.serde.envelope_from_str t' ≡ some env)
            × (env.auth ≡ none)
            × (reads X l (text t') ≡ some (word_add a.seq 1, l.session_id, lit "pty", output))
            × ((tx : Tx)
                → (handle_message X.json ct_eq c now (text t) r).0.chans tx ≡ (
                    if receives c.peer_id tx room.peers
                    then offered (r.chans tx) (text t')
                    else r.chans tx))
      unfolding on_output envelope_text envelope with_auth reads
      output_reaches_client output a short open' has small =
          let (enc, sealed, size, opened) =
            encrypt_roundtrip X.aead laws.aead (X.nonce a.drawn) l.key output
              (laws.length-nonce a.drawn) key_size short in
          let e =
            with_auth
              (envelope (word_add a.seq 1) l.session_id (lit "pty") (X.encodings.base64_encode enc))
              l.auth in
          let (t, printed, parsed) = laws.serde.envelope_roundtrip e in
          let (t', stripped, parses, chans) = envelope_forwarded e t has printed (
            subst (λ o. length (Option.get_or o []) ≤ max_text_frame_bytes) printed
              (small enc sealed)) in
          (
            t,
            t',
            record e { auth = none },
            rw (sealed, on_output, send_output, open', printed) refl,
            parses,
            refl,
            rw (parses, reads, read_envelope, laws.encodings.decode-encode enc, opened) refl,
            chans,
          )

      -- In a state of the relay that meets the invariant, where the client's connection has a slot in a
      -- room: the client sends an envelope of the current session with the token of its slot, for a
      -- text that it sealed with the session's 32-byte key under a nonce of 24 bytes, within the
      -- limits of the cipher and of the relay. Then the relay offers one text for it to each other
      -- peer of the room, and nothing to any other channel. Whatever the state of its agent, a
      -- bridge of the session that receives this text, which names no control message, writes exactly
      -- the client's text to the terminal, and does nothing else but note the time.
      pub input_reaches_terminal :
          (seq : ℕ) (plain nonce enc : Bytes) (t : Text)
          → length plain < max_plain
          → length nonce ≡ nonce_len
          → encrypt X.aead nonce l.key plain ≡ ok enc
          → X.serde.envelope_to_string (
              with_auth
                (envelope seq l.session_id (lit "pty") (X.encodings.base64_encode enc))
                (some p.auth_token))
            ≡ some t
          → length t ≤ max_text_frame_bytes
          → ((t' : Text) → strip_auth X.json ct_eq (text t) ≡ text t' → IsPlain t')
          → (t' : Text) × ((tx : Tx)
              → (handle_message X.json ct_eq c now (text t) r).0.chans tx ≡ (
                  if receives c.peer_id tx room.peers
                  then offered (r.chans tx) (text t')
                  else r.chans tx))
            × ((later : ℕ) (a : Agent)
                → bridge_step X l (socket later (frame (text t'))) a
                  ≡ goes_on
                      (record a { pty = a.pty ++ write_input plain ∷ []; last_ws_rx = later }))
      unfolding envelope with_auth bridge_step on_socket on_text on_envelope dispatch text_eq
      input_reaches_terminal seq plain nonce enc t short size sealed printed small plainly =
          let (enc', sealed', size', opened) =
            encrypt_roundtrip X.aead laws.aead nonce l.key plain size key_size short in
          let opened' : decrypt X.aead l.key enc ≡ ok plain = cc (sealed, sealed', opened) in
          let e =
            with_auth (envelope seq l.session_id (lit "pty") (X.encodings.base64_encode enc))
              (some p.auth_token) in
          let (t', stripped, parses, chans) = envelope_forwarded e t refl printed small in
          let (quiet, quiet', quiet'') = plainly t' stripped in
          (
            t',
            chans,
            λ later a.
                rw
                  (
                    quiet,
                    quiet',
                    quiet'',
                    parses,
                    on_envelope,
                    text_eq_refl l.session_id,
                    laws.encodings.decode-encode enc,
                    opened',
                  )
                  refl,
          )
