-- ===== src/Agent/Session/Bridge.antt =====
-- `bridge_loop`: one round for each arm of its `select!`, and the loop over the events that come.
use ktty.Base.{
  ℕ, suc, ◌-◌, ◌/◌, Text, Bytes, text, binary, ping, pong, close, Incoming, frame, failed, ended,
  lit, false, List, [], ◌∷◌, ◌++◌, none, some, ok, err, if◌then◌else◌, ltb, text_eq, word_add,
}
use ktty.Common.Crypto.{decrypt}
use ktty.Common.Messages.{EncryptedEnvelope}
use ktty.Deps.Crates.{Crates}
use ktty.Agent.RingBuffer.{push}
use ktty.Agent.Session.State.{
  Agent, Link, PtyOp, write_input, resize, kill_process_group, peer_disconnected, peer_rejoined,
  ws_error, pty_exited, Outcome, goes_on, exits, panics, send, send_or_drop, seal, mentions,
  can_slice,
}
use ktty.Agent.Session.SyncReq.{envelope_text, handle_sync_req}

pub data BridgeEvent : Type 0 where
  pty_output : Bytes → BridgeEvent
  pty_closed : BridgeEvent
  socket : ℕ → Incoming → BridgeEvent
  tick : ℕ → BridgeEvent
  writer_ended : BridgeEvent  -- no arm of the `select!`: the writer task drops its receiver

-- `seq.fetch_add(1) + 1`, and the packet goes into the ring buffer.
unfoldable pub record_output : Bytes → Agent → Agent
record_output output a =
    let s = word_add a.seq 1 in
    record a {
      seq = s;
      ring = push a.ring (record { seq = s; msg_type = lit "pty"; payload = output });
    }

abbrev pub on_pty : PtyOp → Agent → Agent
on_pty op a = record a { pty = a.pty ++ op ∷ [] }

-- The next round, where the loop goes on.
abbrev pub and_then : Outcome → (Agent → Outcome) → Outcome
and_then (goes_on a) next = next a
and_then (exits why a) next = exits why a
and_then panics next = panics

module _ (X : Crates) (l : Link) where
  unfoldable pub send_output : Bytes → Agent → Outcome
  unfolding envelope_text send
  send_output output a =
      let drawn = record a { drawn = suc a.drawn } in
      elim (seal X l a output) [
        | err e ↦ goes_on drawn
        | ok enc ↦ elim (send (text (envelope_text X l a.seq (lit "pty") enc)) a.outbox) [
          | none ↦ exits ws_error drawn
          | some o ↦ goes_on (record drawn { outbox = o })
        ]
      ]

  unfoldable pub on_output : Bytes → Agent → Outcome
  unfolding record_output send_output
  on_output output a = send_output output (record_output output a)

  -- A decrypted message, by the type of its envelope.
  unfoldable pub dispatch : Text → Bytes → Agent → Agent
  dispatch type plain a =
      if text_eq type (lit "pty")
      then on_pty (write_input plain) a
      else if text_eq type (lit "resize")
      then elim (X.serde.resize_from_slice plain) [
        | none ↦ a
        | some r ↦ on_pty (resize r.cols r.rows) a
      ]
      else if text_eq type (lit "sys_kill")
      then on_pty kill_process_group a
      else if text_eq type (lit "sync_req")
      then handle_sync_req X l plain a
      else a

  unfoldable pub on_envelope : EncryptedEnvelope → Agent → Agent
  unfolding dispatch
  on_envelope env a =
      let opened : Agent = elim (X.encodings.base64_decode env.payload) [
        | none ↦ a
        | some encrypted ↦ elim (decrypt X.aead l.key encrypted) [
          | err e ↦ a
          | ok plain ↦ dispatch env.type plain a
        ]
      ] in
      if text_eq env.session_id l.session_id then opened else a

  unfoldable pub on_text : Text → Agent → Outcome
  unfolding on_envelope
  on_text t a =
      if mentions t "type" "disconnect"
      then exits peer_disconnected a
      else if mentions t "type" "peer_disconnect"
      then exits peer_disconnected a
      else if mentions t "action" "join"
      then exits peer_rejoined a
      else elim (X.serde.envelope_from_str t) [
        | none ↦ if can_slice t 80 then goes_on a else panics
        | some env ↦ goes_on (on_envelope env a)
      ]

  unfoldable pub on_socket : Incoming → Agent → Outcome
  unfolding on_text
  on_socket (frame (text t)) a = on_text t a
  on_socket (frame (ping d)) a = goes_on (send_or_drop (pong d) a)
  on_socket (frame (pong d)) a = goes_on a
  on_socket (frame (binary b)) a = goes_on a
  on_socket (frame close) a = exits ws_error a
  on_socket failed a = exits ws_error a
  on_socket ended a = exits ws_error a

  unfoldable pub on_tick : ℕ → Agent → Outcome
  on_tick now a =
      if ltb 45 ((now - a.last_ws_rx) / 1_000_000_000)
      then exits ws_error a
      else goes_on (send_or_drop (ping []) a)

  unfoldable pub bridge_step : BridgeEvent → Agent → Outcome
  unfolding on_output on_socket on_tick
  bridge_step (pty_output output) a = on_output output a
  bridge_step pty_closed a = exits pty_exited a
  bridge_step (socket now item) a = on_socket item (record a { last_ws_rx = now })
  bridge_step (tick now) a = on_tick now a
  bridge_step writer_ended a = goes_on (record a { outbox = record a.outbox { is_open = false } })

  -- The loop over the events that have come.
  unfoldable pub bridge_loop : List BridgeEvent → Agent → Outcome
  unfolding bridge_step
  bridge_loop [] a = goes_on a
  bridge_loop (e ∷ events) a = and_then (bridge_step e a) (λ a'. bridge_loop events a')
