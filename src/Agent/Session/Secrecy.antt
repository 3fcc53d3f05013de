-- ===== src/Agent/Session/Secrecy.antt =====
-- What the bridge sends.
use ktty.Base.{
  ℕ, suc, ◌-◌, ◌/◌, ltb, ◌≡◌, ◌⊎◌, inl, inr, refl, sym, ap, ◌∙◌, Text, Bytes, Message, text, binary,
  ping, pong, close, Incoming, frame, failed, ended, true, false, List, [], ◌∷◌, ◌++◌, Option, none,
  some, ok, lit, All, All-append, Bool-cases, Option-cases, Result-cases, text_eq,
}
use mathlib.Core.List.{append_assoc, append-nil}
use ktty.Common.Crypto.{encrypt, decrypt}
use ktty.Common.Messages.{EncryptedEnvelope}
use ktty.Deps.Crates.{Crates}
use ktty.Agent.RingBuffer.{Packet, packets_since}
use ktty.Agent.Session.State.{
  Agent, Link, Outcome, goes_on, exits, panics, send, send_or_drop, seal, write_input, resize,
  kill_process_group,
}
use ktty.Agent.Session.SyncReq.{
  envelope_text, send_sealed, warn, warn_bytes, replay, handle_sync_req,
}
use ktty.Agent.Session.Bridge.{
  BridgeEvent, pty_output, pty_closed, socket, tick, writer_ended, record_output, send_output,
  dispatch, on_envelope, on_output, on_text, on_tick, on_socket, bridge_step, on_pty,
}
use ktty.Agent.Session.Rounds.{Leaves}
use ktty.Agent.Session.Guards.{on_text-exits, on_text-goes_on}
use ktty.Agent.Session.Wait.Keeping.{is_control}

-- The messages sent between two states of the agent, each of which fits.
abbrev pub Adds : (Message → Type 0) → Agent → Agent → Type 0
Adds P a b = (ms : List Message) × (b.outbox.sent ≡ a.outbox.sent ++ ms) × All P ms

module _ (P : Message → Type 0) where
  pub none-Adds : (a b : Agent) → b.outbox.sent ≡ a.outbox.sent → Adds P a b
  none-Adds a b e = ([], e ∙ sym (append-nil a.outbox.sent), tt)

  pub Adds-trans : (a b c : Agent) → Adds P a b → Adds P b c → Adds P a c
  Adds-trans a b c (ms, e, fit) (ms', e', fit') = (
    ms ++ ms',
    e' ∙ ap (λ z. z ++ ms') e ∙ append_assoc a.outbox.sent ms ms',
    All-append P ms ms' fit fit',
  )

  pub send_or_drop-Adds : (m : Message) (a : Agent) → P m → Adds P a (send_or_drop m a)
  unfolding send_or_drop send
  send_or_drop-Adds m a fit = elim (Bool-cases a.outbox.is_open) [
    | inl e ↦ rw e (m ∷ [], refl, (fit, tt))
    | inr e ↦ rw e (none-Adds a a refl)
  ]

module _ (X : Crates) (l : Link) where
  -- An envelope whose payload is the encryption of something under the link's key.
  abbrev pub IsSealed : Message → Type 0
  IsSealed m =
      (seq : ℕ) × (type : Text) × (plain : Bytes) × (i : ℕ) × (enc : Bytes) × (encrypt X.aead
          (X.nonce i) l.key plain
        ≡ ok enc)
      × (m ≡ text (envelope_text X l seq type enc))

  -- What the bridge itself sends.
  abbrev pub IsTraffic : Message → Type 0
  IsTraffic m = (is_control m ≡ true) ⊎ IsSealed m

  send_sealed-Adds :
      (seq : ℕ) (type : Text) (plain : Bytes) (a : Agent)
      → Adds IsTraffic a (send_sealed X l seq type plain a)
  unfolding send_sealed
  send_sealed-Adds seq type plain a = elim (Result-cases (seal X l a plain)) [
    | inl (why, e) ↦
        rw (send_sealed, e) (none-Adds IsTraffic a (record a { drawn = suc a.drawn }) refl)
    | inr (enc, e) ↦
        rw (send_sealed, e)
          (send_or_drop-Adds IsTraffic (text (envelope_text X l seq type enc))
            (record a { drawn = suc a.drawn }) (inr (seq, type, plain, a.drawn, enc, e, refl)))
  ]

  replay-Adds : (ps : List Packet) (a : Agent) → Adds IsTraffic a (replay X l ps a)
  unfolding replay
  replay-Adds [] a = none-Adds IsTraffic a a refl
  replay-Adds (p ∷ ps) a =
      let a' = send_sealed X l p.seq p.msg_type p.payload a in
      Adds-trans IsTraffic a a' (replay X l ps a') (send_sealed-Adds p.seq p.msg_type p.payload a)
        (replay-Adds ps a')

  warn-Adds : (dropped : Option (ℕ × ℕ)) (a : Agent) → Adds IsTraffic a (warn X l dropped a)
  unfolding warn
  warn-Adds none a = none-Adds IsTraffic a a refl
  warn-Adds (some (start, end)) a =
      send_sealed-Adds 0 (lit "sync_warn") (warn_bytes X l start end) a

  handle_sync_req-Adds :
      (plain : Bytes) (a : Agent) → Adds IsTraffic a (handle_sync_req X l plain a)
  unfolding handle_sync_req
  handle_sync_req-Adds plain a = elim (Option-cases (X.serde.sync_req_from_slice plain)) [
    | inl e ↦ rw (handle_sync_req, e) (none-Adds IsTraffic a a refl)
    | inr (req, e) ↦ elim (Bool-cases (text_eq req.session_id l.session_id)) [
      | inr other ↦ rw (handle_sync_req, e, other) (none-Adds IsTraffic a a refl)
      | inl same ↦
          let (packets, dropped) = packets_since a.ring req.last_seq in
          let a' = warn X l dropped a in
          rw (handle_sync_req, e, same)
            (Adds-trans IsTraffic a a' (replay X l packets a') (warn-Adds dropped a)
              (replay-Adds packets a'))
    ]
  ]

  dispatch-Adds :
      (type : Text) (plain : Bytes) (a : Agent) → Adds IsTraffic a (dispatch X l type plain a)
  unfolding dispatch
  dispatch-Adds type plain a = elim (Bool-cases (text_eq type (lit "pty"))) [
    | inl e ↦ rw e (none-Adds IsTraffic a (on_pty (write_input plain) a) refl)
    | inr e ↦ elim (Bool-cases (text_eq type (lit "resize"))) [
      | inl e' ↦ elim (Option-cases (X.serde.resize_from_slice plain)) [
        | inl n ↦ rw (e, e', n) (none-Adds IsTraffic a a refl)
        | inr (r, n) ↦ rw (e, e', n) (none-Adds IsTraffic a (on_pty (resize r.cols r.rows) a) refl)
      ]
      | inr e' ↦ elim (Bool-cases (text_eq type (lit "sys_kill"))) [
        | inl k ↦ rw (e, e', k) (none-Adds IsTraffic a (on_pty kill_process_group a) refl)
        | inr k ↦ elim (Bool-cases (text_eq type (lit "sync_req"))) [
          | inl q ↦ rw (e, e', k, q) (handle_sync_req-Adds plain a)
          | inr q ↦ rw (e, e', k, q) (none-Adds IsTraffic a a refl)
        ]
      ]
    ]
  ]

  on_envelope-Adds :
      (env : EncryptedEnvelope) (a : Agent) → Adds IsTraffic a (on_envelope X l env a)
  unfolding on_envelope
  on_envelope-Adds env a = elim (Bool-cases (text_eq env.session_id l.session_id)) [
    | inr other ↦ rw other (none-Adds IsTraffic a a refl)
    | inl same ↦ elim (Option-cases (X.encodings.base64_decode env.payload)) [
      | inl e ↦ rw (same, e) (none-Adds IsTraffic a a refl)
      | inr (packed, e) ↦ elim (Result-cases (decrypt X.aead l.key packed)) [
        | inl (why, e') ↦ rw (same, e, e') (none-Adds IsTraffic a a refl)
        | inr (plain, e') ↦ rw (same, e, e', on_envelope) (dispatch-Adds env.type plain a)
      ]
    ]
  ]

  on_text-Adds :
      (t : Text) (a : Agent) (o : Outcome) → on_text X l t a ≡ o → Leaves (Adds IsTraffic a) o
  on_text-Adds t a (goes_on b) e = elim (on_text-goes_on X l t a b e) [
    | inl same ↦ none-Adds IsTraffic a b (ap (λ c. c.outbox.sent) same)
    | inr (env, parsed, z) ↦
        let (ms, sent, fit) = on_envelope-Adds env a in (ms, ap (λ c. c.outbox.sent) z ∙ sent, fit)
  ]
  on_text-Adds t a (exits why b) e =
      none-Adds IsTraffic a b (ap (λ c. c.outbox.sent) (on_text-exits X l why t a b e))
  on_text-Adds t a panics e = tt

  on_socket-Adds : (item : Incoming) (a : Agent) → Leaves (Adds IsTraffic a) (on_socket X l item a)
  unfolding on_socket
  on_socket-Adds (frame (text t)) a = on_text-Adds t a (on_text X l t a) refl
  on_socket-Adds (frame (ping d)) a = send_or_drop-Adds IsTraffic (pong d) a (inl refl)
  on_socket-Adds (frame (pong d)) a = none-Adds IsTraffic a a refl
  on_socket-Adds (frame (binary b)) a = none-Adds IsTraffic a a refl
  on_socket-Adds (frame close) a = none-Adds IsTraffic a a refl
  on_socket-Adds failed a = none-Adds IsTraffic a a refl
  on_socket-Adds ended a = none-Adds IsTraffic a a refl

  send_output-Adds :
      (output : Bytes) (a : Agent) → Leaves (Adds IsTraffic a) (send_output X l output a)
  unfolding send_output send
  send_output-Adds output a = elim (Result-cases (seal X l a output)) [
    | inl (why, e) ↦
        rw (send_output, e) (none-Adds IsTraffic a (record a { drawn = suc a.drawn }) refl)
    | inr (enc, e) ↦ elim (Bool-cases a.outbox.is_open) [
      | inr shut ↦
          rw (send_output, e, shut) (none-Adds IsTraffic a (record a { drawn = suc a.drawn }) refl)
      | inl open' ↦
          rw (send_output, e, open')
            (
              text (envelope_text X l a.seq (lit "pty") enc) ∷ [],
              refl,
              (inr (a.seq, lit "pty", output, a.drawn, enc, e, refl), tt),
            )
    ]
  ]

  on_tick-Adds : (now : ℕ) (a : Agent) → Leaves (Adds IsTraffic a) (on_tick X l now a)
  unfolding on_tick
  on_tick-Adds now a = elim (Bool-cases (ltb 45 ((now - a.last_ws_rx) / 1_000_000_000))) [
    | inl late ↦ rw late (none-Adds IsTraffic a a refl)
    | inr soon ↦ rw soon (send_or_drop-Adds IsTraffic (ping []) a (inl refl))
  ]

  pub bridge_step-Adds :
      (e : BridgeEvent) (a : Agent) → Leaves (Adds IsTraffic a) (bridge_step X l e a)
  unfolding bridge_step on_output record_output
  bridge_step-Adds (pty_output output) a = send_output-Adds output (record_output output a)
  bridge_step-Adds pty_closed a = none-Adds IsTraffic a a refl
  bridge_step-Adds (socket now item) a = on_socket-Adds item (record a { last_ws_rx = now })
  bridge_step-Adds (tick now) a = on_tick-Adds now a
  bridge_step-Adds writer_ended a =
      none-Adds IsTraffic a (record a { outbox = record a.outbox { is_open = false } }) refl
