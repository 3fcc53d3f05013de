-- ===== src/Agent/Session/Rounds.antt =====
-- No round of the bridge loses its place: the buffer stays recent.
use ktty.Base.{
  ℕ, suc, ◌≤◌, ◌<◌, ◌≡◌, inl, inr, refl, ◌∙◌, Text, Bytes, Message, text, binary, ping, pong, close,
  Incoming, frame, failed, ended, List, [], ◌∷◌, Option, none, some, arith, length, Option-cases,
  Bool-cases, Result-cases, text_eq, word_mod, word_add, word_add_lem,
}
use ktty.Common.Crypto.{decrypt}
use ktty.Common.Messages.{EncryptedEnvelope}
use ktty.Deps.Crates.{Crates}
use ktty.Agent.RingBuffer
use ktty.Agent.RingBuffer.{Packet, RingBuffer, byte_size, push}
use ktty.Agent.Session.State.{Agent, Link, Outcome, goes_on, exits, panics, send_or_drop}
use ktty.Agent.Session.SyncReq.{send_sealed, warn, replay, handle_sync_req}
use ktty.Agent.Session.Bridge.{
  BridgeEvent, pty_output, pty_closed, socket, tick, writer_ended, record_output, send_output,
  dispatch, on_envelope, on_text, on_socket, on_tick, bridge_step,
}
use ktty.Agent.Session.History.{IsRecent, read_size, push-IsRecent}

-- What holds of the agent after a round, however it ended.
abbrev pub Leaves : (Agent → Type 0) → Outcome → Type 0
Leaves P (goes_on a) = P a
Leaves P (exits why a) = P a
Leaves P panics = Unit {0}

-- The counter and the buffer stay.
abbrev pub Keeps : Agent → Agent → Type 0
Keeps a b = (b.seq ≡ a.seq) × (b.ring ≡ a.ring)

-- What only sends keeps the calls of the terminal too.
abbrev pub Sends : Agent → Agent → Type 0
Sends a b = (b.seq ≡ a.seq) × (b.ring ≡ a.ring) × (b.pty ≡ a.pty)

pub send_or_drop-Keeps : (m : Message) (a : Agent) → Keeps a (send_or_drop m a)
unfolding send_or_drop
send_or_drop-Keeps m a = ground arith

module _ (X : Crates) (l : Link) where
  send_sealed-Sends :
      (seq : ℕ) (type : Text) (plain : Bytes) (a : Agent)
      → Sends a (send_sealed X l seq type plain a)
  unfolding send_sealed
  send_sealed-Sends seq type plain a = ground arith

  replay-Sends : (ps : List Packet) (a : Agent) → Sends a (replay X l ps a)
  unfolding replay
  replay-Sends [] a = (refl, refl, refl)
  replay-Sends (p ∷ ps) a =
      let (s, r, q) = send_sealed-Sends p.seq p.msg_type p.payload a in
      let (s', r', q') = replay-Sends ps (send_sealed X l p.seq p.msg_type p.payload a) in
      (s' ∙ s, r' ∙ r, q' ∙ q)

  warn-Sends : (dropped : Option (ℕ × ℕ)) (a : Agent) → Sends a (warn X l dropped a)
  unfolding warn
  warn-Sends none a = (refl, refl, refl)
  warn-Sends (some (start, end)) a = send_sealed-Sends 0 _ _ a

  pub handle_sync_req-Sends : (plain : Bytes) (a : Agent) → Sends a (handle_sync_req X l plain a)
  unfolding handle_sync_req
  handle_sync_req-Sends plain a = elim (Option-cases (X.serde.sync_req_from_slice plain)) [
    | inl e ↦ rw (e, handle_sync_req) (refl, refl, refl)
    | inr (req, e) ↦
        let (packets, dropped) = RingBuffer.packets_since a.ring req.last_seq in
        let (s, r, q) = warn-Sends dropped a in
        let (s', r', q') = replay-Sends packets (warn X l dropped a) in
        elim (Bool-cases (text_eq req.session_id l.session_id)) [
          | inl same ↦ rw (e, handle_sync_req, same) (s' ∙ s, r' ∙ r, q' ∙ q)
          | inr other ↦ rw (e, handle_sync_req, other) (refl, refl, refl)
        ]
  ]

  dispatch-Keeps : (type : Text) (plain : Bytes) (a : Agent) → Keeps a (dispatch X l type plain a)
  unfolding dispatch
  dispatch-Keeps type plain a = ground (arith, handle_sync_req-Sends plain a)

  on_envelope-Keeps : (env : EncryptedEnvelope) (a : Agent) → Keeps a (on_envelope X l env a)
  unfolding on_envelope
  on_envelope-Keeps env a = elim (Option-cases (X.encodings.base64_decode env.payload)) [
    | inl e ↦ ground (arith, e)
    | inr (packed, e) ↦ elim (Result-cases (decrypt X.aead l.key packed)) [
      | inl (why, e') ↦ ground (arith, e, e')
      | inr (plain, e') ↦ ground (arith, e, e', dispatch-Keeps env.type plain a)
    ]
  ]

  on_text-Keeps : (t : Text) (a : Agent) → Leaves (Keeps a) (on_text X l t a)
  unfolding on_text
  on_text-Keeps t a = elim (Option-cases (X.serde.envelope_from_str t)) [
    | inl e ↦ ground (arith, e)
    | inr (env, e) ↦ ground (arith, e, on_envelope-Keeps env a)
  ]

  pub on_socket-Keeps : (item : Incoming) (a : Agent) → Leaves (Keeps a) (on_socket X l item a)
  unfolding on_socket
  on_socket-Keeps (frame (text t)) a = on_text-Keeps t a
  on_socket-Keeps (frame (ping d)) a = send_or_drop-Keeps (pong d) a
  on_socket-Keeps (frame (pong d)) a = (refl, refl)
  on_socket-Keeps (frame (binary b)) a = (refl, refl)
  on_socket-Keeps (frame close) a = (refl, refl)
  on_socket-Keeps failed a = (refl, refl)
  on_socket-Keeps ended a = (refl, refl)

  pub send_output-Keeps : (output : Bytes) (a : Agent) → Leaves (Keeps a) (send_output X l output a)
  unfolding send_output
  send_output-Keeps output a = ground arith

  pub on_tick-Keeps : (now : ℕ) (a : Agent) → Leaves (Keeps a) (on_tick X l now a)
  unfolding on_tick
  on_tick-Keeps now a = ground (arith, send_or_drop-Keeps (ping []) a)

-- The output's bytes, where the event is one, are what one read can give.
abbrev pub IsRead : BridgeEvent → Type 0
IsRead (pty_output output) = length output ≤ read_size
IsRead _ = Unit {0}

-- The buffer is recent, and the counter is at most `n`.
abbrev pub Recent : ℕ → Agent → Type 0
Recent n a = IsRecent a.seq a.ring × (a.seq ≤ n)

pub Recent-Keeps : (n : ℕ) (a b : Agent) → Recent n a → Keeps a b → Recent n b
Recent-Keeps n a b (v, le) (s, r) = (rw (s, r) v, omega arith)

Recent-suc : (n : ℕ) (a : Agent) → Recent n a → Recent (suc n) a
Recent-suc n a (v, le) = (v, omega arith)

Leaves-Recent :
    (n : ℕ) (a : Agent) (o : Outcome) → Recent n a → Leaves (Keeps a) o → Leaves (Recent n) o
Leaves-Recent n a (goes_on b) v k = Recent-Keeps n a b v k
Leaves-Recent n a (exits why b) v k = Recent-Keeps n a b v k
Leaves-Recent n a panics v k = tt

pub record_output-Recent :
    (n : ℕ) (output : Bytes) (a : Agent)
    → Recent n a
    → length output ≤ read_size
    → suc n < word_mod
    → Recent (suc n) (record_output output a)
unfolding record_output
record_output-Recent n output a (v, le) short small =
    let next : word_add a.seq 1 ≡ suc a.seq = omega (arith, word_add_lem) in
    rw next (push-IsRecent a.seq a.ring _ v (short, refl) refl, omega arith)

module _ (X : Crates) (l : Link) where
  pub bridge_step-Recent :
      (n : ℕ) (e : BridgeEvent) (a : Agent)
      → Recent n a
      → IsRead e
      → suc n < word_mod
      → Leaves (Recent (suc n)) (bridge_step X l e a)
  unfolding bridge_step
  bridge_step-Recent n (pty_output output) a v short small =
      let a' = record_output output a in
      Leaves-Recent (suc n) a' (send_output X l output a')
        (record_output-Recent n output a v short small) (send_output-Keeps X l output a')
  bridge_step-Recent n pty_closed a v short small = Recent-suc n a v
  bridge_step-Recent n (socket now item) a v short small =
      let a' = record a { last_ws_rx = now } in
      Leaves-Recent (suc n) a' (on_socket X l item a') (Recent-suc n a' v)
        (on_socket-Keeps X l item a')
  bridge_step-Recent n (tick now) a v short small =
      Leaves-Recent (suc n) a (on_tick X l now a) (Recent-suc n a v) (on_tick-Keeps X l now a)
  bridge_step-Recent n writer_ended a v short small = Recent-suc n a v
