-- ===== src/Agent/Session/Run/Terminal.antt =====
-- Over the whole of a connection: who reaches the terminal.
use ktty.Base.{
  ℕ, ◌≡◌, ◌≢◌, ◌⊎◌, inl, inr, refl, ap, ◌∙◌, Text, Bytes, Message, text, binary, ping, pong, close,
  Incoming, frame, failed, ended, Bool, true, false, List, [], ◌∷◌, ◌++◌, some, arith,
}
use ktty.Common.Messages.{EncryptedEnvelope}
use ktty.Deps.Crates.{Crates}
use ktty.Agent.Session.State.{
  Agent, Link, PtyOp, peer_disconnected, peer_rejoined, ws_error, pty_exited, Outcome, goes_on,
  exits, panics, send_or_drop,
}
use ktty.Agent.Session.Bridge.{
  BridgeEvent, pty_output, pty_closed, socket, tick, writer_ended, on_output, on_text, on_tick,
  on_socket, bridge_step, record_output,
}
use ktty.Agent.Session.Rounds.{Leaves}
use ktty.Agent.Session.Guards.{Authorises, on_envelope-Authorises, on_text-exits, on_text-goes_on}
use ktty.Agent.Session.Handshake.{Handshake, waits, agrees, aborts, breaks, on_message}
use ktty.Agent.Session.Wait.{Waiting, joined, lost, collapses, wait_text, wait_step}
use ktty.Agent.Session.Wait.Keeping.{Ends}
use ktty.Agent.Session.Joining.{
  Session, Joining, awaits, found, disconnected, crashes, joining_socket,
}
use ktty.Agent.Session.Run.{
  Phase, State, at_time, with_outbox, boot, after_joining, after_wait, after_message, after_bridge,
  step_in, step,
}

send_or_drop-pty : (m : Message) (a : Agent) → (send_or_drop m a).pty ≡ a.pty
unfolding send_or_drop
send_or_drop-pty m a = ground arith

module _ (X : Crates) (l : Link) where
  -- The event is a text, an envelope of the link's session that authorises the one call made.
  abbrev pub Types : BridgeEvent → Agent → Agent → Type 0
  Types e a b =
      (now : ℕ) × (t : Text) × (env : EncryptedEnvelope) × (op : PtyOp) × (e
        ≡ socket now (frame (text t)))
      × (X.serde.envelope_from_str t ≡ some env)
      × (b.pty ≡ a.pty ++ op ∷ [])
      × Authorises X l env op

  abbrev pub KeepsOrTypes : BridgeEvent → Agent → Agent → Type 0
  KeepsOrTypes e a b = (b.pty ≡ a.pty) ⊎ Types e a b

  on_text-KeepsOrTypes :
      (now : ℕ) (t : Text) (a : Agent) (o : Outcome)
      → on_text X l t a ≡ o
      → Leaves (KeepsOrTypes (socket now (frame (text t))) a) o
  on_text-KeepsOrTypes now t a (goes_on b) e = elim (on_text-goes_on X l t a b e) [
    | inl same ↦ inl (ap (λ c. c.pty) same)
    | inr (env, parsed, z) ↦ elim (on_envelope-Authorises X l env a) [
      | inl kept ↦ inl (ap (λ c. c.pty) z ∙ kept)
      | inr (op, added, authorised) ↦
          inr (now, t, env, op, refl, parsed, ap (λ c. c.pty) z ∙ added, authorised)
    ]
  ]
  on_text-KeepsOrTypes now t a (exits why b) e =
      inl (ap (λ c. c.pty) (on_text-exits X l why t a b e))
  on_text-KeepsOrTypes now t a panics e = tt

  on_socket-KeepsOrTypes :
      (now : ℕ) (item : Incoming) (a : Agent)
      → Leaves (KeepsOrTypes (socket now item) a) (on_socket X l item a)
  unfolding on_socket
  on_socket-KeepsOrTypes now (frame (text t)) a =
      on_text-KeepsOrTypes now t a (on_text X l t a) refl
  on_socket-KeepsOrTypes now (frame (ping d)) a = inl (send_or_drop-pty (pong d) a)
  on_socket-KeepsOrTypes now (frame (pong d)) a = inl refl
  on_socket-KeepsOrTypes now (frame (binary b)) a = inl refl
  on_socket-KeepsOrTypes now (frame close) a = inl refl
  on_socket-KeepsOrTypes now failed a = inl refl
  on_socket-KeepsOrTypes now ended a = inl refl

  on_output-pty :
      (output : Bytes) (a : Agent) → Leaves (λ b. b.pty ≡ a.pty) (on_output X l output a)
  unfolding on_output
  on_output-pty output a = ground arith

  on_tick-pty : (now : ℕ) (a : Agent) → Leaves (λ b. b.pty ≡ a.pty) (on_tick X l now a)
  unfolding on_tick
  on_tick-pty now a = ground (arith, send_or_drop-pty (ping []) a)

  Leaves-inl :
      (e : BridgeEvent) (a : Agent) (o : Outcome)
      → Leaves (λ b. b.pty ≡ a.pty) o
      → Leaves (KeepsOrTypes e a) o
  Leaves-inl e a (goes_on b) h = inl h
  Leaves-inl e a (exits why b) h = inl h
  Leaves-inl e a panics h = tt

  bridge_step-KeepsOrTypes :
      (e : BridgeEvent) (a : Agent) → Leaves (KeepsOrTypes e a) (bridge_step X l e a)
  unfolding bridge_step
  bridge_step-KeepsOrTypes (pty_output output) a =
      Leaves-inl (pty_output output) a (on_output X l output a) (on_output-pty output a)
  bridge_step-KeepsOrTypes pty_closed a = inl refl
  bridge_step-KeepsOrTypes (socket now item) a =
      on_socket-KeepsOrTypes now item (record a { last_ws_rx = now })
  bridge_step-KeepsOrTypes (tick now) a =
      Leaves-inl (tick now) a (on_tick X l now a) (on_tick-pty now a)
  bridge_step-KeepsOrTypes writer_ended a = inl refl

wait_step-pty :
    (e : BridgeEvent) (alive : Bool) (a : Agent) → Ends (λ b. b.pty ≡ a.pty) (wait_step e alive a)
unfolding wait_step record_output wait_text send_or_drop
wait_step-pty (pty_output output) true a = refl
wait_step-pty (pty_output output) false a = refl
wait_step-pty pty_closed alive a = refl
wait_step-pty (socket now (frame (text t))) alive a = ground arith
wait_step-pty (socket now (frame (ping d))) alive a = ground arith
wait_step-pty (socket now (frame (pong d))) alive a = refl
wait_step-pty (socket now (frame (binary b))) alive a = refl
wait_step-pty (socket now (frame close)) alive a = refl
wait_step-pty (socket now failed) alive a = refl
wait_step-pty (socket now ended) alive a = refl
wait_step-pty (tick now) alive a = ground arith
wait_step-pty writer_ended alive a = refl

module _ (X : Crates) (S : Session) (seed : ℕ → X.kem.Seed) where
  abbrev pty_of : State X → List PtyOp
  pty_of s = s.agent.pty

  boot-pty : (s : State X) → pty_of (boot X S seed s) ≡ pty_of s
  unfolding boot
  boot-pty s = ground arith

  after_joining-pty : (j : Joining) (s : State X) → pty_of (after_joining X S seed j s) ≡ pty_of s
  unfolding after_joining
  after_joining-pty (awaits token o) s = refl
  after_joining-pty (found token o) s = boot-pty (with_outbox X o (record s { token = token }))
  after_joining-pty disconnected s = refl
  after_joining-pty crashes s = refl

  after_wait-pty :
      (w : Waiting) (s : State X)
      → Ends (λ b. b.pty ≡ pty_of s) w
      → pty_of (after_wait X S seed w s) ≡ pty_of s
  unfolding after_wait
  after_wait-pty (Waiting.waits alive a) s h = h
  after_wait-pty (joined a) s h = boot-pty (record s { agent = a }) ∙ h
  after_wait-pty (lost a) s h = h
  after_wait-pty collapses s h = refl

  after_message-pty : (h : Handshake) (s : State X) → pty_of (after_message X S seed h s) ≡ pty_of s
  unfolding after_message
  after_message-pty (waits o) s = refl
  after_message-pty (agrees key o) s = refl
  after_message-pty (aborts o) s = refl
  after_message-pty breaks s = refl

  -- A step of the bridge, with the state around it.
  abbrev pub TypesOn : Link → BridgeEvent → State X → State X → Type 0
  TypesOn l e s t = Types X l e s.agent t.agent

  after_bridge-KeepsOrTypes :
      (l : Link) (e : BridgeEvent) (o : Outcome) (s : State X)
      → Leaves (KeepsOrTypes X l e s.agent) o
      → KeepsOrTypes X l e s.agent (after_bridge X S seed o s).agent
  unfolding after_bridge
  after_bridge-KeepsOrTypes l e (goes_on a) s h = h
  after_bridge-KeepsOrTypes l e (exits peer_disconnected a) s h = h
  after_bridge-KeepsOrTypes l e (exits ws_error a) s h = h
  after_bridge-KeepsOrTypes l e (exits pty_exited a) s h = h
  after_bridge-KeepsOrTypes l e (exits peer_rejoined a) s (inl kept) =
      inl (boot-pty (record s { agent = a }) ∙ kept)
  after_bridge-KeepsOrTypes l e (exits peer_rejoined a) s
        (inr (now, t, env, op, from, parsed, added, authorised)) =
      inr (now, t, env, op, from, parsed, boot-pty (record s { agent = a }) ∙ added, authorised)
  after_bridge-KeepsOrTypes l e panics s h = inl refl

  step_in-pty :
      (p : Phase X) (e : BridgeEvent) (s : State X)
      → (pty_of (step_in X S seed p e s) ≡ pty_of s)
        ⊎ ((l : Link) × (p ≡ Phase.bridging l) × TypesOn l e s (step_in X S seed p e s))
  unfolding step_in
  step_in-pty Phase.joining (socket now item) s =
      inl (after_joining-pty (joining_socket X.json item s.token s.agent.outbox) (at_time X now s))
  step_in-pty Phase.joining (tick now) s = inl (send_or_drop-pty (ping []) s.agent)
  step_in-pty Phase.joining writer_ended s = inl refl
  step_in-pty Phase.joining (pty_output output) s = inl refl
  step_in-pty Phase.joining pty_closed s = inl refl
  step_in-pty (Phase.waiting alive) e s =
      inl (after_wait-pty (wait_step e alive s.agent) s (wait_step-pty e alive s.agent))
  step_in-pty (Phase.shaking dk) (socket now item) s = inl (
      after_message-pty (on_message X S.derived_key s.token dk item s.agent.outbox)
        (at_time X now s))
  step_in-pty (Phase.shaking dk) writer_ended s = inl refl
  step_in-pty (Phase.shaking dk) (tick now) s = inl refl
  step_in-pty (Phase.shaking dk) (pty_output output) s = inl refl
  step_in-pty (Phase.shaking dk) pty_closed s = inl refl
  step_in-pty (Phase.bridging l) e s =
      elim (after_bridge-KeepsOrTypes l e (bridge_step X l e s.agent) s
        (bridge_step-KeepsOrTypes X l e s.agent)) [
          | inl kept ↦ inl kept
          | inr typed ↦ inr (l, refl, typed)
        ]
  step_in-pty (Phase.over why) e s = inl refl

  -- On a whole connection, in every phase and for every event: the calls made on the terminal change
  -- only while the bridge runs, on a text frame that is an envelope of its session and decrypts
  -- under its key; then they grow by the one call that the decrypted message asks for.
  pub terminal_needs_session :
      (e : BridgeEvent) (s : State X)
      → pty_of (step X S seed e s) ≢ pty_of s
      → (l : Link) × (s.phase ≡ Phase.bridging l) × TypesOn l e s (step X S seed e s)
  unfolding step
  terminal_needs_session e s changed = elim (step_in-pty s.phase e s) [
    | inl kept ↦ absurd (changed kept)
    | inr typed ↦ typed
  ]
