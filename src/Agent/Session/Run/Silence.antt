-- ===== src/Agent/Session/Run/Silence.antt =====
-- A relay that has gone silent, and a handshake that nobody answers.
use ktty.Base.{
  ℕ, Message, ◌-◌, ◌/◌, ◌<◌, ◌≡◌, ◌⊎◌, refl, sym, ap, ◌∙◌, Text, Bytes, text, ping, frame, Bool,
  true, false, List, [], ◌∷◌, ◌++◌, arith, ltb, All, Bool-cases, inl, inr, subst,
}
use ktty.Deps.Crates.{Crates}
use ktty.Agent.Session.State.{
  Agent, Link, send_or_drop, peer_disconnected, peer_rejoined, ws_error, pty_exited, can_slice,
  Outcome, goes_on, exits, panics,
}
use ktty.Agent.Session.Bridge.{
  BridgeEvent, pty_output, pty_closed, socket, tick, writer_ended, on_output, record_output,
  send_output, bridge_step,
}
use ktty.Agent.Session.Wait.{wait_step}
use ktty.Agent.Session.Handshake.{on_message}
use ktty.Agent.Session.Handshake.Agreement.{has_reply, ignored_text}
use ktty.Agent.Session.Joining.{Session}
use ktty.Agent.Session.Run.{
  Phase, State, Ending, at_time, after_wait, after_message, after_bridge, step_in, step, steps,
}

abbrev pub is_silent : BridgeEvent → Bool
is_silent (socket now item) = false
is_silent e = true

-- `elapsed > 45`, in seconds
abbrev pub IsLate : ℕ → ℕ → Type 0
IsLate now last = 45 < (now - last) / 1_000_000_000

module _ (X : Crates) (S : Session) (seed : ℕ → X.kem.Seed) where
  -- The phases that watch the clock.
  abbrev pub listens : Phase X → Bool
  listens (Phase.waiting alive) = true
  listens (Phase.bridging l) = true
  listens p = false

  abbrev pub IsOver : State X → Type 0
  IsOver s = (why : Ending) × (s.phase ≡ Phase.over why)

  -- It is over, or goes on to watch the clock, and heard nothing.
  abbrev HeardNothing : State X → State X → Type 0
  HeardNothing s t =
      IsOver t ⊎ ((listens t.phase ≡ true) × (t.agent.last_ws_rx ≡ s.agent.last_ws_rx))

  send_or_drop-last_ws_rx : (m : Message) (a : Agent) → (send_or_drop m a).last_ws_rx ≡ a.last_ws_rx
  unfolding send_or_drop
  send_or_drop-last_ws_rx m a = ground arith

  waiting-HeardNothing :
      (e : BridgeEvent) (alive : Bool) (s : State X)
      → is_silent e ≡ true
      → HeardNothing s (after_wait X S seed (wait_step e alive s.agent) s)
  unfolding after_wait wait_step record_output
  waiting-HeardNothing (pty_output output) true s h = inr (refl, refl)
  waiting-HeardNothing (pty_output output) false s h = inr (refl, refl)
  waiting-HeardNothing pty_closed alive s h = inr (refl, refl)
  waiting-HeardNothing (socket now item) alive s h = cc
  waiting-HeardNothing writer_ended alive s h = inr (refl, refl)
  waiting-HeardNothing (tick now) alive s h =
      elim (Bool-cases (ltb 45 ((now - s.agent.last_ws_rx) / 1_000_000_000))) [
        | inl late ↦ inl (Ending.pty_preserved, rw late)
        | inr soon ↦ inr (rw soon, rw soon (send_or_drop-last_ws_rx (ping []) s.agent))
      ]

  -- The bridge goes on with the same clock, or has lost the relay.
  abbrev Fares : Agent → Outcome → Type 0
  Fares a (goes_on b) = b.last_ws_rx ≡ a.last_ws_rx
  Fares a (exits why b) = why ≡ ws_error
  Fares a panics = Unit {0}

  send_output-Fares : (l : Link) (output : Bytes) (a : Agent) → Fares a (send_output X l output a)
  unfolding send_output
  send_output-Fares l output a = ground arith

  after_bridge-HeardNothing :
      (o : Outcome) (s : State X)
      → listens s.phase ≡ true
      → Fares s.agent o
      → HeardNothing s (after_bridge X S seed o s)
  unfolding after_bridge
  after_bridge-HeardNothing (goes_on b) s p e = inr (p, e)
  after_bridge-HeardNothing (exits ws_error b) s p e = inl (Ending.pty_preserved, refl)
  after_bridge-HeardNothing (exits peer_disconnected b) s p e = cc
  after_bridge-HeardNothing (exits peer_rejoined b) s p e = cc
  after_bridge-HeardNothing (exits pty_exited b) s p e = cc
  after_bridge-HeardNothing panics s p e = inl (Ending.crashed, refl)

  bridging-HeardNothing :
      (l : Link) (e : BridgeEvent) (s : State X)
      → listens s.phase ≡ true
      → is_silent e ≡ true
      → HeardNothing s (after_bridge X S seed (bridge_step X l e s.agent) s)
  unfolding after_bridge bridge_step on_output record_output
  bridging-HeardNothing l (pty_output output) s p h =
      after_bridge-HeardNothing (send_output X l output (record_output output s.agent)) s p
        (send_output-Fares l output (record_output output s.agent))
  bridging-HeardNothing l pty_closed s p h = inl (Ending.shell_exited, refl)
  bridging-HeardNothing l (socket now item) s p h = cc
  bridging-HeardNothing l writer_ended s p h = inr (p, refl)
  bridging-HeardNothing l (tick now) s p h =
      elim (Bool-cases (ltb 45 ((now - s.agent.last_ws_rx) / 1_000_000_000))) [
        | inl late ↦ inl (Ending.pty_preserved, rw late)
        | inr soon ↦ inr (rw soon p, rw soon (send_or_drop-last_ws_rx (ping []) s.agent))
      ]

  step_in-HeardNothing :
      (p : Phase X) (e : BridgeEvent) (s : State X)
      → s.phase ≡ p
      → listens p ≡ true
      → is_silent e ≡ true
      → HeardNothing s (step_in X S seed p e s)
  unfolding step_in
  step_in-HeardNothing Phase.joining e s at p h = cc
  step_in-HeardNothing (Phase.waiting alive) e s at p h = waiting-HeardNothing e alive s h
  step_in-HeardNothing (Phase.shaking dk) e s at p h = cc
  step_in-HeardNothing (Phase.bridging l) e s at p h = bridging-HeardNothing l e s (rw at refl) h
  step_in-HeardNothing (Phase.over why) e s at p h = cc

  steps-IsOver : (es : List BridgeEvent) (s : State X) → IsOver s → IsOver (steps X S seed es s)
  unfolding steps
  steps-IsOver [] s o = o
  steps-IsOver (e ∷ es) s (why, at) =
      steps-IsOver es (step X S seed e s) (why, ap (λ p. (step_in X S seed p e s).phase) at ∙ at)

  late_tick :
      (now : ℕ) (p : Phase X) (s : State X)
      → listens p ≡ true
      → IsLate now s.agent.last_ws_rx
      → IsOver (step_in X S seed p (tick now) s)
  unfolding step_in wait_step bridge_step
  late_tick now Phase.joining s p late = cc
  late_tick now (Phase.waiting alive) s p late =
      let e : ltb 45 ((now - s.agent.last_ws_rx) / 1_000_000_000) ≡ true = ground arith in
      (Ending.pty_preserved, rw e)
  late_tick now (Phase.shaking dk) s p late = cc
  late_tick now (Phase.bridging l) s p late =
      let e : ltb 45 ((now - s.agent.last_ws_rx) / 1_000_000_000) ≡ true = ground arith in
      (Ending.pty_preserved, rw e)
  late_tick now (Phase.over why) s p late = cc

  -- A dead connection is noticed. Between two clients and in the bridge: if the socket yields
  -- nothing, whatever else happens, and the timer fires once more than 45 full seconds have gone
  -- since the last item, then the connection is over.
  pub silence_ends :
      (es : List BridgeEvent) (now : ℕ) (s : State X)
      → listens s.phase ≡ true
      → All (λ e. is_silent e ≡ true) es
      → IsLate now s.agent.last_ws_rx
      → IsOver (steps X S seed (es ++ tick now ∷ []) s)
  unfolding steps
  silence_ends [] now s p silent late = late_tick now s.phase s p late
  silence_ends (e ∷ es) now s p (h, silent) late =
      elim (step_in-HeardNothing s.phase e s refl p h) [
        | inl over ↦ steps-IsOver (es ++ tick now ∷ []) (step X S seed e s) over
        | inr (p', same) ↦
            silence_ends es now (step X S seed e s) p' silent
              (subst (λ t. IsLate now t) (sym same) late)
      ]

  -- A text that the handshake can log and that brings no ciphertext: all but the client's reply.
  abbrev pub IsUnheard : BridgeEvent → Type 0
  IsUnheard e =
      (now : ℕ) × (t : Text) × (e ≡ socket now (frame (text t)))
      × (can_slice t 80 ≡ true)
      × (has_reply X (X.serde.raw_from_str t) ≡ false)

  unheard_step :
      (dk : X.kem.Dk) (e : BridgeEvent) (s : State X)
      → s.phase ≡ Phase.shaking dk
      → IsUnheard e
      → (now : ℕ) × (step X S seed e s ≡ at_time X now s)
  unfolding step after_message on_message
  unheard_step dk e s at (now, t, from, short, no_reply) = (
    now,
    ap (λ f. step X S seed f s) from
        ∙ ap (λ p. step_in X S seed p (socket now (frame (text t))) s) at
        ∙ rw short (
            ap (λ h. after_message X S seed h (at_time X now s))
              (ignored_text X S.derived_key s.token dk t s.agent.outbox no_reply)),
  )

  -- A handshake that its client has left never ends by itself: any texts that bring no ciphertext,
  -- such as the relay's notices that the client is gone and that another one has joined, leave
  -- the agent where it is, waiting for the reply to the old offer, and nothing is sent.
  pub handshake_deaf :
      (dk : X.kem.Dk) (es : List BridgeEvent) (s : State X)
      → s.phase ≡ Phase.shaking dk
      → All IsUnheard es
      → ((steps X S seed es s).phase ≡ Phase.shaking dk)
        × ((steps X S seed es s).agent.outbox ≡ s.agent.outbox)
  unfolding steps
  handshake_deaf dk [] s at h = (at, refl)
  handshake_deaf dk (e ∷ es) s at (h, hs) =
      let (now, same) = unheard_step dk e s at h in
      let (phase, outbox) = handshake_deaf dk es (at_time X now s) at hs in
      (
        ap (λ z. (steps X S seed es z).phase) same ∙ phase,
        ap (λ z. (steps X S seed es z).agent.outbox) same ∙ outbox,
      )
