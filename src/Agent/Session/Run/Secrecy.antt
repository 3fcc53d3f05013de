-- ===== src/Agent/Session/Run/Secrecy.antt =====
-- What leaves the agent, in each phase of a connection.
use ktty.Base.{
  ℕ, ◌≡◌, ◌⊎◌, inl, inr, refl, Text, Bytes, Message, text, binary, ping, pong, close, Incoming,
  frame, failed, ended, Bool, true, false, List, [], ◌∷◌, ◌++◌, Option, arith, All, All-map,
  Bool-cases, Option-cases, ◌-◌, ◌/◌, ltb,
}
use ktty.Common.Messages.{boot_signal}
use ktty.Deps.Crates.{Crates}
use ktty.Agent.Session.State.{
  Agent, Outbox, Link, peer_disconnected, peer_rejoined, ws_error, pty_exited, Outcome, goes_on,
  exits, panics, send, can_slice, mentions,
}
use ktty.Agent.Session.Bridge.{
  BridgeEvent, pty_output, pty_closed, socket, tick, writer_ended, record_output, bridge_step,
}
use ktty.Agent.Session.Rounds.{Leaves}
use ktty.Agent.Session.Secrecy.{
  Adds, none-Adds, Adds-trans, send_or_drop-Adds, IsSealed, IsTraffic, bridge_step-Adds,
}
use ktty.Agent.Session.Handshake.{
  Handshake, waits, agrees, aborts, breaks, or_same, offer_text, hmac_text, on_message,
}
use ktty.Agent.Session.Handshake.Agreement.{offer_of}
use ktty.Agent.Session.Handshake.Sending.{Leaving, IsAnswer, on_message-Leaving}
use ktty.Agent.Session.Wait.{Waiting, joined, lost, collapses, wait_text, wait_step}
use ktty.Agent.Session.Wait.Keeping.{Ends, is_control}
use ktty.Agent.Session.Joining.{Session, joining_text, joining_socket, token_in}
use ktty.Agent.Session.Run.{
  Phase, State, at_time, with_outbox, boot_text, shake, boot, after_joining, after_wait,
  after_message, after_bridge, step_in, step,
}

-- Pings and pongs.
abbrev pub IsControl : Message → Type 0
IsControl m = is_control m ≡ true

wait_text-Adds :
    (t : Text) (alive : Bool) (a : Agent) → Ends (Adds IsControl a) (wait_text t alive a)
unfolding wait_text
wait_text-Adds t alive a = ground (arith, none-Adds IsControl a a refl)

wait_step-Adds :
    (e : BridgeEvent) (alive : Bool) (a : Agent) → Ends (Adds IsControl a) (wait_step e alive a)
unfolding wait_step record_output
wait_step-Adds (pty_output output) true a = none-Adds IsControl a (record_output output a) refl
wait_step-Adds (pty_output output) false a = none-Adds IsControl a a refl
wait_step-Adds pty_closed alive a = none-Adds IsControl a a refl
wait_step-Adds (socket now (frame (text t))) alive a =
    wait_text-Adds t alive (record a { last_ws_rx = now })
wait_step-Adds (socket now (frame (ping d))) alive a =
    send_or_drop-Adds IsControl (pong d) (record a { last_ws_rx = now }) refl
wait_step-Adds (socket now (frame (pong d))) alive a = none-Adds IsControl a a refl
wait_step-Adds (socket now (frame (binary b))) alive a = none-Adds IsControl a a refl
wait_step-Adds (socket now (frame close)) alive a = none-Adds IsControl a a refl
wait_step-Adds (socket now failed) alive a = none-Adds IsControl a a refl
wait_step-Adds (socket now ended) alive a = none-Adds IsControl a a refl
wait_step-Adds (tick now) alive a =
    elim (Bool-cases (ltb 45 ((now - a.last_ws_rx) / 1_000_000_000))) [
      | inl late ↦ rw late (none-Adds IsControl a a refl)
      | inr soon ↦ rw soon (send_or_drop-Adds IsControl (ping []) a refl)
    ]
wait_step-Adds writer_ended alive a =
    none-Adds IsControl a (record a { outbox = record a.outbox { is_open = false } }) refl

module _ (X : Crates) (S : Session) (seed : ℕ → X.kem.Seed) where
  -- The boot signal, an offer of a pair of keys that the agent made, or the tag of a key: what
  -- the handshake sends in the clear.
  abbrev pub IsGreeting : Message → Type 0
  IsGreeting m =
      ((token : Option Text) × (m ≡ text (boot_text X S seed token boot_signal)))
      ⊎ ((token : Option Text) × (i : ℕ) × (m
            ≡ text (offer_text X S.derived_key token (offer_of X (seed i)))))
      ⊎ ((token : Option Text) × (key : Bytes) × (m ≡ text (hmac_text X S.derived_key token key)))

  abbrev pub IsClear : Message → Type 0
  IsClear m = IsControl m ⊎ IsGreeting m

  -- In the bridge also what is encrypted under the key of the bridge.
  abbrev pub Fits : Phase X → Message → Type 0
  Fits (Phase.bridging l) m = IsClear m ⊎ IsSealed X l m
  Fits p m = IsClear m

  abbrev Sends : (Message → Type 0) → State X → State X → Type 0
  Sends P s t = Adds P s.agent t.agent

  shake-Sends : (s : State X) → Sends IsClear s (shake X S seed s)
  unfolding shake
  shake-Sends s = elim (Bool-cases s.agent.outbox.is_open) [
    | inr shut ↦ rw (shake, shut) (none-Adds IsClear s.agent s.agent refl)
    | inl open' ↦
        rw (shake, open')
          (
            text (offer_text X S.derived_key s.token (offer_of X (seed s.seeds))) ∷ [],
            refl,
            (inr (inr (inl (s.token, s.seeds, refl))), tt),
          )
  ]

  boot-Sends : (s : State X) → Sends IsClear s (boot X S seed s)
  unfolding boot send
  boot-Sends s = elim (Bool-cases s.agent.outbox.is_open) [
    | inr shut ↦ rw (boot, shut) (none-Adds IsClear s.agent s.agent refl)
    | inl open' ↦
        let o : Outbox = record {
          sent = s.agent.outbox.sent ++ text (boot_text X S seed s.token boot_signal) ∷ [];
          is_open = true;
        } in
        rw (boot, open')
          (Adds-trans IsClear s.agent (with_outbox X o s).agent
            (shake X S seed (with_outbox X o s)).agent
            (
              text (boot_text X S seed s.token boot_signal) ∷ [],
              refl,
              (inr (inl (s.token, refl)), tt),
            )
            (shake-Sends (with_outbox X o s)))
  ]

  pong-Sends :
      (d : Bytes) (token : Option Text) (s : State X)
      → Sends IsClear s (
          with_outbox X
            (or_same (send (pong d) s.agent.outbox) s.agent.outbox)
            (record s { token = token }))
  unfolding or_same send
  pong-Sends d token s = elim (Bool-cases s.agent.outbox.is_open) [
    | inr shut ↦ rw shut (none-Adds IsClear s.agent s.agent refl)
    | inl open' ↦ rw open' (pong d ∷ [], refl, (inl refl, tt))
  ]

  joining_text-Sends :
      (t : Text) (s : State X)
      → Sends IsClear s (after_joining X S seed (joining_text X.json t s.token s.agent.outbox) s)
  unfolding after_joining joining_text
  joining_text-Sends t s = elim (Bool-cases (can_slice t 100)) [
    | inr e ↦ rw (joining_text, e) (none-Adds IsClear s.agent s.agent refl)
    | inl e ↦ elim (Option-cases (token_in X.json t)) [
      | inr (token, e') ↦ rw (joining_text, e, e') (none-Adds IsClear s.agent s.agent refl)
      | inl e' ↦ elim (Bool-cases (mentions t "action" "join")) [
        | inr e3 ↦ rw (joining_text, e, e', e3) (none-Adds IsClear s.agent s.agent refl)
        | inl e3 ↦ rw (joining_text, e, e', e3) (boot-Sends s)
      ]
    ]
  ]

  -- What a message of the socket makes the agent send before a client is there.
  after_joining-Sends :
      (item : Incoming) (s : State X)
      → Sends IsClear s
          (after_joining X S seed (joining_socket X.json item s.token s.agent.outbox) s)
  unfolding after_joining joining_socket or_same
  after_joining-Sends (frame (text t)) s = joining_text-Sends t s
  after_joining-Sends (frame (ping d)) s = pong-Sends d s.token s
  after_joining-Sends (frame (pong d)) s = none-Adds IsClear s.agent s.agent refl
  after_joining-Sends (frame (binary b)) s = none-Adds IsClear s.agent s.agent refl
  after_joining-Sends (frame close) s = none-Adds IsClear s.agent s.agent refl
  after_joining-Sends failed s = none-Adds IsClear s.agent s.agent refl
  after_joining-Sends ended s = none-Adds IsClear s.agent s.agent refl

  Adds-map :
      (P Q : Message → Type 0) (a b : Agent) → ((m : Message) → P m → Q m) → Adds P a b → Adds Q a b
  Adds-map P Q a b f (ms, sent, fit) = (ms, sent, All-map ms f fit)

  after_wait-Sends :
      (w : Waiting) (s : State X)
      → Ends (Adds IsControl s.agent) w
      → Sends IsClear s (after_wait X S seed w s)
  unfolding after_wait
  after_wait-Sends (Waiting.waits alive a) s h =
      Adds-map IsControl IsClear s.agent a (λ m c. inl c) h
  after_wait-Sends (joined a) s h =
      Adds-trans IsClear s.agent a (boot X S seed (record s { agent = a })).agent
        (Adds-map IsControl IsClear s.agent a (λ m c. inl c) h)
        (boot-Sends (record s { agent = a }))
  after_wait-Sends (lost a) s h = Adds-map IsControl IsClear s.agent a (λ m c. inl c) h
  after_wait-Sends collapses s h = none-Adds IsClear s.agent s.agent refl

  traffic-Fits : (l : Link) (m : Message) → IsTraffic X l m → Fits (Phase.bridging l) m
  traffic-Fits l m (inl c) = inl (inl c)
  traffic-Fits l m (inr sealed) = inr sealed

  traffic : (l : Link) (a b : Agent) → Adds (IsTraffic X l) a b → Adds (Fits (Phase.bridging l)) a b
  traffic l a b h =
      Adds-map (IsTraffic X l) (Fits (Phase.bridging l)) a b (λ m c. traffic-Fits l m c) h

  after_bridge-Sends :
      (l : Link) (o : Outcome) (s : State X)
      → Leaves (Adds (IsTraffic X l) s.agent) o
      → Sends (Fits (Phase.bridging l)) s (after_bridge X S seed o s)
  unfolding after_bridge
  after_bridge-Sends l (goes_on a) s h = traffic l s.agent a h
  after_bridge-Sends l (exits peer_disconnected a) s h = traffic l s.agent a h
  after_bridge-Sends l (exits peer_rejoined a) s h =
      let b = (boot X S seed (record s { agent = a })).agent in
      Adds-trans (Fits (Phase.bridging l)) s.agent a b (traffic l s.agent a h) (
        Adds-map IsClear (Fits (Phase.bridging l)) a b (λ m c. inl c)
          (boot-Sends (record s { agent = a })))
  after_bridge-Sends l (exits ws_error a) s h = traffic l s.agent a h
  after_bridge-Sends l (exits pty_exited a) s h = traffic l s.agent a h
  after_bridge-Sends l panics s h = none-Adds (Fits (Phase.bridging l)) s.agent s.agent refl

  answer-IsClear :
      (token : Option Text) (dk : X.kem.Dk) (m : Message)
      → IsAnswer X S.derived_key token dk m
      → IsClear m
  answer-IsClear token dk m (inl c) = inl c
  answer-IsClear token dk m (inr (key, e)) = inr (inr (inr (token, key, e)))

  after_message-Sends :
      (token : Option Text) (dk : X.kem.Dk) (h : Handshake) (s : State X)
      → Leaving (IsAnswer X S.derived_key token dk) s.agent.outbox h
      → Sends IsClear s (after_message X S seed h s)
  unfolding after_message
  after_message-Sends token dk (waits o) s (ms, e, fit) =
      (ms, e, All-map ms (answer-IsClear token dk) fit)
  after_message-Sends token dk (agrees key o) s (ms, e, fit) =
      (ms, e, All-map ms (answer-IsClear token dk) fit)
  after_message-Sends token dk (aborts o) s (ms, e, fit) =
      (ms, e, All-map ms (answer-IsClear token dk) fit)
  after_message-Sends token dk breaks s h = none-Adds IsClear s.agent s.agent refl

  step_in-Sends :
      (p : Phase X) (e : BridgeEvent) (s : State X) → Sends (Fits p) s (step_in X S seed p e s)
  unfolding step_in
  step_in-Sends Phase.joining (socket now item) s = after_joining-Sends item (at_time X now s)
  step_in-Sends Phase.joining (tick now) s = send_or_drop-Adds IsClear (ping []) s.agent (inl refl)
  step_in-Sends Phase.joining writer_ended s = none-Adds IsClear s.agent s.agent refl
  step_in-Sends Phase.joining (pty_output output) s = none-Adds IsClear s.agent s.agent refl
  step_in-Sends Phase.joining pty_closed s = none-Adds IsClear s.agent s.agent refl
  step_in-Sends (Phase.waiting alive) e s =
      after_wait-Sends (wait_step e alive s.agent) s (wait_step-Adds e alive s.agent)
  step_in-Sends (Phase.shaking dk) (socket now item) s =
      after_message-Sends s.token dk (on_message X S.derived_key s.token dk item s.agent.outbox)
        (at_time X now s) (on_message-Leaving X S.derived_key s.token dk item s.agent.outbox)
  step_in-Sends (Phase.shaking dk) writer_ended s = none-Adds IsClear s.agent s.agent refl
  step_in-Sends (Phase.shaking dk) (tick now) s = none-Adds IsClear s.agent s.agent refl
  step_in-Sends (Phase.shaking dk) (pty_output output) s = none-Adds IsClear s.agent s.agent refl
  step_in-Sends (Phase.shaking dk) pty_closed s = none-Adds IsClear s.agent s.agent refl
  step_in-Sends (Phase.bridging l) e s =
      after_bridge-Sends l (bridge_step X l e s.agent) s (bridge_step-Adds X l e s.agent)
  step_in-Sends (Phase.over why) e s = none-Adds IsClear s.agent s.agent refl

  -- In every phase and for every event, what the agent adds to the channel is pings, pongs, and the
  -- handshake's own messages (the boot signal, an offer of a pair of keys it made, the tag of a key);
  -- and, in the bridge alone, envelopes whose payload is encrypted under the key of that bridge.
  -- Nothing that was sent before is changed.
  pub sends_in_phase :
      (e : BridgeEvent) (s : State X)
      → (ms : List Message) × ((step X S seed e s).agent.outbox.sent ≡ s.agent.outbox.sent ++ ms)
        × All (Fits s.phase) ms
  unfolding step
  sends_in_phase e s = step_in-Sends s.phase e s
