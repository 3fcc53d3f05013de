-- ===== src/Agent/Session/Run/Loops.antt =====
-- The phases of `run` against the loops they stand for: `bridge_loop`, and the wait for a client.
use ktty.Base.{ℕ, ◌≡◌, ◌⊎◌, refl, ap, ◌∙◌, Bool, List, [], ◌∷◌, ◌++◌, inl, inr, Bool-cases}
use ktty.Deps.Crates.{Crates}
use ktty.Agent.Session.State.{
  Agent, Link, peer_disconnected, peer_rejoined, ws_error, pty_exited, Outcome, goes_on, exits,
  panics,
}
use ktty.Agent.Session.Bridge.{BridgeEvent, bridge_step, and_then, bridge_loop}
use ktty.Agent.Session.Wait.{Waiting, joined, lost, collapses, wait_step, while_waits, wait_loop}
use ktty.Agent.Session.Joining.{Session}
use ktty.Agent.Session.Run.{
  Phase, State, crashed, shake, boot, after_bridge, after_wait, step_in, step, steps,
}

module _ (X : Crates) (S : Session) (seed : ℕ → X.kem.Seed) where
  -- The loop reads some of the events, and they lead to the state `after`; or it panics, and they
  -- lead to the end by a panic.
  abbrev pub Reads : List BridgeEvent → State X → State X → Type 0 → Type 0
  Reads es s after Panics =
      (taken : List BridgeEvent) × (rest : List BridgeEvent) × (es ≡ taken ++ rest)
      × ((steps X S seed taken s ≡ after)
          ⊎ (Panics × ((steps X S seed taken s).phase ≡ Phase.over crashed)))

  abbrev FollowsBridge : List BridgeEvent → Outcome → State X → Type 0
  FollowsBridge es o s = Reads es s (after_bridge X S seed o s) (o ≡ panics)

  abbrev FollowsWait : List BridgeEvent → Waiting → State X → Type 0
  FollowsWait es w s = Reads es s (after_wait X S seed w s) (w ≡ collapses)

  -- What becomes of a bridge depends on the agent that it leaves, and not on the one it began with.
  with_agent :
      (o : Outcome) (b : Agent) (s t : State X)
      → t ≡ after_bridge X S seed o (record s { agent = b })
      → (t ≡ after_bridge X S seed o s) ⊎ ((o ≡ panics) × (t.phase ≡ Phase.over crashed))
  unfolding after_bridge
  with_agent (goes_on a) b s t e = inl e
  with_agent (exits peer_disconnected a) b s t e = inl e
  with_agent (exits peer_rejoined a) b s t e = inl e
  with_agent (exits ws_error a) b s t e = inl e
  with_agent (exits pty_exited a) b s t e = inl e
  with_agent panics b s t e = inr (refl, ap (λ (z : State X). z.phase) e)

  -- One event is read, and then what the rest of the loop reads.
  one_more :
      (e : BridgeEvent) (es : List BridgeEvent) (s t after before : State X) (P : Type 0)
      → step X S seed e s ≡ t
      → ((z : State X) → z ≡ before → (z ≡ after) ⊎ (P × (z.phase ≡ Phase.over crashed)))
      → Reads es t before P
      → Reads (e ∷ es) s after P
  unfolding steps
  one_more e es s t after before P moved same (taken, rest, split, inl reached) = (
    e ∷ taken,
    rest,
    ap (◌∷◌ e) split,
    same (steps X S seed (e ∷ taken) s) (ap (steps X S seed taken) moved ∙ reached),
  )
  one_more e es s t after before P moved same (taken, rest, split, inr (panic, end)) = (
    e ∷ taken,
    rest,
    ap (◌∷◌ e) split,
    inr (panic, ap (λ z. (steps X S seed taken z).phase) moved ∙ end),
  )

  bridge_round :
      (l : Link) (e : BridgeEvent) (es : List BridgeEvent) (s : State X) (o : Outcome)
      → step X S seed e s ≡ after_bridge X S seed o s
      → ((b : Agent) → FollowsBridge es (bridge_loop X l es b) (record s { agent = b }))
      → FollowsBridge (e ∷ es) (and_then o (λ b. bridge_loop X l es b)) s
  unfolding steps after_bridge
  bridge_round l e es s (goes_on b) moved later =
      one_more e es s (record s { agent = b }) (after_bridge X S seed (bridge_loop X l es b) s)
        (after_bridge X S seed (bridge_loop X l es b) (record s { agent = b }))
        (bridge_loop X l es b ≡ panics) moved (λ z. with_agent (bridge_loop X l es b) b s z)
        (later b)
  bridge_round l e es s (exits why b) moved later = (e ∷ [], es, refl, inl moved)
  bridge_round l e es s panics moved later = (e ∷ [], es, refl, inl moved)

  steps-bridge_loop :
      (l : Link) (es : List BridgeEvent) (s : State X)
      → s.phase ≡ Phase.bridging l
      → FollowsBridge es (bridge_loop X l es s.agent) s
  unfolding step steps after_bridge bridge_loop
  steps-bridge_loop l [] s at = ([], [], refl, inl refl)
  steps-bridge_loop l (e ∷ es) s at =
      bridge_round l e es s (bridge_step X l e s.agent) (ap (λ p. step_in X S seed p e s) at)
        (λ b. steps-bridge_loop l es (record s { agent = b }) at)

  boot-phase :
      (p : Phase X) (s : State X) → boot X S seed (record s { phase = p }) ≡ boot X S seed s
  unfolding boot
  boot-phase p s = elim (Bool-cases s.agent.outbox.is_open) [
    | inl open' ↦ rw (boot, open', shake) refl
    | inr shut ↦ rw (boot, shut) refl
  ]

  -- The same of the wait, which also leaves whether the terminal is alive.
  with_wait :
      (w : Waiting) (alive : Bool) (b : Agent) (s t : State X)
      → t ≡ after_wait X S seed w (record s { phase = Phase.waiting alive; agent = b })
      → (t ≡ after_wait X S seed w s) ⊎ ((w ≡ collapses) × (t.phase ≡ Phase.over crashed))
  unfolding after_wait
  with_wait (Waiting.waits alive' a) alive b s t e = inl e
  with_wait (joined a) alive b s t e =
      inl (e ∙ boot-phase (Phase.waiting alive) (record s { agent = a }))
  with_wait (lost a) alive b s t e = inl e
  with_wait collapses alive b s t e = inr (refl, ap (λ (z : State X). z.phase) e)

  wait_round :
      (e : BridgeEvent) (es : List BridgeEvent) (s : State X) (w : Waiting)
      → step X S seed e s ≡ after_wait X S seed w s
      → ((alive : Bool) (b : Agent)
          → FollowsWait es
              (wait_loop es alive b)
              (record s { phase = Phase.waiting alive; agent = b }))
      → FollowsWait (e ∷ es) (while_waits w (λ alive b. wait_loop es alive b)) s
  unfolding steps after_wait
  wait_round e es s (Waiting.waits alive b) moved later =
      one_more e es s (record s { phase = Phase.waiting alive; agent = b })
        (after_wait X S seed (wait_loop es alive b) s)
        (after_wait X S seed (wait_loop es alive b)
          (record s { phase = Phase.waiting alive; agent = b }))
        (wait_loop es alive b ≡ collapses) moved (λ z. with_wait (wait_loop es alive b) alive b s z)
        (later alive b)
  wait_round e es s (joined a) moved later = (e ∷ [], es, refl, inl moved)
  wait_round e es s (lost a) moved later = (e ∷ [], es, refl, inl moved)
  wait_round e es s collapses moved later = (e ∷ [], es, refl, inl moved)

  steps-wait_loop :
      (alive : Bool) (es : List BridgeEvent) (s : State X)
      → s.phase ≡ Phase.waiting alive
      → FollowsWait es (wait_loop es alive s.agent) s
  unfolding step steps after_wait wait_loop
  steps-wait_loop alive [] s at = ([], [], refl, inl (ap (λ p. record s { phase = p }) at))
  steps-wait_loop alive (e ∷ es) s at =
      wait_round e es s (wait_step e alive s.agent) (ap (λ p. step_in X S seed p e s) at)
        (λ alive' b.
          steps-wait_loop alive' es (record s { phase = Phase.waiting alive'; agent = b }) refl)

  -- What each of the two phases is measured by.
  abbrev FollowsLoop : Phase X → List BridgeEvent → State X → Type 0
  FollowsLoop (Phase.bridging l) es s = FollowsBridge es (bridge_loop X l es s.agent) s
  FollowsLoop (Phase.waiting alive) es s = FollowsWait es (wait_loop es alive s.agent) s
  FollowsLoop p es s = Unit {0}

  follows : (p : Phase X) (es : List BridgeEvent) (s : State X) → s.phase ≡ p → FollowsLoop p es s
  follows (Phase.bridging l) es s at = steps-bridge_loop l es s at
  follows (Phase.waiting alive) es s at = steps-wait_loop alive es s at
  follows Phase.joining es s at = tt
  follows (Phase.shaking dk) es s at = tt
  follows (Phase.over why) es s at = tt

  -- In the bridge and in the wait for a client, the steps of a connection are those of the loop: for
  -- every list of events, some first part of it, step by step, leads to exactly the state that the
  -- outcome of the whole loop on these events stands for; where the loop panics, that or some state
  -- that is the end by a panic.
  steps-FollowsLoop : (es : List BridgeEvent) (s : State X) → FollowsLoop s.phase es s
  steps-FollowsLoop es s = follows s.phase es s refl
