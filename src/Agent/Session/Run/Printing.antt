-- ===== src/Agent/Session/Run/Printing.antt =====
-- Every event of a connection changes the counter and the buffer by the output that it brings, and by
-- nothing else.
use ktty.Base.{
  ℕ, ◌≡◌, ◌≢◌, refl, ◌∙◌, Text, Bytes, text, binary, ping, pong, close, Incoming, frame, failed,
  ended, Bool, true, false, [], arith,
}
use ktty.Deps.Crates.{Crates}
use ktty.Agent.Session.State.{
  Agent, Link, peer_disconnected, peer_rejoined, ws_error, pty_exited, Outcome, goes_on, exits,
  panics,
}
use ktty.Agent.Session.Bridge.{
  BridgeEvent, pty_output, pty_closed, socket, tick, writer_ended, record_output, send_output,
  on_output, on_socket, on_tick, bridge_step,
}
use ktty.Agent.Session.Rounds.{
  Leaves, Keeps, send_or_drop-Keeps, on_socket-Keeps, on_tick-Keeps, send_output-Keeps,
}
use ktty.Agent.Session.Printed.{recorded}
use ktty.Agent.Session.Handshake.{Handshake, waits, agrees, aborts, breaks, on_message}
use ktty.Agent.Session.Wait.{
  Waiting, joined, lost, collapses, wait_text, wait_socket, wait_tick, wait_step,
}
use ktty.Agent.Session.Wait.Keeping.{Ends}
use ktty.Agent.Session.Joining.{
  Session, Joining, awaits, found, disconnected, crashes, joining_socket,
}
use ktty.Agent.Session.Run.{
  Phase, State, receives, at_time, with_outbox, boot, after_joining, after_wait, after_message,
  after_bridge, step_in,
}

wait_text-Keeps : (t : Text) (alive : Bool) (a : Agent) → Ends (Keeps a) (wait_text t alive a)
unfolding wait_text
wait_text-Keeps t alive a = ground arith

wait_socket-Keeps :
    (item : Incoming) (alive : Bool) (a : Agent) → Ends (Keeps a) (wait_socket item alive a)
unfolding wait_socket
wait_socket-Keeps (frame (text t)) alive a = wait_text-Keeps t alive a
wait_socket-Keeps (frame (ping d)) alive a = send_or_drop-Keeps (pong d) a
wait_socket-Keeps (frame (pong d)) alive a = (refl, refl)
wait_socket-Keeps (frame (binary b)) alive a = (refl, refl)
wait_socket-Keeps (frame close) alive a = (refl, refl)
wait_socket-Keeps failed alive a = (refl, refl)
wait_socket-Keeps ended alive a = (refl, refl)

wait_tick-Keeps : (now : ℕ) (alive : Bool) (a : Agent) → Ends (Keeps a) (wait_tick now alive a)
unfolding wait_tick
wait_tick-Keeps now alive a = ground (arith, send_or_drop-Keeps (ping []) a)

module _ (X : Crates) (S : Session) (seed : ℕ → X.kem.Seed) where
  boot-Keeps : (s : State X) → Keeps s.agent (boot X S seed s).agent
  unfolding boot
  boot-Keeps s = ground arith

  after_joining-Keeps :
      (j : Joining) (s : State X) → Keeps s.agent (after_joining X S seed j s).agent
  unfolding after_joining
  after_joining-Keeps (awaits token o) s = (refl, refl)
  after_joining-Keeps (found token o) s = boot-Keeps (with_outbox X o (record s { token = token }))
  after_joining-Keeps disconnected s = (refl, refl)
  after_joining-Keeps crashes s = (refl, refl)

  after_wait-Keeps :
      (w : Waiting) (s : State X)
      → Ends (Keeps s.agent) w
      → Keeps s.agent (after_wait X S seed w s).agent
  unfolding after_wait
  after_wait-Keeps (Waiting.waits alive a) s k = k
  after_wait-Keeps (joined a) s (n, r) =
      let (n', r') = boot-Keeps (record s { agent = a }) in (n' ∙ n, r' ∙ r)
  after_wait-Keeps (lost a) s k = k
  after_wait-Keeps collapses s k = (refl, refl)

  after_message-Keeps :
      (h : Handshake) (s : State X) → Keeps s.agent (after_message X S seed h s).agent
  unfolding after_message
  after_message-Keeps (waits o) s = (refl, refl)
  after_message-Keeps (agrees key o) s = (refl, refl)
  after_message-Keeps (aborts o) s = (refl, refl)
  after_message-Keeps breaks s = (refl, refl)

  -- Where the round does not panic.
  after_bridge-Keeps :
      (a : Agent) (o : Outcome) (s : State X)
      → Leaves (Keeps a) o
      → o ≢ panics
      → Keeps a (after_bridge X S seed o s).agent
  unfolding after_bridge
  after_bridge-Keeps a (goes_on b) s k ok = k
  after_bridge-Keeps a (exits peer_disconnected b) s k ok = k
  after_bridge-Keeps a (exits peer_rejoined b) s (n, r) ok =
      let (n', r') = boot-Keeps (record s { agent = b }) in (n' ∙ n, r' ∙ r)
  after_bridge-Keeps a (exits ws_error b) s k ok = k
  after_bridge-Keeps a (exits pty_exited b) s k ok = k
  after_bridge-Keeps a panics s k ok = absurd (ok refl)

  -- Or where it started with the state's own agent.
  after_round-Keeps :
      (o : Outcome) (s : State X)
      → Leaves (Keeps s.agent) o
      → Keeps s.agent (after_bridge X S seed o s).agent
  unfolding after_bridge
  after_round-Keeps (goes_on b) s k = k
  after_round-Keeps (exits why b) s k = after_bridge-Keeps s.agent (exits why b) s k (λ e. cc)
  after_round-Keeps panics s k = (refl, refl)

  send_output-calm : (l : Link) (output : Bytes) (a : Agent) → send_output X l output a ≢ panics
  unfolding send_output
  send_output-calm l output a e = absurd (ground arith)

  pub step_in-Keeps :
      (p : Phase X) (e : BridgeEvent) (s : State X)
      → receives X p e ≡ true
      → Keeps (recorded e s.agent) (step_in X S seed p e s).agent
  unfolding step_in wait_step bridge_step on_output after_wait
  step_in-Keeps Phase.joining (socket now item) s h =
      after_joining-Keeps (joining_socket X.json item s.token s.agent.outbox) (at_time X now s)
  step_in-Keeps Phase.joining (tick now) s h = send_or_drop-Keeps (ping []) s.agent
  step_in-Keeps Phase.joining writer_ended s h = (refl, refl)
  step_in-Keeps Phase.joining (pty_output output) s h = cc
  step_in-Keeps Phase.joining pty_closed s h = cc
  step_in-Keeps (Phase.waiting true) (pty_output output) s h = (refl, refl)
  step_in-Keeps (Phase.waiting false) (pty_output output) s h = cc
  step_in-Keeps (Phase.waiting alive) pty_closed s h = (refl, refl)
  step_in-Keeps (Phase.waiting alive) (socket now item) s h =
      after_wait-Keeps (wait_socket item alive (record s.agent { last_ws_rx = now })) s
        (wait_socket-Keeps item alive (record s.agent { last_ws_rx = now }))
  step_in-Keeps (Phase.waiting alive) (tick now) s h =
      after_wait-Keeps (wait_tick now alive s.agent) s (wait_tick-Keeps now alive s.agent)
  step_in-Keeps (Phase.waiting alive) writer_ended s h = (refl, refl)
  step_in-Keeps (Phase.shaking dk) (socket now item) s h =
      after_message-Keeps (on_message X S.derived_key s.token dk item s.agent.outbox)
        (at_time X now s)
  step_in-Keeps (Phase.shaking dk) writer_ended s h = (refl, refl)
  step_in-Keeps (Phase.shaking dk) (tick now) s h = cc
  step_in-Keeps (Phase.shaking dk) (pty_output output) s h = cc
  step_in-Keeps (Phase.shaking dk) pty_closed s h = cc
  step_in-Keeps (Phase.bridging l) (pty_output output) s h =
      let a = record_output output s.agent in
      after_bridge-Keeps a (send_output X l output a) s (send_output-Keeps X l output a)
        (send_output-calm l output a)
  step_in-Keeps (Phase.bridging l) pty_closed s h =
      after_round-Keeps (exits pty_exited s.agent) s (refl, refl)
  step_in-Keeps (Phase.bridging l) (socket now item) s h =
      after_round-Keeps (on_socket X l item (record s.agent { last_ws_rx = now })) s
        (on_socket-Keeps X l item (record s.agent { last_ws_rx = now }))
  step_in-Keeps (Phase.bridging l) (tick now) s h =
      after_round-Keeps (on_tick X l now s.agent) s (on_tick-Keeps X l now s.agent)
  step_in-Keeps (Phase.bridging l) writer_ended s h =
      after_round-Keeps
        (goes_on (record s.agent { outbox = record s.agent.outbox { is_open = false } })) s
        (refl, refl)
  step_in-Keeps (Phase.over why) e s h = cc
