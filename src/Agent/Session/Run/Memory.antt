-- ===== src/Agent/Session/Run/Memory.antt =====
-- Over every run the buffer stays recent.
use ktty.Base.{
  ℕ, suc, ◌≤◌, ◌<◌, refl, ping, Bytes, List, [], ◌∷◌, ◌++◌, length, length-append, arith, word_mod,
}
use mathlib.Core.List.{append-nil}
use ktty.Deps.Ciphers.{KemLaws}
use ktty.Deps.Crates.{Crates}
use ktty.Agent.RingBuffer
use ktty.Agent.Session.State.{
  Agent, peer_disconnected, peer_rejoined, ws_error, pty_exited, Outcome, goes_on, exits, panics,
  send_or_drop,
}
use ktty.Agent.Session.Bridge.{
  BridgeEvent, pty_output, pty_closed, socket, tick, writer_ended, bridge_step,
}
use ktty.Agent.Session.History.{IsRecent, new-IsRecent}
use ktty.Agent.Session.Rounds.{
  Leaves, IsRead, Recent, Keeps, Recent-Keeps, send_or_drop-Keeps, bridge_step-Recent,
}
use ktty.Agent.Session.Handshake.{Handshake, waits, agrees, aborts, breaks, on_message}
use ktty.Agent.Session.Wait.{Waiting, joined, lost, collapses, wait_step}
use ktty.Agent.Session.Wait
use ktty.Agent.Session.Wait.Keeping.{Ends, wait_step-Keeps}
use ktty.Agent.Session.Joining.{
  Session, Joining, awaits, found, disconnected, crashes, joining_socket,
}
use ktty.Agent.Session.Run.{
  Phase, State, at_time, with_outbox, boot, after_joining, after_wait, after_message, after_bridge,
  step_in, step, start, Step, takes, Reach, here, next,
}
use ktty.Agent.Session.Run.Keys.{IsKeyed, Reach-IsKeyed}
use ktty.Agent.Session.Run.Printing.{step_in-Keeps}
use ktty.Agent.Session.Printed.{
  Remembers, Remembers-Keeps, record_output-Remembers, printed, recorded,
}

Ends-Recent :
    (n : ℕ) (a : Agent) (w : Waiting) → Ends (Wait.Keeping.Keeps n a) w → Ends (Recent n) w
Ends-Recent n a (Waiting.waits alive b) (v, le, q) = (v, le)
Ends-Recent n a (joined b) (v, le, q) = (v, le)
Ends-Recent n a (lost b) (v, le, q) = (v, le)
Ends-Recent n a collapses h = tt

module _ (X : Crates) (S : Session) (seed : ℕ → X.kem.Seed) where
  -- The counter is at most `n`, and the buffer is recent.
  abbrev Recalls : ℕ → State X → Type 0
  Recalls n s = Recent n s.agent

  -- The same counter and buffer.
  abbrev SameMemory : State X → State X → Type 0
  SameMemory s t = Keeps s.agent t.agent

  boot-SameMemory : (s : State X) → SameMemory s (boot X S seed s)
  unfolding boot
  boot-SameMemory s = ground arith

  boot-Recalls : (n : ℕ) (s : State X) → Recalls n s → Recalls n (boot X S seed s)
  boot-Recalls n s v = Recent-Keeps n s.agent (boot X S seed s).agent v (boot-SameMemory s)

  after_joining-Recalls :
      (n : ℕ) (j : Joining) (s : State X) → Recalls n s → Recalls n (after_joining X S seed j s)
  unfolding after_joining
  after_joining-Recalls n (awaits token o) s v = v
  after_joining-Recalls n (found token o) s v =
      boot-Recalls n (with_outbox X o (record s { token = token })) v
  after_joining-Recalls n disconnected s v = v
  after_joining-Recalls n crashes s v = v

  after_wait-Recalls :
      (n : ℕ) (w : Waiting) (s : State X)
      → Recalls n s
      → Ends (Recent n) w
      → Recalls n (after_wait X S seed w s)
  unfolding after_wait
  after_wait-Recalls n (Waiting.waits alive a) s v k = k
  after_wait-Recalls n (joined a) s v k = boot-Recalls n (record s { agent = a }) k
  after_wait-Recalls n (lost a) s v k = k
  after_wait-Recalls n collapses s v k = v

  after_message-Recalls :
      (n : ℕ) (h : Handshake) (s : State X) → Recalls n s → Recalls n (after_message X S seed h s)
  unfolding after_message
  after_message-Recalls n (waits o) s v = v
  after_message-Recalls n (agrees key o) s v = v
  after_message-Recalls n (aborts o) s v = v
  after_message-Recalls n breaks s v = v

  after_bridge-Recalls :
      (n : ℕ) (o : Outcome) (s : State X)
      → Recalls n s
      → Leaves (Recent n) o
      → Recalls n (after_bridge X S seed o s)
  unfolding after_bridge
  after_bridge-Recalls n (goes_on a) s v k = k
  after_bridge-Recalls n (exits peer_disconnected a) s v k = k
  after_bridge-Recalls n (exits peer_rejoined a) s v k = boot-Recalls n (record s { agent = a }) k
  after_bridge-Recalls n (exits ws_error a) s v k = k
  after_bridge-Recalls n (exits pty_exited a) s v k = k
  after_bridge-Recalls n panics s v k = v

  grown : (n : ℕ) (s : State X) → Recalls n s → Recalls (suc n) s
  grown n s (v, le) = (v, omega arith)

  step_in-Recalls :
      (n : ℕ) (p : Phase X) (e : BridgeEvent) (s : State X)
      → Recalls n s
      → IsRead e
      → suc n < word_mod
      → Recalls (suc n) (step_in X S seed p e s)
  unfolding step_in
  step_in-Recalls n Phase.joining (socket now item) s v r small =
      after_joining-Recalls (suc n) (joining_socket X.json item s.token s.agent.outbox)
        (at_time X now s) (grown n s v)
  step_in-Recalls n Phase.joining (tick now) s v r small =
      grown n (record s { agent = send_or_drop (ping []) s.agent })
        (Recent-Keeps n s.agent (send_or_drop (ping []) s.agent) v
          (send_or_drop-Keeps (ping []) s.agent))
  step_in-Recalls n Phase.joining writer_ended s v r small = grown n s v
  step_in-Recalls n Phase.joining (pty_output output) s v r small = grown n s v
  step_in-Recalls n Phase.joining pty_closed s v r small = grown n s v
  step_in-Recalls n (Phase.waiting alive) e s v r small =
      after_wait-Recalls (suc n) (wait_step e alive s.agent) s (grown n s v) (
        Ends-Recent (suc n) s.agent (wait_step e alive s.agent)
          (wait_step-Keeps n e alive s.agent v r small))
  step_in-Recalls n (Phase.shaking dk) (socket now item) s v r small =
      after_message-Recalls (suc n) (on_message X S.derived_key s.token dk item s.agent.outbox)
        (at_time X now s) (grown n s v)
  step_in-Recalls n (Phase.shaking dk) writer_ended s v r small = grown n s v
  step_in-Recalls n (Phase.shaking dk) (tick now) s v r small = grown n s v
  step_in-Recalls n (Phase.shaking dk) (pty_output output) s v r small = grown n s v
  step_in-Recalls n (Phase.shaking dk) pty_closed s v r small = grown n s v
  step_in-Recalls n (Phase.bridging l) e s v r small =
      after_bridge-Recalls (suc n) (bridge_step X l e s.agent) s (grown n s v)
        (bridge_step-Recent X l n e s.agent v r small)
  step_in-Recalls n (Phase.over why) e s v r small = grown n s v

  Step-Recalls :
      (n : ℕ) {s t : State X}
      → Step X S seed s t
      → Recalls n s
      → suc n < word_mod
      → Recalls (suc n) t
  unfolding step
  Step-Recalls n {s} (takes e on r) v small = step_in-Recalls n s.phase e s v r small

  Reach-Recalls : {n : ℕ} {s : State X} → Reach X S seed n s → n < word_mod → Recalls n s
  unfolding start
  Reach-Recalls here small = (new-IsRecent, omega arith)
  Reach-Recalls (next {n} {s} r st) small = Step-Recalls n st (Reach-Recalls r (omega arith)) small

  -- What the terminal has printed on the connection, the earliest first.
  abbrev pub outputs : {n : ℕ} {s : State X} → Reach X S seed n s → List Bytes
  outputs here = []
  outputs (next r (takes e on read)) = outputs r ++ printed e

  length-printed : (os : List Bytes) (e : BridgeEvent) → length (os ++ printed e) ≤ suc (length os)
  length-printed os (pty_output output) = omega (arith, length-append {0} os (output ∷ []))
  length-printed os pty_closed = omega (arith, length-append {0} os [])
  length-printed os (socket now item) = omega (arith, length-append {0} os [])
  length-printed os (tick now) = omega (arith, length-append {0} os [])
  length-printed os writer_ended = omega (arith, length-append {0} os [])

  -- There are at most as many outputs as events.
  length-outputs : {n : ℕ} {s : State X} → (r : Reach X S seed n s) → length (outputs r) ≤ n
  length-outputs here = omega arith
  length-outputs (next r (takes e on read)) =
      omega (arith, length-printed (outputs r) e, length-outputs r)

  recorded-Remembers :
      (os : List Bytes) (e : BridgeEvent) (a : Agent)
      → Remembers os a
      → IsRead e
      → suc (length os) < word_mod
      → Remembers (os ++ printed e) (recorded e a)
  recorded-Remembers os (pty_output output) a v short small =
      record_output-Remembers os output a v short small
  recorded-Remembers os pty_closed a v short small = rw append-nil v
  recorded-Remembers os (socket now item) a v short small = rw append-nil v
  recorded-Remembers os (tick now) a v short small = rw append-nil v
  recorded-Remembers os writer_ended a v short small = rw append-nil v

  Reach-Remembers :
      {n : ℕ} {s : State X}
      → (r : Reach X S seed n s) → n < word_mod
      → Remembers (outputs r) s.agent
  unfolding start step RingBuffer.new
  Reach-Remembers here small = (refl, refl)
  Reach-Remembers (next {n} {s} r (takes e on read)) small =
      Remembers-Keeps (outputs r ++ printed e) (recorded e s.agent) (step X S seed e s).agent
        (recorded-Remembers (outputs r) e s.agent (Reach-Remembers r (omega arith)) read
          (omega (arith, length-outputs r)))
        (step_in-Keeps X S seed s.phase e s on)

  -- Whatever events have come on a connection, clients that left and joined again included, fewer
  -- than 2^64 of them and each output a single read: the counter is the number of the outputs that the
  -- terminal has printed, at most that of the events, and the buffer is, of these outputs numbered
  -- from 1, the longest suffix that fits into the buffer's limit, with its exact byte count. The buffered numbers are consecutive up to
  -- the counter, and the buffer is empty only before the first output. In the bridge the key has 32
  -- bytes, the session's id is the key's, and the token is the one that the connection holds.
  pub Reach-Sound :
      KemLaws X.kem
      → {n : ℕ} {s : State X} → (r : Reach X S seed n s) → n < word_mod
      → Remembers (outputs r) s.agent
        × IsRecent s.agent.seq s.agent.ring
        × (s.agent.seq ≤ n)
        × IsKeyed X S seed s.token s.phase
  Reach-Sound laws r small =
      let (v, le) = Reach-Recalls r small in
      (Reach-Remembers r small, v, le, Reach-IsKeyed X S seed laws r)
