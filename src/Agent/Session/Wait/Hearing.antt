-- ===== src/Agent/Session/Wait/Hearing.antt =====
-- One round of the wait for a client: which output it keeps, and which event ends the wait how.
use ktty.Base.{
  ℕ, suc, ◌-◌, ◌/◌, ◌≤◌, ◌<◌, ◌≡◌, refl, ◌∙◌, ping, pong, text, binary, close, Text, Bytes,
  Incoming, frame, failed, ended, Bool, true, false, List, [], ◌∷◌, ◌++◌, arith, length,
  length-append, word_mod, ltb, if◌then◌else◌, Bool-cases, inl, inr,
}
use mathlib.Core.List.{append-nil}
use ktty.Agent.Session.State.{Agent, mentions, can_slice}
use ktty.Agent.Session.Bridge.{
  BridgeEvent, pty_output, pty_closed, socket, tick, writer_ended, record_output,
}
use ktty.Agent.Session.Printed.{Remembers, record_output-Remembers}
use ktty.Agent.Session.Rounds
use ktty.Agent.Session.Rounds.{IsRead, send_or_drop-Keeps}
use ktty.Agent.Session.Wait.{
  Waiting, waits, joined, lost, collapses, wait_text, wait_socket, wait_tick, wait_step,
}

-- Whether the terminal is still there after an event, and what it has printed in it.
abbrev pub still : Bool → BridgeEvent → Bool
still alive pty_closed = false
still alive e = alive

abbrev pub hears : Bool → BridgeEvent → List Bytes
hears alive (pty_output output) = if alive then output ∷ [] else []
hears alive e = []

-- All that a terminal prints while it is there.
abbrev pub heard : Bool → List BridgeEvent → List Bytes
heard alive [] = []
heard alive (e ∷ events) = hears alive e ++ heard (still alive e) events

-- A client's message to join.
abbrev pub Joins : BridgeEvent → Type 0
Joins (socket now (frame (text t))) = mentions t "action" "join" ≡ true
Joins e = ⊥

-- The relay goes away: its socket fails or ends, or is silent for more than 45 seconds.
abbrev pub Loses : Agent → BridgeEvent → Type 0
Loses b (socket now failed) = Unit {0}
Loses b (socket now ended) = Unit {0}
Loses b (tick now) = ltb 45 ((now - b.last_ws_rx) / 1_000_000_000) ≡ true
Loses b e = ⊥

-- A text that cannot be cut after 120 bytes.
abbrev pub Breaks : BridgeEvent → Type 0
Breaks (socket now (frame (text t))) = can_slice t 120 ≡ false
Breaks e = ⊥

abbrev pub hear : Bool → BridgeEvent → Agent → Agent
hear alive (pty_output output) a = if alive then record_output output a else a
hear alive e a = a

-- What one round makes of the counter and the buffer, and which event ends the wait how.
abbrev pub Hears : Bool → BridgeEvent → Agent → Waiting → Type 0
Hears alive e a (waits alive' b) = (alive' ≡ still alive e) × Rounds.Keeps (hear alive e a) b
Hears alive e a (joined b) = Joins e × Rounds.Keeps a b
Hears alive e a (lost b) = Loses b e × Rounds.Keeps a b
Hears alive e a collapses = Breaks e

wait_text-Hears :
    (now : ℕ) (t : Text) (alive : Bool) (a b : Agent)
    → Rounds.Keeps a b
    → Hears alive (socket now (frame (text t))) a (wait_text t alive b)
unfolding wait_text
wait_text-Hears now t alive a b k = elim (Bool-cases (can_slice t 120)) [
  | inl whole ↦ elim (Bool-cases (mentions t "action" "join")) [
    | inl joins ↦ rw (whole, joins) (joins, k)
    | inr other ↦ rw (whole, other) (refl, k)
  ]
  | inr broken ↦ rw broken broken
]

wait_socket-Hears :
    (now : ℕ) (item : Incoming) (alive : Bool) (a b : Agent)
    → Rounds.Keeps a b
    → Hears alive (socket now item) a (wait_socket item alive b)
unfolding wait_socket
wait_socket-Hears now (frame (text t)) alive a b k = wait_text-Hears now t alive a b k
wait_socket-Hears now (frame (ping d)) alive a b (n, r) =
    let (n', r') = send_or_drop-Keeps (pong d) b in (refl, (n' ∙ n, r' ∙ r))
wait_socket-Hears now (frame (pong d)) alive a b k = (refl, k)
wait_socket-Hears now (frame (binary d)) alive a b k = (refl, k)
wait_socket-Hears now (frame close) alive a b k = (refl, k)
wait_socket-Hears now failed alive a b k = (tt, k)
wait_socket-Hears now ended alive a b k = (tt, k)

wait_tick-Hears :
    (now : ℕ) (alive : Bool) (a : Agent) → Hears alive (tick now) a (wait_tick now alive a)
unfolding wait_tick
wait_tick-Hears now alive a = elim (Bool-cases (ltb 45 ((now - a.last_ws_rx) / 1_000_000_000))) [
  | inl late ↦ rw late (late, (refl, refl))
  | inr soon ↦ rw soon (refl, send_or_drop-Keeps (ping []) a)
]

pub wait_step-Hears :
    (e : BridgeEvent) (alive : Bool) (a : Agent) → Hears alive e a (wait_step e alive a)
unfolding wait_step
wait_step-Hears (pty_output output) true a = (refl, (refl, refl))
wait_step-Hears (pty_output output) false a = (refl, (refl, refl))
wait_step-Hears pty_closed alive a = (refl, (refl, refl))
wait_step-Hears (socket now item) alive a =
    wait_socket-Hears now item alive a (record a { last_ws_rx = now }) (refl, refl)
wait_step-Hears (tick now) alive a = wait_tick-Hears now alive a
wait_step-Hears writer_ended alive a = (refl, (refl, refl))

pub hear-Remembers :
    (outs : List Bytes) (alive : Bool) (e : BridgeEvent) (a : Agent)
    → Remembers outs a
    → IsRead e
    → suc (length outs) < word_mod
    → Remembers (outs ++ hears alive e) (hear alive e a)
hear-Remembers outs true (pty_output output) a v short small =
    record_output-Remembers outs output a v short small
hear-Remembers outs false (pty_output output) a v short small = rw append-nil v
hear-Remembers outs alive pty_closed a v short small = rw append-nil v
hear-Remembers outs alive (socket now item) a v short small = rw append-nil v
hear-Remembers outs alive (tick now) a v short small = rw append-nil v
hear-Remembers outs alive writer_ended a v short small = rw append-nil v

pub length-hears :
    (outs : List Bytes) (alive : Bool) (e : BridgeEvent)
    → length (outs ++ hears alive e) ≤ suc (length outs)
length-hears outs true (pty_output output) = omega (arith, length-append {0} outs (output ∷ []))
length-hears outs false (pty_output output) = omega (arith, length-append {0} outs [])
length-hears outs alive pty_closed = omega (arith, length-append {0} outs [])
length-hears outs alive (socket now item) = omega (arith, length-append {0} outs [])
length-hears outs alive (tick now) = omega (arith, length-append {0} outs [])
length-hears outs alive writer_ended = omega (arith, length-append {0} outs [])
