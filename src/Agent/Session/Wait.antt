-- ===== src/Agent/Session/Wait.antt =====
-- `run`, between two bridges: the loop that waits for a client to join again.
pub mod Keeping
pub mod Hearing
pub mod Listening
use ktty.Base.{
  ℕ, ◌-◌, ◌/◌, Text, text, binary, ping, pong, close, Incoming, frame, failed, ended, Bool, true,
  false, List, [], ◌∷◌, if◌then◌else◌, ltb,
}
use ktty.Agent.Session.State.{Agent, send_or_drop, mentions, can_slice}
use ktty.Agent.Session.Bridge.{
  BridgeEvent, pty_output, pty_closed, socket, tick, writer_ended, record_output,
}

-- The loop goes on, with `pty_alive`; a client has joined; the relay is lost; or it panics.
pub data Waiting : Type 0 where
  waits : Bool → Agent → Waiting
  joined : Agent → Waiting
  lost : Agent → Waiting
  collapses : Waiting

unfoldable pub wait_text : Text → Bool → Agent → Waiting
wait_text t pty_alive a =
    if can_slice t 120
    then if mentions t "action" "join" then joined a else waits pty_alive a
    else collapses

unfoldable pub wait_socket : Incoming → Bool → Agent → Waiting
unfolding wait_text
wait_socket (frame (text t)) pty_alive a = wait_text t pty_alive a
wait_socket (frame (ping d)) pty_alive a = waits pty_alive (send_or_drop (pong d) a)
wait_socket (frame (pong d)) pty_alive a = waits pty_alive a
wait_socket (frame (binary b)) pty_alive a = waits pty_alive a
wait_socket (frame close) pty_alive a = waits pty_alive a
wait_socket failed pty_alive a = lost a
wait_socket ended pty_alive a = lost a

unfoldable pub wait_tick : ℕ → Bool → Agent → Waiting
wait_tick now pty_alive a =
    if ltb 45 ((now - a.last_ws_rx) / 1_000_000_000)
    then lost a
    else waits pty_alive (send_or_drop (ping []) a)

-- One round; the arm of the terminal is disabled once the terminal is gone.
unfoldable pub wait_step : BridgeEvent → Bool → Agent → Waiting
unfolding wait_socket wait_tick
wait_step (pty_output output) true a = waits true (record_output output a)
wait_step (pty_output output) false a = waits false a
wait_step pty_closed pty_alive a = waits false a
wait_step (socket now item) pty_alive a = wait_socket item pty_alive (record a { last_ws_rx = now })
wait_step (tick now) pty_alive a = wait_tick now pty_alive a
wait_step writer_ended pty_alive a =
    waits pty_alive (record a { outbox = record a.outbox { is_open = false } })

abbrev pub while_waits : Waiting → (Bool → Agent → Waiting) → Waiting
while_waits (waits pty_alive a) next = next pty_alive a
while_waits (joined a) next = joined a
while_waits (lost a) next = lost a
while_waits collapses next = collapses

unfoldable pub wait_loop : List BridgeEvent → Bool → Agent → Waiting
unfolding wait_step
wait_loop [] pty_alive a = waits pty_alive a
wait_loop (e ∷ events) pty_alive a =
    while_waits (wait_step e pty_alive a) (λ alive a'. wait_loop events alive a')

-- `last_ws_rx` starts with the wait.
unfoldable pub wait : ℕ → List BridgeEvent → Agent → Waiting
unfolding wait_loop
wait now events a = wait_loop events true (record a { last_ws_rx = now })
