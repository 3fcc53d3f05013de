-- ===== src/Relay/Socket.antt =====
-- `handle_socket` as a whole for one connection that nothing interrupts, and the sections of all
-- connections in any order, as the mutex lets them interleave.
use ktty.Base.{
  ℕ, Text, Bytes, Message, Incoming, frame, failed, ended, Bool, true, false, List, [], ◌∷◌, none,
  some,
}
use ktty.Deps.Json.{Json}
use ktty.Relay.Channel.{Tx, update}
use ktty.Relay.State.{Relay, Conn}
use ktty.Relay.Handler.{
  first_room_id, register, send_token, notify_join, handle_message, disconnect, update_activity,
  send_pong, forward, evict_stale,
}

-- What the `select!` of the read loop yields, with the time of a frame.
pub data LoopEvent : Type 0 where
  received : ℕ → Incoming → LoopEvent
  writer_died : LoopEvent

-- The write task takes the oldest message of its channel.
abbrev pub dequeue : List Message → List Message
dequeue [] = []
dequeue (m ∷ ms) = ms

unfoldable pub deliver : Tx → Relay → Relay
deliver tx r =
    let c = r.chans tx in
    record r { chans = update r.chans tx (record c { queue = dequeue c.queue }) }

-- The write task ends, and drops the receiver.
unfoldable pub close_channel : Tx → Relay → Relay
close_channel tx r = record r { chans = update r.chans tx (record { queue = []; closed = true }) }

-- One section of some connection's handler, of its write task, or of the background task.
pub data Section : Type 0 where
  registers : Text → ℕ → Text → Section
  sends_token : Tx → Text → Section
  notifies : Conn → Section
  pongs : Conn → Bytes → Section
  updates : Conn → ℕ → Section
  forwards : Conn → ℕ → Message → Section
  disconnects : Conn → Section
  sweeps : ℕ → Section
  delivers closes : Tx → Section

module _ (J : Json) (ct_eq : Bytes → Bytes → Bool) where
  -- The read loop over the events that have come; the flag says whether it was left.
  unfoldable pub read_loop : Conn → List LoopEvent → Relay → Relay × Bool
  read_loop c [] r = (r, false)
  read_loop c (writer_died ∷ events) r = (r, true)
  read_loop c (received now failed ∷ events) r = (r, true)
  read_loop c (received now ended ∷ events) r = (r, true)
  read_loop c (received now (frame m) ∷ events) r =
      let (r', goes_on) = handle_message J ct_eq c now m r in
      elim goes_on [ true ↦ read_loop c events r' | false ↦ (r', true) ]

  unfoldable pub connected : Text → ℕ → Text → List LoopEvent → Relay → Relay
  connected room_id now token events r =
      let (registered, c, tx) = register J ct_eq room_id now token r in
      let greeted = notify_join J ct_eq c (send_token J ct_eq tx token registered) in
      let (r', left) = read_loop c events greeted in
      elim left [ true ↦ disconnect J ct_eq c r' | false ↦ r' ]

  unfoldable pub handle_socket : Incoming → ℕ → Text → List LoopEvent → Relay → Relay
  unfolding connected
  handle_socket first now token events r = elim (first_room_id J ct_eq first) [
    | none ↦ r
    | some room_id ↦ connected room_id now token events r
  ]

  unfoldable pub step : Section → Relay → Relay
  step (registers room_id now token) r = (register J ct_eq room_id now token r).0
  step (sends_token tx token) r = send_token J ct_eq tx token r
  step (notifies c) r = notify_join J ct_eq c r
  step (pongs c d) r = send_pong c d r
  step (updates c now) r = update_activity c now r
  step (forwards c now m) r = forward J ct_eq c now m r
  step (disconnects c) r = disconnect J ct_eq c r
  step (sweeps now) r = evict_stale now r
  step (delivers tx) r = deliver tx r
  step (closes tx) r = close_channel tx r

  unfoldable pub run : List Section → Relay → Relay
  unfolding step
  run [] r = r
  run (s ∷ ss) r = run ss (step s r)
