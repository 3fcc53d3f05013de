-- ===== src/Tests/Wait.antt =====
-- The wait for a client: one output, a ping, and a join.
use ktty.Base.{lit, text, ping, frame, List, [], ◌∷◌, true, arith, refl}
use ktty.Agent.RingBuffer
use ktty.Agent.Session.State.{Agent}
use ktty.Agent.Session.Bridge.{BridgeEvent, pty_output, pty_closed, socket, tick}
use ktty.Agent.Session.History.{new-IsRecent}
use ktty.Agent.Session.Wait.{wait}
use ktty.Agent.Session.Wait.Listening.{Listens, wait-Listens}
use ktty.Agent.Session.Printed.{Remembers}

abbrev beginning : Agent
beginning = record {
  seq = 0;
  ring = RingBuffer.new;
  outbox = record { sent = []; is_open = true };
  pty = [];
  last_ws_rx = 0;
  drawn = 0;
}

abbrev meanwhile : List BridgeEvent
meanwhile =
    pty_output (lit "a")
    ∷ socket 6 (frame (ping (lit "p")))
    ∷ tick 7
    ∷ pty_closed
    ∷ socket 8 (frame (text (lit "{\"action\":\"join\"}")))
    ∷ []

beginning-Remembers : Remembers [] beginning
unfolding RingBuffer.new
beginning-Remembers = (refl, refl)

-- The letter is kept, and the wait ends with the client's message.
wait-Listens_example : Listens true [] beginning meanwhile (wait 5 meanwhile beginning)
wait-Listens_example =
    wait-Listens 5 [] meanwhile beginning beginning-Remembers new-IsRecent (omega arith)
      (omega arith)
