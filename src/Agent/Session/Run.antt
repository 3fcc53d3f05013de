-- ===== src/Agent/Session/Run.antt =====
-- `run`: the phases it goes through on one connection to the relay, and what it makes of each event
-- in each phase.
pub mod Keys
pub mod Printing
pub mod Memory
pub mod Secrecy
pub mod Silence
pub mod Reconnecting
pub mod Terminal
pub mod Loops
use ktty.Base.{
  ℕ, suc, Text, Bytes, Message, text, ping, Incoming, lit, Bool, true, false, List, [], ◌∷◌, Option,
  none, some, ◌≡◌,
}
use ktty.Common.Crypto
use ktty.Common.Messages.{BootSignal, boot_signal, join_message, handshake_offer}
use ktty.Deps.Crates.{Crates}
use ktty.Agent.RingBuffer
use ktty.Agent.Session.State.{
  Agent, Outbox, Link, BridgeExit, peer_disconnected, peer_rejoined, ws_error, pty_exited, Outcome,
  goes_on, exits, panics, send, send_or_drop,
}
use ktty.Agent.Session.Bridge.{
  BridgeEvent, pty_output, pty_closed, socket, tick, writer_ended, bridge_step,
}
use ktty.Agent.Session.Handshake.{
  Handshake, waits, agrees, aborts, breaks, stamp, offer_text, on_message,
}
use ktty.Agent.Session.Wait.{Waiting, joined, lost, collapses, wait_step}
use ktty.Agent.Session.Joining.{
  Session, Joining, awaits, found, disconnected, crashes, join_request, joining_socket,
}
use ktty.Agent.Session.Rounds.{IsRead}

-- How `run` ends: `Ok(Some(pty))` with the terminal as it came or with a new reader, `Ok(None)`, an
-- error of its own, or a panic.
pub data Ending : Type 0 where
  pty_returned pty_preserved shell_exited failed crashed : Ending

module _ (X : Crates) where
  -- Before the first client; between two clients, with `pty_alive`; in the handshake; in the bridge.
  pub data Phase : Type 0 where
    joining : Phase
    waiting : Bool → Phase
    shaking : X.kem.Dk → Phase
    bridging : Link → Phase
    over : Ending → Phase

  -- `last_ws_rx` of the agent is the time of the last item of the socket. Where a loop of the source
  -- starts its own `last_ws_rx`, it is the item that led there.
  pub record State : Type 0 where
    pub phase : Phase
    pub agent : Agent
    pub token : Option Text
    pub seeds : ℕ  -- how many pairs of keys were made

  abbrev pub finish : Ending → State → State
  finish why s = record s { phase = over why }

  abbrev pub at_time : ℕ → State → State
  at_time now s = record s { agent = record s.agent { last_ws_rx = now } }

  abbrev pub with_outbox : Outbox → State → State
  with_outbox o s = record s { agent = record s.agent { outbox = o } }

  -- Every arm of a `select!` that the phase has; `wait` drops the terminal's once it is gone.
  abbrev pub receives : Phase → BridgeEvent → Bool
  receives joining (pty_output output) = false
  receives joining pty_closed = false
  receives joining e = true
  receives (waiting pty_alive) (pty_output output) = pty_alive
  receives (waiting pty_alive) pty_closed = pty_alive
  receives (waiting pty_alive) e = true
  receives (shaking dk) (socket now item) = true
  receives (shaking dk) writer_ended = true
  receives (shaking dk) e = false
  receives (bridging l) e = true
  receives (over why) e = false

  -- `seed` is what the generator of each handshake draws from.
  module _ (S : Session) (seed : ℕ → X.kem.Seed) where
    unfoldable pub boot_text : Option Text → BootSignal → Text
    unfolding stamp
    boot_text token boot =
        X.json.to_string
          (stamp X.json token (X.json.object ((lit "type", X.json.string boot.type) ∷ [])))

    -- The start of `perform_handshake`; an error of it leads to the wait.
    unfoldable pub shake : State → State
    unfolding send
    shake s =
        let (dk, ek) = X.kem.generate (seed s.seeds) in
        let offer = handshake_offer (X.encodings.base64_encode (X.kem.as_bytes ek)) in
        let drawn = record s { seeds = suc s.seeds } in
        elim (send (text (offer_text X S.derived_key s.token offer)) s.agent.outbox) [
          | none ↦ record drawn { phase = waiting true }
          | some o ↦ with_outbox o (record drawn { phase = shaking dk })
        ]

    unfoldable pub boot : State → State
    unfolding shake
    boot s = elim (send (text (boot_text s.token boot_signal)) s.agent.outbox) [
      | none ↦ finish failed s
      | some o ↦ shake (with_outbox o s)
    ]

    unfoldable pub after_joining : Joining → State → State
    unfolding boot
    after_joining (awaits token o) s = with_outbox o (record s { token = token })
    after_joining (found token o) s = boot (with_outbox o (record s { token = token }))
    after_joining disconnected s = finish pty_returned s
    after_joining crashes s = finish crashed s

    unfoldable pub after_wait : Waiting → State → State
    unfolding boot
    after_wait (Waiting.waits pty_alive a) s = record s { phase = waiting pty_alive; agent = a }
    after_wait (joined a) s = boot (record s { agent = a })
    after_wait (lost a) s = finish pty_preserved (record s { agent = a })
    after_wait collapses s = finish crashed s

    unfoldable pub after_message : Handshake → State → State
    after_message (waits o) s = with_outbox o s
    after_message (agrees key o) s =
        let link : Link = record {
          key = key;
          session_id = Crypto.session_id X.encodings key;
          auth = s.token;
        } in
        with_outbox o (record s { phase = bridging link })
    after_message (aborts o) s = with_outbox o (record s { phase = waiting true })
    after_message breaks s = finish crashed s

    unfoldable pub after_bridge : Outcome → State → State
    unfolding boot
    after_bridge (goes_on a) s = record s { agent = a }
    after_bridge (exits peer_disconnected a) s = record s { phase = waiting true; agent = a }
    after_bridge (exits peer_rejoined a) s = boot (record s { agent = a })
    after_bridge (exits ws_error a) s = finish pty_preserved (record s { agent = a })
    after_bridge (exits pty_exited a) s = finish shell_exited (record s { agent = a })
    after_bridge panics s = finish crashed s

    abbrev pub close_outbox : State → State
    close_outbox s = with_outbox (record s.agent.outbox { is_open = false }) s

    -- An event that the phase does not receive stays where it is, and changes nothing.
    unfoldable pub step_in : Phase → BridgeEvent → State → State
    unfolding after_joining after_wait after_message after_bridge
    step_in joining (socket now item) s =
        after_joining (joining_socket X.json item s.token s.agent.outbox) (at_time now s)
    step_in joining (tick now) s = record s { agent = send_or_drop (ping []) s.agent }
    step_in joining writer_ended s = close_outbox s
    step_in joining e s = s
    step_in (waiting pty_alive) e s = after_wait (wait_step e pty_alive s.agent) s
    step_in (shaking dk) (socket now item) s =
        after_message (on_message X S.derived_key s.token dk item s.agent.outbox) (at_time now s)
    step_in (shaking dk) writer_ended s = close_outbox s
    step_in (shaking dk) e s = s
    step_in (bridging l) e s = after_bridge (bridge_step X l e s.agent) s
    step_in (over why) e s = s

    unfoldable pub step : BridgeEvent → State → State
    unfolding step_in
    step e s = step_in s.phase e s

    unfoldable pub steps : List BridgeEvent → State → State
    unfolding step
    steps [] s = s
    steps (e ∷ es) s = steps es (step e s)

    -- Connected: the request to join is in the channel, which is new.
    unfoldable pub start : State
    start = record {
      phase = joining;
      agent = record {
        seq = 0;
        ring = RingBuffer.new;
        outbox = record {
          sent = text (join_request X.json (join_message S.room_id)) ∷ [];
          is_open = true;
        };
        pty = [];
        last_ws_rx = 0;
        drawn = 0;
      };
      token = none;
      seeds = 0;
    }

    -- One event that the phase receives; what the terminal gives is a single read.
    pub data Step (s : State) : State → Type 0 where
      takes : (e : BridgeEvent) → receives s.phase e ≡ true → IsRead e → Step s (step e s)

    -- What `n` events can lead to.
    pub data Reach : ℕ → State → Type 0 where
      here : Reach 0 start
      next : {n : ℕ} {s t : State} → Reach n s → Step s t → Reach (suc n) t
