-- ===== src/Agent/Main/Losing.antt =====
-- What the relay's end of a connection does to the shell.
use ktty.Base.{ℕ, ◌≡◌, ◌⊎◌, Text, Bytes, true, List, ◌∷◌, ◌++◌, failed, ended, some}
use ktty.Deps.Crates.{Crates}
use ktty.Deps.PortablePty.{PortablePty}
use ktty.Agent.Session.Bridge.{BridgeEvent, socket, tick}
use ktty.Agent.Session.Joining
use ktty.Agent.Session.Joining.{Session}
use ktty.Agent.Session.Run.{Phase, steps, start}
use ktty.Agent.Session.Run.Silence.{IsLate, listens}
use ktty.Agent.Main.{Attempt}

-- The socket yields an error, or its end.
abbrev pub IsGone : BridgeEvent → Type 0
IsGone e = (now : ℕ) × ((e ≡ socket now failed) ⊎ (e ≡ socket now ended))

-- The timer fires more than 45 full seconds after the socket's last item.
abbrev pub IsOverdue : ℕ → BridgeEvent → Type 0
IsOverdue last e = (now : ℕ) × (e ≡ tick now) × IsLate now last

module _ (X : Crates) (T : PortablePty) (relay_url : Text) (derived_key : Bytes)
    (cols rows : ℕ) where
  abbrev session : Session
  session = Joining.new X.encodings relay_url derived_key

  -- The connection is made, and at some event the relay is gone: before a client came, where the
  -- socket ends; or later, between two clients or in the bridge, where the socket ends or has been
  -- silent for too long, and the system gives a new reader of the terminal.
  abbrev pub LosesRelay : T.Master → Attempt X T → Type 0
  LosesRelay master a =
      (a.connects ≡ true)
      × (before : List BridgeEvent) × (e : BridgeEvent) × (after : List BridgeEvent) × (a.events
          ≡ before ++ e ∷ after)
      × let s = steps X session a.seed before (start X session a.seed) in
        (((s.phase ≡ Phase.joining) × IsGone e)
          ⊎ ((listens X session a.seed s.phase ≡ true)
              × (IsGone e ⊎ IsOverdue s.agent.last_ws_rx e)
              × (reader : T.Reader) × ((T.try_clone_reader master a.at_end).0 ≡ some reader)))
