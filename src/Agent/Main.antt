-- ===== src/Agent/Main.antt =====
-- The loop of backend/agent/src/main.rs: one round for each connection to the relay, with the shell
-- that goes from one to the next.
pub mod Shell
pub mod Losing
use ktty.Base.{ℕ, Text, Bytes, Bool, if◌then◌else◌, List, [], ◌∷◌, Option, none, some}
use ktty.Deps.Crates.{Crates}
use ktty.Deps.PortablePty.{PortablePty}
use ktty.Agent.Pty.{PtyHandle, spawn_tmux, from_write_handle, take_reader}
use ktty.Agent.Session.Bridge.{BridgeEvent}
use ktty.Agent.Session.Joining
use ktty.Agent.Session.Run.{
  Ending, pty_returned, pty_preserved, shell_exited, failed, crashed, Phase, over, State, steps,
  start,
}

module _ (X : Crates) (T : PortablePty) where
  -- What one round meets: the system when the shell is spawned, whether the relay can be connected
  -- to, what the generators give, the events of the connection, and the system at its end.
  pub record Attempt : Type 0 where
    pub at_spawn : T.System
    pub connects : Bool
    pub seed : ℕ → X.kem.Seed
    pub events : List BridgeEvent
    pub at_end : T.System

  -- What `run` comes to: it has not ended, or returns `Ok(Some(pty))`, `Ok(None)` or an error, or it
  -- panics.
  pub data Returned : Type 0 where
    runs : State X → Returned
    recovered : PtyHandle T → Returned
    exited : Returned
    errs : Returned
    panicked : Returned

  -- The loop's next round, with `pty_handle`; a session that still runs; or the end by a panic.
  pub data Main : Type 0 where
    loops : Option (PtyHandle T) → Main
    serves : PtyHandle T → State X → Main
    aborts : Main

  module _ (relay_url : Text) (derived_key : Bytes) (cols rows : ℕ) where
    -- The handle that `run` gives back.
    unfoldable pub give_back : Ending → PtyHandle T → T.System → Returned
    give_back pty_returned h w = recovered h
    give_back pty_preserved h w = elim (from_write_handle T (take_reader T h).1 w).0 [
      | none ↦ panicked
      | some h' ↦ recovered h'
    ]
    give_back shell_exited h w = exited
    give_back failed h w = errs
    give_back crashed h w = panicked

    unfoldable pub result_in : Phase X → State X → PtyHandle T → T.System → Returned
    unfolding give_back
    result_in (over why) s h w = give_back why h w
    result_in p s h w = runs s

    -- How far the connection has come.
    unfoldable pub state_of : Attempt → State X
    state_of a =
        let session = Joining.new X.encodings relay_url derived_key in
        steps X session a.seed a.events (start X session a.seed)

    unfoldable pub run_session : Attempt → PtyHandle T → Returned
    unfolding result_in state_of
    run_session a h =
        if a.connects then result_in (state_of a).phase (state_of a) h a.at_end else errs

    abbrev pub after_run : Returned → PtyHandle T → Main
    after_run (runs s) h = serves h s
    after_run (recovered h') h = loops (some h')
    after_run exited h = loops none
    after_run errs h = loops none
    after_run panicked h = aborts

    -- `run(pty_handle.take().unwrap())`
    unfoldable pub with_shell : Attempt → Option (PtyHandle T) → Main
    unfolding run_session
    with_shell a none = aborts
    with_shell a (some h) = after_run (run_session a h) h

    -- A shell is spawned if there is none; where that fails the loop goes on to the next round.
    unfoldable pub round : Attempt → Option (PtyHandle T) → Main
    unfolding with_shell
    round a (some h) = with_shell a (some h)
    round a none = elim (spawn_tmux T cols rows a.at_spawn).0 [
      | none ↦ loops none
      | some h ↦ with_shell a (some h)
    ]

    abbrev pub and_next : Main → (Option (PtyHandle T) → Main) → Main
    and_next (loops h) next = next h
    and_next (serves h s) next = serves h s
    and_next aborts next = aborts

    -- A session that still runs keeps the loop where it is.
    unfoldable pub main_loop : List Attempt → Option (PtyHandle T) → Main
    unfolding round
    main_loop [] h = loops h
    main_loop (a ∷ attempts) h = and_next (round a h) (λ h'. main_loop attempts h')
