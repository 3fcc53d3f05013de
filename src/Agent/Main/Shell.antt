-- ===== src/Agent/Main/Shell.antt =====
-- The shell from one connection to the next.
use ktty.Base.{
  ℕ, ◌≡◌, ◌⊎◌, inl, inr, refl, ap, ◌∙◌, Text, Bytes, Bool, true, false, List, [], ◌∷◌, ◌++◌, none,
  some, All, subst,
}
use ktty.Deps.Crates.{Crates}
use ktty.Deps.PortablePty.{PortablePty}
use ktty.Agent.Pty.{PtyHandle, spawn_tmux, from_write_handle, take_reader}
use ktty.Agent.Session.Run.{pty_returned, pty_preserved, Phase, over, State}
use ktty.Agent.Main.{
  Attempt, runs, loops, serves, after_run, result_in, give_back, state_of, run_session, with_shell,
  round, main_loop,
}

module _ (T : PortablePty) where
  -- The same terminal and process, with whatever reader.
  abbrev pub SameShell : PtyHandle T → PtyHandle T → Type 0
  SameShell h g = (h.master ≡ g.master) × (h.writer ≡ g.writer) × (h.child ≡ g.child)

module _ (X : Crates) (T : PortablePty) where
  abbrev pub is_over : Phase X → Bool
  is_over (over why) = true
  is_over p = false

  module _ (relay_url : Text) (derived_key : Bytes) (cols rows : ℕ) where
    -- The connection was made, and lost: before a client came, or later, where the system gives a
    -- new reader of the terminal.
    abbrev pub IsLost : T.Master → Attempt X T → Type 0
    IsLost master a =
        let phase = (state_of X T relay_url derived_key cols rows a).phase in
        (a.connects ≡ true)
        × ((phase ≡ Phase.over pty_returned)
            ⊎ ((phase ≡ Phase.over pty_preserved)
                × (reader : T.Reader) × ((T.try_clone_reader master a.at_end).0 ≡ some reader)))

    round-IsLost :
        (a : Attempt X T) (h : PtyHandle T)
        → IsLost h.master a
        → (g : PtyHandle T) × (round X T relay_url derived_key cols rows a (some h)
            ≡ loops (some g))
          × SameShell T h g
    unfolding round run_session from_write_handle take_reader
    round-IsLost a h (made, inl at) = (h, rw (made, at) refl, (refl, refl, refl))
    round-IsLost a h (made, inr (at, reader, cloned)) = (
      record { master = h.master; reader = reader; writer = h.writer; child = h.child },
      rw (made, at, give_back, cloned) refl,
      (refl, refl, refl),
    )

    -- After connections that were lost the loop goes on with the shell.
    pub all_lost :
        (attempts : List (Attempt X T)) (h : PtyHandle T)
        → All (λ a. IsLost h.master a) attempts
        → (g : PtyHandle T) × (main_loop X T relay_url derived_key cols rows attempts (some h)
            ≡ loops (some g))
          × SameShell T h g
    unfolding main_loop
    all_lost [] h lost = (h, refl, (refl, refl, refl))
    all_lost (a ∷ attempts) h (lost, rest) =
        let (g, once, (master, writer, child)) = round-IsLost a h lost in
        let (last, more, (master', writer', child')) =
          all_lost attempts g (subst (λ m. All (λ b. IsLost m b) attempts) master rest) in
        (last, rw once more, (master ∙ master', writer ∙ writer', child ∙ child'))

    running :
        (p : Phase X) (s : State X) (h : PtyHandle T) (w : T.System)
        → is_over p ≡ false
        → result_in X T relay_url derived_key cols rows p s h w ≡ runs s
    unfolding result_in
    running Phase.joining s h w e = refl
    running (Phase.waiting alive) s h w e = refl
    running (Phase.shaking dk) s h w e = refl
    running (Phase.bridging l) s h w e = refl
    running (Phase.over why) s h w e = cc

    -- A relay that cannot be connected to costs the shell. After any number of connections that were
    -- lost, one attempt fails to connect; in the next one a shell can be spawned, and the connection
    -- is made and goes on. Then it is the new shell that is served, whatever the old one was.
    pub outage_replaces_shell :
        (before : List (Attempt X T)) (a b : Attempt X T) (later : List (Attempt X T))
        (h g : PtyHandle T)
        → All (λ c. IsLost h.master c) before
        → a.connects ≡ false
        → (spawn_tmux T cols rows b.at_spawn).0 ≡ some g
        → b.connects ≡ true
        → is_over (state_of X T relay_url derived_key cols rows b).phase ≡ false
        → main_loop X T relay_url derived_key cols rows (before ++ a ∷ b ∷ later) (some h)
          ≡ serves g (state_of X T relay_url derived_key cols rows b)
    unfolding main_loop round run_session
    outage_replaces_shell [] a b later h g lost fails spawned made goes_on =
        let served = state_of X T relay_url derived_key cols rows b in
        let alone : round X T relay_url derived_key cols rows a (some h) ≡ loops none =
          rw fails refl in
        let anew : round X T relay_url derived_key cols rows b none ≡ serves g served =
          rw (round, spawned, with_shell, run_session, made)
            (ap (λ r. after_run X T relay_url derived_key cols rows r g)
              (running served.phase served g b.at_end goes_on)) in
        rw (alone, anew) refl
    outage_replaces_shell (c ∷ before) a b later h g (lost, rest) fails spawned made goes_on =
        let (h', once, (master, writer, child)) = round-IsLost c h lost in
        rw once (
          outage_replaces_shell before a b later h' g
            (subst (λ m. All (λ d. IsLost m d) before) master rest) fails spawned made goes_on)
