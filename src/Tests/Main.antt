-- ===== src/Tests/Main.antt =====
-- The agent's start and its loop: a toy system, in which every call gives the next number.
use ktty.Base.{
  ℕ, suc, ◌≡◌, inl, refl, lit, Bytes, text, frame, ended, Bool, true, false, List, [], ◌∷◌, some,
  ok, arith,
}
use ktty.Common.Crypto.{decrypt, derive_key}
use ktty.Deps.Ciphers.{Argon2}
use ktty.Deps.PortablePty.{PortablePty}
use ktty.Agent.Pty.{PtyHandle, spawn_tmux}
use ktty.Agent.Startup.{prints, startup}
use ktty.Agent.Startup.Token.{Types, done, digit, other, startup-prints}
use ktty.Agent.Session.Bridge.{BridgeEvent, socket}
use ktty.Agent.Session.Joining.{joining_socket}
use ktty.Agent.Session.Run.{steps, step, start, after_joining}
use ktty.Agent.Main.{Attempt, serves, main_loop, state_of}
use ktty.Agent.Main.Shell.{IsLost, outage_replaces_shell}
use ktty.Tests.ToyCrates.{toy_encodings}
use ktty.Tests.ToyCiphers.{toy_crates, toy_aead, toy_aead_laws, toy_kem, replicate}

unfoldable toy_argon2 : Argon2
toy_argon2 = record {
  Params = ℕ;
  new = λ m t p len. ok 0;
  hash_password_into = λ params pin salt n. ok (replicate 32 9);
}

typed : Types (lit "12345678") (lit "1234-5678")
typed = digit (omega arith) (omega arith) (
    (digit (omega arith) (omega arith) (
      digit (omega arith) (omega arith) (
        digit (omega arith) (omega arith) (
          other (inl (omega arith)) (
            digit (omega arith) (omega arith) (
              digit (omega arith) (omega arith)
                (digit (omega arith) (omega arith) (digit (omega arith) (omega arith) done)))))))))

startup-prints_example :
    (packed : Bytes) × (startup toy_argon2 toy_aead toy_encodings
        (replicate 24 3)
        true
        (lit "ws://h")
        (lit "1234-5678")
      ≡ prints (toy_encodings.hex_encode packed))
    × (decrypt toy_aead (replicate 32 9) packed ≡ ok (lit "ws://h"))
unfolding toy_argon2 derive_key
startup-prints_example =
    startup-prints toy_argon2 toy_aead toy_encodings toy_aead_laws (replicate 24 3) (replicate 32 9)
      (lit "ws://h") (lit "12345678") (lit "1234-5678") typed refl (omega arith) refl refl
      (omega arith)

unfoldable toy_pty : PortablePty
toy_pty = record {
  System = ℕ;
  Master = ℕ;
  Slave = ℕ;
  Reader = ℕ;
  Writer = ℕ;
  Child = ℕ;
  openpty = λ size w. (some (w, w), suc w);
  spawn_command = λ slave command w. (some w, suc w);
  drop_slave = λ slave w. w;
  try_clone_reader = λ master w. (some w, suc w);
  take_writer = λ master w. (some w, suc w);
  resize = λ master size w. (some tt, w);
  write_all = λ writer bytes w. (some tt, w);
  flush = λ writer w. (some tt, w);
  read = λ reader n w. (some [], w);
  kill = λ child w. w;
  process_id = λ child w. some child;
  kill_group = λ pid w. w;
}

unfoldable seeds : ℕ → toy_crates.kem.Seed
unfolding toy_crates toy_kem
seeds i = i

unfoldable system : ℕ → toy_pty.System
unfolding toy_pty
system i = i

abbrev attempt : Bool → List BridgeEvent → Attempt toy_crates toy_pty
attempt connects events = record {
  at_spawn = system 0;
  connects = connects;
  seed = seeds;
  events = events;
  at_end = system 50;
}

-- The relay is lost before a client comes; after a client that did not finish its handshake.
abbrev lost_early : Attempt toy_crates toy_pty
lost_early = attempt true (socket 3 ended ∷ [])

abbrev lost_late : Attempt toy_crates toy_pty
lost_late =
    attempt true
      (socket 3 (frame (text (lit "{\"action\":\"join\"}"))) ∷ socket 4 ended ∷ socket 5 ended ∷ [])

abbrev key : Bytes
key = replicate 32 9

unfoldable shell : PtyHandle toy_pty
unfolding toy_pty
shell = record { master = 100; reader = 101; writer = 102; child = 103 }

unfoldable new_shell : PtyHandle toy_pty
unfolding toy_pty
new_shell = record { master = 0; reader = 2; writer = 3; child = 1 }

lost_early-IsLost : IsLost toy_crates toy_pty (lit "ws://h") key 80 24 shell.master lost_early
unfolding state_of steps step start after_joining joining_socket
lost_early-IsLost = (refl, inl refl)

outage_replaces_shell_example :
    main_loop toy_crates toy_pty
      (lit "ws://h")
      key
      80
      24
      (lost_early ∷ attempt false [] ∷ attempt true [] ∷ [])
      (some shell)
    ≡ serves new_shell (state_of toy_crates toy_pty (lit "ws://h") key 80 24 (attempt true []))
unfolding spawn_tmux toy_pty state_of steps start new_shell system
outage_replaces_shell_example =
    outage_replaces_shell toy_crates toy_pty (lit "ws://h") key 80 24 (lost_early ∷ [])
      (attempt false []) (attempt true []) [] shell new_shell (lost_early-IsLost, tt) refl refl refl
      refl
