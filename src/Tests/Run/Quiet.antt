-- ===== src/Tests/Run/Quiet.antt =====
-- The same connection once the relay falls silent, or the client leaves.
use ktty.Base.{◌≡◌, refl, text, frame, List, [], ◌∷◌, ◌++◌, lit, text_eq, is_char_boundary, All}
use ktty.Agent.Session.Bridge.{BridgeEvent, pty_output, socket, tick, writer_ended}
use ktty.Agent.Session.Run.{Phase, steps}
use ktty.Agent.Session.Run.Silence.{IsOver, IsUnheard, silence_ends, handshake_deaf}
use ktty.Tests.ToyCrates.{toy_serde}
use ktty.Tests.ToyCiphers.{toy_crates}
use ktty.Tests.Run.{session, seeds, join_event, s1, s3, s1_phase, s3_phase, s3_heard}

abbrev quiet : List BridgeEvent
quiet = pty_output (lit "b") ∷ tick 20_000_000_000 ∷ writer_ended ∷ []

silence_ends_example :
    IsOver toy_crates session seeds
      (steps toy_crates session seeds (quiet ++ tick 60_000_000_000 ∷ []) s3)
silence_ends_example =
    silence_ends toy_crates session seeds quiet 60_000_000_000 s3 (rw s3_phase refl)
      (refl, (refl, (refl, tt))) s3_heard

-- The client leaves in the middle of its handshake, and another one joins.
abbrev notices : List BridgeEvent
notices = socket 5 (frame (text (lit "{\"type\":\"peer_disconnect\"}"))) ∷ join_event ∷ []

notices-IsUnheard : All (IsUnheard toy_crates session seeds) notices
unfolding toy_crates toy_serde text_eq is_char_boundary
notices-IsUnheard = ((5, _, refl, refl, refl), ((3, _, refl, refl, refl), tt))

handshake_deaf_example :
    ((steps toy_crates session seeds notices s1).phase
      ≡ Phase.shaking (toy_crates.kem.generate (seeds 0)).0)
    × ((steps toy_crates session seeds notices s1).agent.outbox ≡ s1.agent.outbox)
handshake_deaf_example =
    handshake_deaf toy_crates session seeds (toy_crates.kem.generate (seeds 0)).0 notices s1
      s1_phase notices-IsUnheard
