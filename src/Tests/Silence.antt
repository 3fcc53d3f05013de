-- ===== src/Tests/Silence.antt =====
-- A room over the first rounds of the background task.
use ktty.Base.{◌-◌, ◌<◌, ◌≡◌, refl, lit, List, [], ◌∷◌, some, arith, word_add, text_eq, All}
use ktty.Relay.Channel.{try_send}
use ktty.Relay.Room
use ktty.Relay.Room.{Peer, Room, add_peer, retain_pinged, least_active}
use ktty.Relay.RoomMap.{get, insert}
use ktty.Relay.State.{init}
use ktty.Relay.Handler.{as_secs, register, evict_stale}
use ktty.Relay.Socket.{Section, registers, sweeps, run}
use ktty.Relay.Membership.Silence.{silent_peers_leave}
use ktty.Tests.ToyJson.{toy_json}
use ktty.Tests.Relay.{room_a, peer0, peer1}

-- A second peer joins after the first round of the background task.
abbrev evening : List Section
evening =
    registers room_a 5 (lit "t0")
    ∷ sweeps 31_000_000_000
    ∷ registers room_a 32_000_000_000 (lit "t1")
    ∷ []

abbrev evening_room : Room
evening_room = record {
  peers = peer0 ∷ record peer1 { last_activity = 32_000_000_000 } ∷ [];
  next_id = 2;
}

evening_found : get room_a (run toy_json text_eq evening init).rooms ≡ some evening_room
unfolding run register get insert add_peer retain_pinged try_send least_active text_eq word_add init
    Room.new evict_stale
evening_found = refl

silent_peers_leave_example :
    All (λ p. as_secs (60_000_000_000 - p.last_activity) < 90) evening_room.peers
silent_peers_leave_example =
    silent_peers_leave toy_json text_eq evening 60_000_000_000 room_a evening_room
      (omega arith, (omega arith, (omega arith, tt))) (omega arith) evening_found
