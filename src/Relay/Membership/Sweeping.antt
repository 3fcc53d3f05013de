-- ===== src/Relay/Membership/Sweeping.antt =====
-- The background task.
use ktty.Base.{
  ℕ, ◌≤◌, ◌≡◌, refl, ◌∙◌, ◌&&◌, not, List, [], ◌∷◌, length, ◌==◌, if◌then◌else◌, arith, retain,
}
use ktty.Relay.Channel.{Tx, Chans, refuses}
use ktty.Relay.Room.{Peer, retain_pinged}
use ktty.Relay.RoomMap.{Rooms}
use ktty.Relay.State.{Relay}
use ktty.Relay.Handler.{is_recent, evict_stale_rooms, evict_stale}
use ktty.Relay.Invariant.Rooms.{uses_all}
use ktty.Relay.Invariant.State.{Inv}
use ktty.Relay.Delivery.Sending.{retain_pinged_unused, retain_pinged_lem}

-- The peers that should stay: active within the last minute, with a channel that takes a message.
abbrev pub healthy : ℕ → Chans → List Peer → List Peer
healthy now chans = retain (λ p. is_recent now p && not (refuses (chans p.tx)))

-- The rooms with their healthy peers, and no room that has none.
abbrev pub swept : ℕ → Chans → Rooms → Rooms
swept now chans [] = []
swept now chans ((k, room) ∷ rooms) =
    let rest = swept now chans rooms in
    if length (healthy now chans room.peers) == 0
    then rest
    else (k, record room { peers = healthy now chans room.peers }) ∷ rest

evict_stale_rooms_lem :
    (now : ℕ) (base chans : Chans) (rooms : Rooms)
    → ((t : Tx) → 1 ≤ uses_all t rooms → chans t ≡ base t)
    → ((t : Tx) → uses_all t rooms ≤ 1)
    → (evict_stale_rooms now chans rooms).1 ≡ swept now base rooms
unfolding evict_stale_rooms
evict_stale_rooms_lem now base chans [] agree unique = refl
evict_stale_rooms_lem now base chans ((k, room) ∷ rooms) agree unique =
    let kept = retain_pinged (is_recent now) chans room.peers in
    let here =
      retain_pinged_lem (is_recent now) base chans room.peers (λ t h. agree t (omega arith))
        (λ t. omega (arith, unique t)) in
    let rest =
      evict_stale_rooms_lem now base kept.0 rooms
        (λ t h.
          retain_pinged_unused (is_recent now) t chans room.peers (omega (arith, unique t))
          ∙ agree t (omega arith))
        (λ t. omega (arith, unique t)) in
    rw (here, rest)

-- In a state that meets the invariant, a round of the background task keeps of every room exactly
-- the peers that were active within the last minute and whose channel takes a message, in order,
-- and drops exactly the rooms that are left with no peer.
pub evict_stale-swept :
    (n now : ℕ) (r : Relay) → Inv n r → (evict_stale now r).rooms ≡ swept now r.chans r.rooms
unfolding evict_stale
evict_stale-swept n now r v =
    evict_stale_rooms_lem now r.chans r.chans r.rooms (λ t h. refl) v.unique
