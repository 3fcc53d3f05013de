-- ===== src/Relay/Membership/Leaving.antt =====
-- The end of a connection.
use ktty.Base.{
  ℕ, ◌≤◌, ◌≡◌, refl, ap, ◌∙◌, Bytes, Bool, true, false, List, [], ◌∷◌, length, ◌==◌, if◌then◌else◌,
  arith, none, some, sym, text_eq_refl,
}
use ktty.Deps.Json.{Json}
use ktty.Relay.Channel.{Tx, offered}
use ktty.Relay.Room.{Peer, Room, find_peer, remove_peer}
use ktty.Relay.RoomMap.{get}
use ktty.Relay.State.{Relay, Conn, disconnect_text}
use ktty.Relay.Handler.{disconnect}
use ktty.Relay.Invariant.Peers.{uses, Sub-uses, remove_peer-Sub}
use ktty.Relay.Invariant.Rooms.{uses-le-uses_all, get-insert}
use ktty.Relay.Invariant.State.{Inv}
use ktty.Relay.Delivery.Sending.{receives, receives_any, send_all_lem}

receives_any-remove_peer :
    (id : ℕ) (t : Tx) (ps : List Peer) → receives_any t (remove_peer id ps) ≡ receives id t ps
receives_any-remove_peer id t [] = refl
receives_any-remove_peer id t (p ∷ ps) = ground (arith, receives_any-remove_peer id t ps)

remove_peer_absent : (id : ℕ) (ps : List Peer) → find_peer id ps ≡ none → remove_peer id ps ≡ ps
unfolding find_peer
remove_peer_absent id [] h = refl
remove_peer_absent id (p ∷ ps) h = ground (arith, remove_peer_absent id ps)

not_empty : (t : Tx) (ps : List Peer) → receives_any t ps ≡ true → (length ps == 0) ≡ false
not_empty t [] h = cc
not_empty t (p ∷ ps) h = ground arith

module _ (J : Json) (ct_eq : Bytes → Bytes → Bool) where
  -- In a state that meets the invariant, when a connection ends whose room is there, the relay
  -- offers a `peer_disconnect` with its id once to the channel of each peer of its room that has
  -- another id, and to no other channel. It does so whether or not the connection still had a slot
  -- in the room.
  pub disconnect_notifies :
      (n : ℕ) (c : Conn) (r : Relay) (room : Room) (tx : Tx)
      → Inv n r
      → get c.room_id r.rooms ≡ some room
      → (disconnect J ct_eq c r).chans tx ≡ (
          if receives c.peer_id tx room.peers
          then offered (r.chans tx) (disconnect_text J c.peer_id)
          else r.chans tx)
  unfolding disconnect
  disconnect_notifies n c r room tx v e =
      let once : uses tx (remove_peer c.peer_id room.peers) ≤ 1 = omega (
        arith,
        Sub-uses tx (remove_peer-Sub c.peer_id room.peers),
        v.unique tx,
        uses-le-uses_all {room = room} tx c.room_id r.rooms e,
      ) in
      rw (e, disconnect)
        (send_all_lem (disconnect_text J c.peer_id) tx r.chans (remove_peer c.peer_id room.peers)
            once
          ∙ ap (λ b. if b then offered (r.chans tx) (disconnect_text J c.peer_id) else r.chans tx)
              (receives_any-remove_peer c.peer_id tx room.peers))

  -- In a state that meets the invariant, a connection whose slot has been given away already, by
  -- an eviction, leaves the peers of the room as they are when it ends, and yet each of them is
  -- offered a `peer_disconnect`.
  pub evicted_end_misleads :
      (n : ℕ) (c : Conn) (r : Relay) (room : Room) (tx : Tx)
      → Inv n r
      → get c.room_id r.rooms ≡ some room
      → find_peer c.peer_id room.peers ≡ none
      → receives_any tx room.peers ≡ true
      → (get c.room_id (disconnect J ct_eq c r).rooms ≡ some room)
        × ((disconnect J ct_eq c r).chans tx ≡ offered (r.chans tx) (disconnect_text J c.peer_id))
  unfolding disconnect
  evicted_end_misleads n c r room tx v e gone member =
      let same = remove_peer_absent c.peer_id room.peers gone in
      let told : receives c.peer_id tx room.peers ≡ true =
        sym (receives_any-remove_peer c.peer_id tx room.peers)
        ∙ ap (receives_any tx) same
        ∙ member in
      (
        rw (e, disconnect, same, not_empty tx room.peers member)
            (get-insert c.room_id c.room_id room r.rooms ∙ rw (text_eq_refl c.room_id)),
        rw told at (disconnect_notifies n c r room tx v e),
      )
