-- ===== src/Relay/Invariant/State.antt =====
-- The invariant, and what it takes to keep it where rooms change.
use ktty.Base.{ℕ, suc, ◌≤◌, ◌≡◌, refl, Text, arith, some}
use ktty.Relay.Channel.{Tx, Chans}
use ktty.Relay.Room.{Room, touch}
use ktty.Relay.RoomMap
use ktty.Relay.RoomMap.{Rooms, get}
use ktty.Relay.State.{Relay, Conn, init}
use ktty.Relay.Invariant.Peers.{uses, touch-Ascends, length-touch, uses-touch}
use ktty.Relay.Invariant.Rooms.{
  RoomOk, AllOk, get-RoomOk, insert-AllOk, AllOk-mono, uses_all, uses_all-insert,
}

-- `n` sections have run. Every room is `RoomOk`, and every channel belongs to at most one peer, of
-- all rooms, and is older than `next_tx`.
pub record Inv (n : ℕ) (r : Relay) : Type 0 where
  pub ok : AllOk n r.rooms
  pub unique : (t : Tx) → uses_all t r.rooms ≤ 1
  pub fresh : (t : Tx) → r.next_tx ≤ t → uses_all t r.rooms ≡ 0

pub init-Inv : Inv 0 init
unfolding init
init-Inv = record { ok = tt; unique = λ t. omega arith; fresh = λ t h. refl }

-- A section that leaves the rooms alone.
pub same_rooms :
    (n : ℕ) (r : Relay) (chans : Chans) → Inv n r → Inv (suc n) (record r { chans = chans })
same_rooms n r chans v = record {
  ok = AllOk-mono n r.rooms v.ok;
  unique = v.unique;
  fresh = v.fresh;
}

-- A section that replaces one room by one which is as good, and whose peers use no other channel.
pub replaced_room :
    (n : ℕ) (r : Relay) (k : Text) (old room : Room) (chans : Chans)
    → Inv n r
    → get k r.rooms ≡ some old
    → RoomOk n room
    → ((t : Tx) → uses t room.peers ≤ uses t old.peers)
    → Inv (suc n) (record r { rooms = RoomMap.insert k room r.rooms; chans = chans })
replaced_room n r k old room chans v e ok le = record {
  ok = AllOk-mono n _ (insert-AllOk n k room r.rooms ok v.ok);
  unique = λ t. omega (arith, below t, v.unique t);
  fresh = λ t h. omega (arith, below t, v.fresh t h);
}
  where
    below : (t : Tx) → uses_all t (RoomMap.insert k room r.rooms) ≤ uses_all t r.rooms
    below t = omega (arith, le t, (rw e at (uses_all-insert t k room r.rooms)))

RoomOk-touch :
    (n id now : ℕ) (room : Room)
    → RoomOk n room
    → RoomOk n (record room { peers = touch id now room.peers })
RoomOk-touch n id now room ok = record {
  occupied = omega (arith, length-touch id now room.peers, ok.occupied);
  capped = omega (arith, length-touch id now room.peers, ok.capped);
  ascends = touch-Ascends id now 0 room.next_id room.peers ok.ascends;
  counted = ok.counted;
}

pub touched :
    (n : ℕ) (r : Relay) (c : Conn) (now : ℕ) (room : Room) (chans : Chans)
    → Inv n r
    → get c.room_id r.rooms ≡ some room
    → Inv (suc n) (record r {
      rooms =
          RoomMap.insert c.room_id (record room { peers = touch c.peer_id now room.peers }) r.rooms;
      chans = chans;
    })
touched n r c now room chans v e =
    replaced_room n r c.room_id room _ chans v e
      (RoomOk-touch n c.peer_id now room (get-RoomOk n c.room_id r.rooms v.ok e))
      (λ t. omega (arith, uses-touch c.peer_id now t room.peers))

pub Inv-suc : (n : ℕ) (r : Relay) → Inv n r → Inv (suc n) r
Inv-suc n r v = same_rooms n r r.chans v
