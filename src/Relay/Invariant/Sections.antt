-- ===== src/Relay/Invariant/Sections.antt =====
-- The sections that do not join a room, and what a join relies on.
use ktty.Base.{
  ℕ, suc, ◌+◌, ◌≤◌, ◌<◌, ◌≡◌, refl, Text, Bytes, List, [], ◌∷◌, length, length-append, ◌==◌,
  if◌then◌else◌, arith, Bool-cases, Option-cases, inl, inr, some, word_mod, word_add, word_add_lem,
}
use ktty.Relay.Channel.{Tx, Chans}
use ktty.Relay.Room
use ktty.Relay.Room.{
  Peer, Room, add_peer, retain_pinged, least_active, remove_at, touch, remove_peer, find_peer,
}
use ktty.Relay.RoomMap
use ktty.Relay.RoomMap.{Rooms, get}
use ktty.Relay.State.{Relay, Conn}
use ktty.Relay.Handler.{
  room_or_new, update_activity, send_pong, is_recent, evict_stale_rooms, evict_stale,
}
use ktty.Relay.Invariant.Peers.{
  Ascends, uses, Sub, Sub-Ascends, Sub-length, Sub-uses, retain_pinged-Sub, remove_peer-Sub,
  uses-append, Ascends-append,
}
use ktty.Relay.Invariant.Rooms.{
  RoomOk, AllOk, get-RoomOk, remove-AllOk, AllOk-mono, uses_all, uses_all-remove,
}
use ktty.Relay.Invariant.State.{Inv, same_rooms, replaced_room, touched, Inv-suc}

pub update_activity-Inv :
    (n : ℕ) (r : Relay) (c : Conn) (now : ℕ) → Inv n r → Inv (suc n) (update_activity c now r)
unfolding update_activity
update_activity-Inv n r c now v = elim (Option-cases (get c.room_id r.rooms)) [
  | inl e ↦ rw (e, update_activity) (Inv-suc n r v)
  | inr (room, e) ↦ rw (e, update_activity) (touched n r c now room r.chans v e)
]

pub send_pong-Inv :
    (n : ℕ) (r : Relay) (c : Conn) (d : Bytes) → Inv n r → Inv (suc n) (send_pong c d r)
unfolding send_pong
send_pong-Inv n r c d v = elim (Option-cases (get c.room_id r.rooms)) [
  | inl e ↦ rw (e, send_pong) (Inv-suc n r v)
  | inr (room, e) ↦ elim (Option-cases (find_peer c.peer_id room.peers)) [
    | inl e' ↦ rw (e, e', send_pong) (Inv-suc n r v)
    | inr (p, e') ↦ rw (e, e', send_pong) (same_rooms n r _ v)
  ]
]

-- What is left of a room, if anything is, is as good as the room was.
RoomOk-Sub :
    {n : ℕ} (room : Room) (ps : List Peer)
    → RoomOk n room
    → Sub ps room.peers
    → 1 ≤ length ps
    → RoomOk n (record room { peers = ps })
RoomOk-Sub room ps ok s h = record {
  occupied = h;
  capped = omega (arith, Sub-length s, ok.capped);
  ascends = Sub-Ascends 0 room.next_id s ok.ascends;
  counted = ok.counted;
}

evict_stale_rooms-AllOk :
    (n now : ℕ) (chans : Chans) (rooms : Rooms)
    → AllOk n rooms
    → AllOk n (evict_stale_rooms now chans rooms).1
unfolding evict_stale_rooms
evict_stale_rooms-AllOk n now chans [] a = tt
evict_stale_rooms-AllOk n now chans ((k, room) ∷ rooms) (ok, a) =
    let kept = retain_pinged (is_recent now) chans room.peers in
    let rest = evict_stale_rooms-AllOk n now kept.0 rooms a in
    elim (Bool-cases (length kept.1 == 0)) [
      | inl none_left ↦ rw none_left rest
      | inr some_left ↦
          rw some_left
            (RoomOk-Sub room kept.1 ok (retain_pinged-Sub _ chans room.peers) (ground arith), rest)
    ]

uses_all-evict_stale_rooms-le :
    (now : ℕ) (chans : Chans) (t : Tx) (rooms : Rooms)
    → uses_all t (evict_stale_rooms now chans rooms).1 ≤ uses_all t rooms
unfolding evict_stale_rooms
uses_all-evict_stale_rooms-le now chans t [] = omega arith
uses_all-evict_stale_rooms-le now chans t ((k, room) ∷ rooms) =
    let kept = retain_pinged (is_recent now) chans room.peers in
    let rest = uses_all-evict_stale_rooms-le now kept.0 t rooms in
    let fewer = Sub-uses t (retain_pinged-Sub (is_recent now) chans room.peers) in
    elim (Bool-cases (length kept.1 == 0)) [
      | inl none_left ↦ rw none_left (omega arith)
      | inr some_left ↦ rw some_left (omega arith)
    ]

pub evict_stale-Inv : (n : ℕ) (r : Relay) (now : ℕ) → Inv n r → Inv (suc n) (evict_stale now r)
unfolding evict_stale
evict_stale-Inv n r now v = record {
  ok = AllOk-mono n _ (evict_stale_rooms-AllOk n now r.chans r.rooms v.ok);
  unique = λ t. omega (arith, v.unique t, uses_all-evict_stale_rooms-le now r.chans t r.rooms);
  fresh = λ t h. omega (arith, v.fresh t h, uses_all-evict_stale_rooms-le now r.chans t r.rooms);
}

-- The room that a join finds.
pub record Found (n : ℕ) (room : Room) : Type 0 where
  pub capped : length room.peers ≤ 2
  pub ascends : Ascends 0 room.peers room.next_id
  pub counted : room.next_id ≤ n

pub room_or_new-Found :
    (n : ℕ) (k : Text) (r : Relay) → Inv n r → Found n (room_or_new (get k r.rooms))
unfolding Room.new
room_or_new-Found n k r v = elim (Option-cases (get k r.rooms)) [
  | inl e ↦
      rw (e, room_or_new)
        (record { capped = omega arith; ascends = omega arith; counted = omega arith })
  | inr (room, e) ↦
      let ok = get-RoomOk n k r.rooms v.ok e in
      rw (e, room_or_new)
        (record { capped = ok.capped; ascends = ok.ascends; counted = ok.counted })
]

pub add_peer-RoomOk :
    (n now : ℕ) (tx : Tx) (token : Text) (room : Room) (ps : List Peer)
    → Found n room
    → Sub ps room.peers
    → length ps ≤ 1
    → suc n < word_mod
    → RoomOk (suc n) (add_peer (record room { peers = ps }) tx now token).0
unfolding add_peer
add_peer-RoomOk n now tx token room ps f s h small =
    let next : word_add room.next_id 1 ≡ suc room.next_id =
      omega (arith, word_add_lem, f.counted) in
    record {
      occupied = omega (arith, length-append {0} ps);
      capped = omega (arith, length-append {0} ps);
      ascends =
          rw next
            (Ascends-append 0 room.next_id ps _ (Sub-Ascends 0 room.next_id s f.ascends) refl);
      counted = omega (arith, next, f.counted);
    }

pub uses-add_peer :
    (t tx : Tx) (now : ℕ) (token : Text) (room : Room)
    → uses t (add_peer room tx now token).0.peers ≡ uses t room.peers + (if tx == t then 1 else 0)
unfolding add_peer
uses-add_peer t tx now token room = omega (arith, uses-append t room.peers)

-- A peer leaves, and the room goes with the last one.
pub disconnected :
    (n : ℕ) (r : Relay) (c : Conn) (room : Room) (chans : Chans)
    → Inv n r
    → get c.room_id r.rooms ≡ some room
    → Inv (suc n) (record r {
      rooms =
          if length (remove_peer c.peer_id room.peers) == 0
          then RoomMap.remove c.room_id r.rooms
          else RoomMap.insert c.room_id
              (record room { peers = remove_peer c.peer_id room.peers })
              r.rooms;
      chans = chans;
    })
disconnected n r c room chans v e =
    elim (Bool-cases (length (remove_peer c.peer_id room.peers) == 0)) [
      | inl none_left ↦ rw none_left (record {
        ok = AllOk-mono n _ (remove-AllOk n c.room_id r.rooms v.ok);
        unique = λ t. omega (arith, v.unique t, uses_all-remove t c.room_id r.rooms);
        fresh = λ t h. omega (arith, v.fresh t h, uses_all-remove t c.room_id r.rooms);
      })
      | inr some_left ↦ rw some_left (
          replaced_room n r c.room_id room _ chans v e
            (RoomOk-Sub room _ (get-RoomOk n c.room_id r.rooms v.ok e)
              (remove_peer-Sub c.peer_id room.peers) (ground arith))
            (λ t. Sub-uses t (remove_peer-Sub c.peer_id room.peers)))
    ]
