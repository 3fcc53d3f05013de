-- ===== src/Relay/Handler.antt =====
-- `handle_socket`: the sections that it runs under the lock, each a function on the shared state,
-- their composition for one connection, and the background task.
use ktty.Base.{
  ℕ, suc, ◌*◌, ◌-◌, ◌/◌, Text, Bytes, Message, text, binary, ping, pong, close, Incoming, frame,
  lit, Bool, true, false, List, [], ◌∷◌, Option, none, some, length, get_elem?, is_some, ltb, leb,
  ◌==◌, if◌then◌else◌,
}
use mathlib.Core.Option
use ktty.Common.Messages.{is_text}
use ktty.Deps.Json.{Json, member_str}
use ktty.Relay.Channel.{Tx, Chans, open_channel, update, try_send}
use ktty.Relay.Room
use ktty.Relay.Room.{
  Peer, Room, add_peer, retain_pinged, least_active, remove_at, send_others, send_all, find_peer,
  touch, remove_peer,
}
use ktty.Relay.RoomMap.{Rooms, get, insert, remove}
use ktty.Relay.State.{Relay, Conn, auth_text, join_text, disconnect_text}

abbrev pub max_text_frame_bytes : ℕ
max_text_frame_bytes = 64 * 1024

-- `Duration::as_secs`, of nanoseconds.
abbrev pub as_secs : ℕ → ℕ
as_secs d = d / 1_000_000_000

-- `map.entry(room_id).or_insert_with(Room::new)`
abbrev pub room_or_new : Option Room → Room
room_or_new none = Room.new
room_or_new (some room) = room

-- `last_activity` is refreshed where the room and the peer are still there.
unfoldable pub update_activity : Conn → ℕ → Relay → Relay
update_activity c now r = elim (get c.room_id r.rooms) [
  | none ↦ r
  | some room ↦ record r {
    rooms = insert c.room_id (record room { peers = touch c.peer_id now room.peers }) r.rooms;
  }
]

unfoldable pub send_pong : Conn → Bytes → Relay → Relay
send_pong c d r = elim (get c.room_id r.rooms) [
  | none ↦ r
  | some room ↦ elim (find_peer c.peer_id room.peers) [
    | none ↦ r
    | some p ↦ record r { chans = (try_send r.chans p.tx (pong d)).0 }
  ]
]

-- `ct_eq` is the constant-time comparison of the crate `subtle`.
module _ (J : Json) (ct_eq : Bytes → Bytes → Bool) where
  -- The room named by the first message, which must be a join.
  unfoldable pub parse_join : Text → Option Text
  parse_join t = elim (J.from_str t) [
    | none ↦ none
    | some val ↦
        if is_text (member_str J val (lit "action")) (lit "join")
        then some (Option.get_or (member_str J val (lit "room_id")) [])
        else none
  ]

  unfoldable pub first_room_id : Incoming → Option Text
  unfolding parse_join
  first_room_id (frame (text t)) =
      if ltb max_text_frame_bytes (length t) then none else elim (parse_join t) [
        | none ↦ none
        | some room_id ↦ if length room_id == 0 then none else some room_id
      ]
  first_room_id _ = none

  unfoldable pub evict_at : List Peer → Chans → ℕ → Chans × List Peer
  evict_at peers chans idx = elim (get_elem? peers idx) [
    | none ↦ (chans, peers)
    | some p ↦ ((try_send chans p.tx (disconnect_text J p.id)).0, remove_at peers idx)
  ]

  -- Room for one more: with two peers or more, the least recently active one is put out.
  unfoldable pub make_room : Chans → List Peer → Chans × List Peer
  unfolding evict_at
  make_room chans peers =
      if leb 2 (length peers)
      then elim (least_active peers) [ none ↦ (chans, peers) | some idx ↦ evict_at peers chans idx ]
      else (chans, peers)

  -- The new channel, and the section that enters the peer into the room.
  unfoldable pub register : Text → ℕ → Text → Relay → Relay × Conn × Tx
  unfolding make_room retain_pinged
  register room_id now token r =
      let room = room_or_new (get room_id r.rooms) in
      let tx = r.next_tx in
      let (pinged, live) = retain_pinged (λ p. true) (update r.chans tx open_channel) room.peers in
      let (chans, peers) = make_room pinged live in
      let (room', id) = add_peer (record room { peers = peers }) tx now token in
      (
        record r { rooms = insert room_id room' r.rooms; chans = chans; next_tx = suc tx },
        record { room_id = room_id; peer_id = id },
        tx,
      )

  unfoldable pub send_token : Tx → Text → Relay → Relay
  send_token tx token r = record r { chans = (try_send r.chans tx (auth_text J token)).0 }

  unfoldable pub notify_join : Conn → Relay → Relay
  notify_join c r = elim (get c.room_id r.rooms) [
    | none ↦ r
    | some room ↦ record r {
      chans = send_others c.peer_id (join_text J c.room_id) r.chans room.peers;
    }
  ]

  -- Does the connection's slot still hold the token that the message carries?
  unfoldable pub token_ok : Conn → J.Value → Relay → Bool
  token_ok c val r =
      let msg_auth = Option.get_or (member_str J val (lit "auth")) [] in
      elim (get c.room_id r.rooms) [
        | none ↦ false
        | some room ↦ elim (find_peer c.peer_id room.peers) [
          | none ↦ false
          | some p ↦ ct_eq p.auth_token msg_auth
        ]
      ]

  -- The checks that a text frame must pass.
  unfoldable pub admits : Conn → Text → Relay → Bool
  admits c t r =
      if ltb max_text_frame_bytes (length t)
      then false
      else elim (J.from_str t) [ none ↦ false | some val ↦ token_ok c val r ]

  -- The message without its `auth` member.
  unfoldable pub strip_auth : Message → Message
  strip_auth (text t) = elim (J.from_str t) [
    | none ↦ text t
    | some val ↦
        if is_some (J.get val (lit "auth"))
        then text (J.to_string (J.remove val (lit "auth")))
        else text t
  ]
  strip_auth m = m

  unfoldable pub forward : Conn → ℕ → Message → Relay → Relay
  unfolding strip_auth
  forward c now m r = elim (get c.room_id r.rooms) [
    | none ↦ r
    | some room ↦
        let peers = touch c.peer_id now room.peers in
        record r {
          rooms = insert c.room_id (record room { peers = peers }) r.rooms;
          chans = send_others c.peer_id (strip_auth m) r.chans peers;
        }
  ]

  -- The body of the read loop: the new state, and whether the loop goes on.
  unfoldable pub handle_message : Conn → ℕ → Message → Relay → Relay × Bool
  handle_message c now close r = (r, false)
  handle_message c now (ping d) r = (update_activity c now (send_pong c d r), true)
  handle_message c now (pong d) r = (update_activity c now r, true)
  handle_message c now (text t) r = (if admits c t r then forward c now (text t) r else r, true)
  handle_message c now (binary b) r = (forward c now (binary b) r, true)

  unfoldable pub disconnect : Conn → Relay → Relay
  disconnect c r = elim (get c.room_id r.rooms) [
    | none ↦ r
    | some room ↦
        let peers = remove_peer c.peer_id room.peers in
        let chans = send_all (disconnect_text J c.peer_id) r.chans peers in
        record r {
          rooms =
              if length peers == 0
              then remove c.room_id r.rooms
              else insert c.room_id (record room { peers = peers }) r.rooms;
          chans = chans;
        }
  ]

-- A peer is kept while it was active within the last minute.
abbrev pub is_recent : ℕ → Peer → Bool
is_recent now p = ltb (as_secs (now - p.last_activity)) 60

-- One round of the background task.
unfoldable pub evict_stale_rooms : ℕ → Chans → Rooms → Chans × Rooms
evict_stale_rooms now chans [] = (chans, [])
evict_stale_rooms now chans ((k, room) ∷ rooms) =
    let (chans1, peers) = retain_pinged (is_recent now) chans room.peers in
    let (chans2, rest) = evict_stale_rooms now chans1 rooms in
    (chans2, if length peers == 0 then rest else (k, record room { peers = peers }) ∷ rest)

unfoldable pub evict_stale : ℕ → Relay → Relay
unfolding evict_stale_rooms
evict_stale now r =
    let (chans, rooms) = evict_stale_rooms now r.chans r.rooms in
    record r { rooms = rooms; chans = chans }
