-- ===== src/Relay/Membership/Silence.antt =====
-- How long a silent peer can stay, by the clock of the background task.
use ktty.Base.{
  ℕ, ◌+◌, ◌-◌, ◌≤◌, ◌<◌, ◌≡◌, refl, Text, Bytes, Message, Bool, true, List, [], ◌∷◌, length, ◌==◌,
  leb, get_elem?, arith, Bool-cases, Option-cases, inl, inr, some, All, All-append, All-map,
}
use ktty.Deps.Json.{Json}
use ktty.Relay.Channel.{Chans, open_channel, update}
use ktty.Relay.Room
use ktty.Relay.Room.{
  Peer, Room, add_peer, retain_pinged, least_active, remove_at, touch, remove_peer, find_peer,
}
use ktty.Relay.RoomMap.{Rooms, get, insert}
use ktty.Relay.State.{Relay, Conn, init}
use ktty.Relay.Handler.{
  as_secs, room_or_new, evict_at, make_room, register, send_token, send_pong, notify_join, forward,
  disconnect, update_activity, evict_stale,
}
use ktty.Relay.Entry.{sweep_interval}
use ktty.Relay.Socket.{
  Section, registers, sends_token, notifies, pongs, updates, forwards, disconnects, sweeps,
  delivers, closes, deliver, close_channel, step, run,
}
use ktty.Relay.Invariant.Peers.{
  Sub, Sub-refl, Sub-trans, retain_pinged-Sub, remove_at-Sub, remove_peer-Sub,
}
use ktty.Relay.Membership.Ages.{
  Young, AllYoung, Sub-Young, get-Young, insert-Young, remove-Young, touch-Young,
  evict_stale_rooms-Young,
}

-- When a section runs that reads the clock.
abbrev pub NotBefore : ℕ → Section → Type 0
NotBefore swept (registers k now token) = swept ≤ now
NotBefore swept (updates c now) = swept ≤ now
NotBefore swept (forwards c now m) = swept ≤ now
NotBefore swept (sweeps now) = swept ≤ now
NotBefore swept s = Unit {0}

abbrev pub sweep_time : ℕ → Section → ℕ
sweep_time swept (sweeps now) = now
sweep_time swept s = swept

-- No section runs before the last round before it.
abbrev pub IsOrdered : ℕ → List Section → Type 0
IsOrdered swept [] = Unit {0}
IsOrdered swept (s ∷ ss) = NotBefore swept s × IsOrdered (sweep_time swept s) ss

-- The time of the last round.
abbrev pub last_sweep : ℕ → List Section → ℕ
last_sweep swept [] = swept
last_sweep swept (s ∷ ss) = last_sweep (sweep_time swept s) ss

room_or_new-Young :
    (swept : ℕ) (k : Text) (rooms : Rooms)
    → AllYoung swept rooms
    → All (Young swept) (room_or_new (get k rooms)).peers
unfolding Room.new
room_or_new-Young swept k rooms a = elim (Option-cases (get k rooms)) [
  | inl e ↦ rw (e, room_or_new) tt
  | inr (room, e) ↦ rw (e, room_or_new) (get-Young swept k room rooms a e)
]

touched-Young :
    (swept now : ℕ) (c : Conn) (room : Room) (rooms : Rooms)
    → swept ≤ now
    → AllYoung swept rooms
    → get c.room_id rooms ≡ some room
    → AllYoung swept
        (insert c.room_id (record room { peers = touch c.peer_id now room.peers }) rooms)
touched-Young swept now c room rooms le a e =
    insert-Young swept c.room_id _ rooms
      (touch-Young swept c.peer_id now room.peers le (get-Young swept c.room_id room rooms a e)) a

update_activity-Young :
    (swept now : ℕ) (c : Conn) (r : Relay)
    → swept ≤ now
    → AllYoung swept r.rooms
    → AllYoung swept (update_activity c now r).rooms
unfolding update_activity
update_activity-Young swept now c r le a = elim (Option-cases (get c.room_id r.rooms)) [
  | inl e ↦ rw (e, update_activity) a
  | inr (room, e) ↦ rw (e, update_activity) (touched-Young swept now c room r.rooms le a e)
]

send_pong-rooms : (c : Conn) (d : Bytes) (r : Relay) → (send_pong c d r).rooms ≡ r.rooms
unfolding send_pong
send_pong-rooms c d r = elim (Option-cases (get c.room_id r.rooms)) [
  | inl e ↦ rw (e, send_pong) refl
  | inr (room, e) ↦ elim (Option-cases (find_peer c.peer_id room.peers)) [
    | inl e' ↦ rw (e, e', send_pong) refl
    | inr (p, e') ↦ rw (e, e', send_pong) refl
  ]
]

module _ (J : Json) (ct_eq : Bytes → Bytes → Bool) where
  make_room-Sub : (chans : Chans) (ps : List Peer) → Sub (make_room J ct_eq chans ps).1 ps
  unfolding make_room evict_at
  make_room-Sub chans ps = elim (Bool-cases (leb 2 (length ps))) [
    | inr room_left ↦ rw (room_left, make_room) (Sub-refl ps)
    | inl full ↦ elim (Option-cases (least_active ps)) [
      | inl e ↦ rw (full, e, make_room) (Sub-refl ps)
      | inr (i, e) ↦ elim (Option-cases (get_elem? ps i)) [
        | inl e' ↦ rw (full, e, e', make_room, evict_at) (Sub-refl ps)
        | inr (p, e') ↦ rw (full, e, e', make_room, evict_at) (remove_at-Sub ps i)
      ]
    ]
  ]

  forward-Young :
      (swept now : ℕ) (c : Conn) (m : Message) (r : Relay)
      → swept ≤ now
      → AllYoung swept r.rooms
      → AllYoung swept (forward J ct_eq c now m r).rooms
  unfolding forward
  forward-Young swept now c m r le a = elim (Option-cases (get c.room_id r.rooms)) [
    | inl e ↦ rw (e, forward) a
    | inr (room, e) ↦ rw (e, forward) (touched-Young swept now c room r.rooms le a e)
  ]

  notify_join-rooms : (c : Conn) (r : Relay) → (notify_join J ct_eq c r).rooms ≡ r.rooms
  unfolding notify_join
  notify_join-rooms c r = elim (Option-cases (get c.room_id r.rooms)) [
    | inl e ↦ rw (e, notify_join) refl
    | inr (room, e) ↦ rw (e, notify_join) refl
  ]

  disconnect-Young :
      (swept : ℕ) (c : Conn) (r : Relay)
      → AllYoung swept r.rooms
      → AllYoung swept (disconnect J ct_eq c r).rooms
  unfolding disconnect
  disconnect-Young swept c r a = elim (Option-cases (get c.room_id r.rooms)) [
    | inl e ↦ rw (e, disconnect) a
    | inr (room, e) ↦
        let left =
          Sub-Young swept (remove_peer-Sub c.peer_id room.peers)
            (get-Young swept c.room_id room r.rooms a e) in
        elim (Bool-cases (length (remove_peer c.peer_id room.peers) == 0)) [
          | inl none_left ↦ rw (e, disconnect, none_left) (remove-Young swept c.room_id r.rooms a)
          | inr some_left ↦
              rw (e, disconnect, some_left) (insert-Young swept c.room_id _ r.rooms left a)
        ]
  ]

  register-Young :
      (swept now : ℕ) (k token : Text) (r : Relay)
      → swept ≤ now
      → AllYoung swept r.rooms
      → AllYoung swept (register J ct_eq k now token r).0.rooms
  unfolding register add_peer
  register-Young swept now k token r le a =
      let room = room_or_new (get k r.rooms) in
      let live = retain_pinged (λ p. true) (update r.chans r.next_tx open_channel) room.peers in
      let sub =
        Sub-trans (make_room-Sub live.0 live.1)
          (retain_pinged-Sub (λ p. true) (update r.chans r.next_tx open_channel) room.peers) in
      let left = Sub-Young swept sub (room_or_new-Young swept k r.rooms a) in
      insert-Young swept k _ r.rooms (All-append (Young swept) _ _ left (omega arith, tt)) a

  step-Young :
      (swept : ℕ) (s : Section) (r : Relay)
      → NotBefore swept s
      → AllYoung swept r.rooms
      → AllYoung (sweep_time swept s) (step J ct_eq s r).rooms
  unfolding step send_token deliver close_channel evict_stale
  step-Young swept (registers k now token) r le a = register-Young swept now k token r le a
  step-Young swept (sends_token tx token) r le a = a
  step-Young swept (notifies c) r le a = rw (notify_join-rooms c r) a
  step-Young swept (pongs c d) r le a = rw (send_pong-rooms c d r) a
  step-Young swept (updates c now) r le a = update_activity-Young swept now c r le a
  step-Young swept (forwards c now m) r le a = forward-Young swept now c m r le a
  step-Young swept (disconnects c) r le a = disconnect-Young swept c r a
  step-Young swept (sweeps now) r le a = evict_stale_rooms-Young now r.chans r.rooms
  step-Young swept (delivers tx) r le a = a
  step-Young swept (closes tx) r le a = a

  run-Young :
      (swept : ℕ) (ss : List Section) (r : Relay)
      → IsOrdered swept ss
      → AllYoung swept r.rooms
      → AllYoung (last_sweep swept ss) (run J ct_eq ss r).rooms
  unfolding run
  run-Young swept [] r ordered a = a
  run-Young swept (s ∷ ss) r (now, later) a =
      run-Young (sweep_time swept s) ss (step J ct_eq s r) later (step-Young swept s r now a)

  -- From an empty relay, over any sections of any handlers in any order, none of which reads the clock
  -- before the round of the background task that precedes it: until 30 seconds after the last round,
  -- each peer of each room was active within the last 90 seconds.
  pub silent_peers_leave :
      (ss : List Section) (later : ℕ) (k : Text) (room : Room)
      → IsOrdered 0 ss
      → later ≤ last_sweep 0 ss + sweep_interval
      → get k (run J ct_eq ss init).rooms ≡ some room
      → All (λ p. as_secs (later - p.last_activity) < 90) room.peers
  unfolding init
  silent_peers_leave ss later k room ordered soon found =
      All-map room.peers (λ p young. omega arith)
        (get-Young (last_sweep 0 ss) k room _ (run-Young 0 ss init ordered tt) found)
