-- ===== src/Relay/Membership/Ages.antt =====
-- The peers of the map that were active within the minute before the last round of the background
-- task.
use ktty.Base.{
  ℕ, ◌+◌, ◌*◌, ◌≤◌, ◌<◌, ◌≡◌, Text, ping, List, [], ◌∷◌, length, ◌==◌, arith, Bool-cases, inl, inr,
  some, All, text_eq, ltb→lt, subst,
}
use mathlib.Core.Option.{some-injective}
use ktty.Relay.Channel.{Chans, try_send}
use ktty.Relay.Room.{Peer, Room, retain_pinged, touch}
use ktty.Relay.RoomMap.{Rooms, get, insert, remove}
use ktty.Relay.Handler.{is_recent, evict_stale_rooms}
use ktty.Relay.Invariant.Peers.{Sub, nil, skip, keep}

-- Active within the minute before `swept`.
abbrev pub Young : ℕ → Peer → Type 0
Young swept p = swept < p.last_activity + 60 * 1_000_000_000

abbrev pub AllYoung : ℕ → Rooms → Type 0
AllYoung swept [] = Unit {0}
AllYoung swept ((k, room) ∷ rooms) = All (Young swept) room.peers × AllYoung swept rooms

pub Sub-Young :
    {ps qs : List Peer} (swept : ℕ) → Sub ps qs → All (Young swept) qs → All (Young swept) ps
Sub-Young swept nil a = a
Sub-Young swept (skip s) (h, a) = Sub-Young swept s a
Sub-Young swept (keep s) (h, a) = (h, Sub-Young swept s a)

pub get-Young :
    (swept : ℕ) (k : Text) (room : Room) (rooms : Rooms)
    → AllYoung swept rooms
    → get k rooms ≡ some room
    → All (Young swept) room.peers
unfolding get
get-Young swept k room [] a e = cc
get-Young swept k room ((j, r) ∷ rooms) (h, a) e = elim (Bool-cases (text_eq j k)) [
  | inl same ↦ subst (λ (q : Room). All (Young swept) q.peers) (some-injective r _ (rw same at e)) h
  | inr other ↦ get-Young swept k room rooms a (rw other at e)
]

pub insert-Young :
    (swept : ℕ) (k : Text) (room : Room) (rooms : Rooms)
    → All (Young swept) room.peers
    → AllYoung swept rooms
    → AllYoung swept (insert k room rooms)
unfolding insert
insert-Young swept k room [] h a = (h, tt)
insert-Young swept k room ((j, r) ∷ rooms) h (h', a) = elim (Bool-cases (text_eq j k)) [
  | inl same ↦ rw same (h, a)
  | inr other ↦ rw other (h', insert-Young swept k room rooms h a)
]

pub remove-Young :
    (swept : ℕ) (k : Text) (rooms : Rooms) → AllYoung swept rooms → AllYoung swept (remove k rooms)
unfolding remove
remove-Young swept k [] a = tt
remove-Young swept k ((j, r) ∷ rooms) (h, a) = elim (Bool-cases (text_eq j k)) [
  | inl same ↦ rw same a
  | inr other ↦ rw other (h, remove-Young swept k rooms a)
]

pub touch-Young :
    (swept id now : ℕ) (ps : List Peer)
    → swept ≤ now
    → All (Young swept) ps
    → All (Young swept) (touch id now ps)
unfolding touch
touch-Young swept id now [] le a = tt
touch-Young swept id now (p ∷ ps) le (h, a) = elim (Bool-cases (p.id == id)) [
  | inl same ↦ rw same (omega arith, a)
  | inr other ↦ rw other (h, touch-Young swept id now ps le a)
]

-- What a round keeps is young at its time.
retain_pinged-Young :
    (now : ℕ) (chans : Chans) (ps : List Peer)
    → All (Young now) (retain_pinged (is_recent now) chans ps).1
unfolding retain_pinged
retain_pinged-Young now chans [] = tt
retain_pinged-Young now chans (p ∷ ps) = elim (Bool-cases (is_recent now p)) [
  | inr old ↦ rw old (retain_pinged-Young now chans ps)
  | inl recent ↦
      let young : Young now p = omega (arith, ltb→lt _ _ recent) in
      let rest = retain_pinged-Young now (try_send chans p.tx (ping [])).0 ps in
      elim (Bool-cases (try_send chans p.tx (ping [])).1) [
        | inl sent ↦ rw (recent, sent) (young, rest)
        | inr full ↦ rw (recent, full) rest
      ]
]

pub evict_stale_rooms-Young :
    (now : ℕ) (chans : Chans) (rooms : Rooms) → AllYoung now (evict_stale_rooms now chans rooms).1
unfolding evict_stale_rooms
evict_stale_rooms-Young now chans [] = tt
evict_stale_rooms-Young now chans ((k, room) ∷ rooms) =
    let kept = retain_pinged (is_recent now) chans room.peers in
    let rest = evict_stale_rooms-Young now kept.0 rooms in
    elim (Bool-cases (length kept.1 == 0)) [
      | inl none_left ↦ rw none_left rest
      | inr some_left ↦ rw some_left (retain_pinged-Young now chans room.peers, rest)
    ]
