-- ===== src/Relay/Invariant/Rooms.antt =====
-- The map of rooms: each room by itself, and the references used over all of them.
use ktty.Base.{
  ℕ, suc, ◌+◌, ◌≤◌, ◌<◌, ◌≡◌, refl, ap, Text, List, [], ◌∷◌, length, ltb, if◌then◌else◌, arith,
  Bool-cases, inl, inr, none, some, text_eq, text_eq_iff, subst,
}
use mathlib.Core.Option.{some-injective}
use ktty.Relay.Channel.{Tx}
use ktty.Relay.Room
use ktty.Relay.Room.{Peer, Room, min_from, least_active, remove_at}
use ktty.Relay.RoomMap.{Rooms, get, insert, remove}
use ktty.Relay.Handler.{room_or_new}
use ktty.Relay.Invariant.Peers.{Ascends, uses}

-- One or two peers, with ids that ascend and are below the next id, which is at most `n`.
pub record RoomOk (n : ℕ) (room : Room) : Type 0 where
  pub occupied : 1 ≤ length room.peers
  pub capped : length room.peers ≤ 2
  pub ascends : Ascends 0 room.peers room.next_id
  pub counted : room.next_id ≤ n

abbrev pub AllOk : ℕ → Rooms → Type 0
AllOk n [] = Unit {0}
AllOk n ((k, room) ∷ rooms) = RoomOk n room × AllOk n rooms

pub get-RoomOk :
    {room : Room} (n : ℕ) (k : Text) (rooms : Rooms)
    → AllOk n rooms
    → get k rooms ≡ some room
    → RoomOk n room
unfolding get
get-RoomOk n k [] a e = cc
get-RoomOk n k ((j, r) ∷ rooms) (ok, a) e = elim (Bool-cases (text_eq j k)) [
  | inl same ↦ subst (RoomOk n) (some-injective r _ (rw same at e)) ok
  | inr other ↦ get-RoomOk n k rooms a (rw other at e)
]

pub insert-AllOk :
    (n : ℕ) (k : Text) (room : Room) (rooms : Rooms)
    → RoomOk n room
    → AllOk n rooms
    → AllOk n (insert k room rooms)
unfolding insert
insert-AllOk n k room [] ok a = (ok, tt)
insert-AllOk n k room ((j, r) ∷ rooms) ok (ok', a) = elim (Bool-cases (text_eq j k)) [
  | inl same ↦ rw same (ok, a)
  | inr other ↦ rw other (ok', insert-AllOk n k room rooms ok a)
]

pub remove-AllOk : (n : ℕ) (k : Text) (rooms : Rooms) → AllOk n rooms → AllOk n (remove k rooms)
unfolding remove
remove-AllOk n k [] a = tt
remove-AllOk n k ((j, r) ∷ rooms) (ok, a) = elim (Bool-cases (text_eq j k)) [
  | inl same ↦ rw same a
  | inr other ↦ rw other (ok, remove-AllOk n k rooms a)
]

RoomOk-mono : {n : ℕ} {room : Room} → RoomOk n room → RoomOk (suc n) room
RoomOk-mono ok = record {
  occupied = ok.occupied;
  capped = ok.capped;
  ascends = ok.ascends;
  counted = omega (arith, ok.counted);
}

pub AllOk-mono : (n : ℕ) (rooms : Rooms) → AllOk n rooms → AllOk (suc n) rooms
AllOk-mono n [] a = tt
AllOk-mono n (_ ∷ rooms) (ok, a) = (RoomOk-mono ok, AllOk-mono n rooms a)

-- How many of the peers of all rooms use a channel.
abbrev pub uses_all : Tx → Rooms → ℕ
uses_all t [] = 0
uses_all t ((k, room) ∷ rooms) = uses t room.peers + uses_all t rooms

pub uses_all-insert :
    (t : Tx) (k : Text) (room : Room) (rooms : Rooms)
    → uses_all t (insert k room rooms) + uses t (room_or_new (get k rooms)).peers
      ≡ uses_all t rooms + uses t room.peers
unfolding insert get Room.new
uses_all-insert t k room [] = omega arith
uses_all-insert t k room ((j, r) ∷ rooms) = elim (Bool-cases (text_eq j k)) [
  | inl same ↦ rw same (omega arith)
  | inr other ↦ rw other (omega (arith, uses_all-insert t k room rooms))
]

pub uses_all-remove :
    (t : Tx) (k : Text) (rooms : Rooms)
    → uses_all t (remove k rooms) + uses t (room_or_new (get k rooms)).peers ≡ uses_all t rooms
unfolding remove get Room.new
uses_all-remove t k [] = omega arith
uses_all-remove t k ((j, r) ∷ rooms) = elim (Bool-cases (text_eq j k)) [
  | inl same ↦ rw same (omega arith)
  | inr other ↦ rw other (omega (arith, uses_all-remove t k rooms))
]

-- The room of another key is untouched.
pub get-insert :
    (k j : Text) (room : Room) (rooms : Rooms)
    → get j (insert k room rooms) ≡ (if text_eq k j then some room else get j rooms)
unfolding get insert
get-insert k j room [] = refl
get-insert k j room ((i, r) ∷ rooms) =
    ground (arith, text_eq_iff k j, text_eq_iff i k, text_eq_iff i j, get-insert k j room rooms)

min_from-lt :
    (best key at : ℕ) (ps : List Peer) → best < at → min_from best key at ps < at + length ps
unfolding min_from
min_from-lt best key at [] h = omega arith
min_from-lt best key at (p ∷ ps) h = elim (Bool-cases (ltb p.last_activity key)) [
  | inl less ↦ rw less (omega (arith, min_from-lt at p.last_activity (at + 1) ps (omega arith)))
  | inr not_less ↦ rw not_less (omega (arith, min_from-lt best key (at + 1) ps (omega arith)))
]

pub least_active-lt : (ps : List Peer) (i : ℕ) → least_active ps ≡ some i → i < length ps
unfolding least_active
least_active-lt [] i e = cc
least_active-lt (p ∷ ps) i e =
    let e' = some-injective _ _ e in
    omega (arith, e', min_from-lt 0 p.last_activity 1 ps (omega arith))

pub least_active-none : (ps : List Peer) → least_active ps ≡ none → length ps ≡ 0
unfolding least_active
least_active-none [] e = refl
least_active-none (p ∷ ps) e = cc

-- No more peers use a channel in one room than in all of them.
pub uses-le-uses_all :
    {room : Room} (t : Tx) (k : Text) (rooms : Rooms)
    → get k rooms ≡ some room
    → uses t room.peers ≤ uses_all t rooms
unfolding get
uses-le-uses_all t k [] e = cc
uses-le-uses_all {room} t k ((j, r) ∷ rooms) e = elim (Bool-cases (text_eq j k)) [
  | inl same ↦
      let e' = ap (λ (q : Room). uses t q.peers) (some-injective r room (rw same at e)) in
      omega (arith, e')
  | inr other ↦ omega (arith, uses-le-uses_all {room = room} t k rooms (rw other at e))
]
