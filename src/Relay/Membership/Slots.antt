-- ===== src/Relay/Membership/Slots.antt =====
-- What a join hands to the new peer.
use ktty.Base.{
  le→ltb_false, ◌↔◌, sym, true, ℕ, zero, suc, ◌≤◌, ◌<◌, ◌≡◌, ◌↔◌, refl, ap, ◌∙◌, Text, Bytes,
  Message, lit, Bool, true, false, List, [], ◌∷◌, ◌++◌, length, ◌==◌, arith, Bool-cases,
  Option-cases, inl, inr, some, word_mod, text_eq_refl, leb, get_elem?, ==_refl,
}
use mathlib.Core.Option.{some-injective}
use ktty.Deps.Json.{Json, member_str}
use ktty.Relay.Channel.{Tx, Chans, offered, try_send, update, open_channel}
use ktty.Relay.Room.{Peer, Room, least_active, find_peer, add_peer, retain_pinged}
use ktty.Relay.RoomMap.{get}
use ktty.Relay.State.{Relay, Conn, auth_text}
use ktty.Relay.Handler.{
  admits, token_ok, max_text_frame_bytes, room_or_new, evict_at, make_room, register, send_token,
}
use ktty.Relay.Invariant.Peers.{
  Ascends, uses, Sub-trans, Sub-Ascends, Sub-uses, Sub-length, retain_pinged-Sub,
}
use ktty.Relay.Invariant.Rooms.{get-insert, uses_all, uses_all-remove}
use ktty.Relay.Invariant.State.{Inv}
use ktty.Relay.Invariant.Sections.{room_or_new-Found}
use ktty.Relay.Invariant.Steps.{make_room_lem}
use ktty.Relay.Delivery.Sending.{retain_pinged_unused}

Ascends-le : (lo hi : ℕ) (ps : List Peer) → Ascends lo ps hi → lo ≤ hi
Ascends-le lo hi [] a = a
Ascends-le lo hi (p ∷ ps) (l, a) = omega (arith, Ascends-le (suc p.id) hi ps a)

find_peer-append :
    (lo hi : ℕ) (ps : List Peer) (p : Peer)
    → Ascends lo ps hi
    → p.id ≡ hi
    → find_peer hi (ps ++ p ∷ []) ≡ some p
unfolding find_peer
find_peer-append lo hi [] p a e = rw (e, ==_refl hi)
find_peer-append lo hi (q ∷ ps) p (l, a) e =
    let le = Ascends-le (suc q.id) hi ps a in
    ground (arith, find_peer-append (suc q.id) hi ps p a e)

get_elem?_unused :
    (t : Tx) (ps : List Peer) (i : ℕ) (p : Peer)
    → uses t ps ≡ 0
    → get_elem? ps i ≡ some p
    → (t == p.tx) ≡ false
get_elem?_unused t [] i p h e = cc
get_elem?_unused t (q ∷ ps) zero p h e =
    let same : q.tx ≡ p.tx = ap (λ (x : Peer). x.tx) (some-injective q p e) in ground arith
get_elem?_unused t (q ∷ ps) (suc i) p h e = get_elem?_unused t ps i p (omega arith) e

try_send_self :
    (tx : Tx) (m : Message) (chans : Chans) → (try_send chans tx m).0 tx ≡ offered (chans tx) m
unfolding try_send
try_send_self tx m chans = ground arith

try_send_other :
    (t tx : Tx) (m : Message) (chans : Chans)
    → (t == tx) ≡ false
    → (try_send chans tx m).0 t ≡ chans t
unfolding try_send
try_send_other t tx m chans h = rw h

uses-room_or_new :
    (t : Tx) (k : Text) (r : Relay)
    → uses t (room_or_new (get k r.rooms)).peers ≤ uses_all t r.rooms
uses-room_or_new t k r = omega (arith, uses_all-remove t k r.rooms)

greeted : (m : Message) → offered open_channel m ≡ record { queue = m ∷ []; closed = false }
unfolding offered
greeted m = refl

module _ (J : Json) (ct_eq : Bytes → Bytes → Bool) where
  make_room_unused :
      (t : Tx) (chans : Chans) (ps : List Peer)
      → uses t ps ≡ 0
      → (make_room J ct_eq chans ps).0 t ≡ chans t
  unfolding make_room
  make_room_unused t chans ps h = elim (Bool-cases (leb 2 (length ps))) [
    | inr room_left ↦ rw (room_left, make_room)
    | inl full ↦ elim (Option-cases (least_active ps)) [
      | inl e ↦ rw (full, e, make_room)
      | inr (i, e) ↦ elim (Option-cases (get_elem? ps i)) [
        | inl e' ↦ rw (full, e, e', make_room, evict_at)
        | inr (p, e') ↦
            rw (full, e, e', make_room, evict_at)
              (try_send_other t p.tx _ chans (get_elem?_unused t ps i p h e'))
      ]
    ]
  ]

  -- The peer that a join enters.
  abbrev pub newcomer : Conn → Tx → ℕ → Text → Peer
  newcomer c tx now token = record {
    id = c.peer_id;
    tx = tx;
    last_activity = now;
    auth_token = token;
  }

  -- In a state that meets the invariant, and with room for one more id, a join leaves the room
  -- with a slot for the connection, with the new channel and the new token, and the token's
  -- message is the first and only one in that channel.
  pub register_slot :
      (n : ℕ) (k : Text) (now : ℕ) (token : Text) (r : Relay)
      → Inv n r
      → suc n < word_mod
      → let (r', c, tx) = register J ct_eq k now token r in
        (room : Room) × (c.room_id ≡ k)
        × (get k r'.rooms ≡ some room)
        × (find_peer c.peer_id room.peers ≡ some (newcomer c tx now token))
        × ((send_token J ct_eq tx token r').chans tx
            ≡ record { queue = auth_text J token ∷ []; closed = false })
  unfolding register add_peer send_token
  register_slot n k now token r v small =
      let tx = r.next_tx in
      let room = room_or_new (get k r.rooms) in
      let f = room_or_new-Found n k r v in
      let chans = update r.chans tx open_channel in
      let live = retain_pinged (λ p. true) chans room.peers in
      let live_sub = retain_pinged-Sub (λ p. true) chans room.peers in
      let made = make_room J ct_eq live.0 live.1 in
      let sub =
        (make_room_lem J ct_eq live.0 live.1 (omega (arith, Sub-length live_sub, f.capped))).0 in
      let unused : uses tx room.peers ≡ 0 =
        omega (arith, v.fresh tx (omega arith), uses-room_or_new tx k r) in
      let empty : made.0 tx ≡ open_channel =
        make_room_unused tx live.0 live.1 (omega (arith, Sub-uses tx live_sub))
        ∙ retain_pinged_unused (λ p. true) tx chans room.peers unused
        ∙ rw (==_refl tx) in
      let entered = (add_peer (record room { peers = made.1 }) tx now token).0 in
      (
        entered,
        refl,
        get-insert k k entered r.rooms ∙ rw (text_eq_refl k),
        find_peer-append 0 room.next_id made.1 _
            (Sub-Ascends 0 room.next_id (Sub-trans sub live_sub) f.ascends) refl,
        try_send_self tx (auth_text J token) made.0 ∙ rw empty (greeted (auth_text J token)),
      )

module _ (J : Json) (ct_eq : Bytes → Bytes → Bool)
    (ct_eq_iff : (a b : Bytes) → (ct_eq a b ≡ true) ↔ (a ≡ b)) where
  -- The token that a join hands out is the one that admits the new peer's frames. In a state that
  -- meets the invariant with room for one more id, after the join and the sending of the token: the
  -- message with the token is the first and only one in the new channel; and a text frame of the
  -- connection, within the size limit, that parses and carries some token, is admitted exactly if it
  -- carries this one.
  pub admits-register :
      (n : ℕ) (k : Text) (now : ℕ) (token sent : Text) (r : Relay) (t : Text) (val : J.Value)
      → Inv n r
      → suc n < word_mod
      → length t ≤ max_text_frame_bytes
      → J.from_str t ≡ some val
      → member_str J val (lit "auth") ≡ some sent
      → let (r', c, tx) = register J ct_eq k now token r in
        let greeted = send_token J ct_eq tx token r' in
        (greeted.chans tx ≡ record { queue = auth_text J token ∷ []; closed = false })
        × ((admits J ct_eq c t greeted ≡ true) ↔ (sent ≡ token))
  unfolding admits token_ok send_token get register
  admits-register n k now token sent r t val v small short parsed carries =
      let (room, same, found, slot, greeting) = register_slot J ct_eq n k now token r v small in
      (
        greeting,
        rw
            (
              le→ltb_false max_text_frame_bytes (length t) short,
              parsed,
              token_ok,
              found,
              slot,
              carries,
            )
            (λ e. sym ((ct_eq_iff token sent).0 e), λ e. (ct_eq_iff token sent).1 (sym e)),
      )
