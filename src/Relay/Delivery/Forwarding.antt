-- ===== src/Relay/Delivery/Forwarding.antt =====
-- Who may speak in a room, and who hears it.
use ktty.Base.{
  ℕ, ◌≤◌, ◌≡◌, ◌≢◌, ◌↔◌, refl, ap, ◌∙◌, sym, Text, Bytes, Message, text, binary, lit, Bool, true,
  [], length, ltb, if◌then◌else◌, arith, Bool-cases, Option-cases, inl, inr, none, some,
  ltb_false→le, le→ltb_false,
}
use mathlib.Core.Option
use ktty.Deps.Json.{Json, member_str}
use ktty.Relay.Channel.{Tx, offered}
use ktty.Relay.Room.{Peer, Room, find_peer, touch}
use ktty.Relay.RoomMap.{get}
use ktty.Relay.State.{Relay, Conn}
use ktty.Relay.Handler.{max_text_frame_bytes, admits, token_ok, strip_auth, forward, handle_message}
use ktty.Relay.Invariant.Peers.{uses, uses-touch}
use ktty.Relay.Invariant.Rooms.{uses-le-uses_all}
use ktty.Relay.Invariant.State.{Inv}
use ktty.Relay.Delivery.Sending.{receives, send_others_lem, receives-touch}

module _ (J : Json) (ct_eq : Bytes → Bytes → Bool)
    (ct_eq_iff : (a b : Bytes) → (ct_eq a b ≡ true) ↔ (a ≡ b)) where
  -- The slot of the connection is still there, and the frame, not too long, is a JSON text that
  -- carries the token of that slot.
  abbrev pub Authentic : Conn → Text → Relay → Type 0
  Authentic c t r =
      (room : Room) × (p : Peer) × (val : J.Value) × (length t ≤ max_text_frame_bytes)
      × (get c.room_id r.rooms ≡ some room)
      × (find_peer c.peer_id room.peers ≡ some p)
      × (J.from_str t ≡ some val)
      × (Option.get_or (member_str J val (lit "auth")) [] ≡ p.auth_token)

  token_ok_slot :
      (c : Conn) (val : J.Value) (r : Relay)
      → token_ok J ct_eq c val r ≡ true
      → (room : Room) × (p : Peer) × (get c.room_id r.rooms ≡ some room)
        × (find_peer c.peer_id room.peers ≡ some p)
        × (Option.get_or (member_str J val (lit "auth")) [] ≡ p.auth_token)
  unfolding token_ok
  token_ok_slot c val r h = elim (Option-cases (get c.room_id r.rooms)) [
    | inl e ↦ absurd (ground arith)
    | inr (room, e) ↦ elim (Option-cases (find_peer c.peer_id room.peers)) [
      | inl e' ↦ absurd (ground arith)
      | inr (p, e') ↦ (
        room,
        p,
        e,
        e',
        sym (
            (ct_eq_iff p.auth_token (Option.get_or (member_str J val (lit "auth")) [])).0
              (ground arith)),
      )
    ]
  ]

  admits→Authentic :
      (c : Conn) (t : Text) (r : Relay) → admits J ct_eq c t r ≡ true → Authentic c t r
  unfolding admits
  admits→Authentic c t r h = elim (Bool-cases (ltb max_text_frame_bytes (length t))) [
    | inl long ↦ absurd (ground arith)
    | inr short ↦ elim (Option-cases (J.from_str t)) [
      | inl e ↦ absurd (ground arith)
      | inr (val, e) ↦
          let (room, p, found, slot, carries) = token_ok_slot c val r (ground arith) in
          (room, p, val, ltb_false→le _ _ short, found, slot, e, carries)
    ]
  ]

  Authentic→admits :
      (c : Conn) (t : Text) (r : Relay) → Authentic c t r → admits J ct_eq c t r ≡ true
  unfolding admits token_ok
  Authentic→admits c t r (room, p, val, short, e, e', e'', e''') =
      rw (le→ltb_false max_text_frame_bytes (length t) short, e'', e, e', token_ok)
        ((ct_eq_iff _ _).1 (sym e'''))

  -- A text frame that changes anything at all comes from a connection whose slot is still in the
  -- room, is within the size limit, parses, and carries the token of that slot.
  pub text_needs_token :
      (c : Conn) (now : ℕ) (t : Text) (r : Relay)
      → (handle_message J ct_eq c now (text t) r).0 ≢ r
      → Authentic c t r
  unfolding handle_message
  text_needs_token c now t r h = elim (Bool-cases (admits J ct_eq c t r)) [
    | inl yes' ↦ admits→Authentic c t r yes'
    | inr no' ↦ absurd (h (rw no'))
  ]

  forward_chans :
      (n : ℕ) (c : Conn) (now : ℕ) (m : Message) (r : Relay) (room : Room) (tx : Tx)
      → Inv n r
      → get c.room_id r.rooms ≡ some room
      → (forward J ct_eq c now m r).chans tx ≡ (
          if receives c.peer_id tx room.peers
          then offered (r.chans tx) (strip_auth J ct_eq m)
          else r.chans tx)
  unfolding forward
  forward_chans n c now m r room tx v e =
      let once : uses tx (touch c.peer_id now room.peers) ≤ 1 = omega (
        arith,
        uses-touch c.peer_id now tx room.peers,
        v.unique tx,
        uses-le-uses_all {room = room} tx c.room_id r.rooms e,
      ) in
      rw (e, forward)
        (send_others_lem c.peer_id (strip_auth J ct_eq m) tx r.chans
            (touch c.peer_id now room.peers) once
          ∙ ap (λ b. if b then offered (r.chans tx) (strip_auth J ct_eq m) else r.chans tx)
              (receives-touch c.peer_id now c.peer_id tx room.peers))

  -- In a state that meets the invariant, a text frame that carries the token of its connection's
  -- slot is offered, without its `auth` member, once to the channel of each other peer of the
  -- room; every other channel, of the sender and of other rooms, stays as it was. The read loop
  -- goes on.
  pub text_forwarded :
      (n : ℕ) (c : Conn) (now : ℕ) (t : Text) (r : Relay) (tx : Tx)
      → Inv n r
      → (a : Authentic c t r)
      → ((handle_message J ct_eq c now (text t) r).0.chans tx ≡ (
          if receives c.peer_id tx a.0.peers
          then offered (r.chans tx) (strip_auth J ct_eq (text t))
          else r.chans tx))
        × ((handle_message J ct_eq c now (text t) r).1 ≡ true)
  unfolding handle_message
  text_forwarded n c now t r tx v a =
      (rw (Authentic→admits c t r a) (forward_chans n c now (text t) r a.0 tx v a.4), refl)

  -- In a state that meets the invariant, a binary frame from a connection that has no slot in its
  -- room any more is offered, unchanged, once to the channel of each peer of the room, and to no
  -- other channel.
  pub binary_unchecked :
      (n : ℕ) (c : Conn) (now : ℕ) (b : Bytes) (r : Relay) (room : Room) (tx : Tx)
      → Inv n r
      → get c.room_id r.rooms ≡ some room
      → find_peer c.peer_id room.peers ≡ none
      → (handle_message J ct_eq c now (binary b) r).0.chans tx
        ≡ (if receives c.peer_id tx room.peers then offered (r.chans tx) (binary b) else r.chans tx)
  unfolding handle_message strip_auth
  binary_unchecked n c now b r room tx v e gone = forward_chans n c now (binary b) r room tx v e
