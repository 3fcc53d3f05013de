-- ===== src/Relay/Invariant/Steps.antt =====
-- Every section keeps the invariant.
use ktty.Base.{
  ℕ, suc, ◌+◌, ◌≤◌, ◌<◌, ◌≡◌, Text, Bytes, Bool, true, List, [], ◌∷◌, length, get_elem?-some, leb,
  arith, Bool-cases, Option-cases, inl, inr, word_mod,
}
use ktty.Deps.Json.{Json}
use ktty.Relay.Channel.{Tx, Chans, open_channel, update}
use ktty.Relay.Room.{Peer, add_peer, retain_pinged, least_active}
use ktty.Relay.RoomMap.{get}
use ktty.Relay.State.{Relay, Conn, init}
use ktty.Relay.Handler.{
  room_or_new, evict_at, make_room, register, send_token, notify_join, forward, disconnect,
}
use ktty.Relay.Socket.{
  Section, registers, sends_token, notifies, pongs, updates, forwards, disconnects, sweeps,
  delivers, closes, deliver, close_channel, step, run,
}
use ktty.Relay.Invariant.Peers.{
  Sub, Sub-refl, Sub-trans, Sub-length, Sub-uses, retain_pinged-Sub, remove_at-Sub,
  length-remove_at,
}
use ktty.Relay.Invariant.Rooms.{
  insert-AllOk, AllOk-mono, uses_all-insert, least_active-lt, least_active-none,
}
use ktty.Relay.Invariant.State.{Inv, init-Inv, same_rooms, touched, Inv-suc}
use ktty.Relay.Invariant.Sections.{
  update_activity-Inv, send_pong-Inv, evict_stale-Inv, room_or_new-Found, add_peer-RoomOk,
  uses-add_peer, disconnected,
}

module _ (J : Json) (ct_eq : Bytes → Bytes → Bool) where
  -- A room of at most two peers is left with at most one.
  pub make_room_lem :
      (chans : Chans) (ps : List Peer)
      → length ps ≤ 2
      → Sub (make_room J ct_eq chans ps).1 ps × (length (make_room J ct_eq chans ps).1 ≤ 1)
  unfolding make_room
  make_room_lem chans ps h = elim (Bool-cases (leb 2 (length ps))) [
    | inr room_left ↦ rw (room_left, make_room) (Sub-refl ps, ground arith)
    | inl full ↦ elim (Option-cases (least_active ps)) [
      | inl e ↦ absurd (ground (arith, least_active-none ps e))
      | inr (i, e) ↦
          let (p, found) = get_elem?-some ps i (least_active-lt ps i e) in
          rw (full, e, found, make_room, evict_at)
            (remove_at-Sub ps i, omega (arith, length-remove_at ps i (least_active-lt ps i e)))
    ]
  ]

  forward-Inv :
      (n : ℕ) (r : Relay) (c : Conn) (now : ℕ) (m : _)
      → Inv n r
      → Inv (suc n) (forward J ct_eq c now m r)
  unfolding forward
  forward-Inv n r c now m v = elim (Option-cases (get c.room_id r.rooms)) [
    | inl e ↦ rw (e, forward) (Inv-suc n r v)
    | inr (room, e) ↦ rw (e, forward) (touched n r c now room _ v e)
  ]

  notify_join-Inv : (n : ℕ) (r : Relay) (c : Conn) → Inv n r → Inv (suc n) (notify_join J ct_eq c r)
  unfolding notify_join
  notify_join-Inv n r c v = elim (Option-cases (get c.room_id r.rooms)) [
    | inl e ↦ rw (e, notify_join) (Inv-suc n r v)
    | inr (room, e) ↦ rw (e, notify_join) (same_rooms n r _ v)
  ]

  disconnect-Inv : (n : ℕ) (r : Relay) (c : Conn) → Inv n r → Inv (suc n) (disconnect J ct_eq c r)
  unfolding disconnect
  disconnect-Inv n r c v = elim (Option-cases (get c.room_id r.rooms)) [
    | inl e ↦ rw (e, disconnect) (Inv-suc n r v)
    | inr (room, e) ↦ rw (e, disconnect) (disconnected n r c room _ v e)
  ]

  register-Inv :
      (n : ℕ) (r : Relay) (k : Text) (now : ℕ) (token : Text)
      → Inv n r
      → suc n < word_mod
      → Inv (suc n) (register J ct_eq k now token r).0
  unfolding register
  register-Inv n r k now token v small =
      let room = room_or_new (get k r.rooms) in
      let f = room_or_new-Found n k r v in
      let live = retain_pinged (λ p. true) (update r.chans r.next_tx open_channel) room.peers in
      let live_sub =
        retain_pinged-Sub (λ p. true) (update r.chans r.next_tx open_channel) room.peers in
      let made = make_room J ct_eq live.0 live.1 in
      let (sub, one) = make_room_lem live.0 live.1 (omega (arith, Sub-length live_sub, f.capped)) in
      let ok =
        add_peer-RoomOk n now r.next_tx token room made.1 f (Sub-trans sub live_sub) one small in
      let below = λ (t : Tx). Sub-uses t (Sub-trans sub live_sub) in
      let new_uses =
        λ (t : Tx). uses-add_peer t r.next_tx now token (record room { peers = made.1 }) in
      let all_uses = λ (t : Tx).
        uses_all-insert t k (add_peer (record room { peers = made.1 }) r.next_tx now token).0
          r.rooms in
      record {
        ok = insert-AllOk (suc n) k _ r.rooms ok (AllOk-mono n r.rooms v.ok);
        unique = λ t. ground (arith, below t, new_uses t, all_uses t, v.unique t, v.fresh t);
        fresh = λ t h. ground (arith, below t, new_uses t, all_uses t, v.fresh t);
      }

  -- Every section of any handler keeps the invariant.
  pub step-Inv :
      (n : ℕ) (s : Section) (r : Relay)
      → Inv n r
      → suc n < word_mod
      → Inv (suc n) (step J ct_eq s r)
  unfolding step send_token deliver close_channel
  step-Inv n (registers k now token) r v h = register-Inv n r k now token v h
  step-Inv n (sends_token tx token) r v h = same_rooms n r _ v
  step-Inv n (notifies c) r v h = notify_join-Inv n r c v
  step-Inv n (pongs c d) r v h = send_pong-Inv n r c d v
  step-Inv n (updates c now) r v h = update_activity-Inv n r c now v
  step-Inv n (forwards c now m) r v h = forward-Inv n r c now m v
  step-Inv n (disconnects c) r v h = disconnect-Inv n r c v
  step-Inv n (sweeps now) r v h = evict_stale-Inv n r now v
  step-Inv n (delivers tx) r v h = same_rooms n r _ v
  step-Inv n (closes tx) r v h = same_rooms n r _ v

  run-Inv :
      (n : ℕ) (ss : List Section) (r : Relay)
      → Inv n r
      → n + length ss < word_mod
      → Inv (n + length ss) (run J ct_eq ss r)
  unfolding run
  run-Inv n [] r v h = let e : n + 0 ≡ n = omega arith in rw e v
  run-Inv n (s ∷ ss) r v h =
      let e : n + length (s ∷ ss) ≡ suc n + length ss = omega arith in
      rw e (run-Inv (suc n) ss (step J ct_eq s r) (step-Inv n s r v (omega arith)) (omega arith))

  -- After any sequence of fewer than 2^64 sections, of any handlers in any order: every room of the
  -- map has one or two peers, whose ids ascend and are below the room's next id, and no channel
  -- belongs to two peers, of one room or of two.
  pub run-init-Inv :
      (ss : List Section) → length ss < word_mod → Inv (length ss) (run J ct_eq ss init)
  run-init-Inv ss h =
      let e : 0 + length ss ≡ length ss = omega arith in
      rw (← e) (run-Inv 0 ss init init-Inv (omega arith))
