-- ===== src/Relay/Membership/Reuse.antt =====
-- Ids are counted per room, and start again when a room is removed.
use ktty.Base.{
  ℕ, ◌-◌, ◌≤◌, ◌≡◌, refl, ap, ◌∙◌, Text, Bytes, Bool, false, [], ◌∷◌, arith, none, some,
  text_eq_refl, sym, subst, word_add,
}
use ktty.Deps.Json.{Json}
use ktty.Relay.Channel.{Tx}
use ktty.Relay.Room
use ktty.Relay.Room.{Peer, Room, add_peer, retain_pinged, find_peer}
use ktty.Relay.RoomMap.{Rooms, get, insert, remove}
use ktty.Relay.State.{Relay, init}
use ktty.Relay.Handler.{as_secs, is_recent, register, evict_stale, disconnect}

abbrev pub first_peer : Tx → ℕ → Text → Peer
first_peer tx now token = record { id = 0; tx = tx; last_activity = now; auth_token = token }

abbrev alone : Text → Peer → Rooms
alone k p = (k, record { peers = p ∷ []; next_id = 1 }) ∷ []

module _ (J : Json) (ct_eq : Bytes → Bytes → Bool) where
  -- A join of a room that is not in an empty map.
  register-alone :
      (k : Text) (now : ℕ) (token : Text) (r : Relay)
      → r.rooms ≡ []
      → ((register J ct_eq k now token r).0.rooms ≡ alone k (first_peer r.next_tx now token))
        × ((register J ct_eq k now token r).1 ≡ record { room_id = k; peer_id = 0 })
  unfolding register get insert Room.new add_peer word_add
  register-alone k now token r e = (rw e, rw e)

  evict-alone :
      (k : Text) (now : ℕ) (p : Peer) (r : Relay)
      → r.rooms ≡ alone k p
      → is_recent now p ≡ false
      → (evict_stale now r).rooms ≡ []
  unfolding evict_stale retain_pinged
  evict-alone k now p r e old = rw e (rw old)

  disconnect-alone :
      (k : Text) (tx : Tx) (now : ℕ) (token : Text) (r : Relay)
      → r.rooms ≡ alone k (first_peer tx now token)
      → get k (disconnect J ct_eq (record { room_id = k; peer_id = 0 }) r).rooms ≡ none
  unfolding disconnect get remove
  disconnect-alone k tx now token r e =
      subst
        (λ rooms.
          get k
            (disconnect J ct_eq (record { room_id = k; peer_id = 0 })
              (record r { rooms = rooms })).rooms
          ≡ none)
        (sym e) (rw (text_eq_refl k, disconnect) (rw (text_eq_refl k)))

  get-alone :
      (k : Text) (p : Peer) → get k (alone k p) ≡ some (record { peers = p ∷ []; next_id = 1 })
  unfolding get
  get-alone k p = rw (text_eq_refl k)

  -- Ids are reused: a connection joins a room, has been silent for a minute when the background task
  -- runs, and another one joins the room. The two have the same room and id, so that when the first
  -- one's handler ends at last, the slot of the second one goes, and the room with it.
  pub reused_id :
      (k : Text) (t0 t1 t2 : ℕ) (token0 token2 : Text)
      → 60 ≤ as_secs (t1 - t0)
      → let (r1, c1, tx1) = register J ct_eq k t0 token0 init in
        let (r3, c3, tx3) = register J ct_eq k t2 token2 (evict_stale t1 r1) in
        (c3 ≡ c1)
        × (get k r3.rooms ≡ some (record { peers = first_peer tx3 t2 token2 ∷ []; next_id = 1 }))
        × (get k (disconnect J ct_eq c1 r3).rooms ≡ none)
  unfolding init register
  reused_id k t0 t1 t2 token0 token2 old =
      let r1 = (register J ct_eq k t0 token0 init).0 in
      let r2 = evict_stale t1 r1 in
      let r3 = (register J ct_eq k t2 token2 r2).0 in
      let (first, first_conn) = register-alone k t0 token0 init empty in
      let gone = evict-alone k t1 (first_peer init.next_tx t0 token0) r1 first (ground arith) in
      let (second, second_conn) = register-alone k t2 token2 r2 gone in
      (
        second_conn ∙ sym first_conn,
        ap (get k) second ∙ get-alone k (first_peer r2.next_tx t2 token2),
        rw first_conn (disconnect-alone k r2.next_tx t2 token2 r3 second),
      )
    where
      empty : init.rooms ≡ []
      empty = refl
