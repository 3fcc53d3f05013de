-- ===== src/Meeting/Passing.antt =====
-- What the relay makes of a text that carries its sender's token.
use ktty.Base.{
  ℕ, ◌≤◌, ◌≡◌, ◌↔◌, refl, ap, ◌∙◌, arith, Text, Bytes, text, lit, Bool, true, some, length,
  if◌then◌else◌, Option-cases, inl, inr,
}
use mathlib.Core.Option
use ktty.Deps.Json.{Json, member_str}
use ktty.Relay.Channel.{Tx, offered}
use ktty.Relay.Room.{Peer, Room, find_peer}
use ktty.Relay.RoomMap.{get}
use ktty.Relay.State.{Relay, Conn}
use ktty.Relay.Handler.{max_text_frame_bytes, strip_auth, handle_message}
use ktty.Relay.Invariant.State.{Inv}
use ktty.Relay.Delivery.Sending.{receives}
use ktty.Relay.Delivery.Forwarding.{Authentic, text_forwarded}

module _ (J : Json) (ct_eq : Bytes → Bytes → Bool) where
  strip_auth-carried :
      (t token : Text) (w : J.Value)
      → J.from_str t ≡ some w
      → member_str J w (lit "auth") ≡ some token
      → strip_auth J ct_eq (text t) ≡ text (J.to_string (J.remove w (lit "auth")))
  unfolding strip_auth Option.bind
  strip_auth-carried t token w parsed carries = elim (Option-cases (J.get w (lit "auth"))) [
    | inl e ↦ absurd (ground (arith, e))
    | inr (auth, e) ↦ rw (parsed, e, strip_auth) refl
  ]

  module _ (ct_eq_iff : (a b : Bytes) → (ct_eq a b ≡ true) ↔ (a ≡ b)) (n : ℕ) (c : Conn) (now : ℕ)
      (r : Relay) (room : Room) (p : Peer) (v : Inv n r) (found : get c.room_id r.rooms ≡ some room)
      (slot : find_peer c.peer_id room.peers ≡ some p) where
    -- The text without the token is offered once to each other peer of the room.
    pub passed :
        (t : Text) (w : J.Value)
        → J.from_str t ≡ some w
        → member_str J w (lit "auth") ≡ some p.auth_token
        → length t ≤ max_text_frame_bytes
        → (strip_auth J ct_eq (text t) ≡ text (J.to_string (J.remove w (lit "auth"))))
          × ((tx : Tx)
              → (handle_message J ct_eq c now (text t) r).0.chans tx ≡ (
                  if receives c.peer_id tx room.peers
                  then offered (r.chans tx) (text (J.to_string (J.remove w (lit "auth"))))
                  else r.chans tx))
    passed t w parsed carries short =
        let stripped = strip_auth-carried t p.auth_token w parsed carries in
        let authentic : Authentic J ct_eq ct_eq_iff c t r =
          (room, p, w, short, found, slot, parsed, rw carries refl) in
        (
          stripped,
          λ tx.
              (text_forwarded J ct_eq ct_eq_iff n c now t r tx v authentic).0
              ∙ ap
                  (λ m.
                    if receives c.peer_id tx room.peers then offered (r.chans tx) m else r.chans tx)
                  stripped,
        )
