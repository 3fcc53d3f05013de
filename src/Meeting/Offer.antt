-- ===== src/Meeting/Offer.antt =====
-- The agent's offer of a pair of keys on its way through the relay.
use ktty.Base.{
  ℕ, ◌≤◌, ◌≡◌, ◌↔◌, refl, ap, ◌∙◌, Text, Bytes, text, lit, Bool, true, false, List, [], ◌∷◌, length,
  if◌then◌else◌, some, is_some, text_eq,
}
use ktty.Deps.Json.{member_str, IsLawful, MemberLaws}
use ktty.Deps.Crates.{Crates}
use ktty.Common.Messages.{HandshakeOffer}
use ktty.Agent.Session.Handshake.{offer_text}
use ktty.Relay.Channel.{Tx, offered}
use ktty.Relay.Room.{Peer, Room, find_peer}
use ktty.Relay.RoomMap.{get}
use ktty.Relay.State.{Relay, Conn}
use ktty.Relay.Handler.{strip_auth, max_text_frame_bytes, handle_message}
use ktty.Relay.Invariant.State.{Inv}
use ktty.Relay.Delivery.Sending.{receives}
use ktty.Relay.Delivery.Forwarding.{Authentic, text_forwarded}
use ktty.Meeting.Stamps.{Stamped, stamp-Stamped, Stamped-strip_auth}

module _ (X : Crates) where
  -- What a peer finds in a text: the members of the offer, and no token.
  abbrev pub Brings : HandshakeOffer → Text → Type 0
  Brings offer t =
      (w : X.json.Value) × (X.json.from_str t ≡ some w)
      × (member_str X.json w (lit "type") ≡ some offer.type)
      × (member_str X.json w (lit "mlkem_pub_key") ≡ some offer.mlkem_pub_key)
      × (is_some (X.json.get w (lit "auth")) ≡ false)

  -- A message of this type, without a token.
  abbrev pub Signals : Text → Text → Type 0
  Signals type t =
      (w : X.json.Value) × (X.json.from_str t ≡ some w)
      × (member_str X.json w (lit "type") ≡ some type)
      × (is_some (X.json.get w (lit "auth")) ≡ false)

module _ (X : Crates) (laws : IsLawful X.json) (members : MemberLaws X.json) where
  abbrev pub offer_fields : HandshakeOffer → List (Text × X.json.Value)
  offer_fields offer =
      (lit "type", X.json.string offer.type)
      ∷ (lit "mlkem_pub_key", X.json.string offer.mlkem_pub_key)
      ∷ []

  pub offer_text-Stamped :
      (derived_key token : Text) (offer : HandshakeOffer)
      → Stamped X.json token (offer_fields offer) (offer_text X derived_key (some token) offer)
  unfolding offer_text
  offer_text-Stamped derived_key token offer =
      stamp-Stamped X.json laws members token (offer_fields offer)

  -- What the relay makes of the offer brings it.
  pub strip_auth-Brings :
      (ct_eq : Bytes → Bytes → Bool) (derived_key token : Text) (offer : HandshakeOffer)
      → (t : Text) × (strip_auth X.json ct_eq (text (offer_text X derived_key (some token) offer))
          ≡ text t)
        × Brings X offer t
  unfolding text_eq
  strip_auth-Brings ct_eq derived_key token offer =
      let (t, w, stripped, parsed, tokenless, others) =
        Stamped-strip_auth X.json ct_eq laws token (offer_fields offer) _
          (offer_text-Stamped derived_key token offer) in
      (
        t,
        stripped,
        (
          w,
          parsed,
          others (lit "type") refl ∙ members.member_str-object (lit "type") offer.type _ (refl, tt),
          others (lit "mlkem_pub_key") refl
              ∙ members.member_str-next (lit "type") (lit "mlkem_pub_key") _ _ refl
              ∙ members.member_str-object (lit "mlkem_pub_key") offer.mlkem_pub_key [] tt,
          tokenless,
        ),
      )

  abbrev pub signal_fields : Text → List (Text × X.json.Value)
  signal_fields type = (lit "type", X.json.string type) ∷ []

  -- What it makes of a message of a type still has the type.
  pub strip_auth-Signals :
      (ct_eq : Bytes → Bytes → Bool) (type token t : Text)
      → Stamped X.json token (signal_fields type) t
      → (t' : Text) × (strip_auth X.json ct_eq (text t) ≡ text t') × Signals X type t'
  unfolding text_eq
  strip_auth-Signals ct_eq type token t s =
      let (t', w, stripped, parsed, tokenless, others) =
        Stamped-strip_auth X.json ct_eq laws token (signal_fields type) t s in
      (
        t',
        stripped,
        (
          w,
          parsed,
          others (lit "type") refl ∙ members.member_str-object (lit "type") type [] tt,
          tokenless,
        ),
      )

module _ (X : Crates) (ct_eq : Bytes → Bytes → Bool)
    (ct_eq_iff : (a b : Bytes) → (ct_eq a b ≡ true) ↔ (a ≡ b)) where
  -- The agent's connection has its slot in the room, in a state of the relay that meets the
  -- invariant, and the agent has the token of this slot; the offer is within the size limit. Then
  -- the relay offers to each other peer of the room, once, a text that brings the members of the
  -- offer without the token, and to no other channel anything.
  pub offer_forwarded :
      IsLawful X.json
      → MemberLaws X.json
      → (derived_key token : Text) (offer : HandshakeOffer) (n : ℕ) (c : Conn) (now : ℕ) (r : Relay)
        (room : Room) (p : Peer)
      → Inv n r
      → get c.room_id r.rooms ≡ some room
      → find_peer c.peer_id room.peers ≡ some p
      → p.auth_token ≡ token
      → length (offer_text X derived_key (some token) offer) ≤ max_text_frame_bytes
      → (t : Text) × Brings X offer t
        × ((tx : Tx)
            → (handle_message X.json ct_eq c now
                  (text (offer_text X derived_key (some token) offer))
                  r).0.chans
                tx
              ≡ (if receives c.peer_id tx room.peers
                  then offered (r.chans tx) (text t)
                  else r.chans tx))
  offer_forwarded laws members derived_key token offer n c now r room p v found slot same short =
      let sent = offer_text X derived_key (some token) offer in
      let stamped = offer_text-Stamped X laws members derived_key token offer in
      let (t, stripped, brings) = strip_auth-Brings X laws members ct_eq derived_key token offer in
      let authentic : Authentic X.json ct_eq ct_eq_iff c sent r = (
        room,
        p,
        stamped.value,
        short,
        found,
        slot,
        stamped.parses,
        rw (stamped.carries, same) refl,
      ) in
      (
        t,
        brings,
        λ tx.
            (text_forwarded X.json ct_eq ct_eq_iff n c now sent r tx v authentic).0
            ∙ ap
                (λ m.
                  if receives c.peer_id tx room.peers then offered (r.chans tx) m else r.chans tx)
                stripped,
      )
