-- ===== src/Meeting/Rendezvous.antt =====
-- Agent and client meet in an empty relay: their joins, the relay's texts, and the agent's greeting.
use ktty.Base.{
  drop, ℕ, ◌≡◌, ◌≤◌, ◌↔◌, refl, Text, Bytes, Message, text, ping, Incoming, frame, lit, Bool, true,
  false, [], ◌∷◌, some, length, ◌==◌,
}
use ktty.Common.Messages.{boot_signal, join_message}
use ktty.Deps.Json.{IsLawful, MemberLaws, PrintLaws}
use ktty.Deps.Crates.{Crates}
use ktty.Agent.Session.State.{can_slice}
use ktty.Agent.Session.Handshake.{offer_text}
use ktty.Agent.Session.Handshake.Agreement.{offer_of}
use ktty.Agent.Session.Joining.{Session, join_request}
use ktty.Agent.Session.Run.{Phase, boot_text, steps, start}
use ktty.Relay.State.{init, auth_text, join_text}
use ktty.Relay.Handler.{max_text_frame_bytes, first_room_id}
use ktty.Relay.Socket.{read_loop, handle_socket}
use ktty.Meeting.Stamps.{Stamped, stamp-Stamped}
use ktty.Meeting.Offer.{
  Brings, Signals, signal_fields, offer_text-Stamped, strip_auth-Brings, strip_auth-Signals,
}
use ktty.Meeting.Greeting.{auth_of, join_of, greets}
use ktty.Meeting.Relayed.{
  said, heard, sockets_meet, first_room_id-join_request, agent_hears, greeting_relayed,
  client_hears,
}

module _ (X : Crates) (laws : IsLawful X.json) (members : MemberLaws X.json) (S : Session)
    (seed : ℕ → X.kem.Seed) where
  boot_text-Stamped :
      (token : Text)
      → Stamped X.json token
          (signal_fields X laws members (lit "boot"))
          (boot_text X S seed (some token) boot_signal)
  unfolding boot_text boot_signal
  boot_text-Stamped token =
      stamp-Stamped X.json laws members token (signal_fields X laws members (lit "boot"))

module _ (X : Crates) (laws : IsLawful X.json) (members : MemberLaws X.json)
    (prints : PrintLaws X.json) (ct_eq : Bytes → Bytes → Bool)
    (ct_eq_iff : (a b : Bytes) → (ct_eq a b ≡ true) ↔ (a ≡ b)) (S : Session)
    (seed : ℕ → X.kem.Seed) where
  -- An empty relay takes the agent's request to join, and then a first message that names the same
  -- room. The agent's room has a name, the agent's messages are within the relay's size limit, and
  -- the two texts of the relay can be cut for the log. Then the agent, at whatever times it hears
  -- what the relay has for it, comes to its handshake with the relay's token; and once the relay has
  -- read what the agent sent since its request, it has three messages for the client: the client's
  -- own token, a text of the type "boot" and a text that brings the agent's offer, these two without
  -- the agent's token.
  pub rendezvous :
      (t0 t1 t2 : ℕ) (at : Message → ℕ) (agent_token client_token : Text) (hello : Incoming)
      → (length S.room_id == 0) ≡ false
      → length (join_request X.json (join_message S.room_id)) ≤ max_text_frame_bytes
      → length (boot_text X S seed (some agent_token) boot_signal) ≤ max_text_frame_bytes
      → length (offer_text X S.derived_key (some agent_token) (offer_of X (seed 0)))
        ≤ max_text_frame_bytes
      → can_slice (auth_of X.json agent_token) 100 ≡ true
      → can_slice (join_of X.json S.room_id) 100 ≡ true
      → first_room_id X.json ct_eq hello ≡ some S.room_id
      → let r = handle_socket X.json ct_eq hello t1 client_token [] (
          handle_socket X.json ct_eq
            (frame (text (join_request X.json (join_message S.room_id))))
            t0
            agent_token
            []
            init) in
        let s = steps X S seed (heard at (r.chans 0).queue) (start X S seed) in
        let r' =
          (read_loop X.json ct_eq
            (record { room_id = S.room_id; peer_id = 0 })
            (said t2 (drop 1 s.agent.outbox.sent))
            r).0 in
        (s.phase ≡ Phase.shaking (X.kem.generate (seed 0)).0)
        × (s.token ≡ some agent_token)
        × ((b : Text) × (o : Text) × (((r'.chans 1).queue
                ≡ auth_text X.json client_token ∷ text b ∷ text o ∷ [])
              × Signals X (lit "boot") b
              × Brings X (offer_of X (seed 0)) o))
  rendezvous t0 t1 t2 at agent_token client_token hello named short0 short1 short2 cut cut' asks =
      let derived = S.derived_key in
      let offer = offer_of X (seed 0) in
      let boot_s = boot_text-Stamped X laws members S seed agent_token in
      let offer_s = offer_text-Stamped X laws members derived agent_token offer in
      let (b, strip_b, signals) =
        strip_auth-Signals X laws members ct_eq (lit "boot") agent_token _ boot_s in
      let (o, strip_o, brings) = strip_auth-Brings X laws members ct_eq derived agent_token offer in
      rw
        (
          sockets_meet X.json ct_eq ct_eq_iff S.room_id t1 agent_token client_token t0 _ hello
              (first_room_id-join_request X.json ct_eq ct_eq_iff S.room_id t1 agent_token
                client_token laws members short0 named)
              asks,
          agent_hears X.json ct_eq ct_eq_iff S.room_id t1 agent_token client_token t0,
          greets X laws members prints S seed agent_token S.room_id
              (at (auth_text X.json agent_token)) (at (ping [])) (at (join_text X.json S.room_id))
              cut cut',
          greeting_relayed X.json ct_eq ct_eq_iff S.room_id t1 agent_token client_token t0 t2 [] _ _
              _ _ b o short1 short2 boot_s offer_s strip_b strip_o,
        )
        (
          refl,
          refl,
          (
            b,
            o,
            (
              client_hears X.json ct_eq ct_eq_iff S.room_id t1 agent_token client_token t0 t2 b o,
              signals,
              brings,
            ),
          ),
        )
