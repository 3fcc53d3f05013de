-- ===== src/Meeting/Relayed.antt =====
-- The relay's side of a rendezvous: the two joins, and what it passes on to the client.
use ktty.Base.{
  map, ℕ, ◌≡◌, ◌≤◌, ◌↔◌, refl, ap, ◌∙◌, Text, Bytes, Message, text, ping, pong, Incoming, frame,
  lit, Bool, true, false, List, [], ◌∷◌, some, length, text_eq, text_eq_refl, le→ltb_false, ◌==◌,
}
use ktty.Common.Messages.{join_message}
use ktty.Deps.Json.{Json, member_str, IsLawful, MemberLaws}
use ktty.Agent.Session.Bridge.{BridgeEvent, socket}
use ktty.Agent.Session.Joining.{join_request}
use ktty.Relay.Channel.{Chans, try_send}
use ktty.Relay.Room.{find_peer, touch, send_others}
use ktty.Relay.RoomMap.{get, insert}
use ktty.Relay.State.{Relay, Conn, init, auth_text, join_text}
use ktty.Relay.Handler.{
  max_text_frame_bytes, first_room_id, parse_join, admits, token_ok, strip_auth, forward,
  handle_message, update_activity,
}
use ktty.Relay.Socket.{LoopEvent, received, read_loop, connected, handle_socket}
use ktty.Meeting.Stamps.{Stamped}
use ktty.Meeting.Joins.{both_chans, both, joined}

-- These messages come, all at one time.
abbrev pub said : ℕ → List Message → List LoopEvent
said now = map (λ m. received now (frame m))

-- These messages come, each at its time.
abbrev pub heard : (Message → ℕ) → List Message → List BridgeEvent
heard at = map (λ m. socket (at m) (frame m))

module _ (J : Json) (ct_eq : Bytes → Bytes → Bool)
    (ct_eq_iff : (a b : Bytes) → (ct_eq a b ≡ true) ↔ (a ≡ b)) (room_id : Text) (t1 : ℕ)
    (agent_token client_token : Text) where
  abbrev agent_conn : Conn
  agent_conn = record { room_id = room_id; peer_id = 0 }

  -- The relay with both in the room; the agent was last heard at `now`.
  abbrev with_both : ℕ → Chans → Relay
  with_both now chans = record (both J ct_eq room_id now t1 agent_token client_token) {
    chans = chans;
  }

  pong_noted :
      (t0 now : ℕ) (d : Bytes) (chans : Chans)
      → handle_message J ct_eq agent_conn now (pong d) (with_both t0 chans)
        ≡ (with_both now chans, true)
  unfolding handle_message update_activity get insert touch
  pong_noted t0 now d chans = rw (update_activity, text_eq_refl room_id, text_eq_refl room_id) refl

  admitted :
      (t0 : ℕ) (chans : Chans) (fields : List (Text × J.Value)) (t : Text)
      → length t ≤ max_text_frame_bytes
      → Stamped J agent_token fields t
      → admits J ct_eq agent_conn t (with_both t0 chans) ≡ true
  unfolding admits token_ok get find_peer
  admitted t0 chans fields t short s =
      rw
        (
          le→ltb_false max_text_frame_bytes (length t) short,
          s.parses,
          token_ok,
          text_eq_refl room_id,
          s.carries,
        )
        ((ct_eq_iff agent_token agent_token).1 refl)

  text_relayed :
      (t0 now : ℕ) (chans : Chans) (fields : List (Text × J.Value)) (t t' : Text)
      → length t ≤ max_text_frame_bytes
      → Stamped J agent_token fields t
      → strip_auth J ct_eq (text t) ≡ text t'
      → handle_message J ct_eq agent_conn now (text t) (with_both t0 chans)
        ≡ (with_both now (try_send chans 1 (text t')).0, true)
  unfolding handle_message forward get insert touch send_others
  text_relayed t0 now chans fields t t' short s stripped =
      rw
        (
          admitted t0 chans fields t short s,
          text_eq_refl room_id,
          forward,
          stripped,
          text_eq_refl room_id,
        )
        refl

  read_loop-goes_on :
      (now : ℕ) (m : Message) (events : List LoopEvent) (r r' : Relay)
      → handle_message J ct_eq agent_conn now m r ≡ (r', true)
      → read_loop J ct_eq agent_conn (received now (frame m) ∷ events) r
        ≡ read_loop J ct_eq agent_conn events r'
  unfolding read_loop
  read_loop-goes_on now m events r r' e =
      rw (e, read_loop) (ap (λ z. read_loop J ct_eq agent_conn events z.0) e)

  read_loop-ends : (r : Relay) → read_loop J ct_eq agent_conn [] r ≡ (r, false)
  unfolding read_loop
  read_loop-ends r = refl

  -- The agent's answer to the ping, and two messages that it stamped.
  pub greeting_relayed :
      (t0 now : ℕ) (d : Bytes) (fields fields' : List (Text × J.Value)) (t u t' u' : Text)
      → length t ≤ max_text_frame_bytes
      → length u ≤ max_text_frame_bytes
      → Stamped J agent_token fields t
      → Stamped J agent_token fields' u
      → strip_auth J ct_eq (text t) ≡ text t'
      → strip_auth J ct_eq (text u) ≡ text u'
      → read_loop J ct_eq agent_conn
          (said now (pong d ∷ text t ∷ text u ∷ []))
          (both J ct_eq room_id t0 t1 agent_token client_token)
        ≡ (
          with_both now
              (try_send
                (try_send (both_chans J ct_eq room_id t0 t1 agent_token client_token) 1 (text t')).0
                1
                (text u')).0,
          false,
        )
  greeting_relayed t0 now d fields fields' t u t' u' short short' s s' stripped stripped' =
      let chans = both_chans J ct_eq room_id t0 t1 agent_token client_token in
      read_loop-goes_on now (pong d) (said now (text t ∷ text u ∷ [])) _ _
        (pong_noted t0 now d chans)
      ∙ read_loop-goes_on now (text t) (said now (text u ∷ [])) _ _
          (text_relayed now now chans fields t t' short s stripped)
      ∙ read_loop-goes_on now (text u) [] _ _
          (text_relayed now now (try_send chans 1 (text t')).0 fields' u u' short' s' stripped')
      ∙ read_loop-ends _

  pub first_room_id-join_request :
      IsLawful J
      → MemberLaws J
      → (length (join_request J (join_message room_id)) ≤ max_text_frame_bytes)
      → (length room_id == 0) ≡ false
      → first_room_id J ct_eq (frame (text (join_request J (join_message room_id)))) ≡ some room_id
  unfolding first_room_id parse_join join_request join_message text_eq
  first_room_id-join_request laws members short named =
      let fields = (lit "action", J.string (lit "join")) ∷ (lit "room_id", J.string room_id) ∷ [] in
      let (u, parsed, there, read) = laws.from_str-to_string (J.object fields) in
      let action : member_str J u (lit "action") ≡ some (lit "join") =
        read (lit "action") ∙ members.member_str-object (lit "action") (lit "join") _ (refl, tt) in
      let room : member_str J u (lit "room_id") ≡ some room_id =
        read (lit "room_id")
        ∙ members.member_str-next (lit "action") (lit "room_id") _ _ refl
        ∙ members.member_str-object (lit "room_id") room_id [] tt in
      rw (le→ltb_false max_text_frame_bytes _ short, parsed, action, room, named) refl

  handle_socket-connected :
      (hello : Incoming) (now : ℕ) (token : Text) (r : Relay)
      → first_room_id J ct_eq hello ≡ some room_id
      → handle_socket J ct_eq hello now token [] r ≡ connected J ct_eq room_id now token [] r
  unfolding handle_socket
  handle_socket-connected hello now token r asks = rw (handle_socket, asks) refl

  pub sockets_meet :
      (t0 : ℕ) (hello hello' : Incoming)
      → first_room_id J ct_eq hello ≡ some room_id
      → first_room_id J ct_eq hello' ≡ some room_id
      → handle_socket J ct_eq hello' t1 client_token []
          (handle_socket J ct_eq hello t0 agent_token [] init)
        ≡ both J ct_eq room_id t0 t1 agent_token client_token
  sockets_meet t0 hello hello' asks asks' =
      rw
        (
          handle_socket-connected hello t0 agent_token init asks,
          handle_socket-connected hello' t1 client_token _ asks',
        )
        (joined J ct_eq room_id t0 t1 agent_token client_token)

  pub agent_hears :
      (t0 : ℕ)
      → ((both J ct_eq room_id t0 t1 agent_token client_token).chans 0).queue
        ≡ auth_text J agent_token ∷ ping [] ∷ join_text J room_id ∷ []
  unfolding try_send init
  agent_hears t0 = refl

  pub client_hears :
      (t0 now : ℕ) (t u : Text)
      → ((with_both now
            (try_send
              (try_send (both_chans J ct_eq room_id t0 t1 agent_token client_token) 1 (text t)).0
              1
              (text u)).0).chans
          1).queue
        ≡ auth_text J client_token ∷ text t ∷ text u ∷ []
  unfolding try_send init
  client_hears t0 now t u = refl
