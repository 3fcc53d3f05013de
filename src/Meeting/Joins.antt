-- ===== src/Meeting/Joins.antt =====
-- The relay's side of a rendezvous: from an empty relay, the agent joins its room, and then a
-- client.
use ktty.Base.{ℕ, ◌≡◌, refl, ◌∙◌, Text, Bytes, ping, Bool, [], ◌∷◌, some, text_eq_refl, word_add}
use ktty.Deps.Json.{Json}
use ktty.Relay.Channel.{Chans, try_send, update, open_channel}
use ktty.Relay.Room
use ktty.Relay.Room.{Peer, Room, add_peer, retain_pinged, least_active, send_others}
use ktty.Relay.RoomMap.{get, insert}
use ktty.Relay.State.{Relay, init, auth_text, join_text}
use ktty.Relay.Handler.{register, send_token, notify_join}
use ktty.Relay.Socket.{read_loop, connected}

module _ (J : Json) (ct_eq : Bytes → Bytes → Bool) where
  -- A connection that has not said anything more.
  connected_lem :
      (room_id : Text) (now : ℕ) (token : Text) (r : Relay) (room : Room)
      → get room_id (register J ct_eq room_id now token r).0.rooms ≡ some room
      → let (r', c, tx) = register J ct_eq room_id now token r in
        connected J ct_eq room_id now token [] r ≡ record r' {
          chans =
              send_others c.peer_id
                (join_text J room_id)
                (try_send r'.chans tx (auth_text J token)).0
                room.peers;
        }
  unfolding connected read_loop register send_token notify_join
  connected_lem room_id now token r room e = rw (e, notify_join) refl

module _ (J : Json) (ct_eq : Bytes → Bytes → Bool) (room_id : Text) (t0 t1 : ℕ)
    (agent_token client_token : Text) where
  abbrev pub agent_slot : Peer
  agent_slot = record { id = 0; tx = 0; last_activity = t0; auth_token = agent_token }

  abbrev pub client_slot : Peer
  client_slot = record { id = 1; tx = 1; last_activity = t1; auth_token = client_token }

  abbrev pub one_room : Room
  one_room = record { peers = agent_slot ∷ []; next_id = 1 }

  abbrev pub two_room : Room
  two_room = record { peers = agent_slot ∷ client_slot ∷ []; next_id = 2 }

  -- The relay with the agent alone.
  abbrev pub alone : Relay
  alone = record {
    rooms = (room_id, one_room) ∷ [];
    chans = (try_send (update init.chans 0 open_channel) 0 (auth_text J agent_token)).0;
    next_tx = 1;
  }

  abbrev pub both_chans : Chans
  both_chans =
      (try_send
        (try_send (try_send (update alone.chans 1 open_channel) 0 (ping [])).0 1
          (auth_text J client_token)).0
        0 (join_text J room_id)).0

  agent_joins : connected J ct_eq room_id t0 agent_token [] init ≡ alone
  unfolding register init Room.new insert get retain_pinged add_peer word_add send_others
  agent_joins =
      connected_lem J ct_eq room_id t0 agent_token init one_room (rw (text_eq_refl room_id) refl)

  -- The relay with both.
  abbrev pub both : Relay
  both = record { rooms = (room_id, two_room) ∷ []; chans = both_chans; next_tx = 2 }

  found : get room_id ((room_id, one_room) ∷ []) ≡ some one_room
  unfolding get
  found = rw (text_eq_refl room_id) refl

  registered : register J ct_eq room_id t1 client_token alone ≡ (
    record {
      rooms = (room_id, two_room) ∷ [];
      chans = (try_send (update alone.chans 1 open_channel) 0 (ping [])).0;
      next_tx = 2;
    },
    record { room_id = room_id; peer_id = 1 },
    1,
  )
  unfolding register insert retain_pinged add_peer word_add try_send
  registered = rw (found, text_eq_refl room_id, register) refl

  client_joins : connected J ct_eq room_id t1 client_token [] alone ≡ both
  unfolding send_others get
  client_joins =
      let entered : get room_id (register J ct_eq room_id t1 client_token alone).0.rooms
          ≡ some two_room =
        rw registered (rw (get, text_eq_refl room_id) refl) in
      connected_lem J ct_eq room_id t1 client_token alone two_room entered ∙ rw registered refl

  pub joined :
      connected J ct_eq room_id t1 client_token []
        (connected J ct_eq room_id t0 agent_token [] init)
      ≡ both
  joined = rw agent_joins client_joins
