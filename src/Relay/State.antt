-- ===== src/Relay/State.antt =====
-- The relay's shared state: the map of rooms behind the mutex, and the channels.
use ktty.Base.{ℕ, Text, Message, text, lit, [], ◌∷◌}
use ktty.Deps.Json.{Json}
use ktty.Relay.Channel.{Tx, Chans, open_channel}
use ktty.Relay.RoomMap.{Rooms}

pub record Relay : Type 0 where
  pub rooms : Rooms
  pub chans : Chans
  pub next_tx : Tx  -- the first reference that no channel has

-- The room and the slot of a connection.
pub record Conn : Type 0 where
  pub room_id : Text
  pub peer_id : ℕ

unfoldable pub init : Relay
init = record { rooms = []; chans = λ t. open_channel; next_tx = 0 }

-- The relay's own messages.
module _ (J : Json) where
  abbrev pub auth_text : Text → Message
  auth_text token = text (
      J.to_string
        (J.object ((lit "type", J.string (lit "auth")) ∷ (lit "token", J.string token) ∷ [])))

  abbrev pub join_text : Text → Message
  join_text room_id = text (
      J.to_string
        (J.object ((lit "action", J.string (lit "join")) ∷ (lit "room_id", J.string room_id) ∷ [])))

  abbrev pub disconnect_text : ℕ → Message
  disconnect_text peer_id = text (
      J.to_string (
        J.object (
          (lit "type", J.string (lit "peer_disconnect")) ∷ (lit "peer_id", J.number peer_id) ∷ [])))
