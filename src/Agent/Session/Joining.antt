-- ===== src/Agent/Session/Joining.antt =====
-- `Session::new`, and `run` up to the first client: the relay's address, the request to join, and
-- the loop that waits for the relay's token and for a client.
pub mod Address
use ktty.Base.{
  ℕ, ◌-◌, Text, Bytes, text, binary, ping, pong, close, Incoming, frame, failed, ended, lit, Bool,
  ◌&&◌, List, [], ◌∷◌, ◌++◌, Option, none, some, length, drop, leb, ◌==◌, if◌then◌else◌, text_eq,
}
use ktty.Common.Crypto
use ktty.Common.Messages.{JoinMessage}
use ktty.Deps.Ciphers.{Encodings}
use ktty.Deps.Json.{Json, member_str}
use ktty.Agent.Session.State.{Outbox, send, mentions, can_slice}
use ktty.Agent.Session.Handshake.{or_same}

pub record Session : Type 0 where
  pub relay_url : Text
  pub derived_key : Bytes
  pub room_id : Text

unfoldable pub new : Encodings → Text → Bytes → Session
new E relay_url derived_key = record {
  relay_url = relay_url;
  derived_key = derived_key;
  room_id = Crypto.room_id E derived_key;
}

-- `trim_end_matches`, of one character
unfoldable pub trim_end_matches : ℕ → Text → Text
trim_end_matches c [] = []
trim_end_matches c (x ∷ xs) =
    let rest = trim_end_matches c xs in if length rest == 0 && x == c then [] else x ∷ rest

unfoldable pub ends_with : Text → Text → Bool
ends_with t suffix =
    leb (length suffix) (length t) && text_eq (drop (length t - length suffix) t) suffix

-- The address of the relay's socket.
unfoldable pub ws_url : Text → Text
ws_url relay_url =
    let base = trim_end_matches b'/' relay_url in
    if ends_with base (lit "/ws") then base else base ++ lit "/ws"

-- The loop goes on, with the token if it has come; a client has joined; the relay is lost; or it
-- panics.
pub data Joining : Type 0 where
  awaits : Option Text → Outbox → Joining
  found : Option Text → Outbox → Joining
  disconnected : Joining
  crashes : Joining

module _ (J : Json) where
  unfoldable pub join_request : JoinMessage → Text
  join_request join = J.to_string (
      J.object ((lit "action", J.string join.action) ∷ (lit "room_id", J.string join.room_id) ∷ []))

  -- The relay's token, where the message brings it.
  unfoldable pub token_in : Text → Option Text
  token_in t =
      let parsed : Option Text = elim (J.from_str t) [
        | none ↦ none
        | some val ↦ member_str J val (lit "token")
      ] in
      if mentions t "type" "auth" then parsed else none

  unfoldable pub joining_text : Text → Option Text → Outbox → Joining
  unfolding token_in
  joining_text t token o =
      let heard : Joining = elim (token_in t) [
        | some token' ↦ awaits (some token') o
        | none ↦ if mentions t "action" "join" then found token o else awaits token o
      ] in
      if can_slice t 100 then heard else crashes

  unfoldable pub joining_socket : Incoming → Option Text → Outbox → Joining
  unfolding joining_text
  joining_socket (frame (text t)) token o = joining_text t token o
  joining_socket (frame (ping d)) token o = awaits token (or_same (send (pong d) o) o)
  joining_socket (frame (pong d)) token o = awaits token o
  joining_socket (frame (binary b)) token o = awaits token o
  joining_socket (frame close) token o = awaits token o
  joining_socket failed token o = disconnected
  joining_socket ended token o = disconnected
