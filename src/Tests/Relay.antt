-- ===== src/Tests/Relay.antt =====
-- The relay on a room of two, over the toy JSON library.
use ktty.Base.{
  ◌↔◌, ℕ, false, if◌then◌else◌, ◌≤◌, ◌≡◌, ◌≢◌, refl, ap, lit, Text, text, binary, List, [], ◌∷◌,
  true, false, none, some, arith, word_add, length, text_eq, text_eq_iff, is_some, All, get_elem?,
}
use mathlib.Core.Option
use ktty.Deps.Json.{member_str}
use ktty.Relay.Channel.{offered, try_send}
use ktty.Relay.Room
use ktty.Relay.Room.{
  Peer, Room, add_peer, retain_pinged, least_active, find_peer, remove_at, touch, send_others,
}
use ktty.Relay.RoomMap.{get, insert}
use ktty.Relay.State.{auth_text, Relay, Conn, init, disconnect_text}
use ktty.Relay.Handler.{
  send_token, max_text_frame_bytes, make_room, register, strip_auth, forward, handle_message,
  disconnect, evict_stale, admits, token_ok,
}
use ktty.Relay.Socket.{Section, registers, run}
use ktty.Relay.Invariant.State.{Inv}
use ktty.Relay.Invariant.Steps.{run-init-Inv}
use ktty.Relay.Delivery.Forwarding.{Authentic, text_needs_token, text_forwarded, binary_unchecked}
use ktty.Relay.Delivery.Stripping.{strip_auth_lem}
use ktty.Relay.Membership.Joining.{make_room_evicts}
use ktty.Relay.Membership.Leaving.{disconnect_notifies, evicted_end_misleads}
use ktty.Relay.Membership.Sweeping.{evict_stale-swept, swept}
use ktty.Relay.Membership.Slots.{admits-register}
use ktty.Relay.Membership.Reuse.{first_peer, reused_id}
use ktty.Relay.Delivery.Sending.{receives}
use ktty.Common.Messages.{HandshakeOffer, handshake_offer}
use ktty.Agent.Session.Handshake.{stamp, offer_text}
use ktty.Meeting.Offer.{Brings, offer_forwarded}
use ktty.Tests.ToyJson.{toy_json, toy_json-IsLawful, toy_json-MemberLaws, obj, str}
use ktty.Tests.ToyCiphers.{toy_crates}

abbrev pub room_a : Text
room_a = lit "a"

abbrev sections : List Section
sections = registers room_a 5 (lit "t0") ∷ registers room_a 7 (lit "t1") ∷ []

pub pair : Relay
unfolding run
pair = run toy_json text_eq sections init

run-init-Inv_example : Inv 2 (run toy_json text_eq sections init)
run-init-Inv_example = run-init-Inv toy_json text_eq sections (omega arith)

pub pair-Inv : Inv 2 pair
unfolding pair
pair-Inv = run-init-Inv toy_json text_eq sections (omega arith)

abbrev pub peer0 : Peer
peer0 = record { id = 0; tx = 0; last_activity = 5; auth_token = lit "t0" }

abbrev pub peer1 : Peer
peer1 = record { id = 1; tx = 1; last_activity = 7; auth_token = lit "t1" }

abbrev pub pair_room : Room
pair_room = record { peers = peer0 ∷ peer1 ∷ []; next_id = 2 }

pub pair_found : get room_a pair.rooms ≡ some pair_room
unfolding pair run register get insert add_peer retain_pinged try_send least_active text_eq word_add
    init Room.new
pair_found = refl

abbrev pub conn0 : Conn
conn0 = record { room_id = room_a; peer_id = 0 }

abbrev pub conn1 : Conn
conn1 = record { room_id = room_a; peer_id = 1 }

evicted : Conn
evicted = record { room_id = room_a; peer_id = 9 }

speech_value : toy_json.Value
unfolding toy_json
speech_value = obj ((lit "auth", str (lit "t1")) ∷ (lit "x", str (lit "y")) ∷ [])

speech : Text
unfolding toy_json speech_value
speech = toy_json.to_string speech_value

speech_parses : toy_json.from_str speech ≡ some speech_value
unfolding toy_json speech_value speech
speech_parses = refl

speech_carries : member_str toy_json speech_value (lit "auth") ≡ some (lit "t1")
unfolding toy_json speech_value text_eq Option.bind
speech_carries = refl

speech_Authentic : Authentic toy_json text_eq text_eq_iff conn1 speech pair
unfolding find_peer speech toy_json speech_value text_eq Option.bind
speech_Authentic = (pair_room, peer1, speech_value, omega arith, pair_found, refl, refl, refl)

text_forwarded_example :
    ((handle_message toy_json text_eq conn1 9 (text speech) pair).0.chans 0
      ≡ offered (pair.chans 0) (strip_auth toy_json text_eq (text speech)))
    × ((handle_message toy_json text_eq conn1 9 (text speech) pair).1 ≡ true)
unfolding speech_Authentic
text_forwarded_example =
    text_forwarded toy_json text_eq text_eq_iff 2 conn1 9 speech pair 0 pair-Inv speech_Authentic

speech_heard : (handle_message toy_json text_eq conn1 9 (text speech) pair).0 ≢ pair
unfolding pair run register get insert add_peer retain_pinged try_send least_active text_eq word_add
    init Room.new handle_message forward admits token_ok send_others touch find_peer speech toy_json
    speech_value Option.bind offered strip_auth
speech_heard e = absurd (omega (arith, ap (λ (r : Relay). length (r.chans 0).queue) e))

text_needs_token_example : Authentic toy_json text_eq text_eq_iff conn1 speech pair
text_needs_token_example =
    text_needs_token toy_json text_eq text_eq_iff conn1 9 speech pair speech_heard

binary_unchecked_example :
    (handle_message toy_json text_eq evicted 9 (binary (1 ∷ [])) pair).0.chans 0
    ≡ offered (pair.chans 0) (binary (1 ∷ []))
unfolding evicted find_peer
binary_unchecked_example =
    binary_unchecked toy_json text_eq text_eq_iff 2 evicted 9 (1 ∷ []) pair pair_room 0 pair-Inv
      pair_found refl

strip_auth_lem_example :
    (t' : Text) × (w : toy_json.Value) × (strip_auth toy_json text_eq (text speech) ≡ text t')
    × (toy_json.from_str t' ≡ some w)
    × ((k : Text)
        → (is_some (toy_json.get w k)
            ≡ (if text_eq (lit "auth") k then false else is_some (toy_json.get speech_value k)))
          × (member_str toy_json w k
              ≡ (if text_eq (lit "auth") k then none else member_str toy_json speech_value k)))
strip_auth_lem_example =
    strip_auth_lem toy_json text_eq toy_json-IsLawful speech speech_value speech_parses

make_room_evicts_example :
    (i : ℕ) × (p : Peer) × (get_elem? (peer0 ∷ peer1 ∷ []) i ≡ some p)
    × All (λ q. p.last_activity ≤ q.last_activity) (peer0 ∷ peer1 ∷ [])
    × (make_room toy_json text_eq pair.chans (peer0 ∷ peer1 ∷ []) ≡ (
      (try_send pair.chans p.tx (disconnect_text toy_json p.id)).0,
      remove_at (peer0 ∷ peer1 ∷ []) i,
    ))
make_room_evicts_example =
    make_room_evicts toy_json text_eq pair.chans (peer0 ∷ peer1 ∷ []) (omega arith)

disconnect_notifies_example :
    (disconnect toy_json text_eq conn0 pair).chans 1
    ≡ offered (pair.chans 1) (disconnect_text toy_json 0)
disconnect_notifies_example =
    disconnect_notifies toy_json text_eq 2 conn0 pair pair_room 1 pair-Inv pair_found

evicted_end_misleads_example :
    (get room_a (disconnect toy_json text_eq evicted pair).rooms ≡ some pair_room)
    × ((disconnect toy_json text_eq evicted pair).chans 1
        ≡ offered (pair.chans 1) (disconnect_text toy_json 9))
unfolding evicted find_peer
evicted_end_misleads_example =
    evicted_end_misleads toy_json text_eq 2 evicted pair pair_room 1 pair-Inv pair_found refl refl

evict_stale-swept_example :
    (evict_stale 60_000_000_006 pair).rooms ≡ swept 60_000_000_006 pair.chans pair.rooms
evict_stale-swept_example = evict_stale-swept 2 60_000_000_006 pair pair-Inv

-- The third join of the room puts peer 0 out.
admits-register_example :
    let (r', c, tx) = register toy_json text_eq room_a 9 (lit "t1") pair in
    let greeted = send_token toy_json text_eq tx (lit "t1") r' in
    (greeted.chans tx ≡ record { queue = auth_text toy_json (lit "t1") ∷ []; closed = false })
    × ((admits toy_json text_eq c speech greeted ≡ true) ↔ (lit "t1" ≡ lit "t1"))
unfolding speech toy_json speech_value
admits-register_example =
    admits-register toy_json text_eq text_eq_iff 2 room_a 9 (lit "t1") (lit "t1") pair speech
      speech_value pair-Inv (omega arith) (omega arith) speech_parses speech_carries

reused_id_example :
    let (r1, c1, tx1) = register toy_json text_eq room_a 0 (lit "t0") init in
    let (r3, c3, tx3) =
      register toy_json text_eq room_a 70_000_000_000 (lit "t2") (evict_stale 61_000_000_000 r1) in
    (c3 ≡ c1)
    × (get room_a r3.rooms
        ≡ some (record { peers = first_peer tx3 70_000_000_000 (lit "t2") ∷ []; next_id = 1 }))
    × (get room_a (disconnect toy_json text_eq c1 r3).rooms ≡ none)
reused_id_example =
    reused_id toy_json text_eq room_a 0 61_000_000_000 70_000_000_000 (lit "t0") (lit "t2")
      (omega arith)

abbrev offer : HandshakeOffer
offer = handshake_offer (lit "key")

offer_short :
    length (offer_text toy_crates (lit "k") (some (lit "t1")) offer) ≤ max_text_frame_bytes
unfolding offer_text stamp toy_crates toy_json handshake_offer text_eq
offer_short = omega arith

-- The agent is the second peer of the room.
offer_forwarded_example :
    (t : Text) × Brings toy_crates offer t
    × ((tx : ℕ)
        → (handle_message toy_json text_eq conn1 9
              (text (offer_text toy_crates (lit "k") (some (lit "t1")) offer))
              pair).0.chans
            tx
          ≡ (if receives 1 tx pair_room.peers
              then offered (pair.chans tx) (text t)
              else pair.chans tx))
unfolding find_peer toy_crates
offer_forwarded_example =
    offer_forwarded toy_crates text_eq text_eq_iff toy_json-IsLawful toy_json-MemberLaws (lit "k")
      (lit "t1") offer 2 conn1 9 pair pair_room peer1 pair-Inv pair_found refl refl offer_short
