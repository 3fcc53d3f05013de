-- ===== src/Tests/Meeting.antt =====
-- An agent and a client that meet in an empty relay, over the toy crates.
use ktty.Base.{
  ℕ, ◌≡◌, ◌≤◌, refl, arith, Text, Message, text, Incoming, frame, lit, [], ◌∷◌, some, true, length,
  drop, text_eq, text_eq_iff, is_char_boundary,
}
use mathlib.Core.Option
use ktty.Common.Messages.{boot_signal, join_message, handshake_offer}
use ktty.Agent.Session.State.{can_slice}
use ktty.Agent.Session.Handshake.{stamp, offer_text}
use ktty.Agent.Session.Handshake.Agreement.{offer_of}
use ktty.Agent.Session.Joining.{Session, join_request}
use ktty.Agent.Session.Run.{Phase, boot_text, steps, start}
use ktty.Relay.State.{init, auth_text}
use ktty.Meeting.Greeting.{auth_of, join_of}
use ktty.Relay.Handler.{max_text_frame_bytes, first_room_id, parse_join}
use ktty.Relay.Socket.{read_loop, handle_socket}
use ktty.Meeting.Offer.{Brings, Signals}
use ktty.Meeting.Relayed.{said, heard}
use ktty.Meeting.Rendezvous.{rendezvous}
use ktty.Tests.ToyJson.{toy_json, toy_json-IsLawful, toy_json-MemberLaws}
use ktty.Tests.ToyJson.Printing.{toy_json-PrintLaws}
use ktty.Tests.ToyCrates.{toy_encodings}
use ktty.Tests.ToyCiphers.{toy_crates, toy_kem, replicate}

abbrev session : Session
session = record { relay_url = lit "ws://h"; derived_key = replicate 32 9; room_id = lit "r" }

unfoldable seeds : ℕ → toy_crates.kem.Seed
unfolding toy_crates toy_kem
seeds i = i

abbrev hello : Incoming
hello = frame (text (join_request toy_crates.json (join_message (lit "r"))))

asks : first_room_id toy_crates.json text_eq hello ≡ some (lit "r")
unfolding first_room_id parse_join join_request join_message toy_crates toy_json text_eq Option.bind
asks = refl

join_short : length (join_request toy_crates.json (join_message (lit "r"))) ≤ max_text_frame_bytes
unfolding join_request join_message toy_crates toy_json
join_short = omega arith

boot_short :
    length (boot_text toy_crates session seeds (some (lit "t0")) boot_signal) ≤ max_text_frame_bytes
unfolding boot_text boot_signal stamp toy_crates toy_json text_eq
boot_short = omega arith

offer_short :
    length
      (offer_text toy_crates session.derived_key (some (lit "t0")) (offer_of toy_crates (seeds 0)))
    ≤ max_text_frame_bytes
unfolding offer_text stamp toy_crates toy_json handshake_offer text_eq toy_kem toy_encodings seeds
offer_short = omega arith

auth_cut : can_slice (auth_of toy_crates.json (lit "t0")) 100 ≡ true
unfolding toy_crates toy_json is_char_boundary
auth_cut = refl

join_cut : can_slice (join_of toy_crates.json (lit "r")) 100 ≡ true
unfolding toy_crates toy_json is_char_boundary
join_cut = refl

at : Message → ℕ
at m = 4

rendezvous_example :
    let r =
      handle_socket toy_crates.json text_eq hello 8
        (lit "t1")
        []
        (handle_socket toy_crates.json text_eq hello 2 (lit "t0") [] init) in
    let s =
      steps toy_crates session seeds
        (heard at (r.chans 0).queue)
        (start toy_crates session seeds) in
    let r' =
      (read_loop toy_crates.json text_eq
        (record { room_id = lit "r"; peer_id = 0 })
        (said 9 (drop 1 s.agent.outbox.sent))
        r).0 in
    (s.phase ≡ Phase.shaking (toy_crates.kem.generate (seeds 0)).0)
    × (s.token ≡ some (lit "t0"))
    × ((b : Text) × (o : Text) × (((r'.chans 1).queue
            ≡ auth_text toy_crates.json (lit "t1") ∷ text b ∷ text o ∷ [])
          × Signals toy_crates (lit "boot") b
          × Brings toy_crates (offer_of toy_crates (seeds 0)) o))
unfolding toy_crates
rendezvous_example =
    rendezvous toy_crates toy_json-IsLawful toy_json-MemberLaws toy_json-PrintLaws text_eq
      text_eq_iff session seeds 2 8 9 at (lit "t0") (lit "t1") hello refl join_short boot_short
      offer_short auth_cut join_cut asks
