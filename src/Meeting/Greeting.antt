-- ===== src/Meeting/Greeting.antt =====
-- The agent's side of a rendezvous: what it makes of the relay's own texts.
use ktty.Base.{
  Bool-cases, inl, inr, ℕ, ◌≡◌, refl, ◌∙◌, Text, text, ping, pong, frame, lit, true, false, [], ◌∷◌,
  Option, none, some, text_eq,
}
use Prim.Native.String.{String}
use ktty.Common.Messages.{boot_signal, join_message}
use ktty.Deps.Json.{Json, member_str, IsUnescaped, IsLawful, MemberLaws, PrintLaws}
use ktty.Deps.Crates.{Crates}
use ktty.Agent.Session.State.{Outbox, mentions, can_slice, send}
use ktty.Agent.Session.Bridge.{socket}
use ktty.Agent.Session.Handshake.{or_same, offer_text}
use ktty.Agent.Session.Handshake.Agreement.{offer_of, open_outbox}
use ktty.Agent.Session.Joining.{
  Session, awaits, found, join_request, token_in, joining_text, joining_socket,
}
use ktty.Agent.Session.Run.{Phase, boot_text, after_joining, step, steps, start}
use ktty.Agent.Session.Run.Reconnecting.{boot_lem}

module _ (J : Json) where
  abbrev pub auth_of : Text → Text
  auth_of token =
      J.to_string
        (J.object ((lit "type", J.string (lit "auth")) ∷ (lit "token", J.string token) ∷ []))

  abbrev pub join_of : Text → Text
  join_of room_id =
      J.to_string
        (J.object ((lit "action", J.string (lit "join")) ∷ (lit "room_id", J.string room_id) ∷ []))

module _ (J : Json) (laws : IsLawful J) (members : MemberLaws J) (prints : PrintLaws J) where
  -- An object whose first member is a text, in the words of the test for control messages.
  object-mentions :
      (k s : String) (j : Text) (v : J.Value)
      → IsUnescaped (lit k)
      → IsUnescaped (lit s)
      → text_eq j (lit k) ≡ false
      → mentions (J.to_string (J.object ((lit k, J.string (lit s)) ∷ (j, v) ∷ []))) k s ≡ true
  object-mentions k s j v plain plain' fresh =
      rw
        (
          prints.contains-key [] ((j, v) ∷ []) (lit k) (J.string (lit s)) plain,
          prints.contains-string [] ((j, v) ∷ []) (lit k) (lit s) plain' (fresh, tt),
        )
        refl

  auth_of-mentions : (token : Text) → mentions (auth_of J token) "type" "auth" ≡ true
  unfolding text_eq
  auth_of-mentions token =
      object-mentions "type" "auth" (lit "token") (J.string token)
        (refl, (refl, (refl, (refl, tt)))) (refl, (refl, (refl, (refl, tt)))) refl

  join_of-mentions : (room_id : Text) → mentions (join_of J room_id) "action" "join" ≡ true
  unfolding text_eq
  join_of-mentions room_id =
      object-mentions "action" "join" (lit "room_id") (J.string room_id)
        (refl, (refl, (refl, (refl, (refl, (refl, tt)))))) (refl, (refl, (refl, (refl, tt)))) refl

  -- The agent finds the token in the relay's text.
  token_in-auth_of : (token : Text) → token_in J (auth_of J token) ≡ some token
  unfolding token_in text_eq
  token_in-auth_of token =
      let (w, parsed, there, read) =
        laws.from_str-to_string
          (J.object ((lit "type", J.string (lit "auth")) ∷ (lit "token", J.string token) ∷ [])) in
      let found' : member_str J w (lit "token") ≡ some token =
        read (lit "token")
        ∙ members.member_str-next (lit "type") (lit "token") _ _ refl
        ∙ members.member_str-object (lit "token") token [] tt in
      rw (auth_of-mentions token, parsed, found') refl

  -- It finds none in a notice of a join.
  token_in-join_of : (room_id : Text) → token_in J (join_of J room_id) ≡ none
  unfolding token_in text_eq
  token_in-join_of room_id =
      let (w, parsed, there, read) = laws.from_str-to_string (
        J.object
          ((lit "action", J.string (lit "join")) ∷ (lit "room_id", J.string room_id) ∷ [])) in
      let absent : member_str J w (lit "token") ≡ none =
        read (lit "token")
        ∙ members.member_str-next (lit "action") (lit "token") _ _ refl
        ∙ members.member_str-next (lit "room_id") (lit "token") _ _ refl
        ∙ members.member_str-empty (lit "token") in
      elim (Bool-cases (mentions (join_of J room_id) "type" "auth")) [
        | inl e ↦ rw (e, parsed, absent) refl
        | inr e ↦ rw e refl
      ]

  joining-auth_of :
      (token : Text) (held : Option Text) (o : Outbox)
      → can_slice (auth_of J token) 100 ≡ true
      → joining_text J (auth_of J token) held o ≡ awaits (some token) o
  unfolding joining_text
  joining-auth_of token held o short = rw (short, token_in-auth_of token) refl

  joining-join_of :
      (room_id : Text) (held : Option Text) (o : Outbox)
      → can_slice (join_of J room_id) 100 ≡ true
      → joining_text J (join_of J room_id) held o ≡ found held o
  unfolding joining_text
  joining-join_of room_id held o short =
      rw (short, token_in-join_of room_id, join_of-mentions room_id) refl

module _ (X : Crates) (laws : IsLawful X.json) (members : MemberLaws X.json)
    (prints : PrintLaws X.json) (S : Session) (seed : ℕ → X.kem.Seed) where
  -- The token, a ping, and the notice that a client is there, in this order: the agent takes the
  -- token, answers the ping, and greets the client.
  pub greets :
      (token room_id : Text) (n1 n2 n3 : ℕ)
      → can_slice (auth_of X.json token) 100 ≡ true
      → can_slice (join_of X.json room_id) 100 ≡ true
      → steps X S seed
          (socket n1 (frame (text (auth_of X.json token)))
            ∷ socket n2 (frame (ping []))
            ∷ socket n3 (frame (text (join_of X.json room_id)))
            ∷ [])
          (start X S seed)
        ≡ record (start X S seed) {
          phase = Phase.shaking (X.kem.generate (seed 0)).0;
          token = some token;
          seeds = 1;
          agent = record (start X S seed).agent {
            last_ws_rx = n3;
            outbox = open_outbox (
                text (join_request X.json (join_message S.room_id))
                ∷ pong []
                ∷ text (boot_text X S seed (some token) boot_signal)
                ∷ text (offer_text X S.derived_key (some token) (offer_of X (seed 0)))
                ∷ []);
          };
        }
  unfolding steps step start after_joining joining_socket send or_same
  greets token room_id n1 n2 n3 short short' =
      let joining : Outbox =
        open_outbox (text (join_request X.json (join_message S.room_id)) ∷ pong [] ∷ []) in
      rw
        (
          joining-auth_of X.json laws members prints token none _ short,
          joining-join_of X.json laws members prints room_id (some token) joining short',
        )
        (boot_lem X S seed
          (record (start X S seed) {
            token = some token;
            agent = record (start X S seed).agent { last_ws_rx = n3; outbox = joining };
          })
          refl)
