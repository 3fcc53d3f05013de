-- ===== src/Meeting/Stamps.antt =====
-- A message that the agent stamped with its token, before and after the relay.
use ktty.Base.{◌≡◌, ◌∙◌, refl, Text, Bytes, text, lit, Bool, false, List, some, is_some, text_eq}
use ktty.Deps.Json.{Json, member_str, IsLawful, MemberLaws}
use ktty.Agent.Session.Handshake.{stamp}
use ktty.Relay.Handler.{strip_auth}
use ktty.Relay.Delivery.Stripping.{strip_auth_lem}

module _ (J : Json) where
  -- The text is an object with these fields, and with the token.
  pub record Stamped (token : Text) (fields : List (Text × J.Value)) (t : Text) : Type 0 where
    pub value : J.Value
    pub parses : J.from_str t ≡ some value
    pub carries : member_str J value (lit "auth") ≡ some token
    pub others :
        (k : Text)
        → text_eq (lit "auth") k ≡ false
        → member_str J value k ≡ member_str J (J.object fields) k

  pub stamp-Stamped :
      IsLawful J
      → MemberLaws J
      → (token : Text) (fields : List (Text × J.Value))
      → Stamped token fields (J.to_string (stamp J (some token) (J.object fields)))
  unfolding stamp text_eq
  stamp-Stamped laws members token fields =
      let (u, parsed, there, read) =
        laws.from_str-to_string (stamp J (some token) (J.object fields)) in
      record {
        value = u;
        parses = parsed;
        carries =
            read (lit "auth") ∙ members.member_str-insert fields (lit "auth") token (lit "auth");
        others = λ k other.
            read k ∙ members.member_str-insert fields (lit "auth") token k ∙ rw other refl;
      }

  -- What the relay makes of it has the same fields, and no token.
  pub Stamped-strip_auth :
      (ct_eq : Bytes → Bytes → Bool)
      → IsLawful J
      → (token : Text) (fields : List (Text × J.Value)) (t : Text) → Stamped token fields t
      → (t' : Text) × (w : J.Value) × (strip_auth J ct_eq (text t) ≡ text t')
        × (J.from_str t' ≡ some w)
        × (is_some (J.get w (lit "auth")) ≡ false)
        × ((k : Text)
            → text_eq (lit "auth") k ≡ false
            → member_str J w k ≡ member_str J (J.object fields) k)
  unfolding text_eq
  Stamped-strip_auth ct_eq laws token fields t s =
      let (t', w, stripped, parsed, kept) = strip_auth_lem J ct_eq laws t s.value s.parses in
      (
        t',
        w,
        stripped,
        parsed,
        (kept (lit "auth")).0,
        λ k other. (kept k).1 ∙ rw other (s.others k other),
      )
