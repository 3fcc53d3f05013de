-- ===== src/Relay/Delivery/Stripping.antt =====
-- The token does not travel past the relay.
use ktty.Base.{
  ◌≡◌, ◌∙◌, ap, Text, Bytes, text, lit, Bool, false, none, some, is_some, text_eq_iff, text_eq,
  if◌then◌else◌, arith, Bool-cases, inl, inr,
}
use mathlib.Core.Option
use ktty.Deps.Json.{Json, IsLawful, member_str}
use ktty.Relay.Handler.{strip_auth}

module _ (J : Json) (ct_eq : Bytes → Bytes → Bool) (laws : IsLawful J) where
  removed_some :
      (val : J.Value) (k : Text)
      → is_some (J.get (J.remove val (lit "auth")) k)
        ≡ (if text_eq (lit "auth") k then false else is_some (J.get val k))
  removed_some val k = rw (laws.get-remove val (lit "auth") k) (ground arith)

  removed_str :
      (val : J.Value) (k : Text)
      → member_str J (J.remove val (lit "auth")) k
        ≡ (if text_eq (lit "auth") k then none else member_str J val k)
  unfolding Option.bind
  removed_str val k = elim (Bool-cases (text_eq (lit "auth") k)) [
    | inl same ↦ rw (laws.get-remove val (lit "auth") k, same)
    | inr other ↦ rw (laws.get-remove val (lit "auth") k, other)
  ]

  -- In a value with no `auth` member, that member reads as absent.
  unchanged :
      (val : J.Value) (k : Text)
      → is_some (J.get val (lit "auth")) ≡ false
      → (is_some (J.get val k) ≡ (if text_eq (lit "auth") k then false else is_some (J.get val k)))
        × (member_str J val k ≡ (if text_eq (lit "auth") k then none else member_str J val k))
  unfolding Option.bind
  unchanged val k absent = elim (Bool-cases (text_eq (lit "auth") k)) [
    | inr other ↦ (rw other, rw other)
    | inl same ↦
        let here = (text_eq_iff (lit "auth") k).0 same in
        let none_there : J.get val (lit "auth") ≡ none = ground arith in
        (rw (same, ← here) absent, rw (same, ← here) (ap (λ o. Option.bind o J.as_str) none_there))
  ]

  -- Take a text that parses. What is forwarded for it is a text that parses too; that has no
  -- `auth` member, has each other member exactly if the original has it, and reads it as the same
  -- text, or as none where the original is not a text.
  pub strip_auth_lem :
      (t : Text) (val : J.Value)
      → J.from_str t ≡ some val
      → (t' : Text) × (w : J.Value) × (strip_auth J ct_eq (text t) ≡ text t')
        × (J.from_str t' ≡ some w)
        × ((k : Text)
            → (is_some (J.get w k)
                ≡ (if text_eq (lit "auth") k then false else is_some (J.get val k)))
              × (member_str J w k ≡ (if text_eq (lit "auth") k then none else member_str J val k)))
  unfolding strip_auth
  strip_auth_lem t val e = elim (Bool-cases (is_some (J.get val (lit "auth")))) [
    | inr absent ↦ (t, val, rw (e, strip_auth, absent), e, λ k. unchanged val k absent)
    | inl present ↦
        let (w, parsed, same, same_str) = laws.from_str-to_string (J.remove val (lit "auth")) in
        (
          J.to_string (J.remove val (lit "auth")),
          w,
          rw (e, strip_auth, present),
          parsed,
          λ k. (same k ∙ removed_some val k, same_str k ∙ removed_str val k),
        )
  ]
