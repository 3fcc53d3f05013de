-- ===== src/Agent/Session/Joining/Address.antt =====
-- The relay's address: what `run` makes of what the command line gives.
use ktty.Base.{
  ℕ, ◌≡◌, refl, Text, lit, true, false, ◌&&◌, [], ◌∷◌, ◌++◌, text_eq_refl, length, ◌==◌, Bool-cases,
  inl, inr, arith, length-append, drop-append, leb, ◌-◌,
}
use ktty.Agent.Session.Joining.{trim_end_matches, ends_with, ws_url}

trim_twice : (c : ℕ) (t : Text) → trim_end_matches c (trim_end_matches c t) ≡ trim_end_matches c t
unfolding trim_end_matches
trim_twice c [] = refl
trim_twice c (x ∷ xs) = elim (Bool-cases (length (trim_end_matches c xs) == 0 && x == c)) [
  | inl gone ↦ rw gone refl
  | inr left ↦ rw (left, trim_end_matches, trim_twice c xs, left) refl
]

trim-suffix : (t : Text) → trim_end_matches b'/' (t ++ lit "/ws") ≡ t ++ lit "/ws"
unfolding trim_end_matches
trim-suffix [] = refl
trim-suffix (x ∷ xs) =
    let e : (length (xs ++ lit "/ws") == 0) ≡ false =
      ground (arith, length-append xs (lit "/ws")) in
    rw (trim-suffix xs, e) refl

trim-slash : (t : Text) → trim_end_matches b'/' (t ++ lit "/") ≡ trim_end_matches b'/' t
unfolding trim_end_matches
trim-slash [] = refl
trim-slash (x ∷ xs) = rw (trim-slash xs) refl

ends_with-append : (t suffix : Text) → ends_with (t ++ suffix) suffix ≡ true
unfolding ends_with
ends_with-append t suffix =
    let fits : leb (length suffix) (length (t ++ suffix)) ≡ true =
      ground (arith, length-append t suffix) in
    rw
      (
        fits,
        drop-append t suffix (length (t ++ suffix) - length suffix)
            (omega (arith, length-append t suffix)),
      )
      (text_eq_refl suffix)

-- The address ends with the path of the socket; slashes at the end of what was given do not
-- matter; and an address that was made so is left as it is.
pub ws_url_lem :
    (relay_url : Text)
    → (ends_with (ws_url relay_url) (lit "/ws") ≡ true)
      × (ws_url (relay_url ++ lit "/") ≡ ws_url relay_url)
      × (ws_url (ws_url relay_url) ≡ ws_url relay_url)
unfolding ws_url
ws_url_lem relay_url =
    let base = trim_end_matches b'/' relay_url in
    let slash : ws_url (relay_url ++ lit "/") ≡ ws_url relay_url =
      rw (ws_url, trim-slash relay_url) refl in
    elim (Bool-cases (ends_with base (lit "/ws"))) [
      | inl e ↦ (rw (ws_url, e) e, slash, rw (ws_url, e, trim_twice b'/' relay_url, e) refl)
      | inr e ↦ (
        rw (ws_url, e) (ends_with-append base (lit "/ws")),
        slash,
        rw (ws_url, e, trim-suffix base, ends_with-append base (lit "/ws")) refl,
      )
    ]
