-- ===== src/Deps/Json.antt =====
-- `serde_json::Value`: parsing, printing, members.
use ktty.Base.{
  ℕ, Text, ◌≡◌, Option, none, some, List, [], ◌∷◌, ◌++◌, All, true, false, leb, ◌==◌, ◌&&◌, ◌||◌,
  contains, text_eq, is_some, if◌then◌else◌,
}
use mathlib.Core.Option

pub record Json : Type 1 where
  pub Value : Type 0
  pub from_str : Text → Option Value
  pub to_string : Value → Text
  pub string : Text → Value
  pub number : ℕ → Value
  pub object : List (Text × Value) → Value  -- `json!({…})`
  pub get : Value → Text → Option Value
  pub as_str : Value → Option Text
  pub remove : Value → Text → Value  -- `as_object_mut().unwrap().remove`, on an object
  pub insert : Value → Text → Value → Value  -- `v[k] = w`, on an object

-- A text that is printed as it is: small letters and underscores.
abbrev pub IsUnescaped : Text → Type 0
IsUnescaped s = All (λ b. (leb b'a' b && leb b b'z' || b == b'_') ≡ true) s

abbrev pub in_quotes : Text → Text
in_quotes s = b'"' ∷ (s ++ b'"' ∷ [])

module _ (J : Json) where
  open J use {Value, from_str, to_string, get, as_str, remove}

  -- `v[k].as_str()`: indexing gives null where there is no such member.
  abbrev pub member_str : Value → Text → Option Text
  member_str v k = Option.bind (get v k) as_str

  pub record IsLawful : Type 0 where
    pub get-remove :
        (v : Value) (k j : Text) → get (remove v k) j ≡ (if text_eq k j then none else get v j)
    -- A printed value parses to one with the same members.
    pub from_str-to_string :
        (v : Value)
        → (w : Value) × (from_str (to_string v) ≡ some w)
          × ((k : Text) → is_some (get w k) ≡ is_some (get v k))
          × ((k : Text) → member_str w k ≡ member_str v k)

  -- The members of an object that is written out, and of one that got another text.
  pub record MemberLaws : Type 0 where
    pub member_str-object :
        (k s : Text) (fields : List (Text × Value))
        → All (λ z. text_eq z.0 k ≡ false) fields
        → member_str (J.object ((k, J.string s) ∷ fields)) k ≡ some s
    pub member_str-next :
        (j k : Text) (v : Value) (fields : List (Text × Value))
        → text_eq j k ≡ false
        → member_str (J.object ((j, v) ∷ fields)) k ≡ member_str (J.object fields) k
    pub member_str-empty : (k : Text) → member_str (J.object []) k ≡ none
    pub member_str-insert :
        (fields : List (Text × Value)) (k s j : Text)
        → member_str (J.insert (J.object fields) k (J.string s)) j
          ≡ (if text_eq k j then some s else member_str (J.object fields) j)

  -- What a printed object contains: each of its keys in double quotes, and each of its texts that no
  -- later member replaces.
  pub record PrintLaws : Type 0 where
    pub contains-key :
        (before after : List (Text × Value)) (k : Text) (v : Value)
        → IsUnescaped k
        → contains (to_string (J.object (before ++ (k, v) ∷ after))) (in_quotes k) ≡ true
    pub contains-string :
        (before after : List (Text × Value)) (k s : Text)
        → IsUnescaped s
        → All (λ z. text_eq z.0 k ≡ false) after
        → contains (to_string (J.object (before ++ (k, J.string s) ∷ after))) (in_quotes s) ≡ true
