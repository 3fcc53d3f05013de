-- ===== src/Tests/ToyJson.antt =====
-- A concrete JSON library that meets the laws: objects of texts and numbers, printed with lengths.
pub mod Printing
use ktty.Base.{
  ℕ, zero, suc, ◌≡◌, refl, Text, List, [], ◌∷◌, ◌++◌, Option, none, some, length, take, drop,
  text_eq, text_eq_refl, Bool-cases, inl, inr, text_eq_iff, if◌then◌else◌, take-append, arith, true,
  contains, contains_here, contains_later,
}
use mathlib.Core.Option
use mathlib.Core.List.{append_assoc}
use ktty.Deps.Json.{Json, IsLawful, MemberLaws, PrintLaws, in_quotes}

pub data Atom : Type 0 where
  str : Text → Atom
  num : ℕ → Atom

pub data Value : Type 0 where
  atom : Atom → Value
  obj : List (Text × Atom) → Value

-- A text in double quotes, after its length.
put : Text → Text → Text
put s rest = length s ∷ 34 ∷ (s ++ 34 ∷ rest)

-- The text at the front, and what follows it.
get_text : Text → Option (Text × Text)
get_text (n ∷ quote ∷ t) = some (take n t, drop (suc n) t)
get_text _ = none

encode_atom : Atom → Text → Text
encode_atom (str s) rest = 0 ∷ put s rest
encode_atom (num n) rest = 1 ∷ n ∷ rest

encode_fields : List (Text × Atom) → Text
unfolding encode_atom
encode_fields [] = []
encode_fields ((k, a) ∷ fs) = put k (encode_atom a (encode_fields fs))

to_string : Value → Text
unfolding encode_atom encode_fields
to_string (atom a) = 0 ∷ encode_atom a []
to_string (obj fs) = 1 ∷ length fs ∷ encode_fields fs

decode_atom : Text → Option (Atom × Text)
decode_atom (zero ∷ t) = Option.map (λ (s, rest). (str s, rest)) (get_text t)
decode_atom (suc _ ∷ n ∷ rest) = some (num n, rest)
decode_atom _ = none

decode_fields : ℕ → Text → Option (List (Text × Atom))
unfolding decode_atom
decode_fields zero _ = some []
decode_fields (suc count) t = elim (get_text t) [
  | none ↦ none
  | some (k, rest) ↦ elim (decode_atom rest) [
    | none ↦ none
    | some (a, rest') ↦ Option.map (λ fs. (k, a) ∷ fs) (decode_fields count rest')
  ]
]

from_str : Text → Option Value
unfolding decode_atom decode_fields
from_str (zero ∷ rest) = Option.map (λ (a, _). atom a) (decode_atom rest)
from_str (suc _ ∷ count ∷ rest) = Option.map obj (decode_fields count rest)
from_str _ = none

drop-quoted : (s rest : Text) → drop (suc (length s)) (s ++ 34 ∷ rest) ≡ rest
drop-quoted [] rest = refl
drop-quoted (x ∷ s) rest = drop-quoted s rest

get_text-put : (s rest : Text) → get_text (put s rest) ≡ some (s, rest)
unfolding get_text put
get_text-put s rest = rw (take-append s (34 ∷ rest) (length s) refl, drop-quoted s rest)

decode_atom-encode_atom :
    (a : Atom) (rest : Text) → decode_atom (encode_atom a rest) ≡ some (a, rest)
unfolding decode_atom encode_atom
decode_atom-encode_atom (str s) rest = rw (get_text-put s rest)
decode_atom-encode_atom (num n) rest = refl

decode_fields-encode_fields :
    (fs : List (Text × Atom)) → decode_fields (length fs) (encode_fields fs) ≡ some fs
unfolding decode_fields encode_fields
decode_fields-encode_fields [] = refl
decode_fields-encode_fields ((k, a) ∷ fs) = rw (
  get_text-put k (encode_atom a (encode_fields fs)),
  decode_atom-encode_atom a (encode_fields fs),
  decode_fields-encode_fields fs,
  decode_fields,
)

from_str-to_string : (v : Value) → from_str (to_string v) ≡ some v
unfolding from_str to_string
from_str-to_string (atom a) = rw (decode_atom-encode_atom a [])
from_str-to_string (obj fs) = rw (decode_fields-encode_fields fs)

get_field : Text → List (Text × Atom) → Option Value
get_field k [] = none
get_field k ((j, a) ∷ fs) = if text_eq j k then some (atom a) else get_field k fs

get : Value → Text → Option Value
unfolding get_field
get (atom a) k = none
get (obj fs) k = get_field k fs

as_str : Value → Option Text
as_str (atom (str s)) = some s
as_str _ = none

remove_field : Text → List (Text × Atom) → List (Text × Atom)
remove_field k [] = []
remove_field k ((j, a) ∷ fs) =
    let rest = remove_field k fs in if text_eq j k then rest else (j, a) ∷ rest

remove : Value → Text → Value
unfolding remove_field
remove (atom a) k = atom a
remove (obj fs) k = obj (remove_field k fs)

as_atom : Value → Atom
as_atom (atom a) = a
as_atom (obj fs) = num 0

fields : List (Text × Value) → List (Text × Atom)
unfolding as_atom
fields [] = []
fields ((k, v) ∷ fs) = (k, as_atom v) ∷ fields fs

insert : Value → Text → Value → Value
unfolding as_atom remove
insert (atom a) k v = atom a
insert (obj fs) k v = obj ((k, as_atom v) ∷ remove_field k fs)

unfoldable pub toy_json : Json
unfolding put get_text to_string from_str get as_str remove fields insert
toy_json = record {
  Value = Value;
  from_str = from_str;
  to_string = to_string;
  string = λ s. atom (str s);
  number = λ n. atom (num n);
  object = λ fs. obj (fields fs);
  get = get;
  as_str = as_str;
  remove = remove;
  insert = insert;
}

pub toy_json-parses : (v : toy_json.Value) → toy_json.from_str (toy_json.to_string v) ≡ some v
unfolding toy_json
toy_json-parses v = from_str-to_string v

get_field-remove_field :
    (k j : Text) (fs : List (Text × Atom))
    → get_field j (remove_field k fs) ≡ (if text_eq k j then none else get_field j fs)
unfolding get_field remove_field
get_field-remove_field k j [] = ground arith
get_field-remove_field k j ((i, a) ∷ fs) =
    ground (arith, text_eq_iff k j, text_eq_iff i k, text_eq_iff i j, get_field-remove_field k j fs)

get-remove : (v : Value) (k j : Text) → get (remove v k) j ≡ (if text_eq k j then none else get v j)
unfolding get remove
get-remove (atom a) k j = ground arith
get-remove (obj fs) k j = get_field-remove_field k j fs

pub toy_json-IsLawful : IsLawful toy_json
unfolding toy_json
toy_json-IsLawful = record {
  get-remove = get-remove;
  from_str-to_string = λ v. (v, from_str-to_string v, λ k. refl, λ k. refl);
}

get_field-insert :
    (k j s : Text) (fs : List (Text × Atom))
    → Option.bind (get_field j ((k, str s) ∷ remove_field k fs)) as_str
      ≡ (if text_eq k j then some s else Option.bind (get_field j fs) as_str)
unfolding get_field as_str Option.bind
get_field-insert k j s fs = elim (Bool-cases (text_eq k j)) [
  | inl e ↦ rw e refl
  | inr e ↦ rw (e, get_field-remove_field k j fs, e) refl
]

pub toy_json-MemberLaws : MemberLaws toy_json
unfolding toy_json get get_field as_str fields as_atom insert Option.bind
toy_json-MemberLaws = record {
  member_str-object = λ k s fs fresh. rw (text_eq_refl k) refl;
  member_str-next = λ j k v fs other. rw other refl;
  member_str-empty = λ k. refl;
  member_str-insert = λ fs k s j. get_field-insert k j s (fields fs);
}
