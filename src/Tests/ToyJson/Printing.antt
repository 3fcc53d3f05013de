-- ===== src/Tests/ToyJson/Printing.antt =====
-- What the texts of the toy library contain.
use ktty.Base.{
  ◌≡◌, Text, List, [], ◌∷◌, ◌++◌, length, true, contains, contains_here, contains_later,
}
use mathlib.Core.List.{append_assoc}
use ktty.Deps.Json.{PrintLaws, in_quotes}
use ktty.Tests.ToyJson.{
  Atom, str, num, Value, atom, put, encode_atom, encode_fields, to_string, as_atom, fields,
  toy_json,
}

contains-put : (s rest : Text) → contains (put s rest) (in_quotes s) ≡ true
unfolding put
contains-put s rest = rw (← append_assoc s (34 ∷ []) rest) (
    contains_later (length s ∷ []) (in_quotes s ++ rest) (in_quotes s)
      (contains_here (in_quotes s) rest))

-- What is in the rest is in the whole.
contains-put_rest :
    (s rest needle : Text) → contains rest needle ≡ true → contains (put s rest) needle ≡ true
unfolding put
contains-put_rest s rest needle h =
    rw (← append_assoc s (34 ∷ []) rest)
      (contains_later (length s ∷ 34 ∷ (s ++ 34 ∷ [])) rest needle h)

contains-encode_atom_rest :
    (a : Atom) (rest needle : Text)
    → contains rest needle ≡ true
    → contains (encode_atom a rest) needle ≡ true
unfolding encode_atom
contains-encode_atom_rest (str s) rest needle h =
    contains_later (0 ∷ []) (put s rest) needle (contains-put_rest s rest needle h)
contains-encode_atom_rest (num n) rest needle h = contains_later (1 ∷ n ∷ []) rest needle h

contains-encode_fields :
    (before after : List (Text × Value)) (k : Text) (v : Value) (needle : Text)
    → contains (put k (encode_atom (as_atom v) (encode_fields (fields after)))) needle ≡ true
    → contains (encode_fields (fields (before ++ (k, v) ∷ after))) needle ≡ true
unfolding encode_fields fields
contains-encode_fields [] after k v needle h = h
contains-encode_fields ((j, w) ∷ before) after k v needle h =
    let rest = encode_fields (fields (before ++ (k, v) ∷ after)) in
    contains-put_rest j (encode_atom (as_atom w) rest) needle (
      contains-encode_atom_rest (as_atom w) rest needle
        (contains-encode_fields before after k v needle h))

pub toy_json-PrintLaws : PrintLaws toy_json
unfolding toy_json to_string encode_atom as_atom
toy_json-PrintLaws = record {
  contains-key = λ before after k v letters. contains_later (1 ∷ _ ∷ []) _ (in_quotes k) (
      contains-encode_fields before after k v (in_quotes k)
        (contains-put k (encode_atom (as_atom v) (encode_fields (fields after)))));
  contains-string = λ before after k s letters fresh. contains_later (1 ∷ _ ∷ []) _ (in_quotes s) (
      contains-encode_fields before after k (atom (str s)) (in_quotes s) (
        contains-put_rest k (0 ∷ put s (encode_fields (fields after))) (in_quotes s) (
          contains_later (0 ∷ []) (put s (encode_fields (fields after))) (in_quotes s)
            (contains-put s (encode_fields (fields after))))));
}
