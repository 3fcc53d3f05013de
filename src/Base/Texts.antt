-- ===== src/Base/Texts.antt =====
-- A Rust `String` as the list of its UTF-8 bytes, with the standard library's tests on it.
use Prim.Native.Nat.{ℕ}
use Prim.Native.Char.{code}
use Prim.Native.String.{String}
use mathlib.Core.Path.{◌≡◌, refl}
use mathlib.Core.Logic.{◌↔◌, ◌≢◌, inl, inr}
use mathlib.Core.Bool.{Bool, true, false, ◌&&◌, ◌||◌}
use mathlib.Core.List.{List, [], ◌∷◌, ◌++◌}
use mathlib.Core.Option.{none, some}
use native.Mathlib.Omega.{arith}
use ktty.Base.Tests.{ltb, leb, ◌==◌, if◌then◌else◌, ==_refl, Bool-cases}
use ktty.Base.Lists.{length, get_elem?}

-- `[u8]` and `Vec<u8>`.
abbrev pub Bytes : Type 0
Bytes = List ℕ

abbrev pub Text : Type 0
Text = Bytes

-- The bytes of an ASCII literal.
abbrev pub lit : String → Text
lit String.[] = []
lit (String.◌∷◌ c s) = code c ∷ lit s

-- `==` on texts and on byte slices.
unfoldable pub text_eq : Text → Text → Bool
text_eq [] [] = true
text_eq [] (y ∷ ys) = false
text_eq (x ∷ xs) [] = false
text_eq (x ∷ xs) (y ∷ ys) = x == y && text_eq xs ys

pub text_eq_refl : (xs : Text) → text_eq xs xs ≡ true
unfolding text_eq
text_eq_refl [] = refl
text_eq_refl (x ∷ xs) = rw (==_refl x) (text_eq_refl xs)

pub text_eq→eq : (xs ys : Text) → text_eq xs ys ≡ true → xs ≡ ys
unfolding text_eq
text_eq→eq [] [] h = refl
text_eq→eq [] (y ∷ ys) h = cc
text_eq→eq (x ∷ xs) [] h = cc
text_eq→eq (x ∷ xs) (y ∷ ys) h = ground (arith, text_eq→eq xs ys)

pub text_eq_iff : (xs ys : Text) → (text_eq xs ys ≡ true) ↔ (xs ≡ ys)
text_eq_iff xs ys = (text_eq→eq xs ys, λ e. rw e (text_eq_refl ys))

pub text_eq_ne : (xs ys : Text) → xs ≢ ys → text_eq xs ys ≡ false
text_eq_ne xs ys h = elim (Bool-cases (text_eq xs ys)) [
  | inl same ↦ absurd (h (text_eq→eq xs ys same))
  | inr other ↦ other
]

unfoldable pub starts_with : Text → Text → Bool
starts_with xs [] = true
starts_with [] (y ∷ ys) = false
starts_with (x ∷ xs) (y ∷ ys) = x == y && starts_with xs ys

-- `xs.contains(needle)`.
unfoldable pub contains : Text → Text → Bool
unfolding starts_with
contains [] needle = starts_with [] needle
contains (x ∷ xs) needle = starts_with (x ∷ xs) needle || contains xs needle

starts_with-append : (needle rest : Text) → starts_with (needle ++ rest) needle ≡ true
unfolding starts_with
starts_with-append [] rest = refl
starts_with-append (x ∷ needle) rest = rw (==_refl x) (starts_with-append needle rest)

pub contains_here : (needle rest : Text) → contains (needle ++ rest) needle ≡ true
unfolding contains
contains_here [] [] = refl
contains_here [] (x ∷ rest) = refl
contains_here (x ∷ needle) rest = rw (starts_with-append (x ∷ needle) rest)

pub contains_later :
    (before t needle : Text) → contains t needle ≡ true → contains (before ++ t) needle ≡ true
unfolding contains
contains_later [] t needle h = h
contains_later (x ∷ before) t needle h = ground (arith, contains_later before t needle h)

-- A byte that continues a character.
abbrev pub is_continuation : ℕ → Bool
is_continuation b = leb 0x80 b && ltb b 0xc0

-- The standard library's `is_char_boundary`.
unfoldable pub is_char_boundary : Text → ℕ → Bool
is_char_boundary xs i = i == 0 || elim (get_elem? xs i) [
  | none ↦ i == length xs
  | some b ↦ if is_continuation b then false else true
]
