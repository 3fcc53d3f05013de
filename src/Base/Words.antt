-- ===== src/Base/Words.antt =====
-- The arithmetic of `u64` and of a 64-bit `usize`, with its wrap-around.
use Prim.Native.Nat.{ℕ, ◌+◌, ◌-◌, ◌%◌, ◌^◌, ◌≤◌, ◌<◌}
use mathlib.Core.Path.{◌≡◌}
use native.Mathlib.Omega.{arith}

abbrev pub word_mod : ℕ
word_mod = 2 ^ 64

unfoldable pub word_add : ℕ → ℕ → ℕ
word_add a b = (a + b) % word_mod

unfoldable pub word_sub : ℕ → ℕ → ℕ
word_sub a b = (a + word_mod - b) % word_mod

pub word_add_lem : (a b : ℕ) → a + b < word_mod → word_add a b ≡ a + b
unfolding word_add
word_add_lem a b h = omega arith

pub word_sub_lem : (a b : ℕ) → b ≤ a → a < word_mod → word_sub a b ≡ a - b
unfolding word_sub
word_sub_lem a b h k = omega arith
