-- ===== src/Prelude/Word.antt =====
-- Go's `int` and `int64` as bit patterns below 2 ^ 64 (patterns from 2 ^ 63 on are negative), and
-- `uint64` counters. Sums, differences and signed comparisons wrap as in Go.
use Prim.Native.Nat.{ℕ, ◌+◌, ◌-◌, ◌%◌, ◌^◌, ◌≤◌, ◌<◌}
use mathlib.Core.Path.{◌≡◌}
use mathlib.Core.Bool.{Bool, false, not}
use mathlib.Core.Logic.{◌↔◌}
use native.Mathlib.Omega.{arith}
use firefork_ai.Prelude.Tests.{ltb}

abbrev pub word_mod : ℕ
word_mod = 2 ^ 64

abbrev pub half_mod : ℕ
half_mod = 2 ^ 63

unfoldable pub add64 : ℕ → ℕ → ℕ
add64 a b = (a + b) % word_mod

unfoldable pub sub64 : ℕ → ℕ → ℕ
sub64 a b = (a + word_mod - b) % word_mod

-- `a < b` on signed values.
unfoldable pub lt64 : ℕ → ℕ → Bool
lt64 a b = ltb ((a + half_mod) % word_mod) ((b + half_mod) % word_mod)

-- `a <= 0`
unfoldable pub not_positive : ℕ → Bool
unfolding lt64
not_positive a = not (lt64 0 a)

-- Below 2 ^ 63 the operations are those of the natural numbers.
pub add64_small : (a b : ℕ) → a + b < half_mod → add64 a b ≡ a + b
unfolding add64
add64_small a b h = omega arith

pub sub64_small : (a b : ℕ) → b ≤ a → a < half_mod → sub64 a b ≡ a - b
unfolding sub64
sub64_small a b h k = omega arith

pub lt64_small : (a b : ℕ) → a < half_mod → b < half_mod → lt64 a b ≡ ltb a b
unfolding lt64
lt64_small a b h k = ground arith

pub not_positive_iff :
    (a : ℕ) → a < word_mod → (not_positive a ≡ false) ↔ ((0 < a) × (a < half_mod))
unfolding not_positive lt64
not_positive_iff a h = ground arith
