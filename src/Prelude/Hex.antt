-- ===== src/Prelude/Hex.antt =====
-- `hex.DecodeString`, which on an error returns the bytes before it.
use Prim.Native.Nat.{ℕ, ◌+◌, ◌-◌, ◌*◌}
use mathlib.Core.Bool.{Bool, true, false, ◌&&◌}
use mathlib.Core.Option.{Option, none, some}
use mathlib.Core.List.{[], ◌∷◌}
use firefork_ai.Prelude.Tests.{leb, if◌then◌else◌}
use firefork_ai.Prelude.Text.{Text}

-- The value of a hexadecimal digit.
unfoldable pub digit : ℕ → Option ℕ
digit c =
    if leb 48 c && leb c 57
    then some (c - 48)
    else if leb 97 c && leb c 102
    then some (c - 87)
    else if leb 65 c && leb c 70
    then some (c - 55)
    else none

pair_up : Option ℕ → Option ℕ → Text × Bool → Text × Bool
pair_up (some a) (some b) (t, good) = ((16 * a + b) ∷ t, good)
pair_up none b r = ([], false)
pair_up (some a) none r = ([], false)

-- The bytes, and whether the whole text was well-formed.
unfoldable pub decode_string : Text → Text × Bool
unfolding pair_up digit
decode_string [] = ([], true)
decode_string (a ∷ []) = ([], false)
decode_string (a ∷ b ∷ s) = pair_up (digit a) (digit b) (decode_string s)
