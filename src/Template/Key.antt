-- ===== src/Template/Key.antt =====
-- internal/template/key.go: registry keys `<name>/<version>`, and the key that registry.go prints.
pub mod Laws
mod Tests
use firefork_ai.Prelude.{
  ℕ, Bool, true, false, ◌||◌, List, [], ◌∷◌, ◌++◌, if◌then◌else◌, Result, ok, err, ◌>>=◌, ◌>>◌,
  fail_if,
}
use firefork_ai.Prelude.Text.{Text, codes, text_eq, is_empty, has_prefix, contains_any, split}

pub data Error : Type 0 where
  invalid_key : Error

abbrev pub slash : ℕ
slash = b'/'

abbrev pub dot : ℕ
dot = b'.'

-- "\x00\n\r\t"
abbrev pub control_chars : Text
control_chars = 0 ∷ 10 ∷ 13 ∷ 9 ∷ []

-- One round of the loop over the two halves: true where `ParseKey` returns the error.
unfoldable pub bad_half : Text → Bool
unfolding text_eq has_prefix contains_any
bad_half p =
    text_eq p (codes ".")
    || text_eq p (codes "..")
    || contains_any control_chars p
    || has_prefix p (codes ".")

check_halves : Text → Text → Result Error (Text × Text)
unfolding bad_half
check_halves name version = do
  fail_if (is_empty name || is_empty version) invalid_key
  fail_if (bad_half name) invalid_key
  fail_if (bad_half version) invalid_key
  ok (name, version)

-- `len(parts) != 2` is an error.
two_parts : List Text → Result Error (Text × Text)
unfolding check_halves
two_parts (name ∷ version ∷ []) = check_halves name version
two_parts _ = err invalid_key

unfoldable pub parse_key : Text → Result Error (Text × Text)
unfolding two_parts split
parse_key s = if is_empty s then err invalid_key else two_parts (split slash s)

-- `Entry.Key` of registry.go
unfoldable pub entry_key : Text → Text → Text
entry_key name version = name ++ slash ∷ version
