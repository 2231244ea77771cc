-- ===== src/Template/Key/Tests.antt =====
-- Runs of `ParseKey`, and its theorems at concrete inputs.
use firefork_ai.Prelude.{◌≡◌, refl, ◌↔◌, ok, err, arith}
use firefork_ai.Prelude.Text.{codes, text_eq, has_prefix, contains_any, split}
use firefork_ai.Template.Key.{parse_key, entry_key, bad_half, invalid_key}
use firefork_ai.Template.Key.Laws.{IsHalf, parse_key_iff}

-- All that `ParseKey` computes with.
executed : Unit {0}
unfolding parse_key entry_key bad_half text_eq has_prefix contains_any split
executed = tt

parse_key_plain : parse_key (codes "alpine/v1") ≡ ok (codes "alpine", codes "v1")
unfolding executed
parse_key_plain = refl

-- Two dots within a half are accepted.
parse_key_dots : parse_key (codes "a..b/v1") ≡ ok (codes "a..b", codes "v1")
unfolding executed
parse_key_dots = refl

parse_key_two_slashes : parse_key (codes "a/b/c") ≡ err invalid_key
unfolding executed
parse_key_two_slashes = refl

parse_key_hidden : parse_key (codes ".a/v1") ≡ err invalid_key
unfolding executed
parse_key_hidden = refl

name-IsHalf : IsHalf (codes "a..b")
name-IsHalf = omega arith

version-IsHalf : IsHalf (codes "v1")
version-IsHalf = omega arith

parse_key_iff_example : (parse_key (codes "a..b/v1") ≡ ok (codes "a..b", codes "v1")) ↔ (
    (codes "a..b/v1" ≡ entry_key (codes "a..b") (codes "v1"))
    × IsHalf (codes "a..b")
    × IsHalf (codes "v1"))
parse_key_iff_example = parse_key_iff (codes "a..b/v1") (codes "a..b") (codes "v1")
