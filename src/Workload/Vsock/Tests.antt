-- ===== src/Workload/Vsock/Tests.antt =====
-- A line of the proxy and a command with one field.
use firefork_ai.Prelude.{◌≡◌, ◌↔◌, refl, true, List, [], ◌∷◌, ◌++◌, Option, some, ok, length}
use firefork_ai.Prelude.Text.{Text, codes, text_eq}
use firefork_ai.Prelude.Table.{insert, delete}
use firefork_ai.Workload.Vsock.{
  parse_ack, trim_right, atoi_accepts, canonical_json, sign_cmd, parse_ack_iff,
}

parse_ack_iff_example :
    (parse_ack (codes "OK 1073") ≡ ok tt)
    ↔ ((n : Text) × (trim_right (codes "OK 1073") ≡ codes "OK " ++ n) × (atoi_accepts n ≡ true))
parse_ack_iff_example = parse_ack_iff (codes "OK 1073")

abbrev text_of : Text → Option Text
text_of t = some t

abbrev same : Text → Text
same t = t

-- A toy tag: the secret behind the length of the text.
abbrev tag : Text → Text → Text
tag secret t = length t ∷ secret

abbrev cmd : List (Text × Text)
cmd = (codes "cmd", codes "run") ∷ (codes "auth", codes "forged") ∷ []

abbrev out : List (Text × Text)
out = (codes "cmd", codes "run") ∷ (codes "auth", tag (codes "key") (codes "{cmd:run}")) ∷ []

signs : sign_cmd same text_of same tag (codes "key") cmd ≡ some out
unfolding sign_cmd canonical_json insert delete text_eq
signs = refl
