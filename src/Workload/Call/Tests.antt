-- ===== src/Workload/Call/Tests.antt =====
-- A signed command to an agent that answers it, and the same call through a proxy that refuses.
use firefork_ai.Prelude.{◌≡◌, refl, true, List, [], ◌∷◌, ◌++◌, Option, none, some, ok, length}
use firefork_ai.Prelude.Text.{Text, codes, text_eq}
use firefork_ai.Workload.Vsock.{parse_ack, trim_right, split_space, atoi_accepts}
use firefork_ai.Workload.Call.{Peer, call, cut_line, read_line, outgoing}

abbrev text_of : Text → Option Text
text_of t = some t

abbrev same : Text → Text
same t = t

-- A toy tag, and a toy text of an object: its first value.
abbrev tag : Text → Text → Text
tag secret t = length t ∷ secret

abbrev first : List (Text × Text) → Option Text
first [] = some []
first ((k, v) ∷ m) = some v

abbrev reply_of : Text → Option (List (Text × Text))
reply_of t = some ((codes "line", t) ∷ [])

abbrev peer : Peer
peer = record {
  dials = true;
  cuts_connect = none;
  before = codes "OK 7" ++ 10 ∷ [];
  cuts_command = none;
  answer = λ t. codes "done" ++ 10 ∷ codes "more";
}

abbrev cmd : List (Text × Text)
cmd = (codes "cmd", codes "ping") ∷ []

answers : (call same text_of same tag first reply_of peer (codes "1234") [] cmd) ≡ (
  (codes "CONNECT 1234" ++ 10 ∷ []) ∷ (codes "ping" ++ 10 ∷ []) ∷ [],
  ok ((codes "line", codes "done" ++ 10 ∷ []) ∷ []),
)
unfolding call read_line cut_line outgoing parse_ack trim_right split_space atoi_accepts text_eq
answers = refl
