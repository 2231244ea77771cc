-- ===== src/Workload/Vsock.antt =====
-- internal/workload/vsock.go: the grammar of the proxy's answer to CONNECT, and signed commands. JSON
-- values are of any type `V`, which `encode` and `encode_key` turn into text; `mac` is the hexadecimal
-- HMAC-SHA256, and `quote` makes a value of it.
mod Tests
use firefork_ai.Prelude.{
  ℕ, suc, ◌+◌, ◌-◌, ◌*◌, ◌≤◌, ◌<◌, ◌≡◌, ◌↔◌, refl, ap, sym, ◌∙◌, Bool, true, false, not, ◌&&◌, ◌||◌,
  List, [], ◌∷◌, ◌++◌, Option, none, some, if◌then◌else◌, ltb, leb, ◌==◌, Result, ok, err,
  Bool-cases, Option-cases, inl, inr, arith,
}
use firefork_ai.Prelude.Text.{Text, codes, text_eq, text_eq_iff, is_empty}
use firefork_ai.Prelude.Table.{lookup, insert, delete, lookup-insert, lookup-delete, delete-absent}

pub data Error : Type 0 where
  empty_line missing_port port_not_int rejected unexpected_token : Error

-- `strings.TrimRight(line, "\r\n")`
unfoldable pub trim_right : Text → Text
trim_right [] = []
trim_right (c ∷ t) =
    let rest = trim_right t in if is_empty rest && (c == 13 || c == 10) then [] else c ∷ rest

-- `strings.SplitN(s, " ", 2)`: the first part, and the second if there is a space.
unfoldable pub split_space : Text → Text × Option Text
split_space [] = ([], none)
split_space (c ∷ t) = let (a, b) = split_space t in if c == 32 then ([], some t) else (c ∷ a, b)

-- The value of decimal digits after those in `n`, if there are only digits.
decimal : ℕ → Text → Option ℕ
decimal n [] = some n
decimal n (c ∷ t) =
    let rest = decimal (10 * n + (c - 48)) t in if leb 48 c && leb c 57 then rest else none

-- Whether digits are there and stand for a number up to the bound.
up_to : ℕ → Text → Bool
unfolding decimal
up_to bound t = not (is_empty t) && (elim (decimal 0 t) [ none ↦ false | some n ↦ leb n bound ])

-- Whether `strconv.Atoi` accepts the text.
unfoldable pub atoi_accepts : Text → Bool
unfolding up_to
atoi_accepts [] = false
atoi_accepts (c ∷ t) =
    if c == 43
    then up_to 9223372036854775807 t
    else if c == 45
    then up_to 9223372036854775808 t
    else up_to 9223372036854775807 (c ∷ t)

port_given : Option Text → Result Error (Unit {0})
port_given none = err missing_port
port_given (some n) = if atoi_accepts n then ok tt else err port_not_int

ack_parts : Text × Option Text → Result Error (Unit {0})
unfolding port_given
ack_parts (token, rest) =
    if text_eq token (codes "OK")
    then port_given rest
    else if text_eq token (codes "ERROR")
    then err rejected
    else err unexpected_token

unfoldable pub parse_ack : Text → Result Error (Unit {0})
unfolding ack_parts
parse_ack line =
    let trimmed = trim_right line in
    if is_empty trimmed then err empty_line else ack_parts (split_space trimmed)

split_space_ok :
    (t n : Text) (p : Text × Option Text)
    → split_space t ≡ p
    → p.0 ≡ codes "OK"
    → p.1 ≡ some n
    → t ≡ codes "OK " ++ n
unfolding split_space
split_space_ok [] n p e f g = absurd (ground arith)
split_space_ok (a ∷ []) n p e f g = absurd (ground arith)
split_space_ok (a ∷ b ∷ []) n p e f g = absurd (ground arith)
split_space_ok (a ∷ b ∷ c ∷ t) n p e f g = ground arith

ack_parts_ok :
    (t : Text) (p : Text × Option Text)
    → split_space t ≡ p
    → ack_parts p ≡ ok tt
    → (n : Text) × (t ≡ codes "OK " ++ n) × (atoi_accepts n ≡ true)
unfolding ack_parts port_given
ack_parts_ok t (token, none) e h = absurd (ground arith)
ack_parts_ok t (token, some n) e h = elim (Bool-cases (text_eq token (codes "OK"))) [
  | inl x ↦ elim (Bool-cases (atoi_accepts n)) [
    | inl y ↦ (n, split_space_ok t n (token, some n) e ((text_eq_iff _ _).0 x) refl, y)
    | inr y ↦ absurd (ground arith)
  ]
  | inr x ↦ absurd (ground arith)
]

parsed_ok :
    (t : Text)
    → (if is_empty t then err empty_line else ack_parts (split_space t)) ≡ ok tt
    → (n : Text) × (t ≡ codes "OK " ++ n) × (atoi_accepts n ≡ true)
parsed_ok [] h = absurd (ground arith)
parsed_ok (c ∷ t) h = ack_parts_ok (c ∷ t) _ refl h

ok_parsed : (n : Text) → atoi_accepts n ≡ true → ack_parts (split_space (codes "OK " ++ n)) ≡ ok tt
unfolding ack_parts split_space port_given text_eq
ok_parsed n h = ap (λ x. if x then ok tt else err port_not_int) h

-- `parseAck` accepts exactly the lines that are, but for carriage returns and newlines at the end, the
-- token OK, one space and a text that `strconv.Atoi` accepts.
pub parse_ack_iff :
    (line : Text)
    → (parse_ack line ≡ ok tt)
      ↔ ((n : Text) × (trim_right line ≡ codes "OK " ++ n) × (atoi_accepts n ≡ true))
unfolding parse_ack
parse_ack_iff line = (
  parsed_ok (trim_right line),
  λ (n, e, h).
      ap (λ t. if is_empty t then err empty_line else ack_parts (split_space t)) e ∙ ok_parsed n h,
)

-- `<=` on strings
text_leb : Text → Text → Bool
text_leb [] t = true
text_leb (c ∷ s) [] = false
text_leb (c ∷ s) (d ∷ t) = ltb c d || ((c == d) && text_leb s t)

-- "auth"
abbrev pub auth_field : Text
auth_field = codes "auth"

module _ {V : Type 0} (encode_key : Text → Text) (encode : V → Option Text) (quote : Text → V)
    (mac : Text → Text → Text) where
  place : Text → V → List (Text × V) → List (Text × V)
  unfolding text_leb
  place k v [] = (k, v) ∷ []
  place k v ((j, w) ∷ m) =
      let rest = place k v m in if text_leb k j then (k, v) ∷ (j, w) ∷ m else (j, w) ∷ rest

  -- `sort.Strings(keys)`, with the values beside their keys
  sort_keys : List (Text × V) → List (Text × V)
  unfolding place
  sort_keys [] = []
  sort_keys ((k, v) ∷ m) = place k v (sort_keys m)

  member : Text → Option Text → Option Text → Option Text
  member k none rest = none
  member k (some v) none = none
  member k (some v) (some rest) = some (encode_key k ++ codes ":" ++ v ++ rest)

  -- The members that follow a first one, each behind a comma.
  more : List (Text × V) → Option Text
  unfolding member
  more [] = some (codes "}")
  more ((k, v) ∷ m) = elim (member k (encode v) (more m)) [
    | none ↦ none
    | some t ↦ some (codes "," ++ t)
  ]

  members : List (Text × V) → Option Text
  unfolding member more
  members [] = some (codes "}")
  members ((k, v) ∷ m) = member k (encode v) (more m)

  unfoldable pub canonical_json : List (Text × V) → Option Text
  unfolding members sort_keys
  canonical_json m = elim (members (sort_keys m)) [ none ↦ none | some t ↦ some (codes "{" ++ t) ]

  signed : Text → List (Text × V) → Option Text → Option (List (Text × V))
  signed secret cp none = none
  signed secret cp (some t) = some (insert auth_field (quote (mac secret t)) cp)

  -- `signCmd`
  unfoldable pub sign_cmd : Text → List (Text × V) → Option (List (Text × V))
  unfolding signed
  sign_cmd secret cmd = let cp = delete auth_field cmd in signed secret cp (canonical_json cp)

  delete-insert :
      (k : Text) (v : V) (m : List (Text × V)) → lookup k m ≡ none → delete k (insert k v m) ≡ m
  unfolding lookup insert delete
  delete-insert k v [] e = ground (arith, text_eq_iff k k)
  delete-insert k v ((j, w) ∷ m) e = ground (arith, delete-insert k v m, text_eq_iff j k)

  gone : (k : Text) (m : List (Text × V)) → lookup k (delete k m) ≡ none
  gone k m =
      lookup-delete k k m ∙ ap (λ x. if x then none else lookup k m) ((text_eq_iff k k).1 refl)

  signed_lem :
      (secret : Text) (cp out : List (Text × V)) (o : Option Text)
      → canonical_json cp ≡ o
      → lookup auth_field cp ≡ none
      → signed secret cp o ≡ some out
      → (t : Text) × (canonical_json (delete auth_field out) ≡ some t)
        × (lookup auth_field out ≡ some (quote (mac secret t)))
        × (delete auth_field out ≡ cp)
  unfolding signed
  signed_lem secret cp out none e g h = absurd (ground arith)
  signed_lem secret cp out (some t) e g h =
      let tag = quote (mac secret t) in
      let same : out ≡ insert auth_field tag cp = ground arith in
      let back : delete auth_field out ≡ cp =
        ap (delete auth_field) same ∙ delete-insert auth_field tag cp g in
      (
        t,
        ap canonical_json back ∙ e,
        ap (lookup auth_field) same
            ∙ lookup-insert auth_field auth_field tag cp
            ∙ ap (λ x. if x then some tag else lookup auth_field cp)
                ((text_eq_iff auth_field auth_field).1 refl),
        back,
      )

  -- The tag of a signed command is the MAC of the text that `canonicalJSON` makes of the command without
  -- its tag, and without it the command is the caller's, less any tag that the caller had set.
  pub sign_cmd_lem :
      (secret : Text) (cmd out : List (Text × V))
      → sign_cmd secret cmd ≡ some out
      → (t : Text) × (canonical_json (delete auth_field out) ≡ some t)
        × (lookup auth_field out ≡ some (quote (mac secret t)))
        × (delete auth_field out ≡ delete auth_field cmd)
  unfolding sign_cmd
  sign_cmd_lem secret cmd out h =
      signed_lem secret (delete auth_field cmd) out _ refl (gone auth_field cmd) h
