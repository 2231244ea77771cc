-- ===== src/Workload/Call.antt =====
-- `Call` of internal/workload/vsock.go: one command to the agent in the guest over a new connection.
-- Of the other end, `Peer` says what it takes and what it sends. JSON and the HMAC are parameters, as
-- in Vsock.antt; `marshal` and `parse` are those of whole objects.
pub mod Delivery
mod Tests
use firefork_ai.Prelude.{
  ℕ, zero, suc, ◌+◌, ◌-◌, ◌^◌, ◌≤◌, ◌≡◌, refl, Bool, true, false, List, [], ◌∷◌, ◌++◌, Option, none,
  some, if◌then◌else◌, leb, take, ◌==◌, Result, ok, err, length, length-append, ◌⊎◌, inl, inr,
  Bool-cases, Option-cases, arith,
}
use firefork_ai.Prelude.Text.{Text, codes, is_empty}
use firefork_ai.Workload.Vsock
use firefork_ai.Workload.Vsock.{parse_ack, sign_cmd}

pub data Error : Type 0 where
  dial_failed connect_failed response_too_large ack_read_failed sign_failed marshal_failed
        write_failed read_failed parse_response_failed :
      Error
  ack_failed : Vsock.Error → Error

abbrev pub agent_port : ℕ
agent_port = 1234

abbrev pub max_response_bytes : ℕ
max_response_bytes = 2 ^ 24

abbrev newline : Text
newline = 10 ∷ []

-- The other end of a connection: whether it can be dialled; for each of the two writes, if it fails,
-- how many of its bytes went out before; what it sends before the command, and what it sends in answer
-- to the bytes of the command. A stream that ends
-- before the newline is one that is closed, or silent up to the deadline.
pub record Peer : Type 0 where
  pub dials : Bool
  pub cuts_connect : Option ℕ
  pub before : Text
  pub cuts_command : Option ℕ
  pub answer : Text → Text

push_byte : ℕ → Option (Text × Text) → Option (Text × Text)
push_byte c none = none
push_byte c (some (line, rest)) = some (c ∷ line, rest)

-- The first line, with its newline, if it ends within so many bytes, and the bytes behind it.
unfoldable pub cut_line : ℕ → Text → Option (Text × Text)
unfolding push_byte
cut_line zero s = none
cut_line (suc n) [] = none
cut_line (suc n) (c ∷ s) =
    let rest = push_byte c (cut_line n s) in if c == 10 then some (newline, s) else rest

-- `ReadString('\n')` of the limited reader with `n` bytes left.
unfoldable pub read_line : ℕ → Text → Error → Result Error (Text × Text)
read_line n s e = elim (cut_line n s) [
  | some p ↦ ok p
  | none ↦ err (if leb n (length s) then response_too_large else e)
]

module _ {V : Type 0} (encode_key : Text → Text) (encode : V → Option Text) (quote : Text → V)
    (mac : Text → Text → Text) (marshal : List (Text × V) → Option Text)
    (parse : Text → Option (List (Text × V))) where
  -- The command that goes out.
  unfoldable pub outgoing : Text → List (Text × V) → Option (List (Text × V))
  outgoing secret cmd =
      if is_empty secret then some cmd else sign_cmd encode_key encode quote mac secret cmd

  decoded : Option (List (Text × V)) → Result Error (List (Text × V))
  decoded none = err parse_response_failed
  decoded (some out) = ok out

  response : Result Error (Text × Text) → Result Error (List (Text × V))
  unfolding decoded
  response (err e) = err e
  response (ok (line, rest)) = decoded (parse line)

  -- From the write of the command on, with `left` bytes that may still be read, of which `rest` has
  -- come already.
  exchange : Peer → Text → ℕ → Text → Option Text → List Text × Result Error (List (Text × V))
  unfolding response
  exchange p hello left rest none = (hello ∷ [], err marshal_failed)
  exchange p hello left rest (some body) =
      let line = body ++ newline in
      elim p.cuts_command [
        | none ↦ (hello ∷ line ∷ [], response (read_line left (rest ++ p.answer line) read_failed))
        | some n ↦ (hello ∷ take n line ∷ [], err write_failed)
      ]

  send :
      Peer → Text → ℕ → Text → Option (List (Text × V)) → List Text × Result Error (List (Text × V))
  unfolding exchange
  send p hello left rest none = (hello ∷ [], err sign_failed)
  send p hello left rest (some cmd) = exchange p hello left rest (marshal cmd)

  acked :
      Peer
      → Text
      → Text
      → List (Text × V)
      → Text
      → Text
      → Result Vsock.Error (Unit {0})
      → List Text × Result Error (List (Text × V))
  unfolding send
  acked p hello secret cmd line rest (err e) = (hello ∷ [], err (ack_failed e))
  acked p hello secret cmd line rest (ok _) =
      send p hello (max_response_bytes + 1 - length line) rest (outgoing secret cmd)

  greeted :
      Peer
      → Text
      → Text
      → List (Text × V)
      → Result Error (Text × Text)
      → List Text × Result Error (List (Text × V))
  unfolding acked
  greeted p hello secret cmd (err e) = (hello ∷ [], err e)
  greeted p hello secret cmd (ok (line, rest)) = acked p hello secret cmd line rest (parse_ack line)

  -- `Call` with the port in decimal: what it has written, write by write, and the response.
  unfoldable pub call :
      Peer → Text → Text → List (Text × V) → List Text × Result Error (List (Text × V))
  unfolding greeted
  call p port secret cmd =
      let hello = codes "CONNECT " ++ port ++ newline in
      if p.dials
      then elim p.cuts_connect [
        | none ↦
            greeted p hello secret cmd (read_line (max_response_bytes + 1) p.before ack_read_failed)
        | some n ↦ (take n hello ∷ [], err connect_failed)
      ]
      else ([], err dial_failed)
