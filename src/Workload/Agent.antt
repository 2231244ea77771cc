-- ===== src/Workload/Agent.antt =====
-- `WaitForAgent` and `extractAgentSecret` of internal/workload/vsock.go. What a round of the loop meets,
-- its call of `Call` included, is a `Round`; times are in nanoseconds. A time that a loop has not
-- reached on its fuel is not an answer: the fuel that `wait_for_agent` gives is enough.
pub mod Waiting
mod Tests
use firefork_ai.Prelude.{
  ℕ, zero, suc, ◌+◌, ◌-◌, ◌*◌, ◌/◌, ◌≤◌, ◌<◌, ◌≡◌, refl, ap, sym, ◌∙◌, Bool, true, false, List, [],
  ◌∷◌, ◌++◌, Option, none, some, if◌then◌else◌, ltb, Result, ok, err, ◌⊎◌, inl, inr, Bool-cases,
  arith,
}
use firefork_ai.Prelude.Text.{Text, codes, is_empty}
use firefork_ai.Prelude.Table.{lookup}
use firefork_ai.Prelude.Hex.{decode_string}
use firefork_ai.Workload.Call

abbrev pub poll_interval : ℕ
poll_interval = 500000000

-- The time that the call takes, its result, whether the `select` takes the branch of the cancelled
-- context, and how much later than asked the timer fires.
pub record Round (R : Type 0) : Type 0 where
  pub took : ℕ
  pub called : Result Call.Error R
  pub cancelled : Bool
  pub late : ℕ

-- `expired` with the error of the last call, if there was a call.
pub data WaitError : Type 0 where
  context_done : WaitError
  expired : (last : Option Call.Error) → WaitError

unfoldable pub next_time : {R : Type 0} → Round R → ℕ → ℕ
next_time r now = now + r.took + poll_interval + r.late

-- What a round does with the result of its call; `rest` is the rest of the loop.
round_end :
    {R : Type 0}
    → ℕ
    → Result Call.Error R
    → Bool
    → (Option Call.Error → Option (ℕ × Result WaitError R))
    → Option (ℕ × Result WaitError R)
round_end i (ok a) cancelled rest = some (suc i, ok a)
round_end i (err e) cancelled rest =
    if cancelled then some (suc i, err context_done) else rest (some e)

module _ {R : Type 0} (rounds : ℕ → Round R) (deadline : ℕ) where
  -- The loop from its `i`-th round on, at time `now`.
  poll : ℕ → ℕ → ℕ → Option Call.Error → Option (ℕ × Result WaitError R)
  unfolding next_time round_end
  poll zero i now last = none
  poll (suc fuel) i now last =
      let r = rounds i in
      let rest = poll fuel (suc i) (next_time r now) in
      if ltb now deadline
      then round_end i r.called r.cancelled rest
      else some (i, err (expired last))

-- `time.Now()` before the `k`-th round.
unfoldable pub time_at : {R : Type 0} → (ℕ → Round R) → ℕ → ℕ → ℕ
unfolding next_time
time_at rounds now zero = now
time_at rounds now (suc k) = next_time (rounds k) (time_at rounds now k)

unfoldable pub default_deadline : Option ℕ → ℕ → ℕ
default_deadline none now = now + 60000000000
default_deadline (some d) now = d

unfoldable pub enough_fuel : ℕ → ℕ → ℕ
enough_fuel deadline now = suc ((deadline - now) / poll_interval + 1)

module _ {V : Type 0} (as_text : V → Option Text) where
  secret_of : Option Text → Text × Bool
  secret_of none = ([], false)
  secret_of (some s) = if is_empty s then ([], true) else decode_string s

  -- The secret, and whether there is no error.
  unfoldable pub extract_agent_secret : List (Text × V) → Text × Bool
  unfolding secret_of
  extract_agent_secret pong = elim (lookup (codes "agent_secret_hex") pong) [
    | none ↦ ([], true)
    | some v ↦ secret_of (as_text v)
  ]

  answered :
      Option (ℕ × Result WaitError (List (Text × V)))
      → Option (ℕ × Result WaitError (List (Text × V) × Text))
  unfolding extract_agent_secret
  answered none = none
  answered (some (n, err e)) = some (n, err e)
  answered (some (n, ok resp)) = some (n, ok (resp, (extract_agent_secret resp).0))

  -- The number of calls, and the result: the reply and the secret. The error of the extraction is
  -- dropped, as in the source.
  unfoldable pub wait_for_agent :
      (ℕ → Round (List (Text × V)))
      → Option ℕ
      → ℕ
      → Option (ℕ × Result WaitError (List (Text × V) × Text))
  unfolding answered poll default_deadline enough_fuel
  wait_for_agent rounds ctx now =
      let deadline = default_deadline ctx now in
      answered (poll rounds deadline (enough_fuel deadline now) 0 now none)
