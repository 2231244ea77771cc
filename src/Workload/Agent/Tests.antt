-- ===== src/Workload/Agent/Tests.antt =====
-- An agent that answers the third call.
use firefork_ai.Prelude.{
  ℕ, zero, suc, ◌≤◌, ◌<◌, ◌≡◌, refl, false, List, [], ◌∷◌, Option, none, some, Result, ok, err,
  arith,
}
use firefork_ai.Prelude.Text.{Text, codes}
use firefork_ai.Workload.Call.{dial_failed}
use firefork_ai.Workload.Agent.{
  Round, WaitError, next_time, time_at, default_deadline, wait_for_agent,
}
use firefork_ai.Workload.Agent.Waiting.{IsOver, wait_for_agent-IsOver, wait_for_agent_succeeds}

abbrev text_of : Text → Option Text
text_of t = some t

abbrev pong : List (Text × Text)
pong = (codes "agent_secret_hex", codes "0aFF") ∷ []

abbrev rounds : ℕ → Round (List (Text × Text))
rounds zero = record { took = 1; called = err dial_failed; cancelled = false; late = 0 }
rounds (suc zero) = record { took = 1; called = err dial_failed; cancelled = false; late = 5 }
rounds (suc (suc n)) = record { took = 1; called = ok pong; cancelled = false; late = 0 }

wait_for_agent-IsOver_example :
    (n : ℕ) × (q : Result WaitError (List (Text × Text) × Text)) × (wait_for_agent text_of rounds
        none 7
      ≡ some (n, q))
    × IsOver text_of rounds none 7 n q
wait_for_agent-IsOver_example = wait_for_agent-IsOver text_of rounds none 7

uncancelled : (j : ℕ) → j < 2 → (rounds j).cancelled ≡ false
uncancelled zero h = refl
uncancelled (suc zero) h = refl
uncancelled (suc (suc j)) h = refl

in_time : time_at rounds 7 2 < default_deadline none 7
unfolding time_at next_time default_deadline
in_time = omega arith

wait_for_agent_succeeds_example :
    (n : ℕ) × (r : List (Text × Text)) × (secret : Text) × (wait_for_agent text_of rounds none 7
      ≡ some (n, ok (r, secret)))
    × (n ≤ 3)
wait_for_agent_succeeds_example =
    wait_for_agent_succeeds text_of rounds none 7 2 pong refl uncancelled in_time
