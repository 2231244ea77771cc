-- ===== src/Workload/Agent/Waiting.antt =====
-- `WaitForAgent` of internal/workload/vsock.go: its loop ends, and finds an agent that answers.
use firefork_ai.Prelude.{
  ℕ, zero, suc, ◌+◌, ◌-◌, ◌*◌, ◌/◌, ◌≤◌, ◌<◌, ◌≡◌, refl, ap, sym, ◌∙◌, Bool, true, false, List,
  Option, none, some, ltb, Result, ok, err, inl, inr, Bool-cases, arith,
}
use firefork_ai.Prelude.Text.{Text}
use firefork_ai.Workload.Call
use firefork_ai.Workload.Agent.{
  poll_interval, Round, WaitError, context_done, expired, next_time, round_end, poll, time_at,
  default_deadline, enough_fuel, answered, extract_agent_secret, wait_for_agent,
}

abbrev pub IsFailed : {R : Type 0} → Round R → Type 0
IsFailed r = (e : Call.Error) × (r.called ≡ err e)

module _ {R : Type 0} (rounds : ℕ → Round R) (deadline : ℕ) where
  -- A loop that started with its `i`-th round and ended after `n` rounds in all, with this result.
  record Polled (fuel i : ℕ) (n : ℕ) (q : Result WaitError R) : Type 0 where
    within : n ≤ i + fuel
    before : (j : ℕ) → i ≤ j → suc j < n → IsFailed (rounds j)
    answer : (a : R) → q ≡ ok a → (j : ℕ) × (suc j ≡ n) × ((rounds j).called ≡ ok a)
    failure : (e : WaitError) → q ≡ err e → (j : ℕ) → i ≤ j → suc j ≡ n → IsFailed (rounds j)

  Returns : ℕ → ℕ → Option (ℕ × Result WaitError R) → Type 0
  Returns fuel i o = (n : ℕ) × (q : Result WaitError R) × (o ≡ some (n, q)) × Polled fuel i n q

  from_here :
      (i j : ℕ) (x : Call.Error)
      → (rounds i).called ≡ err x
      → i ≤ j
      → (suc i ≤ j → IsFailed (rounds j))
      → IsFailed (rounds j)
  from_here i j x e l f = elim (Bool-cases (ltb i j)) [
    | inl t ↦ f (ground arith)
    | inr t ↦ let same : i ≡ j = ground arith in (x, ap (λ k. (rounds k).called) (sym same) ∙ e)
  ]

  round_end-Returns :
      (fuel i : ℕ) (c : Result Call.Error R) (b : Bool)
      (rest : Option Call.Error → Option (ℕ × Result WaitError R))
      → (rounds i).called ≡ c
      → ((last : Option Call.Error) → Returns (suc fuel) (suc i) (rest last))
      → Returns (suc (suc fuel)) i (round_end i c b rest)
  unfolding round_end Returns
  round_end-Returns fuel i (ok a) b rest e h = (
    suc i,
    ok a,
    refl,
    record {
      within = omega arith;
      before = λ j l u. absurd (omega arith);
      answer = λ x p. (i, refl, ground arith);
      failure = λ x p. absurd (ground arith);
    },
  )
  round_end-Returns fuel i (err x) true rest e h = (
    suc i,
    err context_done,
    refl,
    record {
      within = omega arith;
      before = λ j l u. absurd (omega arith);
      answer = λ y p. absurd (ground arith);
      failure = λ y p j l u. (x, ground arith);
    },
  )
  round_end-Returns fuel i (err x) false rest e h =
      let (n, q, r, v) = h (some x) in
      (
        n,
        q,
        r,
        record {
          within = omega (arith, v.within);
          before = λ j l u. from_here i j x e l (λ k. v.before j k u);
          answer = v.answer;
          failure = λ y p j l u. from_here i j x e l (λ k. v.failure y p j k u);
        },
      )

  gives_up : (fuel i : ℕ) (last : Option Call.Error) → Polled fuel i i (err (expired last))
  gives_up fuel i last = record {
    within = omega arith;
    before = λ j l u. absurd (omega arith);
    answer = λ y p. absurd (ground arith);
    failure = λ y p j l u. absurd (omega arith);
  }

  poll-Returns :
      (fuel i now : ℕ) (last : Option Call.Error)
      → deadline ≤ now + fuel * poll_interval
      → Returns (suc fuel) i (poll rounds deadline (suc fuel) i now last)
  unfolding Returns poll next_time
  poll-Returns zero i now last h =
      let late : ltb now deadline ≡ false = ground arith in
      rw late (i, err (expired last), refl, gives_up 1 i last)
  poll-Returns (suc fuel) i now last h = elim (Bool-cases (ltb now deadline)) [
    | inr e ↦ rw e (i, err (expired last), refl, gives_up (suc (suc fuel)) i last)
    | inl e ↦
        let r = rounds i in
        rw e (
          round_end-Returns fuel i r.called r.cancelled
            (poll rounds deadline (suc fuel) (suc i) (next_time r now)) refl
            (λ x. poll-Returns fuel (suc i) (next_time r now) x (ground arith)))
  ]

  -- The clock before a round.
  time_at-bounds : (now k : ℕ) → now + k * poll_interval ≤ time_at rounds now k
  unfolding time_at next_time
  time_at-bounds now zero = omega arith
  time_at-bounds now (suc k) = omega (arith, time_at-bounds now k)

  time_at_mono : (now i k : ℕ) → i ≤ k → time_at rounds now i ≤ time_at rounds now k
  unfolding time_at next_time
  time_at_mono now i zero h = let same : i ≡ zero = omega arith in rw same (omega arith)
  time_at_mono now i (suc k) h = elim (Bool-cases (ltb i (suc k))) [
    | inl t ↦ let l = time_at_mono now i k (ground arith) in omega (arith, l)
    | inr t ↦ let same : i ≡ suc k = ground arith in rw same (omega arith)
  ]

  module _ (start k : ℕ) (a : R) (answers : (rounds k).called ≡ ok a)
      (waits : (j : ℕ) → j < k → (rounds j).cancelled ≡ false)
      (in_time : time_at rounds start k < deadline) where
    Finds : Option (ℕ × Result WaitError R) → Type 0
    Finds o = (n : ℕ) × (b : R) × (o ≡ some (n, ok b)) × (n ≤ suc k)

    round_end-Finds :
        (i : ℕ) (c : Result Call.Error R) (b : Bool)
        (rest : Option Call.Error → Option (ℕ × Result WaitError R))
        → i ≤ k
        → (rounds i).called ≡ c
        → (rounds i).cancelled ≡ b
        → (suc i ≤ k → (last : Option Call.Error) → Finds (rest last))
        → Finds (round_end i c b rest)
    unfolding round_end Finds
    round_end-Finds i (ok x) b rest l e f h = (suc i, x, refl, omega arith)
    round_end-Finds i (err x) b rest l e f h = elim (Bool-cases (ltb i k)) [
      | inl t ↦
          let l' : suc i ≤ k = ground arith in
          let no : b ≡ false = ground (arith, waits i l') in rw no (h l' (some x))
      | inr t ↦
          let same : i ≡ k = ground arith in
          let both : (rounds i).called ≡ ok a = ap (λ j. (rounds j).called) same ∙ answers in
          absurd (ground arith)
    ]

    poll-Finds :
        (fuel i now : ℕ) (last : Option Call.Error)
        → now ≡ time_at rounds start i
        → i ≤ k
        → k < i + fuel
        → Finds (poll rounds deadline fuel i now last)
    unfolding poll time_at
    poll-Finds zero i now last e l h = absurd (omega arith)
    poll-Finds (suc fuel) i now last e l h =
        let early : ltb now deadline ≡ true = ground (arith, time_at_mono start i k l) in
        let r = rounds i in
        rw early (
          round_end-Finds i r.called r.cancelled
            (poll rounds deadline fuel (suc i) (next_time r now)) l refl refl
            (λ l' x.
              poll-Finds fuel (suc i) (next_time r now) x (ap (next_time r) e) l' (omega arith)))

module _ {V : Type 0} (as_text : V → Option Text) (rounds : ℕ → Round (List (Text × V)))
    (ctx : Option ℕ) (now : ℕ) where
  Answer : Type 0
  Answer = Result WaitError (List (Text × V) × Text)

  -- How a wait of `n` calls ends.
  pub record IsOver (n : ℕ) (q : Result WaitError (List (Text × V) × Text)) : Type 0 where
    pub within : n ≤ enough_fuel (default_deadline ctx now) now
    pub before : (j : ℕ) → suc j < n → IsFailed (rounds j)
    pub answer :
        (resp : List (Text × V)) (secret : Text)
        → q ≡ ok (resp, secret)
        → (j : ℕ) × (suc j ≡ n)
          × ((rounds j).called ≡ ok resp)
          × (secret ≡ (extract_agent_secret as_text resp).0)
    pub failure : (e : WaitError) → q ≡ err e → (j : ℕ) → suc j ≡ n → IsFailed (rounds j)

  answered-IsOver :
      (o : Option (ℕ × Result WaitError (List (Text × V))))
      → Returns rounds (default_deadline ctx now) (enough_fuel (default_deadline ctx now) now) 0 o
      → (n : ℕ) × (q : Result WaitError (List (Text × V) × Text)) × (answered as_text o
          ≡ some (n, q))
        × IsOver n q
  unfolding Returns answered
  answered-IsOver none (n, q, e, v) = absurd (ground arith)
  answered-IsOver (some (m, ok resp)) (n, q, e, v) =
      let same : m ≡ n = ground arith in
      let is_ok : q ≡ ok resp = ground arith in
      let secret = (extract_agent_secret as_text resp).0 in
      (
        n,
        ok (resp, secret),
        rw same refl,
        record {
          within = omega (arith, v.within);
          before = λ j l. v.before j (omega arith) l;
          answer =
              λ r s p. let (j, a, b) = v.answer resp is_ok in (j, a, ground arith, ground arith);
          failure = λ x p. absurd (ground arith);
        },
      )
  answered-IsOver (some (m, err x)) (n, q, e, v) =
      let same : m ≡ n = ground arith in
      let is_err : q ≡ err x = ground arith in
      (
        n,
        err x,
        rw same refl,
        record {
          within = omega (arith, v.within);
          before = λ j l. v.before j (omega arith) l;
          answer = λ r s p. absurd (ground arith);
          failure = λ y p j l. v.failure x is_err j (omega arith) l;
        },
      )

  -- `WaitForAgent` returns, after no more calls than half-seconds up to its deadline and two. All calls
  -- but the last have failed; a reply that it returns is that of the last call, with its secret, and if
  -- it returns an error, the last call has failed too.
  pub wait_for_agent-IsOver :
      (n : ℕ) × (q : Result WaitError (List (Text × V) × Text)) × (wait_for_agent as_text rounds ctx
          now
        ≡ some (n, q))
      × IsOver n q
  unfolding wait_for_agent enough_fuel
  wait_for_agent-IsOver =
      let deadline = default_deadline ctx now in
      answered-IsOver _ (
        poll-Returns rounds deadline ((deadline - now) / poll_interval + 1) 0 now none
          (omega arith))

  -- If the agent answers in round `k`, which begins before the deadline, and the context is not
  -- cancelled before, then `WaitForAgent` succeeds, in that round or one before it.
  pub wait_for_agent_succeeds :
      (k : ℕ) (resp : List (Text × V))
      → (rounds k).called ≡ ok resp
      → ((j : ℕ) → j < k → (rounds j).cancelled ≡ false)
      → time_at rounds now k < default_deadline ctx now
      → (n : ℕ) × (r : List (Text × V)) × (secret : Text) × (wait_for_agent as_text rounds ctx now
          ≡ some (n, ok (r, secret)))
        × (n ≤ suc k)
  unfolding wait_for_agent enough_fuel time_at Finds answered
  wait_for_agent_succeeds k resp a w t =
      let deadline = default_deadline ctx now in
      let (n, b, e, l) =
        poll-Finds rounds deadline now k resp a w t (suc ((deadline - now) / poll_interval + 1)) 0
          now none refl (omega arith) (omega (arith, time_at-bounds rounds deadline now k)) in
      (n, b, (extract_agent_secret as_text b).0, ap (answered as_text) e, l)
