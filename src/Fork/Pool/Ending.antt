-- ===== src/Fork/Pool/Ending.antt =====
-- `Release` and `Shutdown`: whose processes end, and what stays.
use firefork_ai.Prelude.{
  ℕ, ◌+◌, ◌≤◌, ◌<◌, ◌≡◌, refl, ap, Bool, true, false, not, ◌&&◌, List, [], ◌∷◌, Option, none, some,
  if◌then◌else◌, All, length, Option-cases, Bool-cases, ◌⊎◌, inl, inr, arith,
}
use firefork_ai.Prelude.Text.{Text, text_eq, text_eq_iff, is_empty}
use firefork_ai.Prelude.Table.{lookup, delete, lookup-delete, delete-absent}
use firefork_ai.Fc.Host.{Host, count, count-remove_one, count_self, remove_one, kill, remove_dir}
use firefork_ai.Fork.WarmPool.{WarmPool, close_pool}
use firefork_ai.Fork.WarmPool.Ownership.{count-reap_all}
use firefork_ai.Fork.Pool.{Fork, new_pool, State}
use firefork_ai.Fork.Pool.Teardown.{
  ReleaseError, kill_failed, removal_failed, End, end_process, end_dir, end_fork, release_found,
  release, tried, count_live, shut_forks, close_warm, shutdown,
}
use firefork_ai.Fork.Pool.Ledger.{HasProcess, live_count, warm_count, fork_count, lookup-live_count}
use firefork_ai.Fork.Pool.Forking.{IsLedger}

-- The fork's process is no longer running after a kill that succeeds.
end_dir-running : (r : Fork) (e : End) (h : Host) → ((end_dir r e h).0).running ≡ h.running
unfolding end_dir remove_dir
end_dir-running r e h = ground arith

-- The process with this id is killed.
kills :
    (id : Text) (h k : Host) (f : Text → ℕ)
    → k.running ≡ remove_one id h.running
    → ((x : Text) → f x ≡ count x (id ∷ []))
    → ((x : Text) → f x ≤ count x h.running)
    → (x : Text) → count x k.running + f x ≡ count x h.running
kills id h k f q c p x =
    let here : 0 < count id h.running = omega (arith, p id, c id, count_self id) in
    omega (arith, ap (count x) q, c x, count-remove_one x id h.running here)

module _ (r : Fork) (e : End) (h : Host) (k : e.killed ≡ true) where
  end_process-count :
      ((x : Text) → fork_count x r ≤ count x h.running)
      → (x : Text) → count x ((end_process r e h).0).running + fork_count x r ≡ count x h.running
  unfolding end_process fork_count kill
  end_process-count p x = elim (Option-cases r.warm_cmd) [
    | inr (id, w) ↦
        kills id h (end_process r e h).0 (λ y. fork_count y r) (ground arith) (λ y. ground arith) p
          x
    | inl w ↦ elim (Bool-cases r.sdk) [
      | inl s ↦
          kills r.id h (end_process r e h).0 (λ y. fork_count y r) (ground arith)
            (λ y. ground arith) p x
      | inr s ↦ ground arith
    ]
  ]

  pub end_fork-count :
      ((x : Text) → fork_count x r ≤ count x h.running)
      → (x : Text) → count x ((end_fork r e h).0).running + fork_count x r ≡ count x h.running
  unfolding end_fork
  end_fork-count p x =
      omega (arith, end_process-count p x, ap (count x) (end_dir-running r e (end_process r e h).0))

-- The loop of `Shutdown`, when every kill succeeds.
shut_forks-count :
    (ends : Text → End) (live : List (Text × Fork)) (h : Host)
    → ((k : Text) → (ends k).killed ≡ true)
    → ((x : Text) → live_count x live ≤ count x h.running)
    → (x : Text)
    → count x ((shut_forks ends live h).0).running + live_count x live ≡ count x h.running
unfolding shut_forks live_count
shut_forks-count ends [] h k p x = omega arith
shut_forks-count ends ((j, r) ∷ l) h k p x =
    let c = end_fork-count r (ends j) h (k j) (λ y. omega (arith, p y)) in
    omega (
      arith,
      c x,
      shut_forks-count ends l ((end_fork r (ends j) h).0) k (λ y. omega (arith, p y, c y)) x,
    )

-- Every live fork has a process, so `Shutdown` tries to end each.
shut_forks-size :
    (ends : Text → End) (live : List (Text × Fork)) (h : Host)
    → All HasProcess live
    → (shut_forks ends live h).1 + (shut_forks ends live h).2 ≡ length live
unfolding shut_forks tried fork_count
shut_forks-size ends [] h p = refl
shut_forks-size ends ((j, r) ∷ l) h (p, q) =
    ground (arith, p j, count_self j, shut_forks-size ends l ((end_fork r (ends j) h).0) q)

close_warm-count :
    (o : Option WarmPool) (h : Host)
    → ((x : Text) → warm_count x o ≤ count x h.running)
    → (x : Text) → count x (close_warm o h).running + warm_count x o ≡ count x h.running
unfolding close_warm warm_count close_pool
close_warm-count none h p x = omega arith
close_warm-count (some w) h p x = count-reap_all w.idle h p x

module _ (others : Text → ℕ) (st : State) (v : IsLedger others st) where
  module _ (ends : Text → End) where
    -- `Shutdown` with every kill successful leaves exactly the processes that are neither a live fork's
    -- nor an idle slot's, and no live fork and no warm pool.
    pub shutdown-running :
        ((k : Text) → (ends k).killed ≡ true)
        → ((x : Text) → count x ((shutdown ends st).0.host).running ≡ others x)
          × (((shutdown ends st).0.pool).live ≡ [])
          × (((shutdown ends st).0.pool).warm_pool ≡ none)
    unfolding shutdown new_pool
    shutdown-running k =
        let c =
          shut_forks-count ends (st.pool).live st.host k (λ y. omega (arith, v.accounted y)) in
        let d =
          close_warm-count (st.pool).warm_pool (shut_forks ends (st.pool).live st.host).0
            (λ y. omega (arith, v.accounted y, c y)) in
        (λ x. omega (arith, v.accounted x, c x, d x), refl, refl)

    -- The two numbers that `Shutdown` returns add up to the number of live forks, whatever failed.
    pub shutdown-count_live : (shutdown ends st).1 + (shutdown ends st).2 ≡ count_live st.pool
    unfolding shutdown count_live
    shutdown-count_live = shut_forks-size ends (st.pool).live st.host v.keyed

delete-HasProcess :
    (k : Text) (l : List (Text × Fork)) → All HasProcess l → All HasProcess (delete k l)
unfolding delete
delete-HasProcess k [] h = tt
delete-HasProcess k ((j, r) ∷ l) (p, h) = elim (Bool-cases (text_eq j k)) [
  | inl e ↦ rw (e, delete) (delete-HasProcess k l h)
  | inr e ↦ rw (e, delete) (p, delete-HasProcess k l h)
]

live_count-delete :
    (x k : Text) (r : Fork) (l : List (Text × Fork))
    → All HasProcess l
    → live_count k l ≤ 1
    → lookup k l ≡ some r
    → live_count x (delete k l) + count x (k ∷ []) ≡ live_count x l
unfolding live_count lookup delete
live_count-delete x k r [] h u e = absurd (ground arith)
live_count-delete x k r ((j, s) ∷ l) (p, h) u e = elim (Bool-cases (text_eq j k)) [
  | inl q ↦
      ground
        (arith, p x, p k, count_self k, text_eq_iff j k, lookup-live_count k l h, delete-absent k l)
  | inr q ↦ ground (arith, live_count-delete x k r l h)
]

fork_count-lookup :
    (k : Text) (r : Fork) (l : List (Text × Fork))
    → All HasProcess l
    → lookup k l ≡ some r
    → HasProcess (k, r)
unfolding lookup
fork_count-lookup k r [] h e x = absurd (ground arith)
fork_count-lookup k r ((j, s) ∷ l) (p, h) e x = elim (Bool-cases (text_eq j k)) [
  | inl q ↦ ground (arith, p x, text_eq_iff j k)
  | inr q ↦ fork_count-lookup k r l h (ground arith) x
]

module _ (others : Text → ℕ) (id : Text) (e : End) (st : State) (r : Fork) (v : IsLedger others st)
    (f : lookup id (st.pool).live ≡ some r) where
  -- `Release` of a live fork whose kill succeeds ends its process and no other, whether its directory
  -- could be removed or not: the ledger holds with the fork gone, and its process does not run.
  pub release-IsLedger :
      e.killed ≡ true
      → IsLedger others (release id e st).0 × (count id (((release id e st).0).host).running ≡ 0)
  unfolding release release_found
  release-IsLedger k =
      let own = fork_count-lookup id r (st.pool).live v.keyed f in
      let d : (x : Text) → _ = λ x.
        live_count-delete x id r (st.pool).live v.keyed (omega (arith, v.accounted id, v.unique id))
          f in
      let c = end_fork-count r e st.host k (λ x. omega (arith, own x, d x, v.accounted x)) in
      rw (f, release)
        (
          record {
            accounted = λ x. omega (arith, v.accounted x, c x, d x, own x);
            unique = λ x. omega (arith, v.unique x, c x);
            keyed = delete-HasProcess id (st.pool).live v.keyed;
          },
          omega (arith, c id, v.unique id, own id, count_self id),
        )

-- Whether a fork has a directory of its own.
abbrev pub has_dir : Fork → Bool
has_dir r = elim r.jailer [ some j ↦ true | none ↦ not (is_empty r.work_dir) ]

-- The error that a release should return.
abbrev pub first_failure : Fork → End → Option ReleaseError
first_failure r e =
    if tried r && not e.killed
    then some kill_failed
    else if has_dir r && not e.removed
    then some removal_failed
    else none

end_fork_failure : (r : Fork) (e : End) (h : Host) → (end_fork r e h).1 ≡ first_failure r e
unfolding end_fork end_process end_dir tried
end_fork_failure r e h = ground arith

-- The answer of `Release`: false and no change for an id that is not live; otherwise true, the id is
-- out of `live` even if the kill or the removal failed, and all other forks stay. The error is that
-- of the kill, if the fork has a process and it could not be killed; else that of the removal, if it
-- has a directory that could not be removed; and else there is none.
pub release_lem :
    (id : Text) (e : End) (st : State)
    → ((lookup id (st.pool).live ≡ none) × (release id e st ≡ (st, false, none)))
      ⊎ ((r : Fork) × (lookup id (st.pool).live ≡ some r)
          × ((release id e st).1 ≡ true)
          × ((release id e st).2 ≡ first_failure r e)
          × ((j : Text)
              → lookup j (((release id e st).0).pool).live
                ≡ (if text_eq id j then none else lookup j (st.pool).live)))
unfolding release release_found
release_lem id e st = elim (Option-cases (lookup id (st.pool).live)) [
  | inl f ↦ inl (f, ap (release_found id e st) f)
  | inr (r, f) ↦ inr (
    r,
    f,
    rw (f, release) refl,
    rw (f, release) (end_fork_failure r e st.host),
    λ j. rw (f, release) (lookup-delete id j (st.pool).live),
  )
]
