-- ===== src/Fork/WarmPool/Shutdown.antt =====
-- From `NewWarmPool` to `Close`: no process is lost, and none is left.
use firefork_ai.Prelude.{
  ℕ, ◌≡◌, refl, ap, subst, Bool, true, false, List, [], ◌∷◌, Option, Result, ok, err, total,
  Bool-cases, inl, inr, arith,
}
use firefork_ai.Prelude.Word.{not_positive}
use firefork_ai.Prelude.Text.{Text, text_eq_iff}
use firefork_ai.Fc.Host.{Host, count}
use firefork_ai.Fc.Jailer.{JailerConfig}
use firefork_ai.Fork.WarmPool.{WarmPool, Error, Slot, new_warm_pool, spawned, some_failed, reap_all}
use firefork_ai.Fork.WarmPool.System.{System, Reach}
use firefork_ai.Fork.WarmPool.Ownership.{slot_count, job_count, IsOwned, count-reap_all}
use firefork_ai.Fork.WarmPool.Safety.{IsSafe, Reach-IsSafe}

-- The system as `NewWarmPool` leaves it.
abbrev pub opened : WarmPool → Host → System
opened p h = record { pool = p; jobs = []; taken = []; host = h }

-- The processes that run are those of the slots whose spawn succeeded.
abbrev pub Spawned : List (Option Slot) → Host → Type 0
Spawned results h = (x : Text) → count x h.running ≡ slot_count x (spawned results)

no_count : (l : List Text) → ((x : Text) → count x l ≡ 0) → l ≡ []
unfolding count
no_count [] h = refl
no_count (y ∷ l) h = absurd (ground (arith, h y, text_eq_iff y y))

pub data NewCase (results : List (Option Slot)) (h : Host)
    : Result Error WarmPool × Host → Type 0 where
  refuses : (e : Error) → NewCase results h (err e, h)
  fails :
      (e : Error)
      → some_failed results ≡ true
      → NewCase results h (err e, reap_all (spawned results) h)
  opens : (p : WarmPool) → p.idle ≡ spawned results → p.closed ≡ false → NewCase results h (ok p, h)

pub new_warm_pool-NewCase :
    (size : ℕ) (root temp : Text) (made : Bool) (template : Option JailerConfig)
    (results : List (Option Slot)) (h : Host)
    → NewCase results h (new_warm_pool size root temp made template results h)
unfolding new_warm_pool
new_warm_pool-NewCase size root temp made template results h =
    elim (Bool-cases (not_positive size)) [
      | inl a ↦ rw (a, new_warm_pool) (refuses _)
      | inr a ↦ elim (Bool-cases made) [
        | inr b ↦ rw (a, b, new_warm_pool) (refuses _)
        | inl b ↦ elim (Bool-cases (some_failed results)) [
          | inl c ↦ rw (a, b, c, new_warm_pool) (fails _ c)
          | inr c ↦ rw (a, b, c, new_warm_pool) (opens _ refl refl)
        ]
      ]
    ]

-- If a spawn fails, `NewWarmPool` kills the processes of all the spawns that succeeded: on a host where
-- no others run, none is left.
pub new_warm_pool_failure :
    (size : ℕ) (root temp : Text) (made : Bool) (template : Option JailerConfig)
    (results : List (Option Slot)) (h : Host)
    → not_positive size ≡ false
    → made ≡ true
    → some_failed results ≡ true
    → Spawned results h
    → (new_warm_pool size root temp made template results h).1.running ≡ []
unfolding new_warm_pool
new_warm_pool_failure size root temp made template results h a b c s =
    rw (a, b, c, new_warm_pool)
      (no_count _
        (λ x. omega (arith, s x, count-reap_all (spawned results) h (λ y. omega (arith, s y)) x)))

opened-IsSafe :
    (results : List (Option Slot)) (h k : Host) (p : WarmPool)
    → NewCase results h (ok p, k)
    → Spawned results h
    → IsSafe (opened p k)
unfolding slot_count
opened-IsSafe results h k p c s = go c refl
  where
    go :
        {r : Result Error WarmPool × Host}
        → NewCase results h r
        → r ≡ (ok p, k)
        → IsSafe (opened p k)
    go (refuses e) q = absurd (ground arith)
    go (fails e f) q = absurd (ground arith)
    go (opens p' i f) q = record {
      owned = λ x. ground (arith, s x, i);
      drained = λ d. absurd (ground arith);
    }

module _ (size : ℕ) (root temp : Text) (made : Bool) (template : Option JailerConfig)
    (results : List (Option Slot)) (h k : Host) (p : WarmPool) (s : Spawned results h)
    (new : new_warm_pool size root temp made template results h ≡ (ok p, k)) {t : System}
    (r : Reach (opened p k) t) where
  reached-IsSafe : IsSafe t
  reached-IsSafe =
      Reach-IsSafe
        (opened-IsSafe results h k p
          (subst (NewCase results h) new
            (new_warm_pool-NewCase size root temp made template results h))
          s)
        r

  pub process-IsOwned : IsOwned t
  process-IsOwned = reached-IsSafe.owned

  -- Once the pool is closed, its background goroutines have ended and the callers have torn down what
  -- they took, no process is left running.
  pub closed_leaves_nothing :
      t.pool.closed ≡ true → t.jobs ≡ [] → t.taken ≡ [] → t.host.running ≡ []
  unfolding slot_count
  closed_leaves_nothing c j u = no_count t.host.running λ x. omega (
    arith,
    process-IsOwned x,
    ap (slot_count x) (reached-IsSafe.drained c),
    ap (total (job_count x)) j,
    ap (slot_count x) u,
  )
