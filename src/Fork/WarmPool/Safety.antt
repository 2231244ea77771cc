-- ===== src/Fork/WarmPool/Safety.antt =====
-- Ownership of processes holds in every reachable state; a closed pool leaves nothing behind.
use firefork_ai.Prelude.{
  ℕ, ◌+◌, ◌<◌, ◌≡◌, refl, ap, true, false, List, [], ◌∷◌, ◌++◌, Option, none, some, Result, total,
  total-append, arith,
}
use firefork_ai.Prelude.Text.{Text}
use firefork_ai.Fc.Host.{SnapshotPaths, Host, count, count_self, load}
use firefork_ai.Fork.WarmPool.{
  WarmPool, Error, Slot, Taken, Next, reap, refill_failed, close_pool, mark_preloaded,
}
use firefork_ai.Fork.WarmPool.System.{
  Job, spawning, checking, loading, publishing, preloading, System, Step, Reach, here, next,
  after_take, after_spawn, after_check, after_load, after_preload, preload_jobs,
}
use firefork_ai.Fork.WarmPool.Sections.{
  TakeCase, take_slot-TakeCase, CheckCase, refill_check-CheckCase, LoadCase, refill_loaded-LoadCase,
  PublishCase, refill_publish-PublishCase, PreloadCase, preload_start-PreloadCase,
}
use firefork_ai.Fork.WarmPool.Ownership.{
  slot_count, job_count, IsOwned, slot_count-append, slot_count-mark_preloaded, jobs_split,
  taken_split, count-reap, count-reap_all, spawn_count, count-spawn_slot,
}

-- On a closed pool no slot is idle.
abbrev pub IsDrained : System → Type 0
IsDrained s = s.pool.closed ≡ true → s.pool.idle ≡ []

pub record IsSafe (s : System) : Type 0 where
  pub owned : IsOwned s
  pub drained : IsDrained s

take-IsSafe :
    (s : System) (now : ℕ) (id : Text) {t : WarmPool × Taken}
    → TakeCase now s.pool t
    → IsSafe s
    → IsSafe (after_take s id t)
unfolding slot_count
take-IsSafe s now id (TakeCase.shut e) v = record { owned = v.owned; drained = v.drained }
take-IsSafe s now id (TakeCase.empty true e n) v = record {
  owned = λ x. omega (arith, v.owned x);
  drained = v.drained;
}
take-IsSafe s now id (TakeCase.empty false e n) v = record { owned = v.owned; drained = v.drained }
take-IsSafe s now id (TakeCase.full rest y e n) v = record {
  owned = λ x. omega (arith, v.owned x, ap (slot_count x) n, slot_count-append x rest (y ∷ []));
  drained = λ c. absurd (cc);
}

module _ (s : System) (l r : List Job) (v : IsSafe s) where
  spawn-IsSafe :
      (id : Text) (now : ℕ) (h : Host) (o : Option Slot)
      → s.jobs ≡ l ++ spawning id ∷ r
      → ((x : Text) → count x h.running ≡ count x s.host.running + spawn_count x o)
      → IsSafe (after_spawn s (l ++ r) now (h, o))
  unfolding refill_failed
  spawn-IsSafe id now h none e f = record {
    owned = λ x. omega (arith, v.owned x, f x, jobs_split x s.jobs l r (spawning id) e);
    drained = v.drained;
  }
  spawn-IsSafe id now h (some y) e f = record {
    owned = λ x. omega (arith, v.owned x, f x, jobs_split x s.jobs l r (spawning id) e);
    drained = v.drained;
  }

  -- A goroutine that holds a slot reaps it.
  job_reaped :
      (j : Job) (y : Slot)
      → s.jobs ≡ l ++ j ∷ r
      → ((x : Text) → job_count x j ≡ count x (y.id ∷ []))
      → (x : Text)
      → count x (reap y s.host).running
        ≡ slot_count x s.pool.idle + total (job_count x) (l ++ r) + slot_count x s.taken
  job_reaped j y e f x =
      let held : 0 < count y.id s.host.running =
        omega (arith, v.owned y.id, jobs_split y.id s.jobs l r j e, f y.id, count_self y.id) in
      omega (arith, v.owned x, jobs_split x s.jobs l r j e, f x, count-reap x y s.host held)

  check-IsSafe :
      (y : Slot) {t : Host × Next}
      → s.jobs ≡ l ++ checking y ∷ r
      → CheckCase s.pool y s.host t
      → IsSafe (after_check s (l ++ r) y t)
  check-IsSafe y e (CheckCase.shut c) = record {
    owned = job_reaped (checking y) y e (λ x. refl);
    drained = v.drained;
  }
  check-IsSafe y e (CheckCase.plain c n) = record {
    owned = λ x. omega (arith, v.owned x, jobs_split x s.jobs l r (checking y) e);
    drained = v.drained;
  }
  check-IsSafe y e (CheckCase.keyed snap c n) = record {
    owned = λ x. omega (arith, v.owned x, jobs_split x s.jobs l r (checking y) e);
    drained = v.drained;
  }

  loads-IsSafe :
      (y : Slot) (snap : SnapshotPaths) (cost now : ℕ) {t : WarmPool × Host × Option Slot}
      → s.jobs ≡ l ++ loading y snap ∷ r
      → LoadCase now s.pool y snap cost s.host t
      → IsSafe (after_load s (l ++ r) t)
  unfolding load refill_failed
  loads-IsSafe y snap cost now e LoadCase.fails = record {
    owned = job_reaped (loading y snap) y e (λ x. refl);
    drained = v.drained;
  }
  loads-IsSafe y snap cost now e LoadCase.loads = record {
    owned = λ x. omega (arith, v.owned x, jobs_split x s.jobs l r (loading y snap) e);
    drained = v.drained;
  }

  publish-IsSafe :
      (y : Slot) {t : WarmPool × Host}
      → s.jobs ≡ l ++ publishing y ∷ r
      → PublishCase s.pool y s.host t
      → IsSafe (record s { pool = t.0; jobs = l ++ r; host = t.1 })
  unfolding slot_count
  publish-IsSafe y e (PublishCase.shut c) = record {
    owned = job_reaped (publishing y) y e (λ x. refl);
    drained = v.drained;
  }
  publish-IsSafe y e (PublishCase.added c) = record {
    owned = λ x. omega (
      arith,
      v.owned x,
      jobs_split x s.jobs l r (publishing y) e,
      slot_count-append x s.pool.idle (y ∷ []),
    );
    drained = λ d. absurd (cc);
  }

preload_jobs_count :
    (x : Text) (snap : SnapshotPaths) (slots : List Slot)
    → total (job_count x) (preload_jobs snap slots) ≡ 0
preload_jobs_count x snap [] = refl
preload_jobs_count x snap (y ∷ l) = omega (arith, preload_jobs_count x snap l)

preload-IsSafe :
    (s : System) (snap : SnapshotPaths) {t : Result Error (WarmPool × List Slot)}
    → PreloadCase s.pool snap t
    → IsSafe s
    → IsSafe (after_preload s snap t)
preload-IsSafe s snap (PreloadCase.rejects e) v = v
preload-IsSafe s snap (PreloadCase.accepts o) v = record {
  owned = λ x. omega (
    arith,
    v.owned x,
    preload_jobs_count x snap s.pool.idle,
    total-append {0} (job_count x) (preload_jobs snap s.pool.idle) s.jobs,
  );
  drained = v.drained;
}

mark_empty : (id : Text) (cost : ℕ) (l : List Slot) → l ≡ [] → mark_preloaded id cost l ≡ []
unfolding mark_preloaded
mark_empty id cost [] e = refl
mark_empty id cost (x ∷ l) e = absurd (cc)

-- Every critical section keeps the ownership of processes.
Step-IsSafe : {s t : System} → Step s t → IsSafe s → IsSafe t
unfolding close_pool load slot_count
Step-IsSafe {s} (Step.take now id) v = take-IsSafe s now id (take_slot-TakeCase now s.pool) v
Step-IsSafe (Step.refill id) v = record {
  owned = λ x. omega (arith, v.owned x);
  drained = v.drained;
}
Step-IsSafe {s} (Step.spawn l r id o jail cost now e) v =
    spawn-IsSafe s l r v id now _ _ e (λ x. count-spawn_slot x s.host s.pool id o jail cost)
Step-IsSafe {s} (Step.check l r x e) v =
    check-IsSafe s l r v x e (refill_check-CheckCase s.pool x s.host)
Step-IsSafe {s} (Step.loads l r x snap linked loaded cost now e) v =
    loads-IsSafe s l r v x snap cost now e
      (refill_loaded-LoadCase now s.pool x snap linked loaded cost s.host)
Step-IsSafe {s} (Step.publish l r x e) v =
    publish-IsSafe s l r v x e (refill_publish-PublishCase s.pool x s.host)
Step-IsSafe {s} (Step.preload snap) v =
    preload-IsSafe s snap (preload_start-PreloadCase s.pool snap) v
Step-IsSafe {s} (Step.preload_fails l r id snap e) v = record {
  owned = λ x. omega (arith, v.owned x, jobs_split x s.jobs l r (preloading id snap) e);
  drained = v.drained;
}
Step-IsSafe {s} (Step.preload_loads l r id snap cost e) v = record {
  owned = λ x. omega (
    arith,
    v.owned x,
    jobs_split x s.jobs l r (preloading id snap) e,
    slot_count-mark_preloaded x id cost s.pool.idle,
    slot_count-mark_preloaded x id cost s.taken,
  );
  drained = λ c. mark_empty id cost s.pool.idle (v.drained c);
}
Step-IsSafe {s} Step.close v = record {
  owned = λ x.
      omega (arith, v.owned x, count-reap_all s.pool.idle s.host (λ y. omega (arith, v.owned y)) x);
  drained = λ c. refl;
}
Step-IsSafe {s} (Step.tear_down l r x e) v = record {
  owned = λ y.
      let held : 0 < count x.id s.host.running =
        omega (arith, v.owned x.id, taken_split x.id s.taken l r x e, count_self x.id) in
      omega (arith, v.owned y, taken_split y s.taken l r x e, count-reap y x s.host held);
  drained = v.drained;
}

pub Reach-IsSafe : {s t : System} → IsSafe s → Reach s t → IsSafe t
Reach-IsSafe v here = v
Reach-IsSafe v (next r st) = Step-IsSafe st (Reach-IsSafe v r)
