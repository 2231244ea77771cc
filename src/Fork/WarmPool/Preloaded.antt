-- ===== src/Fork/WarmPool/Preloaded.antt =====
-- Every critical section keeps the slots keyed, so `Take` hands out no slot with a foreign snapshot.
use firefork_ai.Prelude.{
  ℕ, ◌≡◌, refl, sym, subst, true, false, List, [], ◌∷◌, ◌++◌, Option, none, some, Result, All,
  All-map, All-split, All-append, ◌⊎◌, inl, inr, arith,
}
use firefork_ai.Prelude.Text.{Text}
use mathlib.Core.List.{append-nil}
use firefork_ai.Prelude.Table.{insert}
use firefork_ai.Fc.Host.{SnapshotPaths, Host, load}
use firefork_ai.Fork.WarmPool.{
  WarmPool, Error, Slot, Taken, took, Next, take_slot, refill_failed, close_pool,
}
use firefork_ai.Fork.WarmPool.Sections.{
  TakeCase, take_slot-TakeCase, CheckCase, refill_check-CheckCase, LoadCase, refill_loaded-LoadCase,
  PublishCase, refill_publish-PublishCase, PreloadCase, preload_start-PreloadCase,
}
use firefork_ai.Fork.WarmPool.System.{
  Job, spawning, checking, loading, publishing, preloading, System, Step, Reach, here, next,
  after_take, after_spawn, after_check, after_load, after_preload, preload_jobs, marked,
}
use firefork_ai.Fork.WarmPool.Snapshots.{
  Keyed, SlotKeyed, JobKeyed, AllKeyed, IsKeyed, Keyed-load, just_loaded, Keyed-accept, all_change,
  mark-Keyed, reap-loaded, reap_all-loaded, Unmarked, spawn_slot-loaded,
}
use firefork_ai.Fork.WarmPool.Shutdown.{opened}

-- Nothing but the host's other fields changed.
same_loaded :
    (key : Option SnapshotPaths) {loaded loaded' : List (Text × SnapshotPaths)}
    {idle taken : List Slot} {jobs : List Job}
    → loaded' ≡ loaded
    → AllKeyed key loaded idle taken jobs
    → AllKeyed key loaded' idle taken jobs
same_loaded key {idle = idle} {taken = taken} {jobs = jobs} e v =
    subst (λ m. AllKeyed key m idle taken jobs) (sym e) v

take-IsKeyed :
    (s : System) (now : ℕ) (id : Text) {t : WarmPool × Taken}
    → TakeCase now s.pool t
    → IsKeyed s
    → IsKeyed (after_take s id t)
take-IsKeyed s now id (TakeCase.shut e) v = v
take-IsKeyed s now id (TakeCase.empty true e n) v = record {
  in_idle = v.in_idle;
  in_taken = v.in_taken;
  in_jobs = (tt, v.in_jobs);
}
take-IsKeyed s now id (TakeCase.empty false e n) v = record {
  in_idle = v.in_idle;
  in_taken = v.in_taken;
  in_jobs = v.in_jobs;
}
take-IsKeyed s now id (TakeCase.full rest y e n) v =
    let P = SlotKeyed s.pool.preload s.host.loaded in
    let (a, b) = All-split P rest [] y (subst (All P) n v.in_idle) in
    record {
      in_idle = subst (All P) (append-nil rest) a;
      in_taken = (b, v.in_taken);
      in_jobs = v.in_jobs;
    }

module _ (s : System) (l r : List Job) (v : IsKeyed s) where
  abbrev P : Job → Type 0
  P = JobKeyed s.pool.preload s.host.loaded

  module _ (j : Job) (e : s.jobs ≡ l ++ j ∷ r) where
    others : All P (l ++ r) × P j
    others = All-split P l r j (subst (All P) e v.in_jobs)

    -- The job ends, or another takes its place.
    without : AllKeyed s.pool.preload s.host.loaded s.pool.idle s.taken (l ++ r)
    without = record { in_idle = v.in_idle; in_taken = v.in_taken; in_jobs = others.0 }

    becomes :
        (j' : Job) → P j' → AllKeyed s.pool.preload s.host.loaded s.pool.idle s.taken (j' ∷ l ++ r)
    becomes j' p = record { in_idle = v.in_idle; in_taken = v.in_taken; in_jobs = (p, others.0) }

  spawn-IsKeyed :
      (id : Text) (now : ℕ) (h : Host) (o : Option Slot)
      → s.jobs ≡ l ++ spawning id ∷ r
      → h.loaded ≡ s.host.loaded
      → Unmarked o
      → IsKeyed (after_spawn s (l ++ r) now (h, o))
  unfolding refill_failed
  spawn-IsKeyed id now h none e f u = same_loaded s.pool.preload f (without (spawning id) e)
  spawn-IsKeyed id now h (some y) e f u =
      same_loaded s.pool.preload f (becomes (spawning id) e (checking y) (λ p. absurd (cc)))

  check-IsKeyed :
      (y : Slot) {t : Host × Next}
      → s.jobs ≡ l ++ checking y ∷ r
      → CheckCase s.pool y s.host t
      → IsKeyed (after_check s (l ++ r) y t)
  check-IsKeyed y e (CheckCase.shut c) =
      same_loaded s.pool.preload (reap-loaded y s.host) (without (checking y) e)
  check-IsKeyed y e (CheckCase.plain c n) =
      becomes (checking y) e (publishing y) (others (checking y) e).1
  check-IsKeyed y e (CheckCase.keyed snap c n) =
      becomes (checking y) e (loading y snap) ((others (checking y) e).1, n)

  loads-IsKeyed :
      (y : Slot) (snap : SnapshotPaths) (cost now : ℕ) {t : WarmPool × Host × Option Slot}
      → s.jobs ≡ l ++ loading y snap ∷ r
      → LoadCase now s.pool y snap cost s.host t
      → IsKeyed (after_load s (l ++ r) t)
  unfolding load refill_failed
  loads-IsKeyed y snap cost now e LoadCase.fails =
      same_loaded s.pool.preload (reap-loaded y s.host) (without (loading y snap) e)
  loads-IsKeyed y snap cost now e LoadCase.loads =
      let key = s.pool.preload in
      let k = (others (loading y snap) e).1.1 in
      let w =
        all_change key key s.host.loaded (insert y.id snap s.host.loaded)
          (λ x. Keyed-load key s.host.loaded y.id x snap k) (λ _ q. q)
          (without (loading y snap) e) in
      record {
        in_idle = w.in_idle;
        in_taken = w.in_taken;
        in_jobs = ((λ _. just_loaded key s.host.loaded y.id snap k), w.in_jobs);
      }

  publish-IsKeyed :
      (y : Slot) {t : WarmPool × Host}
      → s.jobs ≡ l ++ publishing y ∷ r
      → PublishCase s.pool y s.host t
      → IsKeyed (record s { pool = t.0; jobs = l ++ r; host = t.1 })
  publish-IsKeyed y e (PublishCase.shut c) =
      same_loaded s.pool.preload (reap-loaded y s.host) (without (publishing y) e)
  publish-IsKeyed y e (PublishCase.added c) = record {
    in_idle =
        All-append (SlotKeyed s.pool.preload s.host.loaded) s.pool.idle (y ∷ []) v.in_idle
          ((others (publishing y) e).1, tt);
    in_taken = v.in_taken;
    in_jobs = (others (publishing y) e).0;
  }

  marks-IsKeyed :
      (id : Text) (snap : SnapshotPaths) (cost : ℕ)
      → s.jobs ≡ l ++ preloading id snap ∷ r
      → IsKeyed (marked s (l ++ r) id snap cost)
  unfolding load
  marks-IsKeyed id snap cost e =
      let key = s.pool.preload in
      let k = (others (preloading id snap) e).1 in
      let w =
        all_change key key s.host.loaded (insert id snap s.host.loaded)
          (λ x. Keyed-load key s.host.loaded id x snap k) (λ _ q. q)
          (without (preloading id snap) e) in
      let here = just_loaded key s.host.loaded id snap k in
      record {
        in_idle = mark-Keyed key _ id cost s.pool.idle here w.in_idle;
        in_taken = mark-Keyed key _ id cost s.taken here w.in_taken;
        in_jobs = w.in_jobs;
      }

preload_jobs-keyed :
    (key : Option SnapshotPaths) (loaded : List (Text × SnapshotPaths)) (snap : SnapshotPaths)
    (slots : List Slot)
    → key ≡ some snap
    → All (JobKeyed key loaded) (preload_jobs snap slots)
preload_jobs-keyed key loaded snap [] e = tt
preload_jobs-keyed key loaded snap (x ∷ l) e = (e, preload_jobs-keyed key loaded snap l e)

preload-IsKeyed :
    (s : System) (snap : SnapshotPaths) {t : Result Error (WarmPool × List Slot)}
    → PreloadCase s.pool snap t
    → IsKeyed s
    → IsKeyed (after_preload s snap t)
preload-IsKeyed s snap (PreloadCase.rejects e) v = v
preload-IsKeyed s snap (PreloadCase.accepts o) v =
    let w =
      all_change s.pool.preload (some snap) s.host.loaded s.host.loaded
        (λ x. Keyed-accept s.pool.preload s.host.loaded x snap o) (accepted o) v in
    record {
      in_idle = w.in_idle;
      in_taken = w.in_taken;
      in_jobs =
          All-append (JobKeyed (some snap) s.host.loaded) (preload_jobs snap s.pool.idle) s.jobs
            (preload_jobs-keyed (some snap) s.host.loaded snap s.pool.idle refl) w.in_jobs;
    }
  where
    accepted :
        (s.pool.preload ≡ none) ⊎ (s.pool.preload ≡ some snap)
        → (old : SnapshotPaths) → s.pool.preload ≡ some old
        → some snap ≡ some old
    accepted (inl n) old e = cc
    accepted (inr n) old e = cc

Step-IsKeyed : {s t : System} → Step s t → IsKeyed s → IsKeyed t
unfolding close_pool
Step-IsKeyed {s} (Step.take now id) v = take-IsKeyed s now id (take_slot-TakeCase now s.pool) v
Step-IsKeyed (Step.refill id) v = record {
  in_idle = v.in_idle;
  in_taken = v.in_taken;
  in_jobs = (tt, v.in_jobs);
}
Step-IsKeyed {s} (Step.spawn l r id o jail cost now e) v =
    let (f, u) = spawn_slot-loaded s.pool id o jail cost s.host in
    spawn-IsKeyed s l r v id now _ _ e f u
Step-IsKeyed {s} (Step.check l r x e) v =
    check-IsKeyed s l r v x e (refill_check-CheckCase s.pool x s.host)
Step-IsKeyed {s} (Step.loads l r x snap linked loaded cost now e) v =
    loads-IsKeyed s l r v x snap cost now e
      (refill_loaded-LoadCase now s.pool x snap linked loaded cost s.host)
Step-IsKeyed {s} (Step.publish l r x e) v =
    publish-IsKeyed s l r v x e (refill_publish-PublishCase s.pool x s.host)
Step-IsKeyed {s} (Step.preload snap) v =
    preload-IsKeyed s snap (preload_start-PreloadCase s.pool snap) v
Step-IsKeyed {s} (Step.preload_fails l r id snap e) v = without s l r v (preloading id snap) e
Step-IsKeyed {s} (Step.preload_loads l r id snap cost e) v = marks-IsKeyed s l r v id snap cost e
Step-IsKeyed {s} Step.close v =
    same_loaded s.pool.preload (reap_all-loaded s.pool.idle s.host)
      (record { in_idle = tt; in_taken = v.in_taken; in_jobs = v.in_jobs })
Step-IsKeyed {s} (Step.tear_down l r x e) v =
    let Q = SlotKeyed s.pool.preload s.host.loaded in
    same_loaded s.pool.preload (reap-loaded x s.host) (record {
      in_idle = v.in_idle;
      in_taken = (All-split Q l r x (subst (All Q) e v.in_taken)).0;
      in_jobs = v.in_jobs;
    })

Reach-IsKeyed : {s t : System} → IsKeyed s → Reach s t → IsKeyed t
Reach-IsKeyed v here = v
Reach-IsKeyed v (next r st) = Step-IsKeyed st (Reach-IsKeyed v r)

-- From a pool with no slot marked preloaded, on every interleaving: a slot that `Take` hands out
-- marked preloaded has loaded a snapshot, and it is the one that the pool is keyed to.
pub took_preloaded :
    (p : WarmPool) (h : Host) {t : System} (now : ℕ) (q : WarmPool) (x : Slot)
    → All (λ y. y.preloaded ≡ false) p.idle
    → Reach (opened p h) t
    → take_slot now t.pool ≡ (q, took x)
    → x.preloaded ≡ true
    → Keyed t.pool.preload t.host.loaded x.id
took_preloaded p h {t} now q x plain r e marked_x =
    go (subst (TakeCase now t.pool) e (take_slot-TakeCase now t.pool)) refl
  where
    key : Option SnapshotPaths
    key = t.pool.preload

    start_keyed : All (SlotKeyed p.preload h.loaded) p.idle
    start_keyed =
        All-map (λ y. y.preloaded ≡ false) (SlotKeyed p.preload h.loaded) (λ y f g. absurd (cc))
          p.idle plain

    v : IsKeyed t
    v = Reach-IsKeyed (record { in_idle = start_keyed; in_taken = tt; in_jobs = tt }) r

    go :
        {c : WarmPool × Taken} → TakeCase now t.pool c → c.1 ≡ took x → Keyed key t.host.loaded x.id
    go (TakeCase.shut f) m = absurd (cc)
    go (TakeCase.empty b f n) m = absurd (cc)
    go (TakeCase.full rest y f n) m =
        let P = SlotKeyed key t.host.loaded in
        let same : y ≡ x = ground arith in
        subst P same (All-split P rest [] y (subst (All P) n v.in_idle)).1 marked_x
