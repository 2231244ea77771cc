-- ===== src/Fork/WarmPool/System.antt =====
-- The warm pool with its background goroutines and its callers, interleaved in any order.
use firefork_ai.Prelude.{
  ℕ, ◌≡◌, Bool, true, false, List, [], ◌∷◌, ◌++◌, Option, none, some, Result, ok, err,
}
use firefork_ai.Prelude.Text.{Text}
use firefork_ai.Fc.Host.{SnapshotPaths, Host, load}
use firefork_ai.Fc.Jailer.{Start}
use firefork_ai.Fork.WarmPool.{
  WarmPool, Error, Slot, Spawn, Taken, refused, drained, took, Next, stop, load_next, publish_next,
  spawn_slot, reap, take_slot, refill_failed, refill_check, refill_loaded, refill_publish,
  close_pool, preload_start, mark_preloaded,
}

-- Where a background goroutine stands, with what it holds.
pub data Job : Type 0 where
  spawning : Text → Job  -- start of `Refill`
  checking : Slot → Job
  loading : Slot → SnapshotPaths → Job
  publishing : Slot → Job
  preloading : Text → SnapshotPaths → Job  -- a goroutine of `Preload`

-- `taken` lists the slots that callers of `Take` own and have not torn down.
pub record System : Type 0 where
  pub pool : WarmPool
  pub jobs : List Job
  pub taken : List Slot
  pub host : Host

-- A drained `Take` outside the backoff starts a refill, whose slot will have the UUID `id`.
abbrev pub after_take : System → Text → WarmPool × Taken → System
after_take s id (p, refused e) = record s { pool = p }
after_take s id (p, drained true) = record s { pool = p; jobs = spawning id ∷ s.jobs }
after_take s id (p, drained false) = record s { pool = p }
after_take s id (p, took x) = record s { pool = p; taken = x ∷ s.taken }

abbrev pub after_spawn : System → List Job → ℕ → Host × Option Slot → System
after_spawn s rest now (h, none) = record s {
  pool = refill_failed now s.pool;
  jobs = rest;
  host = h;
}
after_spawn s rest now (h, some x) = record s { jobs = checking x ∷ rest; host = h }

abbrev pub after_check : System → List Job → Slot → Host × Next → System
after_check s rest x (h, stop) = record s { jobs = rest; host = h }
after_check s rest x (h, load_next snap) = record s { jobs = loading x snap ∷ rest; host = h }
after_check s rest x (h, publish_next) = record s { jobs = publishing x ∷ rest; host = h }

abbrev pub after_load : System → List Job → WarmPool × Host × Option Slot → System
after_load s rest (p, h, none) = record s { pool = p; jobs = rest; host = h }
after_load s rest (p, h, some x) = record s { pool = p; jobs = publishing x ∷ rest; host = h }

abbrev pub preload_jobs : SnapshotPaths → List Slot → List Job
preload_jobs snap [] = []
preload_jobs snap (x ∷ l) = preloading x.id snap ∷ preload_jobs snap l

abbrev pub after_preload : System → SnapshotPaths → Result Error (WarmPool × List Slot) → System
after_preload s snap (err e) = s
after_preload s snap (ok (p, slots)) = record s {
  pool = p;
  jobs = preload_jobs snap slots ++ s.jobs;
}

abbrev pub marked : System → List Job → Text → SnapshotPaths → ℕ → System
marked s rest id snap cost = record s {
  pool = record (s.pool) { idle = mark_preloaded id cost s.pool.idle };
  jobs = rest;
  taken = mark_preloaded id cost s.taken;
  host = load id snap s.host;
}

-- One critical section of one goroutine or caller. The goroutine that moves is any of `jobs`.
pub data Step (s : System) : System → Type 0 where
  take : (now : ℕ) (id : Text) → Step s (after_take s id (take_slot now s.pool))
  refill : (id : Text) → Step s (record s { jobs = spawning id ∷ s.jobs })
  spawn :
      (l r : List Job) (id : Text) (o : Spawn) (jail : Start) (cost now : ℕ)
      → s.jobs ≡ l ++ spawning id ∷ r
      → Step s (after_spawn s (l ++ r) now (spawn_slot s.pool id o jail cost s.host))
  check :
      (l r : List Job) (x : Slot)
      → s.jobs ≡ l ++ checking x ∷ r
      → Step s (after_check s (l ++ r) x (refill_check s.pool x s.host))
  loads :
      (l r : List Job) (x : Slot) (snap : SnapshotPaths) (linked loaded : Bool) (cost now : ℕ)
      → s.jobs ≡ l ++ loading x snap ∷ r
      → Step s (after_load s (l ++ r) (refill_loaded now s.pool x snap linked loaded cost s.host))
  publish :
      (l r : List Job) (x : Slot)
      → s.jobs ≡ l ++ publishing x ∷ r
      → Step s (record s {
        pool = (refill_publish s.pool x s.host).0;
        jobs = l ++ r;
        host = (refill_publish s.pool x s.host).1;
      })
  preload : (snap : SnapshotPaths) → Step s (after_preload s snap (preload_start s.pool snap))
  preload_fails :
      (l r : List Job) (id : Text) (snap : SnapshotPaths)
      → s.jobs ≡ l ++ preloading id snap ∷ r
      → Step s (record s { jobs = l ++ r })
  preload_loads :
      (l r : List Job) (id : Text) (snap : SnapshotPaths) (cost : ℕ)
      → s.jobs ≡ l ++ preloading id snap ∷ r
      → Step s (marked s (l ++ r) id snap cost)
  close :
      Step s (record s { pool = (close_pool s.pool s.host).0; host = (close_pool s.pool s.host).1 })
  -- A caller of `Take` kills its process and removes its directory.
  tear_down :
      (l r : List Slot) (x : Slot)
      → s.taken ≡ l ++ x ∷ r
      → Step s (record s { taken = l ++ r; host = reap x s.host })

pub data Reach (s : System) : System → Type 0 where
  here : Reach s s
  next : {t u : System} → Reach s t → Step t u → Reach s u
