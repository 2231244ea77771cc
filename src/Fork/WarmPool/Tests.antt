-- ===== src/Fork/WarmPool/Tests.antt =====
-- Runs of the warm pool, and its theorems at concrete inputs.
use firefork_ai.Prelude.{
  ◌<◌, ◌≡◌, refl, true, false, [], ◌∷◌, none, some, ok, pop_back, length, arith,
}
use firefork_ai.Prelude.Text.{codes, text_eq}
use firefork_ai.Prelude.Table.{insert, lookup}
use firefork_ai.Prelude.Word.{not_positive, lt64}
use firefork_ai.Fc.Host.{
  SnapshotPaths, Host, count, start, kill, make_dir, remove_dir, remove_every, remove_one, load,
}
use firefork_ai.Fork.WarmPool.{
  WarmPool, Slot, new_warm_pool, fresh_pool, spawned, some_failed, take_slot, spawn_slot, reap,
  reap_all, refill_check, refill_loaded, refill_publish, refill_failed, close_pool, preload_start,
  mark_preloaded, increment,
}
use firefork_ai.Fork.WarmPool.System.{spawning, checking, System, Step, Reach, here, next}
use firefork_ai.Fork.WarmPool.Ownership.{slot_count}
use firefork_ai.Fork.WarmPool.Shutdown.{
  opened, Spawned, new_warm_pool_failure, closed_leaves_nothing,
}
use firefork_ai.Fork.WarmPool.Snapshots.{Keyed}
use firefork_ai.Fork.WarmPool.Preloaded.{took_preloaded}
use firefork_ai.Fork.WarmPool.Leftover.{close_leaves_refill}
use firefork_ai.Fork.WarmPool.Growth.{IsDry, idle_outgrows_size}

-- All that a run of the pool computes with.
executed : Unit {0}
unfolding new_warm_pool fresh_pool spawned take_slot pop_back spawn_slot reap reap_all refill_check
    refill_loaded refill_publish refill_failed close_pool preload_start mark_preloaded increment
    not_positive insert lookup text_eq start kill make_dir remove_dir remove_every remove_one load
    count slot_count
executed = tt

abbrev first_slot : Slot
first_slot = record {
  id = codes "a";
  socket_path = codes "/w/firefork-warm-a/fc.sock";
  work_dir = codes "/w/firefork-warm-a";
  spawn_cost = 12;
  preloaded = false;
  jailer = none;
}

abbrev one_running : Host
one_running = record {
  running = codes "a" ∷ [];
  dirs = codes "/w/firefork-warm-a" ∷ [];
  loaded = [];
}

abbrev nothing_running : Host
nothing_running = record { running = []; dirs = []; loaded = [] }

abbrev first_pool : WarmPool
first_pool = record {
  size = 1;
  work_root = codes "/w";
  idle = first_slot ∷ [];
  closed = false;
  preload = none;
  jailer_template = none;
  refill_errs = 0;
  takes = 0;
  drains = 0;
  last_refill_fail_ns = 0;
}

abbrev snap : SnapshotPaths
snap = record { mem_file_path = codes "/m"; state_path = codes "/s" }

first_pool_new :
    new_warm_pool 1 (codes "/w") (codes "/tmp") true none (some first_slot ∷ []) one_running
    ≡ (ok first_pool, one_running)
unfolding executed lt64
first_pool_new = refl

first_Spawned : Spawned (some first_slot ∷ []) one_running
unfolding executed
first_Spawned x = omega arith

-- The slot is taken and torn down, and the pool is closed.
abbrev after_close : System
after_close = record {
  pool = record first_pool { idle = []; closed = true; takes = 1 };
  jobs = [];
  taken = [];
  host = nothing_running;
}

closing : Reach (opened first_pool one_running) after_close
unfolding executed
closing =
    next (next (next here (Step.take 0 (codes "b"))) (Step.tear_down [] [] first_slot refl))
      Step.close

closed_leaves_nothing_example : after_close.host.running ≡ []
closed_leaves_nothing_example =
    closed_leaves_nothing 1 (codes "/w") (codes "/tmp") true none (some first_slot ∷ []) one_running
      one_running first_pool first_Spawned first_pool_new closing refl refl refl

failing_Spawned : Spawned (some first_slot ∷ none ∷ []) one_running
unfolding executed
failing_Spawned x = omega arith

new_warm_pool_failure_example :
    (new_warm_pool 2
      (codes "/w")
      (codes "/tmp")
      true
      none
      (some first_slot ∷ none ∷ [])
      one_running).1.running
    ≡ []
new_warm_pool_failure_example =
    new_warm_pool_failure 2 (codes "/w") (codes "/tmp") true none (some first_slot ∷ none ∷ [])
      one_running (unfold not_positive lt64 in refl) refl (unfold some_failed in refl)
      failing_Spawned

abbrev keyed_system : System
keyed_system = record {
  pool = record first_pool {
    idle = record first_slot { preloaded = true; spawn_cost = 102 } ∷ [];
    preload = some snap;
  };
  jobs = [];
  taken = [];
  host = record one_running { loaded = (codes "a", snap) ∷ [] };
}

preloading_run : Reach (opened first_pool one_running) keyed_system
unfolding executed
preloading_run =
    next (next here (Step.preload snap)) (Step.preload_loads [] [] (codes "a") snap 90 refl)

took_preloaded_example : Keyed (some snap) ((codes "a", snap) ∷ []) (codes "a")
unfolding executed
took_preloaded_example =
    took_preloaded first_pool one_running 0 (record (keyed_system.pool) { idle = []; takes = 1 })
      (record first_slot { preloaded = true; spawn_cost = 102 }) (refl, tt) preloading_run refl refl

abbrev dry : System
dry = record {
  pool = record first_pool { idle = [] };
  jobs = [];
  taken = [];
  host = nothing_running;
}

dry-IsDry : IsDry dry
dry-IsDry = record { is_open = refl; keyless = refl; unjailed = refl; unfailed = refl }

idle_outgrows_size_example :
    (t : System) × Reach dry t × (length t.pool.idle ≡ 2) × (t.pool.size < length t.pool.idle)
idle_outgrows_size_example =
    idle_outgrows_size dry (codes "b" ∷ codes "c" ∷ []) dry-IsDry refl refl (omega arith)

-- A refill has been started for it.
abbrev refilling : System
refilling = record dry { jobs = spawning (codes "b") ∷ [] }

close_leaves_refill_example :
    (t : System) × (x : Slot) × Reach refilling t
    × (t.pool.closed ≡ true)
    × (t.pool.idle ≡ [])
    × (t.jobs ≡ checking x ∷ [])
    × (0 < count x.id t.host.running)
close_leaves_refill_example = close_leaves_refill refilling (codes "b") [] refl refl refl
