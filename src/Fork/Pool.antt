-- ===== src/Fork/Pool.antt =====
-- internal/fork/pool.go: the pool of live forks. The goroutines of `Fork` run here one after another;
-- they share only `Take` and the writes of `live`, each of which holds a mutex. What a fork meets
-- outside the pool is the `Env` of its goroutine; a goroutine that panics is not modelled.
pub mod Teardown
pub mod Ledger
pub mod Forking
pub mod Batch
pub mod Ending
mod Tests
use firefork_ai.Prelude.{
  ℕ, zero, suc, ◌+◌, ◌≡◌, Bool, true, false, not, ◌||◌, ◌&&◌, List, [], ◌∷◌, ◌++◌, Option, none,
  some, if◌then◌else◌, Result, ok, err, ◌>>=◌, ◌>>◌, fail_if, length,
}
use firefork_ai.Prelude.Word.{not_positive}
use firefork_ai.Prelude.Text.{Text, codes, is_empty}
use firefork_ai.Prelude.Table.{Table, lookup, insert, delete}
use firefork_ai.Fc.Host.{SnapshotPaths, Host, start, kill, make_dir, remove_dir, load}
use firefork_ai.Fc.Socket
use firefork_ai.Fc.Socket.{Request, RestoreOptions, restore_on_socket, resume_on_socket}
use firefork_ai.Fc.Jailer
use firefork_ai.Fc.Jailer.{
  JailerConfig, Start, chroot_root, host_api_socket_path, start_jailed, default_chroot_layout,
}
use firefork_ai.Fork.Options
use firefork_ai.Fork.Options.{Optimizations}
use firefork_ai.Fork.WarmPool
use firefork_ai.Fork.WarmPool.{
  WarmPool, Slot, Taken, refused, drained, took, take_slot, snap_for_slot, reap, close_pool,
}

pub record ForkRequest : Type 0 where
  pub snapshot : SnapshotPaths
  pub count : ℕ
  pub work_dir : Text
  pub opts : Optimizations
  pub jailer : Option JailerConfig

pub data Error : Type 0 where
  count_not_positive paths_required mkdir_failed restore_failed prep_failed cancelled : Error
  invalid_opts : Options.Error → Error
  socket_failed : Socket.Error → Error
  start_failed : Jailer.Error → Error

-- `Machine` is non-nil for a live fork; `sdk` says whether it holds an SDK machine, which `StopVMM`
-- stops. `warm_cmd` is the process of a fork that does not.
pub record Fork : Type 0 where
  pub id : Text
  pub sdk : Bool
  pub socket_path : Text
  pub work_dir : Text
  pub latency : ℕ
  pub preload_cost : ℕ
  pub failure : Option Error
  pub warm_cmd : Option Text
  pub jailer : Option JailerConfig

pub record Pool : Type 0 where
  pub live : List (Text × Fork)
  pub warm_pool : Option WarmPool

-- The pool, the world, and the refills started so far.
pub record State : Type 0 where
  pub pool : Pool
  pub host : Host
  pub refills : ℕ

-- How `fc.Restore` ends. `left` says whether the SDK leaves the process it started when `Start` fails.
pub data Restoring : Type 0 where
  refuses resume_fails restored : Restoring
  start_fails : (left : Bool) → Restoring

pub record Env : Type 0 where
  pub id : Text
  pub now : ℕ
  pub latency : ℕ
  pub serves : Request → Bool
  pub linked : Bool
  pub made : Bool
  pub restoring : Restoring
  pub starting : Start

unfoldable pub new_pool : Pool
new_pool = record { live = []; warm_pool = none }

unfoldable pub with_warm_pool : WarmPool → Pool → Pool
with_warm_pool w p = record p { warm_pool = some w }

failed_fork : Text → Text → Error → Fork
failed_fork id work_dir e = record {
  id = id;
  sdk = false;
  socket_path = [];
  work_dir = work_dir;
  latency = 0;
  preload_cost = 0;
  failure = some e;
  warm_cmd = none;
  jailer = none;
}

-- `p.live[id] = res`
add_live : Fork → State → State
add_live r st = record st { pool = record (st.pool) { live = insert r.id r (st.pool).live } }

-- `Refill` starts a goroutine, which is counted here; what these do is in Fork/WarmPool/System.
refill : State → State
refill st = record st { refills = suc st.refills }

restore_options : ForkRequest → RestoreOptions
restore_options req = record {
  resume_on_load = true;
  combined_load_resume = (req.opts).combined_load_resume;
}

lift_socket : Result Socket.Error (Unit {0}) → Result Error (Unit {0})
lift_socket (ok _) = ok tt
lift_socket (err e) = err (socket_failed e)

load_warm : Env → ForkRequest → Slot → Result WarmPool.Error SnapshotPaths → Result Error (Unit {0})
unfolding restore_options lift_socket
load_warm v req s (err e) = err prep_failed
load_warm v req s (ok snap) =
    lift_socket (restore_on_socket v.serves s.socket_path snap (restore_options req)).1

-- A preloaded slot is resumed; into any other the snapshot is loaded, for a jailed slot from the paths
-- in its chroot.
warm_restore : Env → ForkRequest → Slot → Result Error (Unit {0})
unfolding load_warm lift_socket
warm_restore v req s =
    if s.preloaded
    then lift_socket (resume_on_socket v.serves s.socket_path).1
    else load_warm v req s (snap_for_slot s req.snapshot v.linked)

warm_fork : Env → Slot → Fork
warm_fork v s = record {
  id = s.id;
  sdk = false;
  socket_path = s.socket_path;
  work_dir = s.work_dir;
  latency = v.latency;
  preload_cost = s.spawn_cost;
  failure = none;
  warm_cmd = some s.id;
  jailer = s.jailer;
}

-- The slot is consumed either way, and a refill is started.
pub finish_warm : Env → Slot → State → Result Error (Unit {0}) → State × Fork
unfolding warm_fork failed_fork add_live refill
finish_warm v s st (ok _) = (add_live (warm_fork v s) (refill st), warm_fork v s)
finish_warm v s st (err e) =
    (refill (record st { host = reap s st.host }), failed_fork v.id s.work_dir e)

fork_dir : Text → Text → Text
fork_dir root id = root ++ codes "/firefork-fork-" ++ id

cold_fork : Env → Text → Fork
unfolding fork_dir
cold_fork v root = record {
  id = v.id;
  sdk = true;
  socket_path = fork_dir root v.id ++ codes "/fc.sock";
  work_dir = fork_dir root v.id;
  latency = v.latency;
  preload_cost = 0;
  failure = none;
  warm_cmd = none;
  jailer = none;
}

-- `fc.Restore`: whether it succeeds, and what it leaves running.
restore : Text → Restoring → Host → Host × Bool
restore id refuses h = (h, false)
restore id (start_fails left) h = (if left then start id h else h, false)
restore id resume_fails h = (kill id (start id h), false)
restore id restored h = (start id h, true)

finish_cold : Env → Text → State → Host × Bool → State × Fork
unfolding cold_fork failed_fork add_live fork_dir
finish_cold v root st (h, true) =
    (add_live (cold_fork v root) (record st { host = h }), cold_fork v root)
finish_cold v root st (h, false) =
    (record st { host = remove_dir (fork_dir root v.id) h }, failed_fork v.id [] restore_failed)

fork_cold : Env → Text → State → State × Fork
unfolding finish_cold restore failed_fork fork_dir
fork_cold v root st =
    if v.made
    then finish_cold v root st (restore v.id v.restoring (make_dir (fork_dir root v.id) st.host))
    else (st, failed_fork v.id [] mkdir_failed)

jailed_fork : Env → JailerConfig → Fork
jailed_fork v j = record {
  id = v.id;
  sdk = false;
  socket_path = host_api_socket_path j;
  work_dir = chroot_root j;
  latency = v.latency;
  preload_cost = 0;
  failure = none;
  warm_cmd = some v.id;
  jailer = some j;
}

inside_snap : SnapshotPaths
inside_snap = record {
  mem_file_path = default_chroot_layout.mem_file;
  state_path = default_chroot_layout.state_file;
}

finish_jailed : Env → JailerConfig → State → Host → Result Error (Unit {0}) → State × Fork
unfolding jailed_fork failed_fork add_live
finish_jailed v j st h (ok _) =
    (add_live (jailed_fork v j) (record st { host = h }), jailed_fork v j)
finish_jailed v j st h (err e) = (
  record st { host = remove_dir (chroot_root j) (kill v.id h) },
  failed_fork v.id (chroot_root j) e,
)

started_jailed :
    Env → ForkRequest → JailerConfig → State → Host × Result Jailer.Error (Unit {0}) → State × Fork
unfolding finish_jailed failed_fork inside_snap restore_options lift_socket
started_jailed v req j st (h, err e) =
    (record st { host = remove_dir (chroot_root j) h }, failed_fork v.id [] (start_failed e))
started_jailed v req j st (h, ok _) = finish_jailed v j st h (
    lift_socket
      (restore_on_socket v.serves (host_api_socket_path j) inside_snap (restore_options req)).1)

-- `forkOneJailed`
fork_one_jailed : Env → ForkRequest → JailerConfig → State → State × Fork
unfolding started_jailed
fork_one_jailed v req template st =
    let j = record template { id = v.id } in
    started_jailed v req j st (start_jailed j v.starting st.host)

pub cold_path : Env → ForkRequest → Text → Option JailerConfig → State → State × Fork
unfolding fork_one_jailed fork_cold
cold_path v req root none st = fork_cold v root st
cold_path v req root (some j) st = fork_one_jailed v req j st

set_warm : WarmPool → State → State
set_warm w st = record st { pool = record (st.pool) { warm_pool = some w } }

-- After `Take`: a slot is used; an error, or an empty pool, falls through to the cold path.
after_take : Env → ForkRequest → Text → State → WarmPool × Taken → State × Fork
unfolding finish_warm warm_restore cold_path set_warm refill
after_take v req root st (w, took s) = finish_warm v s (set_warm w st) (warm_restore v req s)
after_take v req root st (w, refused e) = cold_path v req root req.jailer (set_warm w st)
after_take v req root st (w, drained true) =
    cold_path v req root req.jailer (refill (set_warm w st))
after_take v req root st (w, drained false) = cold_path v req root req.jailer (set_warm w st)

fork_from : Env → ForkRequest → Text → State → Option WarmPool → State × Fork
unfolding after_take cold_path
fork_from v req root st none = cold_path v req root req.jailer st
fork_from v req root st (some w) = after_take v req root st (take_slot v.now w)

-- `forkOne`
unfoldable pub fork_one : Env → ForkRequest → Text → State → State × Fork
unfolding fork_from
fork_one v req root st = fork_from v req root st (st.pool).warm_pool

-- `n` goroutines, the `i`-th of which meets `env i`.
unfoldable pub fork_all : ℕ → ℕ → (ℕ → Env) → ForkRequest → Text → State → State × List Fork
fork_all zero i env req root st = (st, [])
fork_all (suc n) i env req root st =
    let (st', r) = fork_one (env i) req root st in
    let (t, rs) = fork_all n (suc i) env req root st' in (t, r ∷ rs)

unfoldable pub lift_opts : Result Options.Error (Unit {0}) → Result Error (Unit {0})
lift_opts (ok _) = ok tt
lift_opts (err e) = err (invalid_opts e)

unfoldable pub check_request : ForkRequest → Result Error (Unit {0})
unfolding lift_opts
check_request req = do
  fail_if (not_positive req.count) count_not_positive
  fail_if (is_empty (req.snapshot).mem_file_path || is_empty (req.snapshot).state_path)
      paths_required
  lift_opts (Options.validate req.opts)

fork_checked :
    ForkRequest
    → Text
    → Bool
    → (ℕ → Env)
    → State
    → Result Error (Unit {0})
    → State × List Fork × Option Error
fork_checked req temp done env st (err e) = (st, [], some e)
fork_checked req temp done env st (ok _) =
    let root = if is_empty req.work_dir then temp else req.work_dir in
    let (t, rs) = fork_all req.count 0 env req root st in
    (t, rs, if done then some cancelled else none)

-- `Fork`; `temp` is `os.TempDir()`, `done` whether the context has an error at the end.
unfoldable pub fork :
    ForkRequest → Text → Bool → (ℕ → Env) → State → State × List Fork × Option Error
unfolding fork_checked
fork req temp done env st = fork_checked req temp done env st (check_request req)
