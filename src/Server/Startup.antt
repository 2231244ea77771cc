-- ===== src/Server/Startup.antt =====
-- `main` of cmd/firefork-server/main.go up to the first request: the flags that decide something, the
-- ways it exits, and the server it makes.
pub mod Lifecycle
mod Tests
use firefork_ai.Prelude.{
  List, ℕ, Bool, Option, none, some, if◌then◌else◌, Result, ok, err, ◌>>=◌, ◌>>◌, fail_if, [],
}
use firefork_ai.Prelude.Word.{not_positive}
use firefork_ai.Prelude.Text.{Text, is_empty}
use firefork_ai.Fc.Host.{SnapshotPaths, Host}
use firefork_ai.Fc.Jailer.{JailerConfig}
use firefork_ai.Template.Key
use firefork_ai.Template.Key.{parse_key}
use firefork_ai.Template.Registry
use firefork_ai.Template.Registry.{Registry, Entry, get}
use firefork_ai.Fork.WarmPool
use firefork_ai.Fork.WarmPool.{WarmPool, Slot, new_warm_pool}
use firefork_ai.Fork.WarmPool.Ultra.{Loads, new_ultra_warm_pool}
use firefork_ai.Fork.Pool.{new_pool, with_warm_pool}
use firefork_ai.Server.{Server}

pub record Flags : Type 0 where
  pub registry_path : Text
  pub fc_bin : Text
  pub jailer_bin : Text
  pub jailer_uid : ℕ
  pub jailer_gid : ℕ
  pub jailer_base : Text
  pub warm_pool_size : ℕ
  pub ultra_warm : Bool
  pub warm_template : Text
  pub auth_token : Text

-- What stops `main` before it listens; the first two and no others exit with status 2.
pub data Exit : Type 0 where
  warm_template_required : Exit
  warm_template_invalid : Key.Error → Exit
  registry_failed : Registry.Error → Exit
  warm_template_missing : Exit
  warm_pool_failed : WarmPool.Error → Exit

unfoldable pub exit_status : Exit → ℕ
exit_status warm_template_required = 2
exit_status (warm_template_invalid e) = 2
exit_status _ = 1

unfoldable pub jailer_from : Flags → Option JailerConfig
jailer_from f =
    if is_empty f.jailer_bin
    then none
    else some (record {
      jailer_bin = f.jailer_bin;
      firecracker_bin = f.fc_bin;
      id = [];
      chroot_base_dir = f.jailer_base;
      uid = f.jailer_uid;
      gid = f.jailer_gid;
      net_ns = [];
      extra_jailer_args = [];
      extra_firecracker_args = [];
      extra_host_files = [];
    })

-- The entry that the warm pool is loaded with must have a local memory file.
has_local_memory : Option Entry → Result Exit Entry
has_local_memory none = err warm_template_missing
has_local_memory (some e) = if is_empty e.local_mem_file then err warm_template_missing else ok e

lift_key : Result Key.Error (Text × Text) → Result Exit (Text × Text)
lift_key (ok k) = ok k
lift_key (err e) = err (warm_template_invalid e)

-- The snapshot for an ultra-warm pool.
unfoldable pub warm_snapshot : Flags → Registry → Result Exit SnapshotPaths
unfolding has_local_memory lift_key
warm_snapshot f reg = do
  fail_if (is_empty f.warm_template) warm_template_required
  key ← lift_key (parse_key f.warm_template)
  entry ← has_local_memory (get key.0 key.1 reg)
  ok (record { mem_file_path = entry.local_mem_file; state_path = entry.local_state_file })

-- What the start meets: what `OpenRegistry` returns, the world, and for a warm pool the temporary
-- directory, how its slots are spawned, the world after that, and what loading them meets.
pub record StartMeets : Type 0 where
  pub registry : Result Registry.Error Registry
  pub host : Host
  pub temp : Text
  pub made : Bool
  pub results : List (Option Slot)
  pub spawned_host : Host
  pub loads : Loads

lift_pool : Result WarmPool.Error WarmPool × Host → Result Exit (WarmPool × Host)
lift_pool (ok w, h) = ok (w, h)
lift_pool (err e, h) = err (warm_pool_failed e)

-- The warm pool, with the host that it leaves.
unfoldable pub warm_pool_for : Flags → StartMeets → Registry → Result Exit (WarmPool × Host)
unfolding lift_pool warm_snapshot
warm_pool_for f m reg =
    if f.ultra_warm
    then (do
      snap ← warm_snapshot f reg
      lift_pool (
          new_ultra_warm_pool m.loads snap f.warm_pool_size [] m.temp m.made none m.results
            m.spawned_host))
    else lift_pool (new_warm_pool f.warm_pool_size [] m.temp m.made none m.results m.spawned_host)

new_server : Flags → Registry → Host → Server
unfolding jailer_from
new_server f reg h = record {
  state = record { pool = new_pool; host = h; refills = 0 };
  registry = reg;
  jailer_cfg = jailer_from f;
  auth_token = f.auth_token;
  secrets = [];
  total_forks = 0;
  total_execs = 0;
  total_errs = 0;
}

attach : Flags → Registry → WarmPool × Host → Server
unfolding new_server
attach f reg (w, h) =
    let s = new_server f reg h in
    record s { state = record (s.state) { pool = with_warm_pool w (s.state).pool } }

opened : Flags → StartMeets → Result Registry.Error Registry → Result Exit Server
unfolding new_server attach warm_pool_for
opened f m (err e) = err (registry_failed e)
opened f m (ok reg) =
    if not_positive f.warm_pool_size
    then ok (new_server f reg m.host)
    else (do w ← warm_pool_for f m reg; ok (attach f reg w))

-- `main` up to the first request
unfoldable pub start_up : Flags → StartMeets → Result Exit Server
unfolding opened
start_up f m = opened f m m.registry
