-- ===== src/Server/Startup/Tests.antt =====
-- A run of the server up to its first request, beside a process that ran before.
use firefork_ai.Prelude.{true, false, [], ◌∷◌, none, some, ok}
use firefork_ai.Prelude.Text.{Text, codes}
use firefork_ai.Server.{Server}
use firefork_ai.Server.Startup.{Flags, StartMeets}
use firefork_ai.Fork.WarmPool.{Slot}
use firefork_ai.Server.Tests.{server}

abbrev flags : Flags
flags = record {
  registry_path = codes "/r";
  fc_bin = codes "/fc";
  jailer_bin = [];
  jailer_uid = 10000;
  jailer_gid = 10000;
  jailer_base = codes "/srv/jailer";
  warm_pool_size = 1;
  ultra_warm = false;
  warm_template = [];
  auth_token = codes "t";
}

abbrev slot : Slot
slot = record {
  id = codes "w";
  socket_path = codes "/tmp/w/fc.sock";
  work_dir = codes "/tmp/w";
  spawn_cost = 3;
  preloaded = false;
  jailer = none;
}

-- One process ran before the server, and one slot is spawned.
abbrev start_meets : StartMeets
start_meets = record {
  registry = ok server.registry;
  host = record { running = codes "o" ∷ []; dirs = []; loaded = [] };
  temp = codes "/tmp";
  made = true;
  results = some slot ∷ [];
  spawned_host = record { running = codes "w" ∷ codes "o" ∷ []; dirs = []; loaded = [] };
  loads = λ id. none;
}

abbrev booted : Server
booted = record {
  state = record {
    pool = record {
      live = [];
      warm_pool = some (record {
        size = 1;
        work_root = codes "/tmp";
        idle = slot ∷ [];
        closed = false;
        preload = none;
        jailer_template = none;
        refill_errs = 0;
        takes = 0;
        drains = 0;
        last_refill_fail_ns = 0;
      });
    };
    host = start_meets.spawned_host;
    refills = 0;
  };
  registry = server.registry;
  jailer_cfg = none;
  auth_token = codes "t";
  secrets = [];
  total_forks = 0;
  total_execs = 0;
  total_errs = 0;
}
