-- ===== src/Server/Tests.antt =====
-- A server with one template, asked for a fork, then for its end, by a client with the token.
use firefork_ai.Prelude.{
  ℕ, ◌+◌, ◌≡◌, refl, true, false, List, [], ◌∷◌, ◌++◌, none, some, All, ◌⊎◌, arith,
}
use firefork_ai.Prelude.Text.{Text, codes}
use firefork_ai.Fc.Host.{count}
use firefork_ai.Fc.Jailer.{JailerConfig, Start}
use firefork_ai.Template.Registry.{Entry}
use firefork_ai.Fork.Pool.{Env, Restoring}
use firefork_ai.Server.{Server, ForkInfo, refuse, unauthorized}
use firefork_ai.Server.Forking.{ForkReq, ForkMeets}
use firefork_ai.Server.Routes.{get_healthz, post_fork, Request, bearer, handle, serve_all}
use firefork_ai.Server.Access.{IsStranger, serve_all-stranger}

abbrev entry : Entry
entry = record {
  name = codes "a";
  version = codes "1";
  vcpus = 1;
  mem_mib = 256;
  local_mem_file = codes "/m";
  local_state_file = codes "/s";
  manifest_key = [];
  remote_bucket = [];
  created_at = 0;
  notes = [];
  agent_secret_hex = codes "0f";
}

abbrev nobody : Text → ℕ
nobody x = 0

abbrev pub server : Server
server = record {
  state = record {
    pool = record { live = []; warm_pool = none };
    host = record { running = []; dirs = []; loaded = [] };
    refills = 0;
  };
  registry = record { path = codes "/r"; entries = (codes "a/1", entry) ∷ [] };
  jailer_cfg = none;
  auth_token = codes "t";
  secrets = [];
  total_forks = 0;
  total_execs = 0;
  total_errs = 0;
}

abbrev env : ℕ → Env
env i = record {
  id = (i + 1000) ∷ [];
  now = 5;
  latency = 2000000;
  serves = λ q. true;
  linked = true;
  made = true;
  restoring = Restoring.restored;
  starting = Start.ready;
}

abbrev one : ForkReq
one = record { template = codes "a/1"; count = 1; combined_load_resume = false; timeout_ms = 0 }

abbrev meets : ForkMeets
meets = record {
  decoded = some one;
  there = λ f. true;
  temp = codes "/tmp";
  expires = λ n. false;
  sdk_bound = true;
  env = env;
}

abbrev info : ForkInfo
info = record {
  id = 1000 ∷ [];
  vsock_uds = codes "/tmp/firefork-fork-" ++ 1000 ∷ codes "/vsock.sock";
  work_dir = codes "/tmp/firefork-fork-" ++ 1000 ∷ [];
  latency_ms = 2;
  preload_ms = 0;
  e2e_ms = 2;
  template_key = codes "a/1";
  failure = none;
}

abbrev jailer : JailerConfig
jailer = record {
  jailer_bin = codes "/usr/bin/jailer";
  firecracker_bin = codes "/fc";
  id = [];
  chroot_base_dir = codes "/srv/jailer";
  uid = 10000;
  gid = 10000;
  net_ns = [];
  extra_jailer_args = [];
  extra_firecracker_args = [];
  extra_host_files = [];
}

abbrev jailing : Server
jailing = record server { jailer_cfg = some jailer }

abbrev late : ForkMeets
late = record meets { expires = λ n. true }

abbrev strangers : List (Request ℕ)
strangers =
    record { authorization = codes "Bearer u"; route = post_fork meets }
    ∷ record { authorization = []; route = get_healthz }
    ∷ []

strangers-IsStranger : All (IsStranger server.auth_token) strangers
unfolding bearer
strangers-IsStranger = ((λ e. ground arith), ((λ e. ground arith), tt))

serve_all-stranger_example :
    ((serve_all strangers server).0 ≡ server)
    × All
        (λ r. (r ≡ refuse 401 unauthorized) ⊎ (r ≡ (handle {R = ℕ} get_healthz server).1))
        (serve_all strangers server).1
serve_all-stranger_example = serve_all-stranger server refl strangers strangers-IsStranger
