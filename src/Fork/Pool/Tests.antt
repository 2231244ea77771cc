-- ===== src/Fork/Pool/Tests.antt =====
-- The pool of forks with one live fork and one idle slot of a warm pool.
use firefork_ai.Prelude.{
  ℕ, ◌+◌, ◌≤◌, ◌≡◌, refl, true, false, [], ◌∷◌, none, some, ok, All, length, arith,
}
use firefork_ai.Prelude.Word.{not_positive}
use firefork_ai.Prelude.Text.{Text, codes, text_eq}
use firefork_ai.Prelude.Table.{lookup}
use firefork_ai.Fc.Host.{SnapshotPaths, count}
use firefork_ai.Fc.Jailer.{Start}
use firefork_ai.Fork.Options.{default_optimizations, validate}
use firefork_ai.Fork.WarmPool.{WarmPool, Slot}
use firefork_ai.Fork.WarmPool.Ownership.{slot_count}
use firefork_ai.Fork.Pool.{ForkRequest, Fork, State, restored, Env, check_request, fork}
use firefork_ai.Fork.Pool.Teardown.{End, release, shutdown}
use firefork_ai.Fork.Pool.Ledger.{fork_count, live_count, warm_count}
use firefork_ai.Fork.Pool.Forking.{IsLedger}
use firefork_ai.Fork.Pool.Batch.{IsLive, IsFresh, fork-IsLedger, fork_results}
use firefork_ai.Fork.Pool.Ending.{shutdown-running, release-IsLedger}

abbrev bundle : SnapshotPaths
bundle = record { mem_file_path = codes "/m"; state_path = codes "/s" }

abbrev slot : Slot
slot = record {
  id = codes "w";
  socket_path = codes "/sock";
  work_dir = codes "/tmp/w";
  spawn_cost = 3;
  preloaded = false;
  jailer = none;
}

abbrev first_fork : Fork
first_fork = record {
  id = codes "a";
  sdk = true;
  socket_path = codes "/tmp/a/fc.sock";
  work_dir = codes "/tmp/a";
  latency = 1;
  preload_cost = 0;
  failure = none;
  warm_cmd = none;
  jailer = none;
}

abbrev warm : WarmPool
warm = record {
  size = 1;
  work_root = codes "/tmp";
  idle = slot ∷ [];
  closed = false;
  preload = none;
  jailer_template = none;
  refill_errs = 0;
  takes = 0;
  drains = 0;
  last_refill_fail_ns = 0;
}

abbrev begin : State
begin = record {
  pool = record { live = (codes "a", first_fork) ∷ []; warm_pool = some warm };
  host = record { running = codes "a" ∷ codes "w" ∷ []; dirs = []; loaded = [] };
  refills = 0;
}

abbrev nobody : Text → ℕ
nobody x = 0

once : (x : Text) → count x (codes "a" ∷ codes "w" ∷ []) ≤ 1
unfolding count text_eq
once [] = omega arith
once (c ∷ x) = ground arith

begin-IsLedger : IsLedger nobody begin
unfolding live_count warm_count slot_count fork_count count text_eq
begin-IsLedger = record {
  accounted = λ x. ground arith;
  unique = λ x. once x;
  keyed = ((λ x. refl), tt);
}

abbrev env : ℕ → Env
env i = record {
  id = (i + 1000) ∷ [];
  now = 5;
  latency = 2;
  serves = λ q. true;
  linked = true;
  made = true;
  restoring = restored;
  starting = Start.ready;
}

env-IsFresh : IsFresh env begin
unfolding count text_eq
env-IsFresh = record {
  distinct = λ i j e. ground arith;
  unused = λ i. ground arith;
  cleans = λ i e. ground arith;
}

abbrev two : ForkRequest
two = record {
  snapshot = bundle;
  count = 2;
  work_dir = [];
  opts = default_optimizations;
  jailer = none;
}

fork-IsLedger_example : IsLedger nobody (fork two (codes "/tmp") false env begin).0
fork-IsLedger_example =
    fork-IsLedger nobody two (codes "/tmp") false env begin env-IsFresh begin-IsLedger

two_checked : check_request two ≡ ok tt
unfolding check_request validate default_optimizations not_positive
two_checked = refl

fork_results_example :
    let t = fork two (codes "/tmp") false env begin in
    (length t.1 ≡ 2)
    × All (IsLive (t.0).pool) t.1
    × ((k : Text) (r : Fork)
        → lookup k (begin.pool).live ≡ some r
        → lookup k ((t.0).pool).live ≡ some r)
fork_results_example =
    fork_results nobody two (codes "/tmp") false env begin env-IsFresh begin-IsLedger two_checked

abbrev all_end : End
all_end = record { killed = true; removed = true }

shutdown-running_example :
    ((x : Text) → count x (((shutdown (λ k. all_end) begin).0).host).running ≡ 0)
    × ((((shutdown (λ k. all_end) begin).0).pool).live ≡ [])
    × ((((shutdown (λ k. all_end) begin).0).pool).warm_pool ≡ none)
shutdown-running_example = shutdown-running nobody begin begin-IsLedger (λ k. all_end) (λ k. refl)

a_lives : lookup (codes "a") (begin.pool).live ≡ some first_fork
unfolding lookup text_eq
a_lives = refl

release-IsLedger_example :
    IsLedger nobody (release (codes "a") all_end begin).0
    × (count (codes "a") (((release (codes "a") all_end begin).0).host).running ≡ 0)
release-IsLedger_example =
    release-IsLedger nobody (codes "a") all_end begin first_fork begin-IsLedger a_lives refl
