-- ===== src/Server/Views.antt =====
-- `handleDelete` and the handlers that only read, of cmd/firefork-server/main.go.
use firefork_ai.Prelude.{
  ◌*◌, Bool, true, false, not, ◌&&◌, List, [], Option, none, some, if◌then◌else◌, length, map, ◌==◌,
}
use firefork_ai.Prelude.Word.{add64}
use firefork_ai.Prelude.Text.{Text, is_empty}
use firefork_ai.Template.Key.{entry_key}
use firefork_ai.Template.Registry.{Entry, list_entries}
use firefork_ai.Fork.WarmPool.{WarmPool, take_stats}
use firefork_ai.Fork.Pool.{Fork, State}
use firefork_ai.Fork.Pool.Teardown.{End, ReleaseError, release, count_live, live_forks}
use firefork_ai.Server.{
  Server, id_required, fork_not_live, ForkInfo, TplInfo, WarmStats, half_released, released,
  fork_list, template_list, measured, healthy, Response, refuse, fork_info,
}

module _ {R : Type 0} where
  unfoldable pub deleted : Text → Server → State × Bool × Option ReleaseError → Server × Response R
  deleted id s (st, false, e) = (record s { state = st }, refuse 404 (fork_not_live id))
  deleted id s (st, true, some e) =
      (record s { state = st }, record { status = 202; body = half_released id e })
  deleted id s (st, true, none) =
      (record s { state = st }, record { status = 200; body = released id })

  -- `handleDelete`; `e` is what ending the fork meets.
  unfoldable pub handle_delete : Text → End → Server → Server × Response R
  unfolding deleted
  handle_delete id e s =
      if is_empty id then (s, refuse 400 id_required) else deleted id s (release id e s.state)

-- An entry of the list has no template and no error.
listed : List (Text × Fork) → List ForkInfo
listed l = map (λ p. record (fork_info [] p.1) { id = p.0; failure = none }) l

unfoldable pub tpl_info : Entry → TplInfo
tpl_info e = record {
  name = e.name;
  version = e.version;
  key = entry_key e.name e.version;
  vcpus = e.vcpus;
  mem_mib = e.mem_mib;
  created_at = e.created_at;
  notes = e.notes;
  has_local = not (is_empty e.local_mem_file) && not (is_empty e.local_state_file);
}

-- The counters are `uint64`.
unfoldable pub warm_stats : WarmPool → WarmStats
warm_stats w =
    let (takes, drains) = take_stats w in
    let total = add64 takes drains in
    record {
      takes = takes;
      drains = drains;
      hit_rate_pct = if total == 0 then none else some (takes * 100, total);
      refill_errs = w.refill_errs;
    }

module _ {R : Type 0} where
  unfoldable pub handle_list_forks : Server → Response R
  unfolding listed
  handle_list_forks s =
      let out = listed (live_forks (s.state).pool) in
      record { status = 200; body = fork_list (length out) out }

  unfoldable pub handle_list_templates : Server → Response R
  unfolding tpl_info
  handle_list_templates s =
      let out = map tpl_info (list_entries s.registry) in
      record { status = 200; body = template_list (length out) out }

  unfoldable pub handle_metrics : Server → Response R
  unfolding warm_stats
  handle_metrics s = record {
    status = 200;
    body = measured (record {
      live_forks = count_live (s.state).pool;
      total_forks = s.total_forks;
      total_execs = s.total_execs;
      total_errs = s.total_errs;
      warm_pool = elim ((s.state).pool).warm_pool [ none ↦ none | some w ↦ some (warm_stats w) ];
    });
  }

  unfoldable pub handle_healthz : Server → Response R
  handle_healthz s = record { status = 200; body = healthy (count_live (s.state).pool) }
