-- ===== src/Server/Forking.antt =====
-- `handleFork` of cmd/firefork-server/main.go.
use firefork_ai.Prelude.{
  ℕ, zero, suc, Bool, true, false, not, ◌||◌, List, [], ◌∷◌, Option, none, some, if◌then◌else◌,
  Result, ok, err, ◌>>=◌, ◌>>◌, fail_if, or_fail, map,
}
use firefork_ai.Prelude.Word.{lt64, not_positive, add64}
use firefork_ai.Prelude.Text.{Text, is_empty}
use firefork_ai.Prelude.Table.{insert}
use firefork_ai.Prelude.Hex.{decode_string}
use firefork_ai.Fc.Host.{Host, kill}
use firefork_ai.Fc.Jailer.{JailerConfig}
use firefork_ai.Template.Key
use firefork_ai.Template.Key.{parse_key, entry_key}
use firefork_ai.Template.Registry.{Registry, Entry, get}
use firefork_ai.Fork.Pool
use firefork_ai.Fork.Pool.{ForkRequest, Fork, State, Env, fork}
use firefork_ai.Server.{
  Server, Message, decode_body, count_not_positive, count_too_large, no_local_snapshot,
  memfile_missing, template_invalid, template_unknown, fork_refused, forked, Response, refuse,
  fork_info, request_timeout,
}

pub record ForkReq : Type 0 where
  pub template : Text
  pub count : ℕ
  pub combined_load_resume : Bool
  pub timeout_ms : ℕ

-- What the handler meets: the decoded body, which files exist, `os.TempDir()`, whether a context with
-- this timeout has an error when the forks are done, whether the process of a machine that the SDK
-- has started ends with the context it was started in, and what each fork meets.
pub record ForkMeets : Type 0 where
  pub decoded : Option ForkReq
  pub there : Text → Bool
  pub temp : Text
  pub expires : ℕ → Bool
  pub sdk_bound : Bool
  pub env : ℕ → Env

unfoldable pub lift_key : Result Key.Error (Text × Text) → Result (ℕ × Message) (Text × Text)
lift_key (ok k) = ok k
lift_key (err e) = err (400, template_invalid e)

-- The entry, if its files are named and the memory file exists.
unfoldable pub with_files : (Text → Bool) → Entry → Result (ℕ × Message) Entry
with_files there entry = do
  fail_if (is_empty entry.local_mem_file || is_empty entry.local_state_file)
      (424, no_local_snapshot)
  fail_if (not (there entry.local_mem_file)) (424, memfile_missing)
  ok entry

-- The guards up to `os.Stat`, with the entry of the template.
unfoldable pub check_fork : (Text → Bool) → Registry → ForkReq → Result (ℕ × Message) Entry
unfolding lift_key with_files
check_fork there reg req = do
  fail_if (not_positive req.count) (400, count_not_positive)
  fail_if (lt64 256 req.count) (400, count_too_large)
  key ← lift_key (parse_key req.template)
  entry ← or_fail (get key.0 key.1 reg) (404, template_unknown req.template)
  with_files there entry

unfoldable pub put_secret : Text → Text × Bool → Server → Server
put_secret key (secret, true) s = record s { secrets = insert key secret s.secrets }
put_secret key (secret, false) s = s

-- `// Cache the secret for /exec.`
unfoldable pub cache_secret : Entry → Server → Server
unfolding put_secret
cache_secret e s =
    if is_empty e.agent_secret_hex
    then s
    else put_secret (entry_key e.name e.version) (decode_string e.agent_secret_hex) s

unfoldable pub pool_request : Server → Entry → ForkReq → ForkRequest
pool_request s e req = record {
  snapshot = record { mem_file_path = e.local_mem_file; state_path = e.local_state_file };
  count = req.count;
  work_dir = [];
  opts = record {
    warm_pool_size = 0;
    ultra_warm_pool = false;
    combined_load_resume = req.combined_load_resume;
  };
  jailer = s.jailer_cfg;
}

-- The call of `Pool.Fork`
unfoldable pub attempt :
    ForkMeets → ForkReq → Server → Entry → State × List Fork × Option Pool.Error
unfolding pool_request
attempt m req s e =
    fork (pool_request s e req) m.temp (m.expires (request_timeout req.timeout_ms 60000000000))
      m.env s.state

-- How many of the results are without an error, and how many have one.
unfoldable pub successes : List Fork → ℕ
successes [] = 0
successes (r ∷ l) = let rest = successes l in elim r.failure [ none ↦ suc rest | some e ↦ rest ]

unfoldable pub failures : List Fork → ℕ
failures [] = 0
failures (r ∷ l) = let rest = failures l in elim r.failure [ none ↦ rest | some e ↦ suc rest ]

unfoldable pub count_errors : ℕ → Server → Server
count_errors n s = record s { total_errs = add64 s.total_errs n }

-- The processes that the goroutines have started are killed, those that still run.
unfoldable pub ended : ℕ → ℕ → (ℕ → Env) → Host → Host
ended zero i env h = h
ended (suc n) i env h = ended n (suc i) env (kill (env i).id h)

-- Whether the processes of cold forks end with the context: of `exec.CommandContext` in `Cmd` for
-- jailed ones, of the SDK for others.
unfoldable pub context_bound : Option JailerConfig → Bool → Bool
context_bound (some j) sdk_bound = true
context_bound none sdk_bound = sdk_bound

-- The end of the request's context, and what follows from it at once or soon after:
-- `exec.CommandContext` kills the process of a jailed fork. The slots of the warm pool are started in
-- the background and stay.
unfoldable pub end_context : ForkMeets → ForkReq → Server → Server
unfolding ended context_bound
end_context m req s =
    let bound = context_bound s.jailer_cfg m.sdk_bound in
    let h = (s.state).host in
    record s { state = record (s.state) { host = if bound then ended req.count 0 m.env h else h } }

module _ {R : Type 0} where
  -- The answer, from what `Pool.Fork` returned on.
  unfoldable pub report :
      Text → Server → State × List Fork × Option Pool.Error → Server × Response R
  unfolding successes failures count_errors
  report key s (st, results, some e) =
      (count_errors 1 (record s { state = st }), refuse 500 (fork_refused e))
  report key s (st, results, none) =
      let s' = count_errors (failures results) (record s { state = st }) in
      (
        record s' { total_forks = add64 s'.total_forks (successes results) },
        record { status = 200; body = forked (map (fork_info key) results) },
      )

  -- `defer cancel()`
  unfoldable pub fork_entry :
      ForkMeets → ForkReq → Server → Result (ℕ × Message) Entry → Server × Response R
  unfolding report cache_secret attempt end_context
  fork_entry m req s (err (status, msg)) = (s, refuse status msg)
  fork_entry m req s (ok e) =
      let s' = cache_secret e s in
      let (t, r) = report (entry_key e.name e.version) s' (attempt m req s' e) in
      (end_context m req t, r)

  unfoldable pub fork_decoded : ForkMeets → Server → Option ForkReq → Server × Response R
  unfolding fork_entry count_errors
  fork_decoded m s none = (count_errors 1 s, refuse 400 decode_body)
  fork_decoded m s (some req) = fork_entry m req s (check_fork m.there s.registry req)

  -- `handleFork`
  unfoldable pub handle_fork : ForkMeets → Server → Server × Response R
  unfolding fork_decoded
  handle_fork m s = fork_decoded m s m.decoded
