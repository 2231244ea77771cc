-- ===== src/Server/Answers.antt =====
-- What the server's answers say of the pool.
use firefork_ai.Prelude.{ℕ, ◌+◌, ◌≡◌, false, List, some, length, map, All}
use firefork_ai.Prelude.Word.{add64}
use firefork_ai.Prelude.Text.{Text}
use firefork_ai.Template.Key.{entry_key}
use firefork_ai.Template.Registry.{Entry}
use firefork_ai.Fork.Pool
use firefork_ai.Fork.Pool.{Fork, lift_opts, check_request, fork}
use firefork_ai.Fork.Pool.Batch.{IsLive, IsFresh}
use firefork_ai.Server.{Server, ForkInfo, Response, fork_info, request_timeout}
use firefork_ai.Server.Forking.{ForkReq, ForkMeets, successes, failures}
use firefork_ai.Server.Context.{IsKept}
use firefork_ai.Server.Granting.{IsGranted}

module _ (m : ForkMeets) (s : Server) where
  -- A list of forks as the answer: who asked for it and what it says.
  pub record IsAnswer (t : Server) (infos : List ForkInfo) : Type 0 where
    pub req : ForkReq
    pub entry : Entry
    pub results : List Fork
    pub asked : m.decoded ≡ some req
    pub granted : IsGranted m.there s.registry req entry
    pub in_time : m.expires (request_timeout req.timeout_ms 60000000000) ≡ false
    pub infos_are : infos ≡ map (fork_info (entry_key entry.name entry.version)) results
    pub all_lives : All (IsLive (t.state).pool) results
    pub each : successes results + failures results ≡ req.count
    pub forks_counted : t.total_forks ≡ add64 s.total_forks (successes results)
    pub errs_counted : t.total_errs ≡ add64 s.total_errs (failures results)

  module _ (R : Type 0) (others : Text → ℕ) (f : IsFresh m.env s.state) (w : IsKept others s) where
    IsUnreported : List Fork → ℕ → Server × Response R → Type 0
    IsUnreported l n t =
        (t.1.status ≡ 500)
        × (t.0.total_forks ≡ s.total_forks)
        × (length l ≡ n)
        × All (IsLive (t.0.state).pool) l
