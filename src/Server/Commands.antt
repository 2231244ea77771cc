-- ===== src/Server/Commands.antt =====
-- `handleExec` of cmd/firefork-server/main.go.
use firefork_ai.Prelude.{
  ℕ, zero, suc, Bool, true, false, ◌&&◌, List, [], ◌∷◌, Option, none, some, Result, ok, err, ◌>>◌,
  fail_if, or_fail,
}
use firefork_ai.Prelude.Word.{add64}
use firefork_ai.Prelude.Text.{Text, is_empty}
use firefork_ai.Prelude.Table.{lookup}
use firefork_ai.Workload.Call
use firefork_ai.Fork.Pool.{Fork, Pool}
use firefork_ai.Fork.Pool.Teardown.{live_forks}
use firefork_ai.Server.{
  Server, Message, decode_body, fork_id_required, command_required, fork_not_live, vsock_call,
  executed, Response, refuse, in_milliseconds, vsock_in, request_timeout,
}

pub record ExecReq : Type 0 where
  pub fork_id : Text
  pub cmd : Text
  pub argv : List Text
  pub timeout_ms : ℕ

-- The command that goes to the agent: `exec` with `argv`, or with `sh`.
pub data Command : Type 0 where
  exec_argv : List Text → Command
  exec_sh : Text → Command

no_words : List Text → Bool
no_words [] = true
no_words (w ∷ l) = false

unfoldable pub command_for : ExecReq → Command
command_for req = elim req.argv [ [] ↦ exec_sh req.cmd | w ∷ l ↦ exec_argv (w ∷ l) ]

-- What the handler meets: the decoded body, the place at which the iteration over the secrets starts,
-- `workload.Call` with a timeout, and the time that it takes.
pub record ExecMeets (R : Type 0) : Type 0 where
  pub decoded : Option ExecReq
  pub start : ℕ
  pub called : (timeout : ℕ) → (uds secret : Text) → Command → Result Call.Error R
  pub latency : ℕ

-- The first value that an iteration from place `n` yields; no secret is the empty one.
unfoldable pub some_secret : ℕ → List (Text × Text) → Text
some_secret n [] = []
some_secret n ((k, v) ∷ []) = v
some_secret zero ((k, v) ∷ m ∷ l) = v
some_secret (suc n) ((k, v) ∷ m ∷ l) = some_secret n (m ∷ l)

-- The guards, with the fork.
unfoldable pub check_exec : Pool → ExecReq → Result (ℕ × Message) Fork
unfolding no_words
check_exec p req = do
  fail_if (is_empty req.fork_id) (400, fork_id_required)
  fail_if (is_empty req.cmd && no_words req.argv) (400, command_required)
  or_fail (lookup req.fork_id (live_forks p)) (404, fork_not_live req.fork_id)

module _ {R : Type 0} where
  unfoldable pub exec_answer : ExecReq → ℕ → Server → Result Call.Error R → Server × Response R
  exec_answer req latency s (err e) =
      (record s { total_errs = add64 s.total_errs 1 }, refuse 502 (vsock_call e))
  exec_answer req latency s (ok r) = (
    record s { total_execs = add64 s.total_execs 1 },
    record { status = 200; body = executed req.fork_id (in_milliseconds latency) r },
  )

  unfoldable pub exec_in :
      ExecMeets R → ExecReq → Server → Result (ℕ × Message) Fork → Server × Response R
  unfolding exec_answer
  exec_in m req s (err (status, msg)) = (s, refuse status msg)
  exec_in m req s (ok r) = exec_answer req m.latency s (
      m.called (request_timeout req.timeout_ms 30000000000) (vsock_in r.work_dir)
        (some_secret m.start s.secrets) (command_for req))

  unfoldable pub exec_decoded : ExecMeets R → Server → Option ExecReq → Server × Response R
  unfolding exec_in
  exec_decoded m s none = (record s { total_errs = add64 s.total_errs 1 }, refuse 400 decode_body)
  exec_decoded m s (some req) = exec_in m req s (check_exec (s.state).pool req)

  -- `handleExec`
  unfoldable pub handle_exec : ExecMeets R → Server → Server × Response R
  unfolding exec_decoded
  handle_exec m s = exec_decoded m s m.decoded
