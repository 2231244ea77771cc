-- ===== src/Template/Builder/Shell.antt =====
-- The commands of a build in internal/template/builder.go: `runShell` and what it accepts as success,
-- and `extractKernelVersion`.
use firefork_ai.Prelude.{
  ℕ, suc, ◌/◌, ◌≡◌, refl, Bool, false, not, List, [], ◌∷◌, Option, none, some, if◌then◌else◌, ltb,
  ◌==◌, Result, ok, err, ◌>>◌, fail_if,
}
use firefork_ai.Prelude.Text.{Text, codes, text_eq, is_empty, split}
use firefork_ai.Prelude.Table.{lookup}
use firefork_ai.Workload.Call

pub data Error : Type 0 where
  call_failed : Call.Error → Error
  exit_code_failed code_failed agent_failed : Error

pub record ShellCommand : Type 0 where
  pub argv : List Text
  pub timeout : ℕ

-- The seconds that the agent gets, for a timeout in nanoseconds that is positive.
unfoldable pub agent_timeout : ℕ → ℕ
agent_timeout t = let s = t / 1000000000 in if ltb s 1 then 30 else s

-- `number` is the `switch` of `numericField` on a value, `as_text` the type assertion to a string.
module _ {V : Type 0} (number : V → Option ℕ) (as_text : V → Option Text) where
  unfoldable pub numeric_field : List (Text × V) → Text → Option ℕ
  numeric_field m key = elim (lookup key m) [ none ↦ none | some v ↦ number v ]

  non_zero : Option ℕ → Bool
  non_zero none = false
  non_zero (some n) = not (n == 0)

  error_text : Option V → Text
  error_text none = []
  error_text (some v) = elim (as_text v) [ none ↦ [] | some t ↦ t ]

  unfoldable pub check_reply : List (Text × V) → Result Error (Unit {0})
  unfolding numeric_field non_zero error_text
  check_reply resp = do
    fail_if (non_zero (numeric_field resp (codes "exit_code"))) exit_code_failed
    fail_if (non_zero (numeric_field resp (codes "code"))) code_failed
    fail_if (not (is_empty (error_text (lookup (codes "error") resp)))) agent_failed
    ok tt

  replied : Result Call.Error (List (Text × V)) → Result Error (Unit {0})
  unfolding check_reply
  replied (err e) = err (call_failed e)
  replied (ok resp) = check_reply resp

  -- `runShell`; `called` is `workload.Call` on the socket with the secret.
  unfoldable pub run_shell :
      (ShellCommand → Result Call.Error (List (Text × V))) → ℕ → Text → Result Error (Unit {0})
  unfolding replied agent_timeout
  run_shell called timeout cmd = replied (
      called
        (record { argv = codes "sh" ∷ codes "-c" ∷ cmd ∷ []; timeout = agent_timeout timeout }))

  next_command : ℕ → Result Error (Unit {0}) → Option (ℕ × Error) → Option (ℕ × Error)
  next_command i (err e) rest = some (i, e)
  next_command i (ok _) rest = rest

  -- The loop over the commands: the first that fails, if one does.
  unfoldable pub run_all :
      (ℕ → ShellCommand → Result Call.Error (List (Text × V)))
      → ℕ
      → ℕ
      → List Text
      → Option (ℕ × Error)
  unfolding run_shell next_command
  run_all called timeout i [] = none
  run_all called timeout i (cmd ∷ l) =
      next_command i (run_shell (called i) timeout cmd) (run_all called timeout (suc i) l)

-- The last component that is not empty.
last_component : List Text → Text
last_component [] = []
last_component (p ∷ l) = let rest = last_component l in if is_empty rest then p else rest

-- `filepath.Base`
unfoldable pub base_name : Text → Text
unfolding last_component
base_name [] = codes "."
base_name (c ∷ p) =
    let last = last_component (split 47 (c ∷ p)) in if is_empty last then codes "/" else last

-- The rest of a text behind a prefix, if that is there.
unfoldable pub behind : Text → Text → Text
behind [] t = t
behind (c ∷ p) [] = []
behind (c ∷ p) (e ∷ t) = let rest = behind p t in if c == e then rest else []

unfoldable pub extract_kernel_version : Text → Text
unfolding base_name behind
extract_kernel_version path = behind (codes "vmlinux-") (base_name path)

-- The reply of the guest agent (images/agent.py) to a command that ran, with its return code.
abbrev pub exec_reply : {V : Type 0} → V → V → V → V → List (Text × V)
exec_reply fine rc out errors =
    (codes "ok", fine) ∷ (codes "rc", rc) ∷ (codes "stdout", out) ∷ (codes "stderr", errors) ∷ []

module _ {V : Type 0} (number : V → Option ℕ) (as_text : V → Option Text) where
  check_reply-exec_reply :
      (fine rc out errors : V) → check_reply number as_text (exec_reply fine rc out errors) ≡ ok tt
  unfolding check_reply numeric_field lookup text_eq
  check_reply-exec_reply fine rc out errors = refl

  -- Commands of Setup and Warmup never fail a build by their exit status: if every call is answered as
  -- the agent answers a command that ran, the loop over the commands finds no failure, whatever the
  -- return codes were.
  pub run_all-exec_reply :
      (fine rc out errors : ℕ → ShellCommand → V) (timeout i : ℕ) (cmds : List Text)
      → run_all number as_text
          (λ j c. ok (exec_reply (fine j c) (rc j c) (out j c) (errors j c)))
          timeout
          i
          cmds
        ≡ none
  unfolding run_all run_shell next_command
  run_all-exec_reply fine rc out errors timeout i [] = refl
  run_all-exec_reply fine rc out errors timeout i (cmd ∷ l) =
      let c : ShellCommand = record {
        argv = codes "sh" ∷ codes "-c" ∷ cmd ∷ [];
        timeout = agent_timeout timeout;
      } in
      rw (check_reply-exec_reply (fine i c) (rc i c) (out i c) (errors i c))
        (run_all-exec_reply fine rc out errors timeout (suc i) l)
