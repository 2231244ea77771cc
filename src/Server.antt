-- ===== src/Server.antt =====
-- cmd/firefork-server/main.go: the server's state, what it answers, and the helpers of its handlers.
-- What an agent replies to a command is of any type `R`.
pub mod Forking
pub mod Commands
pub mod Views
pub mod Routes
pub mod Startup
pub mod Context
pub mod Granting
pub mod Answers
pub mod Access
mod Tests
use firefork_ai.Prelude.{
  ℕ, ◌+◌, ◌/◌, Bool, List, [], ◌∷◌, ◌++◌, Option, none, some, if◌then◌else◌, Result, ok, err,
}
use firefork_ai.Prelude.Word.{not_positive}
use firefork_ai.Prelude.Text.{Text, codes, is_empty}
use firefork_ai.Fc.Jailer.{JailerConfig}
use firefork_ai.Template.Key
use firefork_ai.Template.Def.{milliseconds}
use firefork_ai.Template.Registry.{Registry}
use firefork_ai.Workload.Call
use firefork_ai.Fork.Pool
use firefork_ai.Fork.Pool.{Fork, State}
use firefork_ai.Fork.Pool.Teardown.{ReleaseError}

-- The fields that change or decide something; `state` holds the pool with its warm pool, and the world.
pub record Server : Type 0 where
  pub state : State
  pub registry : Registry
  pub jailer_cfg : Option JailerConfig
  pub auth_token : Text
  pub secrets : List (Text × Text)
  pub total_forks : ℕ
  pub total_execs : ℕ
  pub total_errs : ℕ

-- The messages of `writeErr`.
pub data Message : Type 0 where
  unauthorized decode_body count_not_positive count_too_large no_local_snapshot memfile_missing
        fork_id_required command_required id_required :
      Message
  template_invalid : Key.Error → Message
  template_unknown : Text → Message
  fork_refused : Pool.Error → Message
  fork_not_live : Text → Message
  vsock_call : Call.Error → Message

pub record ForkInfo : Type 0 where
  pub id : Text
  pub vsock_uds : Text
  pub work_dir : Text
  pub latency_ms : ℕ
  pub preload_ms : ℕ
  pub e2e_ms : ℕ
  pub template_key : Text
  pub failure : Option Pool.Error

pub record TplInfo : Type 0 where
  pub name : Text
  pub version : Text
  pub key : Text
  pub vcpus : ℕ
  pub mem_mib : ℕ
  pub created_at : ℕ
  pub notes : Text
  pub has_local : Bool

-- A rate is `none` for 0, or the quotient of two integers as a float.
pub record WarmStats : Type 0 where
  pub takes : ℕ
  pub drains : ℕ
  pub hit_rate_pct : Option (ℕ × ℕ)
  pub refill_errs : ℕ

pub record Metrics : Type 0 where
  pub live_forks : ℕ
  pub total_forks : ℕ
  pub total_execs : ℕ
  pub total_errs : ℕ
  pub warm_pool : Option WarmStats

-- The bodies of the answers.
pub data Body (R : Type 0) : Type 0 where
  problem : Message → Body R
  forked : List ForkInfo → Body R
  executed : (fork_id : Text) → (latency_ms : ℕ) → (result : R) → Body R
  half_released : (id : Text) → (warning : ReleaseError) → Body R
  released : (id : Text) → Body R
  fork_list : (count : ℕ) → List ForkInfo → Body R
  template_list : (count : ℕ) → List TplInfo → Body R
  measured : Metrics → Body R
  healthy : (live_forks : ℕ) → Body R

pub record Response (R : Type 0) : Type 0 where
  pub status : ℕ
  pub body : Body R

-- `writeErr`
abbrev pub refuse : {R : Type 0} → ℕ → Message → Response R
refuse status m = record { status = status; body = problem m }

-- `Duration.Milliseconds`, for a duration that is not negative
unfoldable pub in_milliseconds : ℕ → ℕ
in_milliseconds d = d / 1000000

-- `filepath.Join(dir, "vsock.sock")`, for a clean directory
unfoldable pub vsock_in : Text → Text
vsock_in dir = if is_empty dir then codes "vsock.sock" else dir ++ codes "/vsock.sock"

unfoldable pub fork_info : Text → Fork → ForkInfo
unfolding in_milliseconds vsock_in
fork_info key r = record {
  id = r.id;
  vsock_uds = vsock_in r.work_dir;
  work_dir = r.work_dir;
  latency_ms = in_milliseconds r.latency;
  preload_ms = in_milliseconds r.preload_cost;
  e2e_ms = in_milliseconds (r.latency + r.preload_cost);
  template_key = key;
  failure = r.failure;
}

-- The deadline of a request: the milliseconds it asks for, or a default.
unfoldable pub request_timeout : ℕ → ℕ → ℕ
request_timeout ms default =
    let timeout = milliseconds ms in if not_positive timeout then default else timeout
