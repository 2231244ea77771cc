-- ===== src/Fc/Machine.antt =====
-- internal/fc/config.go and machine.go, and `Snapshot` of snapshot.go: the configuration of a machine,
-- the two constructors, and the calls that reach the SDK's machine. `accepts` says which configurations
-- `NewMachine` of the SDK takes. Where the output of a process goes is not modelled.
pub mod Portable
mod Tests
use firefork_ai.Prelude.{
  ℕ, ◌+◌, ◌≡◌, refl, ap, sym, Bool, true, false, not, ◌||◌, ◌&&◌, List, [], ◌∷◌, ◌++◌, Option, none,
  some, if◌then◌else◌, ltb, Result, ok, err, ◌>>=◌, ◌>>◌, fail_if, Bool-cases, Result-cases, inl,
  inr, arith,
}
use firefork_ai.Prelude.Word.{not_positive}
use firefork_ai.Prelude.Text.{Text, codes, is_empty}
use firefork_ai.Fc.Host.{SnapshotPaths}
use firefork_ai.Fc.Jailer
use firefork_ai.Fc.Jailer.{
  JailerConfig, chroot_root, host_api_socket_path, default_chroot_layout, command,
}

pub record Config : Type 0 where
  pub socket_path : Text
  pub kernel_path : Text
  pub rootfs_path : Text
  pub vcpu_count : ℕ
  pub mem_size_mib : ℕ
  pub boot_args : Text
  pub vsock_guest_cid : ℕ
  pub vsock_uds : Text
  pub firecracker_bin : Text

unfoldable pub default_config : Config
default_config = record {
  socket_path = [];
  kernel_path = [];
  rootfs_path = [];
  vcpu_count = 1;
  mem_size_mib = 256;
  boot_args = codes "console=ttyS0 reboot=k panic=1 pci=off random.trust_cpu=on";
  vsock_guest_cid = 0;
  vsock_uds = [];
  firecracker_bin = codes "/usr/local/bin/firecracker";
}

pub data Error : Type 0 where
  socket_required kernel_required rootfs_required vcpus_not_positive mem_not_positive vsock_required
        refused_by_sdk paths_required pause_failed create_failed stop_failed :
      Error
  jailer_invalid : Jailer.Error → Error

pub record Drive : Type 0 where
  pub drive_id : Text
  pub path_on_host : Text
  pub is_root_device : Bool
  pub is_read_only : Bool

pub record VsockDevice : Type 0 where
  pub device_id : Text
  pub cid : ℕ
  pub uds : Text

-- The SDK's `Config`, as far as it is set.
pub record SdkConfig : Type 0 where
  pub api_socket : Text
  pub kernel_image : Text
  pub kernel_args : Text
  pub drives : List Drive
  pub vcpus : ℕ
  pub mem_mib : ℕ
  pub vsock_devices : List VsockDevice
  pub disable_validation : Bool

-- The command that runs the process: Firecracker on a socket, or the jailer with its arguments.
pub data Runner : Type 0 where
  direct : (bin socket : Text) → Runner
  jailed : (bin : Text) → (args : List Text) → Runner

-- `sdk` is the SDK's machine: its configuration and its command.
pub record Machine : Type 0 where
  pub cfg : Config
  pub sdk : Option (SdkConfig × Runner)

-- `Config.validate`; the guest CID is a `uint32`.
unfoldable pub validate : Config → Result Error (Unit {0})
validate c = do
  fail_if (is_empty c.socket_path) socket_required
  fail_if (is_empty c.kernel_path) kernel_required
  fail_if (is_empty c.rootfs_path) rootfs_required
  fail_if (not_positive c.vcpu_count) vcpus_not_positive
  fail_if (not_positive c.mem_size_mib) mem_not_positive
  fail_if (ltb 0 c.vsock_guest_cid && is_empty c.vsock_uds) vsock_required
  ok tt

root_drive : Text → Drive
root_drive p = record {
  drive_id = codes "rootfs";
  path_on_host = p;
  is_root_device = true;
  is_read_only = false;
}

agent_vsock : Config → Text → List VsockDevice
agent_vsock c p =
    if ltb 0 c.vsock_guest_cid
    then record { device_id = codes "agent-vsock"; cid = c.vsock_guest_cid; uds = p } ∷ []
    else []

sdk_config : Config → SdkConfig
unfolding root_drive agent_vsock
sdk_config c = record {
  api_socket = c.socket_path;
  kernel_image = c.kernel_path;
  kernel_args = c.boot_args;
  drives = root_drive c.rootfs_path ∷ [];
  vcpus = c.vcpu_count;
  mem_mib = c.mem_size_mib;
  vsock_devices = agent_vsock c c.vsock_uds;
  disable_validation = false;
}

-- All paths but the API socket are seen from inside the chroot.
jailed_sdk_config : Config → JailerConfig → SdkConfig
unfolding root_drive agent_vsock
jailed_sdk_config c j = record {
  api_socket = host_api_socket_path j;
  kernel_image = default_chroot_layout.kernel;
  kernel_args = c.boot_args;
  drives = root_drive default_chroot_layout.rootfs ∷ [];
  vcpus = c.vcpu_count;
  mem_mib = c.mem_size_mib;
  vsock_devices = agent_vsock c default_chroot_layout.vsock_uds;
  disable_validation = true;
}

-- `NewJailed` fills in a missing vsock path.
with_vsock : Config → JailerConfig → Config
with_vsock c j =
    if ltb 0 c.vsock_guest_cid && is_empty c.vsock_uds
    then record c { vsock_uds = chroot_root j ++ codes "/vsock.sock" }
    else c

jailed_machine : Config → JailerConfig → Text × List Text → Machine
unfolding jailed_sdk_config with_vsock
jailed_machine c j (bin, args) = record {
  cfg = record (with_vsock c j) { socket_path = host_api_socket_path j };
  sdk = some (jailed_sdk_config c j, jailed bin args);
}

lift_jailer : {A : Type 0} → Result Jailer.Error A → Result Error A
lift_jailer (ok a) = ok a
lift_jailer (err e) = err (jailer_invalid e)

module _ (accepts : SdkConfig → Bool) where
  -- `New`
  unfoldable pub new : Config → Result Error Machine
  unfolding sdk_config
  new c = do
    validate c
    fail_if (not (accepts (sdk_config c))) refused_by_sdk
    ok (record { cfg = c; sdk = some (sdk_config c, direct c.firecracker_bin c.socket_path) })

  module _ (itoa : ℕ → Text) where
    -- `NewJailed`
    unfoldable pub new_jailed : Config → JailerConfig → Result Error Machine
    unfolding jailed_machine lift_jailer
    new_jailed c j = do
      lift_jailer (Jailer.validate j)
      fail_if (not_positive c.vcpu_count) vcpus_not_positive
      fail_if (not_positive c.mem_size_mib) mem_not_positive
      cmd ← lift_jailer (command itoa j)
      fail_if (not (accepts (jailed_sdk_config c j))) refused_by_sdk
      ok (jailed_machine c j cmd)

-- `StopVMM`: whether there was a process to stop, and the result if `stops` says whether that works.
unfoldable pub stop_vmm : Option Machine → Bool → Bool × Result Error (Unit {0})
stop_vmm none stops = (false, ok tt)
stop_vmm (some m) stops = elim m.sdk [
  | none ↦ (false, ok tt)
  | some s ↦ (stops, if stops then ok tt else err stop_failed)
]

-- `Snapshot`, with whether the guest was paused; the two answers are those of the SDK.
unfoldable pub snapshot : SnapshotPaths → (pauses creates : Bool) → Bool × Result Error (Unit {0})
snapshot p pauses creates =
    if is_empty p.mem_file_path || is_empty p.state_path
    then (false, err paths_required)
    else if pauses
    then (true, if creates then ok tt else err create_failed)
    else (false, err pause_failed)
