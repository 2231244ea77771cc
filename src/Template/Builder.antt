-- ===== src/Template/Builder.antt =====
-- internal/template/builder.go: a build, from a definition to a snapshot. What a build meets outside is
-- its `Meets`; timings, settling and the serial console are not modelled. JSON values of the agent's
-- replies are of any type `V`.
pub mod Shell
pub mod Pipeline
mod Tests
use firefork_ai.Prelude.{
  ℕ, suc, ◌+◌, Bool, true, false, not, List, [], ◌∷◌, ◌++◌, Option, none, some, if◌then◌else◌, ◌==◌,
  Result, ok, err, map, length,
}
use firefork_ai.Prelude.Text.{Text, codes, is_empty}
use firefork_ai.Fc.Host.{SnapshotPaths, Host, start, kill, make_dir, remove_dir}
use firefork_ai.Fc.Jailer
use firefork_ai.Fc.Jailer.{JailerConfig, chroot_root, default_chroot_layout}
use firefork_ai.Fc.Machine
use firefork_ai.Fc.Machine.{Config, default_config, SdkConfig, Machine, new, new_jailed, snapshot}
use firefork_ai.Template.Def
use firefork_ai.Template.Def.{Def, setup_timeout, warmup_timeout, should_compress_memfile}
use firefork_ai.Template.Builder.Shell
use firefork_ai.Template.Builder.Shell.{ShellCommand, run_all, extract_kernel_version}
use firefork_ai.Snapshot.Manifest.{Manifest}
use firefork_ai.Snapshot.Store
use firefork_ai.Snapshot.Store.{Shape, LocalPaths, SaveOptions}
use firefork_ai.Workload.Call
use firefork_ai.Workload.Agent.{WaitError}

pub record Builder : Type 0 where
  pub firecracker_bin : Text
  pub work_root : Text
  pub has_store : Bool
  pub jailer : Option JailerConfig
  pub keep_work_dir : Bool

pub record BuildResult : Type 0 where
  pub local : LocalPaths
  pub manifest : Option Manifest
  pub work_dir : Text
  pub agent_secret : Text

pub data Error : Type 0 where
  def_invalid : Def.Error → Error
  mkdir_failed copy_failed chroot_failed start_failed : Error
  chroot_refused : Jailer.Error → Error
  new_failed : Machine.Error → Error
  agent_silent : WaitError → Error
  setup_failed : (i : ℕ) → Shell.Error → Error
  warmup_failed : (i : ℕ) → Shell.Error → Error
  snapshot_failed : Machine.Error → Error
  save_failed : Store.Error → Error

-- What a build meets: `os.TempDir()`, the build's id, the outcomes of the calls in their order, and
-- whether `StopVMM` works after the snapshot and in `cleanup`. `called` is `workload.Call` for the
-- `i`-th command on a socket with a secret. `left` says whether the SDK leaves the process when `Start`
-- fails.
pub record Meets (V : Type 0) : Type 0 where
  pub temp_dir : Text
  pub id : Text
  pub created_at : ℕ
  pub makes_dir : Bool
  pub copies : Bool
  pub prepares : Bool
  pub accepts : SdkConfig → Bool
  pub itoa : ℕ → Text
  pub starts : Bool
  pub left : Bool
  pub agent : Text → Result WaitError Text
  pub number : V → Option ℕ
  pub as_text : V → Option Text
  pub called : (i : ℕ) → (uds secret : Text) → ShellCommand → Result Call.Error (List (Text × V))
  pub pauses : Bool
  pub creates : Bool
  pub stops : Bool
  pub saves : Shape → SaveOptions → LocalPaths → Result Store.Error Manifest
  pub cleans : Bool

-- What the later phases know of the machine: its chroot, if it has one, and its paths on the host.
pub record Booted : Type 0 where
  pub chroot : Option JailerConfig
  pub dir : Text
  pub vsock_host_path : Text
  pub snap : LocalPaths

module _ {V : Type 0} (m : Meets V) (b : Builder) (d : Def) where
  unfoldable pub build_dir : Text
  build_dir =
      (if is_empty b.work_root then m.temp_dir else b.work_root)
      ++ codes "/firefork-build-"
      ++ d.name
      ++ codes "-"
      ++ m.id

  -- `strings.ReplaceAll(def.Name, ".", "-")`
  safe_name : Text
  safe_name = map (λ c. if c == 46 then 45 else c) d.name

  unfoldable pub build_jailer : JailerConfig → JailerConfig
  unfolding safe_name
  build_jailer j = record j { id = codes "build-" ++ safe_name ++ codes "-" ++ m.id }

  unfoldable pub build_config : Config
  unfolding build_dir
  build_config = record default_config {
    socket_path = build_dir ++ codes "/fc.sock";
    kernel_path = d.kernel;
    rootfs_path = build_dir ++ codes "/rootfs.ext4";
    vcpu_count = d.vcpus;
    mem_size_mib = d.mem_mib;
    boot_args = if is_empty d.boot_args then default_config.boot_args else d.boot_args;
    vsock_guest_cid = if d.vsock_guest_cid == 0 then 3 else d.vsock_guest_cid;
    vsock_uds = build_dir ++ codes "/vsock.sock";
    firecracker_bin = b.firecracker_bin;
  }

  unfoldable pub paths_in : Text → Option JailerConfig → Booted
  unfolding build_dir
  paths_in root chroot = record {
    chroot = chroot;
    dir = build_dir;
    vsock_host_path = root ++ codes "/vsock.sock";
    snap = record { mem_file = root ++ codes "/memfile.bin"; state = root ++ codes "/state.bin" };
  }

  unfoldable pub clean_chroot : Option JailerConfig → Host → Host
  clean_chroot none h = h
  clean_chroot (some j) h = remove_dir (chroot_root j) h

  -- `cleanup`
  unfoldable pub clean_up : Booted → Host → Host
  unfolding clean_chroot
  clean_up w h =
      let h' = clean_chroot w.chroot (if m.cleans then kill m.id h else h) in
      if b.keep_work_dir then h' else remove_dir w.dir h'

  -- `m.Start`
  start_machine : Booted → Host → Host × Result Error Booted
  unfolding clean_chroot
  start_machine w h =
      if m.starts
      then (start m.id h, ok w)
      else (clean_chroot w.chroot (if m.left then start m.id h else h), err start_failed)

  made_jailed : JailerConfig → Host → Result Machine.Error Machine → Host × Result Error Booted
  unfolding start_machine paths_in
  made_jailed j h (err e) = (remove_dir (chroot_root j) h, err (new_failed e))
  made_jailed j h (ok v) = start_machine (paths_in (chroot_root j) (some j)) h

  prepared : JailerConfig → Host → Result Jailer.Error (Unit {0}) → Host × Result Error Booted
  unfolding made_jailed build_config
  prepared j h (err e) = (h, err (chroot_refused e))
  prepared j h (ok _) =
      let h' = make_dir (chroot_root j) h in
      if m.prepares
      then made_jailed j h' (new_jailed m.accepts m.itoa build_config j)
      else (h', err chroot_failed)

  made : Host → Result Machine.Error Machine → Host × Result Error Booted
  unfolding start_machine paths_in build_dir
  made h (err e) = (h, err (new_failed e))
  made h (ok v) = start_machine (paths_in build_dir none) h

  -- `3. Boot.`
  unfoldable pub boot : Option JailerConfig → Host → Host × Result Error Booted
  unfolding prepared made build_config build_jailer
  boot none h = made h (new m.accepts build_config)
  boot (some j) h = prepared (build_jailer j) h (Jailer.validate (build_jailer j))
