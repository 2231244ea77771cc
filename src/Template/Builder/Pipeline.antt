-- ===== src/Template/Builder/Pipeline.antt =====
-- `Build` of internal/template/builder.go from the start of the machine to the end: the agent, Setup and
-- Warmup, the snapshot, the upload, and the clean-up where one of them fails.
pub mod Guest
pub mod Cleanup
use firefork_ai.Prelude.{
  ℕ, suc, ◌+◌, Bool, true, false, not, List, [], ◌∷◌, ◌++◌, Option, none, some, if◌then◌else◌, ◌==◌,
  Result, ok, err, map, length,
}
use firefork_ai.Prelude.Text.{Text, codes, is_empty}
use firefork_ai.Fc.Host.{SnapshotPaths, Host, start, kill, make_dir, remove_dir}
use firefork_ai.Fc.Jailer
use firefork_ai.Fc.Jailer.{JailerConfig, chroot_root, default_chroot_layout}
use firefork_ai.Fc.Machine
use firefork_ai.Fc.Machine.{Config, default_config, SdkConfig, Machine, new, new_jailed, snapshot}
use firefork_ai.Template.Def
use firefork_ai.Template.Def.{Def, setup_timeout, warmup_timeout, should_compress_memfile}
use firefork_ai.Template.Builder.Shell
use firefork_ai.Template.Builder.Shell.{ShellCommand, run_all, extract_kernel_version}
use firefork_ai.Snapshot.Manifest.{Manifest}
use firefork_ai.Snapshot.Store
use firefork_ai.Snapshot.Store.{Shape, LocalPaths, SaveOptions}
use firefork_ai.Workload.Call
use firefork_ai.Workload.Agent.{WaitError}
use firefork_ai.Template.Builder.{
  Builder, BuildResult, Error, def_invalid, mkdir_failed, copy_failed, agent_silent, setup_failed,
  warmup_failed, snapshot_failed, save_failed, Meets, Booted, build_dir, clean_up, boot,
}

module _ {V : Type 0} (m : Meets V) (b : Builder) (d : Def) where
  inside : Booted → SnapshotPaths
  inside w = elim w.chroot [
    | none ↦ record { mem_file_path = (w.snap).mem_file; state_path = (w.snap).state }
    | some j ↦ record {
      mem_file_path = default_chroot_layout.mem_file;
      state_path = default_chroot_layout.state_file;
    }
  ]

  -- Setup, warmup and the snapshot, up to the teardown of the machine.
  snapped : Result Machine.Error (Unit {0}) → Result Error (Unit {0})
  snapped (err e) = err (snapshot_failed e)
  snapped (ok _) = ok tt

  warmed : Booted → Option (ℕ × Shell.Error) → Result Error (Unit {0})
  unfolding snapped inside
  warmed w (some (i, e)) = err (warmup_failed i e)
  warmed w none = snapped (snapshot (inside w) m.pauses m.creates).1

  set_up : Booted → Text → Option (ℕ × Shell.Error) → Result Error (Unit {0})
  unfolding warmed
  set_up w secret (some (i, e)) = err (setup_failed i e)
  set_up w secret none = warmed w (
      run_all m.number m.as_text (λ i. m.called (length d.setup + i) w.vsock_host_path secret)
        (warmup_timeout d) 0 d.warmup)

  run_guest : Booted → Text → Result Error (Unit {0})
  unfolding set_up
  run_guest w secret = set_up w secret (
      run_all m.number m.as_text (λ i. m.called i w.vsock_host_path secret) (setup_timeout d) 0
        d.setup)

  result : Booted → Text → Option Manifest → BuildResult
  result w secret man = record {
    local = w.snap;
    manifest = man;
    work_dir = elim w.chroot [ none ↦ w.dir | some j ↦ chroot_root j ];
    agent_secret = secret;
  }

  saved : Booted → Text → Host → Result Store.Error Manifest → Host × Result Error BuildResult
  unfolding clean_up result
  saved w secret h (err e) = (clean_up m b d w h, err (save_failed e))
  saved w secret h (ok man) = (h, ok (result w secret (some man)))

  -- From the teardown of the machine on; that it fails is only logged.
  snapshot_taken : Booted → Text → Host → Host × Result Error BuildResult
  unfolding saved result
  snapshot_taken w secret h =
      let h' = if m.stops then kill m.id h else h in
      if b.has_store
      then saved w secret h' (
          m.saves
            (record {
              name = d.name;
              version = d.version;
              vcpus = d.vcpus;
              mem_mib = d.mem_mib;
              created_at = m.created_at;
            })
            (record {
              notes = d.notes;
              kernel_version = extract_kernel_version d.kernel;
              compress_memfile = some (should_compress_memfile d);
              compression_level = 0;
            })
            w.snap)
      else (h', ok (result w secret none))

  guest_done : Booted → Text → Host → Result Error (Unit {0}) → Host × Result Error BuildResult
  unfolding clean_up snapshot_taken
  guest_done w secret h (err e) = (clean_up m b d w h, err e)
  guest_done w secret h (ok _) = snapshot_taken w secret h

  agent_up : Booted → Host → Result WaitError Text → Host × Result Error BuildResult
  unfolding clean_up guest_done run_guest
  agent_up w h (err e) = (clean_up m b d w h, err (agent_silent e))
  agent_up w h (ok secret) = guest_done w secret h (run_guest w secret)

  pub booted : Host × Result Error Booted → Host × Result Error BuildResult
  unfolding agent_up
  booted (h, err e) = (h, err e)
  booted (h, ok w) = agent_up w h (m.agent w.vsock_host_path)

  def_checked : Host → Result Def.Error (Unit {0}) → Host × Result Error BuildResult
  unfolding booted boot build_dir
  def_checked h (err e) = (h, err (def_invalid e))
  def_checked h (ok _) =
      let h' = make_dir (build_dir m b d) h in
      if m.makes_dir
      then if m.copies then booted (boot m b d b.jailer h') else (h', err copy_failed)
      else (h, err mkdir_failed)

  -- `Build` of a definition that is not nil.
  unfoldable pub build : Host → Host × Result Error BuildResult
  unfolding def_checked
  build h = def_checked h (Def.validate d)
