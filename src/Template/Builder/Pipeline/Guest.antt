-- ===== src/Template/Builder/Pipeline/Guest.antt =====
-- What `Build` of internal/template/builder.go leaves once the machine runs: processes and directories.
use firefork_ai.Prelude.{
  ℕ, ◌≡◌, ◌≢◌, refl, ap, sym, ◌∙◌, Bool, true, false, ◌∷◌, Option, none, some, if◌then◌else◌,
  Result, ok, err, arith,
}
use firefork_ai.Prelude.Text.{Text, text_eq_iff}
use firefork_ai.Fc.Host.{
  Host, count, remove_one, kill, remove_dir, count-remove_every, remove_one-absent,
  remove_one-first,
}
use firefork_ai.Fc.Jailer.{JailerConfig, chroot_root}
use firefork_ai.Fc.Machine
use firefork_ai.Fc.Machine.{Machine, new, new_jailed}
use firefork_ai.Template.Def.{Def}
use firefork_ai.Template.Builder.{
  Builder, BuildResult, Error, def_invalid, mkdir_failed, copy_failed, chroot_failed, start_failed,
  chroot_refused, new_failed, agent_silent, save_failed, Meets, Booted, build_dir, build_jailer,
  clean_chroot, clean_up,
}
use firefork_ai.Template.Builder.Pipeline.{
  snapped, warmed, set_up, run_guest, saved, snapshot_taken, guest_done, agent_up, booted,
}
use firefork_ai.Template.Builder.Shell
use firefork_ai.Snapshot.Manifest.{Manifest}
use firefork_ai.Snapshot.Store
use firefork_ai.Workload.Agent.{WaitError}

-- Whether the build directory stays, by how the build ends: it does after a failure between its making
-- and the start of the machine.
abbrev pub stays : Bool → Error → ℕ
stays keep (def_invalid e) = 0
stays keep mkdir_failed = 0
stays keep copy_failed = 1
stays keep chroot_failed = 1
stays keep start_failed = 1
stays keep (chroot_refused e) = 1
stays keep (new_failed e) = 1
stays keep _ = if keep then 1 else 0

abbrev pub left_dirs : {A : Type 0} → Bool → Result Error A → ℕ
left_dirs keep (err e) = stays keep e
left_dirs keep (ok a) = 1

-- A build that finds its id and its directory unused, and whose machine can be stopped.
pub record IsReady {V : Type 0} (m : Meets V) (b : Builder) (d : Def) (h : Host) : Type 0 where
  pub new_id : count m.id h.running ≡ 0
  pub new_dir : count (build_dir m b d) h.dirs ≡ 0
  pub apart :
      (j : JailerConfig) → b.jailer ≡ some j → chroot_root (build_jailer m b d j) ≢ build_dir m b d
  pub leaves_none : m.left ≡ false
  pub stops : m.stops ≡ true
  pub cleans : m.cleans ≡ true

module _ {V : Type 0} (m : Meets V) (b : Builder) (d : Def) (h : Host) where
  -- The host while the machine runs.
  pub record IsUp (w : Booted) (k : Host) : Type 0 where
    pub runs : k.running ≡ m.id ∷ h.running
    pub has_dir : count (build_dir m b d) k.dirs ≡ 1
    pub at : w.dir ≡ build_dir m b d
    pub chroot_apart : (j : JailerConfig) → w.chroot ≡ some j → chroot_root j ≢ build_dir m b d

  -- The host before it runs.
  pub record IsMade (k : Host) : Type 0 where
    pub still : k.running ≡ h.running
    pub has_dir : count (build_dir m b d) k.dirs ≡ 1

  pub record IsLeft {A : Type 0} (k : Host) (r : Result Error A) : Type 0 where
    pub quiet : k.running ≡ h.running
    pub dirs_left : count (build_dir m b d) k.dirs ≡ left_dirs b.keep_work_dir r

module _ {V : Type 0} (m : Meets V) (b : Builder) (d : Def) (h : Host)
    (ready : IsReady m b d h) where
  pub clean_chroot-count :
      (o : Option JailerConfig) (k : Host)
      → ((j : JailerConfig) → o ≡ some j → chroot_root j ≢ build_dir m b d)
      → (count (build_dir m b d) (clean_chroot m b d o k).dirs ≡ count (build_dir m b d) k.dirs)
        × ((clean_chroot m b d o k).running ≡ k.running)
  unfolding clean_chroot remove_dir
  clean_chroot-count none k n = (refl, refl)
  clean_chroot-count (some j) k n = (
    ground (
      arith,
      count-remove_every (build_dir m b d) (chroot_root j) k.dirs,
      text_eq_iff (build_dir m b d) (chroot_root j),
      n j refl,
    ),
    refl,
  )

  killed_lem :
      (t : Bool) (k : Host)
      → t ≡ true
      → ((if t then kill m.id k else k).running ≡ remove_one m.id k.running)
        × ((if t then kill m.id k else k).dirs ≡ k.dirs)
  unfolding kill
  killed_lem true k e = (refl, refl)
  killed_lem false k e = absurd (ground arith)

  dir_lem :
      (keep : Bool) (x : Text) (g : Host)
      → x ≡ build_dir m b d
      → count (build_dir m b d) g.dirs ≡ 1
      → ((if keep then g else remove_dir x g).running ≡ g.running)
        × (count (build_dir m b d) (if keep then g else remove_dir x g).dirs
            ≡ (if keep then 1 else 0))
  unfolding remove_dir
  dir_lem true x g e c = (refl, c)
  dir_lem false x g e c = (
    refl,
    ground (arith, count-remove_every (build_dir m b d) x g.dirs, text_eq_iff (build_dir m b d) x),
  )

  -- `cleanup` of a machine that runs, or has been stopped.
  clean_up-IsLeft :
      {A : Type 0} (w : Booted) (k : Host) (e : Error)
      → remove_one m.id k.running ≡ h.running
      → count (build_dir m b d) k.dirs ≡ 1
      → w.dir ≡ build_dir m b d
      → ((j : JailerConfig) → w.chroot ≡ some j → chroot_root j ≢ build_dir m b d)
      → stays b.keep_work_dir e ≡ (if b.keep_work_dir then 1 else 0)
      → IsLeft m b d h {A = A} (clean_up m b d w k) (err e)
  unfolding clean_up
  clean_up-IsLeft w k e r c a n s =
      let k' = if m.cleans then kill m.id k else k in
      let (p, q) = killed_lem m.cleans k ready.cleans in
      let (u, v) = clean_chroot-count w.chroot k' n in
      let (x, y) =
        dir_lem b.keep_work_dir w.dir (clean_chroot m b d w.chroot k') a
          (u ∙ ap (count (build_dir m b d)) q ∙ c) in
      record { quiet = x ∙ v ∙ p ∙ r; dirs_left = y ∙ sym s }

  snapped-stays :
      (r : Result Machine.Error (Unit {0})) (e : Error)
      → snapped m b d r ≡ err e
      → stays b.keep_work_dir e ≡ (if b.keep_work_dir then 1 else 0)
  unfolding snapped
  snapped-stays (err x) e h = ground arith
  snapped-stays (ok _) e h = absurd (ground arith)

  module _ (w : Booted) where
    warmed-stays :
        (o : Option (ℕ × Shell.Error)) (e : Error)
        → warmed m b d w o ≡ err e
        → stays b.keep_work_dir e ≡ (if b.keep_work_dir then 1 else 0)
    unfolding warmed
    warmed-stays (some (i, x)) e h = ground arith
    warmed-stays none e h = snapped-stays _ e h

    set_up-stays :
        (secret : Text) (o : Option (ℕ × Shell.Error)) (e : Error)
        → set_up m b d w secret o ≡ err e
        → stays b.keep_work_dir e ≡ (if b.keep_work_dir then 1 else 0)
    unfolding set_up
    set_up-stays secret (some (i, x)) e h = ground arith
    set_up-stays secret none e h = warmed-stays _ e h

    run_guest-stays :
        (secret : Text) (e : Error)
        → run_guest m b d w secret ≡ err e
        → stays b.keep_work_dir e ≡ (if b.keep_work_dir then 1 else 0)
    unfolding run_guest
    run_guest-stays secret e h = set_up-stays secret _ e h

  module _ (w : Booted) (k : Host) (up : IsUp m b d h w k) where
    stopped : remove_one m.id k.running ≡ h.running
    stopped = ap (remove_one m.id) up.runs ∙ remove_one-first m.id h.running

    fails_up :
        {A : Type 0} (e : Error)
        → stays b.keep_work_dir e ≡ (if b.keep_work_dir then 1 else 0)
        → IsLeft m b d h {A = A} (clean_up m b d w k) (err e)
    fails_up e s = clean_up-IsLeft w k e stopped up.has_dir up.at up.chroot_apart s

    -- The machine has been stopped: another kill finds nothing.
    module _ (k' : Host) (r : k'.running ≡ h.running) (q : k'.dirs ≡ k.dirs) (secret : Text) where
      saved-IsLeft :
          (o : Result Store.Error Manifest)
          → IsLeft m b d h (saved m b d w secret k' o).0 (saved m b d w secret k' o).1
      unfolding saved
      saved-IsLeft (err e) =
          clean_up-IsLeft w k' (save_failed e)
            (remove_one-absent m.id k'.running (ap (count m.id) r ∙ ready.new_id) ∙ r)
            (ap (count (build_dir m b d)) q ∙ up.has_dir) up.at up.chroot_apart refl
      saved-IsLeft (ok man) = record {
        quiet = r;
        dirs_left = ap (count (build_dir m b d)) q ∙ up.has_dir;
      }

      uploaded-IsLeft :
          (t : Bool) (o : Result Store.Error Manifest) (out : BuildResult)
          → let r : Host × Result Error BuildResult =
              if t then saved m b d w secret k' o else (k', ok out) in
            IsLeft m b d h r.0 r.1
      uploaded-IsLeft true o out = saved-IsLeft o
      uploaded-IsLeft false o out = record {
        quiet = r;
        dirs_left = ap (count (build_dir m b d)) q ∙ up.has_dir;
      }

    snapshot_taken-IsLeft :
        (secret : Text)
        → IsLeft m b d h (snapshot_taken m b d w secret k).0 (snapshot_taken m b d w secret k).1
    unfolding snapshot_taken
    snapshot_taken-IsLeft secret =
        let (p, q) = killed_lem m.stops k ready.stops in
        uploaded-IsLeft _ (p ∙ stopped) q secret b.has_store _ _

    -- A failure in the guest is none of those before the start.
    guest_done-IsLeft :
        (secret : Text) (r : Result Error (Unit {0}))
        → ((e : Error) → r ≡ err e → stays b.keep_work_dir e ≡ (if b.keep_work_dir then 1 else 0))
        → IsLeft m b d h (guest_done m b d w secret k r).0 (guest_done m b d w secret k r).1
    unfolding guest_done
    guest_done-IsLeft secret (err e) n = fails_up e (n e refl)
    guest_done-IsLeft secret (ok _) n = snapshot_taken-IsLeft secret

    agent_up-IsLeft :
        (r : Result WaitError Text)
        → IsLeft m b d h (agent_up m b d w k r).0 (agent_up m b d w k r).1
    unfolding agent_up
    agent_up-IsLeft (err e) = fails_up (agent_silent e) refl
    agent_up-IsLeft (ok secret) = guest_done-IsLeft secret _ (run_guest-stays w secret)

  -- How the boot ends.
  unfoldable pub IsBooted : Host × Result Error Booted → Type 0
  IsBooted (k, ok w) = IsUp m b d h w k
  IsBooted (k, err e) = IsLeft m b d h {A = Booted} k (err e)

  pub booted-IsLeft :
      (t : Host × Result Error Booted)
      → IsBooted t
      → IsLeft m b d h (booted m b d t).0 (booted m b d t).1
  unfolding booted IsBooted
  booted-IsLeft (k, err e) v = record { quiet = v.quiet; dirs_left = v.dirs_left }
  booted-IsLeft (k, ok w) v = agent_up-IsLeft w k v (m.agent w.vsock_host_path)
