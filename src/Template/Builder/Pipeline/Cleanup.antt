-- ===== src/Template/Builder/Pipeline/Cleanup.antt =====
-- What a build of internal/template/builder.go leaves behind: processes, and its directory.
use firefork_ai.Prelude.{
  ◌≡◌, ◌≢◌, refl, ap, subst, ◌∙◌, Bool, true, false, ◌∷◌, Option, none, some, if◌then◌else◌, Result,
  ok, err, arith,
}
use firefork_ai.Prelude.Text.{text_eq_iff}
use firefork_ai.Fc.Host.{Host, count, start, make_dir, count-remove_every}
use firefork_ai.Fc.Jailer
use firefork_ai.Fc.Jailer.{JailerConfig, chroot_root}
use firefork_ai.Fc.Machine
use firefork_ai.Fc.Machine.{Machine, new, new_jailed}
use firefork_ai.Template.Def
use firefork_ai.Template.Def.{Def}
use firefork_ai.Template.Builder.{
  Builder, BuildResult, Error, mkdir_failed, copy_failed, chroot_failed, start_failed, Meets,
  Booted, build_dir, build_jailer, paths_in, clean_chroot, start_machine, made_jailed, prepared,
  made, boot,
}
use firefork_ai.Template.Builder.Pipeline.{booted, def_checked, build}
use firefork_ai.Template.Builder.Pipeline.Guest.{
  left_dirs, IsReady, IsMade, IsLeft, IsBooted, clean_chroot-count, booted-IsLeft,
}

some_injective : {A : Type 0} {x y : A} → some x ≡ some y → x ≡ y
some_injective e = ground arith

module _ {V : Type 0} (m : Meets V) (b : Builder) (d : Def) (h : Host)
    (ready : IsReady m b d h) where
  module _ (w : Booted) (k : Host) (v : IsMade m b d h k) (a : w.dir ≡ build_dir m b d)
      (n : (j : JailerConfig) → w.chroot ≡ some j → chroot_root j ≢ build_dir m b d) where
    started-IsBooted :
        (t l : Bool)
        → l ≡ false
        → let r : Host × Result Error Booted =
            if t
            then (start m.id k, ok w)
            else (clean_chroot m b d w.chroot (if l then start m.id k else k), err start_failed) in
          IsBooted m b d h ready r
    unfolding IsBooted start
    started-IsBooted true l e = record {
      runs = ap (λ x. m.id ∷ x) v.still;
      has_dir = v.has_dir;
      at = a;
      chroot_apart = n;
    }
    started-IsBooted false true e = absurd (ground arith)
    started-IsBooted false false e =
        let (x, y) = clean_chroot-count m b d h ready w.chroot k n in
        record { quiet = y ∙ v.still; dirs_left = x ∙ v.has_dir }

    start_machine-IsBooted : IsBooted m b d h ready (start_machine m b d w k)
    unfolding start_machine
    start_machine-IsBooted = started-IsBooted m.starts m.left ready.leaves_none

  made-IsBooted :
      (k : Host) (r : Result Machine.Error Machine)
      → IsMade m b d h k
      → IsBooted m b d h ready (made m b d k r)
  unfolding made IsBooted paths_in
  made-IsBooted k (err e) v = record { quiet = v.still; dirs_left = v.has_dir }
  made-IsBooted k (ok x) v = start_machine-IsBooted _ k v refl (λ j e. absurd (ground arith))

  module _ (j : JailerConfig) (n : chroot_root j ≢ build_dir m b d) where
    made_jailed-IsBooted :
        (k : Host) (r : Result Machine.Error Machine)
        → IsMade m b d h k
        → IsBooted m b d h ready (made_jailed m b d j k r)
    unfolding made_jailed IsBooted paths_in clean_chroot
    made_jailed-IsBooted k (err e) v =
        let (x, y) =
          clean_chroot-count m b d h ready (some j) k
            (λ i e. subst (λ i. chroot_root i ≢ build_dir m b d) (some_injective e) n) in
        record { quiet = y ∙ v.still; dirs_left = x ∙ v.has_dir }
    made_jailed-IsBooted k (ok x) v =
        start_machine-IsBooted _ k v refl
          (λ i e. subst (λ i. chroot_root i ≢ build_dir m b d) (some_injective e) n)

    make_dir-IsMade : (k : Host) → IsMade m b d h k → IsMade m b d h (make_dir (chroot_root j) k)
    unfolding make_dir count
    make_dir-IsMade k v = record {
      still = v.still;
      has_dir = ground (
        arith,
        v.has_dir,
        n,
        count-remove_every (build_dir m b d) (chroot_root j) k.dirs,
        text_eq_iff (build_dir m b d) (chroot_root j),
      );
    }

    prepares_lem :
        (t : Bool) (k : Host) (r : Result Machine.Error Machine)
        → IsMade m b d h k
        → let q : Host × Result Error Booted =
            if t then made_jailed m b d j k r else (k, err chroot_failed) in
          IsBooted m b d h ready q
    unfolding IsBooted
    prepares_lem true k r v = made_jailed-IsBooted k r v
    prepares_lem false k r v = record { quiet = v.still; dirs_left = v.has_dir }

    prepared-IsBooted :
        (k : Host) (r : Result Jailer.Error (Unit {0}))
        → IsMade m b d h k
        → IsBooted m b d h ready (prepared m b d j k r)
    unfolding prepared IsBooted
    prepared-IsBooted k (err e) v = record { quiet = v.still; dirs_left = v.has_dir }
    prepared-IsBooted k (ok _) v = prepares_lem m.prepares _ _ (make_dir-IsMade k v)

  boot-IsBooted :
      (k : Host) (o : Option JailerConfig)
      → b.jailer ≡ o
      → IsMade m b d h k
      → IsBooted m b d h ready (boot m b d o k)
  unfolding boot
  boot-IsBooted k none e v = made-IsBooted k _ v
  boot-IsBooted k (some j) e v = prepared-IsBooted (build_jailer m b d j) (ready.apart j e) k _ v

  dir_made : count (build_dir m b d) (make_dir (build_dir m b d) h).dirs ≡ 1
  unfolding make_dir count
  dir_made = ground (
    arith,
    count-remove_every (build_dir m b d) (build_dir m b d) h.dirs,
    text_eq_iff (build_dir m b d) (build_dir m b d),
  )

  copied-IsLeft :
      (makes copies : Bool)
      → let k = make_dir (build_dir m b d) h in
        let r : Host × Result Error BuildResult =
          if makes
          then if copies then booted m b d (boot m b d b.jailer k) else (k, err copy_failed)
          else (h, err mkdir_failed) in
        IsLeft m b d h r.0 r.1
  unfolding make_dir count
  copied-IsLeft false copies = record { quiet = refl; dirs_left = ready.new_dir }
  copied-IsLeft true false = record { quiet = refl; dirs_left = dir_made }
  copied-IsLeft true true =
      booted-IsLeft m b d h ready _
        (boot-IsBooted _ b.jailer refl (record { still = refl; has_dir = dir_made }))

  def_checked-IsLeft :
      (r : Result Def.Error (Unit {0}))
      → IsLeft m b d h (def_checked m b d h r).0 (def_checked m b d h r).1
  unfolding def_checked
  def_checked-IsLeft (err e) = record { quiet = refl; dirs_left = ready.new_dir }
  def_checked-IsLeft (ok _) = copied-IsLeft m.makes_dir m.copies

module _ {V : Type 0} (m : Meets V) (b : Builder) (d : Def) (h : Host)
    (new_id : count m.id h.running ≡ 0) (new_dir : count (build_dir m b d) h.dirs ≡ 0)
    (apart : (j : JailerConfig)
      → b.jailer ≡ some j
      → chroot_root (build_jailer m b d j) ≢ build_dir m b d)
    (leaves_none : m.left ≡ false) (stops : m.stops ≡ true) (cleans : m.cleans ≡ true) where
  -- If the stops of the machine succeed and the SDK leaves no process when its `Start` fails, a build
  -- leaves no process that did not run before, whether it succeeds or at whichever step it fails. Its
  -- directory stays after a success; after a failure that comes before the start of the machine has
  -- succeeded, if it had been made; and after a later one only if the builder is to keep it. The id of
  -- the build is new, and its directory is not there before and is not its chroot.
  pub build_leaves :
      ((build m b d h).0.running ≡ h.running)
      × (count (build_dir m b d) (build m b d h).0.dirs
          ≡ left_dirs b.keep_work_dir (build m b d h).1)
  unfolding build
  build_leaves =
      let ready : IsReady m b d h = record {
        new_id = new_id;
        new_dir = new_dir;
        apart = apart;
        leaves_none = leaves_none;
        stops = stops;
        cleans = cleans;
      } in
      let v = def_checked-IsLeft m b d h ready (Def.validate d) in (v.quiet, v.dirs_left)
