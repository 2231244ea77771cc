-- ===== src/Fc/Jailer.antt =====
-- internal/fc/jailer.go and chroot.go: the jailer's configuration, its command line, the layout of a
-- chroot, and the start of a jailed process. `PrepareChroot` counts here as one step on the host.
use firefork_ai.Prelude.{ℕ, List, [], ◌∷◌, ◌++◌, if◌then◌else◌, Result, ok, err, ◌>>◌, fail_if}
use firefork_ai.Prelude.Word.{not_positive}
use firefork_ai.Prelude.Text.{Text, codes, is_empty}
use firefork_ai.Fc.Host.{Host, start, kill, make_dir, remove_dir}

pub record JailerConfig : Type 0 where
  pub jailer_bin : Text
  pub firecracker_bin : Text
  pub id : Text
  pub chroot_base_dir : Text
  pub uid : ℕ
  pub gid : ℕ
  pub net_ns : Text
  pub extra_jailer_args : List Text
  pub extra_firecracker_args : List Text
  pub extra_host_files : List (Text × Text)

pub data Error : Type 0 where
  id_required uid_not_positive gid_not_positive prepare_failed start_failed cancelled no_socket :
      Error

abbrev or_default : Text → Text → Text
or_default t d = if is_empty t then d else t

unfoldable pub chroot_base : JailerConfig → Text
chroot_base j = or_default j.chroot_base_dir (codes "/srv/jailer")

unfoldable pub jailer_bin_path : JailerConfig → Text
jailer_bin_path j = or_default j.jailer_bin (codes "/usr/local/bin/jailer")

unfoldable pub firecracker_bin_path : JailerConfig → Text
firecracker_bin_path j = or_default j.firecracker_bin (codes "/usr/local/bin/firecracker")

-- `filepath.Join`, for a clean base and an id that is one path component
unfoldable pub chroot_root : JailerConfig → Text
chroot_root j = chroot_base j ++ codes "/firecracker/" ++ j.id ++ codes "/root"

unfoldable pub host_api_socket_path : JailerConfig → Text
host_api_socket_path j = chroot_root j ++ codes "/run/firecracker.socket"

unfoldable pub validate : JailerConfig → Result Error (Unit {0})
validate j = do
  fail_if (is_empty j.id) id_required
  fail_if (not_positive j.uid) uid_not_positive
  fail_if (not_positive j.gid) gid_not_positive
  ok tt

-- `itoa` is `strconv.Itoa`. The result is the binary and its arguments.
unfoldable pub command : (ℕ → Text) → JailerConfig → Result Error (Text × List Text)
command itoa j = do
  validate j
  ok (
    jailer_bin_path j,
    codes "--id"
        ∷ j.id
        ∷ codes "--exec-file"
        ∷ firecracker_bin_path j
        ∷ codes "--uid"
        ∷ itoa j.uid
        ∷ codes "--gid"
        ∷ itoa j.gid
        ∷ codes "--chroot-base-dir"
        ∷ chroot_base j
        ∷ ((if is_empty j.net_ns then [] else codes "--netns" ∷ j.net_ns ∷ [])
            ++ (j.extra_jailer_args ++ (codes "--" ∷ j.extra_firecracker_args))),
  )

pub record ChrootLayout : Type 0 where
  pub kernel : Text
  pub rootfs : Text
  pub mem_file : Text
  pub state_file : Text
  pub vsock_uds : Text

unfoldable pub default_chroot_layout : ChrootLayout
default_chroot_layout = record {
  kernel = codes "/vmlinux";
  rootfs = codes "/rootfs.ext4";
  mem_file = codes "/memfile.bin";
  state_file = codes "/state.bin";
  vsock_uds = codes "/vsock.sock";
}

-- How the start of a jailed process ends. A failed `PrepareChroot` leaves what it had made.
pub data Start : Type 0 where
  prepare_fails start_fails ready context_done deadline_passed : Start

started : JailerConfig → Start → Host → Host × Result Error (Unit {0})
started j prepare_fails h = (make_dir (chroot_root j) h, err prepare_failed)
started j start_fails h =
    (remove_dir (chroot_root j) (make_dir (chroot_root j) h), err start_failed)
started j ready h = (start j.id (make_dir (chroot_root j) h), ok tt)
started j context_done h = (
  remove_dir (chroot_root j) (kill j.id (start j.id (make_dir (chroot_root j) h))),
  err cancelled,
)
started j deadline_passed h = (
  remove_dir (chroot_root j) (kill j.id (start j.id (make_dir (chroot_root j) h))),
  err no_socket,
)

unfoldable pub validated :
    JailerConfig → Start → Host → Result Error (Unit {0}) → Host × Result Error (Unit {0})
unfolding started
validated j o h (ok _) = started j o h
validated j o h (err e) = (h, err e)

-- `PrepareChroot` validates first, and nothing is made if that fails.
unfoldable pub start_jailed : JailerConfig → Start → Host → Host × Result Error (Unit {0})
unfolding validated
start_jailed j o h = validated j o h (validate j)
