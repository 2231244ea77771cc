-- ===== src/Fc/Chroot/Tests.antt =====
-- A chroot with a kernel and a file two directories down, in which an old kernel is found.
use firefork_ai.Prelude.{◌≡◌, refl, true, false, List, [], ◌∷◌, some, ok, All}
use firefork_ai.Prelude.Text.{Text, codes, text_eq}
use firefork_ai.Prelude.Word.{lt64, not_positive}
use firefork_ai.Fc.Jailer.{JailerConfig, validate}
use firefork_ai.Fc.Chroot.{
  same_path, Tree, scaffold, mkdir, chown, remove, link, chown_up, place, place_all, prepare_chroot,
}
use firefork_ai.Fc.Chroot.Links.{IsInside, Distinct, prepare_chroot-IsInside}

abbrev jailer : JailerConfig
jailer = record {
  jailer_bin = [];
  firecracker_bin = [];
  id = codes "a";
  chroot_base_dir = [];
  uid = 10000;
  gid = 10000;
  net_ns = [];
  extra_jailer_args = [];
  extra_firecracker_args = [];
  extra_host_files = [];
}

abbrev files : List (List Text × Text)
files =
    (codes "vmlinux" ∷ [], codes "/k") ∷ (codes "r" ∷ codes "b" ∷ codes "a" ∷ [], codes "/r") ∷ []

abbrev stale : Tree
stale = record { dirs = λ p. true; links = λ p. some (codes "/old"); owned = λ p. false }

files_differ : Distinct files
unfolding same_path text_eq
files_differ = ((refl, tt), (tt, tt))

-- What the call leaves, as it computes.
abbrev outcome : Tree
outcome = (prepare_chroot (λ c. false) jailer files stale).0

succeeds : prepare_chroot (λ c. false) jailer files stale ≡ (outcome, ok tt)
unfolding prepare_chroot validate not_positive lt64 mkdir chown remove link chown_up place place_all
    same_path text_eq
succeeds = refl

prepare_chroot-IsInside_example :
    All (IsInside outcome) files × All (λ p. outcome.owned p ≡ true) ([] ∷ scaffold)
prepare_chroot-IsInside_example =
    prepare_chroot-IsInside (λ c. false) jailer files stale outcome files_differ succeeds
