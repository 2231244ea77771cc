-- ===== src/Template/Def/Tests.antt =====
-- A definition that is loaded, and its timeouts.
use firefork_ai.Prelude.{◌≡◌, refl, [], ◌∷◌, Option, none, some, ok}
use firefork_ai.Prelude.Word.{lt64, not_positive}
use firefork_ai.Prelude.Text.{Text, codes}
use firefork_ai.Template.Def.{Def, load_def, validate, milliseconds, setup_timeout, warmup_timeout}

abbrev python : Def
python = record {
  name = codes "python";
  version = codes "v1";
  vcpus = 2;
  mem_mib = 512;
  kernel = codes "/vmlinux";
  rootfs = codes "/rootfs.ext4";
  boot_args = [];
  vsock_guest_cid = 3;
  setup = [];
  warmup = [];
  warmup_sleep_ms = 0;
  setup_timeout_ms = 500;
  warmup_timeout_ms = 0;
  notes = [];
  compress_memfile = none;
}

abbrev decode : Text → Option Def
decode [] = none
decode (c ∷ t) = some python

loads : load_def decode (some (codes "yaml")) ≡ ok python
unfolding load_def validate not_positive lt64
loads = refl

setup_given : setup_timeout python ≡ 500000000
unfolding setup_timeout milliseconds not_positive lt64
setup_given = refl

warmup_default : warmup_timeout python ≡ 120000000000
unfolding warmup_timeout not_positive lt64
warmup_default = refl
