-- ===== src/Template/Builder/Tests.antt =====
-- A jailed build with a command that fails in warmup, and one that succeeds.
use firefork_ai.Prelude.{ℕ, ◌≡◌, ◌≢◌, refl, true, false, List, [], ◌∷◌, none, some, ok, err, arith}
use firefork_ai.Prelude.Text.{Text, codes, text_eq, split}
use firefork_ai.Prelude.Word.{lt64, not_positive}
use firefork_ai.Prelude.Table.{lookup}
use firefork_ai.Fc.Host.{Host, count}
use firefork_ai.Fc.Jailer
use firefork_ai.Fc.Jailer.{JailerConfig, chroot_root, chroot_base, command}
use firefork_ai.Fc.Machine.{new_jailed}
use firefork_ai.Template.Def
use firefork_ai.Template.Def.{Def, warmup_timeout}
use firefork_ai.Template.Builder.{
  Builder, Meets, warmup_failed, build_dir, build_jailer, build_config,
}
use firefork_ai.Template.Builder.Shell.{
  code_failed, exec_reply, run_all-exec_reply, run_all, run_shell, check_reply, numeric_field,
  agent_timeout, extract_kernel_version, base_name, behind,
}
use firefork_ai.Template.Builder.Pipeline.{build}
use firefork_ai.Template.Builder.Pipeline.Guest.{left_dirs}
use firefork_ai.Template.Builder.Pipeline.Cleanup.{build_leaves}
use firefork_ai.Snapshot.Store.{name_and_version_required}

version_of : extract_kernel_version (codes "/k/vmlinux-5.10.223/") ≡ codes "5.10.223"
unfolding extract_kernel_version base_name behind split
version_of = refl

abbrev jailer : JailerConfig
jailer = record {
  jailer_bin = [];
  firecracker_bin = [];
  id = [];
  chroot_base_dir = [];
  uid = 10000;
  gid = 10000;
  net_ns = [];
  extra_jailer_args = [];
  extra_firecracker_args = [];
  extra_host_files = [];
}

abbrev builder : Builder
builder = record {
  firecracker_bin = [];
  work_root = codes "/w";
  has_store = false;
  jailer = some jailer;
  keep_work_dir = false;
}

abbrev def : Def
def = record {
  name = codes "a.b";
  version = codes "1";
  vcpus = 1;
  mem_mib = 256;
  kernel = codes "/k/vmlinux-5";
  rootfs = codes "/r";
  boot_args = [];
  vsock_guest_cid = 0;
  setup = [];
  warmup = codes "true" ∷ codes "false" ∷ [];
  warmup_sleep_ms = 0;
  setup_timeout_ms = 0;
  warmup_timeout_ms = 0;
  notes = [];
  compress_memfile = none;
}

-- Values are numbers; the second command has a code of 1.
abbrev reply : ℕ → List (Text × ℕ)
reply i = (codes "code", i) ∷ []

abbrev meets : Meets ℕ
meets = record {
  temp_dir = codes "/tmp";
  id = codes "7";
  created_at = 0;
  makes_dir = true;
  copies = true;
  prepares = true;
  accepts = λ c. true;
  itoa = λ n. n ∷ [];
  starts = true;
  left = false;
  agent = λ uds. ok (codes "key");
  number = λ n. some n;
  as_text = λ n. none;
  called = λ i uds secret c. ok (reply i);
  pauses = true;
  creates = true;
  stops = true;
  saves = λ s o p. err name_and_version_required;
  cleans = true;
}

abbrev host : Host
host = record { running = codes "other" ∷ []; dirs = []; loaded = [] }

fails : (build meets builder def host).1 ≡ err (warmup_failed 1 code_failed)
unfolding build Def.validate Jailer.validate new_jailed command not_positive lt64 build_config
    build_jailer run_all run_shell check_reply numeric_field lookup text_eq agent_timeout
    warmup_timeout
fails = refl

apart :
    (j : JailerConfig)
    → builder.jailer ≡ some j
    → chroot_root (build_jailer meets builder def j) ≢ build_dir meets builder def
unfolding chroot_root chroot_base build_dir build_jailer
apart j e = λ f. ground arith

new_id : count meets.id host.running ≡ 0
unfolding count text_eq
new_id = refl

new_dir : count (build_dir meets builder def) host.dirs ≡ 0
unfolding count
new_dir = refl

build_leaves_example :
    let t = build meets builder def host in
    (t.0.running ≡ host.running)
    × (count (build_dir meets builder def) t.0.dirs ≡ left_dirs builder.keep_work_dir t.1)
build_leaves_example = build_leaves meets builder def host new_id new_dir apart refl refl refl

run_all-exec_reply_example :
    run_all
      (λ n. some n)
      (λ n. none)
      (λ j c. ok (exec_reply 0 127 0 0))
      60000000000
      0
      (codes "missing" ∷ codes "false" ∷ [])
    ≡ none
run_all-exec_reply_example =
    run_all-exec_reply (λ n. some n) (λ n. none) (λ j c. 0) (λ j c. 127) (λ j c. 0) (λ j c. 0)
      60000000000 0 (codes "missing" ∷ codes "false" ∷ [])
