-- ===== src/Fc/Machine/Tests.antt =====
-- Two jailed machines of one shape, for different chroots and host paths.
use firefork_ai.Prelude.{ℕ, ◌≡◌, refl, true, [], ◌∷◌, some, ok}
use firefork_ai.Prelude.Text.{Text, codes}
use firefork_ai.Prelude.Word.{lt64, not_positive}
use firefork_ai.Fc.Jailer
use firefork_ai.Fc.Jailer.{JailerConfig, command, chroot_root, host_api_socket_path}
use firefork_ai.Fc.Machine.{new_jailed, Config, SdkConfig, Runner, Machine}
use firefork_ai.Fc.Machine.Portable.{IsAlike, new_jailed_portable}

abbrev jailer : Text → JailerConfig
jailer id = record {
  jailer_bin = [];
  firecracker_bin = [];
  id = id;
  chroot_base_dir = [];
  uid = 10000;
  gid = 10000;
  net_ns = [];
  extra_jailer_args = [];
  extra_firecracker_args = [];
  extra_host_files = [];
}

abbrev digits : ℕ → Text
digits n = n ∷ []

abbrev config : Text → Config
config kernel = record {
  socket_path = [];
  kernel_path = kernel;
  rootfs_path = codes "/r";
  vcpu_count = 2;
  mem_size_mib = 512;
  boot_args = [];
  vsock_guest_cid = 3;
  vsock_uds = [];
  firecracker_bin = [];
}

-- The machine that `new_jailed` makes, in the form that it computes to.
made :
    (id kernel : Text)
    → (m : Machine) × (new_jailed (λ s. true) digits (config kernel) (jailer (1 ∷ id)) ≡ ok m)
unfolding new_jailed Jailer.validate command not_positive lt64
made id kernel = (_, refl)

alike : IsAlike (config (codes "/k")) (config (codes "/l"))
alike = record { vcpus = refl; memory = refl; boot = refl; guest = refl }

new_jailed_portable_example :
    (s : SdkConfig) × (t : SdkConfig) × (r : Runner) × (q : Runner) × ((made
        (codes "a")
        (codes "/k")).0.sdk
      ≡ some (s, r))
    × ((made (codes "b") (codes "/l")).0.sdk ≡ some (t, q))
    × (s ≡ record t { api_socket = host_api_socket_path (jailer (1 ∷ codes "a")) })
new_jailed_portable_example =
    new_jailed_portable (λ s. true) digits (config (codes "/k")) (config (codes "/l"))
      (jailer (1 ∷ codes "a")) (jailer (1 ∷ codes "b")) (made (codes "a") (codes "/k")).0
      (made (codes "b") (codes "/l")).0 alike (made (codes "a") (codes "/k")).1
      (made (codes "b") (codes "/l")).1
