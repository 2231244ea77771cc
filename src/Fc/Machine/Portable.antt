-- ===== src/Fc/Machine/Portable.antt =====
-- internal/fc/machine.go: what the configuration for the SDK that `NewJailed` makes depends on.
use firefork_ai.Prelude.{
  ℕ, ◌≡◌, refl, ap, sym, Bool, true, false, not, List, some, Result, ok, err, ◌>>=◌, ◌>>◌, fail_if,
  Bool-cases, Result-cases, inl, inr, arith,
}
use firefork_ai.Prelude.Word.{not_positive}
use firefork_ai.Prelude.Text.{Text}
use firefork_ai.Fc.Jailer
use firefork_ai.Fc.Jailer.{
  JailerConfig, chroot_root, host_api_socket_path, default_chroot_layout, command,
}
use firefork_ai.Fc.Machine.{
  Config, Error, SdkConfig, Runner, jailed, Machine, agent_vsock, jailed_sdk_config, jailed_machine,
  lift_jailer, new_jailed, refused_by_sdk,
}

guarded : (b : Bool) (e : Error) (m n : Machine) → fail_if b e >> ok m ≡ ok n → m ≡ n
guarded true e m n h = absurd (ground arith)
guarded false e m n h = ground arith

module _ (accepts : SdkConfig → Bool) (c : Config) (j : JailerConfig) (m : Machine) where
  HasSdk : Type 0
  HasSdk = (r : Runner) × (m.sdk ≡ some (jailed_sdk_config c j, r))

  accepted_lem :
      (cmd : Result Jailer.Error (Text × List Text))
      → (lift_jailer cmd >>= λ cmd.
          fail_if (not (accepts (jailed_sdk_config c j))) refused_by_sdk
          >> ok (jailed_machine c j cmd))
        ≡ ok m
      → HasSdk
  unfolding lift_jailer jailed_machine HasSdk
  accepted_lem (err e) h = absurd (ground arith)
  accepted_lem (ok (bin, args)) h =
      (jailed bin args, ap (λ n. n.sdk) (sym (guarded _ refused_by_sdk _ m h)))

  new_jailed_lem : (itoa : ℕ → Text) → new_jailed accepts itoa c j ≡ ok m → HasSdk
  unfolding new_jailed
  new_jailed_lem itoa h = elim (Result-cases (lift_jailer (Jailer.validate j))) [
    | inr (e, f) ↦ absurd (ground arith)
    | inl (u, f) ↦ elim (Bool-cases (not_positive c.vcpu_count)) [
      | inl a ↦ absurd (ground arith)
      | inr a ↦ elim (Bool-cases (not_positive c.mem_size_mib)) [
        | inl b ↦ absurd (ground arith)
        | inr b ↦ accepted_lem (command itoa j) (rw (f, a, b) at h)
      ]
    ]
  ]

-- Two configurations of the same shape.
pub record IsAlike (c d : Config) : Type 0 where
  pub vcpus : c.vcpu_count ≡ d.vcpu_count
  pub memory : c.mem_size_mib ≡ d.mem_size_mib
  pub boot : c.boot_args ≡ d.boot_args
  pub guest : c.vsock_guest_cid ≡ d.vsock_guest_cid

-- Machines that `NewJailed` makes for configurations of one shape have, but for the API socket, the
-- same configuration for the SDK, whatever their chroots and the paths on the host: a snapshot of one
-- names no path that the chroot of another does not have.
pub new_jailed_portable :
    (accepts : SdkConfig → Bool) (itoa : ℕ → Text) (c d : Config) (j k : JailerConfig)
    (m n : Machine)
    → IsAlike c d
    → new_jailed accepts itoa c j ≡ ok m
    → new_jailed accepts itoa d k ≡ ok n
    → (s : SdkConfig) × (t : SdkConfig) × (r : Runner) × (q : Runner) × (m.sdk ≡ some (s, r))
      × (n.sdk ≡ some (t, q))
      × (s ≡ record t { api_socket = host_api_socket_path j })
unfolding HasSdk jailed_sdk_config agent_vsock
new_jailed_portable accepts itoa c d j k m n a g h =
    let (r, e) = new_jailed_lem accepts c j m itoa g in
    let (q, f) = new_jailed_lem accepts d k n itoa h in
    (
      jailed_sdk_config c j,
      jailed_sdk_config d k,
      r,
      q,
      e,
      f,
      rw (a.vcpus, a.memory, a.boot, a.guest) refl,
    )
