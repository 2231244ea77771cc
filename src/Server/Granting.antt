-- ===== src/Server/Granting.antt =====
-- Which requests for forks the checks of `handleFork` in cmd/firefork-server/main.go let through.
use firefork_ai.Prelude.{
  ℕ, ◌≤◌, ◌<◌, ◌≡◌, refl, ap, Bool, true, false, Option, none, some, Result, ok, err, ◌>>=◌,
  or_fail, Bool-cases, inl, inr, arith,
}
use firefork_ai.Prelude.Word.{word_mod, half_mod, lt64, lt64_small, not_positive, not_positive_iff}
use firefork_ai.Prelude.Text.{Text, is_empty}
use firefork_ai.Template.Key
use firefork_ai.Template.Key.{parse_key, entry_key}
use firefork_ai.Template.Registry.{Registry, Entry, get}
use firefork_ai.Fork.Pool.{lift_opts, check_request}
use firefork_ai.Fork.Options.{validate}
use firefork_ai.Server.{Server, Message, template_unknown}
use firefork_ai.Server.Forking.{ForkReq, lift_key, with_files, check_fork, pool_request}

-- An entry with a local snapshot.
pub record HasFiles (there : Text → Bool) (e : Entry) : Type 0 where
  pub memory_named : is_empty e.local_mem_file ≡ false
  pub state_named : is_empty e.local_state_file ≡ false
  pub memory_there : there e.local_mem_file ≡ true

-- What a request for forks must be, and the entry that it is for.
pub record IsGranted (there : Text → Bool) (reg : Registry) (req : ForkReq) (e : Entry)
    : Type 0 where
  pub counted : (0 < req.count) × (req.count ≤ 256)
  pub keyed : (k : Text × Text) × (parse_key req.template ≡ ok k) × (get k.0 k.1 reg ≡ some e)
  pub local : HasFiles there e

within : {n : ℕ} → lt64 256 n ≡ false → n < half_mod → n ≤ 256
within {n} b h = ground (arith, lt64_small 256 n (omega arith) h)

module _ (there : Text → Bool) (reg : Registry) (req : ForkReq) (e : Entry) where
  with_files-HasFiles : (f : Entry) → with_files there f ≡ ok e → (f ≡ e) × HasFiles there e
  unfolding with_files
  with_files-HasFiles f h =
      let same : f ≡ e = ground arith in
      (
        same,
        record {
          memory_named = ground arith;
          state_named = ground arith;
          memory_there = ground arith;
        },
      )

  entry_found :
      (o : Option Entry) (m : ℕ × Message)
      → or_fail o m >>= with_files there ≡ ok e
      → (o ≡ some e) × HasFiles there e
  entry_found none m h = absurd (ground arith)
  entry_found (some f) m h = let (p, q) = with_files-HasFiles f h in (ap some p, q)

  key_found :
      (k : Result Key.Error (Text × Text)) (m : ℕ × Message)
      → (lift_key k >>= λ key. or_fail (get key.0 key.1 reg) m >>= with_files there) ≡ ok e
      → (p : Text × Text) × (k ≡ ok p) × (get p.0 p.1 reg ≡ some e) × HasFiles there e
  unfolding lift_key
  key_found (err x) m h = absurd (ground arith)
  key_found (ok p) m h = let (a, b) = entry_found (get p.0 p.1 reg) m h in (p, refl, a, b)

  pub check_fork-IsGranted :
      req.count < word_mod → check_fork there reg req ≡ ok e → IsGranted there reg req e
  unfolding check_fork
  check_fork-IsGranted small h = elim (Bool-cases (not_positive req.count)) [
    | inl a ↦ absurd (ground arith)
    | inr a ↦ elim (Bool-cases (lt64 256 req.count)) [
      | inl b ↦ absurd (ground arith)
      | inr b ↦
          let positive = (not_positive_iff req.count small).0 a in
          let (p, q, r, f) =
            key_found (parse_key req.template) (404, template_unknown req.template)
              (rw (a, b) at h) in
          record { counted = (positive.0, within b positive.1); keyed = (p, q, r); local = f }
    ]
  ]

pub pool_request-IsValid :
    (there : Text → Bool) (reg : Registry) (s : Server) (req : ForkReq) (e : Entry)
    → IsGranted there reg req e
    → check_request (pool_request s e req) ≡ ok tt
unfolding check_request pool_request lift_opts validate lt64 not_positive
pool_request-IsValid there reg s req e g =
    ground (arith, g.counted.0, g.counted.1, g.local.memory_named, g.local.state_named)
