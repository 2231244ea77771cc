-- ===== src/Template/Def.antt =====
-- internal/template/def.go: a template's definition, its validation and its defaults.
mod Tests
use firefork_ai.Prelude.{
  ℕ, ◌+◌, ◌*◌, ◌%◌, ◌^◌, ◌≤◌, ◌<◌, ◌≡◌, ◌≢◌, ◌↔◌, refl, ap, ◌∙◌, subst, Bool, true, false, not,
  List, [], ◌∷◌, Option, none, some, if◌then◌else◌, Result, ok, err, ◌>>=◌, ◌>>◌, fail_if,
  Bool-cases, ◌⊎◌, inl, inr, arith,
}
use firefork_ai.Prelude.Word.{word_mod, half_mod, lt64, not_positive, not_positive_iff}
use firefork_ai.Prelude.Text.{Text, is_empty}

pub record Def : Type 0 where
  pub name : Text
  pub version : Text
  pub vcpus : ℕ
  pub mem_mib : ℕ
  pub kernel : Text
  pub rootfs : Text
  pub boot_args : Text
  pub vsock_guest_cid : ℕ
  pub setup : List Text
  pub warmup : List Text
  pub warmup_sleep_ms : ℕ
  pub setup_timeout_ms : ℕ
  pub warmup_timeout_ms : ℕ
  pub notes : Text
  pub compress_memfile : Option Bool

pub data Error : Type 0 where
  read_failed parse_failed name_required version_required vcpus_not_positive mem_not_positive
        kernel_required rootfs_required :
      Error

unfoldable pub validate : Def → Result Error (Unit {0})
validate d = do
  fail_if (is_empty d.name) name_required
  fail_if (is_empty d.version) version_required
  fail_if (not_positive d.vcpus) vcpus_not_positive
  fail_if (not_positive d.mem_mib) mem_not_positive
  fail_if (is_empty d.kernel) kernel_required
  fail_if (is_empty d.rootfs) rootfs_required
  ok tt

parsed : Option Def → Result Error Def
parsed none = err parse_failed
parsed (some d) = do validate d; ok d

-- `LoadDef`: `file` is what `os.ReadFile` returns, `decode` the strict YAML decoder.
unfoldable pub load_def : (Text → Option Def) → Option Text → Result Error Def
unfolding parsed
load_def decode none = err read_failed
load_def decode (some b) = parsed (decode b)

-- A duration in nanoseconds: `time.Duration(ms) * time.Millisecond`
unfoldable pub milliseconds : ℕ → ℕ
milliseconds ms = (ms * 1000000) % word_mod

unfoldable pub warmup_sleep : Def → ℕ
warmup_sleep d = milliseconds d.warmup_sleep_ms

unfoldable pub setup_timeout : Def → ℕ
setup_timeout d =
    if not_positive d.setup_timeout_ms then 60000000000 else milliseconds d.setup_timeout_ms

unfoldable pub warmup_timeout : Def → ℕ
warmup_timeout d =
    if not_positive d.warmup_timeout_ms then 120000000000 else milliseconds d.warmup_timeout_ms

unfoldable pub should_compress_memfile : Def → Bool
should_compress_memfile d = elim d.compress_memfile [ none ↦ true | some b ↦ b ]

-- What a definition must have.
pub record IsComplete (d : Def) : Type 0 where
  pub named : (is_empty d.name ≡ false) × (is_empty d.version ≡ false)
  pub shaped : (0 < d.vcpus) × (d.vcpus < half_mod) × (0 < d.mem_mib) × (d.mem_mib < half_mod)
  pub booted : (is_empty d.kernel ≡ false) × (is_empty d.rootfs ≡ false)

validate-IsComplete :
    (d : Def) → d.vcpus < word_mod → d.mem_mib < word_mod → validate d ≡ ok tt → IsComplete d
unfolding validate not_positive lt64
validate-IsComplete d v m h = record {
  named = ground arith;
  shaped = ground arith;
  booted = ground arith;
}

validate_when :
    (d : Def) → d.vcpus < word_mod → d.mem_mib < word_mod → IsComplete d → validate d ≡ ok tt
unfolding validate not_positive lt64
validate_when d v m c = ground (arith, c.named, c.shaped, c.booted)

bind_ok :
    (r : Result Error (Unit {0})) (e d : Def) → (r >>= λ _. ok e) ≡ ok d → (r ≡ ok tt) × (e ≡ d)
bind_ok (ok tt) e d h = (refl, ground arith)
bind_ok (err f) e d h = absurd (ground arith)

parsed-IsComplete :
    (o : Option Def) (d : Def)
    → d.vcpus < word_mod
    → d.mem_mib < word_mod
    → parsed o ≡ ok d
    → (o ≡ some d) × IsComplete d
unfolding parsed
parsed-IsComplete none d v m h = absurd (ground arith)
parsed-IsComplete (some e) d v m h =
    let (q, p) = bind_ok (validate e) e d h in
    (ap some p, validate-IsComplete d v m (subst (λ x. validate x ≡ ok tt) p q))

parsed_when :
    (d : Def) → d.vcpus < word_mod → d.mem_mib < word_mod → IsComplete d → parsed (some d) ≡ ok d
unfolding parsed
parsed_when d v m c = ap (λ r. r >>= λ _. ok d) (validate_when d v m c)

-- `LoadDef` returns a definition exactly if the file can be read and decodes to it, its name, version,
-- kernel and root file system are not empty, and its counts are positive.
pub load_def_iff :
    (decode : Text → Option Def) (file : Option Text) (d : Def)
    → d.vcpus < word_mod
    → d.mem_mib < word_mod
    → (load_def decode file ≡ ok d)
      ↔ ((b : Text) × (file ≡ some b) × (decode b ≡ some d) × IsComplete d)
unfolding load_def parsed
load_def_iff decode none d v m = (λ h. absurd (ground arith), λ h. absurd (ground (arith, h.1)))
load_def_iff decode (some b) d v m = (
  λ h. let (p, c) = parsed-IsComplete (decode b) d v m h in (b, refl, p, c),
  λ (x, p, q, c).
      subst (λ y. parsed (decode y) ≡ ok d) (some_injective p) (ap parsed q ∙ parsed_when d v m c),
)
  where
    some_injective : {x y : Text} → some x ≡ some y → y ≡ x
    some_injective e = ground arith

-- `ms` milliseconds, or the default.
timeout_lem :
    (ms default : ℕ)
    → ms < 9223372036854
    → 0 < default
    → default < half_mod
    → let t = if not_positive ms then default else milliseconds ms in
      (0 < t) × (t < half_mod) × (0 < ms → t ≡ ms * 1000000)
unfolding milliseconds not_positive lt64
timeout_lem ms default b p q = (ground arith, ground arith, λ h. ground arith)

-- The timeouts are never zero or negative and are what the definition says, or the default where it
-- says nothing positive, for every number of milliseconds below 2 ^ 63 / 10 ^ 6.
pub timeouts_positive :
    (d : Def)
    → d.setup_timeout_ms < 9223372036854
    → d.warmup_timeout_ms < 9223372036854
    → (0 < setup_timeout d)
      × (setup_timeout d < half_mod)
      × (0 < warmup_timeout d)
      × (warmup_timeout d < half_mod)
      × (0 < d.setup_timeout_ms → setup_timeout d ≡ d.setup_timeout_ms * 1000000)
      × (0 < d.warmup_timeout_ms → warmup_timeout d ≡ d.warmup_timeout_ms * 1000000)
unfolding setup_timeout warmup_timeout
timeouts_positive d s w =
    let (a, b, c) = timeout_lem d.setup_timeout_ms 60000000000 s (omega arith) (omega arith) in
    let (x, y, z) = timeout_lem d.warmup_timeout_ms 120000000000 w (omega arith) (omega arith) in
    (a, b, x, y, c, z)
