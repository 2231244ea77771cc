-- ===== src/Fork/Options.antt =====
-- internal/fork/options.go: the presets of the fork hot path and their validation.
use firefork_ai.Prelude.{
  ℕ, ◌<◌, ◌≡◌, ◌↔◌, refl, Bool, true, false, ◌&&◌, Result, ok, ◌>>◌, fail_if, ◌⊎◌, arith,
}
use firefork_ai.Prelude.Word.{lt64, not_positive, word_mod, half_mod}

pub record Optimizations : Type 0 where
  pub warm_pool_size : ℕ
  pub ultra_warm_pool : Bool
  pub combined_load_resume : Bool

pub data Error : Type 0 where
  negative_size ultra_without_pool ultra_and_combined : Error

unfoldable pub default_optimizations : Optimizations
default_optimizations = record {
  warm_pool_size = 0;
  ultra_warm_pool = false;
  combined_load_resume = false;
}

unfoldable pub aggressive_optimizations : ℕ → Optimizations
aggressive_optimizations size = record {
  warm_pool_size = size;
  ultra_warm_pool = false;
  combined_load_resume = true;
}

unfoldable pub ultra_optimizations : ℕ → Optimizations
ultra_optimizations size = record {
  warm_pool_size = size;
  ultra_warm_pool = true;
  combined_load_resume = false;
}

unfoldable pub validate : Optimizations → Result Error (Unit {0})
validate o = do
  fail_if (lt64 o.warm_pool_size 0) negative_size
  fail_if (o.ultra_warm_pool && not_positive o.warm_pool_size) ultra_without_pool
  fail_if (o.ultra_warm_pool && o.combined_load_resume) ultra_and_combined
  ok tt

-- `Validate` accepts exactly the options whose size is not negative and where the ultra-warm pool is
-- off, or on with a positive size and without the combined load and resume.
pub validate_iff :
    (o : Optimizations)
    → o.warm_pool_size < word_mod
    → (validate o ≡ ok tt) ↔ (
        (o.warm_pool_size < half_mod)
        × ((o.ultra_warm_pool ≡ false)
            ⊎ ((0 < o.warm_pool_size) × (o.combined_load_resume ≡ false))))
unfolding validate lt64 not_positive
validate_iff o small = ground arith

-- A preset is valid for every positive size below 2 ^ 63; the ultra-warm one for no other `int`, the
-- aggressive one for 0 too, and the default always.
pub presets-validate :
    (n : ℕ)
    → n < word_mod
    → (validate default_optimizations ≡ ok tt)
      × ((validate (aggressive_optimizations n) ≡ ok tt) ↔ (n < half_mod))
      × ((validate (ultra_optimizations n) ≡ ok tt) ↔ ((0 < n) × (n < half_mod)))
unfolding validate lt64 not_positive default_optimizations aggressive_optimizations
    ultra_optimizations
presets-validate n small = (refl, ground arith, ground arith)
