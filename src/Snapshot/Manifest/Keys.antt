-- ===== src/Snapshot/Manifest/Keys.antt =====
-- The objects of one bundle have different keys.
use firefork_ai.Prelude.{◌≡◌, refl, ◌∙◌, Bool, true, false, [], ◌∷◌, ◌++◌, arith}
use firefork_ai.Prelude.Text.{Text, codes, text_eq}
use firefork_ai.Snapshot.Manifest.{manifest_key, mem_file_key_for, state_key}

-- Texts with a common front are equal if their ends are.
pub text_eq-append : (p s t : Text) → text_eq (p ++ s) (p ++ t) ≡ text_eq s t
unfolding text_eq
text_eq-append [] s t = refl
text_eq-append (c ∷ p) s t = ground (arith, text_eq-append p s t)

-- `name/version` before one of the ends.
pub ends_differ :
    (n v s t : Text)
    → text_eq s t ≡ false
    → text_eq (n ++ codes "/" ++ v ++ s) (n ++ codes "/" ++ v ++ t) ≡ false
ends_differ n v s t e = text_eq-append (n ++ codes "/" ++ v) s t ∙ e

module _ (n v : Text) where
  pub mem_file-state : (c : Bool) → text_eq (mem_file_key_for n v c) (state_key n v) ≡ false
  unfolding mem_file_key_for state_key text_eq
  mem_file-state true = ends_differ n v (codes "/memfile.zst") (codes "/state.bin") refl
  mem_file-state false = ends_differ n v (codes "/memfile.bin") (codes "/state.bin") refl

  pub manifest-state : text_eq (manifest_key n v) (state_key n v) ≡ false
  unfolding manifest_key state_key text_eq
  manifest-state = ends_differ n v (codes "/manifest.yaml") (codes "/state.bin") refl

  pub manifest-mem_file : (c : Bool) → text_eq (manifest_key n v) (mem_file_key_for n v c) ≡ false
  unfolding mem_file_key_for manifest_key text_eq
  manifest-mem_file true = ends_differ n v (codes "/manifest.yaml") (codes "/memfile.zst") refl
  manifest-mem_file false = ends_differ n v (codes "/manifest.yaml") (codes "/memfile.bin") refl
