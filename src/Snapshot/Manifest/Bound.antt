-- ===== src/Snapshot/Manifest/Bound.antt =====
-- internal/snapshot/compress.go: the bound on decompressed bytes.
mod Tests
use firefork_ai.Prelude.{
  ℕ, suc, ◌+◌, ◌≤◌, ◌<◌, ◌≡◌, ◌↔◌, refl, ap, ◌∙◌, Bool, true, false, ◌&&◌, List, [], ◌∷◌, Option,
  none, some, if◌then◌else◌, ltb, length, take, take_all, length-take, Result, ok, err, Bool-cases,
  inl, inr, arith,
}
use firefork_ai.Prelude.Text.{Text, text_eq}
use firefork_ai.Prelude.Word.{lt64}
use firefork_ai.Prelude.Table.{lookup, insert, lookup-insert}
use firefork_ai.Snapshot.Manifest.{
  Manifest, Error, negative_bound, Files, max_int64, copy_bounded, copy_opened, created,
  decompress_file_bounded, check_schema, unmarshal_manifest,
}

length-take_le : (n : ℕ) (t : Text) → length (take n t) ≤ n
unfolding take
length-take_le ℕ.zero t = omega arith
length-take_le (suc n) [] = omega arith
length-take_le (suc n) (c ∷ t) = omega (arith, length-take_le n t)

probe_below : (max : ℕ) → max < max_int64 → (if ltb max max_int64 then suc max else max) ≡ suc max
probe_below max h = ground arith

not_negative : (max : ℕ) → max < max_int64 → lt64 max 0 ≡ false
unfolding lt64
not_negative max h = ground arith

-- A manifest of the current schema is accepted.
pub unmarshal_manifest_current :
    (decode : Text → Option Manifest) (buf : Text) (m : Manifest)
    → decode buf ≡ some m
    → m.schema_version ≡ 1
    → unmarshal_manifest decode buf ≡ ok m
unfolding unmarshal_manifest check_schema lt64
unmarshal_manifest_current decode buf m e v = ap check_schema e ∙ ground (arith, v)

-- For a bound below the largest `int64`, decompression never writes more than one byte above the
-- bound, and it succeeds exactly if the stream ends without an error and within the bound; then it has
-- written the whole stream.
pub copy_bounded_lem :
    (max : ℕ) (out : Text) (bad : Bool)
    → max < max_int64
    → (length (copy_bounded max (out, bad)).0 ≤ max + 1)
      × (((copy_bounded max (out, bad)).1 ≡ none) ↔ ((bad ≡ false) × (length out ≤ max)))
      × ((copy_bounded max (out, bad)).1 ≡ none → (copy_bounded max (out, bad)).0 ≡ out)
unfolding copy_bounded
copy_bounded_lem max out bad h = elim (Bool-cases (ltb max (length out))) [
  | inl q ↦
      let over : length (take (suc max) out) ≡ suc max = length-take (suc max) out (ground arith) in
      rw (probe_below max h)
        (ground (arith, over), ground (arith, over), λ e. absurd (ground (arith, over)))
  | inr q ↦
      let all = take_all (suc max) out (ground arith) in
      rw (probe_below max h, all) (ground arith, ground arith, λ e. refl)
]

module _ (unzip : Text → Text × Bool) (max : ℕ) (src dst : Text) (z raw : Text)
    (b : max < max_int64) (u : unzip z ≡ (raw, false)) (l : length raw ≤ max) where
  copies : copy_bounded max (unzip z) ≡ (raw, none)
  copies =
      let (x, y, w) = copy_bounded_lem max raw false b in
      let done = y.1 (refl, l) in ap (copy_bounded max) u ∙ (λ i. (w done i, done i))

  copy_opened-raw :
      (d : Files) (o : Option Text)
      → o ≡ some z
      → copy_opened unzip max src dst d o ≡ (insert dst raw d, none)
  unfolding copy_opened
  copy_opened-raw d none e = absurd (ground arith)
  copy_opened-raw d (some y) e =
      ap (copy_opened unzip max src dst d) e
      ∙ ap (λ (p : Text × Option Error). (insert dst p.0 d, p.1)) copies

  created-raw :
      (d : Files) (o : Option Text)
      → o ≡ some z
      → lookup src (insert dst [] d) ≡ some z
      → created unzip max src dst true d o ≡ (insert dst raw (insert dst [] d), none)
  unfolding created
  created-raw d none e f = absurd (ground arith)
  created-raw d (some y) e f = copy_opened-raw (insert dst [] d) _ f

  -- A stream within the bound is written in full, if the source is another file.
  pub decompress_file_bounded-raw :
      (d : Files)
      → text_eq dst src ≡ false
      → lookup src d ≡ some z
      → decompress_file_bounded unzip src dst max true d ≡ (insert dst raw (insert dst [] d), none)
  unfolding decompress_file_bounded
  decompress_file_bounded-raw d n f =
      ap
        (λ x.
          if x then (d, some negative_bound) else created unzip max src dst true d (lookup src d))
        (not_negative max b)
      ∙ created-raw d (lookup src d) f
          (lookup-insert dst src [] d ∙ ap (λ x. if x then some [] else lookup src d) n ∙ f)
