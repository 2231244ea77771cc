-- ===== src/Snapshot/Store/RoundTrip.antt =====
-- `Save`, then `Load`.
use firefork_ai.Prelude.{
  ℕ, ◌≤◌, ◌<◌, ◌≡◌, refl, ap, sym, ◌∙◌, subst, Bool, true, false, Option, none, some, Result, ok,
  or_fail, length, arith,
}
use firefork_ai.Prelude.Text.{Text, codes, is_empty}
use firefork_ai.Prelude.Table.{lookup}
use firefork_ai.Storage.{Storage}
use firefork_ai.Snapshot.Manifest.{Manifest, Files, max_int64}
use firefork_ai.Snapshot.Store.{
  Codec, Store, LocalPaths, SaveOptions, Error, compress_failed, Shape, Call, chosen_compression,
  artifact, new_manifest, save,
}
use firefork_ai.Snapshot.Store.Load.{join, max_raw, load}
use firefork_ai.Snapshot.Store.Saving.{save-SavedFrom}
use firefork_ai.Snapshot.Store.Loading.{never, Unpacks, load-IsLoaded}

-- What the codecs are relied on for: the manifest `m` can be read back, the reader of zstd gives what
-- was compressed, and no hash is the empty text.
pub record Undoes (c : Codec) (m : Manifest) : Type 0 where
  pub decodes : (buf : Text) → c.encode m ≡ some buf → c.decode buf ≡ some m
  pub unzips : (level : ℕ) (raw z : Text) → c.zip level raw ≡ some z → c.unzip z ≡ (raw, false)
  pub hashes : (t : Text) → is_empty (c.sha t) ≡ false

zipped : (o : Option Text) (t : Text) → or_fail o compress_failed ≡ ok t → o ≡ some t
zipped none t e = absurd (ground arith)
zipped (some z) t e = ground arith

artifact-Unpacks :
    (c : Codec) (s : Storage) (verify : Bool) (dest : Text) (q : Shape) (opt : SaveOptions)
    (uploaded state raw : Text) (level : ℕ) (z : Bool)
    → Undoes c (new_manifest c s q opt z uploaded state)
    → artifact c s z level raw ≡ ok uploaded
    → (z ≡ true
        → (max_raw (new_manifest c s q opt z uploaded state) < max_int64)
          × (length raw ≤ max_raw (new_manifest c s q opt z uploaded state)))
    → Unpacks c s verify dest q opt uploaded state raw z
unfolding artifact
artifact-Unpacks c s verify dest q opt uploaded state raw level true u a b =
    let (x, y) = b refl in (u.unzips level raw uploaded (zipped (c.zip level raw) uploaded a), x, y)
artifact-Unpacks c s verify dest q opt uploaded state raw level false u a b = ground arith

module _ (c : Codec) (s : Storage) (fails : Call → Bool) (st : Store) (q : Shape)
    (opt : SaveOptions) (local : LocalPaths) (files : Files) (b : s.Bucket) (m : Manifest)
    (verify : Bool) (dest : Text) (disk : Files) where
  -- The contents of two local files are again in the two that `Load` names.
  abbrev pub IsRestored : s.Bucket × Files × Result Error (LocalPaths × Manifest) → Type 0
  IsRestored t =
      (t.2
        ≡ ok (
          record {
            mem_file = join dest (codes "memfile.bin");
            state = join dest (codes "state.bin");
          },
          m,
        ))
      × (lookup (join dest (codes "memfile.bin")) t.1 ≡ lookup local.mem_file files)
      × (lookup (join dest (codes "state.bin")) t.1 ≡ lookup local.state files)

  -- Whatever implements the storage interface: after a `Save` that returned a manifest, a `Load` of the
  -- same name and version none of whose calls fails succeeds, with or without the check of hashes. It
  -- returns that manifest and two files with the contents of those that were saved, compressed or not.
  -- The codecs undo themselves, no hash is the empty text, and a compressed memory file was no larger than the bound that `Load`
  -- computes from the manifest, which must not overflow.
  pub load-save :
      (save c s fails st q opt local files b).1 ≡ ok m
      → Undoes c m
      → (chosen_compression st opt ≡ true
          → (max_raw m < max_int64)
            × ((raw : Text) → lookup local.mem_file files ≡ some raw → length raw ≤ max_raw m))
      → IsRestored (
          load c s never verify dest q.name q.version
            (save c s fails st q opt local files b).0
            disk)
  load-save h u w =
      let v = save-SavedFrom c s fails st q opt local files b m h in
      let z = chosen_compression st opt in
      let u' = subst (Undoes c) v.manifest u in
      let pack = artifact-Unpacks c s verify dest q opt v.uploaded v.state v.raw _ z u' v.made (λ e.
        let (x, y) = w e in
        (
          subst (λ n. max_raw n < max_int64) v.manifest x,
          subst (λ n. length v.raw ≤ max_raw n) v.manifest (y v.raw v.raw_read),
        )) in
      let (x, y, k) =
        load-IsLoaded c s verify dest q opt v.uploaded v.state v.raw z (u.hashes v.uploaded) pack
          (save c s fails st q opt local files b).0 disk v.saved u'.decodes in
      (
        x
            ∙ ap
                (λ n. ok (
                  record {
                    mem_file = join dest (codes "memfile.bin");
                    state = join dest (codes "state.bin");
                  },
                  n,
                ))
                (sym v.manifest),
        y ∙ sym v.raw_read,
        k ∙ sym v.state_read,
      )
