-- ===== src/Snapshot/Store/Loading.antt =====
-- `Load` of what `Save` has left in the store.
use firefork_ai.Prelude.{
  Option-cases, ◌≤◌, ◌<◌, ◌≡◌, refl, ap, sym, ◌∙◌, subst, Bool, true, false, not, [], none, some,
  if◌then◌else◌, Result, ok, err, fail_if, length, Bool-cases, inl, inr, arith,
}
use firefork_ai.Prelude.Text.{Text, codes, text_eq, text_eq_refl, is_empty}
use firefork_ai.Prelude.Table.{lookup, insert, delete}
use firefork_ai.Storage
use firefork_ai.Storage.{Storage}
use firefork_ai.Snapshot.Manifest
use firefork_ai.Snapshot.Manifest.{
  Manifest, Files, manifest_key, mem_file_key_for, state_key, unmarshal_manifest, max_int64,
  decompress_file_bounded,
}
use firefork_ai.Snapshot.Manifest.Bound.{decompress_file_bounded-raw, unmarshal_manifest_current}
use firefork_ai.Snapshot.Store.{
  Codec, LocalPaths, SaveOptions, Error, open_failed, state_sha_mismatch, memfile_sha_mismatch,
  new_manifest, Shape, Call,
}
use firefork_ai.Snapshot.Store.Load.{
  fetch, join, max_raw, state_path, sha_at, check_memfile, check_state, finished, unpacked, unpack,
  checked, got_memfile, download_memfile, got_state, read_manifest, got_manifest, load,
}
use firefork_ai.Snapshot.Store.Saving.{Saved}
use firefork_ai.Snapshot.Store.Paths.{
  file_name, base-mem_file_key_for, text_eq-join, inserted, inserted_there, deleted,
}

-- No call fails.
abbrev pub never : Call → Bool
never x = false

module _ (c : Codec) (s : Storage) (verify : Bool) (dest : Text) (q : Shape) (opt : SaveOptions)
    (uploaded state raw : Text) where
  abbrev man : Bool → Manifest
  man z = new_manifest c s q opt z uploaded state

  abbrev mem_path : Text
  mem_path = join dest (codes "memfile.bin")

  abbrev disk_state : Text
  disk_state = join dest (codes "state.bin")

  -- The result names the two files, which have the contents that were saved.
  abbrev pub IsLoaded : Bool → s.Bucket × Files × Result Error (LocalPaths × Manifest) → Type 0
  IsLoaded z t =
      (t.2 ≡ ok (record { mem_file = mem_path; state = disk_state }, man z))
      × (lookup mem_path t.1 ≡ some raw)
      × (lookup disk_state t.1 ≡ some state)

  sha_at-ok :
      (path t : Text) (d : Files) (e : Error)
      → lookup path d ≡ some t
      → sha_at c s never verify dest path d (c.sha t) e ≡ ok tt
  unfolding sha_at
  sha_at-ok path t d e f =
      ap
        (λ o. elim o [
          | none ↦ err open_failed
          | some y ↦ fail_if (not (text_eq (c.sha y) (c.sha t))) e
        ])
        f
      ∙ ap (λ x. fail_if (not x) e) (text_eq_refl (c.sha t))

  check_state-ok :
      (z : Bool) (d : Files)
      → lookup disk_state d ≡ some state
      → check_state c s never verify dest (man z) d ≡ ok tt
  unfolding check_state state_path new_manifest
  check_state-ok z d f = elim (Bool-cases verify) [
    | inl v ↦
        ap
          (λ x.
            if x
            then sha_at c s never verify dest disk_state d (c.sha state) state_sha_mismatch
            else ok tt)
          v
        ∙ sha_at-ok disk_state state d state_sha_mismatch f
    | inr v ↦
        ap
          (λ x.
            if x
            then sha_at c s never verify dest disk_state d (c.sha state) state_sha_mismatch
            else ok tt)
          v
  ]

  finished-IsLoaded :
      (z : Bool) (b : s.Bucket) (d : Files)
      → lookup mem_path d ≡ some raw
      → lookup disk_state d ≡ some state
      → IsLoaded z (
          finished c s never verify dest
            (man z)
            mem_path
            b
            d
            (check_state c s never verify dest (man z) d))
  unfolding finished state_path
  finished-IsLoaded z b d f g =
      subst (λ r. IsLoaded z (finished c s never verify dest (man z) mem_path b d r))
        (sym (check_state-ok z d g)) (refl, f, g)

  check_memfile-ok :
      (z : Bool) (path : Text) (d : Files)
      → is_empty (c.sha uploaded) ≡ false
      → lookup path d ≡ some uploaded
      → check_memfile c s never verify dest (man z) path d ≡ ok tt
  unfolding check_memfile new_manifest
  check_memfile-ok z path d n f = elim (Bool-cases verify) [
    | inl v ↦ rw (v, n, check_memfile) (sha_at-ok path uploaded d memfile_sha_mismatch f)
    | inr v ↦ rw (v, check_memfile) refl
  ]

  -- What unpacking the artifact relies on.
  abbrev pub Unpacks : Bool → Type 0
  Unpacks true =
      (c.unzip uploaded ≡ (raw, false))
      × (max_raw (man true) < max_int64)
      × (length raw ≤ max_raw (man true))
  Unpacks false = uploaded ≡ raw

  abbrev zst_path : Text
  zst_path = join dest (codes "memfile.zst")

  unpacked-IsLoaded :
      (b : s.Bucket) (d : Files)
      → lookup disk_state d ≡ some state
      → IsLoaded true (
          unpacked c s never verify dest
            (man true)
            zst_path
            mem_path
            b
            (insert mem_path raw (insert mem_path [] d), none))
  unfolding unpacked text_eq
  unpacked-IsLoaded b d g =
      let n = text_eq-join dest (codes "memfile.bin") (codes "state.bin") in
      finished-IsLoaded true b (delete zst_path (insert mem_path raw (insert mem_path [] d)))
        (deleted zst_path mem_path (some raw) (insert mem_path raw (insert mem_path [] d))
          (text_eq-join dest (codes "memfile.zst") (codes "memfile.bin"))
          (inserted_there mem_path raw (insert mem_path [] d)))
        (deleted zst_path disk_state (some state) (insert mem_path raw (insert mem_path [] d))
          (text_eq-join dest (codes "memfile.zst") (codes "state.bin"))
          (inserted mem_path disk_state raw (some state) (insert mem_path [] d) n
            (inserted mem_path disk_state [] (some state) d n g)))

  unpack-IsLoaded :
      (z : Bool) (b : s.Bucket) (d : Files)
      → Unpacks z
      → lookup (join dest (file_name z)) d ≡ some uploaded
      → lookup disk_state d ≡ some state
      → IsLoaded z (unpack c s never verify dest (man z) (join dest (file_name z)) b d)
  unfolding unpack new_manifest text_eq
  unpack-IsLoaded false b d u f g = finished-IsLoaded false b d (f ∙ ap some u) g
  unpack-IsLoaded true b d (u, v, l) f g =
      subst (λ p. IsLoaded true (unpacked c s never verify dest (man true) zst_path mem_path b p))
        (sym (
          decompress_file_bounded-raw c.unzip (max_raw (man true)) zst_path mem_path uploaded raw v
            u l d (text_eq-join dest (codes "memfile.bin") (codes "memfile.zst")) f))
        (unpacked-IsLoaded b d g)

  checked-IsLoaded :
      (z : Bool) (b : s.Bucket) (d : Files) (r : Result Error (Unit {0}))
      → r ≡ ok tt
      → IsLoaded z (unpack c s never verify dest (man z) (join dest (file_name z)) b d)
      → IsLoaded z (checked c s never verify dest (man z) (join dest (file_name z)) b d r)
  unfolding checked
  checked-IsLoaded z b d (err e) h k = absurd (ground arith)
  checked-IsLoaded z b d (ok t) h k = k

  file_differs : (z : Bool) → text_eq (join dest (file_name z)) disk_state ≡ false
  unfolding text_eq
  file_differs true = text_eq-join dest (codes "memfile.zst") (codes "state.bin")
  file_differs false = text_eq-join dest (codes "memfile.bin") (codes "state.bin")

  module _ (z : Bool) (n : is_empty (c.sha uploaded) ≡ false) (u : Unpacks z) where
    got_memfile-IsLoaded :
        (d : Files) (p : s.Bucket × Result Storage.Error Text)
        → p.1 ≡ ok uploaded
        → lookup disk_state d ≡ some state
        → IsLoaded z (got_memfile c s never verify dest (man z) (join dest (file_name z)) d p)
    unfolding got_memfile
    got_memfile-IsLoaded d (b, err e) h g = absurd (ground arith)
    got_memfile-IsLoaded d (b, ok t) h g =
        let path = join dest (file_name z) in
        let d' = insert path t d in
        let there : lookup path d' ≡ some uploaded = inserted_there path t d ∙ ground arith in
        checked-IsLoaded z b d' _ (check_memfile-ok z path d' n there) (
          unpack-IsLoaded z b d' u there
            (inserted path disk_state t (some state) d (file_differs z) g))

    fetch_answers :
        (k : Text) (b : s.Bucket)
        → s.contents k b ≡ some uploaded
        → (fetch c s never verify dest false k b).1 ≡ ok uploaded
    unfolding fetch
    fetch_answers k b h = elim (Option-cases s.parallel) [
      | inl p ↦ rw (p, fetch) (s.get_answers k uploaded b h)
      | inr (d, p) ↦ rw (p, fetch) (s.parallel_answers d p k uploaded b h)
    ]

    download_memfile-IsLoaded :
        (b : s.Bucket) (d : Files)
        → s.contents (mem_file_key_for q.name q.version z) b ≡ some uploaded
        → lookup disk_state d ≡ some state
        → IsLoaded z (download_memfile c s never verify dest (man z) b d)
    unfolding download_memfile new_manifest
    download_memfile-IsLoaded b d h g =
        subst
          (λ f. IsLoaded z (
            got_memfile c s never verify dest (man z) (join dest f) (insert (join dest f) [] d)
              (fetch c s never verify dest false (mem_file_key_for q.name q.version z) b)))
          (sym (base-mem_file_key_for q.name q.version z))
          (got_memfile-IsLoaded (insert (join dest (file_name z)) [] d) _ (fetch_answers _ b h)
            (inserted _ disk_state [] (some state) d (file_differs z) g))

    got_state-IsLoaded :
        (d : Files) (p : s.Bucket × Result Storage.Error Text)
        → p.1 ≡ ok state
        → s.contents (mem_file_key_for q.name q.version z) p.0 ≡ some uploaded
        → IsLoaded z (got_state c s never verify dest (man z) d p)
    unfolding got_state state_path
    got_state-IsLoaded d (b, err e) h k = absurd (ground arith)
    got_state-IsLoaded d (b, ok t) h k =
        download_memfile-IsLoaded b (insert disk_state t d) k
          (inserted_there disk_state t d ∙ ground arith)

    read_manifest-IsLoaded :
        (b : s.Bucket) (d : Files) (r : Result Manifest.Error Manifest)
        → r ≡ ok (man z)
        → s.contents (state_key q.name q.version) b ≡ some state
        → s.contents (mem_file_key_for q.name q.version z) b ≡ some uploaded
        → IsLoaded z (read_manifest c s never verify dest b d r)
    unfolding read_manifest new_manifest
    read_manifest-IsLoaded b d r h k l =
        subst (λ x. IsLoaded z (read_manifest c s never verify dest b d x)) (sym h)
          (got_state-IsLoaded d _ (s.get_answers _ _ b k) (s.get_keeps _ _ _ b ∙ l))

    got_manifest-IsLoaded :
        (d : Files) (buf : Text) (p : s.Bucket × Result Storage.Error Text)
        → p.1 ≡ ok buf
        → c.decode buf ≡ some (man z)
        → s.contents (state_key q.name q.version) p.0 ≡ some state
        → s.contents (mem_file_key_for q.name q.version z) p.0 ≡ some uploaded
        → IsLoaded z (got_manifest c s never verify dest d p)
    unfolding got_manifest new_manifest
    got_manifest-IsLoaded d buf (b, err e) h x k l = absurd (ground arith)
    got_manifest-IsLoaded d buf (b, ok t) h x k l =
        read_manifest-IsLoaded b d _
          (unmarshal_manifest_current c.decode t (man z) (ap c.decode (ground arith) ∙ x) refl) k l

    -- `Load` of a bundle in the store, when no call fails.
    pub load-IsLoaded :
        (b : s.Bucket) (d : Files)
        → Saved c s q (man z) uploaded state b
        → ((buf : Text) → c.encode (man z) ≡ some buf → c.decode buf ≡ some (man z))
        → IsLoaded z (load c s never verify dest q.name q.version b d)
    unfolding load new_manifest
    load-IsLoaded b d v undo =
        got_manifest-IsLoaded d v.buf _ (s.get_answers _ _ b v.manifest_there)
          (undo v.buf v.encoded) (s.get_keeps _ _ _ b ∙ v.state_there)
          (s.get_keeps _ _ _ b ∙ v.mem_there)
