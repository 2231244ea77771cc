-- ===== src/Snapshot/Store/Verified.antt =====
-- `Load` with the check of hashes, on a store that anyone may have written to.
use firefork_ai.Prelude.{
  ◌≡◌, refl, ap, sym, ◌∙◌, subst, Bool, true, false, not, [], Option, none, some, if◌then◌else◌,
  Result, ok, err, Option-cases, Bool-cases, inl, inr, arith,
}
use firefork_ai.Prelude.Text.{Text, codes, text_eq, text_eq_iff, is_empty}
use firefork_ai.Prelude.Table.{lookup, insert, lookup-insert, delete}
use firefork_ai.Storage
use firefork_ai.Storage.{Storage}
use firefork_ai.Snapshot.Manifest
use firefork_ai.Snapshot.Manifest.{
  Manifest, Files, manifest_key, unmarshal_manifest, decompress_file_bounded,
}
use firefork_ai.Snapshot.Store.{
  Codec, LocalPaths, Error, memfile_sha_mismatch, state_sha_mismatch, Call, creating_raw,
  making_dir, getting_manifest, writing_state, creating_memfile, getting_memfile, create_failed,
  write_failed, mkdir_failed,
}
use firefork_ai.Snapshot.Store.Load.{
  fetch, base, join, max_raw, state_path, sha_at, check_memfile, check_state, finished, unpacked,
  unpack, checked, got_memfile, download_memfile, got_state, read_manifest, got_manifest, load,
}

module _ (c : Codec) (s : Storage) (fails : Call → Bool) (dest : Text) where
  -- The file has this hash.
  abbrev pub HasSha : Text → Text → Files → Type 0
  HasSha path sha d = (t : Text) × (lookup path d ≡ some t) × (c.sha t ≡ sha)

  sha_at-HasSha :
      (path : Text) (d : Files) (sha : Text) (e : Error)
      → sha_at c s fails true dest path d sha e ≡ ok tt
      → HasSha path sha d
  unfolding sha_at
  sha_at-HasSha path d sha e h = elim (Option-cases (lookup path d)) [
    | inl f ↦ absurd (ground arith)
    | inr (t, f) ↦ elim (Bool-cases (text_eq (c.sha t) sha)) [
      | inl x ↦ (t, f, (text_eq_iff (c.sha t) sha).0 x)
      | inr x ↦ absurd (ground arith)
    ]
  ]

  -- What a successful result guarantees of the bucket `b` that was read.
  abbrev pub IsVerified :
      s.Bucket
      → LocalPaths
      → Manifest
      → s.Bucket × Files × Result Error (LocalPaths × Manifest)
      → Type 0
  IsVerified b p m t =
      t.2 ≡ ok (p, m)
      → HasSha p.state m.state_sha256 t.1
        × ((z : Text) × (s.contents m.mem_file_key b ≡ some z) × (c.sha z ≡ m.mem_file_sha256))

  module _ (b₀ : s.Bucket) (p : LocalPaths) (m : Manifest) where
    -- The memory file of a manifest in the bucket has its hash.
    abbrev MemVerified : Manifest → Type 0
    MemVerified n =
        (z : Text) × (s.contents n.mem_file_key b₀ ≡ some z) × (c.sha z ≡ n.mem_file_sha256)

    finished-IsVerified :
        (n : Manifest) (path : Text) (b : s.Bucket) (d : Files) (r : Result Error (Unit {0}))
        → check_state c s fails true dest n d ≡ r
        → MemVerified n
        → IsVerified b₀ p m (finished c s fails true dest n path b d r)
    unfolding finished check_state state_path
    finished-IsVerified n path b d (err e) f v h = absurd (ground arith)
    finished-IsVerified n path b d (ok tt) f v h =
        let same : n ≡ m = ground arith in
        let state : join dest (codes "state.bin") ≡ p.state = ground arith in
        (
          subst (λ k. HasSha p.state k.state_sha256 d) same
              (subst (λ x. HasSha x n.state_sha256 d) state
                (sha_at-HasSha (join dest (codes "state.bin")) d n.state_sha256 state_sha_mismatch
                  f)),
          subst MemVerified same v,
        )

    unpacked-IsVerified :
        (n : Manifest) (path raw : Text) (b : s.Bucket) (r : Files × Option Manifest.Error)
        → MemVerified n
        → IsVerified b₀ p m (unpacked c s fails true dest n path raw b r)
    unfolding unpacked
    unpacked-IsVerified n path raw b (d, some e) v h = absurd (ground arith)
    unpacked-IsVerified n path raw b (d, none) v h =
        finished-IsVerified n raw b (delete path d) _ refl v h

    either :
        (x : Bool) (t u : s.Bucket × Files × Result Error (LocalPaths × Manifest))
        → IsVerified b₀ p m t
        → IsVerified b₀ p m u
        → IsVerified b₀ p m (if x then t else u)
    either true t u v w = v
    either false t u v w = w

    unpack-IsVerified :
        (n : Manifest) (path : Text) (b : s.Bucket) (d : Files)
        → MemVerified n
        → IsVerified b₀ p m (unpack c s fails true dest n path b d)
    unfolding unpack
    unpack-IsVerified n path b d v =
        either (text_eq n.mem_file_compression (codes "zstd"))
          (unpacked c s fails true dest n path (join dest (codes "memfile.bin")) b (
            decompress_file_bounded c.unzip path (join dest (codes "memfile.bin")) (max_raw n)
              (not (fails creating_raw)) d))
          (finished c s fails true dest n path b d (check_state c s fails true dest n d))
          (unpacked-IsVerified n path (join dest (codes "memfile.bin")) b _ v)
          (finished-IsVerified n path b d _ refl v)

    memfile_checked :
        (n : Manifest) (path t : Text) (d : Files)
        → check_memfile c s fails true dest n path (insert path t d) ≡ ok tt
        → c.sha t ≡ n.mem_file_sha256
    unfolding check_memfile
    memfile_checked n path t d h = elim (Bool-cases (is_empty n.mem_file_sha256)) [
      | inl x ↦ absurd (ground arith)
      | inr x ↦
          let (y, e, f) =
            sha_at-HasSha path (insert path t d) n.mem_file_sha256 memfile_sha_mismatch
              (ground (arith, h)) in
          let same : t ≡ y = ground (arith, lookup-insert path path t d, text_eq_iff path path) in
          ap c.sha same ∙ f
    ]

    checked-IsVerified :
        (n : Manifest) (path t : Text) (b : s.Bucket) (d : Files) (r : Result Error (Unit {0}))
        → check_memfile c s fails true dest n path (insert path t d) ≡ r
        → s.contents n.mem_file_key b₀ ≡ some t
        → IsVerified b₀ p m (checked c s fails true dest n path b (insert path t d) r)
    unfolding checked
    checked-IsVerified n path t b d (err e) f k h = absurd (ground arith)
    checked-IsVerified n path t b d (ok tt) f k h =
        unpack-IsVerified n path b (insert path t d) (t, k, memfile_checked n path t d f) h

    got_memfile-IsVerified :
        (n : Manifest) (path : Text) (d : Files) (g : s.Bucket × Result Storage.Error Text)
        → ((t : Text) → g.1 ≡ ok t → s.contents n.mem_file_key b₀ ≡ some t)
        → IsVerified b₀ p m (got_memfile c s fails true dest n path d g)
    unfolding got_memfile
    got_memfile-IsVerified n path d (b, err e) k h = absurd (ground arith)
    got_memfile-IsVerified n path d (b, ok t) k h =
        checked-IsVerified n path t b d _ refl (k t refl) h

    fetch_reads :
        (f : Bool) (k t : Text) (b : s.Bucket)
        → (fetch c s fails true dest f k b).1 ≡ ok t
        → s.contents k b ≡ some t
    unfolding fetch
    fetch_reads f k t b h = elim (Option-cases s.parallel) [
      | inl q ↦ s.get_reads f k t b (rw (q, fetch) at h)
      | inr (g, q) ↦ s.parallel_reads g q f k t b (rw (q, fetch) at h)
    ]

    -- The bucket has the contents of the first one.
    abbrev SameAs : s.Bucket → Type 0
    SameAs b = (k : Text) → s.contents k b ≡ s.contents k b₀

    refused : (b : s.Bucket) (d : Files) (e : Error) → IsVerified b₀ p m (b, d, err e)
    refused b d e h = absurd (ground arith)

    download_memfile-IsVerified :
        (n : Manifest) (b : s.Bucket) (d : Files)
        → SameAs b
        → IsVerified b₀ p m (download_memfile c s fails true dest n b d)
    unfolding download_memfile
    download_memfile-IsVerified n b d k =
        let path = join dest (base n.mem_file_key) in
        either (fails creating_memfile) _
          (got_memfile c s fails true dest n path (insert path [] d)
            (fetch c s fails true dest (fails getting_memfile) n.mem_file_key b))
          (refused b d create_failed)
          (got_memfile-IsVerified n path (insert path [] d) _ (λ t e.
            sym (k n.mem_file_key) ∙ fetch_reads (fails getting_memfile) n.mem_file_key t b e))

    got_state-IsVerified :
        (n : Manifest) (d : Files) (g : s.Bucket × Result Storage.Error Text)
        → SameAs g.0
        → IsVerified b₀ p m (got_state c s fails true dest n d g)
    unfolding got_state state_path
    got_state-IsVerified n d (b, err e) k = refused b d _
    got_state-IsVerified n d (b, ok t) k =
        let d' = insert (join dest (codes "state.bin")) t d in
        either (fails writing_state) _ (download_memfile c s fails true dest n b d')
          (refused b d write_failed) (download_memfile-IsVerified n b d' k)

    read_manifest-IsVerified :
        (b : s.Bucket) (d : Files) (r : Result Manifest.Error Manifest)
        → SameAs b
        → IsVerified b₀ p m (read_manifest c s fails true dest b d r)
    unfolding read_manifest
    read_manifest-IsVerified b d (err e) k h = absurd (ground arith)
    read_manifest-IsVerified b d (ok n) k h =
        got_state-IsVerified n d _ (λ j. s.get_keeps _ _ j b ∙ k j) h

    got_manifest-IsVerified :
        (d : Files) (g : s.Bucket × Result Storage.Error Text)
        → SameAs g.0
        → IsVerified b₀ p m (got_manifest c s fails true dest d g)
    unfolding got_manifest
    got_manifest-IsVerified d (b, err e) k h = absurd (ground arith)
    got_manifest-IsVerified d (b, ok t) k h = read_manifest-IsVerified b d _ k h

    load-IsVerified :
        (name version : Text) (d : Files)
        → IsVerified b₀ p m (load c s fails true dest name version b₀ d)
    unfolding load
    load-IsVerified name version d =
        either (fails making_dir) _
          (got_manifest c s fails true dest d
            (s.get (fails getting_manifest) (manifest_key name version) b₀))
          (refused b₀ d mkdir_failed) (got_manifest-IsVerified d _ (λ j. s.get_keeps _ _ j b₀))

    -- A `Load` with `VerifySha256` that succeeds, on any store whatever is in it and whichever calls
    -- fail, returns a state file with the hash that the returned manifest gives, and the object that
    -- was downloaded as the memory file has the manifest's hash too: altered bundles are refused.
    pub load-HasSha :
        (name version : Text) (d : Files)
        → (load c s fails true dest name version b₀ d).2 ≡ ok (p, m)
        → HasSha p.state m.state_sha256 (load c s fails true dest name version b₀ d).1
          × ((z : Text) × (s.contents m.mem_file_key b₀ ≡ some z) × (c.sha z ≡ m.mem_file_sha256))
    load-HasSha name version d h = load-IsVerified name version d h
