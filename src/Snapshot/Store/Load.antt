-- ===== src/Snapshot/Store/Load.antt =====
-- internal/snapshot/store.go: `Load` and its download.
use firefork_ai.Prelude.{
  ℕ, ◌*◌, ◌%◌, Bool, not, ◌&&◌, [], ◌∷◌, ◌++◌, Option, none, some, if◌then◌else◌, ◌==◌, Result, ok,
  err, ◌>>◌, fail_if,
}
use firefork_ai.Prelude.Word.{word_mod, add64}
use firefork_ai.Prelude.Text.{Text, codes, text_eq, is_empty}
use firefork_ai.Prelude.Table.{lookup, insert, delete}
use firefork_ai.Storage
use firefork_ai.Storage.{Storage}
use firefork_ai.Snapshot.Manifest
use firefork_ai.Snapshot.Manifest.{
  Manifest, Files, current_manifest_schema_version, manifest_key, mem_file_key_for, state_key,
  unmarshal_manifest, decompress_slack_bytes, decompress_file_bounded,
}
use firefork_ai.Snapshot.Store.{
  Call, Codec, Error, LocalPaths, create_failed, creating_memfile, creating_raw, getting_manifest,
  getting_memfile, getting_state, making_dir, manifest_failed, memfile_sha_mismatch, mkdir_failed,
  open_failed, sha_missing, state_sha_mismatch, storage_failed, write_failed, writing_state,
}

-- `filepath.Base`: trailing slashes go, then all up to the last slash.
unfoldable pub strip_slashes : Text → Text
strip_slashes [] = []
strip_slashes (ch ∷ t) =
    let rest = strip_slashes t in if is_empty rest && ch == 47 then [] else ch ∷ rest

unfoldable pub after_slash : Text → Text → Text
after_slash acc [] = acc
after_slash acc (ch ∷ t) = if ch == 47 then after_slash t t else after_slash acc t

unfoldable pub base : Text → Text
unfolding strip_slashes after_slash
base t =
    if is_empty t
    then codes "."
    else if is_empty (strip_slashes t)
    then codes "/"
    else after_slash (strip_slashes t) (strip_slashes t)

-- `filepath.Join`, for a clean directory
unfoldable pub join : Text → Text → Text
join dir name = dir ++ codes "/" ++ name

-- The largest raw size for a manifest: `man.MemMiB*1024*1024 + DecompressSlackBytes`.
unfoldable pub max_raw : Manifest → ℕ
max_raw m = add64 ((m.mem_mib * 1048576) % word_mod) decompress_slack_bytes

module _ (c : Codec) (s : Storage) (fails : Call → Bool) (verify : Bool) (dest : Text) where
  unfoldable pub state_path : Text
  state_path = join dest (codes "state.bin")

  unfoldable pub sha_at : Text → Files → Text → Error → Result Error (Unit {0})
  sha_at path d want e = elim (lookup path d) [
    | none ↦ err open_failed
    | some t ↦ fail_if (not (text_eq (c.sha t) want)) e
  ]

  unfoldable pub check_memfile : Manifest → Text → Files → Result Error (Unit {0})
  unfolding sha_at
  check_memfile m path d =
      if verify
      then (do
        fail_if (is_empty m.mem_file_sha256) sha_missing
        sha_at path d m.mem_file_sha256 memfile_sha_mismatch)
      else ok tt

  unfoldable pub check_state : Manifest → Files → Result Error (Unit {0})
  unfolding sha_at state_path
  check_state m d = if verify then sha_at state_path d m.state_sha256 state_sha_mismatch else ok tt

  unfoldable pub finished :
      Manifest
      → Text
      → s.Bucket
      → Files
      → Result Error (Unit {0})
      → s.Bucket × Files × Result Error (LocalPaths × Manifest)
  unfolding state_path
  finished m path b d (err e) = (b, d, err e)
  finished m path b d (ok _) = (b, d, ok (record { mem_file = path; state = state_path }, m))

  unfoldable pub unpacked :
      Manifest
      → Text
      → Text
      → s.Bucket
      → Files × Option Manifest.Error
      → s.Bucket × Files × Result Error (LocalPaths × Manifest)
  unfolding finished check_state
  unpacked m path raw b (d, some e) = (b, d, err (manifest_failed e))
  unpacked m path raw b (d, none) = let d' = delete path d in finished m raw b d' (check_state m d')

  unfoldable pub unpack :
      Manifest → Text → s.Bucket → Files → s.Bucket × Files × Result Error (LocalPaths × Manifest)
  unfolding unpacked finished check_state
  unpack m path b d =
      let raw = join dest (codes "memfile.bin") in
      if text_eq m.mem_file_compression (codes "zstd")
      then unpacked m path raw b
          (decompress_file_bounded c.unzip path raw (max_raw m) (not (fails creating_raw)) d)
      else finished m path b d (check_state m d)

  unfoldable pub checked :
      Manifest
      → Text
      → s.Bucket
      → Files
      → Result Error (Unit {0})
      → s.Bucket × Files × Result Error (LocalPaths × Manifest)
  unfolding unpack
  checked m path b d (err e) = (b, d, err e)
  checked m path b d (ok _) = unpack m path b d

  unfoldable pub got_memfile :
      Manifest
      → Text
      → Files
      → s.Bucket × Result Storage.Error Text
      → s.Bucket × Files × Result Error (LocalPaths × Manifest)
  unfolding checked check_memfile
  got_memfile m path d (b, err e) = (b, d, err (storage_failed e))
  got_memfile m path d (b, ok t) =
      let d' = insert path t d in checked m path b d' (check_memfile m path d')

  -- `DownloadParallel` of an `*S3Storage`, the stream of `GetStream` otherwise
  unfoldable pub fetch : Bool → Text → s.Bucket → s.Bucket × Result Storage.Error Text
  fetch f key b = elim s.parallel [ none ↦ s.get f key b | some d ↦ (b, d f key b) ]

  unfoldable pub download_memfile :
      Manifest → s.Bucket → Files → s.Bucket × Files × Result Error (LocalPaths × Manifest)
  unfolding got_memfile fetch
  download_memfile m b d =
      let path = join dest (base m.mem_file_key) in
      if fails creating_memfile
      then (b, d, err create_failed)
      else got_memfile m path (insert path [] d) (fetch (fails getting_memfile) m.mem_file_key b)

  unfoldable pub got_state :
      Manifest
      → Files
      → s.Bucket × Result Storage.Error Text
      → s.Bucket × Files × Result Error (LocalPaths × Manifest)
  unfolding download_memfile state_path
  got_state m d (b, err e) = (b, d, err (storage_failed e))
  got_state m d (b, ok t) =
      if fails writing_state
      then (b, d, err write_failed)
      else download_memfile m b (insert state_path t d)

  unfoldable pub read_manifest :
      s.Bucket
      → Files
      → Result Manifest.Error Manifest
      → s.Bucket × Files × Result Error (LocalPaths × Manifest)
  unfolding got_state
  read_manifest b d (err e) = (b, d, err (manifest_failed e))
  read_manifest b d (ok m) = got_state m d (s.get (fails getting_state) m.state_key_of b)

  unfoldable pub got_manifest :
      Files
      → s.Bucket × Result Storage.Error Text
      → s.Bucket × Files × Result Error (LocalPaths × Manifest)
  unfolding read_manifest
  got_manifest d (b, err e) = (b, d, err (storage_failed e))
  got_manifest d (b, ok buf) = read_manifest b d (unmarshal_manifest c.decode buf)

  -- `Load`
  unfoldable pub load :
      Text → Text → s.Bucket → Files → s.Bucket × Files × Result Error (LocalPaths × Manifest)
  unfolding got_manifest
  load name version b d =
      if fails making_dir
      then (b, d, err mkdir_failed)
      else got_manifest d (s.get (fails getting_manifest) (manifest_key name version) b)
