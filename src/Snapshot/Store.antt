-- ===== src/Snapshot/Store.antt =====
-- internal/snapshot/store.go: bundles saved to a store of objects; `Load` is in the child. The codecs
-- are those of YAML, zstd and SHA-256; a directory is a prefix of a path, and the local files are a
-- table.
pub mod Load
pub mod Saving
pub mod Paths
pub mod Loading
pub mod RoundTrip
pub mod Verified
mod Tests
use firefork_ai.Prelude.{
  ℕ, ◌+◌, ◌*◌, ◌%◌, Bool, true, false, not, ◌||◌, ◌&&◌, List, [], ◌∷◌, ◌++◌, Option, none, some,
  if◌then◌else◌, ◌==◌, Result, ok, err, ◌>>=◌, ◌>>◌, fail_if, or_fail, length,
}
use firefork_ai.Prelude.Word.{word_mod, add64, not_positive}
use firefork_ai.Prelude.Text.{Text, codes, text_eq, is_empty}
use firefork_ai.Prelude.Table.{lookup, insert, delete}
use firefork_ai.Storage
use firefork_ai.Storage.{Storage}
use firefork_ai.Snapshot.Manifest
use firefork_ai.Snapshot.Manifest.{
  Manifest, Files, current_manifest_schema_version, manifest_key, mem_file_key_for, state_key,
  unmarshal_manifest, decompress_slack_bytes, decompress_file_bounded,
}

-- `sha` is the hexadecimal SHA-256, `zip` compression at a level, if it succeeds.
pub record Codec : Type 0 where
  pub encode : Manifest → Option Text
  pub decode : Text → Option Manifest
  pub sha : Text → Text
  pub zip : ℕ → Text → Option Text
  pub unzip : Text → Text × Bool

pub record Store : Type 0 where
  pub compress_memfile : Bool
  pub compression_level : ℕ

pub record LocalPaths : Type 0 where
  pub mem_file : Text
  pub state : Text

pub record SaveOptions : Type 0 where
  pub notes : Text
  pub kernel_version : Text
  pub compress_memfile : Option Bool
  pub compression_level : ℕ

pub data Error : Type 0 where
  name_and_version_required paths_required open_failed compress_failed marshal_failed mkdir_failed
        write_failed create_failed sha_missing memfile_sha_mismatch state_sha_mismatch :
      Error
  storage_failed : Storage.Error → Error
  manifest_failed : Manifest.Error → Error

-- What is named in a request for `Save`, besides the files.
pub record Shape : Type 0 where
  pub name : Text
  pub version : Text
  pub vcpus : ℕ
  pub mem_mib : ℕ
  pub created_at : ℕ

unfoldable pub chosen_compression : Store → SaveOptions → Bool
chosen_compression st opt = elim opt.compress_memfile [ none ↦ st.compress_memfile | some b ↦ b ]

unfoldable pub chosen_level : Store → SaveOptions → ℕ
chosen_level st opt =
    if not_positive opt.compression_level then st.compression_level else opt.compression_level

-- The calls of `Save` and `Load` that can fail for reasons outside the model.
pub data Call : Type 0 where
  putting_state putting_memfile putting_manifest getting_manifest getting_state getting_memfile
        making_dir writing_state creating_memfile creating_raw :
      Call

module _ (c : Codec) (s : Storage) where
  -- The artifact that is uploaded.
  unfoldable pub artifact : Bool → ℕ → Text → Result Error Text
  artifact compressed level raw =
      if compressed then or_fail (c.zip level raw) compress_failed else ok raw

  unfoldable pub new_manifest : Shape → SaveOptions → Bool → Text → Text → Manifest
  new_manifest q opt compressed uploaded state = record {
    schema_version = current_manifest_schema_version;
    name = q.name;
    version = q.version;
    created_at = q.created_at;
    vcpus = q.vcpus;
    mem_mib = q.mem_mib;
    kernel_version = opt.kernel_version;
    mem_file_key = mem_file_key_for q.name q.version compressed;
    mem_file_size = length uploaded;
    mem_file_sha256 = c.sha uploaded;
    mem_file_compression = if compressed then codes "zstd" else [];
    state_key_of = state_key q.name q.version;
    state_size = length state;
    state_sha256 = c.sha state;
    notes = opt.notes;
  }

  manifest_put :
      Manifest → s.Bucket × Result Storage.Error (Unit {0}) → s.Bucket × Result Error Manifest
  manifest_put m (b, err e) = (b, err (storage_failed e))
  manifest_put m (b, ok _) = (b, ok m)

  put_manifest :
      (Call → Bool) → Manifest → s.Bucket → Option Text → s.Bucket × Result Error Manifest
  unfolding manifest_put
  put_manifest fails m b none = (b, err marshal_failed)
  put_manifest fails m b (some buf) =
      manifest_put m (s.put (fails putting_manifest) (manifest_key m.name m.version) buf b)

  memfile_put :
      (Call → Bool)
      → Manifest
      → s.Bucket × Result Storage.Error (Unit {0})
      → s.Bucket × Result Error Manifest
  unfolding put_manifest
  memfile_put fails m (b, err e) = (b, err (storage_failed e))
  memfile_put fails m (b, ok _) = put_manifest fails m b (c.encode m)

  put_memfile :
      (Call → Bool)
      → Shape
      → SaveOptions
      → Bool
      → Text
      → s.Bucket
      → Result Error Text
      → s.Bucket × Result Error Manifest
  unfolding memfile_put
  put_memfile fails q opt compressed state b (err e) = (b, err e)
  put_memfile fails q opt compressed state b (ok uploaded) =
      memfile_put fails (new_manifest q opt compressed uploaded state)
        (s.put (fails putting_memfile) (mem_file_key_for q.name q.version compressed) uploaded b)

  open_memfile :
      (Call → Bool)
      → Shape
      → SaveOptions
      → Bool
      → ℕ
      → Text
      → Option Text
      → s.Bucket
      → s.Bucket × Result Error Manifest
  unfolding put_memfile
  open_memfile fails q opt compressed level state none b = (b, err open_failed)
  open_memfile fails q opt compressed level state (some raw) b =
      put_memfile fails q opt compressed state b (artifact compressed level raw)

  state_put :
      (Call → Bool)
      → Shape
      → SaveOptions
      → Bool
      → ℕ
      → Text
      → Option Text
      → s.Bucket × Result Storage.Error (Unit {0})
      → s.Bucket × Result Error Manifest
  unfolding open_memfile
  state_put fails q opt compressed level state mem (b, err e) = (b, err (storage_failed e))
  state_put fails q opt compressed level state mem (b, ok _) =
      open_memfile fails q opt compressed level state mem b

  put_state :
      (Call → Bool)
      → Store
      → Shape
      → SaveOptions
      → Option Text
      → Option Text
      → s.Bucket
      → s.Bucket × Result Error Manifest
  unfolding state_put
  put_state fails st q opt none mem b = (b, err open_failed)
  put_state fails st q opt (some state) mem b =
      state_put fails q opt (chosen_compression st opt) (chosen_level st opt) state mem
        (s.put (fails putting_state) (state_key q.name q.version) state b)

  check_save : Shape → LocalPaths → Result Error (Unit {0})
  check_save q local = do
    fail_if (is_empty q.name || is_empty q.version) name_and_version_required
    fail_if (is_empty local.mem_file || is_empty local.state) paths_required
    ok tt

  save_checked :
      (Call → Bool)
      → Store
      → Shape
      → SaveOptions
      → LocalPaths
      → Files
      → s.Bucket
      → Result Error (Unit {0})
      → s.Bucket × Result Error Manifest
  unfolding put_state
  save_checked fails st q opt local files b (err e) = (b, err e)
  save_checked fails st q opt local files b (ok _) =
      put_state fails st q opt (lookup local.state files) (lookup local.mem_file files) b

  -- `Save`; `files` are the local files, which do not change meanwhile.
  unfoldable pub save :
      (Call → Bool)
      → Store
      → Shape
      → SaveOptions
      → LocalPaths
      → Files
      → s.Bucket
      → s.Bucket × Result Error Manifest
  unfolding save_checked check_save
  save fails st q opt local files b = save_checked fails st q opt local files b (check_save q local)
