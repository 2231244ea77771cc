-- ===== src/Snapshot/Manifest.antt =====
-- internal/snapshot/manifest.go and compress.go: the manifest of a bundle, the keys of its objects, and
-- decompression with a bound. `decode` stands for `yaml.Unmarshal`, `unzip` for the zstd reader: the
-- bytes that it gives, and whether it ends in an error.
pub mod Keys
pub mod Bound
use firefork_ai.Prelude.{
  ℕ, suc, ◌+◌, ◌*◌, ◌^◌, ◌%◌, Bool, true, false, ◌&&◌, List, [], ◌∷◌, ◌++◌, Option, none, some,
  if◌then◌else◌, ltb, Result, ok, err, length, take,
}
use firefork_ai.Prelude.Word.{lt64}
use firefork_ai.Prelude.Text.{Text, codes}
use firefork_ai.Prelude.Table.{lookup, insert}

pub record Manifest : Type 0 where
  pub schema_version : ℕ
  pub name : Text
  pub version : Text
  pub created_at : ℕ
  pub vcpus : ℕ
  pub mem_mib : ℕ
  pub kernel_version : Text
  pub mem_file_key : Text
  pub mem_file_size : ℕ
  pub mem_file_sha256 : Text
  pub mem_file_compression : Text
  pub state_key_of : Text
  pub state_size : ℕ
  pub state_sha256 : Text
  pub notes : Text

pub data Error : Type 0 where
  parse_failed schema_too_new negative_bound open_failed create_failed decoder_failed
        decompress_failed decompress_overflow :
      Error

abbrev pub current_manifest_schema_version : ℕ
current_manifest_schema_version = 1

unfoldable pub manifest_key : Text → Text → Text
manifest_key name version = name ++ codes "/" ++ version ++ codes "/manifest.yaml"

unfoldable pub mem_file_key_for : Text → Text → Bool → Text
mem_file_key_for name version compressed =
    if compressed
    then name ++ codes "/" ++ version ++ codes "/memfile.zst"
    else name ++ codes "/" ++ version ++ codes "/memfile.bin"

unfoldable pub state_key : Text → Text → Text
state_key name version = name ++ codes "/" ++ version ++ codes "/state.bin"

check_schema : Option Manifest → Result Error Manifest
check_schema none = err parse_failed
check_schema (some m) =
    if lt64 current_manifest_schema_version m.schema_version then err schema_too_new else ok m

unfoldable pub unmarshal_manifest : (Text → Option Manifest) → Text → Result Error Manifest
unfolding check_schema
unmarshal_manifest decode b = check_schema (decode b)

-- 64 MiB
abbrev pub decompress_slack_bytes : ℕ
decompress_slack_bytes = 67108864

-- math.MaxInt64
abbrev pub max_int64 : ℕ
max_int64 = 9223372036854775807

-- What `io.Copy` from the limited reader writes, and the error. `max` is not negative.
unfoldable pub copy_bounded : ℕ → Text × Bool → Text × Option Error
copy_bounded max (out, bad) =
    let probe = if ltb max max_int64 then suc max else max in
    let written = take probe out in
    (
      written,
      if ltb (length out) probe && bad
          then some decompress_failed
          else if ltb max (length written)
          then some decompress_overflow
          else none,
    )

abbrev pub Files : Type 0
Files = List (Text × Text)

-- `os.Create` truncates the destination before the source is read, which matters if they are the same.
copy_opened : (Text → Text × Bool) → ℕ → Text → Text → Files → Option Text → Files × Option Error
copy_opened unzip max src dst d none = (d, some open_failed)
copy_opened unzip max src dst d (some z) =
    let (written, e) = copy_bounded max (unzip z) in (insert dst written d, e)

created : (Text → Text × Bool) → ℕ → Text → Text → Bool → Files → Option Text → Files × Option Error
unfolding copy_opened
created unzip max src dst made d none = (d, some open_failed)
created unzip max src dst made d (some z) =
    if made
    then (let d' = insert dst [] d in copy_opened unzip max src dst d' (lookup src d'))
    else (d, some create_failed)

-- `DecompressFileBounded`; `made` says whether `os.Create` succeeds.
unfoldable pub decompress_file_bounded :
    (Text → Text × Bool) → Text → Text → ℕ → Bool → Files → Files × Option Error
unfolding created
decompress_file_bounded unzip src dst max made d =
    if lt64 max 0 then (d, some negative_bound) else created unzip max src dst made d (lookup src d)

-- `DecompressFile`
unfoldable pub decompress_file :
    (Text → Text × Bool) → Text → Text → Bool → Files → Files × Option Error
decompress_file unzip src dst made d = decompress_file_bounded unzip src dst max_int64 made d
