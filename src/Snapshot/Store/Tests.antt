-- ===== src/Snapshot/Store/Tests.antt =====
-- A bundle saved to the store in memory, compressed, and loaded from it.
use firefork_ai.Prelude.{
  ℕ, ◌≤◌, ◌<◌, ◌≡◌, refl, subst, Bool, true, false, [], ◌∷◌, none, some, ok, length, arith,
}
use firefork_ai.Prelude.Word.{add64, not_positive, lt64}
use firefork_ai.Prelude.Text.{Text, codes, text_eq}
use firefork_ai.Prelude.Table.{lookup, insert}
use firefork_ai.Storage.Mock.{MockStorage, data_at, mock_storage, put}
use firefork_ai.Snapshot.Manifest.{Manifest, Files, max_int64, mem_file_key_for, state_key}
use firefork_ai.Snapshot.Store.{
  Codec, Store, LocalPaths, SaveOptions, Shape, chosen_compression, chosen_level, artifact,
  new_manifest, save,
}
use firefork_ai.Snapshot.Store.Load.{join, max_raw, load}
use firefork_ai.Snapshot.Store.Loading.{never}
use firefork_ai.Snapshot.Store.Verified.{HasSha, load-HasSha}
use firefork_ai.Snapshot.Store.RoundTrip.{Undoes, IsRestored, load-save}

abbrev mem : Text
mem = codes "memory"

abbrev cpu : Text
cpu = codes "state"

abbrev shape : Shape
shape = record { name = codes "py"; version = codes "v1"; vcpus = 1; mem_mib = 1; created_at = 7 }

abbrev options : SaveOptions
options = record { notes = []; kernel_version = []; compress_memfile = none; compression_level = 0 }

abbrev store : Store
store = record { compress_memfile = true; compression_level = 3 }

-- The manifest that is expected: compression puts the level before the bytes, and a hash is the length
-- before the bytes.
abbrev expected : Manifest
expected = record {
  schema_version = 1;
  name = codes "py";
  version = codes "v1";
  created_at = 7;
  vcpus = 1;
  mem_mib = 1;
  kernel_version = [];
  mem_file_key = codes "py/v1/memfile.zst";
  mem_file_size = 7;
  mem_file_sha256 = 7 ∷ 3 ∷ mem;
  mem_file_compression = codes "zstd";
  state_key_of = codes "py/v1/state.bin";
  state_size = 5;
  state_sha256 = 5 ∷ cpu;
  notes = [];
}

abbrev unzip : Text → Text × Bool
unzip [] = ([], true)
unzip (level ∷ t) = (t, false)

abbrev codec : Codec
codec = record {
  encode = λ m. some (m.vcpus ∷ m.mem_mib ∷ []);
  decode = λ t. some expected;
  sha = λ t. length t ∷ t;
  zip = λ level t. some (level ∷ t);
  unzip = unzip;
}

abbrev loaded_paths : LocalPaths
loaded_paths = record {
  mem_file = join (codes "/d") (codes "memfile.bin");
  state = join (codes "/d") (codes "state.bin");
}

abbrev local : LocalPaths
local = record { mem_file = codes "/m"; state = codes "/s" }

abbrev files : Files
files = (codes "/m", mem) ∷ (codes "/s", cpu) ∷ []

abbrev empty : MockStorage
empty = record { latency = 0; data_of = []; gets = 0; puts = 0; bytes_served = 0 }

saved : (save codec mock_storage never store shape options local files empty).1 ≡ ok expected
unfolding save put lookup insert text_eq add64 chosen_compression chosen_level not_positive lt64
    artifact new_manifest mem_file_key_for state_key
saved = refl

unzips : (level : ℕ) (raw z : Text) → some (level ∷ raw) ≡ some z → unzip z ≡ (raw, false)
unzips level raw [] e = absurd (ground arith)
unzips level raw (l ∷ t) e = ground arith

codec-Undoes : Undoes codec expected
codec-Undoes = record { decodes = λ buf e. refl; unzips = unzips; hashes = λ t. refl }

fits : (raw : Text) → lookup (codes "/m") files ≡ some raw → length raw ≤ max_raw expected
unfolding lookup text_eq max_raw add64
fits raw e =
    let same : mem ≡ raw = ground arith in
    subst (λ t. length t ≤ max_raw expected) same (omega arith)

below : max_raw expected < max_int64
unfolding max_raw add64
below = omega arith

load-save_example :
    IsRestored codec mock_storage never store shape options local files empty expected true
      (codes "/d")
      []
      (load codec mock_storage never true
        (codes "/d")
        (codes "py")
        (codes "v1")
        (save codec mock_storage never store shape options local files empty).0
        [])
load-save_example =
    load-save codec mock_storage never store shape options local files empty expected true
      (codes "/d") [] saved codec-Undoes (λ e. (below, fits))

abbrev bucket : MockStorage
bucket = (save codec mock_storage never store shape options local files empty).0

loaded :
    (load codec mock_storage never true (codes "/d") (codes "py") (codes "v1") bucket []).2
    ≡ ok (loaded_paths, expected)
loaded =
    (load-save codec mock_storage never store shape options local files empty expected true
      (codes "/d") [] saved codec-Undoes (λ e. (below, fits))).0

load-HasSha_example :
    HasSha codec mock_storage never
      (codes "/d")
      loaded_paths.state
      expected.state_sha256
      (load codec mock_storage never true (codes "/d") (codes "py") (codes "v1") bucket []).1
    × ((z : Text) × (data_at (codes "py/v1/memfile.zst") bucket ≡ some z)
        × (length z ∷ z ≡ expected.mem_file_sha256))
load-HasSha_example =
    load-HasSha codec mock_storage never (codes "/d") bucket loaded_paths expected (codes "py")
      (codes "v1") [] loaded
