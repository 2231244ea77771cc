-- ===== src/Storage/S3.antt =====
-- internal/storage/s3.go: the store over an S3 client. The client of the SDK is a parameter, with the
-- laws that the documentation of S3 gives for it; the transfer manager counts as that client.
mod Tests
use firefork_ai.Prelude.{
  ℕ, ◌+◌, ◌*◌, ◌%◌, ◌≡◌, refl, ap, sym, ◌∙◌, Bool, true, false, ◌&&◌, ◌||◌, not, List, Option, none,
  some, if◌then◌else◌, ◌==◌, Result, ok, err, ◌>>=◌, ◌>>◌, fail_if, any, [], ◌∷◌, ◌++◌, arith,
}
use firefork_ai.Prelude.Word.{add64, sub64, lt64, not_positive, word_mod}
use firefork_ai.Prelude.Text.{Text, codes, text_eq, text_eq_refl, is_empty}
use firefork_ai.Storage.{Error, key_not_found, request_failed, read_failed, no_length, Storage}

pub record S3Config : Type 0 where
  pub endpoint : Text
  pub region : Text
  pub bucket : Text
  pub access_key : Text
  pub secret_key : Text
  pub use_path_style : Bool
  pub multipart_part_size_mib : ℕ
  pub downloader_concurrency : ℕ
  pub max_retries : ℕ

pub data ConfigError : Type 0 where
  endpoint_required bucket_required load_failed : ConfigError

-- What the SDK's clients are made with; `credentials` are the static ones.
pub record Settings : Type 0 where
  pub base_endpoint : Text
  pub signing_region : Text
  pub path_style : Bool
  pub credentials : Option (Text × Text)
  pub max_attempts : ℕ
  pub part_size_bytes : ℕ
  pub concurrency : ℕ

unfoldable pub attempts : ℕ → ℕ
attempts n = if n == 0 then 5 else if lt64 n 0 then 1 else n

unfoldable pub settings : S3Config → Settings
unfolding attempts
settings c = record {
  base_endpoint = c.endpoint;
  signing_region = if is_empty c.region then codes "auto" else c.region;
  path_style = c.use_path_style;
  credentials =
      if not (is_empty c.access_key) && not (is_empty c.secret_key)
      then some (c.access_key, c.secret_key)
      else none;
  max_attempts = attempts c.max_retries;
  part_size_bytes =
      ((if not_positive c.multipart_part_size_mib then 8 else c.multipart_part_size_mib) * 1048576)
      % word_mod;
  concurrency = if not_positive c.downloader_concurrency then 8 else c.downloader_concurrency;
}

-- `NewS3Storage`: the settings and the bucket; `loads` says whether the SDK's configuration loads.
unfoldable pub new_s3_storage : Bool → S3Config → Result ConfigError (Settings × Text)
unfolding settings
new_s3_storage loads c = do
  fail_if (is_empty c.endpoint) endpoint_required
  fail_if (is_empty c.bucket) bucket_required
  fail_if (not loads) load_failed
  ok (settings c, c.bucket)

-- What `errors.As` finds in an error of the SDK: the two typed errors, and the code of an API error.
pub record SdkError : Type 0 where
  pub no_such_key : Bool
  pub not_found : Bool
  pub code : Option Text

unfoldable pub is_not_found : SdkError → Bool
is_not_found e = e.no_such_key || e.not_found || (elim e.code [
  | none ↦ false
  | some c ↦
      any (λ d. text_eq c d) (codes "NoSuchKey" ∷ codes "NotFound" ∷ codes "NoSuchBucket" ∷ [])
])

-- The SDK's client: calls get the bucket and the key, and say what they leave of the world. The body of
-- an object comes with whether reading it to the end succeeds. A first argument that is true makes the
-- call fail for a reason outside the store.
pub record Client : Type 1 where
  pub World : Type 0
  pub objects : Text → Text → World → Option Text
  pub get_object : Bool → Text → Text → Option Text → World → World × Result SdkError (Text × Bool)
  pub head_object : Bool → Text → Text → World → Result SdkError (Option ℕ)
  pub download_object : Bool → Text → Text → World → Result SdkError (Text × Option ℕ)
  pub put_object : Bool → Text → Text → Text → World → World × Result SdkError (Unit {0})
  pub object_reads :
      (f : Bool) (b k v : Text) (w : World)
      → (get_object f b k none w).1 ≡ ok (v, true)
      → objects b k w ≡ some v
  pub object_answers :
      (b k v : Text) (w : World)
      → objects b k w ≡ some v
      → (get_object false b k none w).1 ≡ ok (v, true)
  pub object_keeps :
      (f : Bool) (b k j : Text) (w : World)
      → objects b j (get_object f b k none w).0 ≡ objects b j w
  pub download_reads :
      (f : Bool) (b k v : Text) (n : Option ℕ) (w : World)
      → download_object f b k w ≡ ok (v, n)
      → objects b k w ≡ some v
  pub download_answers :
      (b k v : Text) (w : World)
      → objects b k w ≡ some v
      → (n : Option ℕ) × (download_object false b k w ≡ ok (v, n))
  pub upload_answers : (b k v : Text) (w : World) → (put_object false b k v w).1 ≡ ok tt
  pub upload_writes :
      (f : Bool) (b k v j : Text) (w : World)
      → (put_object f b k v w).1 ≡ ok tt
      → objects b j (put_object f b k v w).0 ≡ (if text_eq k j then some v else objects b j w)

-- The error of a call that names a key.
unfoldable pub key_error : SdkError → Error
key_error e = if is_not_found e then key_not_found else request_failed

-- `bytes=%d-%d`: the last byte is included. `itoa` prints an `int64`.
unfoldable pub range_header : (ℕ → Text) → ℕ → ℕ → Text
range_header itoa offset length =
    codes "bytes=" ++ itoa offset ++ codes "-" ++ itoa (sub64 (add64 offset length) 1)

module _ (c : Client) (bucket : Text) where
  read_all : Result SdkError (Text × Bool) → Result Error Text
  read_all (err e) = err (key_error e)
  read_all (ok (v, true)) = ok v
  read_all (ok (v, false)) = err read_failed

  -- `Get`, and `GetStream` with what its reader yields
  unfoldable pub get : Bool → Text → c.World → c.World × Result Error Text
  unfolding read_all
  get f k w = let (w', r) = c.get_object f bucket k none w in (w', read_all r)

  -- `GetRange` with what its reader yields
  unfoldable pub get_range :
      (ℕ → Text) → Bool → Text → ℕ → ℕ → c.World → c.World × Result Error Text
  unfolding read_all
  get_range itoa f k offset length w =
      let (w', r) = c.get_object f bucket k (some (range_header itoa offset length)) w in
      (w', read_all r)

  length_of : Result SdkError (Option ℕ) → Result Error ℕ
  length_of (err e) = err (key_error e)
  length_of (ok none) = err no_length
  length_of (ok (some n)) = ok n

  unfoldable pub head : Bool → Text → c.World → Result Error ℕ
  unfolding length_of
  head f k w = length_of (c.head_object f bucket k w)

  downloaded : Result SdkError (Text × Option ℕ) → Result Error (Text × ℕ)
  downloaded (err e) = err (key_error e)
  downloaded (ok (v, none)) = ok (v, 0)
  downloaded (ok (v, some n)) = ok (v, n)

  -- `DownloadParallel`: what it writes, and the number that it returns.
  unfoldable pub download_parallel : Bool → Text → c.World → Result Error (Text × ℕ)
  unfolding downloaded
  download_parallel f k w = downloaded (c.download_object f bucket k w)

  uploaded : Result SdkError (Unit {0}) → Result Error (Unit {0})
  uploaded (err e) = err request_failed
  uploaded (ok _) = ok tt

  -- `Put`, and `PutStream` for a stream that can be read
  unfoldable pub put : Bool → Text → Text → c.World → c.World × Result Error (Unit {0})
  unfolding uploaded
  put f k v w = let (w', r) = c.put_object f bucket k v w in (w', uploaded r)

  read_all-ok :
      (r : Result SdkError (Text × Bool)) (v : Text) → read_all r ≡ ok v → r ≡ ok (v, true)
  unfolding read_all
  read_all-ok (err e) v h = absurd (ground arith)
  read_all-ok (ok (u, true)) v h = ground arith
  read_all-ok (ok (u, false)) v h = absurd (ground arith)

  uploaded-ok : (r : Result SdkError (Unit {0})) → uploaded r ≡ ok tt → r ≡ ok tt
  unfolding uploaded
  uploaded-ok (err e) h = absurd (ground arith)
  uploaded-ok (ok _) h = refl

  -- What `DownloadParallel` has written when it returns without an error.
  written : Result Error (Text × ℕ) → Result Error Text
  written (err e) = err e
  written (ok (v, n)) = ok v

  written-ok :
      (r : Result SdkError (Text × Option ℕ)) (v : Text)
      → written (downloaded r) ≡ ok v
      → (n : Option ℕ) × (r ≡ ok (v, n))
  unfolding downloaded written
  written-ok (err e) v h = absurd (ground arith)
  written-ok (ok (u, none)) v h = (none, ground arith)
  written-ok (ok (u, some n)) v h = (some n, ground arith)

  written_all : (v : Text) (n : Option ℕ) → written (downloaded (ok (v, n))) ≡ ok v
  unfolding downloaded written
  written_all v none = refl
  written_all v (some n) = refl

  pub download : Bool → Text → c.World → Result Error Text
  unfolding download_parallel written
  download f k w = written (download_parallel f k w)

  pub download_reads :
      (f : Bool) (k v : Text) (w : c.World) → download f k w ≡ ok v → c.objects bucket k w ≡ some v
  unfolding download download_parallel
  download_reads f k v w h =
      let (n, e) = written-ok (c.download_object f bucket k w) v h in
      c.download_reads f bucket k v n w e

  pub download_answers :
      (k v : Text) (w : c.World) → c.objects bucket k w ≡ some v → download false k w ≡ ok v
  unfolding download download_parallel
  download_answers k v w h =
      let (n, e) = c.download_answers bucket k v w h in
      ap (λ r. written (downloaded r)) e ∙ written_all v n

  pub same_download :
      (d : Bool → Text → c.World → Result Error Text)
      → ◌≡◌ {A = Option (Bool → Text → c.World → Result Error Text)} (some download) (some d)
      → download ≡ d
  same_download d e = ap (λ o. elim o [ none ↦ download | some g ↦ g ]) e

  pub get_reads :
      (f : Bool) (k v : Text) (w : c.World) → (get f k w).1 ≡ ok v → c.objects bucket k w ≡ some v
  unfolding get
  get_reads f k v w h = c.object_reads f bucket k v w (read_all-ok _ v h)

  pub get_answers :
      (k v : Text) (w : c.World) → c.objects bucket k w ≡ some v → (get false k w).1 ≡ ok v
  unfolding get read_all
  get_answers k v w h = ap read_all (c.object_answers bucket k v w h)

  pub get_keeps :
      (f : Bool) (k j : Text) (w : c.World)
      → c.objects bucket j (get f k w).0 ≡ c.objects bucket j w
  unfolding get
  get_keeps f k j w = c.object_keeps f bucket k j w

  pub put_answers : (k v : Text) (w : c.World) → (put false k v w).1 ≡ ok tt
  unfolding put uploaded
  put_answers k v w = ap uploaded (c.upload_answers bucket k v w)

  pub put_writes :
      (f : Bool) (k v j : Text) (w : c.World)
      → (put f k v w).1 ≡ ok tt
      → c.objects bucket j (put f k v w).0 ≡ (if text_eq k j then some v else c.objects bucket j w)
  unfolding put
  put_writes f k v j w h = c.upload_writes f bucket k v j w (uploaded-ok _ h)

  -- `S3Storage` implements the interface.
  abbrev pub s3_storage : Storage
  s3_storage = record {
    Bucket = c.World;
    get = get;
    put = put;
    contents = c.objects bucket;
    get_reads = get_reads;
    get_answers = get_answers;
    get_keeps = get_keeps;
    put_answers = put_answers;
    put_writes = put_writes;
    parallel = some download;
    parallel_reads =
        λ d e f k v w h. download_reads f k v w (ap (λ g. g f k w) (same_download d e) ∙ h);
    parallel_answers =
        λ d e k v w h. ap (λ g. g false k w) (sym (same_download d e)) ∙ download_answers k v w h;
  }
