-- ===== src/Storage.antt =====
-- internal/storage/interface.go: the store of objects, and what its clients rely on. Of the interface's
-- methods these are the ones that internal/snapshot calls; a stream is its bytes.
pub mod Mock
pub mod S3
use firefork_ai.Prelude.{◌≡◌, Bool, false, Option, some, if◌then◌else◌, Result, ok, err}
use firefork_ai.Prelude.Text.{Text, text_eq}

pub data Error : Type 0 where
  key_not_found cancelled out_of_bounds slice_panic request_failed read_failed no_length : Error

-- The first argument of a call says that it fails for a reason outside the store, such as a cancelled
-- context. `contents` is the abstract view of a bucket.
pub record Storage : Type 1 where
  pub Bucket : Type 0
  pub get : Bool → Text → Bucket → Bucket × Result Error Text
  pub put : Bool → Text → Text → Bucket → Bucket × Result Error (Unit {0})
  pub contents : Text → Bucket → Option Text
  pub get_reads :
      (f : Bool) (k v : Text) (b : Bucket) → (get f k b).1 ≡ ok v → contents k b ≡ some v
  pub get_answers : (k v : Text) (b : Bucket) → contents k b ≡ some v → (get false k b).1 ≡ ok v
  pub get_keeps : (f : Bool) (k j : Text) (b : Bucket) → contents j (get f k b).0 ≡ contents j b
  pub put_answers : (k v : Text) (b : Bucket) → (put false k v b).1 ≡ ok tt
  pub put_writes :
      (f : Bool) (k v j : Text) (b : Bucket)
      → (put f k v b).1 ≡ ok tt
      → contents j (put f k v b).0 ≡ (if text_eq k j then some v else contents j b)
  -- `DownloadParallel`, if the store is an `*S3Storage`, as its clients test: what it writes.
  pub parallel : Option (Bool → Text → Bucket → Result Error Text)
  pub parallel_reads :
      (d : Bool → Text → Bucket → Result Error Text)
      → parallel ≡ some d
      → (f : Bool) (k v : Text) (b : Bucket) → d f k b ≡ ok v
      → contents k b ≡ some v
  pub parallel_answers :
      (d : Bool → Text → Bucket → Result Error Text)
      → parallel ≡ some d
      → (k v : Text) (b : Bucket) → contents k b ≡ some v
      → d false k b ≡ ok v
