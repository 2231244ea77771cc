-- ===== src/Storage/S3/Tests.antt =====
-- A client over one table, on which the laws of `Client` hold, and runs of the store over it.
use firefork_ai.Prelude.{
  ℕ, length, ◌≡◌, refl, ap, Bool, true, false, List, [], ◌∷◌, ◌++◌, Option, none, some,
  if◌then◌else◌, Result, ok, err, arith,
}
use firefork_ai.Prelude.Text.{Text, codes, text_eq}
use firefork_ai.Prelude.Word.{add64, sub64}
use firefork_ai.Prelude.Table.{lookup, insert, lookup-insert}
use firefork_ai.Storage.{key_not_found}
use firefork_ai.Storage.S3.{
  attempts, SdkError, is_not_found, key_error, Client, range_header, get, put,
}

abbrev missing : SdkError
missing = record { no_such_key = false; not_found = false; code = some (codes "NoSuchKey") }

abbrev refused : SdkError
refused = record { no_such_key = false; not_found = false; code = some (codes "SlowDown") }

fetched : Option Text → Result SdkError (Text × Bool)
fetched none = err missing
fetched (some v) = ok (v, true)

fetched-ok : (o : Option Text) (v : Text) → fetched o ≡ ok (v, true) → o ≡ some v
unfolding fetched
fetched-ok none v e = absurd (ground arith)
fetched-ok (some u) v e = ground arith

fetch : Bool → Text → List (Text × Text) → Result SdkError (Text × Bool)
unfolding fetched
fetch true k w = err refused
fetch false k w = fetched (lookup k w)

fetch-ok :
    (f : Bool) (k v : Text) (w : List (Text × Text))
    → fetch f k w ≡ ok (v, true)
    → lookup k w ≡ some v
unfolding fetch
fetch-ok true k v w e = absurd (ground arith)
fetch-ok false k v w e = fetched-ok (lookup k w) v e

upload : Bool → Text → Text → List (Text × Text) → List (Text × Text) × Result SdkError (Unit {0})
upload true k v w = (w, err refused)
upload false k v w = (insert k v w, ok tt)

upload-ok :
    (f : Bool) (k v j : Text) (w : List (Text × Text))
    → (upload f k v w).1 ≡ ok tt
    → lookup j (upload f k v w).0 ≡ (if text_eq k j then some v else lookup j w)
unfolding upload
upload-ok true k v j w e = absurd (ground arith)
upload-ok false k v j w e = lookup-insert k j v w

fetch-some :
    (k v : Text) (w : List (Text × Text)) → lookup k w ≡ some v → fetch false k w ≡ ok (v, true)
unfolding fetch fetched
fetch-some k v w e = ap fetched e

uploads : (k v : Text) (w : List (Text × Text)) → (upload false k v w).1 ≡ ok tt
unfolding upload
uploads k v w = refl

sized : Option Text → Result SdkError (Text × Option ℕ)
sized none = err missing
sized (some v) = ok (v, some (length v))

transfer : Bool → Text → List (Text × Text) → Result SdkError (Text × Option ℕ)
unfolding sized
transfer true k w = err refused
transfer false k w = sized (lookup k w)

sized-ok : (o : Option Text) (v : Text) (n : Option ℕ) → sized o ≡ ok (v, n) → o ≡ some v
unfolding sized
sized-ok none v n e = absurd (ground arith)
sized-ok (some u) v n e = ground arith

transfer-ok :
    (f : Bool) (k v : Text) (n : Option ℕ) (w : List (Text × Text))
    → transfer f k w ≡ ok (v, n)
    → lookup k w ≡ some v
unfolding transfer
transfer-ok true k v n w e = absurd (ground arith)
transfer-ok false k v n w e = sized-ok (lookup k w) v n e

transfer-some :
    (k v : Text) (w : List (Text × Text))
    → lookup k w ≡ some v
    → (n : Option ℕ) × (transfer false k w ≡ ok (v, n))
unfolding transfer sized
transfer-some k v w e = (some (length v), ap sized e)

abbrev toy : Client
toy = record {
  World = List (Text × Text);
  objects = λ b k w. lookup k w;
  get_object = λ f b k r w. (w, fetch f k w);
  head_object = λ f b k w. ok none;
  download_object = λ f b k w. transfer f k w;
  put_object = λ f b k v w. upload f k v w;
  object_reads = λ f b k v w. fetch-ok f k v w;
  object_answers = λ b k v w. fetch-some k v w;
  object_keeps = λ f b k j w. refl;
  download_reads = λ f b k v n w. transfer-ok f k v n w;
  download_answers = λ b k v w. transfer-some k v w;
  upload_answers = λ b k v w. uploads k v w;
  upload_writes = λ f b k v j w. upload-ok f k v j w;
}

reads_back :
    (get toy
      (codes "b")
      false
      (codes "k")
      (put toy (codes "b") false (codes "k") (codes "v") []).0).1
    ≡ ok (codes "v")
unfolding get put fetch fetched upload lookup insert text_eq
reads_back = refl

reads_missing : (get toy (codes "b") false (codes "k") []).1 ≡ err key_not_found
unfolding get fetch fetched lookup key_error is_not_found text_eq
reads_missing = refl

-- An empty range asks for a last byte before the first.
empty_range : range_header (λ n. n ∷ []) 5 0 ≡ codes "bytes=" ++ 5 ∷ codes "-" ++ 4 ∷ []
unfolding range_header add64 sub64
empty_range = refl

tries : attempts 0 ≡ 5
unfolding attempts
tries = refl
