-- ===== src/Storage/Mock.antt =====
-- internal/storage/mock.go: the store in memory. `done` says whether the context is done before the
-- simulated latency has passed.
pub mod Ranges
mod Tests
use firefork_ai.Prelude.{
  ℕ, suc, ◌+◌, ◌-◌, ◌≤◌, ◌<◌, ◌≡◌, refl, ap, ◌∙◌, Bool, true, false, ◌||◌, List, [], ◌∷◌, Option,
  none, some, if◌then◌else◌, ltb, Result, ok, err, length, take, Option-cases, Bool-cases, inl, inr,
  arith,
}
use firefork_ai.Prelude.Word.{add64, add64_small, lt64, lt64_small, word_mod, half_mod}
use firefork_ai.Prelude.Text.{Text, text_eq}
use firefork_ai.Prelude.Table.{lookup, insert, lookup-insert}
use firefork_ai.Storage.{Error, key_not_found, cancelled, out_of_bounds, slice_panic, Storage}

-- The counters are `atomic.Int64`.
pub record MockStorage : Type 0 where
  pub latency : ℕ
  pub data_of : List (Text × Text)
  pub gets : ℕ
  pub puts : ℕ
  pub bytes_served : ℕ

unfoldable pub new_mock_storage : ℕ → MockStorage
new_mock_storage latency = record {
  latency = latency;
  data_of = [];
  gets = 0;
  puts = 0;
  bytes_served = 0;
}

get_found : MockStorage → Option Text → MockStorage × Result Error Text
get_found m none = (m, err key_not_found)
get_found m (some v) = (record m { bytes_served = add64 m.bytes_served (length v) }, ok v)

get_waited : Bool → Text → MockStorage → MockStorage × Result Error Text
unfolding get_found
get_waited true k m = (m, err cancelled)
get_waited false k m = get_found m (lookup k m.data_of)

-- `Get`, and `GetStream`, which is a reader of the same bytes
unfoldable pub get : Bool → Text → MockStorage → MockStorage × Result Error Text
unfolding get_waited
get done k m = get_waited done k (record m { gets = add64 m.gets 1 })

unfoldable pub drop_bytes : ℕ → Text → Text
drop_bytes ℕ.zero t = t
drop_bytes (suc n) [] = []
drop_bytes (suc n) (c ∷ t) = drop_bytes n t

-- `buf[offset:end]` for offsets within the buffer
slice : ℕ → ℕ → Text → Result Error Text
slice offset end buf =
    if lt64 end offset then err slice_panic else ok (drop_bytes offset (take end buf))

range_of : ℕ → ℕ → Text → Result Error Text
unfolding slice
range_of offset len buf =
    if lt64 offset 0 || lt64 (length buf) offset
    then err out_of_bounds
    else let end = add64 offset len in
      slice offset (if lt64 (length buf) end then length buf else end) buf

range_found : ℕ → ℕ → MockStorage × Result Error Text → MockStorage × Result Error Text
unfolding range_of
range_found offset len (m, err e) = (m, err e)
range_found offset len (m, ok buf) = (m, range_of offset len buf)

-- `GetRange`
unfoldable pub get_range : Bool → Text → ℕ → ℕ → MockStorage → MockStorage × Result Error Text
unfolding range_found
get_range done k offset len m = range_found offset len (get done k m)

-- `Head`
unfoldable pub head : Bool → Text → MockStorage → Result Error ℕ
head done k m =
    if done
    then err cancelled
    else elim (lookup k m.data_of) [ none ↦ err key_not_found | some v ↦ ok (length v) ]

-- `Put`, and `PutStream` once it has read its stream
unfoldable pub put : Bool → Text → Text → MockStorage → MockStorage × Result Error (Unit {0})
put done k v m =
    let m' = record m { puts = add64 m.puts 1 } in
    if done then (m', err cancelled) else (record m' { data_of = insert k v m.data_of }, ok tt)

-- `Stats`
unfoldable pub stats : MockStorage → ℕ × ℕ × ℕ
stats m = (m.gets, m.puts, m.bytes_served)

abbrev pub data_at : Text → MockStorage → Option Text
data_at k m = lookup k m.data_of

get_found-reads :
    (m : MockStorage) (o : Option Text) (v : Text) → (get_found m o).1 ≡ ok v → o ≡ some v
unfolding get_found
get_found-reads m none v e = absurd (ground arith)
get_found-reads m (some w) v e = ground arith

pub get_reads :
    (f : Bool) (k v : Text) (m : MockStorage) → (get f k m).1 ≡ ok v → data_at k m ≡ some v
unfolding get get_waited
get_reads true k v m e = absurd (ground arith)
get_reads false k v m e = get_found-reads _ (lookup k m.data_of) v e

pub get_answers : (k v : Text) (m : MockStorage) → data_at k m ≡ some v → (get false k m).1 ≡ ok v
unfolding get get_waited get_found
get_answers k v m e = ap (λ o. (get_found (record m { gets = add64 m.gets 1 }) o).1) e

get_found-keeps : (m : MockStorage) (o : Option Text) → (get_found m o).0.data_of ≡ m.data_of
unfolding get_found
get_found-keeps m none = refl
get_found-keeps m (some v) = refl

pub get_keeps : (f : Bool) (k j : Text) (m : MockStorage) → data_at j (get f k m).0 ≡ data_at j m
unfolding get get_waited
get_keeps true k j m = refl
get_keeps false k j m = ap (lookup j) (get_found-keeps _ (lookup k m.data_of))

pub put_answers : (k v : Text) (m : MockStorage) → (put false k v m).1 ≡ ok tt
unfolding put
put_answers k v m = refl

pub put_writes :
    (f : Bool) (k v j : Text) (m : MockStorage)
    → (put f k v m).1 ≡ ok tt
    → data_at j (put f k v m).0 ≡ (if text_eq k j then some v else data_at j m)
unfolding put
put_writes true k v j m e = absurd (ground arith)
put_writes false k v j m e = lookup-insert k j v m.data_of

pub not_parallel :
    (d : Bool → Text → MockStorage → Result Error Text)
    → ¬ ◌≡◌ {A = Option (Bool → Text → MockStorage → Result Error Text)} none (some d)
not_parallel d e = ground arith

-- `MockStorage` implements the interface.
abbrev pub mock_storage : Storage
mock_storage = record {
  Bucket = MockStorage;
  get = get;
  put = put;
  contents = data_at;
  get_reads = get_reads;
  get_answers = get_answers;
  get_keeps = get_keeps;
  parallel = none;
  parallel_reads = λ d e. absurd (not_parallel d e);
  parallel_answers = λ d e. absurd (not_parallel d e);
  put_answers = put_answers;
  put_writes = put_writes;
}
