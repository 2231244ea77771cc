-- ===== src/Snapshot/Cache/Tests.antt =====
-- Runs of the cache, and its theorems at concrete inputs.
use firefork_ai.Prelude.{
  ℕ, ◌+◌, ◌<◌, ◌≡◌, refl, true, false, List, [], ◌∷◌, ◌++◌, ok, All, pop_back, arith, ◌⊎◌,
}
use firefork_ai.Prelude.Text.{Text, codes, text_eq, has_prefix, contains_any, contains}
use firefork_ai.Prelude.Table.{lookup, insert, delete}
use firefork_ai.Prelude.Word.{add64, sub64, lt64, not_positive}
use firefork_ai.Snapshot.Cache.Elements.{
  Element, sizes, find_id, remove_id, move_to_front, set_size,
}
use firefork_ai.Snapshot.Cache.Eviction.{paths}
use firefork_ai.Snapshot.Cache.Invariant.{IsValid}
use firefork_ai.Snapshot.Cache.Insertion.{
  get-insert_bundle, insert_bundle-IsValid, insert_evicts_oldest,
}
use firefork_ai.Snapshot.Cache.History.{
  Call, gets, inserts, run, step, Inside, removed-Inside, IsSmall, after, run-new_cache-IsValid,
}
use firefork_ai.Snapshot.Cache.{
  Cache, new_cache, cache_key, join, path, valid_component, get, insert_bundle, Visit, visited,
  dir_size, evict_while, evict_one, evict,
}

-- All that a run of the cache computes with.
executed : Unit {0}
unfolding insert_bundle get run step valid_component text_eq has_prefix contains_any contains path
    cache_key join dir_size lookup insert delete find_id remove_id move_to_front set_size pop_back
    evict_while evict_one evict add64 sub64 lt64 not_positive new_cache
executed = tt

abbrev bundle : ℕ → Text → List Visit
bundle n dir = visited true n ∷ visited false 7 ∷ []

abbrev empty_cache : Cache
empty_cache = record {
  root = codes "/c";
  max_bytes = 100;
  bytes = 0;
  order = [];
  by_key = [];
  fresh = 0;
  removed = [];
}

abbrev history : List Call
history =
    inserts (bundle 60) (codes "a") (codes "1")
    ∷ inserts (bundle 30) (codes "b") (codes "1")
    ∷ gets (codes "a") (codes "1")
    ∷ []

abbrev warm : Cache
warm = run empty_cache history

-- The entry that was not read is evicted.
warm_insert :
    insert_bundle (bundle 40) warm (codes "c") (codes "2")
    ≡ ok (record {
      root = codes "/c";
      max_bytes = 100;
      bytes = 100;
      order =
          (2, record { key = codes "c/2"; path = codes "/c/c/2"; size = 40 })
          ∷ (0, record { key = codes "a/1"; path = codes "/c/a/1"; size = 60 })
          ∷ [];
      by_key = (codes "a/1", 0) ∷ (codes "c/2", 2) ∷ [];
      fresh = 3;
      removed = codes "/c/b/1" ∷ [];
    })
unfolding executed
warm_insert = refl

empty_cache_new : new_cache (codes "/c") 100 true ≡ ok empty_cache
unfolding executed
empty_cache_new = refl

history-IsSmall : All IsSmall history
history-IsSmall = (λ d. omega arith, (λ d. omega arith, (tt, tt)))

run-new_cache-IsValid_example : IsValid warm
run-new_cache-IsValid_example =
    run-new_cache-IsValid (codes "/c") 100 true empty_cache history (omega arith) history-IsSmall
      empty_cache_new

removed-Inside_example : All (Inside (codes "/c")) (run empty_cache history).removed
removed-Inside_example = removed-Inside (codes "/c") 100 true empty_cache history empty_cache_new

abbrev colder : Cache
colder = after warm (insert_bundle (bundle 40) warm (codes "c") (codes "2"))

insert_bundle-IsValid_example : IsValid colder
unfolding executed
insert_bundle-IsValid_example =
    insert_bundle-IsValid (bundle 40) warm (codes "c") (codes "2") colder
      run-new_cache-IsValid_example (omega arith) refl

get-insert_bundle_example :
    (get colder (codes "c") (codes "2")).1 ≡ path warm (codes "c") (codes "2")
unfolding executed
get-insert_bundle_example =
    get-insert_bundle (bundle 40) warm (codes "c") (codes "2") colder run-new_cache-IsValid_example
      (omega arith) refl

insert_evicts_oldest_example :
    (kept gone : List Element) × (x : Element) × (warm.order ≡ kept ++ gone)
    × (colder.order ≡ x ∷ kept)
    × (x.1.key ≡ cache_key (codes "c") (codes "2"))
    × (colder.removed ≡ paths gone ++ warm.removed)
    × ((gone ≡ [])
        ⊎ ((y : Element) × (r : List Element) × (gone ≡ y ∷ r)
            × (warm.max_bytes < sizes kept + y.1.size + x.1.size)))
unfolding executed
insert_evicts_oldest_example =
    insert_evicts_oldest (bundle 40) warm (codes "c") (codes "2") colder
      run-new_cache-IsValid_example (omega arith) refl refl
