-- ===== src/Snapshot/Cache.antt =====
-- internal/snapshot/cache.go: `LocalCache`, a bounded LRU cache of bundle directories. One call is
-- one step, since each holds the mutex from its first read of the state to its last write.
-- `Root` is taken as `filepath.Clean` leaves it. `removed` lists what `os.RemoveAll` was called on.
pub mod Elements
pub mod Moves
pub mod Invariant
pub mod Eviction
pub mod Recency
pub mod Insertion
pub mod History
mod Tests
use firefork_ai.Prelude.{
  ℕ, suc, Bool, true, false, ◌||◌, ◌&&◌, not, List, [], ◌∷◌, ◌++◌, Option, none, some,
  if◌then◌else◌, Result, ok, err, ◌>>=◌, ◌>>◌, fail_if, or_fail, pop_back, length,
}
use firefork_ai.Prelude.Word.{add64, sub64, lt64, not_positive}
use firefork_ai.Prelude.Text.{Text, codes, text_eq, is_empty, has_prefix, contains_any, contains}
use firefork_ai.Prelude.Table.{Table, lookup, insert, delete}
use Elements.{Entry, Element, find_id, move_to_front, set_size}

pub data Error : Type 0 where
  root_required budget_not_positive mkdir_failed invalid_name measure_failed over_budget : Error

-- "/\\\x00\n\r\t"
abbrev pub forbidden : Text
forbidden = b'/' ∷ 92 ∷ 0 ∷ 10 ∷ 13 ∷ 9 ∷ []

unfoldable pub valid_component : Text → Bool
unfolding text_eq has_prefix contains_any contains
valid_component s =
    if is_empty s || text_eq s (codes ".") || text_eq s (codes "..")
    then false
    else if has_prefix s (codes ".")
    then false
    else if contains_any forbidden s
    then false
    else if contains s (codes "..")
    then false
    else true

pub record Cache : Type 0 where
  pub root : Text
  pub max_bytes : ℕ
  pub bytes : ℕ
  pub order : List Element  -- front = most recent
  pub by_key : List (Text × ℕ)
  pub fresh : ℕ  -- the identity of the next list element
  pub removed : List Text

-- `made` is the outcome of `MkPrivateDir(root)`.
unfoldable pub new_cache : Text → ℕ → Bool → Result Error Cache
new_cache root max_bytes made = do
  fail_if (is_empty root) root_required
  fail_if (not_positive max_bytes) budget_not_positive
  fail_if (not made) mkdir_failed
  ok (record {
    root = root;
    max_bytes = max_bytes;
    bytes = 0;
    order = [];
    by_key = [];
    fresh = 0;
    removed = [];
  })

unfoldable pub cache_key : Text → Text → Text
cache_key name version = name ++ b'/' ∷ version

-- `filepath.Join(c.Root, name, version)` for valid components
unfoldable pub join : Text → Text → Text → Text
join root name version = root ++ b'/' ∷ (name ++ b'/' ∷ version)

unfoldable pub path : Cache → Text → Text → Text
path c name version =
    if not (valid_component name) || not (valid_component version)
    then []
    else join c.root name version

-- An entry reported by `filepath.Walk`: an error, or a file with its size.
pub data Visit : Type 0 where
  failed : Visit
  visited : (regular : Bool) → (size : ℕ) → Visit

-- The callback's loop; `none` is an error, which ends the walk.
unfoldable pub dir_size_from : ℕ → List Visit → Option ℕ
dir_size_from sum [] = some sum
dir_size_from sum (failed ∷ vs) = none
dir_size_from sum (visited regular size ∷ vs) =
    dir_size_from (if regular then add64 sum size else sum) vs

unfoldable pub dir_size : List Visit → Option ℕ
unfolding dir_size_from
dir_size vs = dir_size_from 0 vs

found : Cache → ℕ → Option Entry → Cache × Text
unfolding move_to_front
found c h none = (c, [])
found c h (some e) = (record c { order = move_to_front h c.order }, e.path)

unfoldable pub get : Cache → Text → Text → Cache × Text
unfolding found
get c name version =
    if not (valid_component name) || not (valid_component version)
    then (c, [])
    else elim (lookup (cache_key name version) c.by_key) [
      | none ↦ (c, [])
      | some h ↦ found c h (find_id h c.order)
    ]

drop_back : Cache → Option (List Element × Element) → Cache
drop_back c none = c
drop_back c (some (rest, (h, e))) = record c {
  order = rest;
  by_key = delete e.key c.by_key;
  bytes = sub64 c.bytes e.size;
  removed = e.path ∷ c.removed;
}

-- `evictOneLocked`
unfoldable pub evict_one : Cache → Cache
unfolding drop_back
evict_one c = drop_back c (pop_back c.order)

-- `for test && c.order.Len() > 0 { c.evictOneLocked() }`; each round takes an element off the list,
-- so the length of the list is fuel enough.
unfoldable pub evict_while : ℕ → (Cache → Bool) → Cache → Cache
evict_while ℕ.zero test c = c
evict_while (suc fuel) test c = elim (test c) [
  | true ↦ evict_while fuel test (evict_one c)
  | false ↦ c
]

abbrev pub over_full : ℕ → Cache → Bool
over_full size c = lt64 c.max_bytes (add64 c.bytes size)

-- `evictLocked`
unfoldable pub evict : Cache → Cache
evict c = evict_while (length c.order) (λ d. lt64 d.max_bytes d.bytes) c

pub push_new : Cache → Text → Text → ℕ → Cache
push_new c key dir size = record c {
  order = (c.fresh, record { key = key; path = dir; size = size }) ∷ c.order;
  by_key = insert key c.fresh c.by_key;
  bytes = add64 c.bytes size;
  fresh = suc c.fresh;
}

-- The branch of `Insert` for a key that is present.
pub replace : Cache → ℕ → Option Entry → ℕ → Cache
unfolding evict
replace c h none size = c
replace c h (some e) size = evict (record c {
  bytes = add64 (sub64 c.bytes e.size) size;
  order = move_to_front h (set_size h size c.order);
})

pub record_bundle : Cache → Text → Text → ℕ → Cache
unfolding push_new replace evict_while
record_bundle c key dir size = elim (lookup key c.by_key) [
  | some h ↦ replace c h (find_id h c.order) size
  | none ↦ push_new (evict_while (length c.order) (over_full size) c) key dir size
]

-- `walk` is what `filepath.Walk` reports under a directory.
unfoldable pub insert_bundle : (Text → List Visit) → Cache → Text → Text → Result Error Cache
unfolding record_bundle
insert_bundle walk c name version = do
  fail_if (not (valid_component name) || not (valid_component version)) invalid_name
  size ← or_fail (dir_size (walk (path c name version))) measure_failed
  fail_if (lt64 c.max_bytes size) over_budget
  ok (record_bundle c (cache_key name version) (path c name version) size)

pub cache_bytes : Cache → ℕ
cache_bytes c = c.bytes

pub cache_len : Cache → ℕ
cache_len c = length c.order
