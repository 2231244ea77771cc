-- ===== src/Snapshot/Cache/Insertion.antt =====
-- `Insert` and `Get` of `LocalCache` on every branch.
use firefork_ai.Prelude.{
  ℕ, ◌+◌, ◌≤◌, ◌<◌, ◌≡◌, refl, sym, ap, subst, ◌∙◌, true, false, List, [], ◌∷◌, ◌++◌, none, some,
  if◌then◌else◌, ◌⊎◌, inl, inr, Bool-cases, Option-cases, ok, total, arith, length,
}
use firefork_ai.Prelude.Word.{half_mod, add64, add64_small, lt64, lt64_small}
use firefork_ai.Prelude.Text.{Text, text_eq_refl}
use firefork_ai.Prelude.Table.{lookup}
use firefork_ai.Snapshot.Cache.Elements.{Element, sizes, find_id, find_key, find_key-find_id}
use firefork_ai.Snapshot.Cache.Invariant.{IsValid}
use firefork_ai.Snapshot.Cache.Eviction.{paths}
use firefork_ai.Snapshot.Cache.Recency.{Front, bad_name, record_new, record_old}
use firefork_ai.Snapshot.Cache.{
  Cache, cache_key, join, path, found, get, push_new, replace, record_bundle, insert_bundle,
  evict_while, over_full, Visit, failed, visited, dir_size, dir_size_from,
}

abbrev pub visit_size : Visit → ℕ
visit_size failed = 0
visit_size (visited regular size) = if regular then size else 0

dir_size_from_lem :
    (sum : ℕ) (vs : List Visit) (n : ℕ)
    → sum + total visit_size vs < half_mod
    → dir_size_from sum vs ≡ some n
    → n ≡ sum + total visit_size vs
unfolding dir_size_from
dir_size_from_lem sum [] n small e = ground arith
dir_size_from_lem sum (failed ∷ vs) n small e = absurd (ground arith)
dir_size_from_lem sum (visited true size ∷ vs) n small e =
    let s : add64 sum size ≡ sum + size = add64_small sum size (omega arith) in
    omega (arith, dir_size_from_lem (sum + size) vs n (omega arith) (rw (← s) e))
dir_size_from_lem sum (visited false size ∷ vs) n small e =
    omega (arith, dir_size_from_lem sum vs n (omega arith) e)

-- `DirSize`, where it succeeds, is the sum of the sizes of the regular files, if that fits `int64`.
pub dir_size_lem :
    (vs : List Visit) (n : ℕ)
    → total visit_size vs < half_mod
    → dir_size vs ≡ some n
    → n ≡ total visit_size vs
unfolding dir_size
dir_size_lem vs n small e = omega (arith, dir_size_from_lem 0 vs n (omega arith) e)

-- What a successful `Insert` did.
pub record Inserted (walk : Text → List Visit) (c : Cache) (name version : Text) (d : Cache)
    : Type 0 where
  pub size : ℕ
  pub good : bad_name name version ≡ false
  pub measured : dir_size (walk (path c name version)) ≡ some size
  pub fits : lt64 c.max_bytes size ≡ false
  pub recorded : d ≡ record_bundle c (cache_key name version) (path c name version) size

insert_bundle_inv :
    (walk : Text → List Visit) (c : Cache) (name version : Text) (d : Cache)
    → insert_bundle walk c name version ≡ ok d
    → Inserted walk c name version d
unfolding insert_bundle
insert_bundle_inv walk c name version d e = elim (Bool-cases (bad_name name version)) [
  | inl bad ↦ absurd (ground arith)
  | inr good ↦ elim (Option-cases (dir_size (walk (path c name version)))) [
    | inl m ↦ absurd (ground arith)
    | inr (s, m) ↦ elim (Bool-cases (lt64 c.max_bytes s)) [
      | inl over ↦ absurd (ground arith)
      | inr fits ↦ record {
        size = s;
        good = good;
        measured = m;
        fits = fits;
        recorded = ground arith;
      }
    ]
  ]
]

path_lem :
    (c : Cache) (name version : Text)
    → bad_name name version ≡ false
    → path c name version ≡ c.root ++ b'/' ∷ cache_key name version
unfolding path join cache_key
path_lem c name version good = rw good refl

-- What `Insert` leaves: a valid cache with the bundle in front, after an eviction `evicted` from
-- `base`, which is the old cache, with the entry of that key, if any, updated and moved to the front.
pub record Outcome (c : Cache) (key dir : Text) (size : ℕ) (d : Cache) : Type 0 where
  pub valid : IsValid d
  pub front : Front d key dir size

record_bundle_lem :
    (c : Cache) (key dir : Text) (size : ℕ)
    → IsValid c
    → size ≤ c.max_bytes
    → dir ≡ c.root ++ b'/' ∷ key
    → Outcome c key dir size (record_bundle c key dir size)
unfolding record_bundle
record_bundle_lem c key dir size v fits at = elim (Option-cases (lookup key c.by_key)) [
  | inl e ↦
      let (w, f, ev) = record_new c key dir size v fits at e in
      rw (e, record_bundle) (record { valid = w; front = f })
  | inr (h, e) ↦
      let (x, here, its) =
        find_key-find_id key c.order h v.consistent.distinct (sym (v.consistent.indexed key) ∙ e) in
      let (w, f, ev) = record_old c key dir size v fits at h x here its in
      rw (e, here, record_bundle, replace) (record { valid = w; front = f })
]

module _ (walk : Text → List Visit) (c : Cache) (name version : Text) (d : Cache) (v : IsValid c)
    (small : total visit_size (walk (path c name version)) < half_mod)
    (done : insert_bundle walk c name version ≡ ok d) where
  abbrev outcome_size : ℕ
  outcome_size = (insert_bundle_inv walk c name version d done).size

  size_fits : outcome_size ≤ c.max_bytes
  size_fits =
      let i = insert_bundle_inv walk c name version d done in
      let exact = dir_size_lem (walk (path c name version)) i.size small i.measured in
      let wide : c.max_bytes < half_mod = omega (arith, v.consistent.small) in
      let word : i.size < half_mod = omega (arith, exact) in
      ground (arith, lt64_small c.max_bytes i.size wide word, i.fits)

  outcome : Outcome c (cache_key name version) (path c name version) outcome_size d
  outcome =
      let i = insert_bundle_inv walk c name version d done in
      subst (Outcome c (cache_key name version) (path c name version) i.size) (sym i.recorded) (
        record_bundle_lem c (cache_key name version) (path c name version) i.size v size_fits
          (path_lem c name version i.good))

  -- After a successful `Insert` on a valid cache, whose budget is below 2 ^ 62 bytes, of a bundle that
  -- has files of less than 2 ^ 63 bytes in all, the cache is valid: its byte count is the sum of the entries' sizes and within the budget,
  -- and map and list hold the same keys, each once, each with the directory of its key.
  pub insert_bundle-IsValid : IsValid d
  insert_bundle-IsValid = outcome.valid

  -- After a successful `Insert` on a valid cache, whose budget is below 2 ^ 62 bytes, of a bundle that
  -- has files of less than 2 ^ 63 bytes in all, `Get` of the same name and version returns the bundle's directory.
  pub get-insert_bundle : (get d name version).1 ≡ path c name version
  unfolding get found find_key find_id
  get-insert_bundle =
      let i = insert_bundle_inv walk c name version d done in
      let f = outcome.front in
      let key = cache_key name version in
      let w = outcome.valid.consistent in
      let first : find_key key d.order ≡ some f.id =
        rw f.first (ground (arith, f.its_key, text_eq_refl key)) in
      let its : lookup key d.by_key ≡ some f.id = w.indexed key ∙ first in
      let held : find_id f.id d.order ≡ some f.entry = rw f.first (ground arith) in
      rw (i.good, its, held, get, found) f.its_path

  -- A successful `Insert` of a new key into a valid cache, whose budget is below 2 ^ 62 bytes, of files
  -- of less than 2 ^ 63 bytes in all,
  -- keeps a front part of the list, puts the new entry before it, and removes the directories of the
  -- rest, which are the entries least recently used, oldest first; it drops nothing that would still
  -- have fitted.
  pub insert_evicts_oldest :
      lookup (cache_key name version) c.by_key ≡ none
      → (kept gone : List Element) × (x : Element) × (c.order ≡ kept ++ gone)
        × (d.order ≡ x ∷ kept)
        × (x.1.key ≡ cache_key name version)
        × (d.removed ≡ paths gone ++ c.removed)
        × ((gone ≡ [])
            ⊎ ((y : Element) × (r : List Element) × (gone ≡ y ∷ r)
                × (c.max_bytes < sizes kept + y.1.size + x.1.size)))
  unfolding push_new record_bundle
  insert_evicts_oldest e =
      let i = insert_bundle_inv walk c name version d done in
      let key = cache_key name version in
      let dir = path c name version in
      let (w, f, ev) = record_new c key dir i.size v size_fits (path_lem c name version i.good) e in
      let b = evict_while (length c.order) (over_full i.size) c in
      let s : d ≡ push_new b key dir i.size = i.recorded ∙ (rw (e, record_bundle)) in
      (
        b.order,
        ev.gone,
        (b.fresh, record { key = key; path = dir; size = i.size }),
        ev.split,
        ap (λ (q : Cache). q.order) s,
        refl,
        ap (λ (q : Cache). q.removed) s ∙ ev.cleaned,
        ev.needed,
      )
