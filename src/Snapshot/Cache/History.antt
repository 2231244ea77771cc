-- ===== src/Snapshot/Cache/History.antt =====
-- Any sequence of `Get` and `Insert` calls on a new `LocalCache`.
use firefork_ai.Prelude.{
  ℕ, zero, suc, ◌^◌, ◌<◌, ◌≡◌, refl, ap, subst, Bool, true, false, List, [], ◌∷◌, inl, inr,
  Bool-cases, Option-cases, pop_back, pop_back_lem, Result, ok, err, All, total, arith, length,
}
use firefork_ai.Prelude.Word.{half_mod, lt64, not_positive}
use firefork_ai.Prelude.Text.{Text}
use firefork_ai.Prelude.Table.{lookup}
use firefork_ai.Snapshot.Cache.Elements.{Element, find_id, find_key, move_to_front, set_size}
use firefork_ai.Snapshot.Cache.Moves
use firefork_ai.Snapshot.Cache.Invariant.{IsValid}
use firefork_ai.Snapshot.Cache.Recency.{bad_name, get-IsValid}
use firefork_ai.Snapshot.Cache.Insertion.{visit_size, insert_bundle-IsValid}
use firefork_ai.Snapshot.Cache.{
  Cache, Error, new_cache, cache_key, join, path, valid_component, found, get, push_new, replace,
  record_bundle, insert_bundle, evict, evict_one, drop_back, evict_while, over_full, Visit,
  dir_size,
}

pub data Call : Type 0 where
  gets : (name version : Text) → Call
  inserts : (walk : Text → List Visit) → (name version : Text) → Call

-- A failed `Insert` returns before it changes anything.
abbrev pub after : Cache → Result Error Cache → Cache
after c (ok d) = d
after c (err e) = c

unfoldable pub step : Cache → Call → Cache
step c (gets name version) = (get c name version).0
step c (inserts walk name version) = after c (insert_bundle walk c name version)

unfoldable pub run : Cache → List Call → Cache
run c [] = c
run c (call ∷ calls) = run (step c call) calls

-- A bundle directory two levels below the root, with good names.
pub record Inside (root dir : Text) : Type 0 where
  pub name : Text
  pub version : Text
  pub good_name : valid_component name ≡ true
  pub good_version : valid_component version ≡ true
  pub joined : dir ≡ join root name version

pub record IsInside (root : Text) (c : Cache) : Type 0 where
  pub same : c.root ≡ root
  pub held : All (λ x. Inside root x.1.path) c.order
  pub gone : All (Inside root) c.removed

module _ (root : Text) where
  evict_one-IsInside : (c : Cache) → IsInside root c → IsInside root (evict_one c)
  unfolding evict_one
  evict_one-IsInside c v = elim (Option-cases (pop_back c.order)) [
    | inl e ↦ rw (e, drop_back) v
    | inr ((rest, x), e) ↦
        let (a, b) =
          Moves.All-front (λ y. Inside root y.1.path) rest x
            (subst (All (λ y. Inside root y.1.path)) (pop_back_lem c.order rest x e) v.held) in
        rw (e, drop_back) (record { same = v.same; held = a; gone = (b, v.gone) })
  ]

  evict_while-IsInside :
      (fuel : ℕ) (test : Cache → Bool) (c : Cache)
      → IsInside root c
      → IsInside root (evict_while fuel test c)
  unfolding evict_while
  evict_while-IsInside zero test c v = v
  evict_while-IsInside (suc fuel) test c v = elim (Bool-cases (test c)) [
    | inl t ↦
        rw (t, evict_while) (evict_while-IsInside fuel test (evict_one c) (evict_one-IsInside c v))
    | inr t ↦ rw (t, evict_while) v
  ]

  touch-All :
      (h : ℕ) (l : List Element)
      → All (λ x. Inside root x.1.path) l
      → All (λ x. Inside root x.1.path) (move_to_front h l)
  unfolding move_to_front
  touch-All h l a = elim (Option-cases (find_id h l)) [
    | inl e ↦ rw (e, move_to_front) a
    | inr (x, e) ↦ Moves.All-move_to_front h l x e (λ y. Inside root y.1.path) a
  ]

  get-IsInside : (c : Cache) (n v : Text) → IsInside root c → IsInside root (get c n v).0
  unfolding get
  get-IsInside c n v w = elim (Bool-cases (bad_name n v)) [
    | inl b ↦ rw (b, get) w
    | inr b ↦ elim (Option-cases (lookup (cache_key n v) c.by_key)) [
      | inl e ↦ rw (b, e, get) w
      | inr (h, e) ↦ elim (Option-cases (find_id h c.order)) [
        | inl f ↦ rw (b, e, f, get, found) w
        | inr (x, f) ↦
            rw (b, e, f, get, found)
              (record { same = w.same; held = touch-All h c.order w.held; gone = w.gone })
      ]
    ]
  ]

  evict-IsInside : (c : Cache) → IsInside root c → IsInside root (evict c)
  unfolding evict
  evict-IsInside c v = evict_while-IsInside (length c.order) _ c v

  set_size-All :
      (h size : ℕ) (l : List Element)
      → All (λ x. Inside root x.1.path) l
      → All (λ x. Inside root x.1.path) (set_size h size l)
  set_size-All h size l a = Moves.All-set_size h size (λ x. Inside root x.1.path) (λ x p. p) l a

  record_bundle-IsInside :
      (c : Cache) (key dir : Text) (size : ℕ)
      → Inside root dir
      → IsInside root c
      → IsInside root (record_bundle c key dir size)
  unfolding record_bundle
  record_bundle-IsInside c key dir size i v = elim (Option-cases (lookup key c.by_key)) [
    | inl e ↦
        let w = evict_while-IsInside (length c.order) (over_full size) c v in
        rw (e, record_bundle, push_new)
          (record { same = w.same; held = (i, w.held); gone = w.gone })
    | inr (h, e) ↦ elim (Option-cases (find_id h c.order)) [
      | inl f ↦ rw (e, f, record_bundle, replace) v
      | inr (x, f) ↦
          rw (e, f, record_bundle, replace)
            (evict-IsInside _ (record {
              same = v.same;
              held = touch-All h (set_size h size c.order) (set_size-All h size c.order v.held);
              gone = v.gone;
            }))
    ]
  ]

  path-Inside :
      (c : Cache) (n v : Text) → c.root ≡ root → bad_name n v ≡ false → Inside root (path c n v)
  unfolding path
  path-Inside c n v s good = record {
    name = n;
    version = v;
    good_name = ground arith;
    good_version = ground arith;
    joined = rw (good, path) (ap (λ r. join r n v) s);
  }

  insert-IsInside :
      (walk : Text → List Visit) (c : Cache) (n v : Text)
      → IsInside root c
      → IsInside root (after c (insert_bundle walk c n v))
  unfolding insert_bundle
  insert-IsInside walk c n v w = elim (Bool-cases (bad_name n v)) [
    | inl b ↦ rw (b, insert_bundle) w
    | inr b ↦ elim (Option-cases (dir_size (walk (path c n v)))) [
      | inl m ↦ rw (b, m, insert_bundle) w
      | inr (s, m) ↦ elim (Bool-cases (lt64 c.max_bytes s)) [
        | inl o ↦ rw (b, m, o, insert_bundle) w
        | inr o ↦
            rw (b, m, o, insert_bundle)
              (record_bundle-IsInside c _ (path c n v) s (path-Inside c n v w.same b) w)
      ]
    ]
  ]

  step-IsInside : (c : Cache) (call : Call) → IsInside root c → IsInside root (step c call)
  unfolding step
  step-IsInside c (gets n v) w = get-IsInside c n v w
  step-IsInside c (inserts walk n v) w = insert-IsInside walk c n v w

  run-IsInside : (c : Cache) (calls : List Call) → IsInside root c → IsInside root (run c calls)
  unfolding run
  run-IsInside c [] v = v
  run-IsInside c (call ∷ calls) w = run-IsInside (step c call) calls (step-IsInside c call w)

new_cache_inv :
    (root : Text) (max_bytes : ℕ) (made : Bool) (c : Cache)
    → new_cache root max_bytes made ≡ ok c
    → (not_positive max_bytes ≡ false)
      × (c ≡ record {
        root = root;
        max_bytes = max_bytes;
        bytes = 0;
        order = [];
        by_key = [];
        fresh = 0;
        removed = [];
      })
unfolding new_cache
new_cache_inv root max_bytes made c e = ground arith

-- Whatever sequence of `Get` and `Insert` calls is made on a new cache, every directory that eviction
-- removes is the root followed by two more components, each of which `validCacheComponent` accepts.
pub removed-Inside :
    (root : Text) (max_bytes : ℕ) (made : Bool) (c : Cache) (calls : List Call)
    → new_cache root max_bytes made ≡ ok c
    → All (Inside root) (run c calls).removed
removed-Inside root max_bytes made c calls e =
    let (_, s) = new_cache_inv root max_bytes made c e in
    (run-IsInside root c calls (rw s (record { same = refl; held = tt; gone = tt }))).gone

-- The files that a walk reports have less than 2 ^ 63 bytes in all.
abbrev pub IsSmall : Call → Type 0
IsSmall (gets name version) = Unit {0}
IsSmall (inserts walk name version) = (dir : Text) → total visit_size (walk dir) < half_mod

step-IsValid : (c : Cache) (call : Call) → IsSmall call → IsValid c → IsValid (step c call)
unfolding step
step-IsValid c (gets n v) s w = get-IsValid c n v w
step-IsValid c (inserts walk n v) s w = go (insert_bundle walk c n v) refl
  where
    go : (r : Result Error Cache) → insert_bundle walk c n v ≡ r → IsValid (after c r)
    go (ok d) e = insert_bundle-IsValid walk c n v d w (s (path c n v)) e
    go (err x) e = w

run-IsValid :
    (c : Cache) (calls : List Call) → All IsSmall calls → IsValid c → IsValid (run c calls)
unfolding run
run-IsValid c [] s v = v
run-IsValid c (call ∷ calls) (s, r) v = run-IsValid (step c call) calls r (step-IsValid c call s v)

-- After any sequence of calls on a new cache with a budget below 2 ^ 62, whose walks report less than
-- 2 ^ 63 bytes each, the cache is valid: exact byte count within the budget, map and list in step.
pub run-new_cache-IsValid :
    (root : Text) (max_bytes : ℕ) (made : Bool) (c : Cache) (calls : List Call)
    → max_bytes < 2 ^ 62
    → All IsSmall calls
    → new_cache root max_bytes made ≡ ok c
    → IsValid (run c calls)
unfolding lookup find_key
run-new_cache-IsValid root max_bytes made c calls small s e =
    let (_, t) = new_cache_inv root max_bytes made c e in
    run-IsValid c calls s (
      rw t (record {
        consistent = record {
          small = small;
          word = omega arith;
          counted = refl;
          distinct = tt;
          below = tt;
          indexed = λ k. refl;
          placed = tt;
        };
        bounded = omega arith;
      }))
