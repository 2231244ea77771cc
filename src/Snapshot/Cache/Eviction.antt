-- ===== src/Snapshot/Cache/Eviction.antt =====
-- The two eviction loops of `LocalCache`: they end within budget, and drop the oldest entries only.
use firefork_ai.Prelude.{
  ℕ, zero, suc, ◌+◌, ◌≤◌, ◌<◌, ◌≡◌, refl, sym, ap, subst, ◌∙◌, Bool, List, [], ◌∷◌, ◌++◌, map, ltb,
  ◌⊎◌, inl, inr, Bool-cases, Option-cases, pop_back, pop_back_lem, pop_back-none, length-append,
  arith, length,
}
use mathlib.Core.List.{append_assoc, append-nil, map-append}
use firefork_ai.Prelude.Word.{half_mod, add64_small, lt64, lt64_small}
use firefork_ai.Prelude.Text.{Text}
use firefork_ai.Snapshot.Cache.Elements.{Element, sizes}
use firefork_ai.Snapshot.Cache.Invariant.{IsConsistent, drop_back_lem}
use firefork_ai.Snapshot.Cache.Moves.{sizes-back}
use firefork_ai.Snapshot.Cache.{Cache, evict_one, evict_while, over_full, evict}

abbrev pub paths : List Element → List Text
paths = map (λ x. x.1.path)

-- `d` is `c` after an eviction that makes room for `size` bytes: the elements `gone` at the old end
-- of the list were dropped and their directories removed, oldest first, and the last one dropped
-- did not fit any more.
pub record Evicted (size : ℕ) (c d : Cache) : Type 0 where
  pub gone : List Element
  pub split : c.order ≡ d.order ++ gone
  pub cleaned : d.removed ≡ paths gone ++ c.removed
  pub needed :
      (gone ≡ [])
      ⊎ ((x : Element) × (r : List Element) × (gone ≡ x ∷ r)
          × (c.max_bytes < sizes d.order + x.1.size + size))
  pub same_max : d.max_bytes ≡ c.max_bytes
  pub same_root : d.root ≡ c.root
  pub same_fresh : d.fresh ≡ c.fresh

Evicted-refl : (size : ℕ) (c : Cache) → Evicted size c c
Evicted-refl size c = record {
  gone = [];
  split = sym (append-nil c.order);
  cleaned = refl;
  needed = inl refl;
  same_max = refl;
  same_root = refl;
  same_fresh = refl;
}

-- One more element at the old end.
Evicted-step :
    (size : ℕ) (c b d : Cache) (x : Element)
    → c.order ≡ b.order ++ x ∷ []
    → b.removed ≡ x.1.path ∷ c.removed
    → b.max_bytes ≡ c.max_bytes
    → b.root ≡ c.root
    → b.fresh ≡ c.fresh
    → c.max_bytes < sizes b.order + x.1.size + size
    → Evicted size b d
    → Evicted size c d
Evicted-step size c b d x o r m t f over e = record {
  gone = e.gone ++ x ∷ [];
  split = o ∙ ap (λ l. l ++ x ∷ []) e.split ∙ append_assoc d.order e.gone (x ∷ []);
  cleaned =
      e.cleaned
      ∙ ap (◌++◌ (paths e.gone)) r
      ∙ sym (append_assoc (paths e.gone) (x.1.path ∷ []) c.removed)
      ∙ ap (λ l. l ++ c.removed) (sym (map-append (λ (y : Element). y.1.path) e.gone (x ∷ [])));
  needed = elim e.needed [
    | inl none_gone ↦ inr (
      x,
      [],
      ap (λ l. l ++ x ∷ []) none_gone,
      subst (λ l. c.max_bytes < sizes l + x.1.size + size)
          (e.split ∙ ap (◌++◌ d.order) none_gone ∙ append-nil d.order) over,
    )
    | inr (y, rest, s, big) ↦ inr (y, rest ++ x ∷ [], ap (λ l. l ++ x ∷ []) s, omega (arith, m))
  ];
  same_max = e.same_max ∙ m;
  same_root = e.same_root ∙ t;
  same_fresh = e.same_fresh ∙ f;
}

empty_of_zero : (l : List Element) → length l ≤ 0 → sizes l ≡ 0
empty_of_zero [] h = refl
empty_of_zero (x ∷ l) h = absurd (omega arith)

module _ (size : ℕ) (test : Cache → Bool)
    (reads : (d : Cache) → IsConsistent size d → test d ≡ ltb d.max_bytes (d.bytes + size)) where
  -- With as much fuel as the list has elements the loop ends within the budget.
  pub evict_while_lem :
      (fuel : ℕ) (c : Cache)
      → length c.order ≤ fuel
      → size ≤ c.max_bytes
      → IsConsistent size c
      → IsConsistent size (evict_while fuel test c)
        × Evicted size c (evict_while fuel test c)
        × ((evict_while fuel test c).bytes + size ≤ c.max_bytes)
  unfolding evict_while
  evict_while_lem zero c n fits v =
      (v, Evicted-refl size c, omega (arith, v.counted, empty_of_zero c.order n))
  evict_while_lem (suc fuel) c n fits v = elim (Bool-cases (test c)) [
    | inl over ↦ elim (Option-cases (pop_back c.order)) [
      | inl e ↦
          let none_left : sizes c.order ≡ 0 = rw (pop_back-none c.order e) refl in
          absurd (ground (arith, reads c v, v.counted))
      | inr ((rest, x), p) ↦
          let o = pop_back_lem c.order rest x p in
          let sz : sizes c.order ≡ sizes rest + x.1.size = rw o (sizes-back x.0 x.1 rest) in
          let big : c.max_bytes < c.bytes + size = ground (arith, reads c v) in
          let (w, q, r, b, m, t, f) = drop_back_lem c rest x o p v in
          let (w2, ev, done) =
            evict_while_lem fuel (evict_one c)
              (omega (arith, ap length o, length-append {0} rest (x ∷ []), ap length q))
              (omega (arith, m)) w in
          rw (over, evict_while)
            (
              w2,
              Evicted-step size c (evict_one c) _ x (rw q o) r m t f
                  (rw q (omega (arith, v.counted, sz, big))) ev,
              omega (arith, m),
            )
    ]
    | inr under ↦ rw (under, evict_while) (v, Evicted-refl size c, ground (arith, reads c v))
  ]

over_full-reads :
    (size : ℕ) (d : Cache)
    → IsConsistent size d
    → over_full size d ≡ ltb d.max_bytes (d.bytes + size)
over_full-reads size d v =
    let wide : d.max_bytes < half_mod = omega (arith, v.small) in
    rw (add64_small d.bytes size v.word) (lt64_small d.max_bytes (d.bytes + size) wide v.word)

-- The loop of `Insert` for a new key.
pub make_room_lem :
    (size : ℕ) (c : Cache)
    → size ≤ c.max_bytes
    → IsConsistent size c
    → let d = evict_while (length c.order) (over_full size) c in
      IsConsistent size d × Evicted size c d × (d.bytes + size ≤ c.max_bytes)
make_room_lem size c fits v =
    evict_while_lem size (over_full size) (over_full-reads size) (length c.order) c (omega arith)
      fits v

-- `evictLocked`
pub evict_lem :
    (c : Cache)
    → IsConsistent 0 c
    → IsConsistent 0 (evict c) × Evicted 0 c (evict c) × ((evict c).bytes + 0 ≤ c.max_bytes)
unfolding evict
evict_lem c v =
    evict_while_lem 0 (λ d. lt64 d.max_bytes d.bytes)
      (λ d w.
        lt64_small d.max_bytes d.bytes (omega (arith, w.small)) (omega (arith, w.word))
        ∙ ap (ltb d.max_bytes) (omega arith))
      (length c.order) c (omega arith) (omega arith) v
