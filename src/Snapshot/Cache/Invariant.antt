-- ===== src/Snapshot/Cache/Invariant.antt =====
-- The invariant of `LocalCache`: the accounting is exact, the map and the list agree.
use firefork_ai.Prelude.{
  ℕ, ◌+◌, ◌-◌, ◌^◌, ◌≤◌, ◌<◌, ◌≡◌, refl, sym, subst, ◌∙◌, List, [], ◌∷◌, ◌++◌, some, pop_back, All,
  arith,
}
use firefork_ai.Prelude.Word.{half_mod, sub64, sub64_small}
use firefork_ai.Prelude.Text.{Text}
use firefork_ai.Prelude.Table.{lookup, lookup-delete}
use firefork_ai.Snapshot.Cache.Elements.{Element, find_key, Distinct, Below, sizes}
use firefork_ai.Snapshot.Cache.Moves.{Distinct-front, find_key-front, sizes-back, All-front}
use firefork_ai.Snapshot.Cache.{Cache, evict_one, drop_back}

-- The directory of an entry is the one that `Path` gives for its key.
abbrev pub Placed : Text → Element → Type 0
Placed root x = x.1.path ≡ root ++ b'/' ∷ x.1.key

-- What holds between the critical sections of one call; `size` bytes are about to be added.
pub record IsConsistent (size : ℕ) (c : Cache) : Type 0 where
  pub small : c.max_bytes < 2 ^ 62
  pub word : c.bytes + size < half_mod
  pub counted : c.bytes ≡ sizes c.order
  pub distinct : Distinct c.order
  pub below : Below c.fresh c.order
  pub indexed : (k : Text) → lookup k c.by_key ≡ find_key k c.order
  pub placed : All (Placed c.root) c.order

-- What holds between calls.
pub record IsValid (c : Cache) : Type 0 where
  pub consistent : IsConsistent 0 c
  pub bounded : c.bytes ≤ c.max_bytes

pub drop_back_lem :
    (c : Cache) (rest : List Element) (x : Element)
    → c.order ≡ rest ++ x ∷ []
    → pop_back c.order ≡ some (rest, x)
    → {size : ℕ} → IsConsistent size c
    → IsConsistent size (evict_one c)
      × ((evict_one c).order ≡ rest)
      × ((evict_one c).removed ≡ x.1.path ∷ c.removed)
      × ((evict_one c).bytes + x.1.size ≡ c.bytes)
      × ((evict_one c).max_bytes ≡ c.max_bytes)
      × ((evict_one c).root ≡ c.root)
      × ((evict_one c).fresh ≡ c.fresh)
unfolding evict_one
drop_back_lem c rest (h, e) split p {size} v =
    let d : Distinct (rest ++ (h, e) ∷ []) = subst Distinct split v.distinct in
    let s : sizes c.order ≡ sizes rest + e.size = rw split (sizes-back h e rest) in
    let fits : sub64 c.bytes e.size ≡ c.bytes - e.size =
      sub64_small c.bytes e.size (omega (arith, v.counted, s)) (omega (arith, v.word)) in
    rw (p, drop_back)
      (
        record {
          small = v.small;
          word = rw fits (omega (arith, v.word));
          counted = rw fits (omega (arith, v.counted, s));
          distinct = Distinct-front h e rest d;
          below =
              (All-front (λ y. y.0 < c.fresh) rest (h, e) (subst (Below c.fresh) split v.below)).0;
          indexed = λ k.
              lookup-delete e.key k c.by_key
              ∙ (rw (v.indexed k, split) (sym (find_key-front h e k rest d)));
          placed =
              (All-front (Placed c.root) rest (h, e)
                (subst (All (Placed c.root)) split v.placed)).0;
        },
        refl,
        refl,
        rw fits (omega (arith, v.counted, s)),
        refl,
        refl,
        refl,
      )
