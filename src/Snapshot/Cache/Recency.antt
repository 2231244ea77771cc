-- ===== src/Snapshot/Cache/Recency.antt =====
-- `NewLocalCache`, `Get` and `Insert` keep the invariant; an inserted bundle is found, most recent.
use firefork_ai.Prelude.{
  ℕ, suc, ◌+◌, ◌-◌, ◌≤◌, ◌<◌, ◌≡◌, ◌≢◌, refl, sym, ap, subst, ◌∙◌, Bool, not, ◌||◌, List, [], ◌∷◌,
  ◌++◌, none, some, if◌then◌else◌, inl, inr, Bool-cases, Option-cases, arith, length,
}
use firefork_ai.Prelude.Word.{add64, add64_small, sub64, sub64_small}
use firefork_ai.Prelude.Text.{Text, text_eq}
use firefork_ai.Prelude.Table.{lookup, lookup-insert}
use firefork_ai.Snapshot.Cache.Elements.{
  Entry, Element, find_id, find_key, Distinct, Below, Below-mono, sizes, move_to_front, remove_id,
  set_size, find_key-find_id, find_id-Below, find_key_of_find_id,
}
use firefork_ai.Snapshot.Cache.Elements
use firefork_ai.Snapshot.Cache.Moves
use firefork_ai.Snapshot.Cache.Moves.{move_to_front_lem}
use firefork_ai.Snapshot.Cache.Invariant.{IsConsistent, IsValid, Placed}
use firefork_ai.Snapshot.Cache.Eviction.{Evicted, make_room_lem, evict_lem}
use firefork_ai.Snapshot.Cache.{
  Cache, cache_key, valid_component, found, get, push_new, evict, evict_while, over_full,
}

module _ (h : ℕ) (c : Cache) (e : Entry) (here : find_id h c.order ≡ some e) where
  -- Moving an element to the front touches nothing that the invariant speaks of.
  touch-IsConsistent :
      IsConsistent 0 c → IsConsistent 0 (record c { order = move_to_front h c.order })
  touch-IsConsistent v = record {
    small = v.small;
    word = v.word;
    counted = v.counted ∙ sym (Moves.sizes-move_to_front h c.order e here);
    distinct = Moves.move_to_front-Distinct h c.order e here v.distinct;
    below = Moves.All-move_to_front h c.order e here (λ x. x.0 < c.fresh) v.below;
    indexed = λ k. v.indexed k ∙ sym (Moves.find_key-move_to_front h c.order e here k v.distinct);
    placed = Moves.All-move_to_front h c.order e here (Placed c.root) v.placed;
  }

found-IsValid : (c : Cache) (h : ℕ) → IsValid c → IsValid (found c h (find_id h c.order)).0
unfolding found
found-IsValid c h v = elim (Option-cases (find_id h c.order)) [
  | inl e ↦ rw (e, found) v
  | inr (x, e) ↦
      rw (e, found)
        (record { consistent = touch-IsConsistent h c x e v.consistent; bounded = v.bounded })
]

abbrev pub bad_name : Text → Text → Bool
bad_name name version = not (valid_component name) || not (valid_component version)

-- A lookup keeps the invariant.
pub get-IsValid : (c : Cache) (name version : Text) → IsValid c → IsValid (get c name version).0
unfolding get
get-IsValid c name version v = elim (Bool-cases (bad_name name version)) [
  | inl b ↦ rw (b, get) v
  | inr b ↦ elim (Option-cases (lookup (cache_key name version) c.by_key)) [
    | inl e ↦ rw (b, e, get) v
    | inr (h, e) ↦ rw (b, e, get) (found-IsValid c h v)
  ]
]

push_new-IsValid :
    (c : Cache) (key dir : Text) (size : ℕ)
    → IsConsistent size c
    → c.bytes + size ≤ c.max_bytes
    → find_key key c.order ≡ none
    → dir ≡ c.root ++ b'/' ∷ key
    → IsValid (push_new c key dir size)
unfolding push_new find_key
push_new-IsValid c key dir size v fits new at =
    let sum : add64 c.bytes size ≡ c.bytes + size = add64_small c.bytes size v.word in
    record {
      consistent = record {
        small = v.small;
        word = rw sum (omega (arith, v.word));
        counted = rw sum (omega (arith, v.counted));
        distinct = (new, find_id-Below c.fresh c.fresh c.order v.below (omega arith), v.distinct);
        below = (omega arith, Below-mono c.fresh (suc c.fresh) c.order (omega arith) v.below);
        indexed = λ k.
            lookup-insert key k c.fresh c.by_key
            ∙ ap (λ o. if text_eq key k then some c.fresh else o) (v.indexed k);
        placed = (at, v.placed);
      };
      bounded = rw sum fits;
    }

find_key-append_none :
    (k : Text) (l r : List Element) → find_key k (l ++ r) ≡ none → find_key k l ≡ none
unfolding find_key
find_key-append_none k [] r p = refl
find_key-append_none k ((i, x) ∷ l) r p = ground (arith, find_key-append_none k l r)

-- The most recent entry after a call.
pub record Front (c : Cache) (key dir : Text) (size : ℕ) : Type 0 where
  pub id : ℕ
  pub entry : Entry
  pub rest : List Element
  pub first : c.order ≡ (id, entry) ∷ rest
  pub its_key : entry.key ≡ key
  pub its_path : entry.path ≡ dir
  pub its_size : entry.size ≡ size

module _ (c : Cache) (key dir : Text) (size : ℕ) (v : IsValid c) (fits : size ≤ c.max_bytes)
    (at : dir ≡ c.root ++ b'/' ∷ key) where
  abbrev pub roomy : Cache
  roomy = evict_while (length c.order) (over_full size) c

  weaken : IsConsistent size c
  weaken =
      let open_v = v.consistent in
      record {
        small = open_v.small;
        word = omega (arith, v.bounded, open_v.small);
        counted = open_v.counted;
        distinct = open_v.distinct;
        below = open_v.below;
        indexed = open_v.indexed;
        placed = open_v.placed;
      }

  pub record_new :
      lookup key c.by_key ≡ none
      → IsValid (push_new roomy key dir size)
        × Front (push_new roomy key dir size) key dir size
        × Evicted size c roomy
  record_new e =
      let (w, ev, room) = make_room_lem size c fits weaken in
      let absent : find_key key roomy.order ≡ none =
        find_key-append_none key roomy.order ev.gone
          (subst (λ l. find_key key l ≡ none) ev.split (sym (v.consistent.indexed key) ∙ e)) in
      (
        push_new-IsValid roomy key dir size w (omega (arith, ev.same_max)) absent
            (at ∙ ap (λ r. r ++ b'/' ∷ key) (sym ev.same_root)),
        unfold push_new in
            record {
              id = roomy.fresh;
              entry = record { key = key; path = dir; size = size };
              rest = roomy.order;
              first = refl;
              its_key = refl;
              its_path = refl;
              its_size = refl;
            },
        ev,
      )

front_stays :
    (l gone tail : List Element) (x : Element)
    → x ∷ tail ≡ l ++ gone
    → l ≢ []
    → (r : List Element) × (l ≡ x ∷ r)
front_stays [] gone tail x p n = absurd (n refl)
front_stays (y ∷ l) gone tail x p n = (l, ground arith)

module _ (c : Cache) (key dir : Text) (size : ℕ) (v : IsValid c) (fits : size ≤ c.max_bytes)
    (at : dir ≡ c.root ++ b'/' ∷ key) (h : ℕ) (e : Entry) (here : find_id h c.order ≡ some e)
    (its : e.key ≡ key) where
  abbrev pub resized : List Element
  resized = set_size h size c.order

  abbrev pub fresh_size : Entry
  fresh_size = record e { size = size }

  here' : find_id h resized ≡ some fresh_size
  here' = rw (Moves.find_id-set_size h size h c.order e here) (ground arith)

  abbrev pub touched : Cache
  touched = record c { bytes = add64 (sub64 c.bytes e.size) size; order = move_to_front h resized }

  touched_bytes : touched.bytes + e.size ≡ c.bytes + size
  touched_bytes =
      let held : e.size ≤ c.bytes =
        omega (arith, Elements.sizes-remove_id h c.order e here, v.consistent.counted) in
      let small = v.consistent.small in
      let bounded = v.bounded in
      let word = v.consistent.word in
      rw
        (
          sub64_small c.bytes e.size held (omega arith),
          add64_small (c.bytes - e.size) size (omega arith),
        )
        (omega arith)

  resized-IsConsistent : IsConsistent 0 (record c { bytes = touched.bytes; order = resized })
  resized-IsConsistent = record {
    small = v.consistent.small;
    word = omega (arith, touched_bytes, v.bounded, v.consistent.small);
    counted =
        omega
          (arith, touched_bytes, Moves.sizes-set_size h size c.order e here, v.consistent.counted);
    distinct = Moves.set_size-Distinct h size c.order v.consistent.distinct;
    below = Moves.All-set_size h size (λ x. x.0 < c.fresh) (λ x p. p) c.order v.consistent.below;
    indexed = λ k. v.consistent.indexed k ∙ sym (Moves.find_key-set_size h size k c.order);
    placed = Moves.All-set_size h size (Placed c.root) (λ x p. p) c.order v.consistent.placed;
  }

  pub record_old :
      IsValid (evict touched)
      × Front (evict touched) key dir size
      × Evicted 0 touched (evict touched)
  record_old =
      let moved =
        touch-IsConsistent h (record c { bytes = touched.bytes; order = resized }) fresh_size here'
          resized-IsConsistent in
      let (w, ev, room) = evict_lem touched moved in
      let top = move_to_front_lem h resized fresh_size here' in
      let d = evict touched in
      let stays : d.order ≢ [] = λ none_left. elim ev.needed [
        | inl g ↦ absurd (cc (ev.split, top, none_left, g))
        | inr (x, r, g, big) ↦
            let s : (h, fresh_size) ∷ remove_id h resized ≡ x ∷ r =
              sym top ∙ ev.split ∙ ap (λ l. l ++ ev.gone) none_left ∙ g in
            absurd (ground (arith, none_left, big, s))
      ] in
      let (r, kept) =
        front_stays d.order ev.gone (remove_id h resized) (h, fresh_size) (sym top ∙ ev.split)
          stays in
      (
        record { consistent = w; bounded = omega (arith, room, ev.same_max) },
        record {
          id = h;
          entry = fresh_size;
          rest = r;
          first = kept;
          its_key = its;
          its_path =
              Elements.All-find_id (Placed c.root) h c.order e v.consistent.placed here
              ∙ ap (λ k. c.root ++ b'/' ∷ k) its
              ∙ sym at;
          its_size = refl;
        },
        ev,
      )
