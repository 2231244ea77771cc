-- ===== src/Template/Registry/Order.antt =====
-- `List` sorts, and neither loses nor invents an entry.
use firefork_ai.Prelude.{
  ℕ, ◌<◌, ◌≡◌, refl, ap, sym, subst, ◌∙◌, Bool, true, false, List, [], ◌∷◌, if◌then◌else◌, ltb, map,
  Bool-cases, ◌⊎◌, inl, inr, arith,
}
use mathlib.Core.List.{Perm}
use mathlib.Core.List.Perm
use firefork_ai.Prelude.Text.{Text, text_eq, text_eq_iff}
use firefork_ai.Template.Registry.{
  Entry, Registry, text_lt, entry_less, insert_sorted, sort_entries, list_entries,
}

-- The lexicographic order of strings by their bytes.
pub data Precedes : Text → Text → Type 0 where
  shorter : (c : ℕ) (t : Text) → Precedes [] (c ∷ t)
  first : (c d : ℕ) (s t : Text) → c < d → Precedes (c ∷ s) (d ∷ t)
  later : (c : ℕ) (s t : Text) → Precedes s t → Precedes (c ∷ s) (c ∷ t)

not_after : (s t : Text) → text_lt t s ≡ false → Precedes s t ⊎ (s ≡ t)
unfolding text_lt
not_after [] [] h = inr refl
not_after [] (d ∷ t) h = inl (shorter d t)
not_after (c ∷ s) [] h = absurd (ground arith)
not_after (c ∷ s) (d ∷ t) h = elim (Bool-cases (ltb c d)) [
  | inl q ↦ inl (first c d s t (ground arith))
  | inr q ↦
      let same : c ≡ d = ground arith in
      elim (not_after s t (ground arith)) [
        | inl p ↦ inl (subst (λ e. Precedes (c ∷ s) (e ∷ t)) same (later c s t p))
        | inr e ↦ inr (ap (λ x. x ∷ s) same ∙ ap (◌∷◌ d) e)
      ]
]

-- By name, and by version where the names are equal.
abbrev pub IsInOrder : Entry → Entry → Type 0
IsInOrder a b =
    Precedes a.name b.name
    ⊎ ((a.name ≡ b.name) × (Precedes a.version b.version ⊎ (a.version ≡ b.version)))

not_less : (a b : Entry) → entry_less b a ≡ false → IsInOrder a b
unfolding entry_less
not_less a b h = elim (Bool-cases (text_eq b.name a.name)) [
  | inl q ↦
      inr (sym ((text_eq_iff b.name a.name).0 q), not_after a.version b.version (ground (arith, h)))
  | inr q ↦ elim (not_after a.name b.name (ground (arith, h))) [
    | inl p ↦ inl p
    | inr e ↦ absurd (ground (arith, (text_eq_iff b.name a.name).1 (sym e)))
  ]
]

pub text_lt_asym : (s t : Text) → text_lt s t ≡ true → text_lt t s ≡ false
unfolding text_lt
text_lt_asym s [] h = absurd (ground arith)
text_lt_asym [] (d ∷ t) h = refl
text_lt_asym (c ∷ s) (d ∷ t) h = ground (arith, text_lt_asym s t)

-- Neither entry of a neighbouring pair is out of place.
abbrev Sorted : List Entry → Type 0
Sorted [] = Unit
Sorted (a ∷ []) = Unit
Sorted (a ∷ b ∷ l) = (entry_less b a ≡ false) × Sorted (b ∷ l)

entry_less_asym : (a b : Entry) → entry_less a b ≡ true → entry_less b a ≡ false
unfolding entry_less
entry_less_asym a b h = ground (
  arith,
  text_eq_iff a.name b.name,
  text_eq_iff b.name a.name,
  text_lt_asym a.name b.name,
  text_lt_asym a.version b.version,
)

keeps_first :
    (e f g : Entry) (l x : List Entry) (b : Bool)
    → entry_less g f ≡ false
    → entry_less e f ≡ false
    → Sorted (if b then g ∷ x else e ∷ g ∷ l)
    → Sorted (f ∷ (if b then g ∷ x else e ∷ g ∷ l))
keeps_first e f g l x true p q h = (p, h)
keeps_first e f g l x false p q h = (q, h)

insert_sorted-Sorted : (e : Entry) (l : List Entry) → Sorted l → Sorted (insert_sorted e l)
unfolding insert_sorted
insert_sorted-Sorted e [] h = tt
insert_sorted-Sorted e (f ∷ []) h = elim (Bool-cases (entry_less f e)) [
  | inl q ↦ rw (q, insert_sorted) (entry_less_asym f e q, tt)
  | inr q ↦ rw (q, insert_sorted) (q, tt)
]
insert_sorted-Sorted e (f ∷ g ∷ l) (p, h) =
    let rest = insert_sorted-Sorted e (g ∷ l) h in
    elim (Bool-cases (entry_less f e)) [
      | inr q ↦ rw (q, insert_sorted) (q, (p, h))
      | inl q ↦
          rw (q, insert_sorted)
            (keeps_first e f g l (insert_sorted e l) (entry_less g e) p (entry_less_asym f e q)
              rest)
    ]

insert_sorted-Perm : (e : Entry) (l : List Entry) → Perm (insert_sorted e l) (e ∷ l)
unfolding insert_sorted
insert_sorted-Perm e [] = Perm.refl (e ∷ [])
insert_sorted-Perm e (f ∷ l) = elim (Bool-cases (entry_less f e)) [
  | inl q ↦
      rw (q, insert_sorted) (Perm.trans (Perm.cons f (insert_sorted-Perm e l)) (Perm.swap e f l))
  | inr q ↦ rw (q, insert_sorted) (Perm.refl (e ∷ f ∷ l))
]

sort_entries-Sorted : (l : List Entry) → Sorted (sort_entries l)
unfolding sort_entries
sort_entries-Sorted [] = tt
sort_entries-Sorted (e ∷ l) = insert_sorted-Sorted e (sort_entries l) (sort_entries-Sorted l)

sort_entries-Perm : (l : List Entry) → Perm (sort_entries l) l
unfolding sort_entries
sort_entries-Perm [] = Perm.refl []
sort_entries-Perm (e ∷ l) =
    Perm.trans (insert_sorted-Perm e (sort_entries l)) (Perm.cons e (sort_entries-Perm l))

-- Each entry is in order with the next.
abbrev pub IsOrdered : List Entry → Type 0
IsOrdered [] = Unit
IsOrdered (a ∷ []) = Unit
IsOrdered (a ∷ b ∷ l) = IsInOrder a b × IsOrdered (b ∷ l)

Sorted-IsOrdered : (l : List Entry) → Sorted l → IsOrdered l
Sorted-IsOrdered [] h = tt
Sorted-IsOrdered (a ∷ []) h = tt
Sorted-IsOrdered (a ∷ b ∷ l) (p, h) = (not_less a b p, Sorted-IsOrdered (b ∷ l) h)

-- `List` returns every entry of the registry as often as the map has it, and in order: the name of
-- each entry comes before that of the next in the lexicographic order of their bytes, or is equal to
-- it, and then the version comes before that of the next or is equal to it.
pub list_entries-IsOrdered :
    (r : Registry) → IsOrdered (list_entries r) × Perm (list_entries r) (map (λ p. p.1) r.entries)
unfolding list_entries
list_entries-IsOrdered r =
    let l = map (λ p. p.1) r.entries in
    (Sorted-IsOrdered (sort_entries l) (sort_entries-Sorted l), sort_entries-Perm l)
