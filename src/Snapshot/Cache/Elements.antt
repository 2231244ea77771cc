-- ===== src/Snapshot/Cache/Elements.antt =====
-- The recency list of `LocalCache` (`container/list`): elements with an identity, most recent first.
use firefork_ai.Prelude.{
  ℕ, ◌+◌, ◌≤◌, ◌<◌, ◌≡◌, refl, List, [], ◌∷◌, Option, none, some, if◌then◌else◌, ◌==◌, ==_iff, inl,
  inr, Bool-cases, subst, All, total, arith,
}
use firefork_ai.Prelude.Text.{Text, text_eq, text_eq_iff}

pub record Entry : Type 0 where
  pub key : Text
  pub path : Text
  pub size : ℕ

-- `*list.Element` with the entry in its `Value`
abbrev pub Element : Type 0
Element = ℕ × Entry

unfoldable pub find_id : ℕ → List Element → Option Entry
find_id h [] = none
find_id h ((i, e) ∷ r) = if i == h then some e else find_id h r

unfoldable pub remove_id : ℕ → List Element → List Element
remove_id h [] = []
remove_id h ((i, e) ∷ r) = if i == h then r else (i, e) ∷ remove_id h r

push_found : ℕ → Option Entry → List Element → List Element
push_found h none l = l
push_found h (some e) l = (h, e) ∷ remove_id h l

-- `MoveToFront`; an element that is not in the list stays out.
unfoldable pub move_to_front : ℕ → List Element → List Element
unfolding push_found
move_to_front h l = push_found h (find_id h l) l

-- `el.Value.(*entry).size = size`
unfoldable pub set_size : ℕ → ℕ → List Element → List Element
set_size h size [] = []
set_size h size ((i, e) ∷ r) =
    if i == h then (i, record e { size = size }) ∷ r else (i, e) ∷ set_size h size r

-- The element with a key: what the map of the cache has to agree with.
unfoldable pub find_key : Text → List Element → Option ℕ
find_key k [] = none
find_key k ((i, e) ∷ r) = if text_eq e.key k then some i else find_key k r

abbrev pub Distinct : List Element → Type 0
Distinct [] = Unit
Distinct ((i, e) ∷ r) = (find_key e.key r ≡ none) × (find_id i r ≡ none) × Distinct r

abbrev pub Below : ℕ → List Element → Type 0
Below n = All (λ x. x.0 < n)

abbrev pub sizes : List Element → ℕ
sizes = total (λ x. x.1.size)

pub find_key-find_id :
    (k : Text) (l : List Element) (h : ℕ)
    → Distinct l
    → find_key k l ≡ some h
    → (e : Entry) × (find_id h l ≡ some e) × (e.key ≡ k)
unfolding find_key find_id
find_key-find_id k [] h d p = cc
find_key-find_id k ((i, e) ∷ r) h (a, b, d) p = elim (Bool-cases (text_eq e.key k)) [
  | inl t ↦ (e, ground arith, (text_eq_iff e.key k).0 t)
  | inr t ↦ let (x, q, s) = find_key-find_id k r h d (ground arith) in (x, ground (arith, b), s)
]

pub find_key-Below :
    (k : Text) (l : List Element) (n h : ℕ) → Below n l → find_key k l ≡ some h → h < n
unfolding find_key
find_key-Below k [] n h b p = absurd (ground arith)
find_key-Below k ((i, e) ∷ r) n h (a, b) p = ground (arith, find_key-Below k r n h b)

pub find_id-Below : (h n : ℕ) (l : List Element) → Below n l → n ≤ h → find_id h l ≡ none
unfolding find_id
find_id-Below h n [] b p = refl
find_id-Below h n ((i, e) ∷ r) (a, b) p = ground (arith, find_id-Below h n r b p)

pub Below-mono : (m n : ℕ) (l : List Element) → m ≤ n → Below m l → Below n l
Below-mono m n [] p b = tt
Below-mono m n (x ∷ l) p (a, b) = (omega arith, Below-mono m n l p b)

-- Taking an element out hides its key and its identity, and nothing else.
pub find_id-remove_id :
    (h j : ℕ) (l : List Element)
    → Distinct l
    → find_id j (remove_id h l) ≡ (if h == j then none else find_id j l)
unfolding find_id remove_id
find_id-remove_id h j [] d = ground arith
find_id-remove_id h j ((i, e) ∷ r) (a, b, d) = ground (arith, b, find_id-remove_id h j r d)

find_key-remove_id_absent :
    (h : ℕ) (j : Text) (l : List Element) → find_key j l ≡ none → find_key j (remove_id h l) ≡ none
unfolding find_key remove_id
find_key-remove_id_absent h j [] p = refl
find_key-remove_id_absent h j ((i, e) ∷ r) p = ground (arith, find_key-remove_id_absent h j r)

pub find_key_of_find_id :
    (h : ℕ) (e : Entry) (l : List Element)
    → Distinct l
    → find_id h l ≡ some e
    → find_key e.key l ≡ some h
unfolding find_key find_id
find_key_of_find_id h e [] d p = absurd (ground arith)
find_key_of_find_id h e ((i, x) ∷ r) (a, b, d) p =
    ground (arith, a, b, text_eq_iff x.key e.key, find_key_of_find_id h e r d)

pub find_key-remove_id :
    (h : ℕ) (e : Entry) (j : Text) (l : List Element)
    → Distinct l
    → find_id h l ≡ some e
    → find_key j (remove_id h l) ≡ (if text_eq e.key j then none else find_key j l)
unfolding find_key find_id remove_id
find_key-remove_id h e j [] d p = absurd (ground arith)
find_key-remove_id h e j ((i, x) ∷ r) (a, b, d) p = ground (
  arith,
  a,
  b,
  text_eq_iff x.key j,
  text_eq_iff e.key j,
  find_key-remove_id h e j r d,
  find_key_of_find_id h e r d,
)

pub remove_id-Distinct : (h : ℕ) (l : List Element) → Distinct l → Distinct (remove_id h l)
unfolding remove_id
remove_id-Distinct h [] d = tt
remove_id-Distinct h ((i, e) ∷ r) (a, b, d) = ground (
  arith,
  remove_id-Distinct h r d,
  find_key-remove_id_absent h e.key r a,
  find_id-remove_id h i r d,
)

pub All-remove_id {ℓ} :
    (P : Element → Type ℓ) (h : ℕ) (l : List Element) → All P l → All P (remove_id h l)
unfolding remove_id
All-remove_id P h [] a = tt
All-remove_id P h ((i, e) ∷ r) (p, a) = elim (Bool-cases (i == h)) [
  | inl t ↦ rw t a
  | inr t ↦ rw t (p, All-remove_id P h r a)
]

pub All-find_id {ℓ} :
    (P : Element → Type ℓ) (h : ℕ) (l : List Element) (e : Entry)
    → All P l
    → find_id h l ≡ some e
    → P (h, e)
unfolding find_id
All-find_id P h [] e a p = absurd (ground arith)
All-find_id P h ((i, x) ∷ r) e (q, a) p = elim (Bool-cases (i == h)) [
  | inl t ↦
      let s : x ≡ e = ground arith in
      subst (λ y. P (h, y)) s (subst (λ n. P (n, x)) ((==_iff i h).0 t) q)
  | inr t ↦ All-find_id P h r e a (ground arith)
]

pub sizes-remove_id :
    (h : ℕ) (l : List Element) (e : Entry)
    → find_id h l ≡ some e
    → sizes (remove_id h l) + e.size ≡ sizes l
unfolding find_id remove_id
sizes-remove_id h [] e p = absurd (ground arith)
sizes-remove_id h ((i, x) ∷ r) e p = ground (arith, sizes-remove_id h r e)
