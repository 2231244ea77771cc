-- ===== src/Snapshot/Cache/Moves.antt =====
-- Lemmas on the recency list: moving to the front, changing a size, dropping the last element.
use firefork_ai.Prelude.{
  ℕ, ◌+◌, ◌≡◌, refl, false, List, [], ◌∷◌, ◌++◌, none, some, if◌then◌else◌, ◌==◌, inl, inr,
  Bool-cases, All, total-append, arith,
}
use firefork_ai.Prelude.Text.{Text, text_eq, text_eq_iff, text_eq_refl}
use firefork_ai.Snapshot.Cache.Elements.{
  Entry, Element, find_id, remove_id, move_to_front, set_size, find_key, Distinct, sizes,
  find_key-remove_id, find_id-remove_id, remove_id-Distinct, All-remove_id, All-find_id,
  sizes-remove_id, find_key_of_find_id,
}

module _ (h : ℕ) (l : List Element) (e : Entry) (here : find_id h l ≡ some e) where
  pub move_to_front_lem : move_to_front h l ≡ (h, e) ∷ remove_id h l
  unfolding move_to_front
  move_to_front_lem = rw (here, move_to_front)

  pub find_key-move_to_front :
      (j : Text) → Distinct l → find_key j (move_to_front h l) ≡ find_key j l
  unfolding find_key
  find_key-move_to_front j d = rw move_to_front_lem (
      ground (
        arith,
        find_key-remove_id h e j l d here,
        find_key_of_find_id h e l d here,
        text_eq_iff e.key j,
      ))

  pub move_to_front-Distinct : Distinct l → Distinct (move_to_front h l)
  move_to_front-Distinct d = rw move_to_front_lem (
    ground (arith, find_key-remove_id h e e.key l d here, text_eq_refl e.key),
    ground (arith, find_id-remove_id h h l d),
    remove_id-Distinct h l d,
  )

  pub sizes-move_to_front : sizes (move_to_front h l) ≡ sizes l
  sizes-move_to_front = rw move_to_front_lem (omega (arith, sizes-remove_id h l e here))

  pub All-move_to_front {ℓ} : (P : Element → Type ℓ) → All P l → All P (move_to_front h l)
  All-move_to_front P a = rw move_to_front_lem (All-find_id P h l e a here, All-remove_id P h l a)

module _ (h size : ℕ) where
  pub find_key-set_size :
      (j : Text) (l : List Element) → find_key j (set_size h size l) ≡ find_key j l
  unfolding find_key set_size
  find_key-set_size j [] = refl
  find_key-set_size j ((i, x) ∷ r) = ground (arith, find_key-set_size j r)

  pub find_id-set_size :
      (j : ℕ) (l : List Element) (e : Entry)
      → find_id j l ≡ some e
      → find_id j (set_size h size l) ≡ some (if j == h then record e { size = size } else e)
  unfolding find_id set_size
  find_id-set_size j [] e p = absurd (ground arith)
  find_id-set_size j ((i, x) ∷ r) e p = ground (arith, find_id-set_size j r e)

  find_id-set_size-none :
      (j : ℕ) (l : List Element) → find_id j l ≡ none → find_id j (set_size h size l) ≡ none
  unfolding find_id set_size
  find_id-set_size-none j [] p = refl
  find_id-set_size-none j ((i, x) ∷ r) p = ground (arith, find_id-set_size-none j r)

  pub set_size-Distinct : (l : List Element) → Distinct l → Distinct (set_size h size l)
  unfolding set_size
  set_size-Distinct [] d = tt
  set_size-Distinct ((i, x) ∷ r) (a, b, d) = ground (
    arith,
    a,
    b,
    d,
    set_size-Distinct r d,
    find_key-set_size x.key r,
    find_id-set_size-none i r b,
  )

  pub sizes-set_size :
      (l : List Element) (e : Entry)
      → find_id h l ≡ some e
      → sizes (set_size h size l) + e.size ≡ sizes l + size
  unfolding find_id set_size
  sizes-set_size [] e p = absurd (ground arith)
  sizes-set_size ((i, x) ∷ r) e p = ground (arith, sizes-set_size r e)

  pub All-set_size {ℓ} :
      (P : Element → Type ℓ)
      → ((x : Element) → P x → P (x.0, record (x.1) { size = size }))
      → (l : List Element) → All P l
      → All P (set_size h size l)
  unfolding set_size
  All-set_size P f [] a = tt
  All-set_size P f ((i, x) ∷ r) (p, a) = elim (Bool-cases (i == h)) [
    | inl t ↦ rw t (f (i, x) p, a)
    | inr t ↦ rw t (p, All-set_size P f r a)
  ]

-- The last element.
module _ (h : ℕ) (e : Entry) where
  find_key_back_none :
      (j : Text) (l : List Element)
      → find_key j (l ++ (h, e) ∷ []) ≡ none
      → (find_key j l ≡ none) × (text_eq e.key j ≡ false)
  unfolding find_key
  find_key_back_none j [] p = ground arith
  find_key_back_none j ((i, x) ∷ r) p = ground (arith, find_key_back_none j r)

  find_id_back_none :
      (j : ℕ) (l : List Element) → find_id j (l ++ (h, e) ∷ []) ≡ none → find_id j l ≡ none
  unfolding find_id
  find_id_back_none j [] p = refl
  find_id_back_none j ((i, x) ∷ r) p = ground (arith, find_id_back_none j r)

  pub Distinct-front : (l : List Element) → Distinct (l ++ (h, e) ∷ []) → Distinct l
  Distinct-front [] d = tt
  Distinct-front ((i, x) ∷ r) (a, b, d) =
      ((find_key_back_none x.key r a).0, find_id_back_none i r b, Distinct-front r d)

  pub find_key-front :
      (j : Text) (l : List Element)
      → Distinct (l ++ (h, e) ∷ [])
      → find_key j l ≡ (if text_eq e.key j then none else find_key j (l ++ (h, e) ∷ []))
  unfolding find_key
  find_key-front j [] d = ground arith
  find_key-front j ((i, x) ∷ r) (a, b, d) = ground (
    arith,
    find_key_back_none x.key r a,
    find_key-front j r d,
    text_eq_iff x.key j,
    text_eq_iff e.key j,
    text_eq_iff e.key x.key,
  )

  pub sizes-back : (l : List Element) → sizes (l ++ (h, e) ∷ []) ≡ sizes l + e.size
  sizes-back l = omega (arith, total-append {0} (λ (x : Element). x.1.size) l ((h, e) ∷ []))

pub All-front {ℓ} :
    (P : Element → Type ℓ) (l : List Element) (x : Element) → All P (l ++ x ∷ []) → All P l × P x
All-front P [] x (p, _) = (tt, p)
All-front P (y ∷ l) x (q, a) = let (b, p) = All-front P l x a in ((q, b), p)
