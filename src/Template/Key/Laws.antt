-- ===== src/Template/Key/Laws.antt =====
-- `ParseKey` accepts exactly the printed keys of two good halves.
use firefork_ai.Prelude.{
  ℕ, ◌≡◌, refl, sym, ap, subst, ◌∙◌, ◌≢◌, ◌↔◌, inl, inr, false, List, [], ◌∷◌, ◌++◌, ◌==◌, ==_iff,
  ok, Bool-cases, arith, All,
}
use firefork_ai.Prelude.Text.{Text, text_eq, is_empty, has_prefix, contains_any, split, cons_head}
use firefork_ai.Template.Key.{
  slash, dot, control_chars, bad_half, check_halves, two_parts, parse_key, entry_key,
}

abbrev pub IsPlain : ℕ → Type 0
IsPlain c = (c ≢ slash) × (c ≢ 0) × (c ≢ 9) × (c ≢ 10) × (c ≢ 13)

-- What a half of a key may be, with no reference to the code's tests.
abbrev pub IsHalf : Text → Type 0
IsHalf [] = ⊥
IsHalf (c ∷ s) = (c ≢ dot) × All IsPlain (c ∷ s)

abbrev Lacks : ℕ → Text → Type 0
Lacks sep s = All (λ c. c ≢ sep) s

split-append : (sep : ℕ) (a b : Text) → Lacks sep a → split sep (a ++ sep ∷ b) ≡ a ∷ split sep b
unfolding split
split-append sep [] b h = ground arith
split-append sep (c ∷ a) b (p, h) = ground (arith, split-append sep a b h)

split_whole : (sep : ℕ) (a : Text) → Lacks sep a → split sep a ≡ a ∷ []
unfolding split
split_whole sep [] h = refl
split_whole sep (c ∷ a) (p, h) = ground (arith, split_whole sep a h)

-- The parts that `split` returns, joined again, are the text, and none holds the separator.
Parts : ℕ → Text → List Text → Type 0
Parts sep s [] = ⊥
Parts sep s (p ∷ []) = Lacks sep p × (s ≡ p)
Parts sep s (p ∷ q ∷ r) = Lacks sep p × (t : Text) × (s ≡ p ++ sep ∷ t) × Parts sep t (q ∷ r)

Parts-sep : (sep : ℕ) (s : Text) (ps : List Text) → Parts sep s ps → Parts sep (sep ∷ s) ([] ∷ ps)
unfolding Parts
Parts-sep sep s [] h = absurd h
Parts-sep sep s (p ∷ ps) h = (tt, s, refl, h)

Parts-cons_head :
    (sep c : ℕ) (s : Text) (ps : List Text)
    → c ≢ sep
    → Parts sep s ps
    → Parts sep (c ∷ s) (cons_head c ps)
unfolding Parts
Parts-cons_head sep c s [] n h = absurd h
Parts-cons_head sep c s (p ∷ []) n (l, e) = ((n, l), ap (◌∷◌ c) e)
Parts-cons_head sep c s (p ∷ q ∷ r) n (l, t, e, h) = ((n, l), t, ap (◌∷◌ c) e, h)

split-Parts : (sep : ℕ) (s : Text) → Parts sep s (split sep s)
unfolding Parts split
split-Parts sep [] = (tt, refl)
split-Parts sep (c ∷ s) = elim (Bool-cases (c == sep)) [
  | inl e ↦
      rw (e, split)
        (subst (λ d. Parts sep (d ∷ s) ([] ∷ split sep s)) (sym ((==_iff c sep).0 e))
          (Parts-sep sep s (split sep s) (split-Parts sep s)))
  | inr n ↦ rw (n, split) (Parts-cons_head sep c s (split sep s) (ground arith) (split-Parts sep s))
]

split_two :
    (sep : ℕ) (s a b : Text)
    → split sep s ≡ a ∷ b ∷ []
    → (s ≡ a ++ sep ∷ b) × Lacks sep a × Lacks sep b
unfolding Parts
split_two sep s a b e =
    let (l, t, p, mq) = subst (Parts sep s) e (split-Parts sep s) in (rw (← mq.1) p, l, mq.0)

Plain-bad : (p : Text) → Lacks slash p → contains_any control_chars p ≡ false → All IsPlain p
unfolding contains_any
Plain-bad [] l h = tt
Plain-bad (c ∷ p) l h = ground (arith, Plain-bad p l.1)

bad-Plain : (p : Text) → All IsPlain p → contains_any control_chars p ≡ false
unfolding contains_any
bad-Plain [] h = refl
bad-Plain (c ∷ p) h = ground (arith, bad-Plain p h.1)

Plain-Lacks : (p : Text) → All IsPlain p → Lacks slash p
Plain-Lacks [] h = tt
Plain-Lacks (c ∷ p) (n, h) = (n.0, Plain-Lacks p h)

IsHalf-good : (p : Text) → IsHalf p → (is_empty p ≡ false) × (bad_half p ≡ false) × Lacks slash p
unfolding bad_half text_eq has_prefix
IsHalf-good [] h = absurd h
IsHalf-good (c ∷ p) (n, h) = (refl, ground (arith, bad-Plain (c ∷ p) h), Plain-Lacks (c ∷ p) h)

good-IsHalf : (p : Text) → is_empty p ≡ false → bad_half p ≡ false → Lacks slash p → IsHalf p
unfolding bad_half text_eq has_prefix
good-IsHalf [] e b l = cc
good-IsHalf (c ∷ p) e b l = (ground arith, Plain-bad (c ∷ p) l (ground arith))

check_halves_iff :
    (a b n v : Text)
    → Lacks slash a
    → Lacks slash b
    → check_halves a b ≡ ok (n, v)
    → (a ≡ n) × (b ≡ v) × IsHalf a × IsHalf b
unfolding check_halves
check_halves_iff a b n v l m e = (
  ground arith,
  ground arith,
  good-IsHalf a (ground arith) (ground arith) l,
  good-IsHalf b (ground arith) (ground arith) m,
)

two_parts_inv :
    (ps : List Text) (n v : Text)
    → two_parts ps ≡ ok (n, v)
    → (a : Text) × (b : Text) × (ps ≡ a ∷ b ∷ []) × (check_halves a b ≡ ok (n, v))
unfolding two_parts
two_parts_inv [] n v e = absurd (ground arith)
two_parts_inv (a ∷ []) n v e = absurd (ground arith)
two_parts_inv (a ∷ b ∷ []) n v e = (a, b, refl, e)
two_parts_inv (a ∷ b ∷ c ∷ r) n v e = absurd (ground arith)

parse_key_sound :
    (s n v : Text) → parse_key s ≡ ok (n, v) → (s ≡ entry_key n v) × IsHalf n × IsHalf v
unfolding parse_key entry_key
parse_key_sound [] n v e = absurd (ground arith)
parse_key_sound (c ∷ s) n v e =
    let (a, b, p, q) = two_parts_inv (split slash (c ∷ s)) n v e in
    let (joined, l, m) = split_two slash (c ∷ s) a b p in
    let (x, y, h, k) = check_halves_iff a b n v l m q in
    (rw (← x, ← y) joined, subst IsHalf x h, subst IsHalf y k)

entry_key_nonempty : (n v : Text) → is_empty (entry_key n v) ≡ false
unfolding entry_key
entry_key_nonempty [] v = refl
entry_key_nonempty (c ∷ n) v = refl

parse_key_complete : (n v : Text) → IsHalf n → IsHalf v → parse_key (entry_key n v) ≡ ok (n, v)
unfolding parse_key two_parts check_halves
parse_key_complete n v h k =
    let (n1, n2, n3) = IsHalf-good n h in
    let (v1, v2, v3) = IsHalf-good v k in
    rw (entry_key_nonempty n v)
      (unfold entry_key in rw (split-append slash n v n3, split_whole slash v v3, n1, n2, v1, v2))

-- `ParseKey` returns `(n, v)` for a text exactly when the text is `n`, a slash and `v`, where each
-- half is not empty, does not begin with a dot, and holds no slash and none of the bytes 0, 9, 10
-- and 13.
pub parse_key_iff :
    (s n v : Text) → (parse_key s ≡ ok (n, v)) ↔ ((s ≡ entry_key n v) × IsHalf n × IsHalf v)
parse_key_iff s n v = (
  parse_key_sound s n v,
  λ h. subst (λ t. parse_key t ≡ ok (n, v)) (sym h.0) (parse_key_complete n v h.1 h.2),
)

-- Two pairs of good halves with one key are equal: no two templates share a registry entry.
pub entry_key_injective :
    (n v m w : Text)
    → IsHalf n
    → IsHalf v
    → IsHalf m
    → IsHalf w
    → entry_key n v ≡ entry_key m w
    → (n ≡ m) × (v ≡ w)
entry_key_injective n v m w hn hv hm hw e =
    let p = parse_key_complete n v hn hv in
    let q = parse_key_complete m w hm hw in
    let r = sym p ∙ ap parse_key e ∙ q in (ground arith, ground arith)
