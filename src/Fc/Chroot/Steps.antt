-- ===== src/Fc/Chroot/Steps.antt =====
-- What the single steps of internal/fc/chroot.go leave below the root when they succeed.
use firefork_ai.Prelude.{
  ◌≡◌, refl, ap, subst, ◌∙◌, Bool, true, List, [], ◌∷◌, Option, none, some, ok, err, Bool-cases,
  inl, inr, arith,
}
use firefork_ai.Prelude.Text.{Text}
use firefork_ai.Fc.Chroot.{
  same_path, same_path_iff, Tree, Call, making, changing, removing, linking, Outcome, set, and_then,
  make_all, mkdir, chown, remove, linked_to, chown_up,
}

pub and_then_lem :
    (o : Outcome) (k : Tree → Outcome) (u : Tree)
    → and_then o k ≡ (u, ok tt)
    → (t : Tree) × (o ≡ (t, ok tt)) × (k t ≡ (u, ok tt))
and_then_lem (t, ok _) k u e = (t, refl, e)
and_then_lem (t, err x) k u e = absurd (ground arith)

-- Nothing that was owned is no longer owned.
abbrev pub StaysOwned : Tree → Tree → Type 0
StaysOwned t u = (q : List Text) → t.owned q ≡ true → u.owned q ≡ true

-- Nothing is linked or unlinked either.
pub record IsKept (t u : Tree) : Type 0 where
  pub links_same : (q : List Text) → u.links q ≡ t.links q
  pub stays_owned : StaysOwned t u

-- A directory and all above it, but for the root.
abbrev pub OwnedUp : Tree → List Text → Type 0
OwnedUp t [] = Unit
OwnedUp t (c ∷ p) = (t.owned (c ∷ p) ≡ true) × OwnedUp t p

pub OwnedUp-stays : (t u : Tree) (p : List Text) → StaysOwned t u → OwnedUp t p → OwnedUp u p
OwnedUp-stays t u [] s h = tt
OwnedUp-stays t u (c ∷ p) s (h, g) = (s (c ∷ p) h, OwnedUp-stays t u p s g)

set_owned : (p q : List Text) (t : Tree) → t.owned q ≡ true → set p true t.owned q ≡ true
set_owned p q t h = elim (Bool-cases (same_path p q)) [ inl f ↦ rw f refl | inr f ↦ rw f h ]

pub set_here : {A : Type 0} (p : List Text) (a : A) (f : List Text → A) → set p a f p ≡ a
set_here p a f = rw ((same_path_iff p p).1 refl) refl

pub IsKept-trans : (t u v : Tree) → IsKept t u → IsKept u v → IsKept t v
IsKept-trans t u v a b = record {
  links_same = λ q. b.links_same q ∙ a.links_same q;
  stays_owned = λ q h. b.stays_owned q (a.stays_owned q h);
}

module _ (fails : Call → Bool) where
  make_all-IsKept : (p : List Text) (t : Tree) → IsKept t (make_all fails p t)
  unfolding make_all
  make_all-IsKept [] t = record { links_same = λ q. refl; stays_owned = λ q h. h }
  make_all-IsKept (c ∷ p) t =
      let v = make_all-IsKept p t in
      record { links_same = v.links_same; stays_owned = v.stays_owned }

  pub mkdir-IsKept : (p : List Text) (t u : Tree) → mkdir fails p t ≡ (u, ok tt) → IsKept t u
  unfolding mkdir
  mkdir-IsKept p t u e = elim (Bool-cases (fails (making p))) [
    | inl f ↦ absurd (ground arith)
    | inr f ↦
        let same : make_all fails p t ≡ u = ap (λ o. o.0) (rw f at e) in
        subst (IsKept t) same (make_all-IsKept p t)
  ]

  pub chown_lem :
      (p : List Text) (t u : Tree) → chown fails p t ≡ (u, ok tt) → IsKept t u × (u.owned p ≡ true)
  unfolding chown
  chown_lem p t u e = elim (Bool-cases (fails (changing p))) [
    | inl f ↦ absurd (ground arith)
    | inr f ↦
        let same : record t { owned = set p true t.owned } ≡ u = ap (λ o. o.0) (rw f at e) in
        subst (λ v. IsKept t v × (v.owned p ≡ true)) same
          (
            record { links_same = λ q. refl; stays_owned = λ q h. set_owned p q t h },
            set_here p true t.owned,
          )
  ]

  pub chown_up-OwnedUp :
      (p : List Text) (t u : Tree) → chown_up fails p t ≡ (u, ok tt) → IsKept t u × OwnedUp u p
  unfolding chown_up
  chown_up-OwnedUp [] t u e = (
    subst (IsKept t) (ap (λ o. o.0) e) (record { links_same = λ q. refl; stays_owned = λ q h. h }),
    tt,
  )
  chown_up-OwnedUp (c ∷ p) t u e =
      let (s, f, g) = and_then_lem (chown fails (c ∷ p) t) (λ t'. chown_up fails p t') u e in
      let (a, h) = chown_lem (c ∷ p) t s f in
      let (b, k) = chown_up-OwnedUp p s u g in
      (IsKept-trans t s u a b, (b.stays_owned (c ∷ p) h, k))

  -- A link that was made over whatever was there.
  pub record IsLinked (p : List Text) (host : Text) (t u : Tree) : Type 0 where
    pub links_set : (q : List Text) → u.links q ≡ set p (some host) t.links q
    pub owned_same : (q : List Text) → u.owned q ≡ t.owned q

  pub linked_to_lem :
      (p : List Text) (host : Text) (t u : Tree) (o : Option Text)
      → linked_to fails p host t o ≡ (u, ok tt)
      → IsLinked p host t u
  unfolding linked_to
  linked_to_lem p host t u (some old) e = absurd (ground arith)
  linked_to_lem p host t u none e = elim (Bool-cases (fails (linking p))) [
    | inl f ↦ absurd (ground arith)
    | inr f ↦
        subst (IsLinked p host t) (ap (λ o. o.0) (rw f at e))
          (record { links_set = λ q. refl; owned_same = λ q. refl })
  ]

  pub remove_lem :
      (p : List Text) (t : Tree) (a : Text) (q : List Text)
      → ((remove fails p t).owned q ≡ t.owned q)
        × (set p (some a) (remove fails p t).links q ≡ set p (some a) t.links q)
  unfolding remove
  remove_lem p t a q = elim (Bool-cases (fails (removing p))) [
    | inl f ↦ rw f (refl, refl)
    | inr f ↦ elim (Bool-cases (same_path p q)) [
      | inl s ↦ rw (f, s) (refl, refl)
      | inr s ↦ rw (f, s) (refl, refl)
    ]
  ]
