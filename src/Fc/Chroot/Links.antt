-- ===== src/Fc/Chroot/Links.antt =====
-- What a `PrepareChroot` of internal/fc/chroot.go that succeeds has put below the root.
use firefork_ai.Prelude.{
  ◌≡◌, refl, ap, subst, ◌∙◌, Bool, true, false, List, [], ◌∷◌, some, if◌then◌else◌, Result, ok, err,
  All, All-map, arith,
}
use firefork_ai.Prelude.Text.{Text}
use firefork_ai.Fc.Jailer
use firefork_ai.Fc.Jailer.{JailerConfig, validate}
use firefork_ai.Fc.Chroot.{
  same_path, Tree, Call, set, mkdir, chown, remove, link, chown_up, parent, place, place_all, each,
  scaffold, prepared, prepare_chroot,
}
use firefork_ai.Fc.Chroot.Steps.{
  and_then_lem, StaysOwned, IsKept, OwnedUp, OwnedUp-stays, set_here, IsKept-trans, mkdir-IsKept,
  chown_lem, chown_up-OwnedUp, linked_to_lem, remove_lem,
}

-- A host file is where it should be, and the jail owns the way to it.
abbrev pub IsInside : Tree → List Text × Text → Type 0
IsInside t (p, host) = (t.links p ≡ some host) × (t.owned p ≡ true) × OwnedUp t (parent p)

-- No two host files go to one path.
abbrev pub Distinct : List (List Text × Text) → Type 0
Distinct [] = Unit
Distinct ((p, host) ∷ l) = All (λ f. same_path f.0 p ≡ false) l × Distinct l

module _ (fails : Call → Bool) where
  -- What one round does.
  record IsPlaced (p : List Text) (host : Text) (t u : Tree) : Type 0 where
    links_set : (q : List Text) → u.links q ≡ set p (some host) t.links q
    stays_owned : StaysOwned t u
    file_owned : u.owned p ≡ true
    dirs_owned : OwnedUp u (parent p)

  place-IsPlaced :
      (p : List Text) (host : Text) (t u : Tree)
      → place fails p host t ≡ (u, ok tt)
      → IsPlaced p host t u
  unfolding place link
  place-IsPlaced p host t u e =
      let (a, ea, e1) = and_then_lem (mkdir fails (parent p) t) _ u e in
      let (c, ec, e2) = and_then_lem (chown_up fails (parent p) a) _ u e1 in
      let (g, eg, e3) = and_then_lem (link fails p host (remove fails p c)) _ u e2 in
      let ka = mkdir-IsKept fails (parent p) t a ea in
      let (kc, oc) = chown_up-OwnedUp fails (parent p) a c ec in
      let lg = linked_to_lem fails p host (remove fails p c) g _ eg in
      let (ku, ou) = chown_lem fails p g u e3 in
      let on : StaysOwned c u =
        λ q h. ku.stays_owned q (lg.owned_same q ∙ (remove_lem fails p c host q).0 ∙ h) in
      record {
        links_set = λ q.
            ku.links_same q
            ∙ lg.links_set q
            ∙ (remove_lem fails p c host q).1
            ∙ ap (λ o. if same_path p q then some host else o) (kc.links_same q ∙ ka.links_same q);
        stays_owned = λ q h. on q (kc.stays_owned q (ka.stays_owned q h));
        file_owned = ou;
        dirs_owned = OwnedUp-stays c u (parent p) on oc;
      }

  place_all-others :
      (l : List (List Text × Text)) (p : List Text) (t u : Tree)
      → All (λ f. same_path f.0 p ≡ false) l
      → place_all fails l t ≡ (u, ok tt)
      → (u.links p ≡ t.links p) × StaysOwned t u
  unfolding place_all
  place_all-others [] p t u n e =
      subst (λ v. (v.links p ≡ t.links p) × StaysOwned t v) (ap (λ o. o.0) e) (refl, λ q h. h)
  place_all-others ((r, host) ∷ l) p t u (n, m) e =
      let (s, f, g) = and_then_lem (place fails r host t) _ u e in
      let v = place-IsPlaced r host t s f in
      let (a, b) = place_all-others l p s u m g in
      (
        a ∙ v.links_set p ∙ ap (λ b. if b then some host else t.links p) n,
        λ q h. b q (v.stays_owned q h),
      )

  place_all-IsInside :
      (l : List (List Text × Text)) (t u : Tree)
      → Distinct l
      → place_all fails l t ≡ (u, ok tt)
      → All (IsInside u) l × StaysOwned t u
  unfolding place_all
  place_all-IsInside [] t u d e = (tt, subst (StaysOwned t) (ap (λ o. o.0) e) (λ q h. h))
  place_all-IsInside ((p, host) ∷ l) t u (n, d) e =
      let (s, f, g) = and_then_lem (place fails p host t) _ u e in
      let v = place-IsPlaced p host t s f in
      let (k, b) = place_all-others l p s u n g in
      let (all, c) = place_all-IsInside l s u d g in
      (
        (
          (
            k ∙ v.links_set p ∙ set_here p (some host) t.links,
            b p v.file_owned,
            OwnedUp-stays s u (parent p) b v.dirs_owned,
          ),
          all,
        ),
        λ q h. b q (v.stays_owned q h),
      )

  each_mkdir-IsKept :
      (l : List (List Text)) (t u : Tree) → each fails (mkdir fails) l t ≡ (u, ok tt) → IsKept t u
  unfolding each
  each_mkdir-IsKept [] t u e =
      subst (IsKept t) (ap (λ o. o.0) e) (record { links_same = λ q. refl; stays_owned = λ q h. h })
  each_mkdir-IsKept (p ∷ l) t u e =
      let (s, f, g) = and_then_lem (mkdir fails p t) _ u e in
      IsKept-trans t s u (mkdir-IsKept fails p t s f) (each_mkdir-IsKept l s u g)

  each_chown_lem :
      (l : List (List Text)) (t u : Tree)
      → each fails (chown fails) l t ≡ (u, ok tt)
      → IsKept t u × All (λ p. u.owned p ≡ true) l
  unfolding each
  each_chown_lem [] t u e = (
    subst (IsKept t) (ap (λ o. o.0) e) (record { links_same = λ q. refl; stays_owned = λ q h. h }),
    tt,
  )
  each_chown_lem (p ∷ l) t u e =
      let (s, f, g) = and_then_lem (chown fails p t) _ u e in
      let (a, h) = chown_lem fails p t s f in
      let (b, k) = each_chown_lem l s u g in (IsKept-trans t s u a b, (b.stays_owned p h, k))

  prepared_lem :
      (files : List (List Text × Text)) (t u : Tree) (r : Result Jailer.Error (Unit {0}))
      → Distinct files
      → prepared fails files t r ≡ (u, ok tt)
      → All (IsInside u) files × All (λ p. u.owned p ≡ true) ([] ∷ scaffold)
  unfolding prepared
  prepared_lem files t u (err x) d e = absurd (ground arith)
  prepared_lem files t u (ok _) d e =
      let (a, ea, e1) = and_then_lem (each fails (mkdir fails) ([] ∷ scaffold) t) _ u e in
      let (c, ec, e2) = and_then_lem (place_all fails files a) _ u e1 in
      let (all, s) = place_all-IsInside files a c d ec in
      let (k, h) = each_chown_lem ([] ∷ scaffold) c u e2 in
      (
        All-map (IsInside c) (IsInside u)
            (λ (p, host) (x, y, z).
              (k.links_same p ∙ x, k.stays_owned p y, OwnedUp-stays c u (parent p) k.stays_owned z))
            files all,
        h,
      )

  -- When `PrepareChroot` succeeds, in whatever order the map of host files was gone through and
  -- whatever an earlier run had left in the chroot: each path of the map links to its host file, the
  -- jail's user owns it and all directories on the way to it, and it owns the root and the jailer's own
  -- three directories. The paths are clean and lead to different places below the root.
  pub prepare_chroot-IsInside :
      (j : JailerConfig) (files : List (List Text × Text)) (t u : Tree)
      → Distinct files
      → prepare_chroot fails j files t ≡ (u, ok tt)
      → All (IsInside u) files × All (λ p. u.owned p ≡ true) ([] ∷ scaffold)
  unfolding prepare_chroot
  prepare_chroot-IsInside j files t u d e = prepared_lem files t u (validate j) d e
