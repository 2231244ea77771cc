-- ===== src/Fc/Chroot.antt =====
-- internal/fc/chroot.go: `PrepareChroot` call by call. A clean path below the root
-- of the chroot is the list of its components, the last one first: `filepath.Dir` takes the first off,
-- and the root is the empty list. Which calls of `os` fail is an argument.
pub mod Steps
pub mod Links
mod Tests
use firefork_ai.Prelude.{
  ℕ, ◌≡◌, ◌↔◌, Bool, true, false, ◌&&◌, List, [], ◌∷◌, Option, none, some, if◌then◌else◌, Result,
  ok, err, arith,
}
use firefork_ai.Prelude.Text.{Text, codes, text_eq, text_eq_iff}
use firefork_ai.Fc.Jailer
use firefork_ai.Fc.Jailer.{JailerConfig, validate}

unfoldable pub same_path : List Text → List Text → Bool
same_path [] [] = true
same_path [] (d ∷ q) = false
same_path (c ∷ p) [] = false
same_path (c ∷ p) (d ∷ q) = text_eq c d && same_path p q

pub same_path_iff : (p q : List Text) → (same_path p q ≡ true) ↔ (p ≡ q)
unfolding same_path
same_path_iff [] [] = ground arith
same_path_iff [] (d ∷ q) = ground arith
same_path_iff (c ∷ p) [] = ground arith
same_path_iff (c ∷ p) (d ∷ q) = ground (arith, text_eq_iff c d, same_path_iff p q)

-- What is below the root: the directories, the file that each link leads to, and what belongs to the
-- jail's user and group.
pub record Tree : Type 0 where
  pub dirs : List Text → Bool
  pub links : List Text → Option Text
  pub owned : List Text → Bool

pub data Call : Type 0 where
  making changing removing linking : List Text → Call

pub data Error : Type 0 where
  invalid : Jailer.Error → Error
  mkdir_failed chown_failed link_failed : List Text → Error

-- What is below the root when a call sequence stops, and how it stops.
abbrev pub Outcome : Type 0
Outcome = Tree × Result Error (Unit {0})

abbrev pub set : {A : Type 0} → List Text → A → (List Text → A) → List Text → A
set p a f q = if same_path p q then a else f q

-- `if err != nil { return }`, or go on.
abbrev pub and_then : Outcome → (Tree → Outcome) → Outcome
and_then (t, ok _) k = k t
and_then (t, err e) k = (t, err e)

-- `filepath.Dir` below the root
abbrev pub parent : List Text → List Text
parent [] = []
parent (c ∷ p) = p

-- The directories of the jailer itself.
abbrev pub scaffold : List (List Text)
scaffold = (codes "run" ∷ []) ∷ (codes "dev" ∷ []) ∷ (codes "tmp" ∷ []) ∷ []

module _ (fails : Call → Bool) where
  -- `MkPrivateDir` or `os.MkdirAll`; its parents are there or are made before it.
  make_all : List Text → Tree → Tree
  make_all [] t = record t { dirs = set [] true t.dirs }
  make_all (c ∷ p) t = let t' = make_all p t in record t' { dirs = set (c ∷ p) true t'.dirs }

  unfoldable pub mkdir : List Text → Tree → Outcome
  unfolding make_all
  mkdir p t = if fails (making p) then (t, err (mkdir_failed p)) else (make_all p t, ok tt)

  unfoldable pub chown : List Text → Tree → Outcome
  chown p t =
      if fails (changing p)
      then (t, err (chown_failed p))
      else (record t { owned = set p true t.owned }, ok tt)

  -- `os.Remove`, whose error is ignored
  unfoldable pub remove : List Text → Tree → Tree
  remove p t = if fails (removing p) then t else record t { links = set p none t.links }

  unfoldable pub linked_to : List Text → Text → Tree → Option Text → Outcome
  linked_to p host t (some old) = (t, err (link_failed p))
  linked_to p host t none =
      if fails (linking p)
      then (t, err (link_failed p))
      else (record t { links = set p (some host) t.links }, ok tt)

  -- `os.Link`, which fails where something is already
  unfoldable pub link : List Text → Text → Tree → Outcome
  unfolding linked_to
  link p host t = linked_to p host t (t.links p)

  -- The loop over the directories from one up to the root, which it leaves out.
  unfoldable pub chown_up : List Text → Tree → Outcome
  unfolding chown
  chown_up [] t = (t, ok tt)
  chown_up (c ∷ p) t = and_then (chown (c ∷ p) t) (λ t'. chown_up p t')

  -- One round of the loop over the host files.
  unfoldable pub place : List Text → Text → Tree → Outcome
  unfolding mkdir chown_up remove link chown
  place p host t = and_then (mkdir (parent p) t) (λ a.
      and_then (chown_up (parent p) a) (λ c. and_then (link p host (remove p c)) (λ e. chown p e)))

  -- The map of host files in the order of its iteration.
  unfoldable pub place_all : List (List Text × Text) → Tree → Outcome
  unfolding place
  place_all [] t = (t, ok tt)
  place_all ((p, host) ∷ l) t = and_then (place p host t) (λ t'. place_all l t')

  each : (List Text → Tree → Outcome) → List (List Text) → Tree → Outcome
  each f [] t = (t, ok tt)
  each f (p ∷ l) t = and_then (f p t) (λ t'. each f l t')

  prepared : List (List Text × Text) → Tree → Result Jailer.Error (Unit {0}) → Outcome
  unfolding each mkdir place_all chown
  prepared files t (err e) = (t, err (invalid e))
  prepared files t (ok _) =
      and_then (each mkdir ([] ∷ scaffold) t)
        (λ a. and_then (place_all files a) (λ c. each chown ([] ∷ scaffold) c))

  -- `PrepareChroot`
  unfoldable pub prepare_chroot : JailerConfig → List (List Text × Text) → Tree → Outcome
  unfolding prepared
  prepare_chroot j files t = prepared files t (validate j)
