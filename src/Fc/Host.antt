-- ===== src/Fc/Host.antt =====
-- What the program changes outside itself: Firecracker processes, the directories and chroots it made,
-- and which snapshot each process has loaded. A process goes by the id of its slot or fork.
use firefork_ai.Prelude.{ℕ, suc, ◌+◌, ◌<◌, ◌≡◌, refl, List, [], ◌∷◌, ◌++◌, if◌then◌else◌, arith}
use firefork_ai.Prelude.Text.{Text, text_eq, text_eq_iff}
use firefork_ai.Prelude.Table.{insert}

-- `SnapshotPaths` of snapshot.go
pub record SnapshotPaths : Type 0 where
  pub mem_file_path : Text
  pub state_path : Text

pub record Host : Type 0 where
  pub running : List Text
  pub dirs : List Text
  pub loaded : List (Text × SnapshotPaths)

-- How often a text stands in a list.
unfoldable pub count : Text → List Text → ℕ
count x [] = 0
count x (y ∷ l) = let rest = count x l in if text_eq x y then suc rest else rest

unfoldable pub remove_one : Text → List Text → List Text
remove_one x [] = []
remove_one x (y ∷ l) = if text_eq x y then l else y ∷ remove_one x l

unfoldable pub remove_every : Text → List Text → List Text
remove_every x [] = []
remove_every x (y ∷ l) = let rest = remove_every x l in if text_eq x y then rest else y ∷ rest

-- `cmd.Start`
unfoldable pub start : Text → Host → Host
start id h = record h { running = id ∷ h.running }

-- `cmd.Process.Kill`
unfoldable pub kill : Text → Host → Host
kill id h = record h { running = remove_one id h.running }

-- `MkPrivateDir` or `PrepareChroot`, as far as the directory goes
unfoldable pub make_dir : Text → Host → Host
make_dir d h = record h { dirs = d ∷ remove_every d h.dirs }

-- `os.RemoveAll` or `CleanupChroot`
unfoldable pub remove_dir : Text → Host → Host
remove_dir d h = record h { dirs = remove_every d h.dirs }

-- `PUT /snapshot/load`
unfoldable pub load : Text → SnapshotPaths → Host → Host
load id snap h = record h { loaded = insert id snap h.loaded }

pub count-append : (x : Text) (l r : List Text) → count x (l ++ r) ≡ count x l + count x r
unfolding count
count-append x [] r = omega arith
count-append x (y ∷ l) r = ground (arith, count-append x l r)

-- Taking out one occurrence of a text that is there.
pub count-remove_one :
    (x y : Text) (l : List Text)
    → 0 < count y l
    → count x (remove_one y l) + count x (y ∷ []) ≡ count x l
unfolding count remove_one
count-remove_one x y [] h = absurd (omega arith)
count-remove_one x y (z ∷ l) h =
    ground (arith, text_eq_iff x y, text_eq_iff x z, text_eq_iff y z, count-remove_one x y l)

pub count_self : (x : Text) → count x (x ∷ []) ≡ 1
unfolding count
count_self x = ground (arith, text_eq_iff x x)

-- Taking out every occurrence.
pub count-remove_every :
    (x y : Text) (l : List Text)
    → count x (remove_every y l) ≡ (if text_eq x y then 0 else count x l)
unfolding count remove_every
count-remove_every x y [] = ground arith
count-remove_every x y (z ∷ l) =
    ground (arith, text_eq_iff x y, text_eq_iff x z, text_eq_iff y z, count-remove_every x y l)

pub remove_one-absent : (x : Text) (l : List Text) → count x l ≡ 0 → remove_one x l ≡ l
unfolding count remove_one
remove_one-absent x [] h = refl
remove_one-absent x (y ∷ l) h = ground (arith, remove_one-absent x l)

pub remove_one-first : (x : Text) (l : List Text) → remove_one x (x ∷ l) ≡ l
unfolding remove_one
remove_one-first x l = ground (arith, text_eq_iff x x)
