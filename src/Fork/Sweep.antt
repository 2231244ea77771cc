-- ===== src/Fork/Sweep.antt =====
-- internal/fork/sweep.go: which leftovers of a crashed run are removed. `root` is the swept directory, the
-- default `os.TempDir()` filled in, and the entries are those that `os.ReadDir` returned.
mod Tests
use firefork_ai.Prelude.{
  ℕ, ◌+◌, ◌-◌, ◌≤◌, ◌<◌, ◌≡◌, refl, ap, ◌∙◌, Bool, true, false, not, ◌||◌, ◌&&◌, List, [], ◌∷◌,
  ◌++◌, Option, none, some, if◌then◌else◌, ltb, ◌==◌, Bool-cases, Option-cases, All, ◌⊎◌, inl, inr,
  arith,
}
use firefork_ai.Prelude.Text.{Text, codes, has_prefix, text_eq}

-- A directory entry: its name, its modification time if `e.Info` succeeds, and whether `os.RemoveAll`
-- of it will fail.
pub record DirEntry : Type 0 where
  pub name : Text
  pub mod_time : Option ℕ
  pub removal_fails : Bool

unfoldable pub is_firefork_stale_dir : Text → Bool
unfolding has_prefix
is_firefork_stale_dir name =
    has_prefix name (codes "firefork-fork-")
    || has_prefix name (codes "firefork-warm-")
    || has_prefix name (codes "firefork-build-")

-- What one round of the loop does.
pub data Round : Type 0 where
  skips : Round
  stat_error removal_error removes : Text → Round

remove_entry : DirEntry → Round
remove_entry e = if e.removal_fails then removal_error e.name else removes e.name

-- `cutoff` is now less the age; `aged` is `maxAge > 0`.
aged_round : ℕ → DirEntry → Option ℕ → Round
unfolding remove_entry
aged_round cutoff e none = stat_error e.name
aged_round cutoff e (some t) = if ltb cutoff t then skips else remove_entry e

unfoldable pub sweep_round : Bool → ℕ → DirEntry → Round
unfolding aged_round is_firefork_stale_dir
sweep_round aged cutoff e =
    if not (is_firefork_stale_dir e.name)
    then skips
    else if aged
    then aged_round cutoff e e.mod_time
    else remove_entry e

join_removed : Text → Round → List Text → List Text
join_removed root skips l = l
join_removed root (stat_error n) l = l
join_removed root (removal_error n) l = l
join_removed root (removes n) l = (root ++ 47 ∷ n) ∷ l

count_error : Round → ℕ → ℕ
count_error skips n = n
count_error (stat_error _) n = n + 1
count_error (removal_error _) n = n + 1
count_error (removes _) n = n

-- The removed paths and the number of errors; `SweepStale` fails if that is not 0.
unfoldable pub sweep_stale : Text → Bool → ℕ → List DirEntry → List Text × ℕ
unfolding join_removed count_error
sweep_stale root aged cutoff [] = ([], 0)
sweep_stale root aged cutoff (e ∷ es) =
    let rest = sweep_stale root aged cutoff es in
    let r = sweep_round aged cutoff e in (join_removed root r rest.0, count_error r rest.1)

-- Old enough to go: no age limit, or known to be modified at the cutoff or before.
abbrev pub IsOld : Bool → ℕ → DirEntry → Type 0
IsOld aged cutoff e = (aged ≡ false) ⊎ ((t : ℕ) × (e.mod_time ≡ some t) × (t ≤ cutoff))

-- One of the entries has this path, belongs to firefork and is old enough.
pub record Stale (root : Text) (aged : Bool) (cutoff : ℕ) (path : Text) : Type 0 where
  pub entry : DirEntry
  pub named : path ≡ root ++ 47 ∷ entry.name
  pub ours : is_firefork_stale_dir entry.name ≡ true
  pub old : IsOld aged cutoff entry

sweep_round_removes :
    (aged : Bool) (cutoff : ℕ) (e : DirEntry) (n : Text)
    → sweep_round aged cutoff e ≡ removes n
    → (n ≡ e.name) × (is_firefork_stale_dir e.name ≡ true) × IsOld aged cutoff e
unfolding sweep_round aged_round remove_entry
sweep_round_removes aged cutoff e n h = elim (Bool-cases (is_firefork_stale_dir e.name)) [
  | inl b ↦ elim (Bool-cases aged) [
    | inl a ↦ elim (Option-cases e.mod_time) [
      | inl m ↦ ground arith
      | inr (t, m) ↦ (ground arith, b, inr (t, m, ground arith))
    ]
    | inr a ↦ (ground arith, b, inl a)
  ]
  | inr b ↦ ground arith
]

join_removed-Stale :
    (root : Text) (aged : Bool) (cutoff : ℕ) (e : DirEntry) (r : Round) (l : List Text)
    → ((n : Text)
        → r ≡ removes n
        → (n ≡ e.name) × (is_firefork_stale_dir e.name ≡ true) × IsOld aged cutoff e)
    → All (Stale root aged cutoff) l
    → All (Stale root aged cutoff) (join_removed root r l)
unfolding join_removed
join_removed-Stale root aged cutoff e skips l f h = h
join_removed-Stale root aged cutoff e (stat_error n) l f h = h
join_removed-Stale root aged cutoff e (removal_error n) l f h = h
join_removed-Stale root aged cutoff e (removes n) l f h =
    let (a, b, c) = f n refl in
    (record { entry = e; named = ap (λ x. root ++ 47 ∷ x) a; ours = b; old = c }, h)

-- Every path that `SweepStale` reports as removed is that of an entry of the swept directory with
-- one of firefork's three prefixes and, when there is an age limit, a known modification time no
-- later than the cutoff: entries of other programs and fresh ones are never touched.
pub sweep_stale-Stale :
    (root : Text) (aged : Bool) (cutoff : ℕ) (es : List DirEntry)
    → All (Stale root aged cutoff) (sweep_stale root aged cutoff es).0
unfolding sweep_stale
sweep_stale-Stale root aged cutoff [] = tt
sweep_stale-Stale root aged cutoff (e ∷ es) =
    join_removed-Stale root aged cutoff e (sweep_round aged cutoff e) _
      (sweep_round_removes aged cutoff e) (sweep_stale-Stale root aged cutoff es)
