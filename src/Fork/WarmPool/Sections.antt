-- ===== src/Fork/WarmPool/Sections.antt =====
-- What each critical section of the warm pool returns, branch by branch.
use firefork_ai.Prelude.{
  ℕ, ◌+◌, ◌≡◌, refl, ap, ◌∙◌, Bool, true, false, not, ◌||◌, List, [], ◌∷◌, ◌++◌, Option, none, some,
  Result, ok, err, ◌>>◌, fail_if, pop_back, pop_back_lem, pop_back-none, Bool-cases, ◌⊎◌, inl, inr,
  if◌then◌else◌, arith,
}
use firefork_ai.Prelude.Text.{is_empty, text_eq_iff}
use firefork_ai.Fc.Host.{SnapshotPaths, Host, load}
use firefork_ai.Fork.WarmPool.{
  WarmPool, Error, pool_closed, paths_required, preloaded_otherwise, Slot, Taken, refused, drained,
  took, Next, stop, load_next, publish_next, increment, take_slot, take_idle, reap, refill_failed,
  refill_check, refill_loaded, refill_publish, preload_start, same_paths, snap_for_slot,
}

pub data TakeCase (now : ℕ) (p : WarmPool) : WarmPool × Taken → Type 0 where
  shut : p.closed ≡ true → TakeCase now p (p, refused pool_closed)
  empty :
      (b : Bool)
      → p.closed ≡ false
      → p.idle ≡ []
      → TakeCase now p (record p { drains = increment p.drains }, drained b)
  full :
      (rest : List Slot) (s : Slot)
      → p.closed ≡ false
      → p.idle ≡ rest ++ s ∷ []
      → TakeCase now p (record p { idle = rest; takes = increment p.takes }, took s)

take_idle-TakeCase :
    (now : ℕ) (p : WarmPool) (o : Option (List Slot × Slot))
    → p.closed ≡ false
    → pop_back p.idle ≡ o
    → TakeCase now p (take_idle now p o)
unfolding take_idle
take_idle-TakeCase now p none c e = empty _ c (pop_back-none p.idle e)
take_idle-TakeCase now p (some (rest, s)) c e = full rest s c (pop_back_lem p.idle rest s e)

pub take_slot-TakeCase : (now : ℕ) (p : WarmPool) → TakeCase now p (take_slot now p)
unfolding take_slot
take_slot-TakeCase now p = go p.closed refl
  where
    go :
        (b : Bool)
        → p.closed ≡ b
        → TakeCase now p (if b then (p, refused pool_closed) else take_idle now p (pop_back p.idle))
    go true e = shut e
    go false e = take_idle-TakeCase now p (pop_back p.idle) e refl

pub data CheckCase (p : WarmPool) (s : Slot) (h : Host) : Host × Next → Type 0 where
  shut : p.closed ≡ true → CheckCase p s h (reap s h, stop)
  plain : p.closed ≡ false → p.preload ≡ none → CheckCase p s h (h, publish_next)
  keyed :
      (snap : SnapshotPaths)
      → p.closed ≡ false
      → p.preload ≡ some snap
      → CheckCase p s h (h, load_next snap)

pub refill_check-CheckCase :
    (p : WarmPool) (s : Slot) (h : Host) → CheckCase p s h (refill_check p s h)
unfolding refill_check
refill_check-CheckCase p s h = go p.closed p.preload refl refl
  where
    go :
        (b : Bool) (o : Option SnapshotPaths)
        → p.closed ≡ b
        → p.preload ≡ o
        → CheckCase p s h (
            if b
            then (reap s h, stop)
            else elim o [ none ↦ (h, publish_next) | some snap ↦ (h, load_next snap) ])
    go true o e f = shut e
    go false none e f = plain e f
    go false (some snap) e f = keyed snap e f

pub data LoadCase (now : ℕ) (p : WarmPool) (s : Slot) (snap : SnapshotPaths) (cost : ℕ) (h : Host)
    : WarmPool × Host × Option Slot → Type 0 where
  fails : LoadCase now p s snap cost h (refill_failed now p, reap s h, none)
  loads :
      LoadCase now p s snap cost h (
        p,
        load s.id snap h,
        some (record s { preloaded = true; spawn_cost = s.spawn_cost + cost }),
      )

pub refill_loaded-LoadCase :
    (now : ℕ) (p : WarmPool) (s : Slot) (snap : SnapshotPaths) (linked loaded : Bool) (cost : ℕ)
    (h : Host)
    → LoadCase now p s snap cost h (refill_loaded now p s snap linked loaded cost h)
unfolding refill_loaded
refill_loaded-LoadCase now p s snap linked loaded cost h = go (snap_for_slot s snap linked) loaded
  where
    go :
        (r : Result Error SnapshotPaths) (b : Bool)
        → LoadCase now p s snap cost h (elim r [
          | err e ↦ (refill_failed now p, reap s h, none)
          | ok _ ↦
              if b
              then (
                p,
                load s.id snap h,
                some (record s { preloaded = true; spawn_cost = s.spawn_cost + cost }),
              )
              else (refill_failed now p, reap s h, none)
        ])
    go (err e) b = fails
    go (ok _) true = loads
    go (ok _) false = fails

pub data PublishCase (p : WarmPool) (s : Slot) (h : Host) : WarmPool × Host → Type 0 where
  shut : p.closed ≡ true → PublishCase p s h (p, reap s h)
  added : p.closed ≡ false → PublishCase p s h (record p { idle = p.idle ++ s ∷ [] }, h)

pub refill_publish-PublishCase :
    (p : WarmPool) (s : Slot) (h : Host) → PublishCase p s h (refill_publish p s h)
unfolding refill_publish
refill_publish-PublishCase p s h = go p.closed refl
  where
    go :
        (b : Bool)
        → p.closed ≡ b
        → PublishCase p s h (if b then (p, reap s h) else (record p { idle = p.idle ++ s ∷ [] }, h))
    go true e = shut e
    go false e = added e

-- `Preload` fails and changes nothing, or sets the snapshot of a pool that had none or that one.
pub data PreloadCase (p : WarmPool) (snap : SnapshotPaths)
    : Result Error (WarmPool × List Slot) → Type 0 where
  rejects : (e : Error) → PreloadCase p snap (err e)
  accepts :
      ((p.preload ≡ none) ⊎ (p.preload ≡ some snap))
      → PreloadCase p snap (ok (record p { preload = some snap }, p.idle))

same_paths_lem : (a b : SnapshotPaths) → same_paths a b ≡ true → a ≡ b
unfolding same_paths
same_paths_lem a b e =
    ground
      (arith, text_eq_iff a.mem_file_path b.mem_file_path, text_eq_iff a.state_path b.state_path)

pub preload_start-PreloadCase :
    (p : WarmPool) (snap : SnapshotPaths) → PreloadCase p snap (preload_start p snap)
unfolding preload_start
preload_start-PreloadCase p snap =
    go (is_empty snap.mem_file_path || is_empty snap.state_path) p.preload refl
  where
    go :
        (b : Bool) (o : Option SnapshotPaths)
        → p.preload ≡ o
        → PreloadCase p snap (do
          fail_if b paths_required
          fail_if
              (elim o [ none ↦ false | some old ↦ not (same_paths old snap) ])
              preloaded_otherwise
          ok (record p { preload = some snap }, p.idle))
    go true o e = rejects paths_required
    go false none e = accepts (inl e)
    go false (some old) e = elim (Bool-cases (same_paths old snap)) [
      | inl t ↦ rw t (accepts (inr (e ∙ ap some (same_paths_lem old snap t))))
      | inr t ↦ rw t (rejects preloaded_otherwise)
    ]
