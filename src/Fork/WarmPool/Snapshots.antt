-- ===== src/Fork/WarmPool/Snapshots.antt =====
-- A slot that is marked preloaded holds the one snapshot that the pool is keyed to.
use firefork_ai.Prelude.{
  ℕ, ◌≡◌, refl, sym, subst, ◌∙◌, true, false, List, [], ◌∷◌, Option, none, some, Result, ok, err,
  All, All-map, Option-cases, ◌⊎◌, inl, inr, Bool-cases, arith,
}
use firefork_ai.Prelude.Text.{Text, text_eq, text_eq_iff}
use firefork_ai.Prelude.Table.{lookup, insert, lookup-insert}
use firefork_ai.Fc.Host.{SnapshotPaths, Host, start, kill, make_dir, remove_dir}
use firefork_ai.Fc.Jailer
use firefork_ai.Fc.Jailer.{JailerConfig, Start, start_jailed, validated, validate}
use firefork_ai.Fork.WarmPool.{
  WarmPool, Slot, Spawn, spawn_slot, spawn_unjailed, jailed_slot, reap, reap_all, mark_preloaded,
}
use firefork_ai.Fork.WarmPool.System.{
  Job, spawning, checking, loading, publishing, preloading, System,
}

-- What a process has loaded is what the pool is keyed to.
abbrev pub Keyed : Option SnapshotPaths → List (Text × SnapshotPaths) → Text → Type 0
Keyed key loaded id = (snap : SnapshotPaths) × (lookup id loaded ≡ some snap) × (key ≡ some snap)

abbrev pub SlotKeyed : Option SnapshotPaths → List (Text × SnapshotPaths) → Slot → Type 0
SlotKeyed key loaded s = s.preloaded ≡ true → Keyed key loaded s.id

abbrev pub JobKeyed : Option SnapshotPaths → List (Text × SnapshotPaths) → Job → Type 0
JobKeyed key loaded (spawning id) = Unit
JobKeyed key loaded (checking s) = SlotKeyed key loaded s
JobKeyed key loaded (loading s snap) = SlotKeyed key loaded s × (key ≡ some snap)
JobKeyed key loaded (publishing s) = SlotKeyed key loaded s
JobKeyed key loaded (preloading id snap) = key ≡ some snap

-- Over the parts of a system, so that each step says which of them change.
pub record AllKeyed (key : Option SnapshotPaths) (loaded : List (Text × SnapshotPaths))
    (idle taken : List Slot) (jobs : List Job) : Type 0 where
  pub in_idle : All (SlotKeyed key loaded) idle
  pub in_taken : All (SlotKeyed key loaded) taken
  pub in_jobs : All (JobKeyed key loaded) jobs

abbrev pub IsKeyed : System → Type 0
IsKeyed s = AllKeyed s.pool.preload s.host.loaded s.pool.idle s.taken s.jobs

pub Keyed-load :
    (key : Option SnapshotPaths) (loaded : List (Text × SnapshotPaths)) (id x : Text)
    (snap : SnapshotPaths)
    → key ≡ some snap
    → Keyed key loaded x
    → Keyed key (insert id snap loaded) x
Keyed-load key loaded id x snap e (old, f, g) =
    (snap, lookup-insert id x snap loaded ∙ ground arith, e)

pub just_loaded :
    (key : Option SnapshotPaths) (loaded : List (Text × SnapshotPaths)) (id : Text)
    (snap : SnapshotPaths)
    → key ≡ some snap
    → Keyed key (insert id snap loaded) id
just_loaded key loaded id snap e =
    (snap, lookup-insert id id snap loaded ∙ ground (arith, text_eq_iff id id), e)

pub Keyed-accept :
    (key : Option SnapshotPaths) (loaded : List (Text × SnapshotPaths)) (x : Text)
    (snap : SnapshotPaths)
    → (key ≡ none) ⊎ (key ≡ some snap)
    → Keyed key loaded x
    → Keyed (some snap) loaded x
Keyed-accept key loaded x snap (inl n) (old, f, g) = absurd (cc)
Keyed-accept key loaded x snap (inr n) (old, f, g) = (snap, ground arith, refl)

-- A change of key or of what is loaded that keeps single slots keyed keeps the whole system keyed.
module _ (key key' : Option SnapshotPaths) (loaded loaded' : List (Text × SnapshotPaths))
    (keeps : (x : Text) → Keyed key loaded x → Keyed key' loaded' x)
    (same : (snap : SnapshotPaths) → key ≡ some snap → key' ≡ some snap) where
  slot_change : (s : Slot) → SlotKeyed key loaded s → SlotKeyed key' loaded' s
  slot_change s f p = keeps s.id (f p)

  job_change : (j : Job) → JobKeyed key loaded j → JobKeyed key' loaded' j
  job_change (spawning id) f = tt
  job_change (checking s) f = slot_change s f
  job_change (loading s snap) (f, e) = (slot_change s f, same snap e)
  job_change (publishing s) f = slot_change s f
  job_change (preloading id snap) e = same snap e

  pub all_change :
      {idle taken : List Slot} {jobs : List Job}
      → AllKeyed key loaded idle taken jobs
      → AllKeyed key' loaded' idle taken jobs
  all_change {idle} {taken} {jobs} v = record {
    in_idle = All-map (SlotKeyed key loaded) (SlotKeyed key' loaded') slot_change idle v.in_idle;
    in_taken = All-map (SlotKeyed key loaded) (SlotKeyed key' loaded') slot_change taken v.in_taken;
    in_jobs = All-map (JobKeyed key loaded) (JobKeyed key' loaded') job_change jobs v.in_jobs;
  }

pub mark-Keyed :
    (key : Option SnapshotPaths) (loaded : List (Text × SnapshotPaths)) (id : Text) (cost : ℕ)
    (l : List Slot)
    → Keyed key loaded id
    → All (SlotKeyed key loaded) l
    → All (SlotKeyed key loaded) (mark_preloaded id cost l)
unfolding mark_preloaded
mark-Keyed key loaded id cost [] k v = tt
mark-Keyed key loaded id cost (s ∷ l) k (f, v) = elim (Bool-cases (text_eq s.id id)) [
  | inl e ↦ rw e (
    (λ p. subst (Keyed key loaded) (sym ((text_eq_iff s.id id).0 e)) k),
    mark-Keyed key loaded id cost l k v,
  )
  | inr e ↦ rw e (f, mark-Keyed key loaded id cost l k v)
]

pub reap-loaded : (s : Slot) (h : Host) → (reap s h).loaded ≡ h.loaded
unfolding reap kill remove_dir
reap-loaded s h = ground arith

pub reap_all-loaded : (l : List Slot) (h : Host) → (reap_all l h).loaded ≡ h.loaded
unfolding reap_all
reap_all-loaded [] h = refl
reap_all-loaded (s ∷ l) h = reap_all-loaded l (reap s h) ∙ reap-loaded s h

-- A spawn loads nothing, and its slot is not marked.
abbrev pub Unmarked : Option Slot → Type 0
Unmarked none = Unit {0}
Unmarked (some s) = s.preloaded ≡ false

spawn_unjailed-loaded :
    (p : WarmPool) (id : Text) (o : Spawn) (h : Host)
    → ((spawn_unjailed p id o h).0.loaded ≡ h.loaded) × Unmarked (spawn_unjailed p id o h).1
unfolding spawn_unjailed start kill make_dir remove_dir
spawn_unjailed-loaded p id Spawn.mkdir_fails h = (refl, tt)
spawn_unjailed-loaded p id Spawn.start_fails h = (refl, tt)
spawn_unjailed-loaded p id Spawn.context_done h = (refl, tt)
spawn_unjailed-loaded p id Spawn.no_socket h = (refl, tt)
spawn_unjailed-loaded p id (Spawn.ready cost) h = (refl, refl)

validated-loaded :
    (j : JailerConfig) (o : Start) (cost : ℕ) (h : Host) (v : Result Jailer.Error (Unit {0}))
    → ((validated j o h v).0.loaded ≡ h.loaded)
      × Unmarked (jailed_slot j cost (validated j o h v).1)
unfolding validated jailed_slot start kill make_dir remove_dir
validated-loaded j o cost h (err e) = (refl, tt)
validated-loaded j Start.prepare_fails cost h (ok _) = (refl, tt)
validated-loaded j Start.start_fails cost h (ok _) = (refl, tt)
validated-loaded j Start.ready cost h (ok _) = (refl, refl)
validated-loaded j Start.context_done cost h (ok _) = (refl, tt)
validated-loaded j Start.deadline_passed cost h (ok _) = (refl, tt)

pub spawn_slot-loaded :
    (p : WarmPool) (id : Text) (o : Spawn) (jail : Start) (cost : ℕ) (h : Host)
    → let r = spawn_slot p id o jail cost h in (r.0.loaded ≡ h.loaded) × Unmarked r.1
unfolding spawn_slot start_jailed
spawn_slot-loaded p id o jail cost h = elim (Option-cases p.jailer_template) [
  | inl e ↦ rw (e, spawn_slot) (spawn_unjailed-loaded p id o h)
  | inr (j, e) ↦
      rw (e, spawn_slot)
        (validated-loaded (record j { id = id }) jail cost h (validate (record j { id = id })))
]
