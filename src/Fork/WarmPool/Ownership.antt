-- ===== src/Fork/WarmPool/Ownership.antt =====
-- Every running process of the warm pool has exactly one owner, on every interleaving.
use firefork_ai.Prelude.{
  ℕ, ◌+◌, ◌≤◌, ◌<◌, ◌≡◌, refl, List, [], ◌∷◌, ◌++◌, Option, none, some, Result, ok, err, total,
  total-append, Option-cases, inl, inr, arith,
}
use firefork_ai.Prelude.Text.{Text, text_eq_iff}
use firefork_ai.Fc.Host.{
  Host, count, count-remove_one, count_self, remove_one, start, kill, make_dir, remove_dir,
}
use firefork_ai.Fc.Jailer
use firefork_ai.Fc.Jailer.{JailerConfig, Start, start_jailed, validated, validate}
use firefork_ai.Fork.WarmPool.{
  WarmPool, Slot, Spawn, spawn_slot, spawn_unjailed, jailed_slot, reap, reap_all, mark_preloaded,
}
use firefork_ai.Fork.WarmPool.System.{
  Job, spawning, checking, loading, publishing, preloading, System,
}

-- How often a process id is that of a listed slot.
unfoldable pub slot_count : Text → List Slot → ℕ
slot_count x [] = 0
slot_count x (s ∷ l) = count x (s.id ∷ []) + slot_count x l

abbrev pub job_count : Text → Job → ℕ
job_count x (spawning id) = 0
job_count x (checking s) = count x (s.id ∷ [])
job_count x (loading s snap) = count x (s.id ∷ [])
job_count x (publishing s) = count x (s.id ∷ [])
job_count x (preloading id snap) = 0

-- Every process is running as often as it has an owner: the idle list, a goroutine or a caller.
abbrev pub IsOwned : System → Type 0
IsOwned s =
    (x : Text)
    → count x s.host.running
      ≡ slot_count x s.pool.idle + total (job_count x) s.jobs + slot_count x s.taken

pub slot_count-append :
    (x : Text) (l r : List Slot) → slot_count x (l ++ r) ≡ slot_count x l + slot_count x r
unfolding slot_count
slot_count-append x [] r = omega arith
slot_count-append x (s ∷ l) r = omega (arith, slot_count-append x l r)

pub slot_count-mark_preloaded :
    (x id : Text) (cost : ℕ) (l : List Slot)
    → slot_count x (mark_preloaded id cost l) ≡ slot_count x l
unfolding slot_count mark_preloaded
slot_count-mark_preloaded x id cost [] = refl
slot_count-mark_preloaded x id cost (s ∷ l) = ground (arith, slot_count-mark_preloaded x id cost l)

-- The jobs without one that was among them.
pub jobs_split :
    (x : Text) (jobs l r : List Job) (j : Job)
    → jobs ≡ l ++ j ∷ r
    → total (job_count x) jobs ≡ total (job_count x) (l ++ r) + job_count x j
jobs_split x jobs l r j e =
    rw e
      (omega (arith, total-append {0} (job_count x) l (j ∷ r), total-append {0} (job_count x) l r))

pub taken_split :
    (x : Text) (slots l r : List Slot) (s : Slot)
    → slots ≡ l ++ s ∷ r
    → slot_count x slots ≡ slot_count x (l ++ r) + count x (s.id ∷ [])
unfolding slot_count
taken_split x slots l r s e =
    rw e (omega (arith, slot_count-append x l (s ∷ r), slot_count-append x l r))

pub reap-running : (s : Slot) (h : Host) → (reap s h).running ≡ remove_one s.id h.running
unfolding reap kill remove_dir
reap-running s h = ground arith

pub count-reap :
    (x : Text) (s : Slot) (h : Host)
    → 0 < count s.id h.running
    → count x (reap s h).running + count x (s.id ∷ []) ≡ count x h.running
count-reap x s h p = rw (reap-running s h) (count-remove_one x s.id h.running p)

pub count-reap_all :
    (l : List Slot) (h : Host)
    → ((x : Text) → slot_count x l ≤ count x h.running)
    → (x : Text) → count x (reap_all l h).running + slot_count x l ≡ count x h.running
unfolding reap_all slot_count
count-reap_all [] h p x = omega arith
count-reap_all (s ∷ l) h p x =
    let here : 0 < count s.id h.running = omega (arith, p s.id, count_self s.id) in
    omega (
      arith,
      count-reap x s h here,
      count-reap_all l (reap s h) (λ y. omega (arith, p y, count-reap y s h here)) x,
    )

-- A spawn that fails leaves no process; one that succeeds leaves its slot's.
abbrev pub spawn_count : Text → Option Slot → ℕ
spawn_count x none = 0
spawn_count x (some s) = count x (s.id ∷ [])

pub started_twice : (x id : Text) (l : List Text) → count x (remove_one id (id ∷ l)) ≡ count x l
unfolding remove_one
started_twice x id l = ground (arith, text_eq_iff id id)

pub one_more : (x id : Text) (l : List Text) → count x (id ∷ l) ≡ count x l + count x (id ∷ [])
unfolding count
one_more x id l = ground arith

module _ (x : Text) (h : Host) where
  count-spawn_unjailed :
      (p : WarmPool) (id : Text) (o : Spawn)
      → let r = spawn_unjailed p id o h in
        count x (r.0).running ≡ count x h.running + spawn_count x r.1
  unfolding spawn_unjailed start kill make_dir remove_dir
  count-spawn_unjailed p id Spawn.mkdir_fails = omega arith
  count-spawn_unjailed p id Spawn.start_fails = omega arith
  count-spawn_unjailed p id Spawn.context_done = omega (arith, started_twice x id h.running)
  count-spawn_unjailed p id Spawn.no_socket = omega (arith, started_twice x id h.running)
  count-spawn_unjailed p id (Spawn.ready cost) = one_more x id h.running

  count-validated :
      (j : JailerConfig) (o : Start) (cost : ℕ) (v : Result Jailer.Error (Unit {0}))
      → let r = validated j o h v in
        count x (r.0).running ≡ count x h.running + spawn_count x (jailed_slot j cost r.1)
  unfolding validated jailed_slot start kill make_dir remove_dir
  count-validated j o cost (err e) = omega arith
  count-validated j Start.prepare_fails cost (ok _) = omega arith
  count-validated j Start.start_fails cost (ok _) = omega arith
  count-validated j Start.ready cost (ok _) = one_more x j.id h.running
  count-validated j Start.context_done cost (ok _) = omega (arith, started_twice x j.id h.running)
  count-validated j Start.deadline_passed cost (ok _) =
      omega (arith, started_twice x j.id h.running)

  pub count-spawn_slot :
      (p : WarmPool) (id : Text) (o : Spawn) (jail : Start) (cost : ℕ)
      → let r = spawn_slot p id o jail cost h in
        count x (r.0).running ≡ count x h.running + spawn_count x r.1
  unfolding spawn_slot start_jailed
  count-spawn_slot p id o jail cost = elim (Option-cases p.jailer_template) [
    | inl e ↦ rw (e, spawn_slot) (count-spawn_unjailed p id o)
    | inr (j, e) ↦
        rw (e, spawn_slot)
          (count-validated (record j { id = id }) jail cost (validate (record j { id = id })))
  ]
