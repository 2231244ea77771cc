-- ===== src/Fork/WarmPool/Growth.antt =====
-- Drained `Take` calls start refills of their own, so the pool grows past its size.
use firefork_ai.Prelude.{
  ℕ, ◌+◌, ◌<◌, ◌≡◌, refl, ap, subst, ◌∙◌, true, false, List, [], ◌∷◌, ◌++◌, none, some, length,
  length-append, map, pop_back, arith,
}
use firefork_ai.Prelude.Text.{Text}
use firefork_ai.Fc.Host.{Host}
use firefork_ai.Fc.Jailer.{Start}
use firefork_ai.Fork.WarmPool.{
  WarmPool, Slot, increment, Spawn, drained, spawn_slot, spawn_unjailed, take_slot, take_idle,
  take_refills, refill_check, refill_publish, publish_next,
}
use firefork_ai.Fork.WarmPool.System.{
  Job, spawning, checking, publishing, System, Step, Reach, here, next, after_take, after_spawn,
  after_check,
}

Reach-trans : {s t u : System} → Reach s t → Reach t u → Reach s u
Reach-trans r here = r
Reach-trans r (next q st) = next (Reach-trans r q) st

-- An open pool with no idle slot, no snapshot, no jailer and no failed refill so far.
pub record IsDry (s : System) : Type 0 where
  pub is_open : s.pool.closed ≡ false
  pub keyless : s.pool.preload ≡ none
  pub unjailed : s.pool.jailer_template ≡ none
  pub unfailed : s.pool.last_refill_fail_ns ≡ 0

take_slot_dry :
    (now : ℕ) (p : WarmPool)
    → p.closed ≡ false
    → p.idle ≡ []
    → p.last_refill_fail_ns ≡ 0
    → take_slot now p ≡ (record p { drains = increment p.drains }, drained true)
unfolding take_slot take_idle take_refills pop_back
take_slot_dry now p a b c = ground arith

-- A call of `Take` that finds nothing queues a refill.
drain_one :
    (s : System) (id : Text)
    → IsDry s
    → s.pool.idle ≡ []
    → (t : System) × Step s t
      × IsDry t
      × (t.pool.idle ≡ [])
      × (t.jobs ≡ spawning id ∷ s.jobs)
      × (t.pool.size ≡ s.pool.size)
drain_one s id d e = (
  record s {
    pool = record (s.pool) { drains = increment s.pool.drains };
    jobs = spawning id ∷ s.jobs;
  },
  subst (λ r. Step s (after_take s id r)) (take_slot_dry 0 s.pool d.is_open e d.unfailed)
      (Step.take 0 id),
  record { is_open = d.is_open; keyless = d.keyless; unjailed = d.unjailed; unfailed = d.unfailed },
  e,
  refl,
  refl,
)

unjailed_ready :
    (p : WarmPool) (id : Text) (h : Host)
    → (k : Host) × (x : Slot) × (spawn_unjailed p id (Spawn.ready 0) h ≡ (k, some x))
unfolding spawn_unjailed
unjailed_ready p id h = (_, _, refl)

spawn_slot_unjailed :
    (p : WarmPool) (id : Text) (h : Host)
    → p.jailer_template ≡ none
    → spawn_slot p id (Spawn.ready 0) Start.ready 0 h ≡ spawn_unjailed p id (Spawn.ready 0) h
unfolding spawn_slot
spawn_slot_unjailed p id h e = rw (e, spawn_slot) refl

ready_slot :
    (p : WarmPool) (id : Text) (h : Host)
    → p.jailer_template ≡ none
    → (k : Host) × (x : Slot) × (spawn_slot p id (Spawn.ready 0) Start.ready 0 h ≡ (k, some x))
ready_slot p id h e =
    let (k, x, q) = unjailed_ready p id h in (k, x, spawn_slot_unjailed p id h e ∙ q)

check_dry :
    (p : WarmPool) (x : Slot) (h : Host)
    → p.closed ≡ false
    → p.preload ≡ none
    → refill_check p x h ≡ (h, publish_next)
unfolding refill_check
check_dry p x h a b = ground arith

publish_dry :
    (p : WarmPool) (x : Slot) (h : Host)
    → p.closed ≡ false
    → refill_publish p x h ≡ (record p { idle = p.idle ++ x ∷ [] }, h)
unfolding refill_publish
publish_dry p x h a = ground arith

-- A queued refill runs to its end and adds an idle slot.
fill_one :
    (s : System) (id : Text) (r : List Job)
    → IsDry s
    → s.jobs ≡ spawning id ∷ r
    → (t : System) × Reach s t
      × IsDry t
      × (t.jobs ≡ r)
      × (length t.pool.idle ≡ length s.pool.idle + 1)
      × (t.pool.size ≡ s.pool.size)
fill_one s id r d e =
    let (k, x, made) = ready_slot s.pool id s.host d.unjailed in
    let s1 : System = record s { jobs = checking x ∷ r; host = k } in
    let s2 : System = record s1 { jobs = publishing x ∷ r } in
    let st1 : Step s s1 =
      subst (λ y. Step s (after_spawn s r 0 y)) made
        (Step.spawn [] r id (Spawn.ready 0) Start.ready 0 0 e) in
    let st2 : Step s1 s2 =
      subst (λ y. Step s1 (after_check s1 r x y)) (check_dry s.pool x k d.is_open d.keyless)
        (Step.check [] r x refl) in
    let st3 =
      subst (λ y. Step s2 (record s2 { pool = y.0; jobs = r; host = y.1 }))
        (publish_dry s.pool x k d.is_open) (Step.publish [] r x refl) in
    (
      record s { pool = record (s.pool) { idle = s.pool.idle ++ x ∷ [] }; jobs = r; host = k },
      next (next (next here st1) st2) st3,
      record {
        is_open = d.is_open;
        keyless = d.keyless;
        unjailed = d.unjailed;
        unfailed = d.unfailed;
      },
      refl,
      length-append s.pool.idle (x ∷ []),
      refl,
    )

drain_all :
    (ids : List Text) (s : System)
    → IsDry s
    → s.pool.idle ≡ []
    → s.jobs ≡ []
    → (t : System) × Reach s t
      × IsDry t
      × (t.pool.idle ≡ [])
      × (t.jobs ≡ map spawning ids)
      × (t.pool.size ≡ s.pool.size)
drain_all [] s d e j = (s, here, d, e, j, refl)
drain_all (id ∷ ids) s d e j =
    let (t, r, dt, et, jt, zt) = drain_all ids s d e j in
    let (u, st, du, eu, ju, zu) = drain_one t id dt et in
    (u, next r st, du, eu, ju ∙ ap (◌∷◌ (spawning id)) jt, zu ∙ zt)

fill_all :
    (ids : List Text) (s : System)
    → IsDry s
    → s.jobs ≡ map spawning ids
    → (t : System) × Reach s t
      × (length t.pool.idle ≡ length s.pool.idle + length ids)
      × (t.pool.size ≡ s.pool.size)
fill_all [] s d j = (s, here, omega arith, refl)
fill_all (id ∷ ids) s d j =
    let (t, r, dt, jt, lt, zt) = fill_one s id (map spawning ids) d j in
    let (u, q, lu, zu) = fill_all ids t dt jt in
    (u, Reach-trans r q, omega (arith, lt, lu), zu ∙ zt)

-- `size` bounds nothing: from every open pool without a snapshot to preload and without a jailer that
-- has run dry, with no refill in flight or failed, and for any number of further calls of `Take`, each call can start a refill, all of which become
-- idle slots. With more such calls than `size` the pool holds more idle processes than `size`.
pub idle_outgrows_size :
    (s : System) (ids : List Text)
    → IsDry s
    → s.pool.idle ≡ []
    → s.jobs ≡ []
    → s.pool.size < length ids
    → (t : System) × Reach s t
      × (length t.pool.idle ≡ length ids)
      × (t.pool.size < length t.pool.idle)
idle_outgrows_size s ids d e j more =
    let (t, r, dt, et, jt, zt) = drain_all ids s d e j in
    let (u, q, lu, zu) = fill_all ids t dt jt in
    (u, Reach-trans r q, omega (arith, lu, ap length et), omega (arith, lu, ap length et, zu, zt))
