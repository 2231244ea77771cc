-- ===== src/Fork/WarmPool/Leftover.antt =====
-- `Close` and `Refill` of internal/fork/warmpool.go: `Close` does not wait for the refills in flight.
use firefork_ai.Prelude.{
  ◌<◌, ◌≡◌, refl, ap, sym, subst, ◌∙◌, true, List, [], ◌∷◌, none, some, arith,
}
use firefork_ai.Prelude.Text.{Text}
use firefork_ai.Fc.Host.{Host, count, count_self, start, make_dir}
use firefork_ai.Fc.Jailer.{Start}
use firefork_ai.Fork.WarmPool.{
  WarmPool, Slot, Spawn, spawn_slot, spawn_unjailed, close_pool, reap_all,
}
use firefork_ai.Fork.WarmPool.System.{
  Job, spawning, checking, System, Step, Reach, here, next, after_spawn,
}

-- A slot that was spawned and runs.
Spawned : WarmPool → Text → Host → Type 0
Spawned p id h =
    (k : Host) × (x : Slot) × (spawn_slot p id (Spawn.ready 0) Start.ready 0 h ≡ (k, some x))
    × (0 < count x.id k.running)

spawn_unjailed-running :
    (p : WarmPool) (id : Text) (h : Host)
    → (k : Host) × (x : Slot) × (spawn_unjailed p id (Spawn.ready 0) h ≡ (k, some x))
      × (0 < count x.id k.running)
unfolding spawn_unjailed start make_dir count
spawn_unjailed-running p id h = (_, _, refl, ground (arith, count_self id))

spawn_slot-Spawned :
    (p : WarmPool) (id : Text) (h : Host) → p.jailer_template ≡ none → Spawned p id h
unfolding Spawned spawn_slot
spawn_slot-Spawned p id h e =
    let (k, x, q, c) = spawn_unjailed-running p id h in (k, x, rw (e, spawn_slot) refl ∙ q, c)

close_dry : (p : WarmPool) (h : Host) → p.idle ≡ [] → (close_pool p h).1 ≡ h
unfolding close_pool reap_all
close_dry p h e = ap (λ l. reap_all l h) e

-- `Close` leaves what a refill has spawned: from every state of an unjailed pool without idle slots
-- that has a refill to run, the refill can spawn its process and `Close` return before the refill goes
-- on. The process then runs, the pool is closed, and the goroutine has still to look whether it is.
pub close_leaves_refill :
    (s : System) (id : Text) (r : List Job)
    → s.pool.jailer_template ≡ none
    → s.pool.idle ≡ []
    → s.jobs ≡ spawning id ∷ r
    → (t : System) × (x : Slot) × Reach s t
      × (t.pool.closed ≡ true)
      × (t.pool.idle ≡ [])
      × (t.jobs ≡ checking x ∷ r)
      × (0 < count x.id t.host.running)
unfolding Spawned close_pool
close_leaves_refill s id r u i e =
    let (k, x, made, runs) = spawn_slot-Spawned s.pool id s.host u in
    let s1 : System = record s { jobs = checking x ∷ r; host = k } in
    let st : Step s s1 =
      subst (λ y. Step s (after_spawn s r 0 y)) made
        (Step.spawn [] r id (Spawn.ready 0) Start.ready 0 0 e) in
    (
      record s1 { pool = (close_pool s.pool k).0; host = (close_pool s.pool k).1 },
      x,
      next (next here st) Step.close,
      refl,
      refl,
      refl,
      subst (λ h. 0 < count x.id h.running) (sym (close_dry s.pool k i)) runs,
    )
