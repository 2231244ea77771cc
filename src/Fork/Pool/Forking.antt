-- ===== src/Fork/Pool/Forking.antt =====
-- A fork, on each of its paths: who owns its process, and what its result says.
use firefork_ai.Prelude.{
  ℕ, ◌+◌, ◌≤◌, ◌≡◌, ◌≢◌, refl, ap, true, false, [], ◌∷◌, Option, none, some, Result, ok, err,
  Bool-cases, inl, inr, arith,
}
use firefork_ai.Prelude.Text.{Text, text_eq_iff}
use firefork_ai.Prelude.Table.{lookup, lookup-insert}
use firefork_ai.Fc.Host.{Host, count, remove_one, start, kill, make_dir, remove_dir}
use firefork_ai.Fc.Jailer
use firefork_ai.Fc.Jailer.{JailerConfig, Start, start_jailed, validated, validate, chroot_root}
use firefork_ai.Fork.WarmPool.{Slot, reap}
use firefork_ai.Fork.WarmPool.Ownership.{reap-running, started_twice, one_more}
use firefork_ai.Fork.Pool.{
  ForkRequest, Error, Fork, State, Restoring, refuses, resume_fails, restored, start_fails, Env,
  failed_fork, add_live, refill, warm_fork, finish_warm, fork_dir, cold_fork, restore, finish_cold,
  fork_cold, jailed_fork, finish_jailed, started_jailed, fork_one_jailed, cold_path,
}
use firefork_ai.Fork.Pool.Ledger.{
  fork_count, IsSound, and_one, HasProcess, absent, adopt, kill_other, start_other, recount,
}

-- The invariant on a state of the pool.
abbrev pub IsLedger : (Text → ℕ) → State → Type 0
IsLedger others st = IsSound others (st.pool).live (st.pool).warm_pool (st.host).running

-- What is promised of a fork that started in `st`: the ledger, at most the fork's own process more,
-- all forks that were live, and the new one if it did not fail.
pub record Forked (others : Text → ℕ) (id : Text) (st : State) (t : State × Fork) : Type 0 where
  pub sound : IsLedger others t.0
  pub grows :
      (x : Text) → count x ((t.0).host).running ≤ count x (st.host).running + count x (id ∷ [])
  pub keeps :
      (k : Text) (r : Fork)
      → lookup k ((st.pool).live) ≡ some r
      → lookup k (((t.0).pool).live) ≡ some r
  pub lives : (t.1).failure ≡ none → lookup (t.1).id (((t.0).pool).live) ≡ some t.1

module _ (others : Text → ℕ) (id : Text) (st : State) where
  -- A fork whose process is someone else's in `now` becomes live.
  becomes_live :
      (now : State) (r : Fork)
      → (now.pool).live ≡ (st.pool).live
      → HasProcess (r.id, r)
      → IsLedger (and_one others r.id) now
      → ((x : Text) → count x (now.host).running ≤ count x (st.host).running + count x (id ∷ []))
      → Forked others id st (add_live r now, r)
  unfolding add_live
  becomes_live now r e p v g = record {
    sound = adopt others (now.pool).live (now.pool).warm_pool (now.host).running r p v;
    grows = g;
    keeps = λ k f q. ground (
      arith,
      lookup-insert r.id k r (now.pool).live,
      text_eq_iff r.id k,
      absent others (now.pool).live (now.pool).warm_pool (now.host).running r.id v,
    );
    lives = λ q. ground (arith, lookup-insert r.id r.id r (now.pool).live, text_eq_iff r.id r.id);
  }

  fails :
      (now : State) (name dir : Text) (e : Error)
      → (now.pool).live ≡ (st.pool).live
      → IsLedger others now
      → ((x : Text) → count x (now.host).running ≤ count x (st.host).running + count x (id ∷ []))
      → Forked others id st (now, failed_fork name dir e)
  unfolding failed_fork
  fails now name dir e l v g = record {
    sound = v;
    grows = g;
    keeps = λ k f q. ground (arith, l);
    lives = λ q. absurd (ground arith);
  }

warm_fork-HasProcess : (v : Env) (s : Slot) → HasProcess (s.id, warm_fork v s)
unfolding fork_count warm_fork
warm_fork-HasProcess v s x = refl

cold_fork-HasProcess : (v : Env) (root : Text) → HasProcess (v.id, cold_fork v root)
unfolding fork_count cold_fork
cold_fork-HasProcess v root x = refl

jailed_fork-HasProcess : (v : Env) (j : JailerConfig) → HasProcess (v.id, jailed_fork v j)
unfolding fork_count jailed_fork
jailed_fork-HasProcess v j x = refl

module _ (others : Text → ℕ) (v : Env) (st now : State) (e : (now.pool).live ≡ (st.pool).live)
    (h : now.host ≡ st.host) where
  as_before : (x : Text) → count x (now.host).running ≡ count x (st.host).running
  as_before x = ap (λ k. count x k.running) h

  -- A slot that was taken from the pool of `st`.
  pub finish_warm-Forked :
      (s : Slot) (r : Result Error (Unit {0}))
      → IsLedger (and_one others s.id) now
      → Forked others v.id st (finish_warm v s now r)
  unfolding finish_warm refill warm_fork
  finish_warm-Forked s (ok _) w =
      becomes_live others v.id st (refill now) (warm_fork v s) e (warm_fork-HasProcess v s) w
        (λ x. omega (arith, as_before x))
  finish_warm-Forked s (err f) w =
      let killed =
        kill_other others (now.pool).live (now.pool).warm_pool (now.host).running s.id w in
      fails others v.id st (refill (record now { host = reap s now.host })) v.id s.work_dir f e
        (recount others (now.pool).live (now.pool).warm_pool (remove_one s.id (now.host).running)
          (reap s now.host).running (λ x. ap (count x) (reap-running s now.host)) killed)
        (λ x. omega (
          arith,
          as_before x,
          w.accounted x,
          killed.accounted x,
          ap (count x) (reap-running s now.host),
        ))

  module _ (w : IsLedger others now) (new : count v.id (st.host).running ≡ 0) where
    -- The process of this fork, started and not yet in `live`.
    started_other :
        IsSound
          (and_one others v.id)
          (now.pool).live
          (now.pool).warm_pool
          (v.id ∷ (now.host).running)
    started_other =
        start_other others (now.pool).live (now.pool).warm_pool (now.host).running v.id
          (omega (arith, new, as_before v.id)) w

    -- A failure that leaves the processes as they were.
    fails_clean :
        (k : Host) (dir : Text) (f : Error)
        → ((x : Text) → count x k.running ≡ count x (now.host).running)
        → Forked others v.id st (record now { host = k }, failed_fork v.id dir f)
    fails_clean k dir f c =
        fails others v.id st (record now { host = k }) v.id dir f e
          (recount others (now.pool).live (now.pool).warm_pool (now.host).running k.running c w)
          (λ x. omega (arith, c x, as_before x))

    finish_cold-Forked :
        (root : Text) (o : Restoring)
        → o ≢ start_fails true
        → Forked others v.id st
            (finish_cold v root now (restore v.id o (make_dir (fork_dir root v.id) now.host)))
    unfolding finish_cold restore start kill make_dir remove_dir cold_fork
    finish_cold-Forked root refuses n = fails_clean _ _ _ (λ x. refl)
    finish_cold-Forked root (start_fails true) n = absurd (n refl)
    finish_cold-Forked root (start_fails false) n = fails_clean _ _ _ (λ x. refl)
    finish_cold-Forked root resume_fails n =
        fails_clean _ _ _ (λ x. started_twice x v.id (now.host).running)
    finish_cold-Forked root restored n =
        becomes_live others v.id st _ (cold_fork v root) e (cold_fork-HasProcess v root)
          started_other (λ x. omega (arith, one_more x v.id (now.host).running, as_before x))

    finish_jailed-Forked :
        (j : JailerConfig) (k : Host) (r : Result Error (Unit {0}))
        → k.running ≡ v.id ∷ (now.host).running
        → Forked others v.id st (finish_jailed v j now k r)
    unfolding finish_jailed kill remove_dir jailed_fork
    finish_jailed-Forked j k (ok _) q =
        becomes_live others v.id st (record now { host = k }) (jailed_fork v j) e
          (jailed_fork-HasProcess v j)
          (recount (and_one others v.id) (now.pool).live (now.pool).warm_pool
            (v.id ∷ (now.host).running) k.running (λ x. ap (count x) q) started_other)
          (λ x. omega (arith, ap (count x) q, one_more x v.id (now.host).running, as_before x))
    finish_jailed-Forked j k (err f) q = fails_clean _ _ _ (λ x.
        omega
          (arith, ap (λ l. count x (remove_one v.id l)) q, started_twice x v.id (now.host).running))

    validated-Forked :
        (req : ForkRequest) (j : JailerConfig) (o : Start) (c : Result Jailer.Error (Unit {0}))
        → j.id ≡ v.id
        → Forked others v.id st (started_jailed v req j now (validated j o now.host c))
    unfolding started_jailed validated start kill make_dir remove_dir
    validated-Forked req j o (err f) q = fails_clean _ _ _ (λ x. refl)
    validated-Forked req j Start.prepare_fails (ok _) q = fails_clean _ _ _ (λ x. refl)
    validated-Forked req j Start.start_fails (ok _) q = fails_clean _ _ _ (λ x. refl)
    validated-Forked req j Start.ready (ok _) q =
        finish_jailed-Forked j _ _ (ap (λ i. i ∷ (now.host).running) q)
    validated-Forked req j Start.context_done (ok _) q =
        fails_clean _ _ _ (λ x. started_twice x j.id (now.host).running)
    validated-Forked req j Start.deadline_passed (ok _) q =
        fails_clean _ _ _ (λ x. started_twice x j.id (now.host).running)

    pub cold_path-Forked :
        (req : ForkRequest) (root : Text) (o : Option JailerConfig)
        → v.restoring ≢ start_fails true
        → Forked others v.id st (cold_path v req root o now)
    unfolding cold_path fork_cold fork_one_jailed start_jailed
    cold_path-Forked req root none n = elim (Bool-cases v.made) [
      | inl m ↦ rw (m, cold_path) (finish_cold-Forked root v.restoring n)
      | inr m ↦ rw (m, cold_path) (fails_clean now.host [] _ (λ x. refl))
    ]
    cold_path-Forked req root (some t) n =
        let j = record t { id = v.id } in validated-Forked req j v.starting (validate j) refl
