-- ===== src/Fork/Pool/Batch.antt =====
-- `forkOne` and `Fork`: all the goroutines of a request.
use firefork_ai.Prelude.{
  ℕ, zero, suc, ◌≤◌, ◌≡◌, ◌≢◌, refl, ap, subst, Bool, true, false, List, Option, none, some, Result,
  ok, err, All, length, arith, if◌then◌else◌,
}
use firefork_ai.Prelude.Text.{Text, text_eq_iff}
use firefork_ai.Prelude.Table.{lookup}
use firefork_ai.Fc.Host.{count}
use firefork_ai.Fork.WarmPool.{WarmPool, Taken, take_slot}
use firefork_ai.Fork.WarmPool.Sections.{TakeCase, take_slot-TakeCase}
use firefork_ai.Fork.Pool.{
  cancelled, ForkRequest, Error, Fork, Pool, State, start_fails, Env, refill, warm_restore,
  set_warm, after_take, fork_from, fork_one, fork_all, check_request, fork_checked, fork,
}
use firefork_ai.Fork.Pool.Ledger.{IsSound, take_other, same_idle}
use firefork_ai.Fork.Pool.Forking.{IsLedger, Forked, finish_warm-Forked, cold_path-Forked}

module _ (others : Text → ℕ) (v : Env) (st : State) (w : IsLedger others st)
    (new : count v.id (st.host).running ≡ 0) (n : v.restoring ≢ start_fails true)
    (req : ForkRequest) (root : Text) where
  attached :
      (p : WarmPool)
      → (st.pool).warm_pool ≡ some p
      → IsSound others (st.pool).live (some p) (st.host).running
  attached p e = subst (λ o. IsSound others (st.pool).live o (st.host).running) e w

  after_take-Forked :
      (p : WarmPool) (t : WarmPool × Taken)
      → (st.pool).warm_pool ≡ some p
      → TakeCase v.now p t
      → Forked others v.id st (after_take v req root st t)
  unfolding after_take set_warm refill
  after_take-Forked p t e (TakeCase.shut c) =
      cold_path-Forked others v st (set_warm p st) refl refl (attached p e) new req root req.jailer
        n
  after_take-Forked p t e (TakeCase.empty true c i) =
      cold_path-Forked others v st _ refl refl (same_idle others _ p _ _ refl (attached p e)) new
        req root req.jailer n
  after_take-Forked p t e (TakeCase.empty false c i) =
      cold_path-Forked others v st _ refl refl (same_idle others _ p _ _ refl (attached p e)) new
        req root req.jailer n
  after_take-Forked p t e (TakeCase.full rest s c i) =
      finish_warm-Forked others v st _ refl refl s (warm_restore v req s)
        (take_other others _ p _ _ rest s i refl (attached p e))

  fork_from-Forked :
      (o : Option WarmPool)
      → (st.pool).warm_pool ≡ o
      → Forked others v.id st (fork_from v req root st o)
  unfolding fork_from
  fork_from-Forked none e = cold_path-Forked others v st st refl refl w new req root req.jailer n
  fork_from-Forked (some p) e =
      after_take-Forked p (take_slot v.now p) e (take_slot-TakeCase v.now p)

  fork_one-Forked : Forked others v.id st (fork_one v req root st)
  unfolding fork_one
  fork_one-Forked = fork_from-Forked (st.pool).warm_pool refl

-- Every successful result is live under its id.
abbrev pub IsLive : Pool → Fork → Type 0
IsLive p r = r.failure ≡ none → lookup r.id p.live ≡ some r

record Batch (others : Text → ℕ) (n : ℕ) (st : State) (t : State × List Fork) : Type 0 where
  sound : IsLedger others t.0
  keeps :
      (k : Text) (r : Fork) → lookup k (st.pool).live ≡ some r → lookup k ((t.0).pool).live ≡ some r
  lives : All (IsLive (t.0).pool) t.1
  size : length t.1 ≡ n

-- What a request relies on: the new UUIDs differ from each other and from all process ids in use, and
-- the SDK leaves no process behind when `Start` fails.
pub record IsFresh (env : ℕ → Env) (st : State) : Type 0 where
  pub distinct : (i j : ℕ) → (env i).id ≡ (env j).id → i ≡ j
  pub unused : (i : ℕ) → count (env i).id (st.host).running ≡ 0
  pub cleans : (i : ℕ) → (env i).restoring ≢ start_fails true

module _ (others : Text → ℕ) (env : ℕ → Env)
    (distinct : (i j : ℕ) → (env i).id ≡ (env j).id → i ≡ j)
    (cleans : (i : ℕ) → (env i).restoring ≢ start_fails true) (req : ForkRequest)
    (root : Text) where
  still_unused :
      (i j : ℕ) (st : State) (t : State × Fork)
      → suc i ≤ j
      → count (env j).id (st.host).running ≡ 0
      → Forked others (env i).id st t
      → count (env j).id ((t.0).host).running ≡ 0
  unfolding count
  still_unused i j st t b u f =
      ground (arith, f.grows (env j).id, text_eq_iff (env j).id (env i).id, distinct j i)

  fork_all-Batch :
      (n i : ℕ) (st : State)
      → IsLedger others st
      → ((j : ℕ) → i ≤ j → count (env j).id (st.host).running ≡ 0)
      → Batch others n st (fork_all n i env req root st)
  unfolding fork_all
  fork_all-Batch zero i st w u = record { sound = w; keeps = λ k r q. q; lives = tt; size = refl }
  fork_all-Batch (suc n) i st w u =
      let f = fork_one-Forked others (env i) st w (u i (omega arith)) (cleans i) req root in
      let b =
        fork_all-Batch n (suc i) (fork_one (env i) req root st).0 f.sound
          (λ j l. still_unused i j st _ l (u j (omega arith)) f) in
      record {
        sound = b.sound;
        keeps = λ k r q. b.keeps k r (f.keeps k r q);
        lives = (λ q. b.keeps _ _ (f.lives q), b.lives);
        size = ap suc b.size;
      }

module _ (others : Text → ℕ) (req : ForkRequest) (temp : Text) (done : Bool) (env : ℕ → Env)
    (st : State) (fresh : IsFresh env st) (w : IsLedger others st) where
  batch : (root : Text) → Batch others req.count st (fork_all req.count 0 env req root st)
  batch root =
      fork_all-Batch others env fresh.distinct fresh.cleans req root req.count 0 st w
        (λ j l. fresh.unused j)

  checked-IsLedger :
      (c : Result Error (Unit {0})) → IsLedger others (fork_checked req temp done env st c).0
  unfolding fork_checked
  checked-IsLedger (err e) = w
  checked-IsLedger (ok _) = (batch _).sound

  -- `Fork` loses no process: if every running process has one owner before, that is so after it, and
  -- the owner is a live fork, an idle slot of the warm pool, or the one it had; whatever path each
  -- goroutine took, and wherever it failed. The new UUIDs are unused and distinct, and the SDK leaves
  -- no process behind when its `Start` fails.
  pub fork-IsLedger : IsLedger others (fork req temp done env st).0
  unfolding fork
  fork-IsLedger = checked-IsLedger (check_request req)

  -- When the request passes validation, `Fork` returns one result for each of `Count`, also if the
  -- context was cancelled; each result without an error is live under its id, and what was live stays.
  -- The new UUIDs are unused and distinct, the SDK leaves no process behind when its `Start` fails, and
  -- every process that runs before has one owner.
  pub fork_results :
      check_request req ≡ ok tt
      → (length (fork req temp done env st).1 ≡ req.count)
        × All (IsLive ((fork req temp done env st).0).pool) (fork req temp done env st).1
        × ((k : Text) (r : Fork)
            → lookup k (st.pool).live ≡ some r
            → lookup k (((fork req temp done env st).0).pool).live ≡ some r)
  unfolding fork fork_checked
  fork_results c = rw (c, fork) ((batch _).size, (batch _).lives, (batch _).keeps)

-- The error of `Fork` on a valid request is that of its context.
pub fork_cancelled :
    (req : ForkRequest) (temp : Text) (done : Bool) (env : ℕ → Env) (st : State)
    → check_request req ≡ ok tt
    → (fork req temp done env st).2 ≡ (if done then some cancelled else none)
unfolding fork fork_checked
fork_cancelled req temp done env st c = rw (c, fork) refl
