-- ===== src/Fork/WarmPool/Ultra/Settled.antt =====
-- Which processes a new pool has, after `NewWarmPool` and `NewUltraWarmPool` of
-- internal/fork/warmpool.go.
use firefork_ai.Prelude.{
  ℕ, ◌+◌, ◌≡◌, refl, ap, sym, subst, ◌∙◌, Bool, true, false, List, [], ◌∷◌, Option, none, some,
  Result, ok, err, arith,
}
use firefork_ai.Prelude.Text.{Text}
use firefork_ai.Fc.Host.{SnapshotPaths, Host, count, load}
use firefork_ai.Fc.Jailer.{JailerConfig}
use firefork_ai.Fork.WarmPool.{
  WarmPool, Error, load_failed, Slot, new_warm_pool, spawned, close_pool,
}
use firefork_ai.Fork.WarmPool.Ownership.{slot_count, slot_count-mark_preloaded, count-reap_all}
use firefork_ai.Fork.WarmPool.Sections.{PreloadCase, preload_start-PreloadCase, rejects, accepts}
use firefork_ai.Fork.WarmPool.Shutdown.{NewCase, new_warm_pool-NewCase, refuses, fails, opens}
use firefork_ai.Fork.WarmPool.Ultra.{
  Loads, load_one, load_all, finish_preload, preload_new, ultra_from, new_ultra_warm_pool,
}

-- The processes that run are those of the idle slots, and others.
abbrev pub IsMadeOf : (Text → ℕ) → WarmPool → Host → Type 0
IsMadeOf others p h = (x : Text) → count x h.running ≡ slot_count x p.idle + others x

-- A pool that was made has its slots' processes; without a pool there are only the others.
pub data IsSettled (others : Text → ℕ) : Result Error WarmPool × Host → Type 0 where
  has_pool : (p : WarmPool) (h : Host) → IsMadeOf others p h → IsSettled others (ok p, h)
  no_pool :
      (e : Error) (h : Host)
      → ((x : Text) → count x h.running ≡ others x)
      → IsSettled others (err e, h)

-- Loading starts and ends no process.
load_one-running :
    (o : Option ℕ) (snap : SnapshotPaths) (s : Slot) (t : WarmPool × Host × Bool)
    → ((load_one o snap s t).1).running ≡ (t.1).running
unfolding load_one load
load_one-running none snap s (p, h, good) = refl
load_one-running (some cost) snap s (p, h, good) = refl

load_all-running :
    (loads : Loads) (snap : SnapshotPaths) (l : List Slot) (t : WarmPool × Host × Bool)
    → ((load_all loads snap l t).1).running ≡ (t.1).running
unfolding load_all
load_all-running loads snap [] t = refl
load_all-running loads snap (s ∷ l) t =
    load_all-running loads snap l _ ∙ load_one-running (loads s.id) snap s t

finish_preload-running :
    (t : WarmPool × Host × Bool) (p : WarmPool) (k : Host)
    → finish_preload t ≡ (ok p, k)
    → k.running ≡ (t.1).running
unfolding finish_preload
finish_preload-running (q, h, true) p k e = sym (ap (λ r. (r.1).running) e)
finish_preload-running (q, h, false) p k e = absurd (ground arith)

preload_new-running :
    (loads : Loads) (snap : SnapshotPaths) (w p : WarmPool) (h k : Host)
    {r : Result Error (WarmPool × List Slot)}
    → PreloadCase w snap r
    → preload_new loads snap w h r ≡ (ok p, k)
    → k.running ≡ h.running
unfolding preload_new
preload_new-running loads snap w p h k (rejects e) q = absurd (ground arith)
preload_new-running loads snap w p h k (accepts c) q =
    finish_preload-running _ p k q ∙ load_all-running loads snap w.idle _

ultra_from-running :
    (loads : Loads) (snap : SnapshotPaths) (results : List (Option Slot)) (h : Host)
    {r : Result Error WarmPool × Host} (p : WarmPool) (k : Host)
    → NewCase results h r
    → ultra_from loads snap r ≡ (ok p, k)
    → k.running ≡ h.running
unfolding ultra_from
ultra_from-running loads snap results h p k (refuses e) q = absurd (ground arith)
ultra_from-running loads snap results h p k (fails e f) q = absurd (ground arith)
ultra_from-running loads snap results h p k (opens w i c) q =
    preload_new-running loads snap w p h k (preload_start-PreloadCase w snap) q

new_from-running :
    (results : List (Option Slot)) (h : Host) {r : Result Error WarmPool × Host} (p : WarmPool)
    (k : Host)
    → NewCase results h r
    → r ≡ (ok p, k)
    → k.running ≡ h.running
new_from-running results h p k (refuses e) q = absurd (ground arith)
new_from-running results h p k (fails e f) q = absurd (ground arith)
new_from-running results h p k (opens w i c) q = sym (ap (λ r. (r.1).running) q)

module _ (size : ℕ) (root temp : Text) (made : Bool) (template : Option JailerConfig)
    (results : List (Option Slot)) (h : Host) (p : WarmPool) (k : Host) where
  pub new_warm_pool-running :
      new_warm_pool size root temp made template results h ≡ (ok p, k) → k.running ≡ h.running
  new_warm_pool-running q =
      new_from-running results h p k (new_warm_pool-NewCase size root temp made template results h)
        q

  pub new_ultra_warm_pool-running :
      (loads : Loads) (snap : SnapshotPaths)
      → new_ultra_warm_pool loads snap size root temp made template results h ≡ (ok p, k)
      → k.running ≡ h.running
  unfolding new_ultra_warm_pool
  new_ultra_warm_pool-running loads snap q =
      ultra_from-running loads snap results h p k
        (new_warm_pool-NewCase size root temp made template results h) q

module _ (others : Text → ℕ) where
  close_pool-others :
      (p : WarmPool) (h : Host)
      → IsMadeOf others p h
      → (x : Text) → count x ((close_pool p h).1).running ≡ others x
  unfolding close_pool
  close_pool-others p h v x =
      omega (arith, v x, count-reap_all p.idle h (λ y. omega (arith, v y)) x)

  load_one-IsMadeOf :
      (o : Option ℕ) (snap : SnapshotPaths) (s : Slot) (t : WarmPool × Host × Bool)
      → IsMadeOf others t.0 t.1
      → IsMadeOf others (load_one o snap s t).0 (load_one o snap s t).1
  unfolding load_one load
  load_one-IsMadeOf none snap s (p, h, good) v = v
  load_one-IsMadeOf (some cost) snap s (p, h, good) v =
      λ x. omega (arith, v x, slot_count-mark_preloaded x s.id cost p.idle)

  load_all-IsMadeOf :
      (loads : Loads) (snap : SnapshotPaths) (l : List Slot) (t : WarmPool × Host × Bool)
      → IsMadeOf others t.0 t.1
      → IsMadeOf others (load_all loads snap l t).0 (load_all loads snap l t).1
  unfolding load_all
  load_all-IsMadeOf loads snap [] t v = v
  load_all-IsMadeOf loads snap (s ∷ l) t v =
      load_all-IsMadeOf loads snap l _ (load_one-IsMadeOf (loads s.id) snap s t v)

  finish_preload-IsSettled :
      (t : WarmPool × Host × Bool) → IsMadeOf others t.0 t.1 → IsSettled others (finish_preload t)
  unfolding finish_preload
  finish_preload-IsSettled (p, h, true) v = has_pool p h v
  finish_preload-IsSettled (p, h, false) v = no_pool load_failed _ (close_pool-others p h v)

  preload_new-IsSettled :
      (loads : Loads) (snap : SnapshotPaths) (p : WarmPool) (h : Host)
      {r : Result Error (WarmPool × List Slot)}
      → PreloadCase p snap r
      → IsMadeOf others p h
      → IsSettled others (preload_new loads snap p h r)
  unfolding preload_new
  preload_new-IsSettled loads snap p h (rejects e) v = no_pool e _ (close_pool-others p h v)
  preload_new-IsSettled loads snap p h (accepts c) v =
      finish_preload-IsSettled _ (load_all-IsMadeOf loads snap p.idle _ v)

  settled_lem :
      {t : Result Error WarmPool × Host} (p : WarmPool) (k : Host)
      → IsSettled others t
      → t ≡ (ok p, k)
      → IsMadeOf others p k
  settled_lem p k (has_pool q h v) e =
      let same : q ≡ p = ground arith in
      let there : h ≡ k = ap (λ r. r.1) e in
      subst (λ k'. IsMadeOf others p k') there (subst (λ p'. IsMadeOf others p' h) same v)
  settled_lem p k (no_pool y h v) e = absurd (ground arith)

  module _ (results : List (Option Slot)) (h : Host)
      (v : (x : Text) → count x h.running ≡ slot_count x (spawned results) + others x) where
    opens-IsMadeOf : (p : WarmPool) → p.idle ≡ spawned results → IsMadeOf others p h
    opens-IsMadeOf p i x = v x ∙ ap (λ l. slot_count x l + others x) (sym i)

    ultra_from-IsMadeOf :
        (loads : Loads) (snap : SnapshotPaths) {r : Result Error WarmPool × Host} (p : WarmPool)
        (k : Host)
        → NewCase results h r
        → ultra_from loads snap r ≡ (ok p, k)
        → IsMadeOf others p k
    unfolding ultra_from
    ultra_from-IsMadeOf loads snap p k (refuses e) q = absurd (ground arith)
    ultra_from-IsMadeOf loads snap p k (fails e f) q = absurd (ground arith)
    ultra_from-IsMadeOf loads snap p k (opens w i c) q =
        settled_lem p k
          (preload_new-IsSettled loads snap w h (preload_start-PreloadCase w snap)
            (opens-IsMadeOf w i))
          q

    new_from-IsMadeOf :
        {r : Result Error WarmPool × Host} (p : WarmPool) (k : Host)
        → NewCase results h r
        → r ≡ (ok p, k)
        → IsMadeOf others p k
    new_from-IsMadeOf p k (refuses e) q = absurd (ground arith)
    new_from-IsMadeOf p k (fails e f) q = absurd (ground arith)
    new_from-IsMadeOf p k (opens w i c) q = settled_lem p k (has_pool w h (opens-IsMadeOf w i)) q

    module _ (size : ℕ) (root temp : Text) (made : Bool) (template : Option JailerConfig)
        (p : WarmPool) (k : Host) where
      -- Either constructor leaves the processes of its slots, besides those that ran before.
      pub new_warm_pool-IsMadeOf :
          new_warm_pool size root temp made template results h ≡ (ok p, k) → IsMadeOf others p k
      new_warm_pool-IsMadeOf q =
          new_from-IsMadeOf p k (new_warm_pool-NewCase size root temp made template results h) q

      pub new_ultra_warm_pool-IsMadeOf :
          (loads : Loads) (snap : SnapshotPaths)
          → new_ultra_warm_pool loads snap size root temp made template results h ≡ (ok p, k)
          → IsMadeOf others p k
      unfolding new_ultra_warm_pool
      new_ultra_warm_pool-IsMadeOf loads snap q =
          ultra_from-IsMadeOf loads snap p k
            (new_warm_pool-NewCase size root temp made template results h) q
