-- ===== src/Fork/WarmPool/Ultra.antt =====
-- `NewUltraWarmPool` of internal/fork/warmpool.go: a new pool that nobody else has yet, and a `Preload`
-- of all its slots, whose goroutines run here one after another.
pub mod Settled
use firefork_ai.Prelude.{
  ℕ, ◌+◌, ◌≡◌, refl, ap, sym, subst, ◌∙◌, Bool, true, false, List, [], ◌∷◌, Option, none, some,
  Result, ok, err, arith,
}
use firefork_ai.Prelude.Text.{Text}
use firefork_ai.Fc.Host.{SnapshotPaths, Host, count, load}
use firefork_ai.Fc.Jailer.{JailerConfig}
use firefork_ai.Fork.WarmPool.{
  WarmPool, Error, load_failed, Slot, new_warm_pool, spawned, close_pool, preload_start,
  mark_preloaded,
}
use firefork_ai.Fork.WarmPool.Ownership.{slot_count, slot_count-mark_preloaded, count-reap_all}
use firefork_ai.Fork.WarmPool.Sections.{PreloadCase, preload_start-PreloadCase, rejects, accepts}
use firefork_ai.Fork.WarmPool.Shutdown.{NewCase, new_warm_pool-NewCase, refuses, fails, opens}

-- What loading the snapshot into a slot meets: what it costs, or `none` if it fails.
abbrev pub Loads : Type 0
Loads = Text → Option ℕ

load_one : Option ℕ → SnapshotPaths → Slot → WarmPool × Host × Bool → WarmPool × Host × Bool
load_one none snap s (p, h, good) = (p, h, false)
load_one (some cost) snap s (p, h, good) =
    (record p { idle = mark_preloaded s.id cost p.idle }, load s.id snap h, good)

-- The pool, the host, and whether every slot was loaded.
unfoldable pub load_all :
    Loads → SnapshotPaths → List Slot → WarmPool × Host × Bool → WarmPool × Host × Bool
unfolding load_one
load_all loads snap [] t = t
load_all loads snap (s ∷ l) t = load_all loads snap l (load_one (loads s.id) snap s t)

finish_preload : WarmPool × Host × Bool → Result Error WarmPool × Host
finish_preload (p, h, true) = (ok p, h)
finish_preload (p, h, false) = (err load_failed, (close_pool p h).1)

-- `Preload`, and `Close` if it fails
preload_new :
    Loads
    → SnapshotPaths
    → WarmPool
    → Host
    → Result Error (WarmPool × List Slot)
    → Result Error WarmPool × Host
unfolding load_all finish_preload
preload_new loads snap p h (err e) = (err e, (close_pool p h).1)
preload_new loads snap p h (ok (p', slots)) =
    finish_preload (load_all loads snap slots (p', h, true))

ultra_from : Loads → SnapshotPaths → Result Error WarmPool × Host → Result Error WarmPool × Host
unfolding preload_new
ultra_from loads snap (err e, h) = (err e, h)
ultra_from loads snap (ok p, h) = preload_new loads snap p h (preload_start p snap)

unfoldable pub new_ultra_warm_pool :
    Loads
    → SnapshotPaths
    → ℕ
    → Text
    → Text
    → Bool
    → Option JailerConfig
    → List (Option Slot)
    → Host
    → Result Error WarmPool × Host
unfolding ultra_from
new_ultra_warm_pool loads snap size root temp made template results h =
    ultra_from loads snap (new_warm_pool size root temp made template results h)
