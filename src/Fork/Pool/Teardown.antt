-- ===== src/Fork/Pool/Teardown.antt =====
-- internal/fork/pool.go: `Release`, `Shutdown` and the views of the live forks.
use firefork_ai.Prelude.{
  ℕ, suc, Bool, true, false, not, ◌&&◌, List, [], ◌∷◌, Option, none, some, if◌then◌else◌, length,
}
use firefork_ai.Prelude.Text.{Text, is_empty}
use firefork_ai.Prelude.Table.{lookup, delete}
use firefork_ai.Fc.Host.{Host, kill, remove_dir}
use firefork_ai.Fc.Jailer.{chroot_root}
use firefork_ai.Fork.WarmPool.{WarmPool, close_pool}
use firefork_ai.Fork.Pool.{Fork, Pool, State, new_pool}

-- What ending a fork meets: whether its process can be killed, and its directory removed.
pub record End : Type 0 where
  pub killed : Bool
  pub removed : Bool

-- `Kill` or `StopVMM`, with whether it was tried and failed. A warm machine without `warm_cmd` has
-- nothing that `StopVMM` would stop.
unfoldable pub end_process : Fork → End → Host → Host × Bool
end_process r e h = elim r.warm_cmd [
  | some id ↦ (if e.killed then kill id h else h, not e.killed)
  | none ↦ if r.sdk then (if e.killed then kill r.id h else h, not e.killed) else (h, false)
]

-- The directory, with whether removing it failed.
unfoldable pub end_dir : Fork → End → Host → Host × Bool
end_dir r e h = elim r.jailer [
  | some j ↦ (if e.removed then remove_dir (chroot_root j) h else h, not e.removed)
  | none ↦
      if is_empty r.work_dir
      then (h, false)
      else (if e.removed then remove_dir r.work_dir h else h, not e.removed)
]

pub data ReleaseError : Type 0 where
  kill_failed removal_failed : ReleaseError

-- The host, with the first error.
unfoldable pub end_fork : Fork → End → Host → Host × Option ReleaseError
unfolding end_process end_dir
end_fork r e h =
    let (h', a) = end_process r e h in
    let (h'', b) = end_dir r e h' in
    (h'', if a then some kill_failed else if b then some removal_failed else none)

unfoldable pub release_found : Text → End → State → Option Fork → State × Bool × Option ReleaseError
release_found id e st none = (st, false, none)
release_found id e st (some r) =
    let (h, f) = end_fork r e st.host in
    (record st { pool = record (st.pool) { live = delete id (st.pool).live }; host = h }, true, f)

-- `Release`
unfoldable pub release : Text → End → State → State × Bool × Option ReleaseError
unfolding release_found
release id e st = release_found id e st (lookup id (st.pool).live)

-- How a fork counts in the totals of `Shutdown`: tried, and failed.
unfoldable pub tried : Fork → Bool
tried r = elim r.warm_cmd [ some _ ↦ true | none ↦ r.sdk ]

-- The loop of `Shutdown` with its two totals; `ends` is what ending each fork meets.
unfoldable pub shut_forks : (Text → End) → List (Text × Fork) → Host → Host × ℕ × ℕ
unfolding tried
shut_forks ends [] h = (h, 0, 0)
shut_forks ends ((k, r) ∷ l) h =
    let (h', s, f) = shut_forks ends l (end_fork r (ends k) h).0 in
    (
      h',
      if tried r && (ends k).killed then suc s else s,
      if tried r && not (ends k).killed then suc f else f,
    )

unfoldable pub close_warm : Option WarmPool → Host → Host
close_warm none h = h
close_warm (some w) h = (close_pool w h).1

-- `Shutdown`, with the numbers of stopped and failed forks. `Close` gets the warm pool last.
unfoldable pub shutdown : (Text → End) → State → State × ℕ × ℕ
unfolding shut_forks close_warm
shutdown ends st =
    let (h, s, f) = shut_forks ends (st.pool).live st.host in
    (record st { pool = new_pool; host = close_warm (st.pool).warm_pool h }, s, f)

unfoldable pub count_live : Pool → ℕ
count_live p = length p.live

unfoldable pub live_forks : Pool → List (Text × Fork)
live_forks p = p.live
