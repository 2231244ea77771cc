-- ===== src/Fork/WarmPool.antt =====
-- internal/fork/warmpool.go: the pool of pre-spawned Firecracker processes. Each critical section of
-- a method or a background goroutine is one function; Fork/WarmPool/System.antt interleaves them.
-- What a section meets outside the pool (the start of a process, an API call, the clock) is an argument.
pub mod System
pub mod Sections
pub mod Ownership
pub mod Safety
pub mod Shutdown
pub mod Snapshots
pub mod Preloaded
pub mod Growth
pub mod Leftover
pub mod Ultra
mod Tests
use firefork_ai.Prelude.{
  ℕ, suc, ◌+◌, ◌-◌, ◌%◌, Bool, true, false, not, ◌||◌, ◌&&◌, List, [], ◌∷◌, ◌++◌, Option, none,
  some, if◌then◌else◌, ◌==◌, leb, Result, ok, err, ◌>>=◌, ◌>>◌, fail_if, pop_back, length,
}
use firefork_ai.Prelude.Word.{word_mod, not_positive, add64}
use firefork_ai.Prelude.Text.{Text, codes, text_eq, is_empty}
use firefork_ai.Fc.Host.{SnapshotPaths, Host, start, kill, make_dir, remove_dir, load}
use firefork_ai.Fc.Jailer.{
  JailerConfig, Start, chroot_root, host_api_socket_path, start_jailed, default_chroot_layout,
}

pub record Slot : Type 0 where
  pub id : Text
  pub socket_path : Text
  pub work_dir : Text
  pub spawn_cost : ℕ
  pub preloaded : Bool
  pub jailer : Option JailerConfig

pub record WarmPool : Type 0 where
  pub size : ℕ
  pub work_root : Text
  pub idle : List Slot
  pub closed : Bool
  pub preload : Option SnapshotPaths
  pub jailer_template : Option JailerConfig
  pub refill_errs : ℕ
  pub takes : ℕ
  pub drains : ℕ
  pub last_refill_fail_ns : ℕ

pub data Error : Type 0 where
  pool_closed size_too_small work_root_failed paths_required preloaded_otherwise spawn_failed
        prep_failed load_failed :
      Error

-- 500 ms in nanoseconds
abbrev pub refill_backoff : ℕ
refill_backoff = 500000000

-- `atomic.Uint64.Add(1)`
unfoldable pub increment : ℕ → ℕ
increment n = suc n % word_mod

-- How the start of an unjailed process ends.
pub data Spawn : Type 0 where
  mkdir_fails start_fails context_done no_socket : Spawn
  ready : (cost : ℕ) → Spawn

slot_dir : WarmPool → Text → Text
slot_dir p id = p.work_root ++ codes "/firefork-warm-" ++ id

spawn_unjailed : WarmPool → Text → Spawn → Host → Host × Option Slot
unfolding slot_dir
spawn_unjailed p id mkdir_fails h = (h, none)
spawn_unjailed p id start_fails h = (make_dir (slot_dir p id) h, none)
spawn_unjailed p id context_done h =
    (remove_dir (slot_dir p id) (kill id (start id (make_dir (slot_dir p id) h))), none)
spawn_unjailed p id no_socket h =
    (remove_dir (slot_dir p id) (kill id (start id (make_dir (slot_dir p id) h))), none)
spawn_unjailed p id (ready cost) h = (
  start id (make_dir (slot_dir p id) h),
  some (record {
    id = id;
    socket_path = slot_dir p id ++ codes "/fc.sock";
    work_dir = slot_dir p id;
    spawn_cost = cost;
    preloaded = false;
    jailer = none;
  }),
)

jailed_slot : JailerConfig → ℕ → {E A : Type 0} → Result E A → Option Slot
jailed_slot j cost (err e) = none
jailed_slot j cost (ok _) = some (record {
  id = j.id;
  socket_path = host_api_socket_path j;
  work_dir = chroot_root j;
  spawn_cost = cost;
  preloaded = false;
  jailer = some j;
})

-- `spawnJailedSlot`
spawn_jailed : JailerConfig → Start → ℕ → Host → Host × Option Slot
unfolding jailed_slot
spawn_jailed j o cost h = let (h', r) = start_jailed j o h in (h', jailed_slot j cost r)

-- `spawnSlot`; `id` is the new UUID.
unfoldable pub spawn_slot : WarmPool → Text → Spawn → Start → ℕ → Host → Host × Option Slot
unfolding spawn_unjailed spawn_jailed
spawn_slot p id spawn jail cost h = elim p.jailer_template [
  | none ↦ spawn_unjailed p id spawn h
  | some j ↦ spawn_jailed (record j { id = id }) jail cost h
]

-- Kill a slot's process and remove its chroot or work directory.
unfoldable pub reap : Slot → Host → Host
reap s h = elim s.jailer [
  | none ↦ remove_dir s.work_dir (kill s.id h)
  | some j ↦ remove_dir (chroot_root j) (kill s.id h)
]

unfoldable pub reap_all : List Slot → Host → Host
reap_all [] h = h
reap_all (s ∷ l) h = reap_all l (reap s h)

-- `snapForSlot`; `linked` is the outcome of `PrepareChroot`.
unfoldable pub snap_for_slot : Slot → SnapshotPaths → Bool → Result Error SnapshotPaths
snap_for_slot s snap linked = elim s.jailer [
  | none ↦ ok snap
  | some _ ↦ do
    fail_if (not linked) prep_failed
    ok (record {
      mem_file_path = default_chroot_layout.mem_file;
      state_path = default_chroot_layout.state_file;
    })
]

-- The result of `Take`: an error, nothing (and whether a refill was started), or a slot.
pub data Taken : Type 0 where
  refused : Error → Taken
  drained : (refill : Bool) → Taken
  took : Slot → Taken

-- `now` is the wall clock in nanoseconds, not before the last failure.
take_refills : ℕ → WarmPool → Bool
take_refills now p = p.last_refill_fail_ns == 0 || leb refill_backoff (now - p.last_refill_fail_ns)

take_idle : ℕ → WarmPool → Option (List Slot × Slot) → WarmPool × Taken
unfolding take_refills
take_idle now p none = (record p { drains = increment p.drains }, drained (take_refills now p))
take_idle now p (some (rest, s)) = (record p { idle = rest; takes = increment p.takes }, took s)

unfoldable pub take_slot : ℕ → WarmPool → WarmPool × Taken
unfolding take_idle
take_slot now p = if p.closed then (p, refused pool_closed) else take_idle now p (pop_back p.idle)

-- The sections of the goroutine that `Refill` starts. First: the spawn failed.
unfoldable pub refill_failed : ℕ → WarmPool → WarmPool
refill_failed now p = record p { refill_errs = increment p.refill_errs; last_refill_fail_ns = now }

-- What the goroutine does next.
pub data Next : Type 0 where
  stop : Next
  load_next : SnapshotPaths → Next
  publish_next : Next

-- It reads `preload` and `closed`; on a closed pool it reaps its slot.
unfoldable pub refill_check : WarmPool → Slot → Host → Host × Next
refill_check p s h =
    if p.closed
    then (reap s h, stop)
    else elim p.preload [ none ↦ (h, publish_next) | some snap ↦ (h, load_next snap) ]

-- It has loaded the snapshot, or failed to.
unfoldable pub refill_loaded :
    ℕ
    → WarmPool
    → Slot
    → SnapshotPaths
    → (linked loads : Bool) → ℕ
    → Host
    → WarmPool × Host × Option Slot
refill_loaded now p s snap linked loads cost h = elim (snap_for_slot s snap linked) [
  | err e ↦ (refill_failed now p, reap s h, none)
  | ok _ ↦
      if loads
      then (
        p,
        load s.id snap h,
        some (record s { preloaded = true; spawn_cost = s.spawn_cost + cost }),
      )
      else (refill_failed now p, reap s h, none)
]

-- It appends its slot, or reaps it if the pool was closed meanwhile.
unfoldable pub refill_publish : WarmPool → Slot → Host → WarmPool × Host
refill_publish p s h = if p.closed then (p, reap s h) else (record p { idle = p.idle ++ s ∷ [] }, h)

-- `Close`
unfoldable pub close_pool : WarmPool → Host → WarmPool × Host
close_pool p h = (record p { closed = true; idle = [] }, reap_all p.idle h)

same_paths : SnapshotPaths → SnapshotPaths → Bool
same_paths a b = text_eq a.mem_file_path b.mem_file_path && text_eq a.state_path b.state_path

-- The first section of `Preload`: it remembers the snapshot, and the slots to load it into.
unfoldable pub preload_start : WarmPool → SnapshotPaths → Result Error (WarmPool × List Slot)
unfolding same_paths
preload_start p snap = do
  fail_if (is_empty snap.mem_file_path || is_empty snap.state_path) paths_required
  fail_if (elim p.preload [ none ↦ false | some old ↦ not (same_paths old snap) ])
      preloaded_otherwise
  ok (record p { preload = some snap }, p.idle)

-- A slot that `Preload` has loaded is marked wherever it is by then.
unfoldable pub mark_preloaded : Text → ℕ → List Slot → List Slot
mark_preloaded id cost [] = []
mark_preloaded id cost (s ∷ l) =
    (if text_eq s.id id then record s { preloaded = true; spawn_cost = s.spawn_cost + cost } else s)
    ∷ mark_preloaded id cost l

-- `NewWarmPool`: all slots are spawned, or those that were are reaped.
unfoldable pub spawned : List (Option Slot) → List Slot
spawned [] = []
spawned (none ∷ l) = spawned l
spawned (some s ∷ l) = s ∷ spawned l

unfoldable pub some_failed : List (Option Slot) → Bool
some_failed [] = false
some_failed (none ∷ l) = true
some_failed (some s ∷ l) = some_failed l

unfoldable pub fresh_pool : ℕ → Text → Option JailerConfig → WarmPool
fresh_pool size work_root template = record {
  size = size;
  work_root = work_root;
  idle = [];
  closed = false;
  preload = none;
  jailer_template = template;
  refill_errs = 0;
  takes = 0;
  drains = 0;
  last_refill_fail_ns = 0;
}

-- `made` is the outcome of `os.MkdirAll(workRoot)`, `results` what the spawns sent, in that order.
unfoldable pub new_warm_pool :
    ℕ
    → Text
    → Text
    → Bool
    → Option JailerConfig
    → List (Option Slot)
    → Host
    → Result Error WarmPool × Host
unfolding fresh_pool spawned some_failed
new_warm_pool size work_root temp_dir made template results h =
    if not_positive size
    then (err size_too_small, h)
    else if not made
    then (err work_root_failed, h)
    else if some_failed results
    then (err spawn_failed, reap_all (spawned results) h)
    else (
      ok (record (fresh_pool size (if is_empty work_root then temp_dir else work_root) template) {
        idle = spawned results;
      }),
      h,
    )

unfoldable pub idle_count : WarmPool → ℕ
idle_count p = length p.idle

unfoldable pub is_preloaded : WarmPool → Bool
is_preloaded p = elim p.preload [ none ↦ false | some _ ↦ true ]

unfoldable pub take_stats : WarmPool → ℕ × ℕ
take_stats p = (p.takes, p.drains)
