-- ===== src/Fork.antt =====
-- internal/fork: options, the warm pool, the pool of live forks and the sweep of stale directories.
pub mod Options
pub mod Sweep
pub mod WarmPool
pub mod Pool
