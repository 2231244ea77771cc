-- ===== src/Snapshot.antt =====
-- internal/snapshot: the bundle cache, manifests, compression and the remote store.
pub mod Cache
pub mod Manifest
pub mod Store
