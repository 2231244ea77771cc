-- ===== src/Snapshot/Manifest/Bound/Tests.antt =====
-- The bound on a stream of five bytes.
use firefork_ai.Prelude.{◌+◌, ◌≤◌, ◌≡◌, ◌↔◌, false, none, length, arith}
use firefork_ai.Prelude.Text.{codes}
use firefork_ai.Snapshot.Manifest.{copy_bounded}
use firefork_ai.Snapshot.Manifest.Bound.{copy_bounded_lem}

copy_bounded_lem_example :
    (length (copy_bounded 3 (codes "bytes", false)).0 ≤ 3 + 1)
    × (((copy_bounded 3 (codes "bytes", false)).1 ≡ none) ↔ ((false ≡ false) × (5 ≤ 3)))
    × ((copy_bounded 3 (codes "bytes", false)).1 ≡ none
        → (copy_bounded 3 (codes "bytes", false)).0 ≡ codes "bytes")
copy_bounded_lem_example = copy_bounded_lem 3 (codes "bytes") false (omega arith)
