-- ===== src/Fork/Sweep/Tests.antt =====
-- A directory with a stale fork, a fresh one and a file of another program.
use firefork_ai.Prelude.{true, false, List, [], ◌∷◌, some, All}
use firefork_ai.Prelude.Text.{codes}
use firefork_ai.Fork.Sweep.{DirEntry, Stale, sweep_stale, sweep_stale-Stale}

abbrev entries : List DirEntry
entries =
    record { name = codes "firefork-fork-aaa"; mod_time = some 10; removal_fails = false }
    ∷ record { name = codes "firefork-warm-new"; mod_time = some 90; removal_fails = false }
    ∷ record { name = codes "unrelated"; mod_time = some 10; removal_fails = false }
    ∷ []

sweep_stale-Stale_example :
    All (Stale (codes "/tmp") true 50) (sweep_stale (codes "/tmp") true 50 entries).0
sweep_stale-Stale_example = sweep_stale-Stale (codes "/tmp") true 50 entries
