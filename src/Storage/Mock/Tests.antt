-- ===== src/Storage/Mock/Tests.antt =====
-- Ranges of one object in memory.
use firefork_ai.Prelude.{◌+◌, ◌≡◌, refl, false, [], ◌∷◌, ◌++◌, some, ok, arith}
use firefork_ai.Prelude.Text.{codes, text_eq}
use firefork_ai.Prelude.Table.{lookup}
use firefork_ai.Storage.Mock.{MockStorage, data_at, get_range}
use firefork_ai.Storage.Mock.Ranges.{window, get_range-window}

abbrev one : MockStorage
one = record {
  latency = 0;
  data_of = (codes "k", codes "firefork") ∷ [];
  gets = 0;
  puts = 0;
  bytes_served = 0;
}

there : data_at (codes "k") one ≡ some (codes "firefork")
unfolding lookup text_eq
there = refl

get_range-window_example :
    ((get_range false (codes "k") 1 3 one).1 ≡ ok (window 1 3 (codes "firefork")))
    × ((get_range false (codes "k") (1 + 3) 2 one).1 ≡ ok (window (1 + 3) 2 (codes "firefork")))
    × (window 1 3 (codes "firefork") ++ window (1 + 3) 2 (codes "firefork")
        ≡ window 1 (3 + 2) (codes "firefork"))
get_range-window_example =
    get_range-window (codes "k") (codes "firefork") one there (omega arith) 1 3 2 (omega arith)
      (omega arith)
