-- ===== src/Synch/Circular/Tests.antt =====
-- A buffer of two elements on which the theorem about its uses is applied.
use hailburst.Prelude.{ℕ, ◌≡◌, refl, List, [], ◌∷◌, ok, arith}
use hailburst.Synch.Circular.Defs.{CircBuf, reset, Op, put, get, run}
use hailburst.Synch.Circular.Represents.{Represents, reset-Represents}
use hailburst.Synch.Circular.Queue.{queue_run, run_refines}

abbrev two_slots : CircBuf ℕ
two_slots = record { element_count = 2; element_storage = λ _. 0; next_read = 9; next_write = 4 }

abbrev uses : List (Op ℕ)
uses = put 7 ∷ put 8 ∷ put 9 ∷ get ∷ put 5 ∷ get ∷ get ∷ get ∷ []

run_refines_example :
    (d : CircBuf ℕ) × (run (reset two_slots) uses ≡ ok ((queue_run 2 [] uses).0, d))
    × Represents d (queue_run 2 [] uses).1 0
unfolding reset
run_refines_example =
    run_refines 2 uses (reset two_slots) [] refl
      (reset-Represents two_slots 8 (omega arith) (omega arith) (omega arith))
