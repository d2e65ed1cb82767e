-- ===== src/Mrhqd/Tests.antt =====
-- `mrhqdlock_impl` of hqdlock.hpp: a run of a writer and a reader, on a machine with two nodes.
use qd_library.Prelude.{ℕ, ◌%◌, ◌<◌, ◌≡◌, refl, List, [], ◌∷◌, arith}
use qd_library.Interleave.{started, step, run}
use qd_library.Interleave.Total.{OfThreads}
use qd_library.Mrqd.{mrqd_lock}
use qd_library.Mrqd
use qd_library.Hqd.{free_threads, get_qd}
use qd_library.Mrhqd.{Call, call_lock, call_rlock, held, reading, next}
use qd_library.Mrhqd.Simulation.{view_state, reached, mrhqd-Refines-mrqd, mrhqd-exclusive}

abbrev node_of : ℕ → ℕ
node_of cpu = cpu % 2

-- The writer comes in on processor 3; the reader then arrives, finds the lock taken, and departs.
abbrev writer_first : List (ℕ × (Call × ℕ))
writer_first =
    (0, (call_lock, 3))
    ∷ (0, (call_lock, 3))
    ∷ (0, (call_lock, 3))
    ∷ (0, (call_lock, 3))
    ∷ (0, (call_lock, 3))
    ∷ (0, (call_lock, 3))
    ∷ (0, (call_lock, 3))
    ∷ (1, (call_rlock, 0))
    ∷ (1, (call_rlock, 0))
    ∷ (1, (call_rlock, 0))
    ∷ (1, (call_rlock, 0))
    ∷ []

writer_inside : (reached 2 1 free_threads node_of writer_first).pc 0 ≡ held 1
unfolding run step next get_qd
writer_inside = refl

turn_0 : 0 < 3
turn_0 = omega arith

turn_1 : 1 < 3
turn_1 = omega arith

writer_first-OfThreads : OfThreads 3 writer_first
writer_first-OfThreads = (
  turn_0,
  (
    turn_0,
    (turn_0, (turn_0, (turn_0, (turn_0, (turn_0, (turn_1, (turn_1, (turn_1, (turn_1, tt))))))))),
  ),
)

mrhqd-Refines-mrqd_example :
    (fs : List (ℕ × Mrqd.Call)) × ((threads : ℕ)
      → OfThreads threads writer_first
      → OfThreads threads fs)
    × (view_state 2 1 free_threads node_of (reached 2 1 free_threads node_of writer_first)
        ≡ run (Mrqd.next 2 1) (started mrqd_lock Mrqd.outside) fs)
mrhqd-Refines-mrqd_example = mrhqd-Refines-mrqd 2 1 free_threads node_of writer_first

mrhqd-exclusive_example : ¬ ((reached 2 1 free_threads node_of writer_first).pc 1 ≡ reading 1)
unfolding run step next get_qd
mrhqd-exclusive_example =
    mrhqd-exclusive 2 1 free_threads node_of 3 (omega arith) (omega arith) writer_first 0 1 1
      writer_first-OfThreads turn_1 refl
