-- ===== src/Mrqd/Tests.antt =====
-- mrqdlock.hpp: runs of a writer and two readers.
use qd_library.Prelude.{ℕ, ◌<◌, ◌^◌, ◌≡◌, refl, false, some, List, [], ◌∷◌, arith}
use qd_library.Interleave.{State, step, run}
use qd_library.Interleave.Total.{OfThreads}
use qd_library.Mrqd.{MrqdLock, Call, call_lock, call_rlock, Pc, inside, reading, next}
use qd_library.Delegated.Tests.{invoke, set_value, set_void, operands, long_buffer}
use qd_library.Delegated.Interface
use qd_library.Delegated.Interface.{queued, IsStorable}
use qd_library.Mrqd.Interface.{delegate_p, fulfil, delegate_p-differs}
use qd_library.Mrqd.Exclusion.{system, readers-writers-exclusive}

two_pos : 0 < 2
two_pos = omega arith

few : 3 < 2 ^ 31
few = omega arith

abbrev reached : List (ℕ × Call) → State MrqdLock Pc
reached = system 2 1 3 two_pos few

-- The writer finds both groups empty; the reader that comes then arrives, leaves and waits.
abbrev writer_first : List (ℕ × Call)
writer_first =
    (0, call_lock)
    ∷ (0, call_lock)
    ∷ (0, call_lock)
    ∷ (0, call_lock)
    ∷ (0, call_lock)
    ∷ (1, call_rlock)
    ∷ (1, call_rlock)
    ∷ (1, call_rlock)
    ∷ (1, call_rlock)
    ∷ []

turn_0 : 0 < 3
turn_0 = omega arith

turn_1 : 1 < 3
turn_1 = omega arith

writer_first-OfThreads : OfThreads 3 writer_first
writer_first-OfThreads =
    (turn_0, (turn_0, (turn_0, (turn_0, (turn_0, (turn_1, (turn_1, (turn_1, (turn_1, tt)))))))))

writer_inside : (reached writer_first).pc 0 ≡ inside
unfolding run step next
writer_inside = refl

readers-writers-exclusive_example : ¬ ((reached writer_first).pc 1 ≡ reading 1)
readers-writers-exclusive_example =
    readers-writers-exclusive 2 1 3 two_pos few writer_first 0 1 1 writer_first-OfThreads turn_1
      writer_inside

p-IsStorable :
    IsStorable invoke set_value set_void
      (Interface.delegate_p (5 ∷ []) (1 ∷ []) operands)
      long_buffer
p-IsStorable = (omega arith, tt)

mrqd_p-IsStorable :
    IsStorable invoke set_value set_void (delegate_p false (5 ∷ []) (1 ∷ []) operands) long_buffer
mrqd_p-IsStorable = (omega arith, tt)

delegate_p-differs_example :
    (queued invoke set_value set_void
        (Interface.delegate_p (5 ∷ []) (1 ∷ []) operands)
        long_buffer
        []
      ≡ some (invoke (5 ∷ []) ((1 ∷ []) ∷ operands) []).0)
    × (queued invoke set_value set_void (delegate_p false (5 ∷ []) (1 ∷ []) operands) long_buffer []
        ≡ some (fulfil invoke set_value set_void false (1 ∷ []) (invoke (5 ∷ []) operands [])))
delegate_p-differs_example =
    delegate_p-differs invoke set_value set_void (5 ∷ []) (1 ∷ []) operands false long_buffer []
      p-IsStorable mrqd_p-IsStorable
