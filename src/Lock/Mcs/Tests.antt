-- ===== src/Lock/Mcs/Tests.antt =====
-- locks/mcs_lock.hpp: a run in which thread 1 has the lock and thread 2 waits.
use qd_library.Prelude.{ℕ, ◌≡◌, refl, List, [], ◌∷◌}
use qd_library.Interleave.{run, step}
use qd_library.Lock.Nodes.{NodeStatus, free}
use qd_library.Lock.Mcs.{Call, call_lock, inside, l_spin, next}
use qd_library.Lock.Mcs.Order.{reached, mcs-exclusive}

abbrev garbage : ℕ → NodeStatus
garbage i = free

abbrev two_threads : List (ℕ × Call)
two_threads =
    (1, call_lock)
    ∷ (1, call_lock)
    ∷ (2, call_lock)
    ∷ (2, call_lock)
    ∷ (2, call_lock)
    ∷ (2, call_lock)
    ∷ []

thread_1_inside : (reached garbage two_threads).pc 1 ≡ inside
unfolding run step next
thread_1_inside = refl

thread_2_spins : (reached garbage two_threads).pc 2 ≡ l_spin 0
unfolding run step next
thread_2_spins = refl

mcs-exclusive_example : ◌≡◌ {A = ℕ} 1 1
unfolding run step next
mcs-exclusive_example = mcs-exclusive garbage two_threads 1 1 refl refl
