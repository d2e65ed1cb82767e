-- ===== src/Lock/Futex/Tests.antt =====
-- locks/futex_lock.hpp: a run of two threads, with a kernel that keeps its sleepers in a list.
use qd_library.Prelude.{ℕ, ◌≡◌, refl, true, List, [], ◌∷◌, ◌⊎◌}
use qd_library.Interleave.{State, started, run, step}
use qd_library.Lock.Kernel.{list_kernel, member}
use qd_library.Lock.Futex.{
  Call, call_lock, Pc, FutexLock, next, futex_lock, outside, inside, notifying, is_contended,
  futex-exclusive,
}
use qd_library.Lock.Futex.Wakeups.{no_lost_wakeup}

-- Thread 1 takes the lock, and thread 2 goes to sleep on it.
abbrev two_threads : List (ℕ × Call)
two_threads =
    (1, call_lock)
    ∷ (1, call_lock)
    ∷ (2, call_lock)
    ∷ (2, call_lock)
    ∷ (2, call_lock)
    ∷ (2, call_lock)
    ∷ []

abbrev reached : State (FutexLock (List ℕ)) Pc
reached = run (next list_kernel) (started (futex_lock list_kernel) outside) two_threads

thread_1_inside : reached.pc 1 ≡ inside
unfolding run step next
thread_1_inside = refl

thread_2_asleep : member reached.mem.waiters 2 ≡ true
unfolding run step next
thread_2_asleep = refl

futex-exclusive_example : ◌≡◌ {A = ℕ} 1 1
futex-exclusive_example =
    futex-exclusive list_kernel two_threads 1 1 thread_1_inside thread_1_inside

no_lost_wakeup_example :
    ((is_contended reached.mem.locked ≡ true) × ((i : ℕ) × (reached.pc i ≡ inside)))
    ⊎ ((i : ℕ) × (reached.pc i ≡ notifying))
no_lost_wakeup_example = no_lost_wakeup list_kernel two_threads 2 thread_2_asleep
