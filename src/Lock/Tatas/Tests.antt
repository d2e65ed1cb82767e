-- ===== src/Lock/Tatas/Tests.antt =====
-- locks/tatas_lock.hpp: a run of two threads.
use qd_library.Prelude.{ℕ, ◌≡◌, refl, List, [], ◌∷◌}
use qd_library.Interleave.{started, run, step}
use qd_library.Lock.Tatas.{
  Call, call_lock, call_try_lock, next, tatas_lock, outside, inside, tatas-exclusive,
}

-- Thread 1 takes the lock, and thread 2 tries to.
abbrev two_threads : List (ℕ × Call)
two_threads =
    (1, call_lock)
    ∷ (2, call_try_lock)
    ∷ (1, call_lock)
    ∷ (1, call_lock)
    ∷ (2, call_try_lock)
    ∷ (2, call_try_lock)
    ∷ []

thread_1_inside : (run next (started tatas_lock outside) two_threads).pc 1 ≡ inside
unfolding run step next
thread_1_inside = refl

tatas-exclusive_example : ◌≡◌ {A = ℕ} 1 1
tatas-exclusive_example = tatas-exclusive two_threads 1 1 thread_1_inside thread_1_inside
