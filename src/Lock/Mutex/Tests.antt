-- ===== src/Lock/Mutex/Tests.antt =====
-- locks/mutex_lock.hpp: a run of two threads, with a mutex that is a flag.
use qd_library.Prelude.{ℕ, ◌≡◌, refl, Bool, true, false, List, [], ◌∷◌}
use qd_library.Interleave.{State, started, run, step}
use qd_library.Lock.Mutex.{
  StdMutex, MutexLock, Call, call_lock, call_try_lock, Pc, next, mutex_lock, outside, inside,
  is_inside, is_locked_exact,
}

abbrev flag_mutex : StdMutex
flag_mutex = record {
  Mutex = Bool;
  unlocked = false;
  is_taken = λ m. m;
  take = λ m. true;
  give = λ m. false;
  unlocked_free = refl;
  is_taken-take = λ m. refl;
  is_taken-give = λ m. refl;
}

-- Thread 1 takes the lock, and thread 2 tries to.
abbrev two_threads : List (ℕ × Call)
two_threads =
    (1, call_lock)
    ∷ (2, call_try_lock)
    ∷ (1, call_lock)
    ∷ (1, call_lock)
    ∷ (2, call_try_lock)
    ∷ (2, call_try_lock)
    ∷ []

abbrev reached : State (MutexLock Bool) Pc
reached = run (next flag_mutex) (started (mutex_lock flag_mutex) outside) two_threads

thread_1_inside : reached.pc 1 ≡ inside
unfolding run step next
thread_1_inside = refl

is_locked_exact_example :
    ((i : ℕ) → is_inside (reached.pc i) ≡ true → reached.mem.locked ≡ true)
    × (reached.mem.locked ≡ true → (i : ℕ) × (is_inside (reached.pc i) ≡ true))
is_locked_exact_example = is_locked_exact flag_mutex two_threads
