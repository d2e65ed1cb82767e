-- ===== src/Lock/Pthreads/Tests.antt =====
-- locks/pthreads_lock.hpp: a run of two threads, with a mutex that is a flag.
use qd_library.Prelude.{ℕ, ◌≡◌, ◌≢◌, refl, Bool, true, false, List, [], ◌∷◌, if◌then◌else◌, arith}
use qd_library.Interleave.{State, started, run, step}
use qd_library.Lock.Pthreads.{
  PthreadMutex, PthreadsLock, Call, call_lock, call_try_lock, Pc, next, pthreads_lock, outside,
  inside,
}

abbrev try_flag : Bool → Bool × ℕ
try_flag m = (true, if m then 16 else 0)

try_flag_free : (m : Bool) → m ≡ false → ((try_flag m).0 ≡ true) × ((try_flag m).1 ≡ 0)
try_flag_free m h = ground arith

try_flag_taken : (m : Bool) → m ≡ true → ((try_flag m).0 ≡ true) × ((try_flag m).1 ≢ 0)
try_flag_taken true h = (refl, λ z. omega arith)
try_flag_taken false h = absurd (cc)

abbrev flag_mutex : PthreadMutex
flag_mutex = record {
  Mutex = Bool;
  initializer = false;
  is_taken = λ m. m;
  lock = λ m. true;
  trylock = try_flag;
  unlock = λ m. false;
  initializer_free = refl;
  is_taken-lock = λ m. refl;
  trylock_free = try_flag_free;
  trylock_taken = try_flag_taken;
  is_taken-unlock = λ m. refl;
}

-- Thread 1 takes the lock, and thread 2 tries to.
abbrev two_threads : List (ℕ × Call)
two_threads =
    (1, call_lock)
    ∷ (2, call_try_lock)
    ∷ (1, call_lock)
    ∷ (1, call_lock)
    ∷ (2, call_try_lock)
    ∷ (2, call_try_lock)
    ∷ []

abbrev reached : State (PthreadsLock Bool) Pc
reached = run (next flag_mutex) (started (pthreads_lock flag_mutex) outside) two_threads

thread_1_inside : reached.pc 1 ≡ inside
unfolding run step next
thread_1_inside = refl
