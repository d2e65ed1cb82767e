-- ===== src/Lock/Pthreads.antt =====
-- locks/pthreads_lock.hpp: a pthread mutex beside a flag that says whether it is locked.
mod Tests
use qd_library.Prelude.{
  ℕ, ◌≡◌, ◌≢◌, refl, ap, Bool, true, false, ◌⊎◌, inl, inr, List, none, arith, ◌==◌, if◌then◌else◌,
}
use qd_library.Interleave.{State, started, step, run, run-keeps}
use qd_library.Lock.{IsLock, Change, run-exclusive}
use qd_library.Lock.Flag.{Marks, FlagLaws, run-IsExact}

-- `pthread_mutex_t`, which is not part of the library: whether it is locked, and its transitions.
-- `trylock` returns 0 if it has taken a free mutex, and another number if it was taken.
pub record PthreadMutex : Type 1 where
  pub Mutex : Type 0
  pub initializer : Mutex
  pub is_taken : Mutex → Bool
  pub lock : Mutex → Mutex
  pub trylock : Mutex → Mutex × ℕ
  pub unlock : Mutex → Mutex
  pub initializer_free : is_taken initializer ≡ false
  pub is_taken-lock : (m : Mutex) → is_taken (lock m) ≡ true
  pub trylock_free :
      (m : Mutex) → is_taken m ≡ false → (is_taken (trylock m).0 ≡ true) × ((trylock m).1 ≡ 0)
  pub trylock_taken :
      (m : Mutex) → is_taken m ≡ true → (is_taken (trylock m).0 ≡ true) × ((trylock m).1 ≢ 0)
  pub is_taken-unlock : (m : Mutex) → is_taken (unlock m) ≡ false

pub record PthreadsLock (Mutex : Type 0) : Type 0 where
  pub locked : Bool
  pub mutex : Mutex

-- What a thread calls.
pub data Call : Type 0 where
  call_lock call_try_lock call_unlock : Call

pub data Pc : Type 0 where
  outside : Pc
  try_load try_mutex : Pc  -- in `try_lock`: before `is_locked`, and before the trylock
  lock_mutex : Pc  -- in `lock`: before the mutex is taken
  marking : Pc  -- the mutex is taken, the flag is not yet set
  inside : Pc
  unmarked : Pc  -- in `unlock`: the flag is cleared, the mutex still taken

module _ (pthread : PthreadMutex) where
  open pthread use {Mutex, initializer, is_taken, lock, trylock, unlock}

  abbrev pub pthreads_lock : PthreadsLock Mutex
  pthreads_lock = record { locked = false; mutex = initializer }

  pub next : ℕ → Call → PthreadsLock Mutex → Pc → PthreadsLock Mutex × Pc
  next i call_try_lock l outside = (l, try_load)
  next i call_lock l outside = (l, lock_mutex)
  next i c l outside = (l, outside)
  next i c l try_load = (l, if l.locked then outside else try_mutex)
  next i c l try_mutex =
      let (m, rc) = trylock l.mutex in
      (record l { mutex = m }, if rc == 0 then marking else outside)
  next i c l lock_mutex =
      if is_taken l.mutex then (l, lock_mutex) else (record l { mutex = lock l.mutex }, marking)
  next i c l marking = (record l { locked = true }, inside)
  next i call_unlock l inside = (record l { locked = false }, unmarked)
  next i c l inside = (l, inside)
  next i c l unmarked = (record l { mutex = unlock l.mutex }, outside)

  abbrev pub held : PthreadsLock Mutex → Bool
  held l = is_taken l.mutex

abbrev pub holds : Pc → Bool
holds marking = true
holds inside = true
holds unmarked = true
holds _ = false

abbrev pub is_inside : Pc → Bool
is_inside inside = true
is_inside _ = false

inside_holds : (p : Pc) → is_inside p ≡ true → holds p ≡ true
inside_holds inside h = refl
inside_holds p h = ground arith

module _ (pthread : PthreadMutex) where
  change :
      (i : ℕ) (c : Call) (l : PthreadsLock pthread.Mutex) (p : Pc)
      → Change
          (held pthread l)
          (holds p)
          (held pthread (next pthread i c l p).0)
          (holds (next pthread i c l p).1)
  unfolding next
  change i call_lock l outside = ground arith
  change i c l try_mutex =
      ground (arith, pthread.trylock_free l.mutex, pthread.trylock_taken l.mutex)
  change i c l lock_mutex = ground (arith, pthread.is_taken-lock l.mutex)
  change i c l unmarked = ground (arith, pthread.is_taken-unlock l.mutex)
  change i call_unlock l inside = ground arith
  change i c l p = ground arith

  pthreads-IsLock : IsLock (next pthread) (held pthread) holds
  pthreads-IsLock = record { change = change }

  marks :
      (i : ℕ) (c : Call) (l : PthreadsLock pthread.Mutex) (p : Pc)
      → (is_inside p ≡ true → l.locked ≡ true)
      → Marks l.locked
          (is_inside p)
          (next pthread i c l p).0.locked
          (is_inside (next pthread i c l p).1)
  unfolding next
  marks i call_lock l outside h = ground arith
  marks i c l try_load h = ground arith
  marks i call_unlock l inside h = ground arith
  marks i c l p h = ground arith

  pthreads-FlagLaws : FlagLaws (next pthread) (held pthread) holds (λ l. l.locked) is_inside
  pthreads-FlagLaws = record { lock = pthreads-IsLock; inside_holds = inside_holds; marks = marks }

  -- Whatever the schedule, for a pthread mutex with the documented behaviour, at most one thread is between the return of a successful `lock` or
  -- `try_lock` and its `unlock`.
  pthreads-exclusive :
      (es : List (ℕ × Call)) (i j : ℕ)
      → (run (next pthread) (started (pthreads_lock pthread) outside) es).pc i ≡ inside
      → (run (next pthread) (started (pthreads_lock pthread) outside) es).pc j ≡ inside
      → i ≡ j
  pthreads-exclusive es i j a b =
      run-exclusive (next pthread) (held pthread) holds pthreads-IsLock (pthreads_lock pthread)
        outside es pthread.initializer_free refl i j (ap holds a) (ap holds b)

  -- `is_locked` is exact for the callers of the lock: the flag is set if a thread has returned
  -- from a successful `lock` or `try_lock` and not yet called `unlock`, and only then.
  pthreads_is_locked_exact :
      (es : List (ℕ × Call))
      → let s = run (next pthread) (started (pthreads_lock pthread) outside) es in
        ((i : ℕ) → is_inside (s.pc i) ≡ true → s.mem.locked ≡ true)
        × (s.mem.locked ≡ true → (i : ℕ) × (is_inside (s.pc i) ≡ true))
  pthreads_is_locked_exact es =
      run-IsExact (next pthread) (held pthread) holds (λ l. l.locked) is_inside pthreads-FlagLaws
        (pthreads_lock pthread) outside es pthread.initializer_free refl refl refl
