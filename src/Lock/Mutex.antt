-- ===== src/Lock/Mutex.antt =====
-- locks/mutex_lock.hpp: a std::mutex beside a flag that says whether it is locked.
mod Tests
use qd_library.Prelude.{ℕ, ◌≡◌, refl, ap, Bool, true, false, List, arith, if◌then◌else◌}
use qd_library.Interleave.{started, run}
use qd_library.Lock.{IsLock, Change, run-exclusive}
use qd_library.Lock.Flag.{Marks, FlagLaws, run-IsExact}

-- `std::mutex`, which is not part of the library: whether it is locked, and its transitions.
pub record StdMutex : Type 1 where
  pub Mutex : Type 0
  pub unlocked : Mutex
  pub is_taken : Mutex → Bool
  pub take : Mutex → Mutex
  pub give : Mutex → Mutex
  pub unlocked_free : is_taken unlocked ≡ false
  pub is_taken-take : (m : Mutex) → is_taken (take m) ≡ true
  pub is_taken-give : (m : Mutex) → is_taken (give m) ≡ false

pub record MutexLock (Mutex : Type 0) : Type 0 where
  pub locked : Bool
  pub mutex : Mutex

-- What a thread calls; `fails` is std::mutex's right to fail a `try_lock` for no reason.
pub data Call : Type 0 where
  call_lock call_try_lock call_unlock fails : Call

pub data Pc : Type 0 where
  outside : Pc
  try_load try_mutex : Pc  -- in `try_lock`: before `is_locked`, and before `mutex.try_lock`
  lock_mutex : Pc  -- in `lock`: before the mutex is taken
  marking : Pc  -- the mutex is taken, the flag is not yet set
  inside : Pc
  unmarked : Pc  -- in `unlock`: the flag is cleared, the mutex still taken

module _ (std : StdMutex) where
  open std use {Mutex, unlocked, is_taken, take, give}

  abbrev pub mutex_lock : MutexLock Mutex
  mutex_lock = record { locked = false; mutex = unlocked }

  pub next : ℕ → Call → MutexLock Mutex → Pc → MutexLock Mutex × Pc
  next i call_try_lock l outside = (l, try_load)
  next i call_lock l outside = (l, lock_mutex)
  next i c l outside = (l, outside)
  next i c l try_load = (l, if l.locked then outside else try_mutex)
  next i fails l try_mutex = (l, outside)
  next i c l try_mutex =
      if is_taken l.mutex then (l, outside) else (record l { mutex = take l.mutex }, marking)
  next i c l lock_mutex =
      if is_taken l.mutex then (l, lock_mutex) else (record l { mutex = take l.mutex }, marking)
  next i c l marking = (record l { locked = true }, inside)
  next i call_unlock l inside = (record l { locked = false }, unmarked)
  next i c l inside = (l, inside)
  next i c l unmarked = (record l { mutex = give l.mutex }, outside)

  abbrev pub held : MutexLock Mutex → Bool
  held l = is_taken l.mutex

abbrev pub holds : Pc → Bool
holds marking = true
holds inside = true
holds unmarked = true
holds _ = false

abbrev pub is_inside : Pc → Bool
is_inside inside = true
is_inside _ = false

inside_holds : (p : Pc) → is_inside p ≡ true → holds p ≡ true
inside_holds inside h = refl
inside_holds p h = ground arith

module _ (std : StdMutex) where
  change :
      (i : ℕ) (c : Call) (l : MutexLock std.Mutex) (p : Pc)
      → Change (held std l) (holds p) (held std (next std i c l p).0) (holds (next std i c l p).1)
  unfolding next
  change i call_lock l outside = ground arith
  change i fails l try_mutex = ground arith
  change i c l try_mutex = ground (arith, std.is_taken-take l.mutex)
  change i c l lock_mutex = ground (arith, std.is_taken-take l.mutex)
  change i c l unmarked = ground (arith, std.is_taken-give l.mutex)
  change i call_unlock l inside = ground arith
  change i c l p = ground arith

  mutex-IsLock : IsLock (next std) (held std) holds
  mutex-IsLock = record { change = change }

  marks :
      (i : ℕ) (c : Call) (l : MutexLock std.Mutex) (p : Pc)
      → (is_inside p ≡ true → l.locked ≡ true)
      → Marks l.locked (is_inside p) (next std i c l p).0.locked (is_inside (next std i c l p).1)
  unfolding next
  marks i call_lock l outside h = ground arith
  marks i c l try_load h = ground arith
  marks i fails l try_mutex h = ground arith
  marks i call_unlock l inside h = ground arith
  marks i c l p h = ground arith

  mutex-FlagLaws : FlagLaws (next std) (held std) holds (λ l. l.locked) is_inside
  mutex-FlagLaws = record { lock = mutex-IsLock; inside_holds = inside_holds; marks = marks }

  -- Whatever the schedule, for a `std::mutex` with the documented behaviour, at most one thread is between the return of a successful `lock` or
  -- `try_lock` and its `unlock`.
  mutex-exclusive :
      (es : List (ℕ × Call)) (i j : ℕ)
      → (run (next std) (started (mutex_lock std) outside) es).pc i ≡ inside
      → (run (next std) (started (mutex_lock std) outside) es).pc j ≡ inside
      → i ≡ j
  mutex-exclusive es i j a b =
      run-exclusive (next std) (held std) holds mutex-IsLock (mutex_lock std) outside es
        std.unlocked_free refl i j (ap holds a) (ap holds b)

  -- `is_locked` is exact for the callers of the lock: the flag is set if a thread has returned
  -- from a successful `lock` or `try_lock` and not yet called `unlock`, and only then.
  pub is_locked_exact :
      (es : List (ℕ × Call))
      → let s = run (next std) (started (mutex_lock std) outside) es in
        ((i : ℕ) → is_inside (s.pc i) ≡ true → s.mem.locked ≡ true)
        × (s.mem.locked ≡ true → (i : ℕ) × (is_inside (s.pc i) ≡ true))
  is_locked_exact es =
      run-IsExact (next std) (held std) holds (λ l. l.locked) is_inside mutex-FlagLaws
        (mutex_lock std) outside es std.unlocked_free refl refl refl
