-- ===== src/Lock/Tatas.antt =====
-- locks/tatas_lock.hpp: the test-and-test-and-set lock, an atomic access at a time.
mod Tests
use qd_library.Prelude.{ℕ, ◌≡◌, refl, ap, Bool, true, false, List, arith, if◌then◌else◌}
use qd_library.Interleave.{started, run}
use qd_library.Lock.{IsLock, Change, run-exclusive}

pub record TatasLock : Type 0 where
  pub locked : Bool

abbrev pub tatas_lock : TatasLock
tatas_lock = record { locked = false }

-- What a thread calls.
pub data Call : Type 0 where
  call_try_lock call_lock call_unlock : Call

-- Where a thread stands; the flag says whether the `try_lock` is a round of the loop of `lock`.
pub data Pc : Type 0 where
  outside : Pc
  testing : Bool → Pc  -- before the load of `is_locked`
  swapping : Bool → Pc  -- before the exchange
  inside : Pc  -- the lock has been taken

-- `try_lock` returns false: to the caller, or to the loop of `lock`, which pauses and tries again.
abbrev pub refused : Bool → Pc
refused looping = if looping then testing true else outside

pub next : ℕ → Call → TatasLock → Pc → TatasLock × Pc
next i call_try_lock l outside = (l, testing false)
next i call_lock l outside = (l, testing true)
next i call_unlock l outside = (l, outside)
next i c l (testing looping) = (l, if l.locked then refused looping else swapping looping)
next i c l (swapping looping) =
    (record { locked = true }, if l.locked then refused looping else inside)
next i call_unlock l inside = (record { locked = false }, outside)
next i c l inside = (l, inside)

abbrev pub holds : Pc → Bool
holds inside = true
holds _ = false

change :
    (i : ℕ) (c : Call) (l : TatasLock) (p : Pc)
    → Change l.locked (holds p) (next i c l p).0.locked (holds (next i c l p).1)
unfolding next
change i call_try_lock l outside = ground arith
change i c l (testing looping) = ground arith
change i c l (swapping looping) = ground arith
change i c l p = ground arith

tatas-IsLock : IsLock next (λ l. l.locked) holds
tatas-IsLock = record { change = change }

-- Whatever the schedule of the threads, at most one of them is between the return of a successful
-- `lock` or `try_lock` and its `unlock`.
pub tatas-exclusive :
    (es : List (ℕ × Call)) (i j : ℕ)
    → (run next (started tatas_lock outside) es).pc i ≡ inside
    → (run next (started tatas_lock outside) es).pc j ≡ inside
    → i ≡ j
tatas-exclusive es i j a b =
    run-exclusive next (λ l. l.locked) holds tatas-IsLock tatas_lock outside es refl refl i j
      (ap holds a) (ap holds b)
