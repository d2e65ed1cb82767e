-- ===== src/Lock/Futex.antt =====
-- locks/futex_lock.hpp: the futex lock, an atomic access or a system call at a time.
pub mod Wakeups
mod Tests
use qd_library.Prelude.{
  ℕ, ◌≡◌, refl, ap, Bool, true, false, ◌||◌, List, [], ◌∷◌, none, arith, ◌==◌, if◌then◌else◌,
}
use qd_library.Interleave.{State, started, run}
use qd_library.Lock.{IsLock, Change, Owner, Refines, run-Refines, run-exclusive}
use qd_library.Lock.Kernel.{Kernel}

-- `field_t`
pub data Field : Type 0 where
  free taken contended : Field

abbrev pub is_free : Field → Bool
is_free free = true
is_free _ = false

abbrev pub is_contended : Field → Bool
is_contended contended = true
is_contended _ = false

pub record FutexLock (Queue : Type 0) : Type 0 where
  pub locked : Field
  pub waiters : Queue

-- What a thread calls; `wakes_early` is the kernel's choice to end a wait.
pub data Call : Type 0 where
  call_lock call_try_lock call_try_lock_or_wait call_unlock wakes_early : Call

pub data Pc : Type 0 where
  outside : Pc
  -- in `lock`: before the compare-exchange, an exchange, the wait, and in the wait
  lock_swap lock_exchange lock_wait lock_sleep : Pc
  -- in `try_lock`: before the load of `is_locked`, and the compare-exchange
  try_load try_swap : Pc
  -- in `try_lock_or_wait`: before the load, the compare-exchange, the exchange, the wait, and in it
  low_load low_swap low_exchange low_wait low_sleep : Pc
  inside : Pc
  -- in `unlock`: in the loop of `notify_all`
  notifying : Pc

abbrev pub wake_at_once : ℕ
wake_at_once = 32768

module _ (k : Kernel) where
  open k use {Queue, nobody, asleep, sleep, interrupt, wake}

  abbrev pub futex_lock : FutexLock Queue
  futex_lock = record { locked = free; waiters = nobody }

  -- A failed compare-exchange or an exchange has found `found` in the word, in `lock`.
  abbrev lock_found : Field → Pc
  lock_found free = inside
  lock_found taken = lock_exchange
  lock_found contended = lock_wait

  -- The same in `try_lock_or_wait`, after the compare-exchange.
  abbrev low_found : Field → Pc
  low_found free = inside
  low_found taken = low_exchange
  low_found contended = low_wait

  -- `wait`: FUTEX_WAIT sleeps only if the word is `contended`.
  abbrev wait : ℕ → FutexLock Queue → Pc → Pc → FutexLock Queue × Pc
  wait i l sleeping woken =
      if is_contended l.locked
      then (record l { waiters = sleep l.waiters i }, sleeping)
      else (l, woken)

  -- In the wait: until the kernel lets the thread go.
  abbrev sleeps : ℕ → Call → FutexLock Queue → Pc → Pc → FutexLock Queue × Pc
  sleeps i wakes_early l sleeping woken = (record l { waiters = interrupt l.waiters i }, woken)
  sleeps i c l sleeping woken = (l, if asleep l.waiters i then sleeping else woken)

  pub next : ℕ → Call → FutexLock Queue → Pc → FutexLock Queue × Pc
  next i call_lock l outside = (l, lock_swap)
  next i call_try_lock l outside = (l, try_load)
  next i call_try_lock_or_wait l outside = (l, low_load)
  next i c l outside = (l, outside)
  next i c l lock_swap =
      if is_free l.locked then (record l { locked = taken }, inside) else (l, lock_found l.locked)
  next i c l lock_exchange =
      (record l { locked = contended }, if is_free l.locked then inside else lock_wait)
  next i c l lock_wait = wait i l lock_sleep lock_exchange
  next i c l lock_sleep = sleeps i c l lock_sleep lock_exchange
  next i c l try_load = (l, if is_free l.locked then try_swap else outside)
  next i c l try_swap =
      if is_free l.locked then (record l { locked = taken }, inside) else (l, outside)
  next i c l low_load = (l, if is_free l.locked then low_swap else low_found l.locked)
  next i c l low_swap =
      if is_free l.locked then (record l { locked = taken }, inside) else (l, low_found l.locked)
  next i c l low_exchange =
      (record l { locked = contended }, if is_free l.locked then inside else low_wait)
  next i c l low_wait = wait i l low_sleep outside
  next i c l low_sleep = sleeps i c l low_sleep outside
  next i call_unlock l inside =
      (record l { locked = free }, if is_contended l.locked then notifying else outside)
  next i c l inside = (l, inside)
  next i c l notifying =
      let (q, woken) = wake l.waiters wake_at_once in
      (record l { waiters = q }, if woken == wake_at_once then notifying else outside)

  abbrev pub held : FutexLock Queue → Bool
  held l = if is_free l.locked then false else true

abbrev pub holds : Pc → Bool
holds inside = true
holds _ = false

module _ (k : Kernel) where
  change :
      (i : ℕ) (c : Call) (l : FutexLock k.Queue) (p : Pc)
      → Change (held k l) (holds p) (held k (next k i c l p).0) (holds (next k i c l p).1)
  unfolding next
  change i call_lock l outside = ground arith
  change i c l lock_swap = ground arith
  change i wakes_early l lock_sleep = ground arith
  change i wakes_early l low_sleep = ground arith
  change i call_unlock l inside = ground arith
  change i c l p = ground arith

  futex-IsLock : IsLock (next k) (held k) holds
  futex-IsLock = record { change = change }

  pub futex-Refines :
      (es : List (ℕ × Call))
      → (o : Owner) × Refines
          (next k)
          (held k)
          holds
          (run (next k) (started (futex_lock k) outside) es)
          o
  futex-Refines es =
      run-Refines (next k) (held k) holds futex-IsLock (started (futex_lock k) outside) es
        (none, record { lock_state = refl; owner = λ i. refl })

  -- Whatever the schedule and the kernel's choices, at most one thread is between the return of a
  -- successful `lock`, `try_lock` or `try_lock_or_wait` and the exchange in its `unlock`.
  pub futex-exclusive :
      (es : List (ℕ × Call)) (i j : ℕ)
      → (run (next k) (started (futex_lock k) outside) es).pc i ≡ inside
      → (run (next k) (started (futex_lock k) outside) es).pc j ≡ inside
      → i ≡ j
  futex-exclusive es i j a b =
      run-exclusive (next k) (held k) holds futex-IsLock (futex_lock k) outside es refl refl i j
        (ap holds a) (ap holds b)
