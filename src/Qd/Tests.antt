-- ===== src/Qd/Tests.antt =====
-- `qdlock_impl`: two threads, one of which finds the mutex taken and enqueues.
use qd_library.Prelude.{
  some, ◌≢◌, ℕ, ◌+◌, ◌≡◌, ◌<◌, refl, Bool, true, false, none, List, [], ◌∷◌, ◌++◌, arith,
}
use qd_library.Interleave.{State, started, step, run}
use qd_library.Interleave.Total.{OfThreads, OfThreads-append, total}
use qd_library.Delegate.{may_starve}
use qd_library.Queue.DualBuffer
use qd_library.Queue.DualBuffer.{f_spin, use_fetch_and_add, DualBufferQueue}
use qd_library.Queue.DualBuffer.Slots.{calls, target}
use qd_library.Queue.DualBuffer.Order.{fresh_queue}
use qd_library.Queue.DualBuffer.Tests.{address_of, size_of, two_wrappers, fits}
use qd_library.Qd.View.{as_enqueuer}
use qd_library.Qd.Progress.{qd_not_stuck}
use qd_library.Qd.{h_flush, QdLock, Call, call_delegate, call_lock, refused, Pc, next}
use qd_library.Qd.Simulation.{system, queue_of, qd_refines_queue}
use qd_library.Qd.Owned.{holds}
use qd_library.Qd.Account.{count}
use qd_library.Qd.Balance.{in_flight}
use qd_library.Qd.Linear.{Grows, delegated, order}
use qd_library.Qd.Linear.Order.{qd_linearized, qd_order_kept}
use qd_library.Qd.Once.{bag, qd_exclusive, qd_accounted, qd_exactly_once}

abbrev reached : List (ℕ × Call Bool) → State QdLock (Pc Bool)
reached = system two_wrappers 3 16 use_fetch_and_add may_starve

-- Thread 0 finds the mutex taken and the queue closed; then it gets the mutex, opens the queue and
-- runs its operation. Thread 1 finds the mutex taken, and reserves a slot.
abbrev reserving : List (ℕ × Call Bool)
reserving =
    (0, call_delegate false 7)
    ∷ (0, refused)
    ∷ (0, call_lock)
    ∷ (0, call_lock)
    ∷ (0, call_lock)
    ∷ (1, call_delegate true 8)
    ∷ (1, call_lock)
    ∷ (1, call_lock)
    ∷ (1, call_lock)
    ∷ (0, call_lock)
    ∷ []

-- Thread 1 fills the slot and returns; thread 0 flushes, and unlocks.
abbrev flushing : List (ℕ × Call Bool)
flushing =
    (1, call_lock)
    ∷ (1, call_lock)
    ∷ (0, call_lock)
    ∷ (0, call_lock)
    ∷ (0, call_lock)
    ∷ (0, call_lock)
    ∷ (0, call_lock)
    ∷ (0, call_lock)
    ∷ (0, call_lock)
    ∷ (0, call_lock)
    ∷ []

abbrev all_turns : List (ℕ × Call Bool)
all_turns = reserving ++ flushing

zero_runs : 0 < 2
zero_runs = omega arith

one_runs : 1 < 2
one_runs = omega arith

reserving-OfThreads : OfThreads 2 reserving
reserving-OfThreads = (
  zero_runs,
  (
    zero_runs,
    (
      zero_runs,
      (zero_runs, (zero_runs, (one_runs, (one_runs, (one_runs, (one_runs, (zero_runs, tt))))))),
    ),
  ),
)

flushing-OfThreads : OfThreads 2 flushing
flushing-OfThreads = (
  one_runs,
  (
    one_runs,
    (
      zero_runs,
      (zero_runs, (zero_runs, (zero_runs, (zero_runs, (zero_runs, (zero_runs, (zero_runs, tt))))))),
    ),
  ),
)

all_turns-OfThreads : OfThreads 2 all_turns
all_turns-OfThreads = OfThreads-append 2 reserving flushing reserving-OfThreads flushing-OfThreads

all_unlocked : (reached all_turns).mem.owner ≡ none
unfolding run step next DualBuffer.next address_of size_of
all_unlocked = refl

all_executed : (reached all_turns).mem.executed ≡ (32, 7) ∷ (64, 8) ∷ []
unfolding run step next DualBuffer.next address_of size_of
all_executed = refl

first_holds : holds ((reached reserving).pc 0) ≡ true
unfolding run step next DualBuffer.next address_of size_of
first_holds = refl

qd_exclusive_example : ◌≡◌ {A = ℕ} 0 0
qd_exclusive_example =
    qd_exclusive two_wrappers 3 16 use_fetch_and_add may_starve reserving 0 0 first_holds
      first_holds

qd_refines_queue_example :
    (fs : List (ℕ × DualBuffer.Call Bool)) × ((threads : ℕ)
      → OfThreads threads all_turns
      → OfThreads (threads + 1) fs)
    × (queue_of two_wrappers 3 16 use_fetch_and_add may_starve (reached all_turns)
        ≡ run
            (DualBuffer.next two_wrappers 3 16 use_fetch_and_add)
            (started (fresh_queue 3) DualBuffer.outside)
            fs)
qd_refines_queue_example = qd_refines_queue two_wrappers 3 16 use_fetch_and_add may_starve all_turns

qd_accounted_example :
    count (64, 8) (reached reserving).mem.executed
      + count (64, 8) (calls 16 (reached reserving).mem.queue.pending)
    ≡ count (64, 8) (reached reserving).mem.returned
      + total
          (in_flight two_wrappers 3 16 use_fetch_and_add may_starve (64, 8))
          2
          (reached reserving).pc
qd_accounted_example =
    qd_accounted two_wrappers 3 16 use_fetch_and_add may_starve 2 fits reserving (64, 8)
      reserving-OfThreads

qd_exactly_once_example :
    bag (reached all_turns).mem.executed ≡ bag (reached all_turns).mem.returned
qd_exactly_once_example =
    qd_exactly_once two_wrappers 3 16 use_fetch_and_add may_starve 2 fits all_turns
      all_turns-OfThreads all_unlocked

qd_linearized_example :
    Grows
      (delegated two_wrappers 3 16 use_fetch_and_add may_starve ((reached reserving).pc 1))
      (order two_wrappers 3 16 use_fetch_and_add may_starve (reached reserving))
      (order two_wrappers 3 16 use_fetch_and_add may_starve (
        step
          (next two_wrappers 3 16 use_fetch_and_add may_starve)
          (reached reserving)
          (1, call_lock)))
qd_linearized_example =
    qd_linearized two_wrappers 3 16 use_fetch_and_add may_starve 2 fits reserving 1 call_lock
      reserving-OfThreads one_runs

qd_order_kept_example :
    (rest : List (ℕ × ℕ)) × (order two_wrappers 3 16 use_fetch_and_add may_starve
        (reached (reserving ++ flushing))
      ≡ order two_wrappers 3 16 use_fetch_and_add may_starve (reached reserving) ++ rest)
qd_order_kept_example =
    qd_order_kept two_wrappers 3 16 use_fetch_and_add may_starve 2 fits reserving flushing
      reserving-OfThreads flushing-OfThreads

-- Thread 0 begins to flush before thread 1 has filled its slot.
abbrev waiting : List (ℕ × Call Bool)
waiting = reserving ++ (0, call_lock) ∷ (0, call_lock) ∷ []

waiting-OfThreads : OfThreads 2 waiting
waiting-OfThreads =
    OfThreads-append 2 reserving ((0, call_lock) ∷ (0, call_lock) ∷ []) reserving-OfThreads
      (zero_runs, (zero_runs, tt))

spins : (reached waiting).pc 0 ≡ h_flush false 7 (f_spin 0 2 true)
unfolding run step next DualBuffer.next address_of size_of
spins = refl

not_there : (reached waiting).mem.queue.cells.fun 0 ≡ 0
unfolding run step next DualBuffer.next address_of size_of
not_there = refl

qd_not_stuck_example :
    (j : ℕ) × (j ≢ 0)
    × (target two_wrappers 3 16 use_fetch_and_add (as_enqueuer ((reached waiting).pc j)) ≡ some 0)
qd_not_stuck_example =
    qd_not_stuck two_wrappers 3 16 use_fetch_and_add may_starve 2 fits waiting 0 false 7 0 2 true
      waiting-OfThreads spins not_there
