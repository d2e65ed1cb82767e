-- ===== src/Qd.antt =====
-- `qdlock_impl` of qdlock.hpp as one system: any number of threads that call `delegate`, `lock` and
-- `unlock`, the mutex, and the queue of queues/dual_buffer_queue.hpp with all its accesses. The mutex
-- is the abstract lock of Lock; `no_reader_sync` and `no_hierarchy_sync` do nothing.
pub mod Owned
pub mod View
pub mod Seen
pub mod Simulation
pub mod Account
pub mod Once
pub mod Linear
pub mod Progress
mod Tests
pub mod Balance
use qd_library.Prelude.{
  ℕ, suc, ◌+◌, ◌%◌, ◌^◌, Bool, true, false, Option, none, some, List, [], ◌∷◌, ◌++◌, ◌==◌,
  if◌then◌else◌,
}
use qd_library.Lock.{Owner}
use qd_library.Delegate.{StarvationPolicy, goes_on}
use qd_library.Queue.DualBuffer
use qd_library.Queue.DualBuffer.{Wrappers, AtomicInstructionPolicy, DualBufferQueue}
use qd_library.Queue.DualBuffer.Order.{fresh_queue}

-- `mutex_lock` and `delegation_queue`. History: the operations that have been run, by a thread
-- itself or out of the queue, and those whose `delegate` has returned.
pub record QdLock : Type 0 where
  pub owner : Owner
  pub queue : DualBufferQueue
  pub executed : List (ℕ × ℕ)
  pub returned : List (ℕ × ℕ)

abbrev pub qd_lock : ℕ → QdLock
qd_lock entries = record { owner = none; queue = fresh_queue entries; executed = []; returned = [] }

-- What a thread calls, and the choice that the mutex makes: `refused` lets an attempt to lock fail,
-- or wait, at any time.
pub data Call (Op : Type 0) : Type 0 where
  call_delegate : Op → ℕ → Call Op
  call_lock call_unlock refused : Call Op

pub data Pc (Op : Type 0) : Type 0 where
  outside : Pc Op
  -- in `delegate`: before the first `try_lock`; in `enqueue`, with `retries`; before the attempt to
  -- lock in the same round; before the `lock` behind the loop
  d_first : Op → ℕ → Pc Op
  d_enqueue : Op → ℕ → ℕ → DualBuffer.Pc Op → Pc Op
  d_try : Op → ℕ → ℕ → Pc Op
  d_last : Op → ℕ → Pc Op
  -- in `executor`: before `execute`; and before the unlock
  x_run x_unlock : Op → ℕ → Pc Op
  -- in `helper`: before `open`, before `execute`, in `flush`; and before the unlock
  h_open h_run : Op → ℕ → Pc Op
  h_flush : Op → ℕ → DualBuffer.Pc Op → Pc Op
  h_unlock : Op → ℕ → Pc Op
  -- in `lock`, and between it and `unlock`
  l_lock held : Pc Op

abbrev pub is_free : Owner → Bool
is_free none = true
is_free (some i) = false

abbrev pub is_outside : {Op : Type 0} → DualBuffer.Pc Op → Bool
is_outside DualBuffer.outside = true
is_outside p = false

-- `enqueue` returns `SUCCESS` behind the store of the function.
abbrev pub succeeds : {Op : Type 0} → DualBuffer.Pc Op → Bool
succeeds (DualBuffer.e_publish index op par) = true
succeeds p = false

abbrev pub locks : {Op : Type 0} → Call Op → QdLock → Bool
locks refused m = false
locks c m = is_free m.owner

-- An attempt to lock.
abbrev pub acquire : {Op : Type 0} → ℕ → Call Op → QdLock → Pc Op → Pc Op → QdLock × Pc Op
acquire i c m got otherwise =
    if locks c m then (record m { owner = some i }, got) else (m, otherwise)

abbrev pub release : QdLock → QdLock
release m = record m { owner = none }

module _ (w : Wrappers) (entries entry_size : ℕ) (policy : AtomicInstructionPolicy)
    (starvation : StarvationPolicy) where
  open w use {Op, address, no_op}

  abbrev pub operation : Op → ℕ → ℕ × ℕ
  operation op par = (address op, par)

  abbrev pub runs : Op → ℕ → QdLock → QdLock
  runs op par m = record m { executed = m.executed ++ operation op par ∷ [] }

  abbrev pub returns : Op → ℕ → QdLock → QdLock
  returns op par m = record m { returned = m.returned ++ operation op par ∷ [] }

  -- The loop of `delegate`, with the value of `retries`.
  abbrev pub round : Op → ℕ → ℕ → Pc Op
  round op par retries =
      if goes_on starvation retries
      then d_enqueue op par retries (DualBuffer.e_load op par)
      else d_last op par

  -- The operation that a step of `flush` calls.
  abbrev pub called : DualBufferQueue → DualBuffer.Pc Op → List (ℕ × ℕ)
  called q (DualBuffer.f_call index fun todo more) =
      if fun == no_op then [] else (fun, q.cells.params index) ∷ []
  called q p = []

  -- An access of the queue by `enqueue` of thread `i`, and one by the helper.
  abbrev pub enqueue_step :
      ℕ → DualBufferQueue → DualBuffer.Pc Op → DualBufferQueue × DualBuffer.Pc Op
  enqueue_step i q p = DualBuffer.next w entries entry_size policy (suc i) DualBuffer.call_flush q p

  abbrev pub flush_step : DualBufferQueue → DualBuffer.Pc Op → DualBufferQueue × DualBuffer.Pc Op
  flush_step q p = DualBuffer.next w entries entry_size policy 0 DualBuffer.call_flush q p

  abbrev pub open_step : DualBufferQueue → DualBufferQueue
  open_step q =
      (DualBuffer.next w entries entry_size policy 0 DualBuffer.call_open q DualBuffer.outside).0

  -- `enqueue` goes on, returns `SUCCESS`, or returns another status.
  abbrev pub enqueued : Op → ℕ → ℕ → DualBuffer.Pc Op → QdLock → DualBuffer.Pc Op → QdLock × Pc Op
  enqueued op par retries p m p' =
      if is_outside p'
      then (if succeeds p then (returns op par m, outside) else (m, d_try op par retries))
      else (m, d_enqueue op par retries p')

  unfoldable pub next : ℕ → Call Op → QdLock → Pc Op → QdLock × Pc Op
  next i (call_delegate op par) m outside = (m, d_first op par)
  next i call_lock m outside = (m, l_lock)
  next i c m outside = (m, outside)
  next i c m (d_first op par) = acquire i c m (x_run op par) (round op par 1)
  next i c m (d_enqueue op par retries p) =
      let (q, p') = enqueue_step i m.queue p in
      enqueued op par retries p (record m { queue = q }) p'
  next i c m (d_try op par retries) =
      acquire i c m (h_open op par) (round op par ((retries + 1) % 2 ^ 32))
  next i c m (d_last op par) = acquire i c m (x_run op par) (d_last op par)
  next i c m (x_run op par) = (runs op par m, x_unlock op par)
  next i c m (x_unlock op par) = (returns op par (release m), outside)
  next i c m (h_open op par) = (record m { queue = open_step m.queue }, h_run op par)
  next i c m (h_run op par) = (runs op par m, h_flush op par DualBuffer.opened)
  next i c m (h_flush op par p) =
      let (q, p') = flush_step m.queue p in
      (
        record m { queue = q; executed = m.executed ++ called m.queue p },
        if is_outside p' then h_unlock op par else h_flush op par p',
      )
  next i c m (h_unlock op par) = (returns op par (release m), outside)
  next i c m l_lock = acquire i c m held l_lock
  next i call_unlock m held = (release m, outside)
  next i c m held = (m, held)
