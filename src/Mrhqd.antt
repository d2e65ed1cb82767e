-- ===== src/Mrhqd.antt =====
-- The second part of hqdlock.hpp, `mrhqdlock_impl`: the hierarchical delegation lock with readers,
-- an access at a time. The writers pass the two levels of locks of Hqd; the readers look at the
-- global lock.
pub mod Simulation
pub mod Interface
mod Tests
use qd_library.Prelude.{ℕ, ◌+◌, ◌%◌, ◌^◌, Bool, true, false, ◌&&◌, not, ◌==◌, if◌then◌else◌}
use qd_library.Interleave.{update}
use qd_library.Mrqd.{increment, decrement, positive}
use qd_library.Hqd.{PinningPolicy, HqdLock, hqd_lock, get_qd, free_mutex, free_global}

-- `writeBarrier`, the counters of `reader_indicator`, and the two levels of locks.
pub record MrhqdLock : Type 0 where
  pub write_barrier : ℕ
  pub counters : ℕ → ℕ
  pub levels : HqdLock

abbrev pub mrhqd_lock : MrhqdLock
mrhqd_lock = record { write_barrier = 0; counters = λ g. 0; levels = hqd_lock }

-- What a thread calls; `queued` ends a `delegate` whose operation the queue has taken.
pub data Call : Type 0 where
  call_lock call_unlock call_delegate queued call_rlock call_runlock : Call

-- The numbers of nodes are as in Hqd; behind them stands the counter that `query` loads next.
pub data Pc : Type 0 where
  outside : Pc
  -- in `lock`: before the load of `writeBarrier`, before `get_qd`, before the node's mutex, before
  -- the global lock, and in the loop of `query`
  l_barrier l_get : Pc
  l_mutex l_global : ℕ → Pc
  l_query : ℕ → ℕ → Pc
  held : ℕ → Pc
  -- in `unlock`, as in Hqd
  u_get : ℕ → Pc
  u_mutex : ℕ → ℕ → Pc
  -- in `delegate`: before `get_qd`, in `wait_writers`, before the node's mutex, before the global
  -- lock, in `wait_readers`, behind it, and before the unlock of the mutex
  d_get : Pc
  d_barrier d_mutex d_global : ℕ → Pc
  d_query : ℕ → ℕ → Pc
  running d_unlock : ℕ → Pc
  -- in `rlock`, with `readPatience` and `bRaised`: before `arrive`, before `is_locked` (with the
  -- reader's group), before `depart`, before `is_locked` in the loop, before raising the barrier,
  -- and before lowering it
  r_arrive : ℕ → Bool → Pc
  r_test r_depart : ℕ → ℕ → Bool → Pc
  r_wait : ℕ → Bool → Pc
  r_raise r_lower reading : ℕ → Pc

-- `GROUPS` and `READ_PATIENCE_LIMIT`
module _ (groups limit : ℕ) (policy : PinningPolicy) (numa_mapping : ℕ → ℕ) where
  abbrev choose : ℕ → ℕ → MrhqdLock → (ℕ → Pc) → MrhqdLock × Pc
  choose i cpu m then_at =
      let (node_id, n) = get_qd policy numa_mapping (m.levels.node_ids i) cpu in
      (
        record m { levels = record (m.levels) { node_ids = update m.levels.node_ids i node_id } },
        then_at n,
      )

  abbrev take_mutex : ℕ → MrhqdLock → Pc → Pc → MrhqdLock × Pc
  take_mutex n m then_at again = if m.levels.mutex_locks n then (m, again) else (
    record m { levels = record (m.levels) { mutex_locks = update m.levels.mutex_locks n true } },
    then_at,
  )

  abbrev take_global : MrhqdLock → Pc → Pc → MrhqdLock × Pc
  take_global m then_at again =
      if m.levels.global_lock
      then (m, again)
      else (record m { levels = record (m.levels) { global_lock = true } }, then_at)

  -- A step of `while(reader_indicator.query())`.
  abbrev query : MrhqdLock → (ℕ → Pc) → Pc → ℕ → Pc
  query m at done g =
      if positive (m.counters g) then at 0 else if g + 1 == groups then done else at (g + 1)

  abbrev arrive : ℕ → MrhqdLock → MrhqdLock
  arrive g m = record m { counters = update m.counters g (increment (m.counters g)) }

  abbrev depart : ℕ → MrhqdLock → MrhqdLock
  depart g m = record m { counters = update m.counters g (decrement (m.counters g)) }

  -- The second part of the choice is the processor that the thread runs on.
  pub next : ℕ → Call × ℕ → MrhqdLock → Pc → MrhqdLock × Pc
  next i (call_lock, cpu) m outside = (m, l_barrier)
  next i (call_delegate, cpu) m outside = (m, d_get)
  next i (call_rlock, cpu) m outside = (m, r_arrive 0 false)
  next i (c, cpu) m outside = (m, outside)
  next i (c, cpu) m l_barrier = (m, if positive m.write_barrier then l_barrier else l_get)
  next i (c, cpu) m l_get = choose i cpu m l_mutex
  next i (c, cpu) m (l_mutex n) = take_mutex n m (l_global n) (l_mutex n)
  next i (c, cpu) m (l_global n) = take_global m (l_query n 0) (l_global n)
  next i (c, cpu) m (l_query n g) = (m, query m (l_query n) (held n) g)
  next i (call_unlock, cpu) m (held n) = (record m { levels = free_global m.levels }, u_get n)
  next i (c, cpu) m (held n) = (m, held n)
  next i (c, cpu) m (u_get n) = choose i cpu m (u_mutex n)
  next i (c, cpu) m (u_mutex n k) = (record m { levels = free_mutex k m.levels }, outside)
  next i (c, cpu) m d_get = choose i cpu m d_barrier
  next i (c, cpu) m (d_barrier n) = (m, if positive m.write_barrier then d_barrier n else d_mutex n)
  next i (queued, cpu) m (d_mutex n) = (m, outside)
  next i (c, cpu) m (d_mutex n) = take_mutex n m (d_global n) (d_mutex n)
  next i (c, cpu) m (d_global n) = take_global m (d_query n 0) (d_global n)
  next i (c, cpu) m (d_query n g) = (m, query m (d_query n) (running n) g)
  next i (c, cpu) m (running n) = (record m { levels = free_global m.levels }, d_unlock n)
  next i (c, cpu) m (d_unlock n) = (record m { levels = free_mutex n m.levels }, outside)
  next i (c, cpu) m (r_arrive patience raised) =
      (arrive (i % groups) m, r_test (i % groups) patience raised)
  next i (c, cpu) m (r_test g patience raised) = (
    m,
    if m.levels.global_lock
        then r_depart g patience raised
        else if raised
        then r_lower g
        else reading g,
  )
  next i (c, cpu) m (r_depart g patience raised) = (depart g m, r_wait patience raised)
  next i (c, cpu) m (r_wait patience raised) = (
    m,
    if m.levels.global_lock
        then (if patience == limit && not raised
            then r_raise patience
            else r_wait ((patience + 1) % 2 ^ 32) raised)
        else r_arrive patience raised,
  )
  next i (c, cpu) m (r_raise patience) = (
    record m { write_barrier = increment m.write_barrier },
    r_wait ((patience + 1) % 2 ^ 32) true,
  )
  next i (c, cpu) m (r_lower g) =
      (record m { write_barrier = decrement m.write_barrier }, reading g)
  next i (call_runlock, cpu) m (reading g) = (depart g m, outside)
  next i (c, cpu) m (reading g) = (m, reading g)
