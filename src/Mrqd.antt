-- ===== src/Mrqd.antt =====
-- mrqdlock.hpp with readindicator/reader_groups.hpp: readers and writers of a multi-reader
-- delegation lock, an atomic access at a time. A writer is a caller of `lock`, or one that
-- `delegate` makes the holder of the mutex. The mutex `MLock` is one atomic flag here.
pub mod Inv
pub mod Exclusion
pub mod Interface
mod Tests
use qd_library.Prelude.{
  ℕ, ◌+◌, ◌-◌, ◌%◌, ◌^◌, Bool, true, false, ◌&&◌, not, ltb, ◌==◌, if◌then◌else◌,
}
use qd_library.Interleave.{update}

-- `std::atomic<int>`, modulo 2 ^ 32: `fetch_add(1)`, `fetch_sub(1)` and `> 0`
abbrev pub increment : ℕ → ℕ
increment n = (n + 1) % 2 ^ 32

abbrev pub decrement : ℕ → ℕ
decrement n = (n + 2 ^ 32 - 1) % 2 ^ 32

abbrev pub positive : ℕ → Bool
positive n = ltb 0 n && ltb n (2 ^ 31)

-- `writeBarrier`, the counters of `reader_indicator`, and the mutex.
pub record MrqdLock : Type 0 where
  pub write_barrier : ℕ
  pub counters : ℕ → ℕ
  pub locked : Bool

abbrev pub mrqd_lock : MrqdLock
mrqd_lock = record { write_barrier = 0; counters = λ g. 0; locked = false }

-- What a thread calls; `queued` ends a `delegate` whose operation the queue has taken.
pub data Call : Type 0 where
  call_lock call_unlock call_rlock call_runlock queued : Call

pub data Pc : Type 0 where
  outside : Pc
  -- a writer: before the load of `writeBarrier`, before the mutex, and in `query` before the load
  -- of a counter
  w_barrier w_mutex : Pc
  w_query : ℕ → Pc
  inside : Pc
  -- in `rlock`, with `readPatience` and `bRaised`: before `arrive`, before `is_locked` (with the
  -- reader's group), before `depart`, before `is_locked` in the loop, before raising the barrier,
  -- and before lowering it
  r_arrive : ℕ → Bool → Pc
  r_test r_depart : ℕ → ℕ → Bool → Pc
  r_wait : ℕ → Bool → Pc
  r_raise : ℕ → Pc
  r_lower : ℕ → Pc
  reading : ℕ → Pc

-- `GROUPS` and `READ_PATIENCE_LIMIT`
module _ (groups limit : ℕ) where
  abbrev arrive : ℕ → MrqdLock → MrqdLock
  arrive g m = record m { counters = update m.counters g (increment (m.counters g)) }

  abbrev depart : ℕ → MrqdLock → MrqdLock
  depart g m = record m { counters = update m.counters g (decrement (m.counters g)) }

  unfoldable pub next : ℕ → Call → MrqdLock → Pc → MrqdLock × Pc
  next i call_lock m outside = (m, w_barrier)
  next i call_rlock m outside = (m, r_arrive 0 false)
  next i c m outside = (m, outside)
  next i c m w_barrier = (m, if positive m.write_barrier then w_barrier else w_mutex)
  next i queued m w_mutex = (m, outside)
  next i c m w_mutex = if m.locked then (m, w_mutex) else (record m { locked = true }, w_query 0)
  next i c m (w_query g) = (
    m,
    if positive (m.counters g)
        then w_query 0
        else if g + 1 == groups
        then inside
        else w_query (g + 1),
  )
  next i call_unlock m inside = (record m { locked = false }, outside)
  next i c m inside = (m, inside)
  next i c m (r_arrive patience raised) =
      (arrive (i % groups) m, r_test (i % groups) patience raised)
  next i c m (r_test g patience raised) =
      (m, if m.locked then r_depart g patience raised else if raised then r_lower g else reading g)
  next i c m (r_depart g patience raised) = (depart g m, r_wait patience raised)
  next i c m (r_wait patience raised) = (
    m,
    if m.locked
        then (if patience == limit && not raised
            then r_raise patience
            else r_wait ((patience + 1) % 2 ^ 32) raised)
        else r_arrive patience raised,
  )
  next i c m (r_raise patience) = (
    record m { write_barrier = increment m.write_barrier },
    r_wait ((patience + 1) % 2 ^ 32) true,
  )
  next i c m (r_lower g) = (record m { write_barrier = decrement m.write_barrier }, reading g)
  next i call_runlock m (reading g) = (depart g m, outside)
  next i c m (reading g) = (m, reading g)
