-- ===== src/Hqd.antt =====
-- hqdlock.hpp: the hierarchical delegation lock, a global lock above one delegation lock for each
-- NUMA node, an access at a time. The two lock classes are one atomic flag each here.
pub mod Levels
pub mod Interface
pub mod Nodes
mod Tests
use qd_library.Prelude.{ℕ, Bool, true, false, Option, none, some, if◌then◌else◌}
use qd_library.Interleave.{update}

-- `pinning_policy_t`
pub data PinningPolicy : Type 0 where
  free_threads pinned_threads : PinningPolicy

-- `global_lock`, the `mutex_lock` of each of `qdlocks`, and for each thread its `node_id`, once it
-- is set.
pub record HqdLock : Type 0 where
  pub global_lock : Bool
  pub mutex_locks : ℕ → Bool
  pub node_ids : ℕ → Option ℕ

abbrev pub hqd_lock : HqdLock
hqd_lock = record { global_lock = false; mutex_locks = λ n. false; node_ids = λ i. none }

-- What a thread calls; `queued` ends a `delegate` whose operation the queue has taken.
pub data Call : Type 0 where
  call_lock call_unlock call_delegate queued : Call

-- The numbers of nodes: the first is the node whose mutex the thread has taken or is about to
-- take. In `unlock` it is history, and the second is the node that `get_qd` returns there.
pub data Pc : Type 0 where
  outside : Pc
  -- in `lock`: before `get_qd`, before the node's mutex, before the global lock
  l_get : Pc
  l_mutex l_global : ℕ → Pc
  held : ℕ → Pc
  -- in `unlock`, behind the unlock of the global lock: before `get_qd`, and before the unlock of
  -- the mutex
  u_get : ℕ → Pc
  u_mutex : ℕ → ℕ → Pc
  -- in `delegate`: before `get_qd`, before the node's mutex, before the global lock, behind it in
  -- `helper` or `executor`, and before the unlock of the mutex
  d_get : Pc
  d_mutex d_global : ℕ → Pc
  running : ℕ → Pc
  d_unlock : ℕ → Pc

-- `mutex_lock` of a node, taken by `lock` or by `try_lock`
abbrev pub take_mutex : ℕ → HqdLock → Pc → Pc → HqdLock × Pc
take_mutex n m then_at again =
    if m.mutex_locks n
    then (m, again)
    else (record m { mutex_locks = update m.mutex_locks n true }, then_at)

abbrev pub free_mutex : ℕ → HqdLock → HqdLock
free_mutex n m = record m { mutex_locks = update m.mutex_locks n false }

-- `hierarchy_sync::lock`
abbrev pub take_global : HqdLock → Pc → Pc → HqdLock × Pc
take_global m then_at again =
    if m.global_lock then (m, again) else (record m { global_lock = true }, then_at)

-- `hierarchy_sync::unlock`
abbrev pub free_global : HqdLock → HqdLock
free_global m = record m { global_lock = false }

module _ (policy : PinningPolicy) (numa_mapping : ℕ → ℕ) where
  -- `get_qd`, with `node_id` and what `sched_getcpu` returns: the new `node_id`, and the index.
  unfoldable pub get_qd : Option ℕ → ℕ → Option ℕ × ℕ
  get_qd node_id cpu = elim policy [
    | free_threads ↦ (node_id, numa_mapping cpu)
    | pinned_threads ↦ elim node_id [
      | none ↦ (some cpu, numa_mapping cpu)
      | some first ↦ (some first, numa_mapping first)
    ]
  ]

  abbrev pub choose : ℕ → ℕ → HqdLock → (ℕ → Pc) → HqdLock × Pc
  choose i cpu m then_at =
      let (node_id, n) = get_qd (m.node_ids i) cpu in
      (record m { node_ids = update m.node_ids i node_id }, then_at n)

  -- The second part of the choice is the processor that the thread runs on.
  pub next : ℕ → Call × ℕ → HqdLock → Pc → HqdLock × Pc
  next i (call_lock, cpu) m outside = (m, l_get)
  next i (call_delegate, cpu) m outside = (m, d_get)
  next i (c, cpu) m outside = (m, outside)
  next i (c, cpu) m l_get = choose i cpu m l_mutex
  next i (c, cpu) m (l_mutex n) = take_mutex n m (l_global n) (l_mutex n)
  next i (c, cpu) m (l_global n) = take_global m (held n) (l_global n)
  next i (call_unlock, cpu) m (held n) = (free_global m, u_get n)
  next i (c, cpu) m (held n) = (m, held n)
  next i (c, cpu) m (u_get n) = choose i cpu m (u_mutex n)
  next i (c, cpu) m (u_mutex n k) = (free_mutex k m, outside)
  next i (c, cpu) m d_get = choose i cpu m d_mutex
  next i (queued, cpu) m (d_mutex n) = (m, outside)
  next i (c, cpu) m (d_mutex n) = take_mutex n m (d_global n) (d_mutex n)
  next i (c, cpu) m (d_global n) = take_global m (running n) (d_global n)
  next i (c, cpu) m (running n) = (free_global m, d_unlock n)
  next i (c, cpu) m (d_unlock n) = (free_mutex n m, outside)
