-- ===== src/Lib.antt =====
-- Queue delegation locks: a model of the library, and what is proved of it.
--
-- A thread that wants a critical section run calls `delegate` of a delegation lock. It tries to
-- take a mutual exclusion lock; if it gets it, it opens the queue, runs its own section, then the
-- sections that others have put into the queue meanwhile, and gives the lock up. If it does not
-- get it, it puts its section into the queue of the thread that has it.
--
-- Which file models which part:
--   * ThreadId, with IdSet, Inv and History: `thread_id_store` and `thread_id_t` of threadid.hpp.
--     The calls of the store run under its mutex, so each is one step; a history is a sequence of
--     starts and ends of threads.
--   * Interleave, with Total: threads over one shared memory. A component gives a function `next`:
--     one shared access of one thread, at its program point. A schedule is any list of turns, so
--     the theorems hold for all interleavings. The memory is sequentially consistent: the weaker
--     orderings that the code asks for (`memory_order_relaxed` and others) are not modelled.
--   * Lock: the contract of a mutual exclusion lock (an abstract owner, and the refinement to it),
--     with Lock/Tatas (locks/tatas_lock.hpp), Lock/Futex and Lock/Futex/Wakeups
--     (locks/futex_lock.hpp), Lock/Mutex (locks/mutex_lock.hpp) and Lock/Pthreads
--     (locks/pthreads_lock.hpp). Lock/Flag is the flag that the last two share. The kernel's futex
--     (Lock/Kernel), `std::mutex` and the pthread mutex are parameters with their documented
--     behaviour; the tests of each lock give one that has it.
--   * Lock/Chain, with Inv, Acts and Refine: what the two MCS locks do, as acts of threads on a chain
--     of nodes; the invariant of the chain, and the interface `IsChain` by which a lock is shown to
--     do nothing else. Lock/Nodes is the node of either lock. The threads' turns are a history
--     beside the state: no step reads it.
--   * Lock/Mcs, with Order (locks/mcs_lock.hpp), and Lock/McsFutex, with LockedWord, Acts, Order and
--     Wakeups (locks/mcs_futex_lock.hpp). A thread has one node for each lock, so a node goes by its
--     thread's number; the `is_locked` of a new node is arbitrary. Choices of the schedule: a weak
--     compare-exchange fails, a wait ends early, and two words agree in their low 32 bits, which are
--     all that the kernel compares.
--   * Lock/TicketFutex, with Turn, Steps, Order, Waits and Wakeups: locks/ticket_futex_lock.hpp, with
--     the same history of turns.
--   * Hqd, with Levels: `hqdlock_impl` of hqdlock.hpp, the two levels of locks. Mrhqd, with
--     Simulation: `mrhqdlock_impl`, which is shown to do what Mrqd does. The processor that a thread
--     runs on (`sched_getcpu`) is a choice of each step, and the mapping of processors to nodes a
--     parameter.
--   * TypeTools: util/type_tools.hpp, and objects as rows of bytes.
--   * Delegated, with Transparent: in qdlock_base.hpp, `execute`, `enqueue` and the `delegated_*`
--     wrappers, and `forwardall` of the queues. Delegated/Interface: `delegate_n`, `delegate_f`,
--     `delegate_p` and `delegate_fp` of qdlock.hpp.
--   * Delegate, with Protocol: `delegate`, `helper`, `executor` and `try_enqueue` of
--     qdlock_base.hpp, as the trace of one thread whose mutex and queue answer anything.
--   * Qd: `qdlock_impl` of qdlock.hpp as one system of threads that call `delegate`, `lock` and
--     `unlock`; the mutex is the abstract lock of Lock, which may refuse an attempt at any time, and
--     the queue is Queue/DualBuffer. Owned is who has the mutex. View, Seen and Simulation show that
--     a run of the system is a run of the queue: its helper, thread 0, is the owner of the mutex, and
--     the other threads are shifted by one. Account, Balance and Once count operations; Linear, with
--     Steps and Order, is the order in which they take effect; Progress says for whom a helper
--     waits.
--   * Queue/DualBuffer: queues/dual_buffer_queue.hpp. Slots, Core, Publish, Phase and Inv hold the
--     invariant; Enqueue, Fill and Flush are its steps; Order, Progress and Bounds its use.
--   * Queue/Entry: queues/entry_queue.hpp. Slots is the array with its history and the invariant of
--     its slots, Acts what may happen to them; Helper is what the helper knows, Steps what each
--     access does, Order what follows.
--   * Queue/Registry, with Inv, Insert, Publish, Steps, Deletes and Found: in
--     queues/buffer_queue.hpp, how `enqueue` gives a function its number and size, in three maps that
--     threads replace by copies, and the end of `flush`, which deletes those that were replaced.
--   * Queue/Locked, with Order: queues/simple_locked_queue.hpp, each call one step, with
--     and without `assert`.
--   * Mrqd, with Inv and Exclusion: mrqdlock.hpp with readindicator/reader_groups.hpp. The mutex of
--     the lock is one atomic flag.
--   * Mrqd/Interface, Hqd/Interface and Mrhqd/Interface: the functions `delegate_n`, `delegate_f`,
--     `delegate_p` and `delegate_fp` of the other three locks. Hqd/Nodes: the constructor of
--     `hqdlock_impl`, with libnuma as a parameter; that of `mrhqdlock_impl` does the same.
--   * Prelude: tests, lists and names that all parts share. Modules named Tests hold runs of the
--     definitions and instances of the theorems.
--
-- Numbers: `unsigned` wraps at 2 ^ 32 and `unsigned long` at 2 ^ 64. The queue's counter has room
-- for a full buffer and one addition of each thread (`Fits`), which excludes the wrap-around; the
-- counters of readers stay below 2 ^ 31, as the threads do; of the ticket lock's tickets fewer than
-- 2 ^ 31 are drawn, and the counter of the entry queue is added to fewer than 2 ^ 62 times. The loop
-- of `delegate` runs on fuel: 512 is enough for the policy `starvation_free`. The loop of
-- `thread_id_store::free` runs on the number of orphans, each round but the last takes one away.
--
-- Assumed: a queue starts with a zeroed array of functions; code addresses are not null and lie
-- below 2 ^ 56; only the helper, which has the mutex, calls `open` and `flush`.
--
-- Not modelled: the buffer of buffer_queue.hpp, with `open` and the rest of `enqueue` and `flush`;
-- the condition variable, which nothing can use (its alias in qd.hpp is commented out, and its queue
-- has no `status`); `waiting_future`; padding; and the forms of `delegate_fp` that cannot be
-- instantiated: with the function as a template argument, all those of `mrhqdlock_impl`, and those of
-- `mrqdlock_impl` with parameters.
mod Prelude
pub mod ThreadId
pub mod Interleave
pub mod Lock
pub mod TypeTools
pub mod Delegated
pub mod Delegate
pub mod Queue
pub mod Qd
pub mod Mrqd
pub mod Hqd
pub mod Mrhqd
