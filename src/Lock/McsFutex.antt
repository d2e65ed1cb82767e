-- ===== src/Lock/McsFutex.antt =====
-- locks/mcs_futex_lock.hpp: the MCS lock whose waiting threads sleep, an atomic access or a system
-- call at a time. It is the mutex of `qdlock` and `mrqdlock`.
pub mod LockedWord
pub mod Acts
pub mod Order
pub mod Wakeups
mod Tests
use qd_library.Prelude.{
  ℕ, suc, ◌+◌, Bool, true, false, ◌&&◌, ◌||◌, Option, none, some, ltb, ◌==◌, if◌then◌else◌,
}
use qd_library.Interleave.{update}
use qd_library.Lock.Kernel.{Kernel}
use qd_library.Lock.Chain.{Turns, no_turns, next_turn, turn_over}
use qd_library.Lock.Nodes.{
  NodeStatus, free, taken, contended, is_free, is_taken, is_contended, Nodes, new_nodes, set_status,
  set_next,
}
use LockedWord.{Word, no_node, own_node, node_eq, word_eq, is_null}

-- `locked` and the nodes, with the history of the threads' turns, and the kernel's queues: of the
-- threads that sleep on `locked`, and for each node of those that sleep on its `is_locked`.
pub record McsFutexLock (Queue : Type 0) : Type 0 where
  pub locked : Word
  pub nodes : Nodes
  pub turns : Turns
  pub waiters : Queue
  pub sleepers : ℕ → Queue

-- What a thread calls. Choices of the machine and the kernel: `compare_exchange_weak` fails for no
-- reason; two words agree in their low 32 bits, which are all that FUTEX_WAIT compares; a wait
-- ends early.
pub data Call : Type 0 where
  call_lock call_try_lock call_try_lock_or_wait call_unlock call_wake : Call
  fails_weakly collides wakes_early : Call

pub data Pc : Type 0 where
  outside : Pc
  -- in `lock`: before the load of `locked`, and the compare-exchange from what was found
  l_load : Pc
  l_swap : Word → Pc
  -- with the node before: before the mark of the own node, and before the store to its `next`
  l_mark l_link : ℕ → Pc
  -- before the load of the own `is_locked`: in the first loop, behind it, and in the last loop;
  -- before the compare-exchange to `contended`; before the wait, and in it
  l_spin : ℕ → Pc
  l_test l_contend l_loop l_wait l_sleep : Pc
  -- in `try_lock`: before the load of `is_locked`, before the compare-exchange
  t_load t_swap : Pc
  -- in `try_lock_or_wait`: before the load, before the compare-exchange from `free` (with
  -- `flagged`), before the one that flags the last node, before the wait (with `flagged`), and in it
  w_load : Pc
  w_take : Word → Pc
  w_flag : ℕ → Pc
  w_wait : Word → Pc
  w_sleep : Pc
  inside : Pc
  -- in `unlock`: before the first load of `next`, the load of the flag, the compare-exchange, the
  -- loop of `notify_all`; the load of `next` in the loop, and the one behind it; before the exchange
  -- of the next node's mark, `notify_one` on it, and the reset of `next`
  u_test u_flag : Pc
  u_swap : Bool → Pc
  u_notify_all u_loop u_next : Pc
  u_give u_notify : ℕ → Pc
  u_reset : Pc
  -- in `wake`, called by the owner: before the load of `locked`, in the loop of `notify_all`
  v_load v_notify_all : Pc
  -- a null pointer has been followed
  fault : Pc

abbrev pub wake_at_once : ℕ
wake_at_once = 32768

abbrev pub behind : Option ℕ → Pc
behind none = inside
behind (some p) = l_mark p

abbrev pub followed : Option ℕ → Pc
followed none = fault
followed (some n) = u_give n

-- The loop of `try_lock_or_wait`, with the values of `c` and `flagged`.
abbrev pub unflagged : Option ℕ → Word → Pc
unflagged none flagged = w_take flagged
unflagged (some p) flagged = w_flag p

abbrev pub w_round : Word → Word → Pc
w_round c flagged = if c.flag then w_wait flagged else unflagged c.node flagged

-- `c | flag`
abbrev pub with_flag : Word → Word
with_flag c = record c { flag = true }

abbrev pub collided : Call → Bool
collided collides = true
collided c = false

module _ (k : Kernel) where
  open k use {Queue, nobody, asleep, sleep, interrupt, wake}

  abbrev pub mcs_futex_lock : (ℕ → NodeStatus) → McsFutexLock Queue
  mcs_futex_lock garbage = record {
    locked = no_node;
    nodes = new_nodes garbage;
    turns = no_turns;
    waiters = nobody;
    sleepers = λ i. nobody;
  }

  abbrev pub come : ℕ → Word → McsFutexLock Queue → McsFutexLock Queue
  come i w m = record m { locked = w; turns = next_turn i m.turns }

  -- `notify_all` on `locked`
  abbrev pub notify : McsFutexLock Queue → Pc → Pc → McsFutexLock Queue × Pc
  notify m again done =
      let (q, woken) = wake m.waiters wake_at_once in
      (record m { waiters = q }, if woken == wake_at_once then again else done)

  pub next : ℕ → Call → McsFutexLock Queue → Pc → McsFutexLock Queue × Pc
  next i call_lock m outside = (m, l_load)
  next i call_try_lock m outside = (m, t_load)
  next i call_try_lock_or_wait m outside = (m, w_load)
  next i c m outside = (m, outside)
  next i c m l_load = (m, l_swap m.locked)
  next i c m (l_swap w) =
      if word_eq m.locked w
      then (come i (own_node i w.flag) m, behind w.node)
      else (m, l_swap m.locked)
  next i c m (l_mark p) = (record m { nodes = set_status m.nodes i taken }, l_link p)
  next i c m (l_link p) = (record m { nodes = set_next m.nodes p (some i) }, l_spin 0)
  next i c m (l_spin r) = (
    m,
    if ltb r 512 then (if is_free (m.nodes.status i) then l_test else l_spin (r + 1)) else l_test,
  )
  next i c m l_test = (m, if is_taken (m.nodes.status i) then l_contend else l_loop)
  next i c m l_contend =
      if is_taken (m.nodes.status i)
      then (record m { nodes = set_status m.nodes i contended }, l_loop)
      else (m, if is_free (m.nodes.status i) then inside else l_loop)
  next i c m l_loop = (m, if is_free (m.nodes.status i) then inside else l_wait)
  next i c m l_wait =
      if is_contended (m.nodes.status i)
      then (record m { sleepers = update m.sleepers i (sleep (m.sleepers i) i) }, l_sleep)
      else (m, l_loop)
  next i wakes_early m l_sleep =
      (record m { sleepers = update m.sleepers i (interrupt (m.sleepers i) i) }, l_loop)
  next i c m l_sleep = (m, if asleep (m.sleepers i) i then l_sleep else l_loop)
  next i c m t_load = (m, if word_eq m.locked no_node then t_swap else outside)
  next i c m t_swap =
      if word_eq m.locked no_node then (come i (own_node i false) m, inside) else (m, outside)
  next i c m w_load = (m, w_round m.locked (with_flag m.locked))
  next i c m (w_take flagged) =
      if word_eq m.locked no_node
      then (come i (own_node i false) m, inside)
      else (m, w_round m.locked flagged)
  next i fails_weakly m (w_flag p) = (m, w_round m.locked (own_node p true))
  next i c m (w_flag p) =
      if word_eq m.locked (own_node p false)
      then (record m { locked = own_node p true }, w_wait (own_node p true))
      else (m, w_round m.locked (own_node p true))
  next i c m (w_wait flagged) =
      if m.locked.flag && (node_eq m.locked.node flagged.node || collided c)
      then (record m { waiters = sleep m.waiters i }, w_sleep)
      else (m, outside)
  next i wakes_early m w_sleep = (record m { waiters = interrupt m.waiters i }, outside)
  next i c m w_sleep = (m, if asleep m.waiters i then w_sleep else outside)
  next i call_unlock m inside = (m, u_test)
  next i call_wake m inside = (m, v_load)
  next i c m inside = (m, inside)
  next i c m u_test = (m, if is_null (m.nodes.next i) then u_flag else u_loop)
  next i c m u_flag = (m, u_swap m.locked.flag)
  next i c m (u_swap slept) =
      if word_eq m.locked (own_node i slept)
      then (
        record m { locked = no_node; turns = turn_over m.turns },
        if slept then u_notify_all else outside,
      )
      else (m, if node_eq m.locked.node (some i) then u_test else u_loop)
  next i c m u_notify_all = notify m u_notify_all outside
  next i c m u_loop = (m, if is_null (m.nodes.next i) then u_loop else u_next)
  next i c m u_next = (m, followed (m.nodes.next i))
  next i c m (u_give n) = (
    record m { nodes = set_status m.nodes n free; turns = turn_over m.turns },
    if is_contended (m.nodes.status n) then u_notify n else u_reset,
  )
  next i c m (u_notify n) =
      (record m { sleepers = update m.sleepers n (wake (m.sleepers n) 1).0 }, u_reset)
  next i c m u_reset = (record m { nodes = set_next m.nodes i none }, outside)
  next i c m v_load = (m, if word_eq m.locked (own_node i true) then v_notify_all else inside)
  next i c m v_notify_all = notify m v_notify_all inside
  next i c m fault = (m, fault)
