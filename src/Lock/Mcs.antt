-- ===== src/Lock/Mcs.antt =====
-- locks/mcs_lock.hpp: the MCS lock, an atomic access at a time.
pub mod Order
mod Tests
use qd_library.Prelude.{
  ℕ, suc, ◌+◌, Bool, true, false, Option, none, some, ltb, ◌==◌, if◌then◌else◌,
}
use qd_library.Lock.Chain.{Turns, no_turns, next_turn, turn_over}
use qd_library.Lock.Nodes.{NodeStatus, free, taken, is_free, Nodes, new_nodes, set_status, set_next}

-- `locked` and the nodes, with the history of the threads' turns.
pub record McsLock : Type 0 where
  pub locked : Option ℕ
  pub nodes : Nodes
  pub turns : Turns

abbrev pub mcs_lock : (ℕ → NodeStatus) → McsLock
mcs_lock garbage = record { locked = none; nodes = new_nodes garbage; turns = no_turns }

abbrev pub is_node : ℕ → Option ℕ → Bool
is_node i none = false
is_node i (some j) = i == j

-- What a thread calls.
pub data Call : Type 0 where
  call_lock call_try_lock call_try_lock_or_wait call_unlock : Call

pub data Pc : Type 0 where
  outside : Pc
  -- in `lock`: before the exchange; with the node that was found, before the mark of the own node
  -- and before the store to its `next`; in the first loop, and in the second
  l_swap : Pc
  l_mark l_link : ℕ → Pc
  l_spin : ℕ → Pc
  l_loop : Pc
  -- in `try_lock`: before the load of `is_locked`, before the compare-exchange
  t_load t_swap : Pc
  inside : Pc
  -- in `unlock`: before the first load of `next`, the compare-exchange, the load of `next` in the
  -- loop and the one behind it; before the mark of the next node; before the reset of `next`
  u_test u_swap u_loop u_next : Pc
  u_give : ℕ → Pc
  u_reset : Pc
  -- a null pointer has been followed
  fault : Pc

abbrev come : ℕ → McsLock → McsLock
come i m = record m { locked = some i; turns = next_turn i m.turns }

abbrev behind : Option ℕ → Pc
behind none = inside
behind (some p) = l_mark p

abbrev followed : Option ℕ → Pc
followed none = fault
followed (some n) = u_give n

abbrev pub is_null : Option ℕ → Bool
is_null none = true
is_null (some n) = false

pub next : ℕ → Call → McsLock → Pc → McsLock × Pc
next i call_lock m outside = (m, l_swap)
next i call_unlock m outside = (m, outside)
next i c m outside = (m, t_load)
next i c m l_swap = (come i m, behind m.locked)
next i c m (l_mark p) = (record m { nodes = set_status m.nodes i taken }, l_link p)
next i c m (l_link p) = (record m { nodes = set_next m.nodes p (some i) }, l_spin 0)
next i c m (l_spin k) = (
  m,
  if ltb k 512 then (if is_free (m.nodes.status i) then l_loop else l_spin (k + 1)) else l_loop,
)
next i c m l_loop = (m, if is_free (m.nodes.status i) then inside else l_loop)
next i c m t_load = (m, if is_null m.locked then t_swap else outside)
next i c m t_swap = if is_null m.locked then (come i m, inside) else (m, outside)
next i call_unlock m inside = (m, u_test)
next i c m inside = (m, inside)
next i c m u_test = (m, if is_null (m.nodes.next i) then u_swap else u_loop)
next i c m u_swap =
    if is_node i m.locked
    then (record m { locked = none; turns = turn_over m.turns }, outside)
    else (m, u_loop)
next i c m u_loop = (m, if is_null (m.nodes.next i) then u_loop else u_next)
next i c m u_next = (m, followed (m.nodes.next i))
next i c m (u_give n) =
    (record m { nodes = set_status m.nodes n free; turns = turn_over m.turns }, u_reset)
next i c m u_reset = (record m { nodes = set_next m.nodes i none }, outside)
next i c m fault = (m, fault)
