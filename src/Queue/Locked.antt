-- ===== src/Queue/Locked.antt =====
-- queues/simple_locked_queue.hpp: an unbounded queue of entries of 128 bytes. Each call runs under
-- the queue's mutex, so it is one step.
pub mod Order
mod Tests
use qd_library.Prelude.{
  ℕ, ◌+◌, Bool, true, false, ◌&&◌, List, [], ◌∷◌, ◌++◌, length, take, drop, ltb, leb, if◌then◌else◌,
}
use qd_library.TypeTools.{Object, write_at}

-- `queue`, the oldest entry first.
pub record LockedQueue : Type 0 where
  pub queue : List (List ℕ)

-- How a call ends: it returns, it throws, a failed `assert` ends the program, or a write goes past
-- the end of the entry, and the behaviour is undefined.
pub data Outcome : Type 0 where
  returned threw aborted overran : Outcome

abbrev pub is_returned : Outcome → Bool
is_returned returned = true
is_returned o = false

-- `forwardall`, in a build with or without `assert`.
pub forward : Bool → List ℕ → ℕ → List Object → List ℕ × Outcome
forward asserts buf offset [] =
    (buf, if leb offset 120 then returned else if asserts then aborted else threw)
forward asserts buf offset (p ∷ ps) =
    let rest = forward asserts (write_at buf offset p) (offset + length p) ps in
    if asserts && ltb 120 offset
    then (buf, aborted)
    else if leb (offset + length p) (length buf)
    then rest
    else (buf, overran)

-- `enqueue`, with the content of the uninitialised `val`. The entry is pushed before it is filled.
-- After `aborted` and `overran` the queue is of no account.
pub enqueue : Bool → LockedQueue → List ℕ → Object → List Object → LockedQueue × Outcome
unfolding forward
enqueue asserts q val op ps =
    let (entry, outcome) = forward asserts val 0 (op ∷ ps) in
    (record { queue = q.queue ++ entry ∷ [] }, outcome)

-- `(*fun)(ptr)` is the parameter `invoke`: it gets the function's address and the bytes behind it.
module _ {W : Type 0} (invoke : Object → List ℕ → W → W) where
  abbrev pub run_entry : List ℕ → W → W
  run_entry entry w = invoke (take 8 entry) (drop 8 entry) w

  pub flush_one : LockedQueue → W → LockedQueue × W
  flush_one q w = elim q.queue [
    | [] ↦ (q, w)
    | entry ∷ rest ↦ (record { queue = rest }, run_entry entry w)
  ]

  flush_all : List (List ℕ) → W → W
  flush_all [] w = w
  flush_all (entry ∷ rest) w = flush_all rest (run_entry entry w)

  pub flush : LockedQueue → W → LockedQueue × W
  unfolding flush_all
  flush q w = (record { queue = [] }, flush_all q.queue w)
