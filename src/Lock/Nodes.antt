-- ===== src/Lock/Nodes.antt =====
-- `mcs_node` of locks/mcs_futex_lock.hpp and `mcs_node2` of locks/mcs_lock.hpp: for each lock a
-- thread has one node, so a node goes by its thread's number.
use qd_library.Prelude.{ℕ, ◌≡◌, Bool, true, false, Option, none, arith}
use mathlib.Core.Path.{fun_ext}
use qd_library.Interleave.{update}

-- `field_t`
pub data NodeStatus : Type 0 where
  free taken contended : NodeStatus

abbrev pub is_free : NodeStatus → Bool
is_free free = true
is_free s = false

abbrev pub is_contended : NodeStatus → Bool
is_contended contended = true
is_contended s = false

abbrev pub is_taken : NodeStatus → Bool
is_taken taken = true
is_taken s = false

-- `is_locked` and `next` of every node. The constructor leaves `is_locked` as it is.
pub record Nodes : Type 0 where
  pub status : ℕ → NodeStatus
  pub next : ℕ → Option ℕ

abbrev pub new_nodes : (ℕ → NodeStatus) → Nodes
new_nodes garbage = record { status = garbage; next = λ i. none }

abbrev pub set_status : Nodes → ℕ → NodeStatus → Nodes
set_status n i s = record n { status = update n.status i s }

abbrev pub set_next : Nodes → ℕ → Option ℕ → Nodes
set_next n i j = record n { next = update n.next i j }

pub is_free-update :
    (f : ℕ → NodeStatus) (i : ℕ) (s : NodeStatus)
    → ◌≡◌ {A = ℕ → Bool} (λ j. is_free (update f i s j)) (update (λ j. is_free (f j)) i (is_free s))
is_free-update f i s = fun_ext λ j. ground arith

-- A change of status that leaves what is free as it is.
pub is_free-update_same :
    (f : ℕ → NodeStatus) (i : ℕ) (s : NodeStatus)
    → is_free s ≡ is_free (f i)
    → ◌≡◌ {A = ℕ → Bool} (λ j. is_free (update f i s j)) (λ j. is_free (f j))
is_free-update_same f i s e = fun_ext λ j. ground arith
