-- ===== src/Hqd/Tests.antt =====
-- hqdlock.hpp: runs on a machine with two nodes, whose processors have even and odd numbers.
use qd_library.Prelude.{
  map, none, ℕ, ◌%◌, ◌<◌, ◌≡◌, refl, true, false, some, arith, List, [], ◌∷◌, ◌++◌,
}
use qd_library.Interleave.{State, started, step, run}
use qd_library.Hqd.{
  free_threads, pinned_threads, HqdLock, hqd_lock, Call, call_lock, call_unlock, call_delegate, Pc,
  outside, l_global, u_mutex, get_qd, next,
}
use qd_library.Delegated.Tests.{add, operands}
use qd_library.Hqd.Interface.{
  Form, form_n, form_f_template, form_fp, delegations, expected_nodes, delegations-expected_nodes,
}
use qd_library.Hqd.Nodes
use qd_library.Hqd.Nodes.{LibNuma, construct, get_qd_at, get_qd_at-construct}
use qd_library.Hqd.Levels.{is_at, reached, hqd-exclusive, mutexes_exact}

abbrev node_of : ℕ → ℕ
node_of cpu = cpu % 2

-- Thread 1 takes the lock on processor 0, moves to processor 1, and begins to unlock; thread 2
-- has the mutex of node 1 and waits for the global lock.
abbrev moved : List (ℕ × (Call × ℕ))
moved =
    (1, (call_lock, 0))
    ∷ (1, (call_lock, 0))
    ∷ (1, (call_lock, 0))
    ∷ (1, (call_lock, 0))
    ∷ (2, (call_lock, 1))
    ∷ (2, (call_lock, 1))
    ∷ (2, (call_lock, 1))
    ∷ (1, (call_unlock, 1))
    ∷ (1, (call_unlock, 1))
    ∷ []

thread_1_unlocks : (reached node_of moved).pc 1 ≡ u_mutex 0 0
unfolding run step next get_qd
thread_1_unlocks = refl

mutexes_exact_example :
    ((reached node_of moved).mem.mutex_locks 1 ≡ true
      → (i : ℕ) × (is_at 1 ((reached node_of moved).pc i) ≡ true))
    × ((i : ℕ)
        → is_at 1 ((reached node_of moved).pc i) ≡ true
        → (reached node_of moved).mem.mutex_locks 1 ≡ true)
    × ((i j : ℕ)
        → is_at 1 ((reached node_of moved).pc i) ≡ true
        → is_at 1 ((reached node_of moved).pc j) ≡ true
        → i ≡ j)
mutexes_exact_example = mutexes_exact node_of moved 1

-- With free threads, the same run unlocks the mutex of node 1, which thread 2 has, and leaves that
-- of node 0 locked when no thread is there.
abbrev freely : State HqdLock Pc
freely =
    run (next free_threads node_of) (started hqd_lock outside) (moved ++ (1, (call_lock, 1)) ∷ [])

wrong_mutex_unlocked :
    (freely.pc 1 ≡ outside)
    × (freely.mem.mutex_locks 0 ≡ true)
    × (freely.pc 2 ≡ l_global 1)
    × (freely.mem.mutex_locks 1 ≡ false)
unfolding run step next get_qd
wrong_mutex_unlocked = (refl, refl, refl, refl)

abbrev delegating : List (ℕ × (Call × ℕ))
delegating =
    (1, (call_delegate, 0))
    ∷ (1, (call_delegate, 0))
    ∷ (1, (call_delegate, 0))
    ∷ (1, (call_delegate, 0))
    ∷ []

hqd-exclusive_example : ◌≡◌ {A = ℕ} 1 1
unfolding run step next get_qd
hqd-exclusive_example = hqd-exclusive free_threads node_of delegating 1 1 refl refl

-- A thread that is on processors 1, 2 and 4 in turn.
abbrev three_calls : List (ℕ × Form (List ℕ) ℕ)
three_calls =
    (1, form_n (5 ∷ []) operands)
    ∷ (2, form_f_template false add (1 ∷ []) operands)
    ∷ (4, form_fp (5 ∷ []) (1 ∷ []) operands)
    ∷ []

delegations-expected_nodes_example :
    map (λ d. d.node) (delegations pinned_threads node_of none three_calls)
    ≡ expected_nodes node_of pinned_threads three_calls
delegations-expected_nodes_example = delegations-expected_nodes node_of pinned_threads three_calls

pinned_nodes : expected_nodes node_of pinned_threads three_calls ≡ 1 ∷ 1 ∷ 1 ∷ []
pinned_nodes = refl

free_nodes : expected_nodes node_of free_threads three_calls ≡ 1 ∷ 0 ∷ 0 ∷ []
free_nodes = refl

abbrev two_nodes : LibNuma
two_nodes = record { configured_nodes = 2; node_of_cpu = node_of }

first_configured : (first : ℕ) → some 5 ≡ some first → first < 8
first_configured first e = ground (arith, e)

get_qd_at-construct_example :
    get_qd_at (construct 77 8 (some two_nodes)) pinned_threads (some 5) 2
    ≡ some (get_qd pinned_threads (Nodes.node_of (some two_nodes)) (some 5) 2)
get_qd_at-construct_example =
    get_qd_at-construct 77 8 (some two_nodes) pinned_threads (some 5) 2 first_configured
      (omega arith)
