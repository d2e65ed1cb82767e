-- ===== src/Lock/McsFutex/Tests.antt =====
-- locks/mcs_futex_lock.hpp: a run in which thread 1 has the lock, thread 2 sleeps on its node, and
-- thread 3 sleeps on `locked`, with a kernel that keeps its sleepers in a list.
use qd_library.Prelude.{ℕ, zero, suc, ◌≡◌, ◌≤◌, refl, ◌⊎◌, true, List, [], ◌∷◌}
use qd_library.Interleave.{run, step}
use qd_library.Lock.Kernel.{list_kernel, member}
use qd_library.Lock.Chain.Inv.{owns, waits}
use qd_library.Lock.Nodes.{NodeStatus, free, is_free}
use qd_library.Lock.McsFutex.{Call, call_lock, call_try_lock_or_wait, inside, l_sleep, next}
use qd_library.Lock.McsFutex.Acts.{stage}
use qd_library.Lock.McsFutex.Order.{
  reached, mcs_futex-exclusive, mcs_futex_in_order, mcs_futex_not_lost,
}
use qd_library.Lock.McsFutex.Wakeups.{FlagCovers, MarkCovers, no_lost_flag, no_lost_node}

abbrev garbage : ℕ → NodeStatus
garbage i = free

abbrev again : ℕ → ℕ × Call → List (ℕ × Call) → List (ℕ × Call)
again zero e es = es
again (suc n) e es = e ∷ again n e es

abbrev three_threads : List (ℕ × Call)
three_threads =
    again 3 (1, call_lock) (again 522 (2, call_lock) (again 4 (3, call_try_lock_or_wait) []))

thread_1_inside : (reached list_kernel garbage three_threads).pc 1 ≡ inside
unfolding run step next
thread_1_inside = refl

thread_2_asleep : member ((reached list_kernel garbage three_threads).mem.sleepers 2) 2 ≡ true
unfolding run step next
thread_2_asleep = refl

thread_3_asleep : member (reached list_kernel garbage three_threads).mem.waiters 3 ≡ true
unfolding run step next
thread_3_asleep = refl

mcs_futex-exclusive_example : ◌≡◌ {A = ℕ} 1 1
unfolding run step next
mcs_futex-exclusive_example = mcs_futex-exclusive list_kernel garbage three_threads 1 1 refl refl

mcs_futex_in_order_example :
    (reached list_kernel garbage three_threads).mem.turns.ticket 1
    ≤ (reached list_kernel garbage three_threads).mem.turns.ticket 2
unfolding run step next
mcs_futex_in_order_example = mcs_futex_in_order list_kernel garbage three_threads 1 2 refl refl

mcs_futex_not_lost_example :
    ((i : ℕ) × (owns (stage ((reached list_kernel garbage three_threads).pc i)) ≡ true))
    ⊎ ((i : ℕ) × (waits (stage ((reached list_kernel garbage three_threads).pc i)) ≡ true)
        × (is_free ((reached list_kernel garbage three_threads).mem.nodes.status i) ≡ true))
unfolding run step next
mcs_futex_not_lost_example = mcs_futex_not_lost list_kernel garbage three_threads refl

no_lost_flag_example :
    FlagCovers list_kernel
      (reached list_kernel garbage three_threads).mem
      (reached list_kernel garbage three_threads).pc
no_lost_flag_example = no_lost_flag list_kernel garbage three_threads 3 thread_3_asleep

no_lost_node_example :
    (◌≡◌ {A = ℕ} 2 2)
    × ((reached list_kernel garbage three_threads).pc 2 ≡ l_sleep)
    × MarkCovers list_kernel
        (reached list_kernel garbage three_threads).mem
        (reached list_kernel garbage three_threads).pc
        2
no_lost_node_example = no_lost_node list_kernel garbage three_threads 2 2 thread_2_asleep
