-- ===== src/Lock/TicketFutex/Tests.antt =====
-- locks/ticket_futex_lock.hpp: a run in which thread 1 has the lock and thread 2 sleeps in `lock`,
-- and one that leaves thread 2 asleep while nobody has the lock.
use qd_library.Prelude.{ℕ, ◌≡◌, ◌≢◌, refl, ◌⊎◌, true, List, [], ◌∷◌, ◌++◌, arith}
use qd_library.Interleave.{State, run, step}
use qd_library.Lock.Kernel.{list_kernel, member}
use qd_library.Lock.TicketFutex.{
  TicketFutexLock, Call, call_lock, call_try_lock, call_try_lock_or_wait, call_unlock, Pc, outside,
  inside, l_sleep, u_notify_all, is_flagged, next,
}
use qd_library.Lock.TicketFutex.Turn.{has_ticket}
use qd_library.Lock.TicketFutex.Steps.{role}
use qd_library.Lock.TicketFutex.Order.{reached, ticket-exclusive}
use qd_library.Lock.TicketFutex.Wakeups.{no_lost_turn}

abbrev two_threads : List (ℕ × Call)
two_threads =
    (1, call_lock)
    ∷ (1, call_lock)
    ∷ (1, call_lock)
    ∷ (2, call_lock)
    ∷ (2, call_lock)
    ∷ (2, call_lock)
    ∷ (2, call_lock)
    ∷ (2, call_lock)
    ∷ []

abbrev s : State (TicketFutexLock (List ℕ)) Pc
s = reached list_kernel two_threads

thread_1_inside : s.pc 1 ≡ inside
unfolding run step next
thread_1_inside = refl

thread_2_sleeps : s.pc 2 ≡ l_sleep 2
unfolding run step next
thread_2_sleeps = refl

thread_2_asleep : member s.mem.waiters 2 ≡ true
unfolding run step next
thread_2_asleep = refl

ticket-exclusive_example : ◌≡◌ {A = ℕ} 1 1
unfolding run step next
ticket-exclusive_example = ticket-exclusive list_kernel two_threads (omega arith) 1 1 refl refl

no_lost_turn_example :
    ((i : ℕ) × (s.pc i ≡ u_notify_all))
    ⊎ ((is_flagged s.mem.serving ≡ true)
        × ((i : ℕ) × (has_ticket (role (s.pc i)) ≡ true)
            × (s.mem.turns.ticket i ≡ s.mem.turns.served)
            × (i ≢ 2)))
unfolding run step next
no_lost_turn_example =
    no_lost_turn list_kernel two_threads (omega arith) 2 2 thread_2_asleep thread_2_sleeps

-- Thread 2 is in `try_lock_or_wait`, between its two loads, while thread 1 takes the lock and gives
-- it up: it marks the word of a free lock, and sleeps.
abbrev overtaken : List (ℕ × Call)
overtaken =
    (2, call_try_lock_or_wait)
    ∷ (2, call_try_lock_or_wait)
    ∷ (1, call_lock)
    ∷ (1, call_lock)
    ∷ (1, call_lock)
    ∷ (1, call_unlock)
    ∷ (1, call_unlock)
    ∷ (1, call_unlock)
    ∷ (2, call_try_lock_or_wait)
    ∷ (2, call_try_lock_or_wait)
    ∷ (2, call_try_lock_or_wait)
    ∷ []

asleep_on_a_free_lock :
    (member (reached list_kernel overtaken).mem.waiters 2 ≡ true)
    × ((reached list_kernel overtaken).mem.ticket ≡ 2)
    × ((reached list_kernel overtaken).mem.serving ≡ 3)
    × ((reached list_kernel overtaken).pc 1 ≡ outside)
unfolding run step next
asleep_on_a_free_lock = (refl, refl, refl, refl)

-- `try_lock` of thread 3 then fails, although the lock is free.
abbrev tried_later : List (ℕ × Call)
tried_later = overtaken ++ (3, call_try_lock) ∷ (3, call_try_lock) ∷ (3, call_try_lock) ∷ []

try_lock_refused : (reached list_kernel tried_later).pc 3 ≡ outside
unfolding run step next
try_lock_refused = refl
