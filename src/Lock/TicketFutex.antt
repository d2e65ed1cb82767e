-- ===== src/Lock/TicketFutex.antt =====
-- locks/ticket_futex_lock.hpp: the ticket lock whose waiting threads sleep, an atomic access or a
-- system call at a time. An `int` stands here by its 32 bits, read as a number without a sign.
pub mod Turn
pub mod Steps
pub mod Order
pub mod Waits
pub mod Wakeups
mod Tests
use qd_library.Prelude.{ℕ, ◌+◌, ◌-◌, ◌%◌, ◌^◌, Bool, true, false, ◌==◌, if◌then◌else◌}
use qd_library.Lock.Kernel.{Kernel}
use qd_library.Lock.Chain.{Turns, no_turns, next_turn, turn_over}

-- `ticket` and `serving`, with the history of the threads' turns, and the threads that sleep on
-- `serving`.
pub record TicketFutexLock (Queue : Type 0) : Type 0 where
  pub ticket : ℕ
  pub serving : ℕ
  pub turns : Turns
  pub waiters : Queue

-- What a thread calls, and a wait that ends early.
pub data Call : Type 0 where
  call_lock call_try_lock call_try_lock_or_wait call_unlock wakes_early : Call

pub data Pc : Type 0 where
  outside : Pc
  -- in `lock`: before the `fetch_add`; with `mynum`, before the load of `serving`, before the
  -- compare-exchange from `current`, before the wait for `current` to change, and in it
  l_draw : Pc
  l_load : ℕ → Pc
  l_flag l_wait : ℕ → ℕ → Pc
  l_sleep : ℕ → Pc
  -- in `try_lock`: before the load of `ticket`; with `current_ticket`, before the load of `serving`
  -- and before the compare-exchange
  t_ticket : Pc
  t_serving t_swap : ℕ → Pc
  -- in `try_lock_or_wait`: before the load of `ticket`; with `current_ticket`, before the load of
  -- `serving`; with both, before the compare-exchange of `ticket`; with `current_serving`, before
  -- the compare-exchange of `serving`, before the wait, and in it
  w_ticket : Pc
  w_serving : ℕ → Pc
  w_swap : ℕ → ℕ → Pc
  w_flag w_wait : ℕ → Pc
  w_sleep : Pc
  inside : Pc
  -- in `unlock`: before the load; with `mine`, before the exchange; in the loop of `notify_all`
  u_load : Pc
  u_swap : ℕ → Pc
  u_notify_all : Pc

abbrev pub int : ℕ → ℕ
int n = n % 2 ^ 32

-- `(c & 1) == 1`
abbrev pub is_flagged : ℕ → Bool
is_flagged c = c % 2 == 1

-- `c & ~1`
abbrev pub without_flag : ℕ → ℕ
without_flag c = c - c % 2

-- `c | 1`
abbrev pub flagged : ℕ → ℕ
flagged c = without_flag c + 1

-- `c | (s & 1)`
abbrev pub or_flag : ℕ → ℕ → ℕ
or_flag c s = if is_flagged s then flagged c else c

abbrev pub wake_at_once : ℕ
wake_at_once = 32768

-- The loop of `lock`, with the values of `mynum` and `current`.
abbrev pub l_round : ℕ → ℕ → Pc
l_round n c =
    if without_flag c == n then inside else if is_flagged c then l_wait n c else l_flag n c

-- `try_lock_or_wait` behind its first test, with the value of `current_serving`.
abbrev pub w_round : ℕ → Pc
w_round s = if is_flagged s then w_wait s else w_flag s

module _ (k : Kernel) where
  open k use {Queue, nobody, asleep, sleep, interrupt, wake}

  abbrev pub ticket_futex_lock : TicketFutexLock Queue
  ticket_futex_lock = record { ticket = 0; serving = 0; turns = no_turns; waiters = nobody }

  -- The thread's ticket is drawn: `ticket` goes on by 2.
  abbrev pub draw : ℕ → TicketFutexLock Queue → TicketFutexLock Queue
  draw i m = record m { ticket = int (m.ticket + 2); turns = next_turn i m.turns }

  pub next : ℕ → Call → TicketFutexLock Queue → Pc → TicketFutexLock Queue × Pc
  next i call_lock m outside = (m, l_draw)
  next i call_try_lock m outside = (m, t_ticket)
  next i call_try_lock_or_wait m outside = (m, w_ticket)
  next i c m outside = (m, outside)
  next i c m l_draw = (draw i m, l_load m.ticket)
  next i c m (l_load n) = (m, l_round n m.serving)
  next i c m (l_flag n s) =
      if m.serving == s
      then (record m { serving = flagged s }, l_wait n (flagged s))
      else (m, l_round n m.serving)
  next i c m (l_wait n s) =
      if m.serving == s
      then (record m { waiters = sleep m.waiters i }, l_sleep n)
      else (m, l_load n)
  next i wakes_early m (l_sleep n) = (record m { waiters = interrupt m.waiters i }, l_load n)
  next i c m (l_sleep n) = (m, if asleep m.waiters i then l_sleep n else l_load n)
  next i c m t_ticket = (m, t_serving m.ticket)
  next i c m (t_serving t) = (m, if t == m.serving then t_swap t else outside)
  next i c m (t_swap t) = if m.ticket == t then (draw i m, inside) else (m, outside)
  next i c m w_ticket = (m, w_serving m.ticket)
  next i c m (w_serving t) =
      (m, if or_flag t m.serving == m.serving then w_swap t m.serving else w_round m.serving)
  next i c m (w_swap t s) = if m.ticket == t then (draw i m, inside) else (m, w_round s)
  next i c m (w_flag s) =
      if m.serving == s
      then (record m { serving = flagged s }, w_wait (flagged s))
      else (m, outside)
  next i c m (w_wait s) =
      if m.serving == s then (record m { waiters = sleep m.waiters i }, w_sleep) else (m, outside)
  next i wakes_early m w_sleep = (record m { waiters = interrupt m.waiters i }, outside)
  next i c m w_sleep = (m, if asleep m.waiters i then w_sleep else outside)
  next i call_unlock m inside = (m, u_load)
  next i c m inside = (m, inside)
  next i c m u_load = (m, u_swap m.serving)
  next i c m (u_swap mine) = (
    record m { serving = int (without_flag mine + 2); turns = turn_over m.turns },
    if is_flagged m.serving then u_notify_all else outside,
  )
  next i c m u_notify_all =
      let (q, woken) = wake m.waiters wake_at_once in
      (record m { waiters = q }, if woken == wake_at_once then u_notify_all else outside)
