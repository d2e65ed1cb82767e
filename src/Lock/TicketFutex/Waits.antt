-- ===== src/Lock/TicketFutex/Waits.antt =====
-- locks/ticket_futex_lock.hpp: what a thread knows of the word that it is about to wait for.
use qd_library.Prelude.{ℕ, ◌≡◌, ◌≢◌, inl, inr, true, arith, ◌==◌, Bool-cases}
use qd_library.Lock.Kernel.{Kernel}
use qd_library.Lock.TicketFutex.{
  TicketFutexLock, is_flagged, without_flag, or_flag, wake_at_once, l_round, w_round, Call,
  call_lock, call_try_lock, call_try_lock_or_wait, call_unlock, wakes_early, Pc, outside, l_draw,
  l_load, l_flag, l_wait, l_sleep, t_ticket, t_serving, t_swap, w_ticket, w_serving, w_swap, w_flag,
  w_wait, w_sleep, inside, u_load, u_swap, u_notify_all, next,
}

-- A thread waits for a flagged word, and in `lock` only for one that calls another ticket.
abbrev pub Waits : Pc → Type 0
Waits (l_flag n s) = without_flag s ≢ n
Waits (l_wait n s) = (is_flagged s ≡ true) × (without_flag s ≢ n)
Waits (w_wait s) = is_flagged s ≡ true
Waits p = Unit

Waits-l_round : (n c : ℕ) → Waits (l_round n c)
Waits-l_round n c = elim (Bool-cases (without_flag c == n)) [
  | inl h ↦ rw h tt
  | inr h ↦ elim (Bool-cases (is_flagged c)) [
    | inl g ↦ rw (h, g) (g, ground arith)
    | inr g ↦ rw (h, g) (ground arith)
  ]
]

Waits-w_round : (s : ℕ) → Waits (w_round s)
Waits-w_round s = elim (Bool-cases (is_flagged s)) [ inl e ↦ rw e e | inr e ↦ rw e tt ]

module _ (k : Kernel) where
  abbrev Mem : Type 0
  Mem = TicketFutexLock k.Queue

  pub step-Waits : (i : ℕ) (c : Call) (m : Mem) (p : Pc) → Waits p → Waits (next k i c m p).1
  unfolding next
  step-Waits i call_lock m outside h = tt
  step-Waits i call_try_lock m outside h = tt
  step-Waits i call_try_lock_or_wait m outside h = tt
  step-Waits i c m outside h = tt
  step-Waits i c m l_draw h = tt
  step-Waits i c m (l_load n) h = Waits-l_round n m.serving
  step-Waits i c m (l_flag n s) h = elim (Bool-cases (m.serving == s)) [
    | inl e ↦ rw e (ground arith, ground (arith, h))
    | inr e ↦ rw e (Waits-l_round n m.serving)
  ]
  step-Waits i c m (l_wait n s) h = elim (Bool-cases (m.serving == s)) [
    | inl e ↦ rw e tt
    | inr e ↦ rw e tt
  ]
  step-Waits i wakes_early m (l_sleep n) h = tt
  step-Waits i c m (l_sleep n) h = elim (Bool-cases (k.asleep m.waiters i)) [
    | inl e ↦ rw e tt
    | inr e ↦ rw e tt
  ]
  step-Waits i c m t_ticket h = tt
  step-Waits i c m (t_serving n) h = elim (Bool-cases (n == m.serving)) [
    | inl e ↦ rw e tt
    | inr e ↦ rw e tt
  ]
  step-Waits i c m (t_swap n) h = elim (Bool-cases (m.ticket == n)) [
    | inl e ↦ rw e tt
    | inr e ↦ rw e tt
  ]
  step-Waits i c m w_ticket h = tt
  step-Waits i c m (w_serving n) h = elim (Bool-cases (or_flag n m.serving == m.serving)) [
    | inl e ↦ rw e tt
    | inr e ↦ rw e (Waits-w_round m.serving)
  ]
  step-Waits i c m (w_swap n s) h = elim (Bool-cases (m.ticket == n)) [
    | inl e ↦ rw e tt
    | inr e ↦ rw e (Waits-w_round s)
  ]
  step-Waits i c m (w_flag s) h = elim (Bool-cases (m.serving == s)) [
    | inl e ↦ rw e (ground arith)
    | inr e ↦ rw e tt
  ]
  step-Waits i c m (w_wait s) h = elim (Bool-cases (m.serving == s)) [
    | inl e ↦ rw e tt
    | inr e ↦ rw e tt
  ]
  step-Waits i wakes_early m w_sleep h = tt
  step-Waits i c m w_sleep h = elim (Bool-cases (k.asleep m.waiters i)) [
    | inl e ↦ rw e tt
    | inr e ↦ rw e tt
  ]
  step-Waits i call_unlock m inside h = tt
  step-Waits i c m inside h = tt
  step-Waits i c m u_load h = tt
  step-Waits i c m (u_swap mine) h = elim (Bool-cases (is_flagged m.serving)) [
    | inl e ↦ rw e tt
    | inr e ↦ rw e tt
  ]
  step-Waits i c m u_notify_all h =
      elim (Bool-cases ((k.wake m.waiters wake_at_once).1 == wake_at_once)) [
        | inl e ↦ rw e tt
        | inr e ↦ rw e tt
      ]
