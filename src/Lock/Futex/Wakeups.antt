-- ===== src/Lock/Futex/Wakeups.antt =====
-- locks/futex_lock.hpp: a thread that sleeps on the lock is woken by someone.
use qd_library.Prelude.{ℕ, ◌≡◌, ◌≢◌, refl, true, false, ◌⊎◌, inl, inr, ◌∙◌, some, none, List, arith}
use qd_library.Interleave.{State, started, step, run, run-keeps}
use qd_library.Lock.{Owner, is_owned}
use qd_library.Lock.Kernel.{Kernel}
use qd_library.Lock.Futex.{
  FutexLock, Call, Pc, futex_lock, next, is_contended, held, holds, futex-Refines, wake_at_once,
  call_lock, call_unlock, wakes_early, outside, lock_swap, lock_exchange, lock_wait, lock_sleep,
  low_wait, low_sleep, inside, notifying,
}

module _ (k : Kernel) where
  -- Someone will wake the threads that sleep: the word says so to the owner, or a thread is in
  -- `notify_all`.
  abbrev pub WillWake : State (FutexLock k.Queue) Pc → Type 0
  WillWake s = (is_contended s.mem.locked ≡ true) ⊎ ((j : ℕ) × (s.pc j ≡ notifying))

  abbrev Covered : State (FutexLock k.Queue) Pc → Type 0
  Covered s = (j : ℕ) → k.asleep s.mem.waiters j ≡ true → WillWake s

  -- A move that keeps the queue or shrinks it, and loses neither reason.
  abbrev Local : (i : ℕ) → FutexLock k.Queue → Pc → FutexLock k.Queue → Pc → Type 0
  Local i l p l' p' =
      (j : ℕ)
      → k.asleep l'.waiters j ≡ true
      → (is_contended l'.locked ≡ true)
        ⊎ ((p' ≡ notifying)
            ⊎ ((k.asleep l.waiters j ≡ true) × (is_contended l.locked ≡ false) × (p ≢ notifying)))

  moves-Local :
      (i : ℕ) (c : Call) (l : FutexLock k.Queue) (p : Pc)
      → Local i l p (next k i c l p).0 (next k i c l p).1
  unfolding next
  moves-Local i call_lock l outside j h = ground arith
  moves-Local i c l lock_swap j h = ground arith
  moves-Local i c l lock_exchange j h = ground arith
  moves-Local i c l lock_wait j h = ground (arith, k.asleep-sleep l.waiters i j)
  moves-Local i wakes_early l lock_sleep j h = ground (arith, k.asleep-interrupt l.waiters i j)
  moves-Local i c l low_wait j h = ground (arith, k.asleep-sleep l.waiters i j)
  moves-Local i wakes_early l low_sleep j h = ground (arith, k.asleep-interrupt l.waiters i j)
  moves-Local i call_unlock l inside j h = ground arith
  moves-Local i c l notifying j h = ground (
    arith,
    k.asleep-wake l.waiters wake_at_once j,
    k.wake-le l.waiters wake_at_once,
    k.wake_all l.waiters wake_at_once j,
  )
  moves-Local i c l p j h = ground arith

  step-Covered :
      (s : State (FutexLock k.Queue) Pc) (i : ℕ) (c : Call)
      → Covered s
      → Covered (step (next k) s (i, c))
  unfolding step
  step-Covered s i c v j h = elim (moves-Local i c s.mem (s.pc i) j h) [
    | inl word ↦ inl word
    | inr (inl now) ↦ inr (i, ground arith)
    | inr (inr (before, unmarked, other)) ↦ elim (v j before) [
      | inl word ↦ absurd (cc)
      | inr (m, e) ↦ inr (m, ground arith)
    ]
  ]

  holds-inside : (p : Pc) → holds p ≡ true → p ≡ inside
  holds-inside inside h = refl
  holds-inside p h = cc

  owned :
      (l : FutexLock k.Queue) (o : Owner)
      → is_contended l.locked ≡ true
      → held k l ≡ is_owned o
      → (i : ℕ) × (o ≡ some i)
  owned l none h e = absurd (ground arith)
  owned l (some i) h e = (i, refl)

  -- No wake-up is lost. Whenever a thread sleeps on the lock, either the word is `contended` and
  -- some thread is inside, whose `unlock` will then call `notify_all`, or some thread is in
  -- `notify_all` already.
  pub no_lost_wakeup :
      (es : List (ℕ × Call)) (j : ℕ)
      → let s = run (next k) (started (futex_lock k) outside) es in
        k.asleep s.mem.waiters j ≡ true
        → ((is_contended s.mem.locked ≡ true) × ((i : ℕ) × (s.pc i ≡ inside)))
          ⊎ ((i : ℕ) × (s.pc i ≡ notifying))
  no_lost_wakeup es j h =
      let s = run (next k) (started (futex_lock k) outside) es in
      let (o, r) = futex-Refines k es in
      let covered : Covered s =
        run-keeps (next k) Covered step-Covered (started (futex_lock k) outside) es
          (λ i a. absurd (cc (k.asleep-nobody i))) in
      elim (covered j h) [
        | inl word ↦
            let (i, e) = owned s.mem o word r.lock_state in
            inl (word, (i, holds-inside (s.pc i) (r.owner i ∙ ground (arith, e))))
        | inr now ↦ inr now
      ]
