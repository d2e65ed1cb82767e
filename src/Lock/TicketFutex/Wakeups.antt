-- ===== src/Lock/TicketFutex/Wakeups.antt =====
-- locks/ticket_futex_lock.hpp: a thread that sleeps in `lock` is woken before its turn is over.
use qd_library.Prelude.{
  ℕ, ◌*◌, ◌^◌, ◌<◌, ◌≡◌, ◌≢◌, refl, sym, ap, ◌∙◌, ◌⊎◌, inl, inr, Bool, true, false, List, arith,
  ◌==◌, Bool-cases,
}
use mathlib.Core.Path.{subst}
use qd_library.Interleave.{update, State, started, step, run-keeps}
use qd_library.Lock.Kernel.{Kernel}
use qd_library.Lock.TicketFutex.{
  TicketFutexLock, ticket_futex_lock, is_flagged, without_flag, wake_at_once, l_round, Call,
  wakes_early, Pc, outside, l_load, l_flag, l_wait, l_sleep, w_flag, w_wait, w_sleep, u_swap,
  u_notify_all, next,
}
use qd_library.Lock.TicketFutex.Turn.{has_ticket}
use qd_library.Lock.TicketFutex.Steps.{role, Knows}
use qd_library.Lock.TicketFutex.Order.{reached, reached-Inv}
use qd_library.Lock.TicketFutex.Waits.{Waits, step-Waits}

abbrev dozes : Pc → Bool
dozes (l_sleep n) = true
dozes w_sleep = true
dozes p = false

module _ (k : Kernel) where
  abbrev Mem : Type 0
  Mem = TicketFutexLock k.Queue

  -- The word calls the sleepers' wakeup, and not the ticket of a thread that sleeps in `lock`.
  abbrev Called : Mem → Pc → Type 0
  Called m q =
      (is_flagged m.serving ≡ true) × ((n : ℕ) → q ≡ l_sleep n → without_flag m.serving ≢ n)

  -- What a step of thread `i` does to thread `j`, that sleeps behind it.
  abbrev Local : ℕ → ℕ → Mem → Pc → Mem → Pc → Type 0
  Local i j m p m' p' =
      ((p' ≡ u_notify_all) × (i ≢ j) × (k.asleep m.waiters j ≡ true))
      ⊎ (((i ≡ j) × (dozes p' ≡ true) × Called m' p')
          ⊎ ((k.asleep m.waiters j ≡ true)
              × (p ≢ u_notify_all)
              × (i ≡ j → p' ≡ p)
              × ((is_flagged m.serving ≡ true)
                  → (is_flagged m'.serving ≡ true)
                    × (without_flag m'.serving ≡ without_flag m.serving))))

  kept :
      (i j : ℕ) (m : Mem) (p : Pc)
      → k.asleep m.waiters j ≡ true
      → p ≢ u_notify_all
      → (p' : Pc) → (i ≡ j → p' ≡ p)
      → Local i j m p m p'
  kept i j m p a o p' e = inr (inr (a, o, e, λ f. (f, refl)))

  local :
      (i j : ℕ) (c : Call) (m : Mem) (p : Pc)
      → Waits p
      → (k.asleep m.waiters j ≡ true → i ≡ j → dozes p ≡ true)
      → k.asleep (next k i c m p).0.waiters j ≡ true
      → Local i j m p (next k i c m p).0 (next k i c m p).1
  unfolding next
  local i j c m (l_flag n s) w d h =
      let before : k.asleep m.waiters j ≡ true = ground (arith, h) in
      let other : i ≢ j = λ e. absurd (cc (d before e)) in
      elim (Bool-cases (m.serving == s)) [
        | inl e ↦
            rw e (inr (inr (before, cc, λ q. absurd (other q), λ f. (ground arith, ground arith))))
        | inr e ↦
            rw e (kept i j m (l_flag n s) before (cc) (l_round n m.serving) (λ q. absurd (other q)))
      ]
  local i j c m (l_wait n s) w d h = elim (Bool-cases (m.serving == s)) [
    | inl e ↦
        let now : Called m (l_sleep n) = (ground (arith, w.0), λ n' q. ground (arith, w.1)) in
        rw e (elim (Bool-cases (i == j)) [
          | inl q ↦ inr (inl (ground arith, refl, now))
          | inr q ↦ inr (
              inr (
                ground (arith, e, k.asleep-sleep m.waiters i j),
                cc,
                λ p. ground arith,
                λ f. (f, refl),
              ))
        ])
    | inr e ↦ rw e (
        kept i j m (l_wait n s) (ground arith) (cc) (l_load n)
          (λ q. absurd (cc (d (ground arith) q))))
  ]
  local i j wakes_early m (l_sleep n) w d h = ground (arith, k.asleep-interrupt m.waiters i j)
  local i j c m (l_sleep n) w d h = ground (arith)
  local i j c m (w_flag s) w d h =
      let before : k.asleep m.waiters j ≡ true = ground (arith, h) in
      let other : i ≢ j = λ e. absurd (cc (d before e)) in
      elim (Bool-cases (m.serving == s)) [
        | inl e ↦
            rw e (inr (inr (before, cc, λ q. absurd (other q), λ f. (ground arith, ground arith))))
        | inr e ↦ rw e (kept i j m (w_flag s) before (cc) outside (λ q. absurd (other q)))
      ]
  local i j c m (w_wait s) w d h = elim (Bool-cases (m.serving == s)) [
    | inl e ↦
        let now : Called m w_sleep = (ground (arith, w), λ n' q. absurd (cc)) in
        rw e (elim (Bool-cases (i == j)) [
          | inl q ↦ inr (inl (ground arith, refl, now))
          | inr q ↦ inr (
              inr (
                ground (arith, e, k.asleep-sleep m.waiters i j),
                cc,
                λ p. ground arith,
                λ f. (f, refl),
              ))
        ])
    | inr e ↦
        rw e (
          kept i j m (w_wait s) (ground arith) (cc) outside (λ q. absurd (cc (d (ground arith) q))))
  ]
  local i j wakes_early m w_sleep w d h = ground (arith, k.asleep-interrupt m.waiters i j)
  local i j c m w_sleep w d h = ground (arith)
  local i j c m (u_swap mine) w d h = elim (Bool-cases (is_flagged m.serving)) [
    | inl e ↦ rw e (inl (refl, (λ q. absurd (cc (d h q))), h))
    | inr e ↦ rw e (inr (inr (h, cc, (λ q. absurd (cc (d h q))), λ f. absurd (cc))))
  ]
  local i j c m u_notify_all w d h = ground (
    arith,
    k.asleep-wake m.waiters wake_at_once j,
    k.wake-le m.waiters wake_at_once,
    k.wake_all m.waiters wake_at_once j,
  )
  local i j c m p w d h = ground (arith)

  record Covered (s : State Mem Pc) : Type 0 where
    reads : (i : ℕ) → Waits (s.pc i)
    in_wait : (j : ℕ) → k.asleep s.mem.waiters j ≡ true → dozes (s.pc j) ≡ true
    called :
        (j : ℕ)
        → k.asleep s.mem.waiters j ≡ true
        → ((i : ℕ) × (s.pc i ≡ u_notify_all)) ⊎ Called s.mem (s.pc j)

  step-Covered :
      (s : State Mem Pc) (i : ℕ) (c : Call) → Covered s → Covered (step (next k) s (i, c))
  unfolding step
  step-Covered s i c v = record {
    reads = λ j. elim (Bool-cases (i == j)) [
      | inl e ↦ rw e (step-Waits k i c s.mem (s.pc i) (v.reads i))
      | inr e ↦ rw e (v.reads j)
    ];
    in_wait = asleep_at;
    called = calls;
  }
    where
      r : Mem × Pc
      r = next k i c s.mem (s.pc i)

      effect : (j : ℕ) → k.asleep r.0.waiters j ≡ true → Local i j s.mem (s.pc i) r.0 r.1
      effect j =
          local i j c s.mem (s.pc i) (v.reads i) (λ h e. ap (λ n. dozes (s.pc n)) e ∙ v.in_wait j h)

      pc' : ℕ → Pc
      pc' = update s.pc i r.1

      unmoved : (j : ℕ) → (i ≡ j → r.1 ≡ s.pc i) → pc' j ≡ s.pc j
      unmoved j e = elim (Bool-cases (i == j)) [
        | inl q ↦ rw q (e (ground arith) ∙ ap s.pc (ground arith))
        | inr q ↦ rw q refl
      ]

      asleep_at : (j : ℕ) → k.asleep r.0.waiters j ≡ true → dozes (pc' j) ≡ true
      asleep_at j h = elim (effect j h) [
        | inl (_, o, a) ↦ ground (arith, o, v.in_wait j a)
        | inr (inl (e, d, _)) ↦ ground (arith, e, d)
        | inr (inr (a, _, e, _)) ↦ ap dozes (unmoved j e) ∙ v.in_wait j a
      ]

      calls :
          (j : ℕ)
          → k.asleep r.0.waiters j ≡ true
          → ((n : ℕ) × (pc' n ≡ u_notify_all)) ⊎ Called r.0 (pc' j)
      calls j h = elim (effect j h) [
        | inl (e, _, _) ↦ inl (i, ground (arith, e))
        | inr (inl (e, _, f)) ↦ inr (subst (Called r.0) (ground (arith, e)) f)
        | inr (inr (a, o, e, f)) ↦ elim (v.called j a) [
          | inl (n, q) ↦ inl (n, ground (arith, ap s.pc))
          | inr (g, q) ↦
              let (g', w) = f g in inr (g', λ n p x. q n (sym (unmoved j e) ∙ p) (sym w ∙ x))
        ]
      ]

  module _ (es : List (ℕ × Call)) where
    abbrev s : State Mem Pc
    s = reached k es

    reached-Covered : Covered s
    reached-Covered =
        run-keeps (next k) Covered step-Covered (started (ticket_futex_lock k) outside) es (record {
          reads = λ i. tt;
          in_wait = λ j h. absurd (cc (k.asleep-nobody j));
          called = λ j h. absurd (cc (k.asleep-nobody j));
        })

    -- No lost wakeup in `lock`, if fewer than 2^31 tickets have been drawn: while a thread sleeps in
    -- `lock`, a thread is in `notify_all` of its `unlock`, or `serving` has the flag that makes the
    -- next `unlock` wake the sleepers, and it is another thread's turn.
    pub no_lost_turn :
        s.mem.turns.taken < 2 ^ 31
        → (j n : ℕ) → k.asleep s.mem.waiters j ≡ true
        → s.pc j ≡ l_sleep n
        → ((i : ℕ) × (s.pc i ≡ u_notify_all))
          ⊎ ((is_flagged s.mem.serving ≡ true)
              × ((i : ℕ) × (has_ticket (role (s.pc i)) ≡ true)
                  × (s.mem.turns.ticket i ≡ s.mem.turns.served)
                  × (i ≢ j)))
    no_lost_turn few j n h at = elim (reached-Covered.called j h) [
      | inl e ↦ inl e
      | inr (f, other) ↦
          let v = reached-Inv k es few in
          let t = s.mem.turns in
          let mine = v.turn.mine j (ap (λ p. has_ticket (role p)) at) in
          let number : n ≡ 2 * t.ticket j = subst (Knows t j) at (v.knows j) in
          let later : t.served < t.ticket j =
            ground (arith, mine, number, other n at, v.words.now) in
          let (has, e) = v.turn.theirs t.served (omega arith) (omega (arith, later, mine.1)) in
          inr (f, (t.at t.served, has, e, λ q. absurd (omega (arith, later, e, ap t.ticket q))))
    ]
