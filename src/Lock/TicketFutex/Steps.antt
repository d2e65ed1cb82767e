-- ===== src/Lock/TicketFutex/Steps.antt =====
-- locks/ticket_futex_lock.hpp: what one step does to the turns, and what the numbers in the words say of them.
use qd_library.Prelude.{
  ℕ, ◌+◌, ◌*◌, ◌^◌, ◌≤◌, ◌<◌, ◌≡◌, ◌≢◌, refl, sym, ◌∙◌, inl, inr, true, false, arith, ◌==◌,
  if◌then◌else◌, Bool-cases,
}
use mathlib.Core.Path.{subst}
use qd_library.Lock.Kernel.{Kernel}
use qd_library.Lock.Chain.{Turns, next_turn, turn_over}
use qd_library.Lock.TicketFutex.{
  TicketFutexLock, draw, int, is_flagged, without_flag, or_flag, wake_at_once, l_round, w_round,
  Call, call_lock, call_try_lock, call_try_lock_or_wait, call_unlock, wakes_early, Pc, outside,
  l_draw, l_load, l_flag, l_wait, l_sleep, t_ticket, t_serving, t_swap, w_ticket, w_serving, w_swap,
  w_flag, w_wait, w_sleep, inside, u_load, u_swap, u_notify_all, next,
}
use qd_library.Lock.TicketFutex.Turn.{
  Role, away, waits, owns, is_owner, Turned, stays, draws, enters, begins, ends,
}

abbrev pub role : Pc → Role
role (l_load n) = waits
role (l_flag n s) = waits
role (l_wait n s) = waits
role (l_sleep n) = waits
role inside = owns
role u_load = owns
role (u_swap mine) = owns
role p = away

-- What the numbers that thread `i` has read say of its turn.
abbrev pub Knows : Turns → ℕ → Pc → Type 0
Knows t i (l_load n) = n ≡ 2 * t.ticket i
Knows t i (l_flag n s) = n ≡ 2 * t.ticket i
Knows t i (l_wait n s) = n ≡ 2 * t.ticket i
Knows t i (l_sleep n) = n ≡ 2 * t.ticket i
Knows t i (t_swap n) = n ≤ 2 * t.served + 1
Knows t i (w_swap n s) = n ≤ 2 * t.served + 1
Knows t i (u_swap mine) = without_flag mine ≡ 2 * t.served
Knows t i p = Unit

role-w_round : (s : ℕ) → role (w_round s) ≡ away
role-w_round s = elim (Bool-cases (is_flagged s)) [ inl e ↦ rw e refl | inr e ↦ rw e refl ]

Knows-w_round : (t : Turns) (i s : ℕ) → Knows t i (w_round s)
Knows-w_round t i s = elim (Bool-cases (is_flagged s)) [ inl e ↦ rw e tt | inr e ↦ rw e tt ]

Knows-draw : (t : Turns) (i j : ℕ) (q : Pc) → i ≢ j → Knows t j q → Knows (next_turn i t) j q
Knows-draw t i j (l_load n) d h = ground (arith, d, h)
Knows-draw t i j (l_flag n s) d h = ground (arith, d, h)
Knows-draw t i j (l_wait n s) d h = ground (arith, d, h)
Knows-draw t i j (l_sleep n) d h = ground (arith, d, h)
Knows-draw t i j (t_swap n) d h = h
Knows-draw t i j (w_swap n s) d h = h
Knows-draw t i j (u_swap n) d h = h
Knows-draw t i j q d h = tt

-- Beside `ticket` and `serving`, the turns. All numbers are below the wrap-around.
pub record InWords (ticket serving : ℕ) (t : Turns) : Type 0 where
  pub drawn : ticket ≡ 2 * t.taken
  pub now : without_flag serving ≡ 2 * t.served

Turned-l_round :
    (t : Turns) (i n c : ℕ)
    → n ≡ 2 * t.ticket i
    → without_flag c ≡ 2 * t.served
    → Turned i t waits t (role (l_round n c)) × Knows t i (l_round n c)
Turned-l_round t i n c e f = elim (Bool-cases (without_flag c == n)) [
  | inl h ↦ rw h (begins (ground arith), tt)
  | inr h ↦ elim (Bool-cases (is_flagged c)) [
    | inl g ↦ rw (h, g) (stays waits, e)
    | inr g ↦ rw (h, g) (stays waits, e)
  ]
]

-- What another thread has read says as much after the step.
pub others :
    (i j : ℕ) (t t' : Turns) (r r' : Role) (q : Pc)
    → i ≢ j
    → (is_owner r ≡ true → is_owner (role q) ≡ false)
    → Knows t j q
    → Turned i t r t' r'
    → Knows t' j q
others i j t _ _ _ q d o h (stays r) = h
others i j t _ _ _ q d o h draws = Knows-draw t i j q d h
others i j t _ _ _ q d o h (enters e) = Knows-draw t i j q d h
others i j t _ _ _ q d o h (begins e) = h
others i j t _ _ _ (t_swap n) d o h ends = omega (arith, h)
others i j t _ _ _ (w_swap n s) d o h ends = omega (arith, h)
others i j t _ _ _ (u_swap n) d o h ends = absurd (cc (o refl))
others i j t _ _ _ q d o h ends = h

module _ (k : Kernel) where
  abbrev Mem : Type 0
  Mem = TicketFutexLock k.Queue

  abbrev Does : ℕ → Turns → Pc → Mem → Pc → Type 0
  Does i t p m' p' =
      Turned i t (role p) m'.turns (role p')
      × InWords m'.ticket m'.serving m'.turns
      × Knows m'.turns i p'

  stay :
      (i : ℕ) (m : Mem) (p p' : Pc)
      → InWords m.ticket m.serving m.turns
      → role p' ≡ role p
      → Knows m.turns i p'
      → Does i m.turns p m p'
  stay i m p p' w e h = (subst (Turned i m.turns (role p) m.turns) (sym e) (stays (role p)), w, h)

  -- The compare-exchange of `ticket`, of the last steps of `try_lock` and `try_lock_or_wait`.
  takes :
      (i : ℕ) (m : Mem) (n : ℕ) (other p : Pc)
      → role p ≡ away
      → InWords m.ticket m.serving m.turns
      → n ≤ 2 * m.turns.served + 1
      → m.turns.served ≤ m.turns.taken
      → role other ≡ away
      → Knows m.turns i other
      → let r : Mem × Pc = if m.ticket == n then (draw k i m, inside) else (m, other) in
        r.0.turns.taken < 2 ^ 31 → Does i m.turns p r.0 r.1
  takes i m n other p a w h o e q r = elim (Bool-cases (m.ticket == n)) [
    | inl t ↦
        let few : m.turns.taken + 1 < 2 ^ 31 = ground (arith, t, r) in
        rw (t, a)
          (
            enters (ground (arith, w.drawn)),
            record { drawn = ground (arith, w.drawn); now = w.now },
            tt,
          )
    | inr t ↦ rw (t) (stay i m p other w (e ∙ sym a) q)
  ]

  pub does :
      (i : ℕ) (c : Call) (m : Mem) (p : Pc)
      → InWords m.ticket m.serving m.turns
      → Knows m.turns i p
      → m.turns.served ≤ m.turns.taken
      → (is_owner (role p) ≡ true → m.turns.served < m.turns.taken)
      → (next k i c m p).0.turns.taken < 2 ^ 31
      → Does i m.turns p (next k i c m p).0 (next k i c m p).1
  unfolding next
  does i call_lock m outside w h o b r = stay i m outside l_draw w refl tt
  does i call_try_lock m outside w h o b r = stay i m outside t_ticket w refl tt
  does i call_try_lock_or_wait m outside w h o b r = stay i m outside w_ticket w refl tt
  does i c m outside w h o b r = stay i m outside outside w refl tt
  does i c m l_draw w h o b r =
      (draws, record { drawn = ground (arith, w.drawn); now = w.now }, ground (arith, w.drawn))
  does i c m (l_load n) w h o b r =
      let (a, q) = Turned-l_round m.turns i n m.serving h w.now in (a, w, q)
  does i c m (l_flag n s) w h o b r = elim (Bool-cases (m.serving == s)) [
    | inl e ↦ rw e (stays waits, record { drawn = w.drawn; now = ground (arith, w.now) }, h)
    | inr e ↦ rw e (let (a, q) = Turned-l_round m.turns i n m.serving h w.now in (a, w, q))
  ]
  does i c m (l_wait n s) w h o b r = elim (Bool-cases (m.serving == s)) [
    | inl e ↦ rw e (stays waits, w, h)
    | inr e ↦ rw e (stays waits, w, h)
  ]
  does i wakes_early m (l_sleep n) w h o b r = (stays waits, w, h)
  does i c m (l_sleep n) w h o b r = elim (Bool-cases (k.asleep m.waiters i)) [
    | inl e ↦ rw e (stays waits, w, h)
    | inr e ↦ rw e (stays waits, w, h)
  ]
  does i c m t_ticket w h o b r = stay i m t_ticket (t_serving m.ticket) w refl tt
  does i c m (t_serving n) w h o b r = elim (Bool-cases (n == m.serving)) [
    | inl e ↦ rw e (stays away, w, ground (arith, w.now))
    | inr e ↦ rw e (stays away, w, tt)
  ]
  does i c m (t_swap n) w h o b r = takes i m n outside (t_swap n) refl w h o refl tt r
  does i c m w_ticket w h o b r = stay i m w_ticket (w_serving m.ticket) w refl tt
  does i c m (w_serving n) w h o b r = elim (Bool-cases (or_flag n m.serving == m.serving)) [
    | inl e ↦ rw e (stays away, w, ground (arith, w.now))
    | inr e ↦
        rw e
          (stay i m (w_serving n) _ w (role-w_round m.serving) (Knows-w_round m.turns i m.serving))
  ]
  does i c m (w_swap n s) w h o b r =
      takes i m n (w_round s) (w_swap n s) refl w h o (role-w_round s) (Knows-w_round m.turns i s) r
  does i c m (w_flag s) w h o b r = elim (Bool-cases (m.serving == s)) [
    | inl e ↦ rw e (stays away, record { drawn = w.drawn; now = ground (arith, w.now) }, tt)
    | inr e ↦ rw e (stays away, w, tt)
  ]
  does i c m (w_wait s) w h o b r = elim (Bool-cases (m.serving == s)) [
    | inl e ↦ rw e (stays away, w, tt)
    | inr e ↦ rw e (stays away, w, tt)
  ]
  does i wakes_early m w_sleep w h o b r = (stays away, w, tt)
  does i c m w_sleep w h o b r = elim (Bool-cases (k.asleep m.waiters i)) [
    | inl e ↦ rw e (stays away, w, tt)
    | inr e ↦ rw e (stays away, w, tt)
  ]
  does i call_unlock m inside w h o b r = stay i m inside u_load w refl tt
  does i c m inside w h o b r = stay i m inside inside w refl tt
  does i c m u_load w h o b r = stay i m u_load (u_swap m.serving) w refl w.now
  does i c m (u_swap mine) w h o b r =
      let past : InWords m.ticket (int (without_flag mine + 2)) (turn_over m.turns) = record {
        drawn = w.drawn;
        now = ground (arith, h, b refl);
      } in
      elim (Bool-cases (is_flagged m.serving)) [
        | inl e ↦ rw e (ends, past, tt)
        | inr e ↦ rw e (ends, past, tt)
      ]
  does i c m u_notify_all w h o b r =
      elim (Bool-cases ((k.wake m.waiters wake_at_once).1 == wake_at_once)) [
        | inl e ↦ rw e (stays away, w, tt)
        | inr e ↦ rw e (stays away, w, tt)
      ]

  pub grows : (i : ℕ) (c : Call) (m : Mem) (p : Pc) → m.turns.taken ≤ (next k i c m p).0.turns.taken
  unfolding next
  grows i c m l_draw = omega arith
  grows i c m (l_flag n s) = ground arith
  grows i c m (l_wait n s) = ground arith
  grows i c m (t_swap n) = ground arith
  grows i c m (w_swap n s) = ground arith
  grows i c m (w_flag s) = ground arith
  grows i c m (w_wait s) = ground arith
  grows i c m p = ground arith
