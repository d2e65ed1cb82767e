-- ===== src/Lock/TicketFutex/Order.antt =====
-- locks/ticket_futex_lock.hpp: one owner at a time, in the order of the tickets.
use qd_library.Prelude.{
  ℕ, ◌*◌, ◌^◌, ◌≤◌, ◌<◌, ◌≡◌, ◌≢◌, refl, inl, inr, true, false, List, arith, ◌==◌, Bool-cases,
}
use mathlib.Core.Path.{subst, fun_ext}
use qd_library.Interleave.{update, State, started, step, run, run-keeps}
use qd_library.Lock.Kernel.{Kernel}
use qd_library.Lock.TicketFutex.{
  TicketFutexLock, ticket_futex_lock, without_flag, Call, Pc, outside, next,
}
use qd_library.Lock.TicketFutex.Steps.{role, Knows, InWords, does, others, grows}
use qd_library.Lock.TicketFutex.Turn.{
  has_ticket, is_owner, InTurn, no_turns-InTurn, Turned-InTurn, owner-has_ticket, only_owner,
}

module _ (k : Kernel) where
  abbrev Mem : Type 0
  Mem = TicketFutexLock k.Queue

  role-update :
      (pc : ℕ → Pc) (i : ℕ) (p : Pc)
      → update (λ j. role (pc j)) i (role p) ≡ (λ j. role (update pc i p j))
  role-update pc i p = fun_ext λ j. ground arith

  pub record Inv (s : State Mem Pc) : Type 0 where
    pub turn : InTurn s.mem.turns (λ i. role (s.pc i))
    pub words : InWords s.mem.ticket s.mem.serving s.mem.turns
    pub knows : (i : ℕ) → Knows s.mem.turns i (s.pc i)

  alone :
      (s : State Mem Pc)
      → Inv s
      → (i j : ℕ) → i ≢ j
      → is_owner (role (s.pc i)) ≡ true
      → is_owner (role (s.pc j)) ≡ false
  alone s v i j d o = elim (Bool-cases (is_owner (role (s.pc j)))) [
    | inl e ↦ absurd (d (only_owner s.mem.turns (λ i. role (s.pc i)) v.turn i j o e))
    | inr e ↦ e
  ]

  abbrev Holds : State Mem Pc → Type 0
  Holds s = s.mem.turns.taken < 2 ^ 31 → Inv s

  step-Holds : (s : State Mem Pc) (i : ℕ) (c : Call) → Holds s → Holds (step (next k) s (i, c))
  unfolding step
  step-Holds s i c v few =
      let r = next k i c s.mem (s.pc i) in
      let w : Inv s = v (omega (arith, grows k i c s.mem (s.pc i), few)) in
      let (t, words, own) =
        does k i c s.mem (s.pc i) w.words (w.knows i) w.turn.ord
          (λ o. omega (arith, w.turn.mine i (owner-has_ticket (role (s.pc i)) o))) few in
      record {
        turn = subst (InTurn r.0.turns) (role-update s.pc i r.1) (
            Turned-InTurn (λ j. role (s.pc j)) i s.mem.turns r.0.turns (role (s.pc i)) (role r.1)
              w.turn refl t);
        words = words;
        knows = λ j. elim (Bool-cases (i == j)) [
          | inl e ↦ rw e (subst (λ n. Knows r.0.turns n r.1) (ground arith) own)
          | inr e ↦ rw e (
              others i j s.mem.turns r.0.turns (role (s.pc i)) (role r.1) (s.pc j) (ground arith)
                (λ o. alone s w i j (ground arith) o) (w.knows j) t)
        ];
      }

  module _ (es : List (ℕ × Call)) where
    abbrev pub reached : State Mem Pc
    reached = run (next k) (started (ticket_futex_lock k) outside) es

    pub reached-Inv : reached.mem.turns.taken < 2 ^ 31 → Inv reached
    reached-Inv =
        run-keeps (next k) Holds step-Holds (started (ticket_futex_lock k) outside) es (λ few.
          record {
            turn = no_turns-InTurn;
            words = record { drawn = refl; now = refl };
            knows = λ i. tt;
          })

    -- Whatever the schedule and the kernel do, at most one thread is between the return of a
    -- successful `lock`, `try_lock` or `try_lock_or_wait` and the exchange in its `unlock`, if the
    -- lock has been given fewer than 2^31 tickets.
    pub ticket-exclusive :
        reached.mem.turns.taken < 2 ^ 31
        → (i j : ℕ) → is_owner (role (reached.pc i)) ≡ true
        → is_owner (role (reached.pc j)) ≡ true
        → i ≡ j
    ticket-exclusive few =
        only_owner reached.mem.turns (λ i. role (reached.pc i)) (reached-Inv few).turn

    -- First come, first served: the owner drew its ticket no later than any thread that has drawn
    -- one and not come to the exchange in its `unlock`, if fewer than 2^31 have been drawn.
    ticket_in_order :
        reached.mem.turns.taken < 2 ^ 31
        → (i j : ℕ) → is_owner (role (reached.pc i)) ≡ true
        → has_ticket (role (reached.pc j)) ≡ true
        → reached.mem.turns.ticket i ≤ reached.mem.turns.ticket j
    ticket_in_order few i j a b =
        let v = (reached-Inv few).turn in omega (arith, v.first i a, (v.mine j b).0)

    -- `is_locked`, the two words differ, is exact but for the flag: with fewer than 2^31 tickets
    -- drawn, some thread has a ticket exactly if `ticket` and `serving` differ in more than the flag.
    ticket-held :
        reached.mem.turns.taken < 2 ^ 31
        → ((i : ℕ)
            → has_ticket (role (reached.pc i)) ≡ true
            → reached.mem.ticket ≢ without_flag reached.mem.serving)
          × (reached.mem.ticket ≢ without_flag reached.mem.serving
              → (i : ℕ) × (has_ticket (role (reached.pc i)) ≡ true)
                × (2 * reached.mem.turns.ticket i ≡ without_flag reached.mem.serving))
    ticket-held few =
        let v = reached-Inv few in
        let t = reached.mem.turns in
        (
          λ i h e. absurd (omega (arith, v.turn.mine i h, v.words.drawn, v.words.now, e)),
          λ d.
              let busy : t.served < t.taken =
                ground (arith, d, v.turn.ord, v.words.drawn, v.words.now) in
              let (h, e) = v.turn.theirs t.served (omega arith) busy in
              (t.at t.served, h, omega (arith, e, v.words.now)),
        )
