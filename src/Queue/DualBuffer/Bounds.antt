-- ===== src/Queue/DualBuffer/Bounds.antt =====
-- queues/dual_buffer_queue.hpp: where in the buffer `enqueue` writes.
use qd_library.Prelude.{
  ℕ, ◌+◌, ◌-◌, ◌^◌, ◌≤◌, ◌<◌, ◌≡◌, ◌≢◌, refl, sym, ap, ◌∙◌, ◌⊎◌, inl, inr, true, false, List, [],
  ◌∷◌, ◌++◌, ltb, leb, ◌==◌, Option, some, arith, Bool-cases,
}
use mathlib.Core.Path.{subst}
use native.Mathlib.Decide.{ℕ_discrete, dec_lt}
use qd_library.Queue.DualBuffer.{
  Wrappers, AtomicInstructionPolicy, Cells, Slot, Pc, e_load, e_claim, e_fill, e_publish,
  e_fill_no_op, e_publish_no_op, DualBufferQueue, Call, req, room, claim, next, use_fetch_and_add,
  use_compare_and_swap,
}
use qd_library.Queue.DualBuffer.Slots.{span, At, Sized, At-bounds, target, Writes, Ready, Laid}
use qd_library.Queue.DualBuffer.Core.{Writes-aims}
use qd_library.Interleave.Total.{OfThreads}
use qd_library.Queue.DualBuffer.Inv.{Fits, Sys, Inv}
use qd_library.Queue.DualBuffer.Order.{system, system-Inv}

module _ (w : Wrappers) (entries entry_size : ℕ) (policy : AtomicInstructionPolicy) where
  -- The number of slots that a thread has reserved and not published.
  abbrev pub extent : Pc w.Op → ℕ
  extent (e_fill index op par) = req w entries entry_size policy op
  extent (e_publish index op par) = req w entries entry_size policy op
  extent (e_fill_no_op index) = entries - index
  extent (e_publish_no_op index) = entries - index
  extent _ = 0

  Writes-extent :
      (c : Cells) (p : Pc w.Op) (x : Slot) (a : ℕ)
      → Writes w entries entry_size policy c p x a
      → x.size ≡ extent p
  Writes-extent c (e_fill index op par) x a h = ap (λ y. y.size) h.1
  Writes-extent c (e_publish index op par) x a h = ap (λ y. y.size) h.1
  Writes-extent c (e_fill_no_op index) x a h = ap (λ y. y.size) h.1
  Writes-extent c (e_publish_no_op index) x a h = ap (λ y. y.size) h.1
  Writes-extent c p x a h = absurd h

  -- A reservation in the list, with what follows it.
  slot_at :
      (c : Cells) (pc : ℕ → Pc w.Op) (xs : List Slot) (a b : ℕ)
      → At a xs b
      → Laid w entries entry_size policy c pc a xs
      → (x : Slot) × Ready w entries entry_size policy c pc x b × (b + x.size ≤ a + span xs)
  slot_at c pc [] a b h l = absurd h
  slot_at c pc (x ∷ rest) a b (inl e) l =
      (x, subst (Ready w entries entry_size policy c pc x) (sym e) l.0, omega arith)
  slot_at c pc (x ∷ rest) a b (inr h) l =
      let r = slot_at c pc rest (a + x.size) b h l.1 in (r.0, r.1, omega (arith, r.2))

  slots_apart :
      (c : Cells) (pc : ℕ → Pc w.Op) (xs : List Slot) (a b b' : ℕ)
      → Sized xs
      → At a xs b
      → At a xs b'
      → b < b'
      → Laid w entries entry_size policy c pc a xs
      → (x : Slot) × Ready w entries entry_size policy c pc x b × (b + x.size ≤ b')
  slots_apart c pc [] a b b' s h h' lt l = absurd h
  slots_apart c pc (x ∷ rest) a b b' s (inl e) (inl e') lt l = absurd (omega arith)
  slots_apart c pc (x ∷ rest) a b b' s (inl e) (inr h') lt l = (
    x,
    subst (Ready w entries entry_size policy c pc x) (sym e) l.0,
    omega (arith, At-bounds rest (a + x.size) b' s.1 h'),
  )
  slots_apart c pc (x ∷ rest) a b b' s (inr h) (inl e') lt l =
      absurd (omega (arith, At-bounds rest (a + x.size) b s.1 h))
  slots_apart c pc (x ∷ rest) a b b' s (inr h) (inr h') lt l =
      slots_apart c pc rest (a + x.size) b b' s.1 h h' lt l.1

module _ (w : Wrappers) (entries entry_size : ℕ) (policy : AtomicInstructionPolicy) (threads : ℕ)
    (fits : Fits w entries entry_size policy threads) where
  abbrev Reached : List (ℕ × Call w.Op) → Sys w entries entry_size policy threads
  Reached = system w entries entry_size policy threads fits

  abbrev reserved : Pc w.Op → Option ℕ
  reserved = target w entries entry_size policy

  abbrev slots : Pc w.Op → ℕ
  slots = extent w entries entry_size policy

  -- The reservation that is ready at a thread's slot is the thread's.
  owner :
      (s : Sys w entries entry_size policy threads)
      → Inv w entries entry_size policy threads s
      → (i a : ℕ) → reserved (s.pc i) ≡ some a
      → (x : Slot) → Ready w entries entry_size policy s.mem.cells s.pc x a
      → x.size ≡ slots (s.pc i)
  owner s v i a e x (inl r) = absurd (omega (arith, r.0, r.1, v.core.blank i a e))
  owner s v i a e x (inr (z, (j, h))) =
      let same =
        v.core.unique j i a (Writes-aims w entries entry_size policy s.mem.cells (s.pc j) x a h)
          e in
      Writes-extent w entries entry_size policy s.mem.cells (s.pc j) x a h
      ∙ ap (λ k. slots (s.pc k)) same

  -- However the threads take turns, with every operation at most as large as the buffer and room
  -- for their additions in the counter, the slots that a thread has reserved with `enqueue` and is
  -- about to fill lie within the buffer.
  enqueue_within :
      (es : List (ℕ × Call w.Op)) (i a : ℕ)
      → OfThreads threads es
      → reserved ((Reached es).pc i) ≡ some a
      → a + slots ((Reached es).pc i) ≤ entries
  enqueue_within es i a t e =
      let v = system-Inv w entries entry_size policy threads fits es t in
      let found =
        slot_at w entries entry_size policy (Reached es).mem.cells (Reached es).pc
          (Reached es).mem.pending (Reached es).mem.base a (v.core.targets i a e) v.core.laid in
      omega (arith, found.2, owner (Reached es) v i a e found.0 found.1, v.core.within)

  before_or_after :
      (s : Sys w entries entry_size policy threads)
      → Inv w entries entry_size policy threads s
      → (i j a b : ℕ) → reserved (s.pc i) ≡ some a
      → reserved (s.pc j) ≡ some b
      → a < b
      → a + slots (s.pc i) ≤ b
  before_or_after s v i j a b e e' lt =
      let found =
        slots_apart w entries entry_size policy s.mem.cells s.pc s.mem.pending s.mem.base a b
          v.core.sized (v.core.targets i a e) (v.core.targets j b e') lt v.core.laid in
      omega (arith, found.2, owner s v i a e found.0 found.1)

  -- However the threads take turns, with every operation at most as large as the buffer and room
  -- for their additions in the counter, the slots that two threads have reserved with `enqueue` and
  -- are about to fill do not overlap.
  enqueue_apart :
      (es : List (ℕ × Call w.Op)) (i j a b : ℕ)
      → OfThreads threads es
      → i ≢ j
      → reserved ((Reached es).pc i) ≡ some a
      → reserved ((Reached es).pc j) ≡ some b
      → (a + slots ((Reached es).pc i) ≤ b) ⊎ (b + slots ((Reached es).pc j) ≤ a)
  enqueue_apart es i j a b t ne e e' =
      let v = system-Inv w entries entry_size policy threads fits es t in
      elim (dec_lt a b) [
        | yes lt ↦ inl (before_or_after (Reached es) v i j a b e e' lt)
        | no ge ↦ inr (before_or_after (Reached es) v j i b a e' e (above v ge))
      ]
    where
      above : Inv w entries entry_size policy threads (Reached es) → ¬ (a < b) → b < a
      above v ge = elim (ℕ_discrete a b) [
        | yes same ↦ absurd (ne (v.core.unique i j a e (e' ∙ ap some (sym same))))
        | no other ↦ omega arith
      ]

module _ (w : Wrappers) (entries entry_size : ℕ) (policy : AtomicInstructionPolicy) where
  abbrev turn : Call w.Op → DualBufferQueue → Pc w.Op → DualBufferQueue × Pc w.Op
  turn c q p = next w entries entry_size policy 1 c q p

  -- An operation that needs more slots than the buffer has, both together below 2 ^ 32: on a queue
  -- whose counter is within the buffer, `enqueue` takes it
  -- for one that fits (`ENTRIES - req_entries` wraps), accepts it, and is about to fill slots
  -- beyond the end of the buffer.
  pub oversize_overruns :
      (q : DualBufferQueue) (op : w.Op) (par : ℕ) (c : Call w.Op)
      → entries < req w entries entry_size policy op
      → entries + req w entries entry_size policy op < 2 ^ 32
      → q.counter < entries
      → (turn c q (e_load op par) ≡ (q, e_claim q.counter op par))
        × ((turn c q (e_claim q.counter op par)).1 ≡ e_fill q.counter op par)
        × ((turn c q (e_claim q.counter op par)).0.accepted
            ≡ q.accepted ++ (w.address op, par) ∷ [])
        × (entries < q.counter + req w entries entry_size policy op)
  unfolding next
  oversize_overruns q op par c big small lt =
      let load : ltb (room w entries entry_size policy op) q.counter ≡ false =
        ground (arith, wide) in
      let fits : leb q.counter (room w entries entry_size policy op) ≡ true =
        ground (arith, wide) in
      (rw load refl, (accepts policy fits).0, (accepts policy fits).1, omega arith)
    where
      wide : q.counter < room w entries entry_size policy op
      wide = omega arith

      accepts :
          (how : AtomicInstructionPolicy)
          → leb q.counter (room w entries entry_size policy op) ≡ true
          → ((claim w entries entry_size policy how q.counter op par q).1 ≡ e_fill q.counter op par)
            × ((claim w entries entry_size policy how q.counter op par q).0.accepted
                ≡ q.accepted ++ (w.address op, par) ∷ [])
      accepts use_fetch_and_add h = rw h (refl, refl)
      accepts use_compare_and_swap h = elim (Bool-cases (q.counter == q.counter)) [
        | inl same ↦ rw (same, h) (refl, refl)
        | inr other ↦ absurd (ground arith)
      ]
