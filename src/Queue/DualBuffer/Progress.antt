-- ===== src/Queue/DualBuffer/Progress.antt =====
-- queues/dual_buffer_queue.hpp: the helper that waits in `flush` for a function waits for a thread
-- that is about to store it.
use qd_library.Prelude.{
  some_eq, ℕ, ◌<◌, ◌≡◌, ◌≢◌, sym, ap, ◌∙◌, inl, inr, Bool, true, false, List, [], ◌∷◌, some, arith,
}
use mathlib.Core.Path.{subst}
use qd_library.Interleave.{update}
use qd_library.Queue.DualBuffer.{
  Wrappers, AtomicInstructionPolicy, Slot, Pc, e_fill, e_publish, e_fill_no_op, e_publish_no_op,
  f_spin, DualBufferQueue, Call, call_enqueue, call_open, call_flush, next,
}
use qd_library.Queue.DualBuffer.Slots.{span, Edge-bounds, target, Laid}
use qd_library.Queue.DualBuffer.Core.{Writes-aims}
use qd_library.Queue.DualBuffer.Phase.{Phase}
use qd_library.Interleave.{step, run}
use qd_library.Interleave.Total.{OfThreads}
use qd_library.Queue.DualBuffer.Inv.{Fits, Sys, Inv}
use qd_library.Queue.DualBuffer.Order.{system, system-Inv}

module _ (w : Wrappers) (entries entry_size : ℕ) (policy : AtomicInstructionPolicy) (threads : ℕ)
    (fits : Fits w entries entry_size policy threads) where
  abbrev Turn : ℕ → Call w.Op → DualBufferQueue → Pc w.Op → DualBufferQueue × Pc w.Op
  Turn = next w entries entry_size policy

  abbrev Reached : List (ℕ × Call w.Op) → Sys w entries entry_size policy threads
  Reached = system w entries entry_size policy threads fits

  update_same : {A : Type 0} (f : ℕ → A) (i : ℕ) (a : A) → update f i a i ≡ a
  update_same f i a = ground arith

  abbrev after_two : ℕ → Call w.Op → Call w.Op → DualBufferQueue → Pc w.Op → DualBufferQueue
  after_two i c d q p = (Turn i d (Turn i c q p).0 (Turn i c q p).1).0

  two_moves :
      (i index : ℕ) (c d : Call w.Op) (q : DualBufferQueue) (p : Pc w.Op)
      → i ≢ 0
      → target w entries entry_size policy p ≡ some index
      → (after_two i c d q p).cells.fun index ≢ 0
  unfolding next
  two_moves i index c d q (e_fill a op par) ne aim z =
      let at : a ≡ index = some_eq aim in absurd (ground (arith, w.address_pos op))
  two_moves i index c (call_enqueue op' par') q (e_publish a op par) ne aim z =
      let at : a ≡ index = some_eq aim in absurd (ground (arith, w.address_pos op))
  two_moves i index c call_flush q (e_publish a op par) ne aim z =
      let at : a ≡ index = some_eq aim in absurd (ground (arith, w.address_pos op))
  two_moves i index c call_open q (e_publish a op par) ne aim z =
      let at : a ≡ index = some_eq aim in absurd (ground (arith, w.address_pos op))
  two_moves i index c d q (e_fill_no_op a) ne aim z =
      let at : a ≡ index = some_eq aim in absurd (ground (arith, w.no_op_pos))
  two_moves i index c (call_enqueue op' par') q (e_publish_no_op a) ne aim z =
      let at : a ≡ index = some_eq aim in absurd (ground (arith, w.no_op_pos))
  two_moves i index c call_flush q (e_publish_no_op a) ne aim z =
      let at : a ≡ index = some_eq aim in absurd (ground (arith, w.no_op_pos))
  two_moves i index c call_open q (e_publish_no_op a) ne aim z =
      let at : a ≡ index = some_eq aim in absurd (ground (arith, w.no_op_pos))
  two_moves i index c d q p ne aim z = absurd (cc)

  -- Two turns of a thread that has reserved a slot publish it.
  two_turns :
      (s : Sys w entries entry_size policy threads) (i index : ℕ) (c d : Call w.Op)
      → i ≢ 0
      → target w entries entry_size policy (s.pc i) ≡ some index
      → (run Turn s ((i, c) ∷ (i, d) ∷ [])).mem.cells.fun index ≢ 0
  unfolding run step
  two_turns s i index c d ne aim =
      rw (update_same s.pc i) (two_moves i index c d s.mem (s.pc i) ne aim)

  -- The oldest reservation, if it has not been published, belongs to a thread.
  writer :
      (q : DualBufferQueue) (pc : ℕ → Pc w.Op)
      → Inv w entries entry_size policy threads (record { mem = q; pc = pc })
      → (xs : List Slot) → 0 < span xs
      → Laid w entries entry_size policy q.cells pc q.base xs
      → q.cells.fun q.base ≡ 0
      → (j : ℕ) × (target w entries entry_size policy (pc j) ≡ some q.base)
  writer q pc v [] pos l z = absurd (omega arith)
  writer q pc v (x ∷ rest) pos l z = elim (l.0) [
    | inl r ↦ absurd (omega (arith, r.0, r.1))
    | inr r ↦ (r.1.0, Writes-aims w entries entry_size policy q.cells (pc r.1.0) x q.base r.1.1)
  ]

  waits :
      (q : DualBufferQueue) (index todo : ℕ) (more : Bool)
      → Phase w entries q (f_spin index todo more)
      → (index ≡ q.base) × (0 < span q.pending)
  waits q index todo true h =
      (h.1, omega (arith, Edge-bounds q.pending q.base todo h.0.1, h.1, h.2))
  waits q index todo false h = (h.1, omega (arith, h.0.1, h.1, h.2))

  -- The function that the helper waits for is about to be stored by a thread.
  pub awaited :
      (q : DualBufferQueue) (pc : ℕ → Pc w.Op) (index todo : ℕ) (more : Bool)
      → Inv w entries entry_size policy threads (record { mem = q; pc = pc })
      → pc 0 ≡ f_spin index todo more
      → q.cells.fun index ≡ 0
      → (j : ℕ) × (target w entries entry_size policy (pc j) ≡ some index)
  awaited q pc index todo more v e z =
      let at = waits q index todo more (subst (Phase w entries q) e v.phase) in
      let other = writer q pc v q.pending at.1 v.core.laid (ap q.cells.fun (sym at.0) ∙ z) in
      (other.0, other.1 ∙ ap some (sym at.0))

  -- However the threads take turns, with every operation at most as large as the buffer and room
  -- for their additions in the counter: when the helper waits in `flush` for the function of slot
  -- `index`, which is not there, another thread has reserved the slot and is about to store the
  -- function: after its next two turns, whatever it calls, the function is there.
  pub flush_not_stuck :
      (es : List (ℕ × Call w.Op)) (index todo : ℕ) (more : Bool) (c d : Call w.Op)
      → OfThreads threads es
      → (Reached es).pc 0 ≡ f_spin index todo more
      → (Reached es).mem.cells.fun index ≡ 0
      → (i : ℕ) × (i ≢ 0) × ((run Turn (Reached es) ((i, c) ∷ (i, d) ∷ [])).mem.cells.fun index ≢ 0)
  flush_not_stuck es index todo more c d t e z =
      let v = system-Inv w entries entry_size policy threads fits es t in
      let (j, aim) = awaited (Reached es).mem (Reached es).pc index todo more v e z in
      let apart : j ≢ 0 = λ k. absurd (cc) in
      (j, apart, two_turns (Reached es) j index c d apart aim)
