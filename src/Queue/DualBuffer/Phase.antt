-- ===== src/Queue/DualBuffer/Phase.antt =====
-- queues/dual_buffer_queue.hpp: what holds at each point of the helper's `open` and `flush`.
use qd_library.Prelude.{
  ℕ, ◌+◌, ◌≤◌, ◌<◌, ◌≡◌, ◌≢◌, refl, sym, ap, ◌∙◌, inl, inr, Bool, true, false, List, [], ◌∷◌, ◌++◌,
  ltb, if◌then◌else◌, arith, Bool-cases,
}
use mathlib.Core.Path.{subst}
use qd_library.Queue.DualBuffer.{
  Wrappers, Cells, Slot, Pc, opened, f_load, f_exchange, f_spin, f_call, f_clear, DualBufferQueue,
  f_next, min_,
}
use qd_library.Queue.DualBuffer.Slots.{span, At, Edge, Sized, Edge-old, Edge-bounds}

module _ (w : Wrappers) (entries : ℕ) where
  -- While the queue is open, the reserved part ends at `counter`, or at the end of the buffer.
  abbrev pub Open : DualBufferQueue → Type 0
  Open q = q.base + span q.pending ≡ min_ q.counter entries

  abbrev pub Closed : DualBufferQueue → Type 0
  Closed q = (entries ≤ q.counter) × (q.pending ≡ []) × ((a : ℕ) → a < entries → q.cells.fun a ≡ 0)

  -- The `for` loop goes up to `todo`; the flag is the local variable `open`.
  abbrev pub Runs : Bool → DualBufferQueue → ℕ → Type 0
  Runs true q todo = Open q × Edge q.base q.pending todo
  Runs false q todo = (entries ≤ q.counter) × (todo ≡ q.base + span q.pending)

  abbrev pub Phase : DualBufferQueue → Pc w.Op → Type 0
  Phase q opened = Open q × (q.base ≡ 0)
  Phase q (f_load done) = Open q × (done ≡ q.base)
  Phase q (f_exchange done) = Open q × (done ≡ q.base)
  Phase q (f_spin index todo more) = Runs more q todo × (index ≡ q.base) × (index < todo)
  Phase q (f_call index fun todo more) =
      Runs more q todo × (index ≡ q.base) × (index < todo) × (q.cells.fun index ≡ fun) × (fun ≢ 0)
  Phase q (f_clear todo) = (entries ≤ q.counter) × (q.pending ≡ []) × (todo ≡ q.base)
  Phase q _ = Closed q

  span-zero : (xs : List Slot) → Sized xs → span xs ≡ 0 → xs ≡ []
  span-zero [] s e = refl
  span-zero (x ∷ xs) s e = absurd (omega (arith, s.0))

  pub Phase-next :
      (q : DualBufferQueue) (index todo : ℕ) (more : Bool)
      → Sized q.pending
      → index ≡ q.base
      → Runs more q todo
      → Phase q (f_next index todo more)
  Phase-next q index todo more s e r = elim (Bool-cases (ltb index todo)) [
    | inl lt ↦ rw lt (r, e, ground arith)
    | inr ge ↦ rw ge (stops more (ground arith) r)
  ]
    where
      stops :
          (b : Bool)
          → todo ≤ index
          → Runs b q todo
          → Phase q (if b then f_load todo else f_clear todo)
      stops true le h =
          let bounds = Edge-bounds q.pending q.base todo h.1 in (h.0, omega (arith, bounds))
      stops false le h =
          let empty : span q.pending ≡ 0 = omega (arith, h.1) in
          (h.0, span-zero q.pending s empty, omega (arith, h.1))

  abbrev reserve : DualBufferQueue → ℕ → List (ℕ × ℕ) → Slot → DualBufferQueue
  reserve q counter accepted x = record q {
    counter = counter;
    accepted = accepted;
    pending = q.pending ++ x ∷ [];
  }

  -- A reservation by another thread, which finds the queue open.
  pub Phase-claim :
      (q : DualBufferQueue) (counter : ℕ) (accepted : List (ℕ × ℕ)) (x : Slot) (p : Pc w.Op)
      → q.counter < entries
      → (Open q → Open (reserve q counter accepted x))
      → Phase q p
      → Phase (reserve q counter accepted x) p
  Phase-claim q counter accepted x opened lt still h = (still h.0, h.1)
  Phase-claim q counter accepted x (f_load done) lt still h = (still h.0, h.1)
  Phase-claim q counter accepted x (f_exchange done) lt still h = (still h.0, h.1)
  Phase-claim q counter accepted x (f_spin index todo true) lt still h =
      ((still h.0.0, Edge-old q.pending x q.base todo h.0.1), h.1, h.2)
  Phase-claim q counter accepted x (f_spin index todo false) lt still h = absurd (omega arith)
  Phase-claim q counter accepted x (f_call index fun todo true) lt still h =
      ((still h.0.0, Edge-old q.pending x q.base todo h.0.1), h.1, h.2, h.3, h.4)
  Phase-claim q counter accepted x (f_call index fun todo false) lt still h = absurd (omega arith)
  Phase-claim q counter accepted x p lt still h = absurd (omega arith)

  -- An addition to the counter of a full or closed queue.
  pub Phase-late :
      (q : DualBufferQueue) (counter : ℕ) (p : Pc w.Op)
      → entries ≤ q.counter
      → entries ≤ counter
      → Phase q p
      → Phase (record q { counter = counter }) p
  Phase-late q counter opened h k f = (ground arith, f.1)
  Phase-late q counter (f_load done) h k f = (ground arith, f.1)
  Phase-late q counter (f_exchange done) h k f = (ground arith, f.1)
  Phase-late q counter (f_spin index todo true) h k f = ((ground arith, f.0.1), f.1, f.2)
  Phase-late q counter (f_spin index todo false) h k f = ((k, f.0.1), f.1, f.2)
  Phase-late q counter (f_call index fun todo true) h k f =
      ((ground arith, f.0.1), f.1, f.2, f.3, f.4)
  Phase-late q counter (f_call index fun todo false) h k f = ((k, f.0.1), f.1, f.2, f.3, f.4)
  Phase-late q counter p h k f = (k, f.1, f.2)

  -- A write of a thread that has reserved a slot not yet published.
  pub Phase-write :
      (q : DualBufferQueue) (c : Cells) (index : ℕ) (p : Pc w.Op)
      → At q.base q.pending index
      → q.cells.fun index ≡ 0
      → ((a : ℕ) → a ≢ index → c.fun a ≡ q.cells.fun a)
      → Phase q p
      → Phase (record q { cells = c }) p
  Phase-write q c index opened at blank off h = h
  Phase-write q c index (f_load done) at blank off h = h
  Phase-write q c index (f_exchange done) at blank off h = h
  Phase-write q c index (f_spin i todo true) at blank off h = h
  Phase-write q c index (f_spin i todo false) at blank off h = h
  Phase-write q c index (f_call i fun todo true) at blank off h =
      (h.0, h.1, h.2, off i (λ e. h.4 (sym h.3 ∙ ap q.cells.fun e ∙ blank)) ∙ h.3, h.4)
  Phase-write q c index (f_call i fun todo false) at blank off h =
      (h.0, h.1, h.2, off i (λ e. h.4 (sym h.3 ∙ ap q.cells.fun e ∙ blank)) ∙ h.3, h.4)
  Phase-write q c index p at blank off h = absurd (subst (λ l. At q.base l index) h.1 at)

  -- A counter within the buffer is that of an open queue.
  pub Phase-open :
      (q : DualBufferQueue) (p : Pc w.Op)
      → q.counter < entries
      → Phase q p
      → q.base + span q.pending ≡ q.counter
  Phase-open q opened lt h = ground arith
  Phase-open q (f_load done) lt h = ground arith
  Phase-open q (f_exchange done) lt h = ground arith
  Phase-open q (f_spin index todo true) lt h = let o = h.0.0 in ground arith
  Phase-open q (f_spin index todo false) lt h = absurd (omega arith)
  Phase-open q (f_call index fun todo true) lt h = let o = h.0.0 in ground arith
  Phase-open q (f_call index fun todo false) lt h = absurd (omega arith)
  Phase-open q p lt h = absurd (omega arith)
