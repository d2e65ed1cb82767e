-- ===== src/Qd/Linear/Order.antt =====
-- `qdlock_impl`: operations take effect in one order, each during its `delegate`.
use qd_library.Prelude.{ℕ, ◌+◌, ◌<◌, ◌≡◌, refl, sym, ap, ◌∙◌, inl, inr, List, [], ◌∷◌, ◌++◌}
use mathlib.Core.Path.{subst}
use mathlib.Core.List.{append-nil, append_assoc}
use qd_library.Interleave.{State, started, step, run, run-append}
use qd_library.Interleave.Total.{OfThreads, OfThreads-append}
use qd_library.Delegate.{StarvationPolicy}
use qd_library.Queue.DualBuffer.{Wrappers, AtomicInstructionPolicy}
use qd_library.Queue.DualBuffer.Inv.{Fits}
use qd_library.Queue.DualBuffer.Order.{Closed-empty}
use qd_library.Qd.{QdLock, qd_lock, Call, Pc, outside, next}
use qd_library.Qd.View.{helper_pc}
use qd_library.Qd.Simulation.{system}
use qd_library.Qd.Once.{system-Owned, queue-Inv, system-Books}
use qd_library.Qd.Linear.{Grows, delegated, order, Kept}
use qd_library.Qd.Linear.Steps.{turn_grows}

module _ (w : Wrappers) (entries entry_size : ℕ) (policy : AtomicInstructionPolicy)
    (starvation : StarvationPolicy) (threads : ℕ)
    (fits : Fits w entries entry_size policy (threads + 1)) where
  abbrev turn : ℕ → Call w.Op → QdLock → Pc w.Op → QdLock × Pc w.Op
  turn = next w entries entry_size policy starvation

  abbrev reached : List (ℕ × Call w.Op) → State QdLock (Pc w.Op)
  reached = system w entries entry_size policy starvation

  reached-snoc :
      (es : List (ℕ × Call w.Op)) (i : ℕ) (c : Call w.Op)
      → reached (es ++ (i, c) ∷ []) ≡ step turn (reached es) (i, c)
  unfolding run
  reached-snoc es i c = run-append turn (started (qd_lock entries) outside) es ((i, c) ∷ [])

  -- With every operation at most as large as the buffer and room for the additions of the threads in
  -- the counter, in every reachable state: a step of a thread keeps the order of the operations, those
  -- that have been run, then the helper's own one, then those that wait in the queue; or it appends
  -- one operation at its end, that of the `delegate` that the thread is in. So operations take effect
  -- in one order, each between the call of its `delegate` and the return.
  pub qd_linearized :
      (es : List (ℕ × Call w.Op)) (i : ℕ) (c : Call w.Op)
      → OfThreads threads es
      → i < threads
      → Grows
          (delegated w entries entry_size policy starvation ((reached es).pc i))
          (order w entries entry_size policy starvation (reached es))
          (order w entries entry_size policy starvation (step turn (reached es) (i, c)))
  unfolding step
  qd_linearized es i c t lt =
      let s = reached es in
      let v = queue-Inv w entries entry_size policy starvation threads fits es t in
      let later =
        (queue-Inv w entries entry_size policy starvation threads fits (es ++ (i, c) ∷ [])
          (OfThreads-append threads es ((i, c) ∷ []) t (lt, tt))).core.order in
      turn_grows w entries entry_size policy starvation s
        (system-Owned w entries entry_size policy starvation es) i v.core.order
        (λ h.
          Closed-empty w entries entry_size policy (threads + 1) fits s.mem.queue
            (helper_pc s.mem.owner s.pc) h v.phase)
        c (s.pc i) refl
        ((system-Books w entries entry_size policy starvation threads fits (0, 0) es t).0 i)
        (subst (λ s. Kept w entries entry_size policy starvation s.mem.queue) (reached-snoc es i c)
          later)

  -- With every operation at most as large as the buffer and room for the additions of the threads in
  -- the counter: the order of the operations at one moment is the beginning of the order at every
  -- later moment; nothing in it is moved, taken out or put between.
  pub qd_order_kept :
      (es fs : List (ℕ × Call w.Op))
      → OfThreads threads es
      → OfThreads threads fs
      → (rest : List (ℕ × ℕ)) × (order w entries entry_size policy starvation (reached (es ++ fs))
          ≡ order w entries entry_size policy starvation (reached es) ++ rest)
  qd_order_kept es [] t u = (
    [],
    ap (λ es. order w entries entry_size policy starvation (reached es)) (append-nil es)
        ∙ sym (append-nil (order w entries entry_size policy starvation (reached es))),
  )
  qd_order_kept es ((i, c) ∷ fs) t u =
      let (rest, e) =
        qd_order_kept (es ++ (i, c) ∷ []) fs (OfThreads-append threads es ((i, c) ∷ []) t (u.0, tt))
          u.1 in
      let later =
        ap (λ es. order w entries entry_size policy starvation (reached es))
          (sym (append_assoc es ((i, c) ∷ []) fs))
        ∙ e
        ∙ ap (λ s. order w entries entry_size policy starvation s ++ rest) (reached-snoc es i c) in
      elim (qd_linearized es i c t u.0) [
        | inl g ↦ (rest, later ∙ ap (λ l. l ++ rest) g)
        | inr (x, h, g) ↦ (
          x ∷ rest,
          later
              ∙ ap (λ l. l ++ rest) g
              ∙ append_assoc (order w entries entry_size policy starvation (reached es)) (x ∷ [])
                  rest,
        )
      ]
