-- ===== src/Qd/Simulation.antt =====
-- `qdlock_impl`: every run of it is, to its queue, a run of the queue.
use qd_library.Prelude.{
  ℕ, zero, suc, ◌+◌, ◌%◌, ◌^◌, ◌≡◌, refl, sym, ap, ◌∙◌, true, none, inl, inr, List, [], ◌∷◌, ◌++◌,
  Bool-cases,
}
use mathlib.Core.Path.{fun_ext}
use qd_library.Interleave.{State, started, step, run, run-append}
use qd_library.Interleave.Total.{OfThreads, OfThreads-append}
use qd_library.Delegate.{StarvationPolicy}
use qd_library.Queue.DualBuffer
use qd_library.Queue.DualBuffer.{Wrappers, AtomicInstructionPolicy, DualBufferQueue}
use qd_library.Queue.DualBuffer.Order.{fresh_queue}
use qd_library.Qd.{
  QdLock, qd_lock, Call, call_delegate, call_lock, call_unlock, Pc, outside, d_first, d_enqueue,
  d_try, d_last, x_run, x_unlock, h_open, h_run, h_flush, h_unlock, l_lock, held, is_outside,
  succeeds, enqueue_step, flush_step, next,
}
use qd_library.Qd.Owned.{holds, Owned, step-Owned}
use qd_library.Qd.View.{as_helper, as_enqueuer, queue_pc, is_outside-eq, events, events-OfThreads}
use qd_library.Qd.Seen.{Seen, tries_lock, enqueues, helps, rounds, idles, leaves}

module _ (w : Wrappers) (entries entry_size : ℕ) (policy : AtomicInstructionPolicy)
    (starvation : StarvationPolicy) where
  abbrev turn : ℕ → Call w.Op → QdLock → Pc w.Op → QdLock × Pc w.Op
  turn = next w entries entry_size policy starvation

  abbrev queue_turn :
      ℕ
      → DualBuffer.Call w.Op
      → DualBufferQueue
      → DualBuffer.Pc w.Op
      → DualBufferQueue × DualBuffer.Pc w.Op
  queue_turn = DualBuffer.next w entries entry_size policy

  abbrev pub queue_of : State QdLock (Pc w.Op) → State DualBufferQueue (DualBuffer.Pc w.Op)
  queue_of s = record { mem = s.mem.queue; pc = queue_pc s.mem.owner s.pc }

  module _ (s : State QdLock (Pc w.Op)) (own : Owned w entries entry_size policy starvation s)
      (i : ℕ) where
    abbrev SeenTurn : QdLock × Pc w.Op → Type 0
    SeenTurn (m', p') = Seen w entries entry_size policy starvation s i m'.queue m'.owner p'

    turn_seen : (c : Call w.Op) (p : Pc w.Op) → s.pc i ≡ p → SeenTurn (turn i c s.mem p)
    unfolding next DualBuffer.next
    turn_seen (call_delegate op par) outside e =
        idles w entries entry_size policy starvation s own i outside (d_first op par) _ _ e refl
          refl refl refl refl
    turn_seen call_lock outside e =
        idles w entries entry_size policy starvation s own i outside l_lock _ _ e refl refl refl
          refl refl
    turn_seen c outside e =
        idles w entries entry_size policy starvation s own i outside outside _ _ e refl refl refl
          refl refl
    turn_seen c (d_first op par) e =
        tries_lock w entries entry_size policy starvation s own i c (x_run op par) _
          (ap (λ p. events i p (x_run op par)) e) refl (sym (ap as_enqueuer e))
          (rounds w entries entry_size policy starvation s own i (d_first op par) op par 1 e refl
            refl refl refl)
    turn_seen c (d_enqueue op par retries p) e =
        let r = enqueue_step w entries entry_size policy starvation i s.mem.queue p in
        let ends : is_outside r.1 ≡ true → r ≡ (r.0, DualBuffer.outside) =
          λ o. ap (λ x. (r.0, x)) (is_outside-eq r.1 o) in
        elim (Bool-cases (is_outside r.1)) [
          | inl o ↦ elim (Bool-cases (succeeds p)) [
            | inl f ↦
                rw (o, f)
                  (enqueues w entries entry_size policy starvation s own i DualBuffer.call_flush p _
                    _ outside (ap (λ p. events i p outside) e) (ap as_enqueuer e) (ends o) refl
                    (sym (ap as_helper e)))
            | inr f ↦
                rw (o, f)
                  (enqueues w entries entry_size policy starvation s own i DualBuffer.call_flush p _
                    _ (d_try op par retries) (ap (λ p. events i p (d_try op par retries)) e)
                    (ap as_enqueuer e) (ends o) refl (sym (ap as_helper e)))
          ]
          | inr o ↦ rw o (
              enqueues w entries entry_size policy starvation s own i DualBuffer.call_flush p _ _
                (d_enqueue op par retries r.1)
                (ap (λ p. events i p (d_enqueue op par retries r.1)) e) (ap as_enqueuer e) refl refl
                (sym (ap as_helper e)))
        ]
    turn_seen c (d_try op par retries) e =
        tries_lock w entries entry_size policy starvation s own i c (h_open op par) _
          (ap (λ p. events i p (h_open op par)) e) refl (sym (ap as_enqueuer e))
          (rounds w entries entry_size policy starvation s own i (d_try op par retries) op par
            ((retries + 1) % 2 ^ 32) e refl refl refl refl)
    turn_seen c (d_last op par) e =
        tries_lock w entries entry_size policy starvation s own i c (x_run op par) _
          (ap (λ p. events i p (x_run op par)) e) refl (sym (ap as_enqueuer e))
          (idles w entries entry_size policy starvation s own i (d_last op par) (d_last op par) _ _
            e refl refl refl refl refl)
    turn_seen c (x_run op par) e =
        idles w entries entry_size policy starvation s own i (x_run op par) (x_unlock op par) _ _ e
          refl refl refl refl refl
    turn_seen c (x_unlock op par) e =
        leaves w entries entry_size policy starvation s own i (x_unlock op par) _ _ e refl refl refl
          refl refl refl
    turn_seen c (h_open op par) e =
        helps w entries entry_size policy starvation s own i DualBuffer.call_open DualBuffer.outside
          _ _ (h_run op par) (ap holds e) (ap (λ p. events i p (h_run op par)) e) (ap as_helper e)
          refl refl (sym (ap as_enqueuer e))
    turn_seen c (h_run op par) e =
        idles w entries entry_size policy starvation s own i (h_run op par)
          (h_flush op par DualBuffer.opened) _ _ e refl refl refl refl refl
    turn_seen c (h_flush op par p) e =
        let r = flush_step w entries entry_size policy starvation s.mem.queue p in
        elim (Bool-cases (is_outside r.1)) [
          | inl o ↦ rw o (
              helps w entries entry_size policy starvation s own i DualBuffer.call_flush p _ _
                (h_unlock op par) (ap holds e) (ap (λ p. events i p (h_unlock op par)) e)
                (ap as_helper e) (ap (λ x. (r.0, x)) (is_outside-eq r.1 o)) refl
                (sym (ap as_enqueuer e)))
          | inr o ↦ rw o (
              helps w entries entry_size policy starvation s own i DualBuffer.call_flush p _ _
                (h_flush op par r.1) (ap holds e) (ap (λ p. events i p (h_flush op par r.1)) e)
                (ap as_helper e) refl refl (sym (ap as_enqueuer e)))
        ]
    turn_seen c (h_unlock op par) e =
        leaves w entries entry_size policy starvation s own i (h_unlock op par) _ _ e refl refl refl
          refl refl refl
    turn_seen c l_lock e =
        tries_lock w entries entry_size policy starvation s own i c held l_lock
          (ap (λ p. events i p held) e) refl (sym (ap as_enqueuer e))
          (idles w entries entry_size policy starvation s own i l_lock l_lock _ _ e refl refl refl
            refl refl)
    turn_seen call_unlock held e =
        leaves w entries entry_size policy starvation s own i held _ _ e refl refl refl refl refl
          refl
    turn_seen c held e =
        idles w entries entry_size policy starvation s own i held held _ _ e refl refl refl refl
          refl

  abbrev Simulated : State QdLock (Pc w.Op) → List (ℕ × Call w.Op) → Type 0
  Simulated s es =
      (fs : List (ℕ × DualBuffer.Call w.Op)) × ((threads : ℕ)
        → OfThreads threads es
        → OfThreads (threads + 1) fs)
      × (queue_of (run turn s es) ≡ run queue_turn (queue_of s) fs)

  simulated :
      (s : State QdLock (Pc w.Op)) (es : List (ℕ × Call w.Op))
      → Owned w entries entry_size policy starvation s
      → Simulated s es
  unfolding run step
  simulated s [] own = ([], (λ n t. tt), refl)
  simulated s ((i, c) ∷ es) own =
      let s' = step turn s (i, c) in
      let (fs, t, e) =
        simulated s' es (step-Owned w entries entry_size policy starvation s i c own) in
      let now = events i (s.pc i) (turn i c s.mem (s.pc i)).1 in
      (
        now ++ fs,
        λ n t'.
            OfThreads-append (n + 1) now fs
              (events-OfThreads n i (s.pc i) (turn i c s.mem (s.pc i)).1 t'.0) (t n t'.1),
        e
            ∙ ap (λ q. run queue_turn q fs) (turn_seen s own i c (s.pc i) refl)
            ∙ sym (run-append queue_turn (queue_of s) now fs),
      )

  started_queue :
      queue_of (started (qd_lock entries) outside)
      ≡ started (fresh_queue entries) DualBuffer.outside
  started_queue = ap (λ pc. record { mem = fresh_queue entries; pc = pc }) (fun_ext at)
    where
      at : (j : ℕ) → queue_pc {Op = w.Op} none (λ _. outside) j ≡ DualBuffer.outside
      at zero = refl
      at (suc j) = refl

  abbrev pub system : List (ℕ × Call w.Op) → State QdLock (Pc w.Op)
  system es = run turn (started (qd_lock entries) outside) es

  -- However any number of threads call `delegate`, `lock` and `unlock`, what has become of the queue,
  -- and where the threads stand in its code, is what a schedule of the queue alone makes of it, in
  -- which all calls of `open` and `flush` are of one helper: the thread that has the mutex.
  pub qd_refines_queue :
      (es : List (ℕ × Call w.Op))
      → (fs : List (ℕ × DualBuffer.Call w.Op)) × ((threads : ℕ)
          → OfThreads threads es
          → OfThreads (threads + 1) fs)
        × (queue_of (system es)
            ≡ run queue_turn (started (fresh_queue entries) DualBuffer.outside) fs)
  qd_refines_queue es =
      let (fs, t, e) = simulated (started (qd_lock entries) outside) es (λ j. refl) in
      (fs, t, e ∙ ap (λ q. run queue_turn q fs) started_queue)
