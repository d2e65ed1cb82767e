-- ===== src/Qd/Once.antt =====
-- `qdlock_impl`: each operation is run once, by one thread at a time.
use qd_library.Prelude.{
  some_eq, ℕ, suc, ◌+◌, ◌≡◌, refl, sym, ap, ◌∙◌, true, false, none, some, List, [], ◌++◌, arith,
}
use mathlib.Core.Path.{subst}
use mathlib.Core.Quot
use mathlib.Core.Quot.{Quot}
use qd_library.Interleave.{State, started, run-keeps}
use qd_library.Interleave.Total.{OfThreads, total, total-zero, total-zeros, run-keeps_of}
use qd_library.Lock.{owns}
use qd_library.Delegate.{StarvationPolicy}
use qd_library.Queue.DualBuffer
use qd_library.Queue.DualBuffer.{Wrappers, AtomicInstructionPolicy, e_fill, e_publish}
use qd_library.Queue.DualBuffer.Slots.{calls, At, target}
use qd_library.Queue.DualBuffer.Inv.{Fits, Inv, is_helper}
use qd_library.Queue.DualBuffer.Order.{system-Inv, Closed-empty}
use qd_library.Qd.{QdLock, qd_lock, Call, Pc, outside, d_enqueue, x_unlock, h_flush, h_unlock, next}
use qd_library.Qd.View.{as_enqueuer, helper_pc}
use qd_library.Qd.Owned.{holds, Owned, step-Owned, owns-some}
use qd_library.Qd.Simulation.{queue_of, system, qd_refines_queue}
use qd_library.Qd.Account.{count, count-append, is_filling}
use qd_library.Qd.Balance.{in_flight, Books, step-Books}

-- The same operations, each as often.
abbrev pub SameOperations : List (ℕ × ℕ) → List (ℕ × ℕ) → Type 0
SameOperations xs ys = (x : ℕ × ℕ) → count x xs ≡ count x ys

-- Operations with their parameters, in no order.
abbrev pub Bag : Type 0
Bag = Quot SameOperations

abbrev pub bag : List (ℕ × ℕ) → Bag
bag xs = Quot.mk xs

module _ (w : Wrappers) (entries entry_size : ℕ) (policy : AtomicInstructionPolicy)
    (starvation : StarvationPolicy) where
  abbrev turn : ℕ → Call w.Op → QdLock → Pc w.Op → QdLock × Pc w.Op
  turn = next w entries entry_size policy starvation

  abbrev reached : List (ℕ × Call w.Op) → State QdLock (Pc w.Op)
  reached = system w entries entry_size policy starvation

  pub system-Owned :
      (es : List (ℕ × Call w.Op)) → Owned w entries entry_size policy starvation (reached es)
  system-Owned es =
      run-keeps turn (Owned w entries entry_size policy starvation)
        (step-Owned w entries entry_size policy starvation) (started (qd_lock entries) outside) es
        (λ j. refl)

  -- However any number of threads call `delegate`, `lock` and `unlock`, at every moment at most one
  -- thread is between the lock of the mutex and its unlock, where it runs its own operation, or
  -- those of the queue, or the code between `lock` and `unlock`.
  pub qd_exclusive :
      (es : List (ℕ × Call w.Op)) (i j : ℕ)
      → holds ((reached es).pc i) ≡ true
      → holds ((reached es).pc j) ≡ true
      → i ≡ j
  qd_exclusive es i j h g = some_eq (sym (owner i h) ∙ owner j g)
    where
      owner : (k : ℕ) → holds ((reached es).pc k) ≡ true → (reached es).mem.owner ≡ some k
      owner k h = owns-some (reached es).mem.owner k (sym (system-Owned es k) ∙ h)

  module _ (threads : ℕ) (fits : Fits w entries entry_size policy (threads + 1)) where
    pub queue-Inv :
        (es : List (ℕ × Call w.Op))
        → OfThreads threads es
        → Inv w entries entry_size policy
            (threads + 1)
            (queue_of w entries entry_size policy starvation (reached es))
    queue-Inv es t =
        let (fs, of, e) = qd_refines_queue w entries entry_size policy starvation es in
        subst (Inv w entries entry_size policy (threads + 1)) (sym e)
          (system-Inv w entries entry_size policy (threads + 1) fits fs (of threads t))

    pub system-Books :
        (x : ℕ × ℕ) (es : List (ℕ × Call w.Op))
        → OfThreads threads es
        → Books w entries entry_size policy starvation x threads (reached es)
    system-Books x es t =
        run-keeps_of turn threads (Books w entries entry_size policy starvation x threads)
          (step-Books w entries entry_size policy starvation x threads)
          (started (qd_lock entries) outside) es t
          (
            (λ j. tt),
            omega (
              arith,
              total-zero (in_flight w entries entry_size policy starvation x) threads outside refl,
            ),
          )

    -- However `threads` threads call `delegate`, `lock` and `unlock`, with every operation at most as
    -- large as the buffer and room for their additions in the counter, at every moment, for every
    -- operation with its parameters: the times that it has been run, and that it waits in the queue,
    -- are the times that a `delegate` of it has returned, and the threads whose `delegate` of it has
    -- not returned, but has run it or had it accepted by the queue.
    pub qd_accounted :
        (es : List (ℕ × Call w.Op)) (x : ℕ × ℕ)
        → OfThreads threads es
        → count x (reached es).mem.executed + count x (calls w.no_op (reached es).mem.queue.pending)
          ≡ count x (reached es).mem.returned
            + total (in_flight w entries entry_size policy starvation x) threads (reached es).pc
    qd_accounted es x t =
        let q = (reached es).mem.queue in
        let waiting = calls w.no_op q.pending in
        let order : q.accepted ≡ q.log ++ waiting = (queue-Inv es t).core.order in
        omega (arith, (system-Books x es t).1, ap (count x) order, count-append x q.log waiting)

    -- Nobody fills a slot while no reservation waits.
    not_filling :
        (es : List (ℕ × Call w.Op)) (j : ℕ)
        → OfThreads threads es
        → (reached es).mem.queue.pending ≡ []
        → is_filling (as_enqueuer ((reached es).pc j)) ≡ false
    not_filling es j t nil = at (as_enqueuer ((reached es).pc j)) refl
      where
        v :
            Inv w entries entry_size policy
              (threads + 1)
              (queue_of w entries entry_size policy starvation (reached es))
        v = queue-Inv es t

        none_at : (a : ℕ) → At (reached es).mem.queue.base (reached es).mem.queue.pending a → ⊥
        none_at a h = subst (λ l. At (reached es).mem.queue.base l a) nil h

        at : (p : DualBuffer.Pc w.Op) → as_enqueuer ((reached es).pc j) ≡ p → is_filling p ≡ false
        at (e_fill index op par) e = absurd (
            none_at index
              (v.core.targets (suc j) index (ap (target w entries entry_size policy) e)))
        at (e_publish index op par) e = absurd (
            none_at index
              (v.core.targets (suc j) index (ap (target w entries entry_size policy) e)))
        at p e = refl

    -- A thread without the mutex that fills no slot owes nothing.
    nothing_owed :
        (x : ℕ × ℕ) (p : Pc w.Op)
        → holds p ≡ false
        → is_filling (as_enqueuer p) ≡ false
        → in_flight w entries entry_size policy starvation x p ≡ 0
    nothing_owed x (d_enqueue op par retries p) h f = rw f refl
    nothing_owed x (x_unlock op par) h f = absurd (cc)
    nothing_owed x (h_flush op par p) h f = absurd (cc)
    nothing_owed x (h_unlock op par) h f = absurd (cc)
    nothing_owed x p h f = refl

    -- With every operation at most as large as the buffer and room for the additions of the threads
    -- in the counter: whenever nobody has the mutex, the operations that have been run, by
    -- themselves or out of the queue, are those whose `delegate` has returned, each exactly as often;
    -- no operation is lost, run twice or made up.
    pub qd_exactly_once :
        (es : List (ℕ × Call w.Op))
        → OfThreads threads es
        → (reached es).mem.owner ≡ none
        → bag (reached es).mem.executed ≡ bag (reached es).mem.returned
    qd_exactly_once es t free = Quot.sound same
      where
        nil : (reached es).mem.queue.pending ≡ []
        nil =
            Closed-empty w entries entry_size policy (threads + 1) fits (reached es).mem.queue
              (helper_pc (reached es).mem.owner (reached es).pc)
              (ap (λ o. is_helper (helper_pc o (reached es).pc)) free) (queue-Inv es t).phase

        idle :
            (x : ℕ × ℕ) (j : ℕ)
            → in_flight w entries entry_size policy starvation x ((reached es).pc j) ≡ 0
        idle x j =
            nothing_owed x ((reached es).pc j) (system-Owned es j ∙ ap (λ o. owns o j) free)
              (not_filling es j t nil)

        same : SameOperations (reached es).mem.executed (reached es).mem.returned
        same x = omega (
          arith,
          qd_accounted es x t,
          total-zeros (in_flight w entries entry_size policy starvation x) threads (reached es).pc
              (idle x),
          ap (λ l. count x (calls w.no_op l)) nil,
        )
