-- ===== src/Qd/Progress.antt =====
-- `qdlock_impl`: a helper does not wait for nothing.
use qd_library.Prelude.{
  none≢some, ℕ, zero, suc, ◌+◌, ◌≡◌, ◌≢◌, sym, ap, ◌∙◌, Bool, Option, some, List,
}
use qd_library.Interleave.{State}
use qd_library.Interleave.Total.{OfThreads}
use qd_library.Delegate.{StarvationPolicy}
use qd_library.Queue.DualBuffer
use qd_library.Queue.DualBuffer.{Wrappers, AtomicInstructionPolicy, f_spin}
use qd_library.Queue.DualBuffer.Slots.{target}
use qd_library.Queue.DualBuffer.Inv.{Fits}
use qd_library.Queue.DualBuffer.Progress.{awaited}
use qd_library.Qd.{QdLock, Call, Pc, h_flush}
use qd_library.Qd.View.{as_helper, as_enqueuer, helper_pc, queue_pc}
use qd_library.Qd.Owned.{holds, owns-some}
use qd_library.Qd.Simulation.{system}
use qd_library.Qd.Once.{queue-Inv, system-Owned}

module _ (w : Wrappers) (entries entry_size : ℕ) (policy : AtomicInstructionPolicy)
    (starvation : StarvationPolicy) (threads : ℕ)
    (fits : Fits w entries entry_size policy (threads + 1)) where
  abbrev reached : List (ℕ × Call w.Op) → State QdLock (Pc w.Op)
  reached = system w entries entry_size policy starvation

  abbrev aim : DualBuffer.Pc w.Op → Option ℕ
  aim = target w entries entry_size policy

  -- With every operation at most as large as the buffer and room for the additions of the threads in
  -- the counter: when the thread that flushes the queue waits for the function of slot `index`,
  -- which is not there, another thread is in the `enqueue` of its `delegate`, has reserved the slot
  -- and is before one of its two writes to it. So the thread does not wait for one that waits for
  -- the mutex, nor for itself.
  pub qd_not_stuck :
      (es : List (ℕ × Call w.Op)) (i : ℕ) (op : w.Op) (par index todo : ℕ) (more : Bool)
      → OfThreads threads es
      → (reached es).pc i ≡ h_flush op par (f_spin index todo more)
      → (reached es).mem.queue.cells.fun index ≡ 0
      → (j : ℕ) × (j ≢ i) × (aim (as_enqueuer ((reached es).pc j)) ≡ some index)
  qd_not_stuck es i op par index todo more t e z = found (
      awaited w entries entry_size policy (threads + 1) fits s.mem.queue (queue_pc s.mem.owner s.pc)
        index todo more (queue-Inv w entries entry_size policy starvation threads fits es t) waits
        z)
    where
      s : State QdLock (Pc w.Op)
      s = reached es

      waits : helper_pc s.mem.owner s.pc ≡ f_spin index todo more
      waits =
          ap (λ o. helper_pc o s.pc)
            (owns-some s.mem.owner i
              (sym (system-Owned w entries entry_size policy starvation es i) ∙ ap holds e))
          ∙ ap as_helper e

      found :
          (j : ℕ) × (aim (queue_pc s.mem.owner s.pc j) ≡ some index)
          → (j : ℕ) × (j ≢ i) × (aim (as_enqueuer (s.pc j)) ≡ some index)
      found (zero, h) = absurd (none≢some (sym (ap aim waits) ∙ h))
      found (suc j, h) = (
        j,
        (λ q. absurd (none≢some (sym (ap (λ p. aim (as_enqueuer p)) (ap s.pc q ∙ e)) ∙ h))),
        h,
      )
