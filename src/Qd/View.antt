-- ===== src/Qd/View.antt =====
-- `qdlock_impl`: what it makes of its queue is a schedule of the queue, whose helper is the thread
-- that has the mutex.
use qd_library.Prelude.{
  ℕ, zero, suc, ◌+◌, ◌<◌, ◌≡◌, refl, sym, ap, ◌∙◌, true, none, some, inl, inr, List, [], ◌∷◌, arith,
  ◌==◌, Bool-cases,
}
use mathlib.Core.Path.{fun_ext}
use qd_library.Interleave.{update}
use qd_library.Interleave.Total.{OfThreads}
use qd_library.Lock.{Owner}
use qd_library.Queue.DualBuffer
use qd_library.Queue.DualBuffer.{Wrappers, AtomicInstructionPolicy, DualBufferQueue}
use qd_library.Qd.{Pc, d_enqueue, h_open, h_run, h_flush, is_outside}

-- Where a thread stands in the queue's code: as the helper, and as one that enqueues.
abbrev pub as_helper : {Op : Type 0} → Pc Op → DualBuffer.Pc Op
as_helper (h_run op par) = DualBuffer.opened
as_helper (h_flush op par p) = p
as_helper p = DualBuffer.outside

abbrev pub as_enqueuer : {Op : Type 0} → Pc Op → DualBuffer.Pc Op
as_enqueuer (d_enqueue op par retries p) = p
as_enqueuer p = DualBuffer.outside

-- What the thread that has the mutex is given by `f`.
abbrev pub at_owner {ℓ} : {Op : Type 0} {A : Type ℓ} → (Pc Op → A) → A → Owner → (ℕ → Pc Op) → A
at_owner f d none pc = d
at_owner f d (some i) pc = f (pc i)

-- The helper of the queue is its thread 0; the others follow.
abbrev pub helper_pc : {Op : Type 0} → Owner → (ℕ → Pc Op) → DualBuffer.Pc Op
helper_pc o pc = at_owner as_helper DualBuffer.outside o pc

abbrev pub queue_pc : {Op : Type 0} → Owner → (ℕ → Pc Op) → ℕ → DualBuffer.Pc Op
queue_pc o pc zero = helper_pc o pc
queue_pc o pc (suc i) = as_enqueuer (pc i)

module _ {Op : Type 0} where
  pub is_outside-eq : (p : DualBuffer.Pc Op) → is_outside p ≡ true → p ≡ DualBuffer.outside
  is_outside-eq DualBuffer.outside h = refl
  is_outside-eq p h = absurd (cc)

  updated : (pc : ℕ → Pc Op) (i : ℕ) (p : Pc Op) → update pc i p i ≡ p
  updated pc i p = ground arith

  pub queue_pc-still :
      (o o' : Owner) (pc : ℕ → Pc Op) (i : ℕ) (p : Pc Op)
      → helper_pc o' (update pc i p) ≡ helper_pc o pc
      → as_enqueuer p ≡ as_enqueuer (pc i)
      → queue_pc o' (update pc i p) ≡ queue_pc o pc
  queue_pc-still o o' pc i p h e = fun_ext at
    where
      at : (j : ℕ) → queue_pc o' (update pc i p) j ≡ queue_pc o pc j
      at zero = h
      at (suc j) = ground (arith, e)

  pub queue_pc-enqueuer :
      (o o' : Owner) (pc : ℕ → Pc Op) (i : ℕ) (p : Pc Op)
      → helper_pc o' (update pc i p) ≡ helper_pc o pc
      → queue_pc o' (update pc i p) ≡ update (queue_pc o pc) (suc i) (as_enqueuer p)
  queue_pc-enqueuer o o' pc i p h = fun_ext at
    where
      at :
          (j : ℕ) → queue_pc o' (update pc i p) j ≡ update (queue_pc o pc) (suc i) (as_enqueuer p) j
      at zero = h ∙ ground arith
      at (suc j) = ground arith

  pub queue_pc-helper :
      (o : Owner) (pc : ℕ → Pc Op) (i : ℕ) (p : Pc Op)
      → o ≡ some i
      → as_enqueuer p ≡ as_enqueuer (pc i)
      → queue_pc o (update pc i p) ≡ update (queue_pc o pc) 0 (as_helper p)
  queue_pc-helper o pc i p h e = fun_ext at
    where
      at : (j : ℕ) → queue_pc o (update pc i p) j ≡ update (queue_pc o pc) 0 (as_helper p) j
      at zero = ap (λ o. helper_pc o (update pc i p)) h ∙ ap as_helper (updated pc i p)
      at (suc j) = ground (arith, e)

  -- What the owner is given stays: the owner stays, comes, or goes.
  module _ {ℓ} {A : Type ℓ} (f : Pc Op → A) (d : A) (o : Owner) (pc : ℕ → Pc Op) (i : ℕ) where
    pub owner-stays :
        (p : Pc Op) → f p ≡ f (pc i) → at_owner f d o (update pc i p) ≡ at_owner f d o pc
    owner-stays p e = stays o
      where
        stays : (o : Owner) → at_owner f d o (update pc i p) ≡ at_owner f d o pc
        stays none = refl
        stays (some k) = elim (Bool-cases (i == k)) [
          | inl h ↦ let k_is : i ≡ k = ground arith in rw h (e ∙ ap (λ k. f (pc k)) k_is)
          | inr h ↦ rw h refl
        ]

    pub owner-comes :
        (p : Pc Op) → o ≡ none → f p ≡ d → at_owner f d (some i) (update pc i p) ≡ at_owner f d o pc
    owner-comes p e h = ap f (updated pc i p) ∙ h ∙ sym (ap (λ o. at_owner f d o pc) e)

    pub owner-goes : o ≡ some i → f (pc i) ≡ d → d ≡ at_owner f d o pc
    owner-goes e h = sym (ap (λ o. at_owner f d o pc) e ∙ h)

  -- What a step of thread `i` is to the queue.
  abbrev pub events : ℕ → Pc Op → Pc Op → List (ℕ × DualBuffer.Call Op)
  events i (d_enqueue op par retries p) p' = (suc i, DualBuffer.call_flush) ∷ []
  events i (h_open op par) p' = (0, DualBuffer.call_open) ∷ []
  events i (h_flush op par p) p' = (0, DualBuffer.call_flush) ∷ []
  events i p (d_enqueue op par retries p') = (suc i, DualBuffer.call_enqueue op par) ∷ []
  events i p p' = []

  pub events-OfThreads :
      (threads i : ℕ) (p p' : Pc Op) → i < threads → OfThreads (threads + 1) (events i p p')
  events-OfThreads threads i (d_enqueue op par retries p) p' h = (omega arith, tt)
  events-OfThreads threads i (h_open op par) p' h = (omega arith, tt)
  events-OfThreads threads i (h_flush op par p) p' h = (omega arith, tt)
  events-OfThreads threads i p (d_enqueue op par retries p') h = (omega arith, tt)
  events-OfThreads threads i p p' h = tt
