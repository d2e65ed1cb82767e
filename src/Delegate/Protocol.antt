-- ===== src/Delegate/Protocol.antt =====
-- qdlock_base.hpp: what every trace of `delegate` keeps to.
use qd_library.Prelude.{
  ℕ, zero, suc, ◌+◌, ◌%◌, ◌^◌, ◌≤◌, ◌<◌, ◌≡◌, refl, ◌∙◌, Bool, true, false, not, ◌&&◌, Option, none,
  some, List, [], ◌∷◌, ◌++◌, arith, ltb, ◌==◌, Bool-cases, ◌⊎◌, inl, inr, ◌≢◌,
}
use qd_library.Delegate.{
  Status, success, full, closed, StarvationPolicy, may_starve, starvation_free, Action,
  wait_writers, wait_readers, try_lock, try_lock_or_wait, lock, unlock, global_lock, global_unlock,
  open_queue, flush_queue, enqueue, execute, pause, yield, Answers, try_enqueue, attempts, delegate,
  before, goes_on, attempt,
}

-- What the thread has: the mutex, the global lock, whether the readers are gone, whether it has opened the
-- queue, and how often its operation has been run or accepted by the queue.
pub record Has : Type 0 where
  pub mutex : Bool
  pub global : Bool
  pub alone : Bool
  pub opened : Bool
  pub done : ℕ

abbrev pub nothing : Has
nothing = record { mutex = false; global = false; alone = false; opened = false; done = 0 }

abbrev pub when : Bool → Has → Option Has
when true h = some h
when false h = none

-- The discipline: `none` is a call out of order. An operation runs under the mutex and the global
-- lock with no readers; the queue is opened and flushed under both; an operation that has been run
-- or accepted is never tried again; the locks are given back in the opposite order.
pub obey : Has → Action → Option Has
obey h wait_writers = when (not h.mutex) h
obey h wait_readers = when (h.mutex && h.global) (record h { alone = true })
obey h (try_lock got) = when (not h.mutex && h.done == 0) (record h { mutex = got })
obey h (try_lock_or_wait got) = when (not h.mutex && h.done == 0) (record h { mutex = got })
obey h lock = when (not h.mutex && h.done == 0) (record h { mutex = true })
obey h unlock =
    when (h.mutex && not h.global && not h.opened) (record h { mutex = false; alone = false })
obey h global_lock = when (h.mutex && not h.global) (record h { global = true })
obey h global_unlock = when (h.global && not h.opened) (record h { global = false })
obey h open_queue = when (h.mutex && h.global && not h.opened) (record h { opened = true })
obey h flush_queue = when (h.mutex && h.global && h.alone && h.opened) (record h { opened = false })
obey h (enqueue success) = when (not h.mutex && h.done == 0) (record h { done = 1 })
obey h (enqueue _) = when (not h.mutex && h.done == 0) h
obey h execute = when (h.mutex && h.global && h.alone && h.done == 0) (record h { done = 1 })
obey h pause = some h
obey h yield = when (not h.mutex) h

pub obeys : Has → List Action → Option Has
unfolding obey
obeys h [] = some h
obeys h (x ∷ xs) = elim (obey h x) [ none ↦ none | some h' ↦ obeys h' xs ]

abbrev pub finished : Has
finished = record nothing { done = 1 }

-- The trace obeys the discipline, and ends with the operation done once and nothing held.
abbrev pub Completes : Option (List Action) → Type 0
Completes none = ⊥
Completes (some trace) = obeys nothing trace ≡ some finished

abbrev pub Settles : Answers → ℕ → Type 0
Settles a retries = (a.queue retries 1 ≡ success) ⊎ (a.mutex retries ≡ true)

-- A prefix that leaves nothing held and nothing done changes nothing.
Completes-before :
    (tried : List Action) (later : Option (List Action))
    → ((rest : List Action) → obeys nothing (tried ++ rest) ≡ obeys nothing rest)
    → Completes later
    → Completes (before tried later)
Completes-before tried none h c = c
Completes-before tried (some later) h c = h later ∙ c

-- A round that neither enqueues nor locks.
fails : ℕ → Status → List Action
fails retries s = enqueue s ∷ pause ∷ attempt retries false ∷ yield ∷ []

obeys-fails :
    (retries : ℕ) (s : Status) (rest : List Action)
    → s ≢ success
    → obeys nothing (fails retries s ++ rest) ≡ obeys nothing rest
unfolding obeys fails
obeys-fails retries success rest h = absurd (h refl)
obeys-fails retries full rest h = ground arith
obeys-fails retries closed rest h = ground arith

try_enqueue-success :
    (answer : ℕ → Status)
    → answer 1 ≡ success
    → try_enqueue answer 1 1 ≡ (enqueue success ∷ [], true)
unfolding try_enqueue
try_enqueue-success answer e = rw (e, try_enqueue)

-- The trace of one attempt that does not succeed.
try_enqueue-fails :
    (answer : ℕ → Status) (s : Status)
    → answer 1 ≡ s
    → s ≢ success
    → try_enqueue answer 1 1 ≡ (enqueue s ∷ pause ∷ [], false)
unfolding try_enqueue
try_enqueue-fails answer success e h = absurd (h refl)
try_enqueue-fails answer full e h = rw (e, try_enqueue)
try_enqueue-fails answer closed e h = rw (e, try_enqueue)

Status-cases : (s : Status) → (s ≡ success) ⊎ (s ≢ success)
Status-cases success = inl refl
Status-cases full = inr (λ e. cc)
Status-cases closed = inr (λ e. cc)

module _ (policy : StarvationPolicy) (a : Answers) (fuel retries : ℕ)
    (g : goes_on policy retries ≡ true) where
  queued : a.queue retries 1 ≡ success → Completes (attempts policy a (suc fuel) retries)
  unfolding attempts obeys
  queued e = rw (g, try_enqueue-success (a.queue retries) e, attempts)

  locked :
      (s : Status)
      → a.queue retries 1 ≡ s
      → s ≢ success
      → a.mutex retries ≡ true
      → Completes (attempts policy a (suc fuel) retries)
  unfolding attempts obeys
  locked success e h m = absurd (h refl)
  locked full e h m =
      rw (g, try_enqueue-fails (a.queue retries) full e h, m, attempts) (ground arith)
  locked closed e h m =
      rw (g, try_enqueue-fails (a.queue retries) closed e h, m, attempts) (ground arith)

  again :
      (s : Status)
      → a.queue retries 1 ≡ s
      → s ≢ success
      → a.mutex retries ≡ false
      → Completes (attempts policy a fuel ((retries + 1) % 2 ^ 32))
      → Completes (attempts policy a (suc fuel) retries)
  unfolding attempts fails
  again s e h m c =
      rw (g, try_enqueue-fails (a.queue retries) s e h, m, attempts)
        (Completes-before (fails retries s) _ (λ rest. obeys-fails retries s rest h) c)

  -- A round ends the loop well, or the rest of the loop does.
  one_round :
      (Settles a retries ⊎ Completes (attempts policy a fuel ((retries + 1) % 2 ^ 32)))
      → Completes (attempts policy a (suc fuel) retries)
  one_round (inl (inl e)) = queued e
  one_round (inl (inr m)) = elim (Status-cases (a.queue retries 1)) [
    | inl e ↦ queued e
    | inr h ↦ locked (a.queue retries 1) refl h m
  ]
  one_round (inr c) = elim (Status-cases (a.queue retries 1)) [
    | inl e ↦ queued e
    | inr h ↦ elim (Bool-cases (a.mutex retries)) [
      | inl m ↦ locked (a.queue retries 1) refl h m
      | inr m ↦ again (a.queue retries 1) refl h m c
    ]
  ]

-- At 512 the loop ends, and the mutex is taken in any case.
attempts-fallback :
    (a : Answers) (fuel retries : ℕ)
    → goes_on starvation_free retries ≡ false
    → Completes (attempts starvation_free a (suc fuel) retries)
unfolding attempts obeys
attempts-fallback a fuel retries g = rw (g, attempts)

attempts_starvation_free :
    (a : Answers) (fuel retries : ℕ)
    → retries ≤ 512
    → 512 < fuel + retries
    → Completes (attempts starvation_free a fuel retries)
attempts_starvation_free a zero retries h f = absurd (omega arith)
attempts_starvation_free a (suc fuel) retries h f = elim (Bool-cases (ltb retries 512)) [
  | inl g ↦
      one_round starvation_free a fuel retries g (
        inr
          (attempts_starvation_free a fuel ((retries + 1) % 2 ^ 32) (ground arith) (ground arith)))
  | inr g ↦ attempts-fallback a fuel retries g
]

attempts_may_starve :
    (a : Answers) (n fuel retries : ℕ)
    → n < fuel
    → Settles a ((retries + n) % 2 ^ 32)
    → retries < 2 ^ 32
    → Completes (attempts may_starve a fuel retries)
attempts_may_starve a n zero retries f h r = absurd (omega arith)
attempts_may_starve a zero (suc fuel) retries f h r =
    let e : (retries + 0) % 2 ^ 32 ≡ retries = omega arith in
    one_round may_starve a fuel retries refl (inl (rw e at h))
attempts_may_starve a (suc n) (suc fuel) retries f h r =
    let e : (retries + suc n) % 2 ^ 32 ≡ ((retries + 1) % 2 ^ 32 + n) % 2 ^ 32 = omega arith in
    one_round may_starve a fuel retries refl (
      inr (
        attempts_may_starve a n fuel ((retries + 1) % 2 ^ 32) (omega arith) (rw e at h)
          (omega arith)))

-- Exactly once, and in order. With the policy `starvation_free`, whatever the mutex and the queue
-- answer, `delegate` returns after at most 511 rounds (fuel 512). Its trace obeys the discipline of
-- `obey`, the operation has been run by the thread itself or accepted by the queue exactly once,
-- and at the end the thread holds neither lock and the queue that it opened has been flushed.
pub delegate-Completes : (a : Answers) → Completes (delegate starvation_free a 512)
unfolding delegate obeys
delegate-Completes a = elim (Bool-cases a.first) [
  | inl e ↦ rw e refl
  | inr e ↦ rw e (
      Completes-before (wait_writers ∷ try_lock false ∷ []) _ (λ rest. refl)
        (attempts_starvation_free a 512 1 (omega arith) (omega arith)))
]

-- With the policy `may_starve`, if the queue accepts the operation or the mutex is taken in some
-- round, whose number may have wrapped at 2 ^ 32, `delegate` returns with fuel for one round more
-- than those before it: its trace obeys `obey`, the operation has been run or accepted exactly
-- once, and nothing is held at the end.
delegate_may_starve :
    (a : Answers) (n fuel : ℕ)
    → n < fuel
    → Settles a ((1 + n) % 2 ^ 32)
    → Completes (delegate may_starve a fuel)
unfolding delegate obeys
delegate_may_starve a n fuel f h = elim (Bool-cases a.first) [
  | inl e ↦ rw e refl
  | inr e ↦ rw e (
      Completes-before (wait_writers ∷ try_lock false ∷ []) _ (λ rest. refl)
        (attempts_may_starve a n fuel 1 f h (omega arith)))
]
