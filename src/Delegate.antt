-- ===== src/Delegate.antt =====
-- qdlock_base.hpp, `delegate` with `helper`, `executor` and `try_enqueue`: what one thread does to
-- get its operation done. What the mutex and the queue answer is an argument; the result is the
-- trace of the thread's calls with their answers.
pub mod Protocol
mod Tests
use qd_library.Prelude.{
  ℕ, zero, suc, ◌+◌, ◌%◌, ◌^◌, ◌≡◌, Bool, true, false, ◌||◌, Option, none, some, List, [], ◌∷◌,
  ◌++◌, ltb, ◌==◌, if◌then◌else◌,
}

-- `DQueue::status`; OPEN and SUCCESS are the same number.
pub data Status : Type 0 where
  success full closed : Status

-- `starvation_policy_t`
pub data StarvationPolicy : Type 0 where
  may_starve starvation_free : StarvationPolicy

pub data Action : Type 0 where
  wait_writers wait_readers : Action  -- `RSync`
  try_lock try_lock_or_wait : Bool → Action
  lock unlock : Action
  global_lock global_unlock : Action  -- `HSync`
  open_queue flush_queue : Action
  enqueue : Status → Action
  execute : Action
  pause yield : Action

-- What the other threads make the mutex and the queue answer: to the first `try_lock`, and in each
-- round of the loop to the attempts to enqueue and to the attempt to lock.
pub record Answers : Type 0 where
  pub first : Bool
  pub queue : ℕ → ℕ → Status
  pub mutex : ℕ → Bool

pub helper : List Action
helper = global_lock ∷ open_queue ∷ wait_readers ∷ execute ∷ flush_queue ∷ global_unlock ∷ []

pub executor : List Action
executor = global_lock ∷ wait_readers ∷ execute ∷ global_unlock ∷ []

-- The loop of `try_enqueue`, with the attempts that are left.
pub try_enqueue : (ℕ → Status) → ℕ → ℕ → List Action × Bool
try_enqueue answer zero i = ([], false)
try_enqueue answer (suc left) i =
    let (trace, done) = try_enqueue answer left (i + 1) in
    elim (answer i) [
      | success ↦ (enqueue success ∷ [], true)
      | full ↦ (enqueue full ∷ pause ∷ trace, done)
      | closed ↦ (enqueue closed ∷ pause ∷ trace, done)
    ]

-- A trace with what was done before it.
abbrev pub before : List Action → Option (List Action) → Option (List Action)
before tried none = none
before tried (some later) = some (tried ++ later)

-- The loop's condition.
abbrev pub goes_on : StarvationPolicy → ℕ → Bool
goes_on may_starve retries = true
goes_on starvation_free retries = ltb retries 512

-- In every 128th round the thread may wait for the mutex.
abbrev pub attempt : ℕ → Bool → Action
attempt retries got = if retries % (127 + 1) == 0 then try_lock_or_wait got else try_lock got

-- `for(unsigned int retries = …; …; retries++)`, and what follows the loop. `none` says that the
-- fuel ran out.
pub attempts : StarvationPolicy → Answers → ℕ → ℕ → Option (List Action)
unfolding try_enqueue helper executor
attempts policy a zero retries = none
attempts policy a (suc fuel) retries =
    let (tried, queued) = try_enqueue (a.queue retries) 1 1 in
    let locking = attempt retries (a.mutex retries) in
    let again =
      before (tried ++ locking ∷ yield ∷ []) (attempts policy a fuel ((retries + 1) % 2 ^ 32)) in
    if goes_on policy retries
    then (if queued
        then some tried
        else if a.mutex retries
        then some (tried ++ locking ∷ (helper ++ unlock ∷ []))
        else again)
    else some (lock ∷ (executor ++ unlock ∷ []))

pub delegate : StarvationPolicy → Answers → ℕ → Option (List Action)
unfolding attempts
delegate policy a fuel =
    if a.first
    then some (wait_writers ∷ try_lock true ∷ (executor ++ unlock ∷ []))
    else before (wait_writers ∷ try_lock false ∷ []) (attempts policy a fuel 1)
