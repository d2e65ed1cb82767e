-- ===== src/Delegate/Tests.antt =====
-- qdlock_base.hpp: two calls of `delegate`.
use qd_library.Prelude.{◌≡◌, refl, false, some, [], ◌∷◌, ◌==◌, if◌then◌else◌}
use qd_library.Delegate.{
  Answers, success, full, may_starve, starvation_free, delegate, attempts, try_enqueue, helper,
  executor, wait_writers, try_lock, enqueue, pause, yield,
}
use qd_library.Delegate.Protocol.{Completes, delegate-Completes}

-- The queue is full once, and takes the operation in the second round.
abbrev full_once : Answers
full_once = record {
  first = false;
  queue = λ retries i. if retries == 1 then full else success;
  mutex = λ retries. false;
}

queued :
    delegate may_starve full_once 2
    ≡ some (
        wait_writers
        ∷ try_lock false
        ∷ enqueue full
        ∷ pause
        ∷ try_lock false
        ∷ yield
        ∷ enqueue success
        ∷ [])
unfolding delegate attempts try_enqueue helper executor
queued = refl

delegate-Completes_example : Completes (delegate starvation_free full_once 512)
delegate-Completes_example = delegate-Completes full_once
