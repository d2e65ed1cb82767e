-- ===== src/Lock/Chain.antt =====
-- The chain of nodes that locks/mcs_lock.hpp and locks/mcs_futex_lock.hpp share: each thread that
-- comes for the lock puts its node behind the last one, and the owner hands the lock to the node
-- behind its own. Both locks refine the acts below.
pub mod Inv
pub mod Acts
pub mod Refine
use qd_library.Prelude.{
  ℕ, suc, ◌+◌, ◌≡◌, Bool, true, false, Option, none, some, ◌==◌, if◌then◌else◌,
}
use qd_library.Interleave.{update}

-- History: the threads that came take numbers in turn; `taken` have come, `served` have been
-- served and have left, `at` tells whose a number is, and `ticket` a thread's last number.
pub record Turns : Type 0 where
  pub served : ℕ
  pub taken : ℕ
  pub at : ℕ → ℕ
  pub ticket : ℕ → ℕ

abbrev pub no_turns : Turns
no_turns = record { served = 0; taken = 0; at = λ k. 0; ticket = λ i. 0 }

abbrev pub next_turn : ℕ → Turns → Turns
next_turn i t = record t {
  taken = t.taken + 1;
  at = update t.at t.taken i;
  ticket = update t.ticket i t.taken;
}

abbrev pub turn_over : Turns → Turns
turn_over t = record t { served = t.served + 1 }

-- The last node, and for each thread's node whether it is marked `free`, and its `next`.
pub record Chain : Type 0 where
  pub tail : Option ℕ
  pub free : ℕ → Bool
  pub next : ℕ → Option ℕ
  pub turns : Turns

-- Where a thread stands: marking its node, or linking it to the one before; waiting for the mark
-- `free`; owning the lock; about to read its `next`, which is there; about to give the lock to
-- another; about to reset its `next`. A thread that followed a null pointer would be broken.
pub data Stage : Type 0 where
  idle : Stage
  marking linking : ℕ → Stage
  waiting holding : Stage
  reading : Stage
  giving : ℕ → Stage
  leaving : Stage
  broken : Stage

pub data Act : Type 0 where
  nothing : Stage → Act
  come_first : Act
  come_after : ℕ → Act
  mark link : ℕ → Act
  notice : Act
  leave_last : Act
  see_next : Act
  find_next : ℕ → Act
  give : ℕ → Act
  reset : Act

abbrev pub source : Act → Stage
source (nothing s) = s
source come_first = idle
source (come_after p) = idle
source (mark p) = marking p
source (link p) = linking p
source notice = waiting
source leave_last = holding
source see_next = holding
source (find_next n) = reading
source (give n) = giving n
source reset = leaving

abbrev pub target : Act → Stage
target (nothing s) = s
target come_first = holding
target (come_after p) = marking p
target (mark p) = linking p
target (link p) = waiting
target notice = holding
target leave_last = idle
target see_next = reading
target (find_next n) = giving n
target (give n) = leaving
target reset = idle

abbrev pub is_some {ℓ} : {A : Type ℓ} → Option A → Bool
is_some none = false
is_some (some a) = true

-- What thread `i` finds when it acts.
abbrev pub Guard : ℕ → Act → Chain → Type 0
Guard i come_first c = c.tail ≡ none
Guard i (come_after p) c = c.tail ≡ some p
Guard i notice c = c.free i ≡ true
Guard i leave_last c = c.tail ≡ some i
Guard i see_next c = is_some (c.next i) ≡ true
Guard i (find_next n) c = c.next i ≡ some n
Guard i a c = Unit {0}

abbrev pub effect : ℕ → Act → Chain → Chain
effect i come_first c = record c { tail = some i; turns = next_turn i c.turns }
effect i (come_after p) c = record c { tail = some i; turns = next_turn i c.turns }
effect i (mark p) c = record c { free = update c.free i false }
effect i (link p) c = record c { next = update c.next p (some i) }
effect i leave_last c = record c { tail = none; turns = turn_over c.turns }
effect i (give n) c = record c { free = update c.free n true; turns = turn_over c.turns }
effect i reset c = record c { next = update c.next i none }
effect i a c = c
