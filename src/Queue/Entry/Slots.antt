-- ===== src/Queue/Entry/Slots.antt =====
-- `entry_array` of queues/entry_queue.hpp between one `open` and the next: who fills a slot, and
-- which slots have been called and cleared.
use qd_library.Prelude.{
  ℕ, zero, suc, ◌+◌, ◌-◌, ◌≤◌, ◌<◌, ◌≡◌, refl, ap, ◌⊎◌, List, [], ◌∷◌, ◌++◌, arith,
}
use qd_library.Interleave.{update}

-- The functions and the parameters of the slots. History: the calls that `flush` has made and the
-- operations that `enqueue` has accepted, ever; and since the last `open` how many slots have been
-- reserved, called and cleared, for which operation and by which thread a slot was reserved.
pub record Session : Type 0 where
  pub fun : ℕ → ℕ
  pub params : ℕ → ℕ
  pub log : List (ℕ × ℕ)
  pub accepted : List (ℕ × ℕ)
  pub reserved : ℕ
  pub called : ℕ
  pub cleared : ℕ
  pub claim_fun : ℕ → ℕ
  pub claim_params : ℕ → ℕ
  pub writer : ℕ → ℕ

abbrev pub new_session : Session
new_session = record {
  fun = λ k. 0;
  params = λ k. 0;
  log = [];
  accepted = [];
  reserved = 0;
  called = 0;
  cleared = 0;
  claim_fun = λ k. 0;
  claim_params = λ k. 0;
  writer = λ k. 0;
}

-- A thread that has reserved a slot for a function and its parameters, before and after it has
-- written the parameters.
pub data Role : Type 0 where
  idle : Role
  filling filled : ℕ → ℕ → ℕ → Role

abbrev pub accept : ℕ → ℕ → ℕ → ℕ → Session → Session
accept i k fun par s = record s {
  accepted = s.accepted ++ (fun, par) ∷ [];
  reserved = s.reserved + 1;
  claim_fun = update s.claim_fun k fun;
  claim_params = update s.claim_params k par;
  writer = update s.writer k i;
}

abbrev pub fill : ℕ → ℕ → Session → Session
fill k par s = record s { params = update s.params k par }

abbrev pub publish : ℕ → ℕ → Session → Session
publish k fun s = record s { fun = update s.fun k fun }

abbrev pub restart : Session → Session
restart s = record s { reserved = 0; called = 0; cleared = 0 }

abbrev pub call : ℕ → ℕ → Session → Session
call k fun s = record s { log = s.log ++ (fun, s.params k) ∷ []; called = s.called + 1 }

abbrev pub clear : ℕ → Session → Session
clear k s = record s { fun = update s.fun k 0; cleared = s.cleared + 1 }

-- The operations of so many slots from one on.
abbrev pub claims : (ℕ → ℕ) → (ℕ → ℕ) → ℕ → ℕ → List (ℕ × ℕ)
claims fun params k zero = []
claims fun params k (suc n) = (fun k, params k) ∷ claims fun params (k + 1) n

abbrev pub waiting : Session → List (ℕ × ℕ)
waiting s = claims s.claim_fun s.claim_params s.called (s.reserved - s.called)

-- The thread that has reserved a slot is at work on it.
abbrev pub AtWork : Session → ℕ → Role → Type 0
AtWork s i idle = Unit {0}
AtWork s i (filling k fun par) =
    (s.called ≤ k)
    × (k < s.reserved)
    × (s.writer k ≡ i)
    × (s.claim_fun k ≡ fun)
    × (s.claim_params k ≡ par)
    × (s.fun k ≡ 0)
    × (0 < fun)
AtWork s i (filled k fun par) =
    (s.called ≤ k)
    × (k < s.reserved)
    × (s.writer k ≡ i)
    × (s.claim_fun k ≡ fun)
    × (s.claim_params k ≡ par)
    × (s.fun k ≡ 0)
    × (0 < fun)
    × (s.params k ≡ par)

-- The slot that a thread is at work on, plus 1.
abbrev pub slot_of : Role → ℕ
slot_of idle = 0
slot_of (filling k fun par) = k + 1
slot_of (filled k fun par) = k + 1

pub record InSession (s : Session) (role : ℕ → Role) : Type 0 where
  -- What has been accepted and not called is what stands in the slots, in order.
  pub order : s.accepted ≡ s.log ++ waiting s
  pub before : s.cleared ≤ s.called
  pub within : s.called ≤ s.reserved
  pub working : (i : ℕ) → AtWork s i (role i)
  pub slots :
      (k : ℕ)
      → s.called ≤ k
      → k < s.reserved
      → (slot_of (role (s.writer k)) ≡ k + 1)
        ⊎ ((s.fun k ≡ s.claim_fun k) × (s.params k ≡ s.claim_params k) × (0 < s.fun k))
  pub empty : (k : ℕ) → (k < s.cleared) ⊎ (s.reserved ≤ k) → s.fun k ≡ 0

pub data Act (i : ℕ) (s : Session) : Role → Session → Role → Type 0 where
  keeps : (r : Role) → Act i s r s r
  accepts :
      (k fun par : ℕ)
      → s.reserved ≡ k
      → 0 < fun
      → Act i s idle (accept i k fun par s) (filling k fun par)
  fills : (k fun par : ℕ) → Act i s (filling k fun par) (fill k par s) (filled k fun par)
  publishes : (k fun par : ℕ) → Act i s (filled k fun par) (publish k fun s) idle
  restarts : s.called ≡ s.reserved → s.cleared ≡ s.called → Act i s idle (restart s) idle
  calls :
      (k : ℕ)
      → s.called ≡ k
      → s.cleared ≡ k
      → k < s.reserved
      → 0 < s.fun k
      → Act i s idle (call k (s.fun k) s) idle
  clears : (k : ℕ) → s.cleared ≡ k → k < s.called → Act i s idle (clear k s) idle

pub at_work : (s : Session) (j k : ℕ) (q : Role) → slot_of q ≡ k + 1 → AtWork s j q → s.fun k ≡ 0
at_work s j k idle e h = absurd (omega (arith, e))
at_work s j k (filling l f p) e h = ground (arith, e, h)
at_work s j k (filled l f p) e h = ground (arith, e, h)

pub new_session-InSession : InSession new_session (λ i. idle)
new_session-InSession = record {
  order = refl;
  before = omega arith;
  within = omega arith;
  working = λ i. tt;
  slots = λ k a b. absurd (omega arith);
  empty = λ k h. refl;
}

pub works_at :
    (s : Session) (j k : ℕ) (q : Role)
    → slot_of q ≡ k + 1
    → AtWork s j q
    → (s.called ≤ k) × (k < s.reserved) × (s.writer k ≡ j)
works_at s j k idle e h = absurd (omega (arith, e))
works_at s j k (filling l f p) e h = ground (arith, e, h)
works_at s j k (filled l f p) e h = ground (arith, e, h)

pub none_waiting : (s : Session) → s.called ≡ s.reserved → waiting s ≡ []
none_waiting s e =
    ap (claims s.claim_fun s.claim_params s.called) {x = s.reserved - s.called} {y = 0}
      (omega (arith, e))
