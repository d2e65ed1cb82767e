-- ===== src/Lock.antt =====
-- What the delegation locks ask of a mutual exclusion lock (the parameter `MLock` of
-- qdlock_base.hpp): one owner at most, as an abstract lock and the refinement to it.

pub mod Kernel
pub mod Chain
pub mod Nodes
pub mod Mcs
pub mod McsFutex
pub mod TicketFutex
pub mod Tatas
pub mod Futex
pub mod Flag
pub mod Mutex
pub mod Pthreads
use qd_library.Prelude.{
  ℕ, ◌≡◌, refl, List, Bool, true, false, Option, none, some, ◌⊎◌, arith, ◌==◌, if◌then◌else◌, inl,
  inr,
}
use qd_library.Interleave.{update, State, Next, started, step, run, run-keeps}

-- The abstract lock: who owns it.
abbrev pub Owner : Type 0
Owner = Option ℕ

pub data SpecStep : Owner → Owner → Type 0 where
  acquire : (i : ℕ) → SpecStep none (some i)
  release : (i : ℕ) → SpecStep (some i) none
  stay : (o : Owner) → SpecStep o o

-- How one move changes whether the lock is held (`h`, then `h'`), and whether the thread that
-- moves holds it (`o`, then `o'`): it takes the lock, gives it up, or neither.
abbrev pub Change : Bool → Bool → Bool → Bool → Type 0
Change h o h' o' =
    ((h ≡ false) × (o ≡ false) × (h' ≡ true) × (o' ≡ true))
    ⊎ (((o ≡ true) × (h' ≡ false) × (o' ≡ false)) ⊎ ((h' ≡ h) × (o' ≡ o)))

-- The interface: everything that a thread of the lock's algorithm does is one of the three.
pub record IsLock {Choice Mem Pc : Type 0} (next : Next Choice Mem Pc) (held : Mem → Bool)
    (holds : Pc → Bool) : Type 0 where
  pub change :
      (i : ℕ) (c : Choice) (m : Mem) (p : Pc)
      → Change (held m) (holds p) (held (next i c m p).0) (holds (next i c m p).1)

abbrev pub owns : Owner → ℕ → Bool
owns none i = false
owns (some j) i = j == i

abbrev pub is_owned : Owner → Bool
is_owned none = false
is_owned (some i) = true

module _ {Choice Mem Pc : Type 0} (next : Next Choice Mem Pc) (held : Mem → Bool)
    (holds : Pc → Bool) where
  -- A state of the algorithm stands for the abstract lock with owner `o`.
  pub record Refines (s : State Mem Pc) (o : Owner) : Type 0 where
    pub lock_state : held s.mem ≡ is_owned o
    pub owner : (i : ℕ) → holds (s.pc i) ≡ owns o i

  -- The lock is held exactly if some thread holds it, and then that is one thread only.
  pub Refines-exact :
      (s : State Mem Pc) (o : Owner)
      → Refines s o
      → (held s.mem ≡ true → (i : ℕ) × (holds (s.pc i) ≡ true))
        × ((i : ℕ) → holds (s.pc i) ≡ true → held s.mem ≡ true)
        × ((i j : ℕ) → holds (s.pc i) ≡ true → holds (s.pc j) ≡ true → i ≡ j)
  Refines-exact s none r = (
    λ h. absurd (cc (r.lock_state)),
    λ i h. absurd (cc (r.owner i)),
    λ i j h k. absurd (cc (r.owner i)),
  )
  Refines-exact s (some k) r = (
    λ h. (k, ground (arith, r.owner k)),
    λ i h. r.lock_state,
    λ i j a b. ground (arith, r.owner i, r.owner j),
  )

  -- The abstract step that a change makes, and what stands for what afterwards.
  abbrev pub Simulates : State Mem Pc → Owner → Type 0
  Simulates t o = (o' : Owner) × SpecStep o o' × Refines t o'

  pub Change-Simulates :
      (s : State Mem Pc) (o : Owner) (i : ℕ) (m : Mem) (p : Pc)
      → Refines s o
      → Change (held s.mem) (holds (s.pc i)) (held m) (holds p)
      → Simulates (record { mem = m; pc = update s.pc i p }) o
  Change-Simulates s none i m p r (inl (h, q, h', q')) =
      (some i, acquire i, record { lock_state = h'; owner = λ j. ground (arith, r.owner j) })
  Change-Simulates s (some k) i m p r (inl (h, q, h', q')) = absurd (cc (r.lock_state))
  Change-Simulates s none i m p r (inr (inl (q, h', q'))) = absurd (cc (r.owner i))
  Change-Simulates s (some k) i m p r (inr (inl (q, h', q'))) = (
    none,
    release k,
    record { lock_state = h'; owner = λ j. ground (arith, r.owner j, r.owner i) },
  )
  Change-Simulates s o i m p r (inr (inr (h, q))) = (
    o,
    stay o,
    record { lock_state = cc (r.lock_state); owner = λ j. ground (arith, r.owner j, r.owner i) },
  )

  module _ (lock : IsLock next held holds) where
    -- Each step of the algorithm is a step of the abstract lock.
    pub step-Refines :
        (s : State Mem Pc) (o : Owner) (i : ℕ) (c : Choice)
        → Refines s o
        → Simulates (step next s (i, c)) o
    unfolding step
    step-Refines s o i c r = Change-Simulates s o i _ _ r (lock.change i c s.mem (s.pc i))

    pub run-Refines :
        (s : State Mem Pc) (es : List (ℕ × Choice))
        → (o : Owner) × Refines s o
        → (o : Owner) × Refines (run next s es) o
    run-Refines s es =
        run-keeps next (λ s. (o : Owner) × Refines s o)
          (λ s i c orr. let (o, r) = orr in let (o', st, r') = step-Refines s o i c r in (o', r')) s
          es

    pub run-exclusive :
        (m : Mem) (p : Pc) (es : List (ℕ × Choice))
        → held m ≡ false
        → holds p ≡ false
        → (i j : ℕ) → holds ((run next (started m p) es).pc i) ≡ true
        → holds ((run next (started m p) es).pc j) ≡ true
        → i ≡ j
    run-exclusive m p es h q i j a b =
        let (o, r) =
          run-Refines (started m p) es (none, record { lock_state = h; owner = λ i. q }) in
        ground (arith, r.owner i, r.owner j)
