-- ===== src/Lock/McsFutex/Order.antt =====
-- locks/mcs_futex_lock.hpp: one owner at a time, in the order in which the threads came.
use qd_library.Prelude.{ℕ, ◌≤◌, ◌≡◌, ◌≢◌, refl, ap, ◌⊎◌, true, List}
use qd_library.Interleave.{State, started, run}
use qd_library.Lock.Kernel.{Kernel}
use qd_library.Lock.Chain.{is_some}
use qd_library.Lock.Chain.Inv.{queued, owns, waits, is_broken}
use qd_library.Lock.Chain.Refine.{run-owner, run_in_order, run_taken, run_sound}
use qd_library.Lock.Nodes.{NodeStatus, is_free}
use qd_library.Lock.McsFutex.Acts.{stage, chain, mcs_futex-IsChain}
use qd_library.Lock.McsFutex.{McsFutexLock, mcs_futex_lock, Call, Pc, outside, fault, next}

module _ (k : Kernel) where
  module _ (garbage : ℕ → NodeStatus) (es : List (ℕ × Call)) where
    abbrev pub reached : State (McsFutexLock k.Queue) Pc
    reached = run (next k) (started (mcs_futex_lock k garbage) outside) es

    -- Whatever the schedule and the kernel's choices, at most one thread is between the return of a
    -- successful `lock`, `try_lock` or `try_lock_or_wait` and the step of its `unlock` that gives
    -- the lock away.
    pub mcs_futex-exclusive :
        (i j : ℕ) → owns (stage (reached.pc i)) ≡ true → owns (stage (reached.pc j)) ≡ true → i ≡ j
    mcs_futex-exclusive =
        run-owner (next k) (chain k) stage (mcs_futex-IsChain k) (mcs_futex_lock k garbage) outside
          (λ j. is_free (garbage j)) refl refl es

    -- First come, first served: the owner came (by the successful compare-exchange of its `lock`,
    -- `try_lock` or `try_lock_or_wait`) no later than any thread that has come and not left.
    pub mcs_futex_in_order :
        (i j : ℕ)
        → owns (stage (reached.pc i)) ≡ true
        → queued (stage (reached.pc j)) ≡ true
        → reached.mem.turns.ticket i ≤ reached.mem.turns.ticket j
    mcs_futex_in_order =
        run_in_order (next k) (chain k) stage (mcs_futex-IsChain k) (mcs_futex_lock k garbage)
          outside (λ j. is_free (garbage j)) refl refl es

    -- The lock does not get lost: whenever `locked` names a node, some thread owns the lock, or
    -- some thread waits in `lock` and its node has been set to `free`.
    pub mcs_futex_not_lost :
        is_some reached.mem.locked.node ≡ true
        → ((i : ℕ) × (owns (stage (reached.pc i)) ≡ true))
          ⊎ ((i : ℕ) × (waits (stage (reached.pc i)) ≡ true)
              × (is_free (reached.mem.nodes.status i) ≡ true))
    mcs_futex_not_lost =
        run_taken (next k) (chain k) stage (mcs_futex-IsChain k) (mcs_futex_lock k garbage) outside
          (λ j. is_free (garbage j)) refl refl es

    -- `unlock` never follows a null pointer.
    mcs_futex_no_fault : (i : ℕ) → reached.pc i ≢ fault
    mcs_futex_no_fault i e = absurd (
        cc (
          ap (λ p. is_broken (stage p)) e,
          run_sound (next k) (chain k) stage (mcs_futex-IsChain k) (mcs_futex_lock k garbage)
              outside (λ j. is_free (garbage j)) refl refl es i,
        ))
