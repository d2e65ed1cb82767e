-- ===== src/Queue/DualBuffer/Inv.antt =====
-- queues/dual_buffer_queue.hpp: the invariant of the queue and its threads.
use qd_library.Prelude.{ℕ, ◌+◌, ◌-◌, ◌*◌, ◌/◌, ◌^◌, ◌≤◌, ◌<◌, ◌≡◌, ◌≢◌, Bool, true, false, arith}
use mathlib.Core.Path.{subst}
use native.Mathlib.Decide.{ℕ_discrete}
use qd_library.Interleave.{update}
use qd_library.Queue.DualBuffer.{
  Wrappers, AtomicInstructionPolicy, Pc, e_claim, opened, f_load, f_exchange, f_spin, f_call,
  f_clear, DualBufferQueue, req, aligned,
}
use qd_library.Queue.DualBuffer.Core.{Core}
use qd_library.Queue.DualBuffer.Phase.{Phase}
use qd_library.Interleave.{State}
use qd_library.Interleave.Total.{total, total-update}

aligned_pos : (n : ℕ) → 0 < aligned n
aligned_pos n = ground arith

div_pos : (a e : ℕ) → 0 < a → 0 < e → 0 < (a + e - 1) / e
div_pos a e h k = grind arith

-- What the queue relies on: every wrapper fits into the buffer, and `counter` has room for one
-- addition of every thread on top of a full buffer.
pub record Fits (w : Wrappers) (entries entry_size : ℕ) (policy : AtomicInstructionPolicy)
    (threads : ℕ) : Type 0 where
  pub entries_pos : 0 < entries
  pub entry_size_pos : 0 < entry_size
  pub op_fits : (op : w.Op) → req w entries entry_size policy op ≤ entries
  pub words : entries + threads * entries < 2 ^ 32

abbrev pub is_helper : {Op : Type 0} → Pc Op → Bool
is_helper opened = true
is_helper (f_load done) = true
is_helper (f_exchange done) = true
is_helper (f_spin index todo more) = true
is_helper (f_call index fun todo more) = true
is_helper (f_clear todo) = true
is_helper _ = false

module _ (w : Wrappers) (entries entry_size : ℕ) (policy : AtomicInstructionPolicy)
    (threads : ℕ) where
  abbrev pub Sys : Type 0
  Sys = State DualBufferQueue (Pc w.Op)

  -- The addition that a thread is about to make.
  abbrev pub claims : Pc w.Op → ℕ
  claims (e_claim index op par) = req w entries entry_size policy op
  claims _ = 0

  pub record Inv (s : Sys) : Type 0 where
    pub core :
        Core w entries entry_size policy s.mem.cells s.mem.log s.mem.accepted s.mem.base
          s.mem.pending s.pc
    pub phase : Phase w entries s.mem (s.pc 0)
    pub helpers : (i : ℕ) → is_helper (s.pc i) ≡ true → i ≡ 0
    pub bound : s.mem.counter + total claims threads s.pc ≤ entries + threads * entries

  module _ (fits : Fits w entries entry_size policy threads) (q : DualBufferQueue)
      (pc : ℕ → Pc w.Op) (v : Inv (record { mem = q; pc = pc })) (i : ℕ) (turn : i < threads) where
    abbrev pub After : DualBufferQueue × Pc w.Op → Type 0
    After (q', p) = Inv (record { mem = q'; pc = update pc i p })

    pub req_pos : (op : w.Op) → 0 < req w entries entry_size policy op
    req_pos op = div_pos _ entry_size (aligned_pos (w.sumsizes op + 4)) fits.entry_size_pos

    -- The helper's point, when another thread moves or the helper does.
    pub Phase-of :
        (q' : DualBufferQueue) (p : Pc w.Op)
        → (i ≢ 0 → Phase w entries q' (pc 0))
        → (i ≡ 0 → Phase w entries q' p)
        → Phase w entries q' (update pc i p 0)
    Phase-of q' p others mine = elim (ℕ_discrete i 0) [
      | yes e ↦ subst (Phase w entries q') (ground arith) (mine e)
      | no ne ↦ subst (Phase w entries q') (ground arith) (others ne)
    ]

    pub helpers_of :
        (p : Pc w.Op)
        → (is_helper p ≡ true → i ≡ 0)
        → (j : ℕ) → is_helper (update pc i p j) ≡ true
        → j ≡ 0
    helpers_of p h j e = ground (arith, v.helpers j)

    pub bound_of :
        (counter : ℕ) (p : Pc w.Op)
        → counter + claims p ≤ q.counter + claims (pc i)
        → counter + total claims threads (update pc i p) ≤ entries + threads * entries
    bound_of counter p h = omega (arith, total-update claims threads pc i p turn, v.bound)
