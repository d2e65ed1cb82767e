-- ===== src/Queue/DualBuffer/Order.antt =====
-- queues/dual_buffer_queue.hpp: the invariant holds throughout, and with it the order of the calls.
use qd_library.Prelude.{ℕ, ◌<◌, ◌≡◌, refl, sym, ap, ◌∙◌, false, List, [], ◌++◌, arith}
use mathlib.Core.List.{append-nil}
use qd_library.Queue.DualBuffer.{
  Wrappers, AtomicInstructionPolicy, Pc, outside, e_load, e_claim, e_fill, e_publish, e_fill_no_op,
  e_publish_no_op, opened, f_load, f_exchange, f_spin, f_call, f_clear, DualBufferQueue, Call, next,
}
use qd_library.Queue.DualBuffer.Slots.{calls}
use qd_library.Queue.DualBuffer.Phase.{Phase}
use qd_library.Interleave.{step, run, started}
use qd_library.Interleave.Total.{OfThreads, run-keeps_of, total-zero}
use qd_library.Queue.DualBuffer.Inv.{Fits, is_helper, Sys, claims, Inv}
use qd_library.Queue.DualBuffer.Enqueue.{Kept}
use qd_library.Queue.DualBuffer.Fill.{fill, publish, fill_no_op, publish_no_op}
use qd_library.Queue.DualBuffer.Flush.{
  at_outside, at_opened, at_load, at_exchange, at_spin, at_call, at_clear,
}
use qd_library.Queue.DualBuffer.Enqueue.{load, claim-Kept}

-- The queue after its construction, with a zeroed buffer.
abbrev pub fresh_queue : ℕ → DualBufferQueue
fresh_queue entries = record {
  counter = entries;
  cells = record { fun = λ _. 0; size = λ _. 0; params = λ _. 0 };
  log = [];
  accepted = [];
  base = 0;
  pending = [];
}

module _ (w : Wrappers) (entries entry_size : ℕ) (policy : AtomicInstructionPolicy) (threads : ℕ)
    (fits : Fits w entries entry_size policy threads) where
  abbrev Holds : Sys w entries entry_size policy threads → Type 0
  Holds = Inv w entries entry_size policy threads

  abbrev Turn : ℕ → Call w.Op → DualBufferQueue → Pc w.Op → DualBufferQueue × Pc w.Op
  Turn = next w entries entry_size policy

  move-Inv :
      (q : DualBufferQueue) (pc : ℕ → Pc w.Op) (v : Holds (record { mem = q; pc = pc })) (i : ℕ)
      (turn : i < threads) (c : Call w.Op) (p : Pc w.Op)
      → pc i ≡ p
      → Kept w entries entry_size policy threads fits q pc v i turn (Turn i c q p)
  move-Inv q pc v i turn c outside e =
      at_outside w entries entry_size policy threads fits q pc v i turn c e
  move-Inv q pc v i turn c (e_load op par) e =
      load w entries entry_size policy threads fits q pc v i turn op par c e
  move-Inv q pc v i turn c (e_claim index op par) e =
      claim-Kept w entries entry_size policy threads fits q pc v i turn index op par e c
  move-Inv q pc v i turn c (e_fill index op par) e =
      fill w entries entry_size policy threads fits q pc v i turn index op par c e
  move-Inv q pc v i turn c (e_publish index op par) e =
      publish w entries entry_size policy threads fits q pc v i turn index op par c e
  move-Inv q pc v i turn c (e_fill_no_op index) e =
      fill_no_op w entries entry_size policy threads fits q pc v i turn index c e
  move-Inv q pc v i turn c (e_publish_no_op index) e =
      publish_no_op w entries entry_size policy threads fits q pc v i turn index c e
  move-Inv q pc v i turn c opened e =
      at_opened w entries entry_size policy threads fits q pc v i turn c e
  move-Inv q pc v i turn c (f_load done) e =
      at_load w entries entry_size policy threads fits q pc v i turn done c e
  move-Inv q pc v i turn c (f_exchange done) e =
      at_exchange w entries entry_size policy threads fits q pc v i turn done c e
  move-Inv q pc v i turn c (f_spin index todo more) e =
      at_spin w entries entry_size policy threads fits q pc v i turn index todo more c e
  move-Inv q pc v i turn c (f_call index fun todo more) e =
      at_call w entries entry_size policy threads fits q pc v i turn index fun todo more c e
  move-Inv q pc v i turn c (f_clear todo) e =
      at_clear w entries entry_size policy threads fits q pc v i turn todo c e

  step-Inv :
      (s : Sys w entries entry_size policy threads) (i : ℕ) (c : Call w.Op)
      → i < threads
      → Holds s
      → Holds (step Turn s (i, c))
  unfolding step
  step-Inv s i c turn v = move-Inv s.mem s.pc v i turn c (s.pc i) refl

  fresh-Inv : Holds (started (fresh_queue entries) outside)
  fresh-Inv = record {
    core = record {
      sized = tt;
      laid = tt;
      targets = λ i a h. absurd (cc);
      blank = λ i a h. refl;
      unique = λ i j a h g. absurd (cc);
      fresh = λ a h lt. refl;
      small = λ a lt. omega arith;
      within = omega arith;
      order = refl;
    };
    phase = (omega arith, refl, λ a lt. refl);
    helpers = λ i h. absurd (cc);
    bound =
        omega (arith, total-zero (claims w entries entry_size policy threads) threads outside refl);
  }

  -- All that the threads make of a queue that they take turns over.
  abbrev pub system : List (ℕ × Call w.Op) → Sys w entries entry_size policy threads
  system es = run Turn (started (fresh_queue entries) outside) es

  pub system-Inv :
      (es : List (ℕ × Call w.Op))
      → OfThreads threads es
      → Inv w entries entry_size policy threads (system es)
  system-Inv es t =
      run-keeps_of Turn threads Holds step-Inv (started (fresh_queue entries) outside) es t
        fresh-Inv

  pub Closed-empty :
      (q : DualBufferQueue) (p : Pc w.Op)
      → is_helper p ≡ false
      → Phase w entries q p
      → q.pending ≡ []
  Closed-empty q outside h f = f.1
  Closed-empty q (e_load op par) h f = f.1
  Closed-empty q (e_claim index op par) h f = f.1
  Closed-empty q (e_fill index op par) h f = f.1
  Closed-empty q (e_publish index op par) h f = f.1
  Closed-empty q (e_fill_no_op index) h f = f.1
  Closed-empty q (e_publish_no_op index) h f = f.1
  Closed-empty q p h f = absurd (cc)

  -- However the threads of a queue take turns, with every operation at most as large as the
  -- buffer and room for their additions in the counter, at every moment the calls that `flush`
  -- has made are the first of the operations that `enqueue` has accepted, in the order in which
  -- they were accepted and with their parameters; none is called twice, left out or made up.
  pub executed-prefix :
      (es : List (ℕ × Call w.Op))
      → OfThreads threads es
      → (rest : List (ℕ × ℕ)) × ((system es).mem.accepted ≡ (system es).mem.log ++ rest)
  executed-prefix es t = (calls w.no_op (system es).mem.pending, (system-Inv es t).core.order)

  -- However the threads take turns, with every operation at most as large as the buffer and room
  -- for their additions in the counter: when the helper is not between its `open` and the end of
  -- its `flush`, every operation that `enqueue` has accepted has been called, once and in the order in
  -- which they were accepted.
  pub flushed_all :
      (es : List (ℕ × Call w.Op))
      → OfThreads threads es
      → is_helper ((system es).pc 0) ≡ false
      → (system es).mem.log ≡ (system es).mem.accepted
  flushed_all es t h =
      let v = system-Inv es t in
      let none_left = Closed-empty (system es).mem ((system es).pc 0) h v.phase in
      sym (append-nil (system es).mem.log)
      ∙ ap (λ l. (system es).mem.log ++ calls w.no_op l) (sym none_left)
      ∙ sym v.core.order
