-- ===== src/Qd/Account/Flush.antt =====
-- `qdlock_impl`: the books over each access of `flush`.
use qd_library.Prelude.{
  ℕ, ◌≡◌, refl, sym, ap, ◌∙◌, Bool, true, false, inl, inr, [], ◌++◌, ltb, leb, ◌==◌, Bool-cases,
}
use mathlib.Core.List.{append-nil}
use qd_library.Delegate.{StarvationPolicy}
use qd_library.Queue.DualBuffer
use qd_library.Queue.DualBuffer.{
  Wrappers, AtomicInstructionPolicy, use_fetch_and_add, use_compare_and_swap, DualBufferQueue,
  e_load, e_claim, e_fill, e_publish, e_fill_no_op, e_publish_no_op, opened, f_load, f_exchange,
  f_spin, f_call, f_clear, f_next, room, claimed, claim,
}
use qd_library.Queue.DualBuffer.Inv.{is_helper}
use qd_library.Qd.{is_outside, called}

module _ (w : Wrappers) (entries entry_size : ℕ) (policy : AtomicInstructionPolicy) where
  abbrev queue_turn :
      ℕ
      → DualBuffer.Call w.Op
      → DualBufferQueue
      → DualBuffer.Pc w.Op
      → DualBufferQueue × DualBuffer.Pc w.Op
  queue_turn = DualBuffer.next w entries entry_size policy

  f_next-is_helper :
      (index todo : ℕ) (more : Bool) → is_helper {Op = w.Op} (f_next index todo more) ≡ true
  f_next-is_helper index todo true = elim (Bool-cases (ltb index todo)) [
    | inl e ↦ rw e refl
    | inr e ↦ rw e refl
  ]
  f_next-is_helper index todo false = elim (Bool-cases (ltb index todo)) [
    | inl e ↦ rw e refl
    | inr e ↦ rw e refl
  ]

  module _ (starvation : StarvationPolicy) where
    -- What an access by `flush` does to them.
    pub record Flushed (q : DualBufferQueue) (p : DualBuffer.Pc w.Op)
        (r : DualBufferQueue × DualBuffer.Pc w.Op) : Type 0 where
      pub logs : r.0.log ≡ q.log ++ called w entries entry_size policy starvation q p
      pub accepts : r.0.accepted ≡ q.accepted
      pub continues : is_outside r.1 ≡ false → is_helper r.1 ≡ true

    no_call :
        (q q' : DualBufferQueue) (p p' : DualBuffer.Pc w.Op)
        → called w entries entry_size policy starvation q p ≡ []
        → q'.log ≡ q.log
        → q'.accepted ≡ q.accepted
        → (is_outside p' ≡ false → is_helper p' ≡ true)
        → Flushed q p (q', p')
    no_call q q' p p' n l a h = record {
      logs = l ∙ sym (append-nil q.log) ∙ ap (λ k. q.log ++ k) (sym n);
      accepts = a;
      continues = h;
    }

    call-Flushed :
        (q : DualBufferQueue) (index fun todo : ℕ) (more : Bool)
        → Flushed q
            (f_call index fun todo more)
            (queue_turn 0 DualBuffer.call_flush q (f_call index fun todo more))
    unfolding DualBuffer.next
    call-Flushed q index fun todo more = elim (Bool-cases (fun == w.no_op)) [
      | inl e ↦ rw e (record {
        logs = rw e (sym (append-nil q.log));
        accepts = refl;
        continues = λ h. f_next-is_helper _ todo more;
      })
      | inr e ↦ rw e (record {
        logs = rw e refl;
        accepts = refl;
        continues = λ h. f_next-is_helper _ todo more;
      })
    ]

    pub flush-Flushed :
        (q : DualBufferQueue) (p : DualBuffer.Pc w.Op)
        → is_helper p ≡ true
        → Flushed q p (queue_turn 0 DualBuffer.call_flush q p)
    unfolding DualBuffer.next
    flush-Flushed q opened h = no_call q q opened (f_load 0) refl refl refl (λ g. refl)
    flush-Flushed q (f_load done) h = elim (Bool-cases (q.counter == done)) [
      | inl e ↦ rw e (no_call q q (f_load done) (f_exchange done) refl refl refl (λ g. refl))
      | inr e ↦ elim (Bool-cases (leb entries q.counter)) [
        | inl f ↦
            rw (e, f)
              (no_call q q (f_load done) _ refl refl refl
                (λ g. f_next-is_helper done entries false))
        | inr f ↦
            rw (e, f)
              (no_call q q (f_load done) _ refl refl refl
                (λ g. f_next-is_helper done q.counter true))
      ]
    ]
    flush-Flushed q (f_exchange done) h =
        no_call q _ (f_exchange done) _ refl refl refl (λ g. f_next-is_helper done _ false)
    flush-Flushed q (f_spin index todo more) h = elim (Bool-cases (q.cells.fun index == 0)) [
      | inl e ↦ rw e (no_call q q (f_spin index todo more) _ refl refl refl (λ g. refl))
      | inr e ↦ rw e (no_call q q (f_spin index todo more) _ refl refl refl (λ g. refl))
    ]
    flush-Flushed q (f_call index fun todo more) h = call-Flushed q index fun todo more
    flush-Flushed q (f_clear todo) h =
        no_call q _ (f_clear todo) DualBuffer.outside refl refl refl (λ g. absurd (cc))
    flush-Flushed q p h = absurd (cc)
