-- ===== src/Qd/Balance.antt =====
-- `qdlock_impl`: each step of a thread keeps the books of an operation.
use qd_library.Prelude.{
  ℕ, suc, ◌+◌, ◌%◌, ◌^◌, ◌<◌, ◌≡◌, refl, ap, Bool, true, false, inl, inr, [], ◌∷◌, arith, ◌==◌,
  Bool-cases,
}
use qd_library.Interleave.{update, State, step}
use qd_library.Interleave.Total.{total, total-update}
use qd_library.Delegate.{StarvationPolicy, goes_on}
use qd_library.Queue.DualBuffer
use qd_library.Queue.DualBuffer.{Wrappers, AtomicInstructionPolicy, DualBufferQueue, e_load}
use qd_library.Queue.DualBuffer.Inv.{is_helper}
use qd_library.Qd.{
  QdLock, Call, call_delegate, call_lock, call_unlock, Pc, outside, d_first, d_enqueue, d_try,
  d_last, x_run, x_unlock, h_open, h_run, h_flush, h_unlock, l_lock, held, is_outside, succeeds,
  locks, acquire, round, enqueue_step, flush_step, called, next,
}
use qd_library.Qd.Account.Flush.{flush-Flushed}
use qd_library.Qd.Account.{hit, count, count-append, is_filling, Carries, owed, enqueue-Enqueued}

-- A thread in `enqueue` is there with the operation of its `delegate`; one in `flush` is in it.
abbrev pub Agrees : {Op : Type 0} → Pc Op → Type 0
Agrees (d_enqueue op par retries p) = Carries op par p
Agrees (h_flush op par p) = is_helper p ≡ true
Agrees p = Unit

filling-outside : {Op : Type 0} (p : DualBuffer.Pc Op) → is_outside p ≡ true → is_filling p ≡ false
filling-outside DualBuffer.outside h = refl
filling-outside p h = absurd (cc)

module _ (w : Wrappers) (entries entry_size : ℕ) (policy : AtomicInstructionPolicy)
    (starvation : StarvationPolicy) where
  abbrev turn : ℕ → Call w.Op → QdLock → Pc w.Op → QdLock × Pc w.Op
  turn = next w entries entry_size policy starvation

  -- 1 for a thread whose operation has been accepted by the queue, or run by the thread itself, and
  -- whose `delegate` has not returned.
  abbrev pub in_flight : ℕ × ℕ → Pc w.Op → ℕ
  in_flight x (d_enqueue op par retries p) =
      owed w entries entry_size policy x op par (is_filling p)
  in_flight x (x_unlock op par) = hit x (w.address op, par)
  in_flight x (h_flush op par p) = hit x (w.address op, par)
  in_flight x (h_unlock op par) = hit x (w.address op, par)
  in_flight x p = 0

  -- Operations that have been run, and those that have been accepted.
  abbrev pub debit : ℕ × ℕ → QdLock → ℕ
  debit x m = count x m.executed + count x m.queue.accepted

  -- Operations that have been run out of the queue, and those whose `delegate` has returned.
  abbrev pub credit : ℕ × ℕ → QdLock → ℕ
  credit x m = count x m.queue.log + count x m.returned

  record Balanced (x : ℕ × ℕ) (m : QdLock) (p : Pc w.Op) (r : QdLock × Pc w.Op) : Type 0 where
    agrees : Agrees r.1
    books : debit x r.0 + credit x m + in_flight x p ≡ debit x m + credit x r.0 + in_flight x r.1

  module _ (x : ℕ × ℕ) where
    acquire-Balanced :
        (i : ℕ) (c : Call w.Op) (m : QdLock) (p got otherwise : Pc w.Op)
        → Agrees got
        → in_flight x got ≡ 0
        → in_flight x p ≡ 0
        → Balanced x m p (m, otherwise)
        → Balanced x m p (acquire i c m got otherwise)
    acquire-Balanced i c m p got otherwise a g z b = elim (Bool-cases (locks c m)) [
      | inl e ↦ rw e (record { agrees = a; books = omega (arith, g, z) })
      | inr e ↦ rw e b
    ]

    round-Balanced :
        (m : QdLock) (p : Pc w.Op) (op : w.Op) (par retries : ℕ)
        → in_flight x p ≡ 0
        → Balanced x m p (m, round w entries entry_size policy starvation op par retries)
    round-Balanced m p op par retries z = elim (Bool-cases (goes_on starvation retries)) [
      | inl e ↦ rw e (record { agrees = (refl, refl); books = omega (arith, z) })
      | inr e ↦ rw e (record { agrees = tt; books = omega (arith, z) })
    ]

    enqueue-Balanced :
        (i : ℕ) (c : Call w.Op) (m : QdLock) (op : w.Op) (par retries : ℕ) (p : DualBuffer.Pc w.Op)
        → Carries op par p
        → Balanced x m (d_enqueue op par retries p) (turn i c m (d_enqueue op par retries p))
    unfolding next
    enqueue-Balanced i c m op par retries p h =
        let r = enqueue_step w entries entry_size policy starvation i m.queue p in
        let v = enqueue-Enqueued w entries entry_size policy x op par (suc i) m.queue p h in
        let owe : Bool → ℕ = owed w entries entry_size policy x op par in
        let logs = ap (count x) v.logs in
        elim (Bool-cases (is_outside r.1)) [
          | inl e ↦ elim (Bool-cases (succeeds p)) [
            | inl f ↦
                rw (e, f)
                  (record {
                    agrees = tt;
                    books = omega (
                      arith,
                      v.accepts,
                      logs,
                      ap owe f,
                      ap owe (filling-outside r.1 e),
                      count-append x m.returned ((w.address op, par) ∷ []),
                    );
                  })
            | inr f ↦
                rw (e, f)
                  (record {
                    agrees = tt;
                    books =
                        omega (arith, v.accepts, logs, ap owe f, ap owe (filling-outside r.1 e));
                  })
          ]
          | inr e ↦
              let f : succeeds p ≡ false = ground (arith, v.ends) in
              rw e (record { agrees = v.carries; books = omega (arith, v.accepts, logs, ap owe f) })
        ]

    flush-Balanced :
        (i : ℕ) (c : Call w.Op) (m : QdLock) (op : w.Op) (par : ℕ) (p : DualBuffer.Pc w.Op)
        → is_helper p ≡ true
        → Balanced x m (h_flush op par p) (turn i c m (h_flush op par p))
    unfolding next
    flush-Balanced i c m op par p h =
        let r = flush_step w entries entry_size policy starvation m.queue p in
        let v = flush-Flushed w entries entry_size policy starvation m.queue p h in
        let call = called w entries entry_size policy starvation m.queue p in
        let logs = ap (count x) v.logs in
        let accepts = ap (count x) v.accepts in
        let log = count-append x m.queue.log call in
        let run_ = count-append x m.executed call in
        elim (Bool-cases (is_outside r.1)) [
          | inl e ↦ rw e (record { agrees = tt; books = omega (arith, logs, accepts, log, run_) })
          | inr e ↦
              rw e
                (record { agrees = v.continues e; books = omega (arith, logs, accepts, log, run_) })
        ]

    turn-Balanced :
        (i : ℕ) (c : Call w.Op) (m : QdLock) (p : Pc w.Op)
        → Agrees p
        → Balanced x m p (turn i c m p)
    unfolding next DualBuffer.next
    turn-Balanced i (call_delegate op par) m outside h = record { agrees = tt; books = omega arith }
    turn-Balanced i call_lock m outside h = record { agrees = tt; books = omega arith }
    turn-Balanced i c m outside h = record { agrees = tt; books = omega arith }
    turn-Balanced i c m (d_first op par) h =
        acquire-Balanced i c m _ _ _ tt refl refl (round-Balanced m (d_first op par) op par 1 refl)
    turn-Balanced i c m (d_enqueue op par retries p) h = enqueue-Balanced i c m op par retries p h
    turn-Balanced i c m (d_try op par retries) h =
        acquire-Balanced i c m _ _ _ tt refl refl
          (round-Balanced m (d_try op par retries) op par ((retries + 1) % 2 ^ 32) refl)
    turn-Balanced i c m (d_last op par) h =
        acquire-Balanced i c m _ _ _ tt refl refl (record { agrees = tt; books = omega arith })
    turn-Balanced i c m (x_run op par) h = record {
      agrees = tt;
      books = omega (arith, count-append x m.executed ((w.address op, par) ∷ []));
    }
    turn-Balanced i c m (x_unlock op par) h = record {
      agrees = tt;
      books = omega (arith, count-append x m.returned ((w.address op, par) ∷ []));
    }
    turn-Balanced i c m (h_open op par) h = record { agrees = tt; books = omega arith }
    turn-Balanced i c m (h_run op par) h = record {
      agrees = refl;
      books = omega (arith, count-append x m.executed ((w.address op, par) ∷ []));
    }
    turn-Balanced i c m (h_flush op par p) h = flush-Balanced i c m op par p h
    turn-Balanced i c m (h_unlock op par) h = record {
      agrees = tt;
      books = omega (arith, count-append x m.returned ((w.address op, par) ∷ []));
    }
    turn-Balanced i c m l_lock h =
        acquire-Balanced i c m _ _ _ tt refl refl (record { agrees = tt; books = omega arith })
    turn-Balanced i call_unlock m held h = record { agrees = tt; books = omega arith }
    turn-Balanced i c m held h = record { agrees = tt; books = omega arith }

    -- The books of the operation over the first threads.
    abbrev pub Books : ℕ → State QdLock (Pc w.Op) → Type 0
    Books threads s =
        ((j : ℕ) → Agrees (s.pc j))
        × (debit x s.mem ≡ credit x s.mem + total (in_flight x) threads s.pc)

    pub step-Books :
        (threads : ℕ) (s : State QdLock (Pc w.Op)) (i : ℕ) (c : Call w.Op)
        → i < threads
        → Books threads s
        → Books threads (step turn s (i, c))
    unfolding step
    step-Books threads s i c lt (a, e) =
        let b = turn-Balanced i c s.mem (s.pc i) (a i) in
        (
          agree b,
          omega (
            arith,
            e,
            b.books,
            total-update (in_flight x) threads s.pc i (turn i c s.mem (s.pc i)).1 lt,
          ),
        )
      where
        agree :
            Balanced x s.mem (s.pc i) (turn i c s.mem (s.pc i))
            → (j : ℕ) → Agrees (update s.pc i (turn i c s.mem (s.pc i)).1 j)
        agree b j = elim (Bool-cases (i == j)) [ inl f ↦ rw f (b.agrees) | inr f ↦ rw f (a j) ]
