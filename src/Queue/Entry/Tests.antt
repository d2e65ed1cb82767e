-- ===== src/Queue/Entry/Tests.antt =====
-- queues/entry_queue.hpp: a run of two threads that enqueue, and the helper.
use qd_library.Prelude.{
  ℕ, zero, suc, ◌+◌, ◌^◌, true, ◌<◌, ◌≡◌, ◌≢◌, ◌⊎◌, refl, false, List, [], ◌∷◌, ◌++◌, arith,
}
use qd_library.Interleave.{State, step, run}
use qd_library.Queue.Entry.{
  EntryQueue, Call, call_enqueue, call_open, call_flush, Pc, outside, e_fill, e_publish, f_spin,
  next,
}
use qd_library.Queue.Entry.Slots.{waiting}
use qd_library.Queue.Entry.Helper.{is_helper}
use qd_library.Queue.Entry.Order.{reached, entry-flushed_all, entry_not_stuck}

abbrev address : ℕ → ℕ
address op = op + 100

address_pos : (op : ℕ) → 0 < address op
address_pos op = omega arith

four_small : 4 < 2 ^ 62
four_small = omega arith

abbrev times : ℕ → ℕ × Call ℕ → List (ℕ × Call ℕ)
times zero e = []
times (suc n) e = e ∷ times n e

-- Thread 1 enqueues function 7, thread 2 has reserved a slot for function 8, and the helper has
-- called the first and waits for the second.
abbrev waits : List (ℕ × Call ℕ)
waits =
    times 2 (0, call_open)
    ++ times 5 (1, call_enqueue 7 30)
    ++ times 3 (2, call_enqueue 8 31)
    ++ times 6 (0, call_flush)

abbrev s : State EntryQueue Pc
s = reached 4 four_small address address_pos waits

helper_waits : s.pc 0 ≡ f_spin 1 2 true
unfolding run step next
helper_waits = refl

-- Then the function comes, and the helper goes on to the end.
abbrev flushed : List (ℕ × Call ℕ)
flushed = waits ++ times 2 (2, call_enqueue 8 31) ++ times 7 (0, call_flush)

flushed_both :
    ((reached 4 four_small address address_pos flushed).pc 0 ≡ outside)
    × ((reached 4 four_small address address_pos flushed).mem.session.log
        ≡ (107, 30) ∷ (108, 31) ∷ [])
unfolding run step next
flushed_both = (refl, refl)

entry-flushed_all_example :
    ((reached 4 four_small address address_pos flushed).mem.session.accepted
      ≡ (reached 4 four_small address address_pos flushed).mem.session.log
        ++ waiting (reached 4 four_small address address_pos flushed).mem.session)
    × (is_helper ((reached 4 four_small address address_pos flushed).pc 0) ≡ false
        → (reached 4 four_small address address_pos flushed).mem.session.log
          ≡ (reached 4 four_small address address_pos flushed).mem.session.accepted)
unfolding run step next
entry-flushed_all_example = entry-flushed_all 4 four_small address address_pos flushed (omega arith)

entry_not_stuck_example :
    (i : ℕ) × ((i ≢ 0)
      × ((fun : ℕ) × ((par : ℕ) × ((s.pc i ≡ e_fill 1 fun par) ⊎ (s.pc i ≡ e_publish 1 fun par)))))
unfolding run step next
entry_not_stuck_example =
    entry_not_stuck 4 four_small address address_pos waits (omega arith) 1 2 true helper_waits refl
