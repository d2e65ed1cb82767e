-- ===== src/Queue/DualBuffer/Tests.antt =====
-- queues/dual_buffer_queue.hpp: runs of a helper and two threads.
use qd_library.Prelude.{
  ℕ, ◌+◌, ◌^◌, ◌≤◌, ◌<◌, ◌≡◌, ◌≢◌, refl, Bool, true, false, some, List, [], ◌∷◌, ◌++◌, arith,
  if◌then◌else◌,
}
use qd_library.Interleave.{State, step, run}
use qd_library.Interleave.Total.{OfThreads}
use qd_library.Queue.DualBuffer.{
  Wrappers, use_fetch_and_add, DualBufferQueue, Pc, e_load, e_claim, e_fill, f_spin, Call,
  call_enqueue, call_open, call_flush, req, next,
}
use qd_library.Queue.DualBuffer.Slots.{target}
use qd_library.Queue.DualBuffer.Inv.{Fits, is_helper}
use qd_library.Queue.DualBuffer.Order.{fresh_queue, system, executed-prefix, flushed_all}
use qd_library.Queue.DualBuffer.Progress.{flush_not_stuck}
use qd_library.Queue.DualBuffer.Bounds.{oversize_overruns}

unfoldable pub address_of : Bool → ℕ
address_of big = if big then 64 else 32

unfoldable pub size_of : Bool → ℕ
size_of big = if big then 28 else 8

pub positive : (big : Bool) → 0 < address_of big
unfolding address_of
positive big = ground arith

pub short : (big : Bool) → address_of big < 2 ^ 56
unfolding address_of
short big = ground arith

pub other : (big : Bool) → address_of big ≢ 16
unfolding address_of
other true e = omega arith
other false e = omega arith

-- Two wrappers, one with 8 bytes of parameters and one with 28.
abbrev pub two_wrappers : Wrappers
two_wrappers = record {
  Op = Bool;
  address = address_of;
  sumsizes = size_of;
  no_op = 16;
  address_pos = positive;
  address_small = short;
  address-ne-no_op = other;
  no_op_pos = omega arith;
  no_op_small = omega arith;
}

within : (big : Bool) → req two_wrappers 3 16 use_fetch_and_add big ≤ 3
unfolding size_of
within true = omega arith
within false = omega arith

-- Three slots of 16 bytes, and three threads.
pub fits : Fits two_wrappers 3 16 use_fetch_and_add 3
fits = record {
  entries_pos = omega arith;
  entry_size_pos = omega arith;
  op_fits = within;
  words = omega arith;
}

abbrev reached : List (ℕ × Call Bool) → State DualBufferQueue (Pc Bool)
reached = system two_wrappers 3 16 use_fetch_and_add 3 fits

-- The helper opens; threads 1 and 2 reserve a slot each, and the helper waits for the first.
abbrev waiting : List (ℕ × Call Bool)
waiting =
    (0, call_open)
    ∷ (1, call_enqueue false 7)
    ∷ (1, call_flush)
    ∷ (1, call_flush)
    ∷ (2, call_enqueue true 8)
    ∷ (2, call_flush)
    ∷ (2, call_flush)
    ∷ (0, call_flush)
    ∷ (0, call_flush)
    ∷ []

-- The threads publish, and the helper goes on to the end.
abbrev finishing : List (ℕ × Call Bool)
finishing =
    (1, call_flush)
    ∷ (1, call_flush)
    ∷ (2, call_flush)
    ∷ (2, call_flush)
    ∷ (0, call_flush)
    ∷ (0, call_flush)
    ∷ (0, call_flush)
    ∷ (0, call_flush)
    ∷ (0, call_flush)
    ∷ (0, call_flush)
    ∷ []

abbrev all_turns : List (ℕ × Call Bool)
all_turns = waiting ++ finishing

turn_0 : 0 < 3
turn_0 = omega arith

turn_1 : 1 < 3
turn_1 = omega arith

turn_2 : 2 < 3
turn_2 = omega arith

waiting-OfThreads : OfThreads 3 waiting
waiting-OfThreads =
    (turn_0, (turn_1, (turn_1, (turn_1, (turn_2, (turn_2, (turn_2, (turn_0, (turn_0, tt)))))))))

all_turns-OfThreads : OfThreads 3 all_turns
all_turns-OfThreads = (
  turn_0,
  (
    turn_1,
    (
      turn_1,
      (
        turn_1,
        (
          turn_2,
          (
            turn_2,
            (
              turn_2,
              (
                turn_0,
                (
                  turn_0,
                  (
                    turn_1,
                    (
                      turn_1,
                      (
                        turn_2,
                        (turn_2, (turn_0, (turn_0, (turn_0, (turn_0, (turn_0, (turn_0, tt))))))),
                      ),
                    ),
                  ),
                ),
              ),
            ),
          ),
        ),
      ),
    ),
  ),
)

at_spin : (reached waiting).pc 0 ≡ f_spin 0 3 false
unfolding run step next address_of size_of
at_spin = refl

blank : (reached waiting).mem.cells.fun 0 ≡ 0
unfolding run step next address_of size_of
blank = refl

slot_1 : target two_wrappers 3 16 use_fetch_and_add ((reached waiting).pc 1) ≡ some 0
unfolding run step next address_of size_of
slot_1 = refl

slot_2 : target two_wrappers 3 16 use_fetch_and_add ((reached waiting).pc 2) ≡ some 1
unfolding run step next address_of size_of
slot_2 = refl

done : is_helper ((reached all_turns).pc 0) ≡ false
unfolding run step next address_of size_of
done = refl

both_called : (reached all_turns).mem.log ≡ (32, 7) ∷ (64, 8) ∷ []
unfolding run step next address_of size_of
both_called = refl

executed-prefix_example :
    (rest : List (ℕ × ℕ)) × ((reached waiting).mem.accepted ≡ (reached waiting).mem.log ++ rest)
executed-prefix_example =
    executed-prefix two_wrappers 3 16 use_fetch_and_add 3 fits waiting waiting-OfThreads

flushed_all_example : (reached all_turns).mem.log ≡ (reached all_turns).mem.accepted
flushed_all_example =
    flushed_all two_wrappers 3 16 use_fetch_and_add 3 fits all_turns all_turns-OfThreads done

flush_not_stuck_example :
    (i : ℕ) × (i ≢ 0)
    × ((run
            (next two_wrappers 3 16 use_fetch_and_add)
            (reached waiting)
            ((i, call_flush) ∷ (i, call_open) ∷ [])).mem.cells.fun
          0
        ≢ 0)
flush_not_stuck_example =
    flush_not_stuck two_wrappers 3 16 use_fetch_and_add 3 fits waiting 0 3 false call_flush
      call_open waiting-OfThreads at_spin blank

apart : ◌≢◌ {A = ℕ} 1 2
apart e = omega arith

-- An open queue of one slot, and the operation that takes two.
abbrev open_queue : DualBufferQueue
open_queue = record (fresh_queue 1) { counter = 0 }

large : 1 < req two_wrappers 1 16 use_fetch_and_add true
unfolding size_of
large = omega arith

small : 1 + req two_wrappers 1 16 use_fetch_and_add true < 2 ^ 32
unfolding size_of
small = omega arith

oversize_overruns_example :
    (next two_wrappers 1 16 use_fetch_and_add 1 call_flush open_queue (e_load true 5)
      ≡ (open_queue, e_claim 0 true 5))
    × ((next two_wrappers 1 16 use_fetch_and_add 1 call_flush open_queue (e_claim 0 true 5)).1
        ≡ e_fill 0 true 5)
    × ((next two_wrappers 1 16 use_fetch_and_add 1 call_flush open_queue
          (e_claim 0 true 5)).0.accepted
        ≡ (address_of true, 5) ∷ [])
    × (1 < 0 + req two_wrappers 1 16 use_fetch_and_add true)
oversize_overruns_example =
    oversize_overruns two_wrappers 1 16 use_fetch_and_add open_queue true 5 call_flush large small
      (omega arith)
