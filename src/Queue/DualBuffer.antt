-- ===== src/Queue/DualBuffer.antt =====
-- queues/dual_buffer_queue.hpp: the queue that `qdlock` and `mrqdlock` use, an atomic access at a
-- time. Any thread may call `enqueue`; `open` and `flush` are the calls of one helper, thread 0,
-- as the mutex of the delegation lock sees to.
pub mod Slots
pub mod Core
pub mod Publish
pub mod Phase
pub mod Inv
pub mod Enqueue
pub mod Fill
pub mod Flush
pub mod Order
pub mod Progress
pub mod Bounds
pub mod Tests
use qd_library.Prelude.{
  ℕ, zero, suc, ◌+◌, ◌-◌, ◌*◌, ◌/◌, ◌%◌, ◌^◌, ◌≤◌, ◌<◌, ◌≡◌, ◌≢◌, Bool, true, false, List, [], ◌∷◌,
  ◌++◌, ltb, leb, ◌==◌, if◌then◌else◌,
}
use qd_library.Interleave.{update}

-- `unsigned`
abbrev pub u32 : ℕ → ℕ
u32 n = n % 2 ^ 32

-- The wrapper functions that are enqueued: their addresses, and what their parameters take. Code
-- addresses of the machine are not null and have a zero in the most significant byte.
pub record Wrappers : Type 1 where
  pub Op : Type 0
  pub address : Op → ℕ
  pub sumsizes : Op → ℕ
  pub no_op : ℕ
  pub address_pos : (op : Op) → 0 < address op
  pub address_small : (op : Op) → address op < 2 ^ 56
  pub address-ne-no_op : (op : Op) → address op ≢ no_op
  pub no_op_pos : 0 < no_op
  pub no_op_small : no_op < 2 ^ 56

-- `aligned`
abbrev pub aligned : ℕ → ℕ
aligned size = if size == 0 then 1 else size

-- `req_entries`, for parameters of the given size; `sizeof(unsigned)` is 4.
abbrev pub req_entries : ℕ → ℕ → ℕ
req_entries entry_size sum = (aligned (sum + 4) + entry_size - 1) / entry_size

-- `entries` and `buffer_array`: in slot `i`, the function, the number of slots that it takes, and
-- its parameters as one value.
pub record Cells : Type 0 where
  pub fun : ℕ → ℕ
  pub size : ℕ → ℕ
  pub params : ℕ → ℕ

-- A reservation in the buffer.
pub record Slot : Type 0 where
  pub fun : ℕ
  pub size : ℕ
  pub params : ℕ

-- `counter` and the buffer, with the history that the theorems speak of: the calls made by
-- `flush`, the operations accepted by `enqueue`, and the reservations not yet executed from slot
-- `base` on.
pub record DualBufferQueue : Type 0 where
  pub counter : ℕ
  pub cells : Cells
  pub log : List (ℕ × ℕ)
  pub accepted : List (ℕ × ℕ)
  pub base : ℕ
  pub pending : List Slot

-- `atomic_instruction_policy_t`
pub data AtomicInstructionPolicy : Type 0 where
  use_fetch_and_add use_compare_and_swap : AtomicInstructionPolicy

pub data Call (Op : Type 0) : Type 0 where
  call_enqueue : Op → ℕ → Call Op
  call_open call_flush : Call Op

pub data Pc (Op : Type 0) : Type 0 where
  outside : Pc Op
  -- in `enqueue`: before the load of `counter`, before the atomic addition, before the writes of
  -- size and parameters, and before the store of the function
  e_load : Op → ℕ → Pc Op
  e_claim : ℕ → Op → ℕ → Pc Op
  e_fill : ℕ → Op → ℕ → Pc Op
  e_publish : ℕ → Op → ℕ → Pc Op
  -- the same for the `no_op` at the end of the buffer
  e_fill_no_op : ℕ → Pc Op
  e_publish_no_op : ℕ → Pc Op
  -- the helper: between `open` and `flush`, before the load of `counter`, before its exchange,
  -- before the load of a function (index, todo, and `open`), before its call, before the clearing
  opened : Pc Op
  f_load : ℕ → Pc Op
  f_exchange : ℕ → Pc Op
  f_spin : ℕ → ℕ → Bool → Pc Op
  f_call : ℕ → ℕ → ℕ → Bool → Pc Op
  f_clear : ℕ → Pc Op

abbrev pub min_ : ℕ → ℕ → ℕ
min_ a b = if leb b a then b else a

-- `for(unsigned index = …; index < todo; )`, and the loop `while(open)` around it.
abbrev pub f_next : {Op : Type 0} → ℕ → ℕ → Bool → Pc Op
f_next index todo more =
    if ltb index todo then f_spin index todo more else if more then f_load todo else f_clear todo

-- `std::fill` over the bytes from `entries[0]` up to, and without, the last byte of
-- `entries[todo - 1]`, which is its most significant byte.
abbrev pub clear : ℕ → (ℕ → ℕ) → ℕ → ℕ
clear todo fun i =
    if ltb (i + 1) todo then 0 else if i + 1 == todo then fun i / 2 ^ 56 * 2 ^ 56 else fun i

abbrev pub rest_of : List Slot → List Slot
rest_of [] = []
rest_of (x ∷ rest) = rest

module _ (w : Wrappers) (entries entry_size : ℕ) (policy : AtomicInstructionPolicy) where
  open w use {Op, address, sumsizes, no_op}

  abbrev pub req : Op → ℕ
  req op = req_entries entry_size (sumsizes op)

  -- `ENTRIES - req_entries`
  abbrev pub room : Op → ℕ
  room op = u32 (entries + 2 ^ 32 - req op)

  abbrev pub slot : Op → ℕ → Slot
  slot op par = record { fun = address op; size = req op; params = par }

  abbrev pub last_slot : ℕ → Slot
  last_slot index = record { fun = no_op; size = entries - index; params = 0 }

  -- What `enqueue` does with the index that the atomic addition gave it.
  abbrev pub claimed : ℕ → Op → ℕ → DualBufferQueue → DualBufferQueue × Pc Op
  claimed index op par q =
      if leb index (room op)
      then (
        record q {
          accepted = q.accepted ++ (address op, par) ∷ [];
          pending = q.pending ++ slot op par ∷ [];
        },
        e_fill index op par,
      )
      else if ltb index entries
      then (record q { pending = q.pending ++ last_slot index ∷ [] }, e_fill_no_op index)
      else (q, outside)

  -- `fetch_add`, or one round of the loop with `compare_exchange_weak`.
  abbrev pub claim :
      AtomicInstructionPolicy → ℕ → Op → ℕ → DualBufferQueue → DualBufferQueue × Pc Op
  claim use_fetch_and_add index op par q =
      claimed q.counter op par (record q { counter = u32 (q.counter + req op) })
  claim use_compare_and_swap index op par q =
      if q.counter == index
      then claimed q.counter op par (record q { counter = u32 (q.counter + req op) })
      else (q, e_claim q.counter op par)

  abbrev fill_cells : ℕ → ℕ → ℕ → Cells → Cells
  fill_cells index size par c = record c {
    size = update c.size index size;
    params = update c.params index par;
  }

  -- One slot has been executed: the call is logged, unless it was to `no_op`.
  abbrev executed : ℕ → ℕ → DualBufferQueue → DualBufferQueue
  executed index fun q = record q {
    log = if fun == no_op then q.log else q.log ++ (fun, q.cells.params index) ∷ [];
    base = u32 (index + q.cells.size index);
    pending = rest_of q.pending;
  }

  unfoldable pub next : ℕ → Call Op → DualBufferQueue → Pc Op → DualBufferQueue × Pc Op
  next i (call_enqueue op par) q outside = (q, e_load op par)
  next i call_open q outside =
      if i == 0 then (record q { counter = 0; base = 0; pending = [] }, opened) else (q, outside)
  next i call_flush q outside = (q, outside)
  next i c q (e_load op par) =
      if ltb (room op) q.counter then (q, outside) else (q, e_claim q.counter op par)
  next i c q (e_claim index op par) = claim policy index op par q
  next i c q (e_fill index op par) =
      (record q { cells = fill_cells index (req op) par q.cells }, e_publish index op par)
  next i c q (e_publish index op par) = (
    record q { cells = record (q.cells) { fun = update q.cells.fun index (address op) } },
    outside,
  )
  next i c q (e_fill_no_op index) = (
    record q { cells = record (q.cells) { size = update q.cells.size index (entries - index) } },
    e_publish_no_op index,
  )
  next i c q (e_publish_no_op index) =
      (record q { cells = record (q.cells) { fun = update q.cells.fun index no_op } }, outside)
  next i call_flush q opened = (q, f_load 0)
  next i c q opened = (q, opened)
  next i c q (f_load done) = (
    q,
    if q.counter == done
        then f_exchange done
        else if leb entries q.counter
        then f_next done entries false
        else f_next done q.counter true,
  )
  next i c q (f_exchange done) =
      (record q { counter = entries }, f_next done (min_ q.counter entries) false)
  next i c q (f_spin index todo more) = (
    q,
    if q.cells.fun index == 0
        then f_spin index todo more
        else f_call index (q.cells.fun index) todo more,
  )
  next i c q (f_call index fun todo more) =
      (executed index fun q, f_next (u32 (index + q.cells.size index)) todo more)
  next i c q (f_clear todo) =
      (record q { cells = record (q.cells) { fun = clear todo q.cells.fun } }, outside)
