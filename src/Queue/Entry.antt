-- ===== src/Queue/Entry.antt =====
-- queues/entry_queue.hpp: the queue with one slot for each operation, an atomic access at a time.
-- Any thread may call `enqueue`; `open` and `flush` are the calls of one helper, thread 0, as the
-- mutex of the delegation lock sees to.
pub mod Slots
pub mod Acts
pub mod Helper
pub mod Steps
pub mod Order
mod Tests
use qd_library.Prelude.{
  ℕ, ◌+◌, ◌%◌, ◌^◌, Bool, true, false, ◌||◌, List, [], ◌∷◌, ◌++◌, ltb, leb, ◌==◌, if◌then◌else◌,
}
use qd_library.Interleave.{update}
use Slots.{
  Session, new_session, Role, idle, filling, filled, accept, fill, publish, restart, call, clear,
}

-- `counter`, `closed`, and `entry_array` with its history; and how often `counter` was added to.
pub record EntryQueue : Type 0 where
  pub counter : ℕ
  pub closed : Bool
  pub session : Session
  pub additions : ℕ

-- `enqueue` of a function, with its parameters as one value.
pub data Call (Op : Type 0) : Type 0 where
  call_enqueue : Op → ℕ → Call Op
  call_open call_flush : Call Op

pub data Pc : Type 0 where
  outside : Pc
  -- in `enqueue`: before the load of `closed`, before the `fetch_add`, before the writes of the
  -- parameters to a slot, and before the store of its function
  e_load e_add : ℕ → ℕ → Pc
  e_fill e_publish : ℕ → ℕ → ℕ → Pc
  -- the helper in `open`, before the store to `closed`, and behind `open`
  o_store opened : Pc
  -- the helper in `flush`, with `done`: before the load of `counter`, before its exchange, before
  -- the store to `closed` behind it (with `todo`), and before the one for a full queue
  f_load f_exchange : ℕ → Pc
  f_close : ℕ → ℕ → Pc
  f_full : ℕ → Pc
  -- with `index`, `todo` and `open`: before the load of a function, before its call, and before
  -- the store of a null pointer
  f_spin : ℕ → ℕ → Bool → Pc
  f_call : ℕ → ℕ → ℕ → Bool → Pc
  f_clear : ℕ → ℕ → Bool → Pc

-- `for(long index = …; index < todo; index++)`, and the loop `while(open)` around it.
abbrev pub f_next : ℕ → ℕ → Bool → Pc
f_next index todo more =
    if ltb index todo then f_spin index todo more else if more then f_load todo else outside

abbrev pub add : EntryQueue → EntryQueue
add q = record q { counter = (q.counter + 1) % 2 ^ 64; additions = q.additions + 1 }

-- `ENTRIES`
module _ (entries : ℕ) where
  -- `std::atomic<long>` by its 64 bits: `index < ENTRIES`, also for a negative `index`
  abbrev pub below : ℕ → Bool
  below index = ltb index entries || leb (2 ^ 63) index

  abbrev pub entry_queue : EntryQueue
  entry_queue = record { counter = entries; closed = true; session = new_session; additions = 0 }

-- `ENTRIES`, and the functions by their addresses.
module _ (entries : ℕ) {Op : Type 0} (address : Op → ℕ) where
  pub next : ℕ → Call Op → EntryQueue → Pc → EntryQueue × Pc
  next i (call_enqueue op par) q outside = (q, e_load (address op) par)
  next i call_open q outside =
      if i == 0
      then (record q { counter = 0; session = restart q.session }, o_store)
      else (q, outside)
  next i call_flush q outside = (q, outside)
  next i c q (e_load fun par) = (q, if q.closed then outside else e_add fun par)
  next i c q (e_add fun par) =
      if below entries q.counter
      then (
        record (add q) { session = accept i q.counter fun par q.session },
        e_fill q.counter fun par,
      )
      else (add q, outside)
  next i c q (e_fill k fun par) = (record q { session = fill k par q.session }, e_publish k fun par)
  next i c q (e_publish k fun par) = (record q { session = publish k fun q.session }, outside)
  next i c q o_store = (record q { closed = false }, opened)
  next i call_flush q opened = (q, f_load 0)
  next i c q opened = (q, opened)
  next i c q (f_load done) = (
    q,
    if q.counter == done
        then f_exchange done
        else if below entries q.counter
        then f_next done q.counter true
        else f_full done,
  )
  next i c q (f_exchange done) = (record q { counter = entries }, f_close done q.counter)
  next i c q (f_close done todo) = (
    record q { closed = true },
    if below entries todo then f_next done todo false else f_full done,
  )
  next i c q (f_full done) = (record q { closed = true }, f_next done entries false)
  next i c q (f_spin index todo more) = (
    q,
    if q.session.fun index == 0
        then f_spin index todo more
        else f_call index (q.session.fun index) todo more,
  )
  next i c q (f_call index fun todo more) =
      (record q { session = call index fun q.session }, f_clear index todo more)
  next i c q (f_clear index todo more) =
      (record q { session = clear index q.session }, f_next (index + 1) todo more)
