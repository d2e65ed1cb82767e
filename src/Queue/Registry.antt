-- ===== src/Queue/Registry.antt =====
-- queues/buffer_queue.hpp: how `enqueue` registers a wrapper function, by copies of three maps that
-- replace them, an atomic access at a time. The number of a function and its size are what `flush`
-- finds an entry's function by.
pub mod Inv
pub mod Insert
pub mod Publish
pub mod Steps
pub mod Deletes
pub mod Found
mod Tests
use qd_library.Prelude.{
  ℕ, ◌+◌, ◌%◌, ◌^◌, List, [], ◌∷◌, ◌++◌, Bool, true, false, Option, none, some, ◌==◌, if◌then◌else◌,
}
use qd_library.Interleave.{update}

-- A `std::map` behind an atomic pointer. A published map is not changed any more; to read it after
-- `flush` has deleted it has no defined behaviour, and reads the old content here.
pub record MapPointer : Type 0 where
  pub pointer : ℕ
  pub content : ℕ → Option ℕ

-- `sizes`, `functions`, `rev_functions`, `function_idx` as the bits of an `int`, and what is in
-- `to_free` or `to_free2`. Of the heap: `allocated`, the next address that has never been used, and
-- the addresses that have been deleted.
pub record Registry : Type 0 where
  pub sizes : MapPointer
  pub functions : MapPointer
  pub rev_functions : MapPointer
  pub function_idx : ℕ
  pub to_free : List ℕ
  pub allocated : ℕ
  pub deleted : List ℕ

abbrev empty_at : ℕ → MapPointer
empty_at a = record { pointer = a; content = λ k. none }

abbrev pub registry : Registry
registry = record {
  sizes = empty_at 0;
  functions = empty_at 1;
  rev_functions = empty_at 2;
  function_idx = 1;
  to_free = [];
  allocated = 3;
  deleted = [];
}

-- `spurious` makes `compare_exchange_weak` fail; `reuse` makes `new` return an address that has been
-- deleted, if it has.
pub data Call : Type 0 where
  call_enqueue : ℕ → Call
  call_flush go spurious : Call
  reuse : ℕ → Call

-- In `enqueue` of the function at an address: before the lookup in `rev_functions`, the loads of the
-- three pointers and the addition to `function_idx` between them, before the exchange of each
-- pointer, and before the pushes to `to_free`, with the pointers and the number got so far.
pub data Pc : Type 0 where
  outside : Pc
  r_count : ℕ → Pc
  r_load_sizes : ℕ → Pc
  r_index : ℕ → MapPointer → Pc
  r_load_functions : ℕ → ℕ → MapPointer → Pc
  r_load_rev : ℕ → ℕ → MapPointer → MapPointer → Pc
  r_sizes : ℕ → ℕ → MapPointer → MapPointer → MapPointer → Pc
  r_functions : ℕ → ℕ → MapPointer → MapPointer → MapPointer → Pc
  r_rev : ℕ → ℕ → MapPointer → MapPointer → MapPointer → Pc
  r_push : MapPointer → MapPointer → MapPointer → Pc

-- The copy of a map, with one more entry, at a new place.
abbrev pub insert : ℕ → ℕ → ℕ → MapPointer → MapPointer
insert place key value m = record { pointer = place; content = update m.content key (some value) }

-- `compare_exchange_weak` succeeds.
abbrev pub exchanges : Call → MapPointer → MapPointer → Bool
exchanges spurious seen now = false
exchanges c seen now = seen.pointer == now.pointer

abbrev pub is_known : Option ℕ → Bool
is_known none = false
is_known (some k) = true

abbrev pub is_in : ℕ → List ℕ → Bool
is_in a [] = false
is_in a (x ∷ xs) = if x == a then true else is_in a xs

abbrev pub without : ℕ → List ℕ → List ℕ
without a [] = []
without a (x ∷ xs) = let rest = x ∷ without a xs in if x == a then xs else rest

-- The address of a new map. It is chosen when the map is published, not at the `new` before, which
-- allows at least as much: an address that was free then is so until this map takes it.
abbrev pub place : Call → Registry → ℕ
place (reuse a) r = if is_in a r.deleted then a else r.allocated
place c r = r.allocated

abbrev pub allocate : Call → Registry → Registry
allocate (reuse a) r = record r { allocated = r.allocated + 1; deleted = without a r.deleted }
allocate c r = record r { allocated = r.allocated + 1 }

-- The end of `flush`, under `to_free_lock`.
abbrev pub delete_all : Registry → Registry
delete_all r = record r { to_free = []; deleted = r.deleted ++ r.to_free }

abbrev pub push_all : MapPointer → MapPointer → MapPointer → Registry → Registry
push_all s f v r = record r { to_free = r.to_free ++ s.pointer ∷ v.pointer ∷ f.pointer ∷ [] }

module _ (size_of : ℕ → ℕ) where
  unfoldable pub next : ℕ → Call → Registry → Pc → Registry × Pc
  next i (call_enqueue op) r outside = (r, r_count op)
  next i call_flush r outside = (delete_all r, outside)
  next i c r outside = (r, outside)
  next i c r (r_count op) =
      (r, if is_known (r.rev_functions.content op) then outside else r_load_sizes op)
  next i c r (r_load_sizes op) = (r, r_index op r.sizes)
  next i c r (r_index op s) = (
    record r { function_idx = (r.function_idx + 1) % 2 ^ 32 },
    r_load_functions op r.function_idx s,
  )
  next i c r (r_load_functions op idx s) = (r, r_load_rev op idx s r.functions)
  next i c r (r_load_rev op idx s f) = (r, r_sizes op idx s f r.rev_functions)
  next i c r (r_sizes op idx s f v) =
      if exchanges c s r.sizes
      then (
        record (allocate c r) { sizes = insert (place c r) op (size_of op) s },
        r_functions op idx s f v,
      )
      else (r, r_sizes op idx r.sizes f v)
  next i c r (r_functions op idx s f v) =
      if exchanges c f r.functions
      then (record (allocate c r) { functions = insert (place c r) idx op f }, r_rev op idx s f v)
      else (r, r_functions op idx s r.functions v)
  next i c r (r_rev op idx s f v) =
      if exchanges c v r.rev_functions
      then (record (allocate c r) { rev_functions = insert (place c r) op idx v }, r_push s f v)
      else (r, r_rev op idx s f r.rev_functions)
  next i c r (r_push s f v) = (push_all s f v r, outside)
