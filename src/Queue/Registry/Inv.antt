-- ===== src/Queue/Registry/Inv.antt =====
-- queues/buffer_queue.hpp: a function that has a number is found by it, with its size.
use qd_library.Prelude.{ℕ, ◌+◌, ◌≤◌, ◌<◌, ◌≡◌, refl, true, Option, none, some, arith}
use qd_library.Interleave.{State}
use qd_library.Queue.Registry.{
  MapPointer, Registry, Call, spurious, Pc, r_index, r_load_functions, r_load_rev, r_sizes,
  r_functions, r_rev, exchanges,
}

-- The number that a thread has drawn, and not published in `functions` yet.
abbrev pub reserves : Pc → Option ℕ
reserves (r_load_functions op idx s) = some idx
reserves (r_load_rev op idx s f) = some idx
reserves (r_sizes op idx s f v) = some idx
reserves (r_functions op idx s f v) = some idx
reserves p = none

-- A pointer that a thread has loaded: if it is still the current one, so is the map behind it.
pub record IsSeen (r : Registry) (seen now : MapPointer) : Type 0 where
  pub older : seen.pointer < r.allocated
  pub same : seen.pointer ≡ now.pointer → seen.content ≡ now.content

module _ (size_of : ℕ → ℕ) where
  abbrev pub Sized : Registry → ℕ → Type 0
  Sized r op = r.sizes.content op ≡ some (size_of op)

  -- What a thread knows where it stands.
  abbrev pub Knows : Registry → Pc → Type 0
  Knows r (r_index op s) = IsSeen r s r.sizes
  Knows r (r_load_functions op idx s) = IsSeen r s r.sizes
  Knows r (r_load_rev op idx s f) = IsSeen r s r.sizes × IsSeen r f r.functions
  Knows r (r_sizes op idx s f v) =
      IsSeen r s r.sizes × IsSeen r f r.functions × IsSeen r v r.rev_functions
  Knows r (r_functions op idx s f v) =
      IsSeen r f r.functions × IsSeen r v r.rev_functions × Sized r op
  Knows r (r_rev op idx s f v) =
      IsSeen r v r.rev_functions × Sized r op × (r.functions.content idx ≡ some op)
  Knows r p = Unit

  -- A function that has a number is the function of this number, and its size is known.
  abbrev pub Found : Registry → Type 0
  Found r =
      (op k : ℕ)
      → r.rev_functions.content op ≡ some k
      → (r.functions.content k ≡ some op) × (r.sizes.content op ≡ some (size_of op))

  pub record Maps (r : Registry) : Type 0 where
    pub found : Found r
    pub unused : (k : ℕ) → r.function_idx ≤ k → r.functions.content k ≡ none
    pub sizes_old : r.sizes.pointer < r.allocated
    pub functions_old : r.functions.pointer < r.allocated
    pub rev_old : r.rev_functions.pointer < r.allocated

  pub record Inv (s : State Registry Pc) : Type 0 where
    pub maps : Maps s.mem
    pub knows : (j : ℕ) → Knows s.mem (s.pc j)
    pub drawn :
        (j a : ℕ)
        → reserves (s.pc j) ≡ some a
        → (a < s.mem.function_idx) × (s.mem.functions.content a ≡ none)
    pub unique : (j k a : ℕ) → reserves (s.pc j) ≡ some a → reserves (s.pc k) ≡ some a → j ≡ k

  -- How a step changes the maps: nothing is lost.
  pub record Grows (r r' : Registry) : Type 0 where
    pub seen_sizes : (m : MapPointer) → IsSeen r m r.sizes → IsSeen r' m r'.sizes
    pub seen_functions : (m : MapPointer) → IsSeen r m r.functions → IsSeen r' m r'.functions
    pub seen_rev : (m : MapPointer) → IsSeen r m r.rev_functions → IsSeen r' m r'.rev_functions
    pub sized : (op : ℕ) → Sized r op → Sized r' op
    pub named : (k op : ℕ) → r.functions.content k ≡ some op → r'.functions.content k ≡ some op

  pub Knows-Grows : (r r' : Registry) → Grows r r' → (p : Pc) → Knows r p → Knows r' p
  Knows-Grows r r' g (r_index op s) h = g.seen_sizes s h
  Knows-Grows r r' g (r_load_functions op idx s) h = g.seen_sizes s h
  Knows-Grows r r' g (r_load_rev op idx s f) h = (g.seen_sizes s h.0, g.seen_functions f h.1)
  Knows-Grows r r' g (r_sizes op idx s f v) h =
      (g.seen_sizes s h.0, g.seen_functions f h.1, g.seen_rev v h.2)
  Knows-Grows r r' g (r_functions op idx s f v) h =
      (g.seen_functions f h.0, g.seen_rev v h.1, g.sized op h.2)
  Knows-Grows r r' g (r_rev op idx s f v) h = (g.seen_rev v h.0, g.sized op h.1, g.named idx op h.2)
  Knows-Grows r r' g p h = tt

  pub same_Grows : (r : Registry) → Grows r r
  same_Grows r = record {
    seen_sizes = λ m h. h;
    seen_functions = λ m h. h;
    seen_rev = λ m h. h;
    sized = λ op h. h;
    named = λ k op h. h;
  }

  -- A new map at a new place: what other threads have seen of the old one is out of date.
  pub out_of_date :
      (r r' : Registry) (seen now now' : MapPointer)
      → now'.pointer ≡ r.allocated
      → r'.allocated ≡ r.allocated + 1
      → IsSeen r seen now
      → IsSeen r' seen now'
  out_of_date r r' seen now now' p a h = record {
    older = omega (arith, h.older, a);
    same = λ e. absurd (omega (arith, h.older, e, p));
  }

  pub still-IsSeen :
      (r r' : Registry) (seen now : MapPointer)
      → r.allocated ≤ r'.allocated
      → IsSeen r seen now
      → IsSeen r' seen now
  still-IsSeen r r' seen now le h = record { older = omega (arith, h.older, le); same = h.same }

  pub exchanges-same :
      (c : Call) (seen now : MapPointer) → exchanges c seen now ≡ true → seen.pointer ≡ now.pointer
  exchanges-same spurious seen now h = absurd (cc)
  exchanges-same c seen now h = ground (arith, h)

  pub loaded : (r : Registry) (m : MapPointer) → m.pointer < r.allocated → IsSeen r m m
  loaded r m h = record { older = h; same = λ e. refl }
