-- ===== src/Queue/Registry/Publish.antt =====
-- queues/buffer_queue.hpp: what each access of a thread that registers a function does to the maps.
use qd_library.Prelude.{
  List, [], some_eq, none≢some, ℕ, ◌+◌, ◌≤◌, ◌<◌, ◌≡◌, ◌⊎◌, refl, sym, ap, ◌∙◌, none, some, inl,
  inr, arith, ◌==◌, Bool-cases,
}
use qd_library.Queue.Registry.{
  MapPointer, Registry, Call, reuse, r_push, is_in, without, place, allocate, Pc, outside, r_index,
  r_load_functions, r_sizes, r_functions, r_rev, insert,
}
use qd_library.Queue.Registry.Inv.{
  reserves, IsSeen, Knows, Maps, Grows, same_Grows, out_of_date, still-IsSeen,
}
use qd_library.Queue.Registry.Insert.{
  insert-old, insert-new, insert_split, sizes_keep, functions_keep,
}

module _ (size_of : ℕ → ℕ) where
  -- What a step of a thread does, to the maps and to the thread.
  pub record Does (r : Registry) (p : Pc) (res : Registry × Pc) : Type 0 where
    pub maps : Maps size_of res.0
    pub grows : Grows size_of r res.0
    pub knows : Knows size_of res.0 res.1
    -- Numbers that nobody has published stay free, but the one that the thread publishes.
    pub free_stay :
        (a : ℕ)
        → (reserves p ≡ some a → reserves res.1 ≡ some a)
        → r.functions.content a ≡ none
        → res.0.functions.content a ≡ none
    pub counts : r.function_idx ≤ res.0.function_idx
    pub slow : res.0.function_idx ≤ r.function_idx + 1
    -- The thread keeps its number, or has drawn the next one.
    pub draws :
        (a : ℕ)
        → reserves res.1 ≡ some a
        → (reserves p ≡ some a) ⊎ ((a ≡ r.function_idx) × (res.0.function_idx ≡ r.function_idx + 1))

  pub quiet :
      (r : Registry) (p p' : Pc)
      → Maps size_of r
      → Knows size_of r p'
      → ((a : ℕ) → reserves p' ≡ some a → reserves p ≡ some a)
      → Does r p (r, p')
  quiet r p p' m k d = record {
    maps = m;
    grows = same_Grows size_of r;
    knows = k;
    free_stay = λ a h f. f;
    counts = omega arith;
    slow = omega arith;
    draws = λ a h. inl (d a h);
  }

  pub index-Does :
      (r : Registry) (op : ℕ) (s : MapPointer)
      → Maps size_of r
      → IsSeen r s r.sizes
      → Does r
          (r_index op s)
          (record r { function_idx = r.function_idx + 1 }, r_load_functions op r.function_idx s)
  index-Does r op s m k = record {
    maps = record {
      found = m.found;
      unused = λ k h. m.unused k (omega arith);
      sizes_old = m.sizes_old;
      functions_old = m.functions_old;
      rev_old = m.rev_old;
    };
    grows = record {
      seen_sizes = λ m h. still-IsSeen size_of r _ m r.sizes (omega arith) h;
      seen_functions = λ m h. still-IsSeen size_of r _ m r.functions (omega arith) h;
      seen_rev = λ m h. still-IsSeen size_of r _ m r.rev_functions (omega arith) h;
      sized = λ op h. h;
      named = λ k op h. h;
    };
    knows = still-IsSeen size_of r _ s r.sizes (omega arith) k;
    free_stay = λ a h f. f;
    counts = omega arith;
    slow = omega arith;
    draws = λ a h. inr (sym (some_eq h), refl);
  }

  sizes-Does :
      (r : Registry) (gone : List ℕ) (op idx : ℕ) (s f v : MapPointer)
      → Maps size_of r
      → Knows size_of r (r_sizes op idx s f v)
      → s.pointer ≡ r.sizes.pointer
      → Does r (r_sizes op idx s f v) (
        record r {
          sizes = insert r.allocated op (size_of op) s;
          allocated = r.allocated + 1;
          deleted = gone;
        },
        r_functions op idx s f v,
      )
  sizes-Does r gone op idx s f v m k e = record {
    maps = record {
      found = λ op' n h.
          ((m.found op' n h).0, sizes_keep size_of r s op op' (k.0.same e) (m.found op' n h).1);
      unused = m.unused;
      sizes_old = omega arith;
      functions_old = omega (arith, m.functions_old);
      rev_old = omega (arith, m.rev_old);
    };
    grows = record {
      seen_sizes = λ x h. out_of_date size_of r _ x r.sizes _ refl refl h;
      seen_functions = λ x h. still-IsSeen size_of r _ x r.functions (omega arith) h;
      seen_rev = λ x h. still-IsSeen size_of r _ x r.rev_functions (omega arith) h;
      sized = λ op' h. sizes_keep size_of r s op op' (k.0.same e) h;
      named = λ n op h. h;
    };
    knows = (
      still-IsSeen size_of r _ f r.functions (omega arith) k.1,
      still-IsSeen size_of r _ v r.rev_functions (omega arith) k.2,
      insert-new size_of r.allocated op (size_of op) s,
    );
    free_stay = λ a h f. f;
    counts = omega arith;
    slow = omega arith;
    draws = λ a h. inl h;
  }

  functions-Does :
      (r : Registry) (gone : List ℕ) (op idx : ℕ) (s f v : MapPointer)
      → Maps size_of r
      → Knows size_of r (r_functions op idx s f v)
      → f.pointer ≡ r.functions.pointer
      → idx < r.function_idx
      → r.functions.content idx ≡ none
      → Does r (r_functions op idx s f v) (
        record r {
          functions = insert r.allocated idx op f;
          allocated = r.allocated + 1;
          deleted = gone;
        },
        r_rev op idx s f v,
      )
  functions-Does r gone op idx s f v m k e lt free = record {
    maps = record {
      found = λ op' n h. (
        functions_keep size_of r f idx op n op' (k.0.same e) free (m.found op' n h).0,
        (m.found op' n h).1,
      );
      unused = λ n h.
          insert-old size_of r.allocated idx op f r.functions n (k.0.same e) (ground (arith, lt, h))
          ∙ m.unused n h;
      sizes_old = omega (arith, m.sizes_old);
      functions_old = omega arith;
      rev_old = omega (arith, m.rev_old);
    };
    grows = record {
      seen_sizes = λ x h. still-IsSeen size_of r _ x r.sizes (omega arith) h;
      seen_functions = λ x h. out_of_date size_of r _ x r.functions _ refl refl h;
      seen_rev = λ x h. still-IsSeen size_of r _ x r.rev_functions (omega arith) h;
      sized = λ op h. h;
      named = λ n op' h. functions_keep size_of r f idx op n op' (k.0.same e) free h;
    };
    knows = (
      still-IsSeen size_of r _ v r.rev_functions (omega arith) k.1,
      k.2,
      insert-new size_of r.allocated idx op f,
    );
    free_stay = λ a h g. elim (Bool-cases (idx == a)) [
      | inl q ↦ let same : idx ≡ a = ground (arith, q) in absurd (none≢some (h (ap some same)))
      | inr q ↦ insert-old size_of r.allocated idx op f r.functions a (k.0.same e) q ∙ g
    ];
    counts = omega arith;
    slow = omega arith;
    draws = λ a h. absurd (none≢some h);
  }

  rev-Does :
      (r : Registry) (gone : List ℕ) (op idx : ℕ) (s f v : MapPointer)
      → Maps size_of r
      → Knows size_of r (r_rev op idx s f v)
      → v.pointer ≡ r.rev_functions.pointer
      → Does r (r_rev op idx s f v) (
        record r {
          rev_functions = insert r.allocated op idx v;
          allocated = r.allocated + 1;
          deleted = gone;
        },
        r_push s f v,
      )
  rev-Does r gone op idx s f v m k e = record {
    maps = record {
      found = λ op' n h.
          elim (insert_split size_of r.allocated op idx v r.rev_functions op' (some n) (k.0.same e)
            h) [
              | inl (q, p) ↦ (
                ap r.functions.content (sym (some_eq p)) ∙ k.2 ∙ ap some q,
                ap r.sizes.content (sym q) ∙ k.1 ∙ ap (λ o. some (size_of o)) q,
              )
              | inr old ↦ m.found op' n old
            ];
      unused = m.unused;
      sizes_old = omega (arith, m.sizes_old);
      functions_old = omega (arith, m.functions_old);
      rev_old = omega arith;
    };
    grows = record {
      seen_sizes = λ x h. still-IsSeen size_of r _ x r.sizes (omega arith) h;
      seen_functions = λ x h. still-IsSeen size_of r _ x r.functions (omega arith) h;
      seen_rev = λ x h. out_of_date size_of r _ x r.rev_functions _ refl refl h;
      sized = λ op h. h;
      named = λ n op h. h;
    };
    knows = tt;
    free_stay = λ a h g. g;
    counts = omega arith;
    slow = omega arith;
    draws = λ a h. absurd (none≢some h);
  }

  -- What does not concern the maps.
  pub aside-Does :
      (r : Registry) (p : Pc) (waiting gone : List ℕ)
      → Maps size_of r
      → Does r p (record r { to_free = waiting; deleted = gone }, outside)
  aside-Does r p waiting gone m = record {
    maps = record {
      found = m.found;
      unused = m.unused;
      sizes_old = m.sizes_old;
      functions_old = m.functions_old;
      rev_old = m.rev_old;
    };
    grows = record {
      seen_sizes = λ m h. still-IsSeen size_of r _ m r.sizes (omega arith) h;
      seen_functions = λ m h. still-IsSeen size_of r _ m r.functions (omega arith) h;
      seen_rev = λ m h. still-IsSeen size_of r _ m r.rev_functions (omega arith) h;
      sized = λ op h. h;
      named = λ k op h. h;
    };
    knows = tt;
    free_stay = λ a h g. g;
    counts = omega arith;
    slow = omega arith;
    draws = λ a h. absurd (none≢some h);
  }

  pub sizes-published :
      (c : Call) (r : Registry) (op idx : ℕ) (s f v : MapPointer)
      → r.deleted ≡ []
      → Maps size_of r
      → Knows size_of r (r_sizes op idx s f v)
      → s.pointer ≡ r.sizes.pointer
      → Does r (r_sizes op idx s f v) (
        record (allocate c r) { sizes = insert (place c r) op (size_of op) s },
        r_functions op idx s f v,
      )
  sizes-published (reuse a) r op idx s f v alive m k e =
      rw (ap (is_in a) alive) (sizes-Does r (without a r.deleted) op idx s f v m k e)
  sizes-published c r op idx s f v alive m k e = sizes-Does r r.deleted op idx s f v m k e

  pub functions-published :
      (c : Call) (r : Registry) (op idx : ℕ) (s f v : MapPointer)
      → r.deleted ≡ []
      → Maps size_of r
      → Knows size_of r (r_functions op idx s f v)
      → f.pointer ≡ r.functions.pointer
      → idx < r.function_idx
      → r.functions.content idx ≡ none
      → Does r
          (r_functions op idx s f v)
          (record (allocate c r) { functions = insert (place c r) idx op f }, r_rev op idx s f v)
  functions-published (reuse a) r op idx s f v alive m k e lt free =
      rw (ap (is_in a) alive) (functions-Does r (without a r.deleted) op idx s f v m k e lt free)
  functions-published c r op idx s f v alive m k e lt free =
      functions-Does r r.deleted op idx s f v m k e lt free

  pub rev-published :
      (c : Call) (r : Registry) (op idx : ℕ) (s f v : MapPointer)
      → r.deleted ≡ []
      → Maps size_of r
      → Knows size_of r (r_rev op idx s f v)
      → v.pointer ≡ r.rev_functions.pointer
      → Does r
          (r_rev op idx s f v)
          (record (allocate c r) { rev_functions = insert (place c r) op idx v }, r_push s f v)
  rev-published (reuse a) r op idx s f v alive m k e =
      rw (ap (is_in a) alive) (rev-Does r (without a r.deleted) op idx s f v m k e)
  rev-published c r op idx s f v alive m k e = rev-Does r r.deleted op idx s f v m k e
