-- ===== src/Queue/Registry/Steps.antt =====
-- queues/buffer_queue.hpp: each access of a thread that registers a function keeps what is known.
use qd_library.Prelude.{
  [], ◌%◌, ◌^◌, ℕ, ◌+◌, ◌<◌, ◌≡◌, refl, none, some, inl, inr, arith, Bool-cases,
}
use qd_library.Queue.Registry.{
  Registry, Call, call_enqueue, call_flush, r_push, Pc, outside, r_count, r_load_sizes, r_index,
  r_load_functions, r_load_rev, r_sizes, r_functions, r_rev, exchanges, is_known, next,
}
use qd_library.Queue.Registry.Inv.{reserves, Knows, Maps, exchanges-same, loaded}
use qd_library.Queue.Registry.Publish.{
  Does, quiet, index-Does, aside-Does, sizes-published, functions-published, rev-published,
}

module _ (size_of : ℕ → ℕ) where
  pub turn-Does :
      (i : ℕ) (c : Call) (r : Registry) (p : Pc)
      → Maps size_of r
      → Knows size_of r p
      → ((a : ℕ) → reserves p ≡ some a → (a < r.function_idx) × (r.functions.content a ≡ none))
      → r.function_idx + 1 < 2 ^ 32
      → r.deleted ≡ []
      → Does size_of r p (next size_of i c r p)
  unfolding next
  turn-Does i (call_enqueue op) r outside m k d few alive =
      quiet size_of r outside (r_count op) m tt (λ a h. absurd (cc))
  turn-Does i call_flush r outside m k d few alive = aside-Does size_of r outside _ _ m
  turn-Does i c r outside m k d few alive =
      quiet size_of r outside outside m tt (λ a h. absurd (cc))
  turn-Does i c r (r_count op) m k d few alive =
      elim (Bool-cases (is_known (r.rev_functions.content op))) [
        | inl e ↦ rw e (quiet size_of r (r_count op) outside m tt (λ a h. absurd (cc)))
        | inr e ↦ rw e (quiet size_of r (r_count op) (r_load_sizes op) m tt (λ a h. absurd (cc)))
      ]
  turn-Does i c r (r_load_sizes op) m k d few alive =
      quiet size_of r (r_load_sizes op) (r_index op r.sizes) m
        (loaded size_of r r.sizes m.sizes_old) (λ a h. absurd (cc))
  turn-Does i c r (r_index op s) m k d few alive =
      let wrap : (r.function_idx + 1) % 2 ^ 32 ≡ r.function_idx + 1 = omega arith in
      rw wrap (index-Does size_of r op s m k)
  turn-Does i c r (r_load_functions op idx s) m k d few alive =
      quiet size_of r (r_load_functions op idx s) (r_load_rev op idx s r.functions) m
        (k, loaded size_of r r.functions m.functions_old) (λ a h. h)
  turn-Does i c r (r_load_rev op idx s f) m k d few alive =
      quiet size_of r (r_load_rev op idx s f) (r_sizes op idx s f r.rev_functions) m
        (k.0, k.1, loaded size_of r r.rev_functions m.rev_old) (λ a h. h)
  turn-Does i c r (r_sizes op idx s f v) m k d few alive =
      elim (Bool-cases (exchanges c s r.sizes)) [
        | inl e ↦ rw e (
            sizes-published size_of c r op idx s f v alive m k
              (exchanges-same size_of c s r.sizes e))
        | inr e ↦ rw e (
            quiet size_of r (r_sizes op idx s f v) (r_sizes op idx r.sizes f v) m
              (loaded size_of r r.sizes m.sizes_old, k.1, k.2) (λ a h. h))
      ]
  turn-Does i c r (r_functions op idx s f v) m k d few alive =
      elim (Bool-cases (exchanges c f r.functions)) [
        | inl e ↦ rw e (
            functions-published size_of c r op idx s f v alive m k
              (exchanges-same size_of c f r.functions e) (d idx refl).0 (d idx refl).1)
        | inr e ↦ rw e (
            quiet size_of r (r_functions op idx s f v) (r_functions op idx s r.functions v) m
              (loaded size_of r r.functions m.functions_old, k.1, k.2) (λ a h. h))
      ]
  turn-Does i c r (r_rev op idx s f v) m k d few alive =
      elim (Bool-cases (exchanges c v r.rev_functions)) [
        | inl e ↦ rw e (
            rev-published size_of c r op idx s f v alive m k
              (exchanges-same size_of c v r.rev_functions e))
        | inr e ↦ rw e (
            quiet size_of r (r_rev op idx s f v) (r_rev op idx s f r.rev_functions) m
              (loaded size_of r r.rev_functions m.rev_old, k.1, k.2) (λ a h. absurd (cc)))
      ]
  turn-Does i c r (r_push s f v) m k d few alive = aside-Does size_of r (r_push s f v) _ _ m
