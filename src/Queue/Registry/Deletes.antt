-- ===== src/Queue/Registry/Deletes.antt =====
-- queues/buffer_queue.hpp: only the end of `flush` deletes maps.
use qd_library.Prelude.{Bool, true, if◌then◌else◌, [], false, ℕ, ◌≡◌, ap}
use qd_library.Queue.Registry.{
  Registry, Call, call_enqueue, call_flush, spurious, reuse, without, allocate, Pc, outside,
  r_sizes, r_functions, r_rev, exchanges, next,
}

-- The end of `flush`.
abbrev pub deletes : Call → Bool
deletes call_flush = true
deletes c = false

allocate-deletes : (c : Call) (r : Registry) → r.deleted ≡ [] → (allocate c r).deleted ≡ []
allocate-deletes (reuse a) r e = ap (without a) e
allocate-deletes c r e = e

either-deletes :
    (b : Bool) (x y : Registry) (p q : Pc)
    → x.deleted ≡ []
    → y.deleted ≡ []
    → (if◌then◌else◌ {A = Registry × Pc} b (x, p) (y, q)).0.deleted ≡ []
either-deletes true x y p q h g = h
either-deletes false x y p q h g = g

module _ (size_of : ℕ → ℕ) where
  spurious-deletes :
      (i : ℕ) (r : Registry) (p : Pc)
      → r.deleted ≡ []
      → (next size_of i spurious r p).0.deleted ≡ []
  unfolding next
  spurious-deletes i r (r_sizes op idx s f v) e = e
  spurious-deletes i r (r_functions op idx s f v) e = e
  spurious-deletes i r (r_rev op idx s f v) e = e
  spurious-deletes i r p e = e

  -- A step that is not the end of `flush` deletes nothing.
  pub turn-deletes :
      (i : ℕ) (c : Call) (r : Registry) (p : Pc)
      → deletes c ≡ false
      → r.deleted ≡ []
      → (next size_of i c r p).0.deleted ≡ []
  unfolding next
  turn-deletes i call_flush r p n e = absurd (cc)
  turn-deletes i spurious r p n e = spurious-deletes i r p e
  turn-deletes i c r (r_sizes op idx s f v) n e =
      either-deletes (exchanges c s r.sizes) _ _ _ _ (allocate-deletes c r e) e
  turn-deletes i c r (r_functions op idx s f v) n e =
      either-deletes (exchanges c f r.functions) _ _ _ _ (allocate-deletes c r e) e
  turn-deletes i c r (r_rev op idx s f v) n e =
      either-deletes (exchanges c v r.rev_functions) _ _ _ _ (allocate-deletes c r e) e
  turn-deletes i (call_enqueue op) r outside n e = e
  turn-deletes i c r p n e = e
