-- ===== src/Queue/DualBuffer/Slots.antt =====
-- queues/dual_buffer_queue.hpp: the reservations in the buffer, from the oldest one that has not
-- been executed to the end of the reserved part.
use qd_library.Prelude.{
  ℕ, ◌+◌, ◌≤◌, ◌<◌, ◌≡◌, refl, ◌⊎◌, inl, inr, List, [], ◌∷◌, ◌++◌, ◌==◌, if◌then◌else◌, Option,
  none, some, arith,
}
use mathlib.Core.Path.{subst}
use qd_library.Queue.DualBuffer.{
  Wrappers, AtomicInstructionPolicy, Cells, Slot, Pc, e_fill, e_publish, e_fill_no_op,
  e_publish_no_op, slot, last_slot,
}

abbrev pub span : List Slot → ℕ
span [] = 0
span (x ∷ xs) = x.size + span xs

pub span-append : (xs ys : List Slot) → span (xs ++ ys) ≡ span xs + span ys
span-append [] ys = omega arith
span-append (x ∷ xs) ys = omega (arith, span-append xs ys)

-- A reservation begins at slot `c`, where the list begins at slot `a`.
abbrev pub At : ℕ → List Slot → ℕ → Type 0
At a [] c = ⊥
At a (x ∷ xs) c = (c ≡ a) ⊎ At (a + x.size) xs c

-- A reservation begins at `c`, or the last one ends there.
abbrev pub Edge : ℕ → List Slot → ℕ → Type 0
Edge a [] c = c ≡ a
Edge a (x ∷ xs) c = (c ≡ a) ⊎ Edge (a + x.size) xs c

abbrev pub IsSlot : Slot → Type 0
IsSlot x = 0 < x.size

abbrev pub Sized : List Slot → Type 0
Sized [] = Unit {0}
Sized (x ∷ xs) = IsSlot x × Sized xs

pub Sized-snoc : (xs : List Slot) (x : Slot) → Sized xs → IsSlot x → Sized (xs ++ x ∷ [])
Sized-snoc [] x s h = (h, tt)
Sized-snoc (y ∷ xs) x s h = (s.0, Sized-snoc xs x s.1 h)

pub At-bounds : (xs : List Slot) (a c : ℕ) → Sized xs → At a xs c → (a ≤ c) × (c < a + span xs)
At-bounds [] a c s h = absurd h
At-bounds (x ∷ xs) a c s (inl e) = (omega arith, omega arith)
At-bounds (x ∷ xs) a c s (inr h) =
    let b = At-bounds xs (a + x.size) c s.1 h in (omega (arith, b), omega (arith, b))

pub At-old : (xs : List Slot) (x : Slot) (a c : ℕ) → At a xs c → At a (xs ++ x ∷ []) c
At-old [] x a c h = absurd h
At-old (y ∷ xs) x a c (inl e) = inl e
At-old (y ∷ xs) x a c (inr h) = inr (At-old xs x (a + y.size) c h)

pub At-new : (xs : List Slot) (x : Slot) (a c : ℕ) → c ≡ a + span xs → At a (xs ++ x ∷ []) c
At-new [] x a c h = inl (omega arith)
At-new (y ∷ xs) x a c h = inr (At-new xs x (a + y.size) c (omega arith))

pub Edge-old : (xs : List Slot) (x : Slot) (a c : ℕ) → Edge a xs c → Edge a (xs ++ x ∷ []) c
Edge-old [] x a c h = inl h
Edge-old (y ∷ xs) x a c (inl e) = inl e
Edge-old (y ∷ xs) x a c (inr h) = inr (Edge-old xs x (a + y.size) c h)

pub Edge-end : (xs : List Slot) (a c : ℕ) → c ≡ a + span xs → Edge a xs c
Edge-end [] a c h = omega arith
Edge-end (y ∷ xs) a c h = inr (Edge-end xs (a + y.size) c (omega arith))

pub Edge-bounds : (xs : List Slot) (a c : ℕ) → Edge a xs c → (a ≤ c) × (c ≤ a + span xs)
Edge-bounds [] a c e = (omega arith, omega arith)
Edge-bounds (x ∷ xs) a c (inl e) = (omega arith, omega arith)
Edge-bounds (x ∷ xs) a c (inr h) =
    let b = Edge-bounds xs (a + x.size) c h in (omega (arith, b), omega (arith, b))

-- The calls that the reservations will make; a `no_op` counts for nothing.
abbrev pub calls : ℕ → List Slot → List (ℕ × ℕ)
calls no_op [] = []
calls no_op (x ∷ xs) = if x.fun == no_op then calls no_op xs else (x.fun, x.params) ∷ calls no_op xs

pub calls-append :
    (no_op : ℕ) (xs ys : List Slot) → calls no_op (xs ++ ys) ≡ calls no_op xs ++ calls no_op ys
calls-append no_op [] ys = refl
calls-append no_op (x ∷ xs) ys = ground (arith, calls-append no_op xs ys)

module _ (w : Wrappers) (entries entry_size : ℕ) (policy : AtomicInstructionPolicy) where
  -- The slot that a thread has reserved and has not published yet.
  abbrev pub target : Pc w.Op → Option ℕ
  target (e_fill index op par) = some index
  target (e_publish index op par) = some index
  target (e_fill_no_op index) = some index
  target (e_publish_no_op index) = some index
  target _ = none

  -- Size and parameters of the reservation are in the buffer.
  abbrev pub Stored : Cells → Slot → ℕ → Type 0
  Stored c x a = (c.size a ≡ x.size) × ((x.fun ≡ w.no_op) ⊎ (c.params a ≡ x.params))

  -- The thread is about to publish the reservation `x` at slot `a`.
  abbrev pub Writes : Cells → Pc w.Op → Slot → ℕ → Type 0
  Writes c (e_fill index op par) x a = (index ≡ a) × (x ≡ slot w entries entry_size policy op par)
  Writes c (e_publish index op par) x a =
      (index ≡ a) × (x ≡ slot w entries entry_size policy op par) × Stored c x a
  Writes c (e_fill_no_op index) x a =
      (index ≡ a) × (x ≡ last_slot w entries entry_size policy index)
  Writes c (e_publish_no_op index) x a =
      (index ≡ a) × (x ≡ last_slot w entries entry_size policy index) × Stored c x a
  Writes c _ x a = ⊥

  -- The reservation is published, or some thread is about to publish it.
  abbrev pub Ready : Cells → (ℕ → Pc w.Op) → Slot → ℕ → Type 0
  Ready c pc x a =
      ((c.fun a ≡ x.fun) × (0 < x.fun) × Stored c x a)
      ⊎ ((c.fun a ≡ 0) × ((j : ℕ) × Writes c (pc j) x a))

  abbrev pub Laid : Cells → (ℕ → Pc w.Op) → ℕ → List Slot → Type 0
  Laid c pc a [] = Unit {0}
  Laid c pc a (x ∷ xs) = Ready c pc x a × Laid c pc (a + x.size) xs

  pub Laid-frame :
      (c c' : Cells) (pc pc' : ℕ → Pc w.Op) (xs : List Slot) (a : ℕ)
      → ((x : Slot) (b : ℕ) → Ready c pc x b → Ready c' pc' x b)
      → Laid c pc a xs
      → Laid c' pc' a xs
  Laid-frame c c' pc pc' [] a keep l = tt
  Laid-frame c c' pc pc' (x ∷ xs) a keep l =
      (keep x a l.0, Laid-frame c c' pc pc' xs (a + x.size) keep l.1)

  pub Laid-snoc :
      (c : Cells) (pc : ℕ → Pc w.Op) (xs : List Slot) (x : Slot) (a b : ℕ)
      → b ≡ a + span xs
      → Laid c pc a xs
      → Ready c pc x b
      → Laid c pc a (xs ++ x ∷ [])
  Laid-snoc c pc [] x a b e l r = let e' : b ≡ a = omega arith in (subst (Ready c pc x) e' r, tt)
  Laid-snoc c pc (y ∷ xs) x a b e l r =
      (l.0, Laid-snoc c pc xs x (a + y.size) b (omega arith) l.1 r)
