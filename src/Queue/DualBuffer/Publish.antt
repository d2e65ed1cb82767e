-- ===== src/Queue/DualBuffer/Publish.antt =====
-- queues/dual_buffer_queue.hpp: filling and publishing a reservation, executing one, and starting
-- anew keep what holds of the buffer.
use qd_library.Prelude.{
  some_eq, ℕ, ◌+◌, ◌^◌, ◌≤◌, ◌<◌, ◌≡◌, ◌≢◌, sym, ap, ◌∙◌, ◌⊎◌, inl, inr, false, List, [], ◌∷◌, ◌++◌,
  ◌==◌, if◌then◌else◌, none, some, arith, Bool-cases,
}
use mathlib.Core.List.{append_assoc}
use mathlib.Core.Path.{subst, subst₂}
use native.Mathlib.Decide.{ℕ_discrete}
use qd_library.Interleave.{update}
use qd_library.Queue.DualBuffer.{Wrappers, AtomicInstructionPolicy, Cells, Slot, Pc}
use qd_library.Queue.DualBuffer.Slots.{At, At-bounds, calls, Writes, Ready, Laid, Laid-frame}
use qd_library.Queue.DualBuffer.Core.{
  aims, Core, Writes-aims, Writes-still, Writes-frame, Ready-idle,
}

module _ (w : Wrappers) (entries entry_size : ℕ) (policy : AtomicInstructionPolicy) where
  module _ {c : Cells} {log accepted : List (ℕ × ℕ)} {base : ℕ} {pending : List Slot}
      {pc : ℕ → Pc w.Op} (v : Core w entries entry_size policy c log accepted base pending pc)
      (i index : ℕ) (aim : aims w entries entry_size policy (pc i) ≡ some index) where
    abbrev Off : Cells → Type 0
    Off c' =
        (a : ℕ)
        → a ≢ index
        → (c'.fun a ≡ c.fun a) × (c'.size a ≡ c.size a) × (c'.params a ≡ c.params a)

    -- The thread that has reserved slot `index` writes there; what it was about to publish it is
    -- still about to publish, or has published.
    Ready-write :
        (c' : Cells) (p : Pc w.Op)
        → Off c'
        → ((x : Slot)
            → Writes w entries entry_size policy c (pc i) x index
            → Ready w entries entry_size policy c' (update pc i p) x index)
        → (x : Slot) (b : ℕ) → Ready w entries entry_size policy c pc x b
        → Ready w entries entry_size policy c' (update pc i p) x b
    Ready-write c' p off own x b r = elim (ℕ_discrete b index) [
      | yes e ↦ here e r
      | no ne ↦ there ne r
    ]
      where
        other : (j : ℕ) → aims w entries entry_size policy (pc j) ≡ some b → b ≢ index → i ≢ j
        other j h ne q =
            ne (some_eq (sym h ∙ ap (λ k. aims w entries entry_size policy (pc k)) (sym q) ∙ aim))

        there :
            b ≢ index
            → Ready w entries entry_size policy c pc x b
            → Ready w entries entry_size policy c' (update pc i p) x b
        there ne (inl r) = inl (ground (arith, off b ne))
        there ne (inr (z, (j, h))) = inr (
          (off b ne).0 ∙ z,
          (
            j,
            Writes-frame w entries entry_size policy c c' _ x b (off b ne).1 (off b ne).2 (
                Writes-still w entries entry_size policy c pc i j p x b
                  (other j (Writes-aims w entries entry_size policy c (pc j) x b h) ne) h),
          ),
        )

        mine :
            (j : ℕ)
            → b ≡ index
            → Writes w entries entry_size policy c (pc j) x b
            → Writes w entries entry_size policy c (pc i) x index
        mine j e h =
            let same =
              v.unique j i index
                (Writes-aims w entries entry_size policy c (pc j) x b h ∙ ap some e) aim in
            subst₂ (λ k a. Writes w entries entry_size policy c (pc k) x a) same e h

        here :
            b ≡ index
            → Ready w entries entry_size policy c pc x b
            → Ready w entries entry_size policy c' (update pc i p) x b
        here e (inl r) = absurd (ground (arith, ap c.fun e, v.blank i index aim))
        here e (inr (z, (j, h))) =
            subst (λ a. Ready w entries entry_size policy c' (update pc i p) x a) (sym e)
              (own x (mine j e h))

    pub Core-write :
        (c' : Cells) (p : Pc w.Op)
        → Off c'
        → ((x : Slot)
            → Writes w entries entry_size policy c (pc i) x index
            → Ready w entries entry_size policy c' (update pc i p) x index)
        → ((a : ℕ) → aims w entries entry_size policy p ≡ some a → (a ≡ index) × (c'.fun a ≡ 0))
        → c'.fun index < 2 ^ 56
        → Core w entries entry_size policy c' log accepted base pending (update pc i p)
    Core-write c' p off own again tiny = record {
      sized = v.sized;
      laid =
          Laid-frame w entries entry_size policy c c' pc _ pending base (Ready-write c' p off own)
            v.laid;
      targets = λ j a h. targets j a h;
      blank = λ j a h. blank j a h;
      unique = λ j k a h g. ground (arith, v.unique j k a, v.unique i k a, v.unique j i a, again a);
      fresh = λ a h lt.
          let inside = At-bounds pending base index v.sized (v.targets i index aim) in
          (off a (omega (arith, inside))).0 ∙ v.fresh a h lt;
      small = λ a lt. small a lt;
      within = v.within;
      order = v.order;
    }
      where
        targets :
            (j a : ℕ)
            → aims w entries entry_size policy (update pc i p j) ≡ some a
            → At base pending a
        targets j a h = elim (Bool-cases (i == j)) [
          | inl q ↦ subst (At base pending) (sym (again a (ground arith)).0) (v.targets i index aim)
          | inr q ↦ v.targets j a (ground arith)
        ]

        small : (a : ℕ) → a < entries → c'.fun a < 2 ^ 56
        small a lt = elim (ℕ_discrete a index) [
          | yes e ↦ rw e tiny
          | no ne ↦ rw ((off a ne).0) (v.small a lt)
        ]

        apart :
            (j a : ℕ)
            → (i == j) ≡ false
            → aims w entries entry_size policy (pc j) ≡ some a
            → a ≢ index
        apart j a q h e = absurd (ground (arith, v.unique i j index aim (h ∙ ap some e)))

        blank :
            (j a : ℕ) → aims w entries entry_size policy (update pc i p j) ≡ some a → c'.fun a ≡ 0
        blank j a h = elim (Bool-cases (i == j)) [
          | inl q ↦ (again a (ground arith)).1
          | inr q ↦
              let h' : aims w entries entry_size policy (pc j) ≡ some a = ground arith in
              (off a (apart j a q h')).0 ∙ v.blank j a h'
        ]

  -- The helper executes the oldest reservation, which has been published.
  pub Core-execute :
      (c : Cells) (log accepted : List (ℕ × ℕ)) (base : ℕ) (x : Slot) (rest : List Slot)
      (pc : ℕ → Pc w.Op) (p : Pc w.Op)
      → Core w entries entry_size policy c log accepted base (x ∷ rest) pc
      → aims w entries entry_size policy (pc 0) ≡ none
      → aims w entries entry_size policy p ≡ none
      → c.fun base ≢ 0
      → Core w entries entry_size policy c
          (if c.fun base == w.no_op then log else log ++ (c.fun base, c.params base) ∷ [])
          accepted
          (base + c.size base)
          rest
          (update pc 0 p)
  Core-execute c log accepted base x rest pc p v e e' full = record {
    sized = v.sized.1;
    laid =
        subst (λ a. Laid w entries entry_size policy c (update pc 0 p) a rest) moved
          (Laid-frame w entries entry_size policy c c pc _ rest (base + x.size)
            (Ready-idle w entries entry_size policy v 0 p e) v.laid.1);
    targets = λ j a h. subst (λ b. At b rest a) moved (later j a (ground arith));
    blank = λ j a h. v.blank j a (ground arith);
    unique = λ j k a h g. v.unique j k a (ground arith) (ground arith);
    fresh = λ a h. v.fresh a (omega (arith, published));
    small = v.small;
    within = omega (arith, published, v.within);
    order = v.order ∙ order published;
  }
    where
      published :
          (c.fun base ≡ x.fun)
          × (c.size base ≡ x.size)
          × ((x.fun ≡ w.no_op) ⊎ (c.params base ≡ x.params))
      published = elim (v.laid.0) [ inl r ↦ (r.0, r.2.0, r.2.1) | inr r ↦ absurd (full r.0) ]

      moved : base + x.size ≡ base + c.size base
      moved = ap (λ k. base + k) (sym published.1)

      later :
          (j a : ℕ) → aims w entries entry_size policy (pc j) ≡ some a → At (base + x.size) rest a
      later j a h = elim (v.targets j a h) [
        | inl q ↦ absurd (full (ap c.fun (sym q) ∙ v.blank j a h))
        | inr l ↦ l
      ]

      order :
          (c.fun base ≡ x.fun)
            × (c.size base ≡ x.size)
            × ((x.fun ≡ w.no_op) ⊎ (c.params base ≡ x.params))
          → log ++ calls w.no_op (x ∷ rest)
            ≡ (if c.fun base == w.no_op then log else log ++ (c.fun base, c.params base) ∷ [])
              ++ calls w.no_op rest
      order h =
          ground (arith, append_assoc log ((c.fun base, c.params base) ∷ []) (calls w.no_op rest))

  -- With nothing pending the buffer may start anew.
  pub Core-restart :
      (c c' : Cells) (log accepted : List (ℕ × ℕ)) (base base' i : ℕ) (pc : ℕ → Pc w.Op)
      (p : Pc w.Op)
      → Core w entries entry_size policy c log accepted base [] pc
      → base' ≤ entries
      → ((a : ℕ) → a < entries → c'.fun a ≡ 0)
      → aims w entries entry_size policy p ≡ none
      → Core w entries entry_size policy c' log accepted base' [] (update pc i p)
  Core-restart c c' log accepted base base' i pc p v inside zeros e = record {
    sized = tt;
    laid = tt;
    targets = λ j a h. v.targets j a (ground arith);
    blank = λ j a h. absurd (v.targets j a (ground arith));
    unique = λ j k a h g. absurd (v.targets j a (ground arith));
    fresh = λ a h lt. zeros a lt;
    small = λ a lt. rw (zeros a lt) (omega arith);
    within = omega arith;
    order = v.order;
  }
