-- ===== src/Queue/DualBuffer/Core.antt =====
-- queues/dual_buffer_queue.hpp: how the buffer and the threads that fill it fit together, and that
-- each way to change them keeps this.
use qd_library.Prelude.{
  ℕ, ◌+◌, ◌^◌, ◌≤◌, ◌<◌, ◌≡◌, ◌≢◌, sym, ap, ◌∙◌, inl, inr, List, [], ◌∷◌, ◌++◌, ◌==◌, Option, none,
  some, arith, Bool-cases,
}
use mathlib.Core.List.{append_assoc}
use mathlib.Core.Path.{subst}
use qd_library.Interleave.{update}
use qd_library.Queue.DualBuffer.{
  Wrappers, AtomicInstructionPolicy, Cells, Slot, Pc, e_fill, e_publish, e_fill_no_op,
  e_publish_no_op,
}
use qd_library.Queue.DualBuffer.Slots.{
  span, span-append, At, Sized, Sized-snoc, At-bounds, At-old, At-new, calls, calls-append, target,
  Writes, Ready, Laid, Laid-frame, Laid-snoc,
}

module _ (w : Wrappers) (entries entry_size : ℕ) (policy : AtomicInstructionPolicy) where
  abbrev pub aims : Pc w.Op → Option ℕ
  aims = target w entries entry_size policy

  pub Writes-aims :
      (c : Cells) (p : Pc w.Op) (x : Slot) (b : ℕ)
      → Writes w entries entry_size policy c p x b
      → aims p ≡ some b
  Writes-aims c (e_fill index op par) x b h = ap some h.0
  Writes-aims c (e_publish index op par) x b h = ap some h.0
  Writes-aims c (e_fill_no_op index) x b h = ap some h.0
  Writes-aims c (e_publish_no_op index) x b h = ap some h.0
  Writes-aims c p x b h = absurd h

  -- A thread that does not move is about to publish what it was about to publish.
  pub Writes-still :
      (c : Cells) (pc : ℕ → Pc w.Op) (i j : ℕ) (p : Pc w.Op) (x : Slot) (b : ℕ)
      → i ≢ j
      → Writes w entries entry_size policy c (pc j) x b
      → Writes w entries entry_size policy c (update pc i p j) x b
  Writes-still c pc i j p x b ne h =
      let e : pc j ≡ update pc i p j = ground arith in
      subst (λ q. Writes w entries entry_size policy c q x b) e h

  pub Writes-moved :
      (c : Cells) (pc : ℕ → Pc w.Op) (i : ℕ) (p : Pc w.Op) (x : Slot) (b : ℕ)
      → Writes w entries entry_size policy c p x b
      → Writes w entries entry_size policy c (update pc i p i) x b
  Writes-moved c pc i p x b h =
      let e : p ≡ update pc i p i = ground arith in
      subst (λ q. Writes w entries entry_size policy c q x b) e h

  -- Writes to another slot do not matter.
  pub Writes-frame :
      (c c' : Cells) (p : Pc w.Op) (x : Slot) (b : ℕ)
      → c'.size b ≡ c.size b
      → c'.params b ≡ c.params b
      → Writes w entries entry_size policy c p x b
      → Writes w entries entry_size policy c' p x b
  Writes-frame c c' (e_fill index op par) x b s q h = h
  Writes-frame c c' (e_publish index op par) x b s q h =
      (h.0, h.1, (s ∙ h.2.0, ground (arith, h.2.1)))
  Writes-frame c c' (e_fill_no_op index) x b s q h = h
  Writes-frame c c' (e_publish_no_op index) x b s q h =
      (h.0, h.1, (s ∙ h.2.0, ground (arith, h.2.1)))
  Writes-frame c c' p x b s q h = absurd h

  pub record Core (c : Cells) (log accepted : List (ℕ × ℕ)) (base : ℕ) (pending : List Slot)
      (pc : ℕ → Pc w.Op) : Type 0 where
    pub sized : Sized pending
    pub laid : Laid w entries entry_size policy c pc base pending
    pub targets : (i a : ℕ) → target w entries entry_size policy (pc i) ≡ some a → At base pending a
    pub blank : (i a : ℕ) → target w entries entry_size policy (pc i) ≡ some a → c.fun a ≡ 0
    pub unique :
        (i j a : ℕ)
        → target w entries entry_size policy (pc i) ≡ some a
        → target w entries entry_size policy (pc j) ≡ some a
        → i ≡ j
    pub fresh : (a : ℕ) → base + span pending ≤ a → a < entries → c.fun a ≡ 0
    pub small : (a : ℕ) → a < entries → c.fun a < 2 ^ 56
    pub within : base + span pending ≤ entries
    pub order : accepted ≡ log ++ calls w.no_op pending

  module _ {c : Cells} {log accepted : List (ℕ × ℕ)} {base : ℕ} {pending : List Slot}
      {pc : ℕ → Pc w.Op} (v : Core c log accepted base pending pc) (i : ℕ) where
    -- A thread that has reserved nothing moves.
    pub Ready-idle :
        (p : Pc w.Op)
        → aims (pc i) ≡ none
        → (x : Slot) (b : ℕ) → Ready w entries entry_size policy c pc x b
        → Ready w entries entry_size policy c (update pc i p) x b
    Ready-idle p e x b (inl r) = inl r
    Ready-idle p e x b (inr (z, (j, h))) =
        let aim = Writes-aims c (pc j) x b h in
        inr (z, (j, Writes-still c pc i j p x b (λ q. cc (ap pc q)) h))

    pub Core-idle :
        (p : Pc w.Op)
        → aims (pc i) ≡ none
        → aims p ≡ none
        → Core c log accepted base pending (update pc i p)
    Core-idle p e e' = record {
      sized = v.sized;
      laid = Laid-frame w entries entry_size policy c c pc _ pending base (Ready-idle p e) v.laid;
      targets = λ j a h. v.targets j a (ground arith);
      blank = λ j a h. v.blank j a (ground arith);
      unique = λ j k a h g. v.unique j k a (ground arith) (ground arith);
      fresh = v.fresh;
      small = v.small;
      within = v.within;
      order = v.order;
    }

    -- A thread reserves the next slots.
    pub Core-claim :
        (p : Pc w.Op) (x : Slot) (b : ℕ)
        → aims (pc i) ≡ none
        → b ≡ base + span pending
        → 0 < x.size
        → b + x.size ≤ entries
        → aims p ≡ some b
        → Writes w entries entry_size policy c p x b
        → Core c log (accepted ++ calls w.no_op (x ∷ [])) base (pending ++ x ∷ []) (update pc i p)
    Core-claim p x b e stop pos fits aim writes = record {
      sized = Sized-snoc pending x v.sized pos;
      laid =
          Laid-snoc w entries entry_size policy c _ pending x base b stop
            (Laid-frame w entries entry_size policy c c pc _ pending base (Ready-idle p e) v.laid)
            (inr (v.fresh b (omega arith) (omega arith), (i, Writes-moved c pc i p x b writes)));
      targets = λ j a h. targets j a h;
      blank = λ j a h. ground (arith, v.blank j a, v.fresh b);
      unique = λ j k a h g.
          ground
            (arith, v.unique j k a, v.targets j a, v.targets k a, At-bounds pending base a v.sized);
      fresh = λ a h. v.fresh a (omega (arith, span-append pending (x ∷ [])));
      small = v.small;
      within = omega (arith, span-append pending (x ∷ []));
      order =
          ap (λ l. l ++ calls w.no_op (x ∷ [])) v.order
          ∙ append_assoc log _ _
          ∙ ap (λ l. log ++ l) (sym (calls-append w.no_op pending (x ∷ [])));
    }
      where
        targets : (j a : ℕ) → aims (update pc i p j) ≡ some a → At base (pending ++ x ∷ []) a
        targets j a h = elim (Bool-cases (i == j)) [
          | inl q ↦ At-new pending x base a (ground arith)
          | inr q ↦ At-old pending x base a (v.targets j a (ground arith))
        ]
