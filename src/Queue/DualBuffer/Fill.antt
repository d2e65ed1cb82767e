-- ===== src/Queue/DualBuffer/Fill.antt =====
-- queues/dual_buffer_queue.hpp: the writes of `enqueue` into the buffer keep the invariant.
use qd_library.Prelude.{
  some_eq, ℕ, ◌-◌, ◌^◌, ◌<◌, ◌≡◌, ◌≢◌, refl, sym, ap, ◌∙◌, inl, inr, false, [], Option, some, arith,
}
use mathlib.Core.Path.{subst}
use qd_library.Interleave.{update}
use qd_library.Queue.DualBuffer.{
  Wrappers, AtomicInstructionPolicy, Cells, Slot, Pc, outside, e_fill, e_publish, e_fill_no_op,
  e_publish_no_op, DualBufferQueue, Call, req, next,
}
use qd_library.Queue.DualBuffer.Slots.{At, At-bounds, target, Stored, Writes, Ready}
use qd_library.Queue.DualBuffer.Core.{Writes-moved}
use qd_library.Queue.DualBuffer.Publish.{Core-write}
use qd_library.Queue.DualBuffer.Phase.{Phase, Phase-write}
use qd_library.Queue.DualBuffer.Inv.{Fits, is_helper, claims, Inv, Phase-of, helpers_of, bound_of}
use qd_library.Queue.DualBuffer.Enqueue.{Kept}

module _ (w : Wrappers) (entries entry_size : ℕ) (policy : AtomicInstructionPolicy) (threads : ℕ)
    (fits : Fits w entries entry_size policy threads) (q : DualBufferQueue) (pc : ℕ → Pc w.Op)
    (v : Inv w entries entry_size policy threads (record { mem = q; pc = pc })) (i : ℕ)
    (turn : i < threads) where
  abbrev Still : DualBufferQueue × Pc w.Op → Type 0
  Still = Kept w entries entry_size policy threads fits q pc v i turn

  abbrev aim : Pc w.Op → Option ℕ
  aim = target w entries entry_size policy

  Phase-aims : (p : Pc w.Op) (index : ℕ) → aim p ≡ some index → Phase w entries q p → q.pending ≡ []
  Phase-aims outside index e h = absurd (cc)
  Phase-aims (e_fill a op par) index e h = h.1
  Phase-aims (e_publish a op par) index e h = h.1
  Phase-aims (e_fill_no_op a) index e h = h.1
  Phase-aims (e_publish_no_op a) index e h = h.1
  Phase-aims p index e h = absurd (cc)

  module _ (index : ℕ) (reserved : aim (pc i) ≡ some index) where
    inside : At q.base q.pending index
    inside = v.core.targets i index reserved

    index-lt : index < entries
    index-lt = omega (arith, At-bounds q.pending q.base index v.core.sized inside, v.core.within)

    write_kept :
        (c' : Cells) (p' : Pc w.Op)
        → ((a : ℕ)
            → a ≢ index
            → (c'.fun a ≡ q.cells.fun a)
              × (c'.size a ≡ q.cells.size a)
              × (c'.params a ≡ q.cells.params a))
        → ((x : Slot)
            → Writes w entries entry_size policy q.cells (pc i) x index
            → Ready w entries entry_size policy c' (update pc i p') x index)
        → ((a : ℕ) → aim p' ≡ some a → (a ≡ index) × (c'.fun a ≡ 0))
        → c'.fun index < 2 ^ 56
        → is_helper p' ≡ false
        → claims w entries entry_size policy threads p' ≡ 0
        → Still (record q { cells = c' }, p')
    write_kept c' p' off own again tiny enq none_claimed = record {
      core =
          Core-write w entries entry_size policy v.core i index reserved c' p' off own again tiny;
      phase =
          Phase-of w entries entry_size policy threads fits q pc v i turn _ p'
            (λ ne.
              Phase-write w entries q c' index (pc 0) inside (v.core.blank i index reserved)
                (λ a d. (off a d).0) v.phase)
            (λ z. absurd (
              subst (λ l. At q.base l index)
                (Phase-aims (pc i) index reserved
                  (subst (Phase w entries q) (ap pc (sym z)) v.phase))
                inside));
      helpers =
          helpers_of w entries entry_size policy threads fits q pc v i turn p' (λ t. absurd (cc));
      bound =
          bound_of w entries entry_size policy threads fits q pc v i turn q.counter p'
            (omega (arith, none_claimed));
    }

  -- The thread's reservation, at its program point.
  abbrev About : Pc w.Op → Slot → ℕ → Type 0
  About = Writes w entries entry_size policy q.cells

  same_index : (p : Pc w.Op) (index : ℕ) → aim p ≡ some index → (a : ℕ) → aim p ≡ some a → a ≡ index
  same_index p index e a h = some_eq (sym h ∙ e)

  blank_at : (index : ℕ) → aim (pc i) ≡ some index → q.cells.fun index < 2 ^ 56
  blank_at index e = rw (v.core.blank i index e) (omega arith)

  again_at :
      (index : ℕ)
      → aim (pc i) ≡ some index
      → (p : Pc w.Op) → aim p ≡ some index
      → (a : ℕ) → aim p ≡ some a
      → (a ≡ index) × (q.cells.fun a ≡ 0)
  again_at index e p g a h =
      (same_index p index g a h, ap q.cells.fun (same_index p index g a h) ∙ v.core.blank i index e)

  pub fill :
      (index : ℕ) (op : w.Op) (par : ℕ) (c : Call w.Op)
      → pc i ≡ e_fill index op par
      → Still (next w entries entry_size policy i c q (e_fill index op par))
  unfolding next
  fill index op par c e =
      write_kept index (ap aim e) c' (e_publish index op par) (λ a d. ground arith)
        (λ x h. inr (v.core.blank i index (ap aim e), (i, own x h)))
        (again_at index (ap aim e) (e_publish index op par) refl) (blank_at index (ap aim e)) refl
        refl
    where
      c' : Cells
      c' = record (q.cells) {
        size = update q.cells.size index (req w entries entry_size policy op);
        params = update q.cells.params index par;
      }

      own :
          (x : Slot)
          → About (pc i) x index
          → Writes w entries entry_size policy c' (update pc i (e_publish index op par) i) x index
      own x h =
          let h' : About (e_fill index op par) x index = subst (λ p. About p x index) e h in
          Writes-moved w entries entry_size policy c' pc i (e_publish index op par) x index
            (refl, h'.1, (ground (arith, h'.1), inr (ground (arith, h'.1))))

  pub publish :
      (index : ℕ) (op : w.Op) (par : ℕ) (c : Call w.Op)
      → pc i ≡ e_publish index op par
      → Still (next w entries entry_size policy i c q (e_publish index op par))
  unfolding next
  publish index op par c e =
      write_kept index (ap aim e) _ outside (λ a d. ground arith) (λ x h. inl (own x h))
        (λ a h. absurd (cc)) (ground (arith, w.address_small op)) refl refl
    where
      own :
          (x : Slot)
          → About (pc i) x index
          → (update q.cells.fun index (w.address op) index ≡ x.fun)
            × (0 < x.fun)
            × Stored w entries entry_size policy q.cells x index
      own x h =
          let h' : About (e_publish index op par) x index = subst (λ p. About p x index) e h in
          (ground (arith, h'.1), ground (arith, h'.1, w.address_pos op), h'.2)

  pub fill_no_op :
      (index : ℕ) (c : Call w.Op)
      → pc i ≡ e_fill_no_op index
      → Still (next w entries entry_size policy i c q (e_fill_no_op index))
  unfolding next
  fill_no_op index c e =
      write_kept index (ap aim e) c' (e_publish_no_op index) (λ a d. ground arith)
        (λ x h. inr (v.core.blank i index (ap aim e), (i, own x h)))
        (again_at index (ap aim e) (e_publish_no_op index) refl) (blank_at index (ap aim e)) refl
        refl
    where
      c' : Cells
      c' = record (q.cells) { size = update q.cells.size index (entries - index) }

      own :
          (x : Slot)
          → About (pc i) x index
          → Writes w entries entry_size policy c' (update pc i (e_publish_no_op index) i) x index
      own x h =
          let h' : About (e_fill_no_op index) x index = subst (λ p. About p x index) e h in
          Writes-moved w entries entry_size policy c' pc i (e_publish_no_op index) x index
            (refl, h'.1, (ground (arith, h'.1), inl (ap (λ y. y.fun) h'.1)))

  pub publish_no_op :
      (index : ℕ) (c : Call w.Op)
      → pc i ≡ e_publish_no_op index
      → Still (next w entries entry_size policy i c q (e_publish_no_op index))
  unfolding next
  publish_no_op index c e =
      write_kept index (ap aim e) _ outside (λ a d. ground arith) (λ x h. inl (own x h))
        (λ a h. absurd (cc)) (ground (arith, w.no_op_small)) refl refl
    where
      own :
          (x : Slot)
          → About (pc i) x index
          → (update q.cells.fun index w.no_op index ≡ x.fun)
            × (0 < x.fun)
            × Stored w entries entry_size policy q.cells x index
      own x h =
          let h' : About (e_publish_no_op index) x index = subst (λ p. About p x index) e h in
          (ground (arith, h'.1), ground (arith, h'.1, w.no_op_pos), h'.2)
