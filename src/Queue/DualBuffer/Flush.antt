-- ===== src/Queue/DualBuffer/Flush.antt =====
-- queues/dual_buffer_queue.hpp: each access of `open` and `flush` keeps the invariant.
use qd_library.Prelude.{
  ℕ, ◌+◌, ◌*◌, ◌≤◌, ◌<◌, ◌≡◌, ◌≢◌, refl, sym, ap, ◌∙◌, inl, inr, Bool, true, false, List, [], ◌∷◌,
  ◌++◌, ltb, leb, ◌==◌, if◌then◌else◌, none, arith, Bool-cases,
}
use mathlib.Core.Path.{subst}
use qd_library.Interleave.{update}
use qd_library.Queue.DualBuffer.{
  Wrappers, AtomicInstructionPolicy, Cells, Slot, Pc, outside, e_load, opened, f_load, f_exchange,
  f_spin, f_call, f_clear, DualBufferQueue, Call, call_enqueue, call_open, call_flush, f_next, min_,
  u32, next, executed, clear, rest_of,
}
use qd_library.Queue.DualBuffer.Slots.{span, Edge, Edge-end, Edge-bounds, Ready}
use qd_library.Queue.DualBuffer.Core.{aims, Core}
use qd_library.Queue.DualBuffer.Publish.{Core-execute, Core-restart}
use qd_library.Queue.DualBuffer.Phase.{Closed, Runs, Phase, Phase-next}
use qd_library.Queue.DualBuffer.Core.{Core-idle}
use qd_library.Interleave.Total.{total, total-le}
use qd_library.Queue.DualBuffer.Inv.{Fits, is_helper, claims, Inv, Phase-of, helpers_of, bound_of}
use qd_library.Queue.DualBuffer.Enqueue.{Kept, idle, claims-le}

size-of_published :
    (w : Wrappers) (entries entry_size : ℕ) (policy : AtomicInstructionPolicy) (c : Cells)
    (pc : ℕ → Pc w.Op) (base : ℕ) (x : Slot)
    → Ready w entries entry_size policy c pc x base
    → c.fun base ≢ 0
    → c.size base ≡ x.size
size-of_published w entries entry_size policy c pc base x (inl r) full = r.2.0
size-of_published w entries entry_size policy c pc base x (inr r) full = absurd (full r.0)

module _ (w : Wrappers) (entries entry_size : ℕ) (policy : AtomicInstructionPolicy) {c : Cells}
    {log accepted : List (ℕ × ℕ)} {base : ℕ} {pc : ℕ → Pc w.Op} where
  -- The helper executes the oldest of the pending reservations.
  Core-pop :
      (xs : List Slot) (p : Pc w.Op)
      → Core w entries entry_size policy c log accepted base xs pc
      → 0 < span xs
      → aims w entries entry_size policy (pc 0) ≡ none
      → aims w entries entry_size policy p ≡ none
      → c.fun base ≢ 0
      → Core w entries entry_size policy c
          (if c.fun base == w.no_op then log else log ++ (c.fun base, c.params base) ∷ [])
          accepted
          (base + c.size base)
          (rest_of xs)
          (update pc 0 p)
  Core-pop [] p v pos e e' full = absurd (omega arith)
  Core-pop (x ∷ rest) p v pos e e' full =
      Core-execute w entries entry_size policy c log accepted base x rest pc p v e e' full

  span-pop :
      (xs : List Slot)
      → Core w entries entry_size policy c log accepted base xs pc
      → 0 < span xs
      → c.fun base ≢ 0
      → base + c.size base + span (rest_of xs) ≡ base + span xs
  span-pop [] v pos full = absurd (omega arith)
  span-pop (x ∷ rest) v pos full =
      omega (arith, size-of_published w entries entry_size policy c pc base x v.laid.0 full)

  Edge-pop :
      (xs : List Slot) (todo : ℕ)
      → Core w entries entry_size policy c log accepted base xs pc
      → base < todo
      → c.fun base ≢ 0
      → Edge base xs todo
      → Edge (base + c.size base) (rest_of xs) todo
  Edge-pop [] todo v lt full h = absurd (omega arith)
  Edge-pop (x ∷ rest) todo v lt full (inl h) = absurd (omega arith)
  Edge-pop (x ∷ rest) todo v lt full (inr h) =
      subst (λ a. Edge a rest todo)
        (ap (λ k. base + k)
          (sym (size-of_published w entries entry_size policy c pc base x v.laid.0 full)))
        h

  restart :
      (c' : Cells) (pending : List Slot) (i : ℕ) (p : Pc w.Op)
      → pending ≡ []
      → Core w entries entry_size policy c log accepted base pending pc
      → ((a : ℕ) → a < entries → c'.fun a ≡ 0)
      → aims w entries entry_size policy p ≡ none
      → (base' : ℕ) → base' ≤ entries
      → Core w entries entry_size policy c' log accepted base' [] (update pc i p)
  restart c' pending i p none_left v zeros e base' le =
      Core-restart w entries entry_size policy c c' log accepted base base' i pc p
        (subst (λ l. Core w entries entry_size policy c log accepted base l pc) none_left v) le
        zeros e

module _ (w : Wrappers) (entries entry_size : ℕ) (policy : AtomicInstructionPolicy) (threads : ℕ)
    (fits : Fits w entries entry_size policy threads) (q : DualBufferQueue) (pc : ℕ → Pc w.Op)
    (v : Inv w entries entry_size policy threads (record { mem = q; pc = pc })) (i : ℕ)
    (turn : i < threads) where
  abbrev Still : DualBufferQueue × Pc w.Op → Type 0
  Still = Kept w entries entry_size policy threads fits q pc v i turn

  abbrev CoreOf : DualBufferQueue → (ℕ → Pc w.Op) → Type 0
  CoreOf q' = Core w entries entry_size policy q'.cells q'.log q'.accepted q'.base q'.pending

  abbrev Lowered : DualBufferQueue → Pc w.Op → Type 0
  Lowered q' p =
      q'.counter + total (claims w entries entry_size policy threads) threads (update pc i p)
      ≤ entries + threads * entries

  bounded_by :
      (counter : ℕ) (p : Pc w.Op)
      → claims w entries entry_size policy threads p ≡ 0
      → counter ≤ q.counter
      → Lowered (record q { counter = counter }) p
  bounded_by counter p z le =
      bound_of w entries entry_size policy threads fits q pc v i turn counter p (omega arith)

  -- A step of the helper within `open` and `flush`.
  helped :
      (p : Pc w.Op) (q' : DualBufferQueue) (p' : Pc w.Op)
      → pc i ≡ p
      → is_helper p ≡ true
      → (CoreOf q pc → CoreOf q' (update pc i p'))
      → Lowered q' p'
      → (Phase w entries q p → Phase w entries q' p')
      → Still (q', p')
  helped p q' p' e h core b phase =
      let z : i ≡ 0 = v.helpers i (ap is_helper e ∙ h) in
      record {
        core = core v.core;
        phase =
            Phase-of w entries entry_size policy threads fits q pc v i turn q' p'
              (λ ne. absurd (ne z))
              (λ y. phase (subst (Phase w entries q) (ap pc (sym z) ∙ e) v.phase));
        helpers = helpers_of w entries entry_size policy threads fits q pc v i turn p' (λ t. z);
        bound = b;
      }

  quiet :
      (p p' : Pc w.Op)
      → pc i ≡ p
      → aims w entries entry_size policy p ≡ none
      → aims w entries entry_size policy p' ≡ none
      → CoreOf q pc
      → CoreOf q (update pc i p')
  quiet p p' e a a' core =
      Core-idle w entries entry_size policy core i p' (ap (aims w entries entry_size policy) e ∙ a)
        a'

  -- The next point of the loops is one of `flush`, without a reservation or a claim.
  f_next-plain :
      (index todo : ℕ) (more : Bool)
      → (aims w entries entry_size policy (f_next index todo more) ≡ none)
        × (claims w entries entry_size policy threads (f_next index todo more) ≡ 0)
  f_next-plain index todo more = elim (Bool-cases (ltb index todo)) [
    | inl lt ↦ rw lt (refl, refl)
    | inr ge ↦ elim (Bool-cases more) [
      | inl m ↦ rw (ge, m) (refl, refl)
      | inr m ↦ rw (ge, m) (refl, refl)
    ]
  ]

  pub at_outside :
      (c : Call w.Op) → pc i ≡ outside → Still (next w entries entry_size policy i c q outside)
  unfolding next
  at_outside (call_enqueue op par) e =
      idle w entries entry_size policy threads fits q pc v i turn outside (e_load op par) e refl
        refl refl refl (λ h. h) (λ h. h) (bounded_by q.counter (e_load op par) refl (omega arith))
  at_outside call_flush e =
      idle w entries entry_size policy threads fits q pc v i turn outside outside e refl refl refl
        refl (λ h. h) (λ h. h) (bounded_by q.counter outside refl (omega arith))
  at_outside call_open e = elim (Bool-cases (i == 0)) [
    | inl z ↦ rw z (opens (ground arith))
    | inr other ↦ rw other (
        idle w entries entry_size policy threads fits q pc v i turn outside outside e refl refl refl
          refl (λ h. h) (λ h. h) (bounded_by q.counter outside refl (omega arith)))
  ]
    where
      -- With the buffer empty and clean, thread 0 opens the queue.
      opens : i ≡ 0 → Still (record q { counter = 0; base = 0; pending = [] }, opened)
      opens z =
          let closed : Closed w entries q = subst (Phase w entries q) (ap pc (sym z) ∙ e) v.phase in
          record {
            core =
                restart w entries entry_size policy q.cells q.pending i opened closed.1 v.core
                  closed.2 refl 0 (omega arith);
            phase =
                Phase-of w entries entry_size policy threads fits q pc v i turn _ opened
                  (λ ne. absurd (ne z)) (λ y. (ground (arith, fits.entries_pos), refl));
            helpers =
                helpers_of w entries entry_size policy threads fits q pc v i turn opened (λ t. z);
            bound = bounded_by 0 opened refl (omega arith);
          }

  pub at_opened :
      (c : Call w.Op) → pc i ≡ opened → Still (next w entries entry_size policy i c q opened)
  unfolding next
  at_opened call_flush e =
      helped opened q (f_load 0) e refl (quiet opened (f_load 0) e refl refl)
        (bounded_by q.counter (f_load 0) refl (omega arith)) (λ h. (h.0, sym h.1))
  at_opened call_open e =
      helped opened q opened e refl (quiet opened opened e refl refl)
        (bounded_by q.counter opened refl (omega arith)) (λ h. h)
  at_opened (call_enqueue op par) e =
      helped opened q opened e refl (quiet opened opened e refl refl)
        (bounded_by q.counter opened refl (omega arith)) (λ h. h)

  pub at_load :
      (done : ℕ) (c : Call w.Op)
      → pc i ≡ f_load done
      → Still (next w entries entry_size policy i c q (f_load done))
  unfolding next
  at_load done c e = elim (Bool-cases (q.counter == done)) [
    | inl same ↦ rw same (
        helped (f_load done) q (f_exchange done) e refl (quiet _ _ e refl refl)
          (bounded_by q.counter (f_exchange done) refl (omega arith)) (λ h. h))
    | inr grown ↦ elim (Bool-cases (leb entries q.counter)) [
      | inl closed ↦
          rw (grown, closed) (goes entries false (λ h. (ground arith, ground (arith, h.0))))
      | inr open_ ↦
          rw (grown, open_)
            (goes q.counter true
              (λ h. (h.0, Edge-end q.pending q.base q.counter (ground (arith, h.0)))))
    ]
  ]
    where
      goes :
          (todo : ℕ) (more : Bool)
          → (Phase w entries q (f_load done) → Runs w entries more q todo)
          → Still (q, f_next done todo more)
      goes todo more runs =
          helped (f_load done) q (f_next done todo more) e refl
            (quiet _ _ e refl (f_next-plain done todo more).0)
            (bounded_by q.counter (f_next done todo more) (f_next-plain done todo more).1
              (omega arith))
            (λ h. Phase-next w entries q done todo more v.core.sized h.1 (runs h))

  pub at_exchange :
      (done : ℕ) (c : Call w.Op)
      → pc i ≡ f_exchange done
      → Still (next w entries entry_size policy i c q (f_exchange done))
  unfolding next
  at_exchange done c e =
      helped (f_exchange done) _ (f_next done (min_ q.counter entries) false) e refl
        (quiet _ _ e refl (f_next-plain done (min_ q.counter entries) false).0)
        (omega (
          arith,
          total-le (claims w entries entry_size policy threads) entries
              (claims-le w entries entry_size policy threads fits q pc v i turn) threads
              (update pc i (f_next done (min_ q.counter entries) false)),
        ))
        (λ h.
          Phase-next w entries (record q { counter = entries }) done (min_ q.counter entries) false
            v.core.sized h.1 (omega arith, sym h.0))

  pub at_spin :
      (index todo : ℕ) (more : Bool) (c : Call w.Op)
      → pc i ≡ f_spin index todo more
      → Still (next w entries entry_size policy i c q (f_spin index todo more))
  unfolding next
  at_spin index todo more c e = elim (Bool-cases (q.cells.fun index == 0)) [
    | inl z ↦ rw z (
        helped (f_spin index todo more) q (f_spin index todo more) e refl (quiet _ _ e refl refl)
          (bounded_by q.counter (f_spin index todo more) refl (omega arith)) (λ h. h))
    | inr full ↦ rw full (
        helped (f_spin index todo more) q (f_call index (q.cells.fun index) todo more) e refl
          (quiet _ _ e refl refl)
          (bounded_by q.counter (f_call index (q.cells.fun index) todo more) refl (omega arith))
          (λ h. (h.0, h.1, h.2, refl, ground arith)))
  ]

  pub at_clear :
      (todo : ℕ) (c : Call w.Op)
      → pc i ≡ f_clear todo
      → Still (next w entries entry_size policy i c q (f_clear todo))
  unfolding next
  at_clear todo c e =
      helped (f_clear todo) _ outside e refl
        (λ core.
          subst
            (λ l.
              Core w entries entry_size policy cleared q.log q.accepted q.base l
                (update pc i outside))
            (sym at_end.1)
            (restart w entries entry_size policy cleared q.pending i outside at_end.1 v.core zeros
              refl q.base (omega (arith, v.core.within))))
        (bounded_by q.counter outside refl (omega arith)) (λ h. (h.0, h.1, zeros))
    where
      cleared : Cells
      cleared = record (q.cells) { fun = clear todo q.cells.fun }

      at_end : (entries ≤ q.counter) × (q.pending ≡ []) × (todo ≡ q.base)
      at_end = subst (Phase w entries q) (ap pc (sym (v.helpers i (ap is_helper e))) ∙ e) v.phase

      -- The byte that `std::fill` leaves is zero in an address.
      zeros : (a : ℕ) → a < entries → clear todo q.cells.fun a ≡ 0
      zeros a lt =
          let old : todo ≤ a → q.cells.fun a ≡ 0 =
            λ le. v.core.fresh a (omega (arith, ap span at_end.1, at_end.2)) lt in
          ground (arith, v.core.small a lt, old)

  pub at_call :
      (index fun todo : ℕ) (more : Bool) (c : Call w.Op)
      → pc i ≡ f_call index fun todo more
      → Still (next w entries entry_size policy i c q (f_call index fun todo more))
  unfolding next
  at_call index fun todo more c e =
      helped (f_call index fun todo more) _ (f_next after todo more) e refl popped
        (bounded_by q.counter (f_next after todo more) (f_next-plain after todo more).1
          (omega arith))
        (λ h.
          Phase-next w entries (executed w entries entry_size policy index fun q) after todo more
            popped_core.sized refl (runs more at.0))
    where
      after : ℕ
      after = u32 (index + q.cells.size index)

      after' : ℕ
      after' = q.base + q.cells.size q.base

      zero_turn : i ≡ 0
      zero_turn = v.helpers i (ap is_helper e)

      at : Phase w entries q (f_call index fun todo more)
      at = subst (Phase w entries q) (ap pc (sym zero_turn) ∙ e) v.phase

      full : q.cells.fun q.base ≢ 0
      full z = at.4 (sym at.3 ∙ ap q.cells.fun at.1 ∙ z)

      left : (b : Bool) → Runs w entries b q todo → 0 < span q.pending
      left true r = omega (arith, Edge-bounds q.pending q.base todo r.1, at.1, at.2)
      left false r = omega (arith, r.1, at.1, at.2)

      popped_core :
          Core w entries entry_size policy q.cells
            (if q.cells.fun q.base == w.no_op
              then q.log
              else q.log ++ (q.cells.fun q.base, q.cells.params q.base) ∷ [])
            q.accepted
            after'
            (rest_of q.pending)
            (update pc 0 (f_next after' todo more))
      popped_core =
          Core-pop w entries entry_size policy q.pending (f_next after' todo more) v.core
            (left more at.0) (ap (aims w entries entry_size policy) (ap pc (sym zero_turn) ∙ e))
            (f_next-plain after' todo more).0 full

      -- The index stays within the buffer, and does not wrap.
      after-eq : after ≡ after'
      after-eq = rw (at.1) (omega (arith, popped_core.within, fits.words))

      span_after : after' + span (rest_of q.pending) ≡ q.base + span q.pending
      span_after = span-pop w entries entry_size policy q.pending v.core (left more at.0) full

      runs :
          (b : Bool)
          → Runs w entries b q todo
          → Runs w entries b (executed w entries entry_size policy index fun q) todo
      runs true r = (
        ap (λ k. k + span (rest_of q.pending)) after-eq ∙ span_after ∙ r.0,
        subst (λ k. Edge k (rest_of q.pending) todo) (sym after-eq)
            (Edge-pop w entries entry_size policy q.pending todo v.core (omega (arith, at.1, at.2))
              full r.1),
      )
      runs false r =
          (r.0, r.1 ∙ sym span_after ∙ ap (λ k. k + span (rest_of q.pending)) (sym after-eq))

      popped :
          CoreOf q pc
          → CoreOf
              (executed w entries entry_size policy index fun q)
              (update pc i (f_next after todo more))
      popped core = rw (zero_turn, after-eq, sym at.3, at.1) popped_core
