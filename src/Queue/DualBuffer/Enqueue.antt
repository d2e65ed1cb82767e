-- ===== src/Queue/DualBuffer/Enqueue.antt =====
-- queues/dual_buffer_queue.hpp: each access of `enqueue` keeps the invariant.
use qd_library.Prelude.{
  ℕ, ◌+◌, ◌*◌, ◌≤◌, ◌<◌, ◌≡◌, refl, sym, ap, ◌∙◌, inl, inr, true, false, [], ◌∷◌, ◌++◌, ltb, leb,
  ◌==◌, Option, none, arith, Bool-cases,
}
use mathlib.Core.List.{append-nil}
use mathlib.Core.Path.{subst}
use qd_library.Interleave.{update}
use qd_library.Queue.DualBuffer.{
  Wrappers, AtomicInstructionPolicy, Slot, Pc, outside, e_load, e_claim, e_fill, e_fill_no_op, slot,
  last_slot, DualBufferQueue, Call, u32, req, room, claimed, claim, next, use_fetch_and_add,
  use_compare_and_swap,
}
use qd_library.Queue.DualBuffer.Slots.{span, span-append, calls, target}
use qd_library.Queue.DualBuffer.Core.{Core}
use qd_library.Queue.DualBuffer.Phase.{Closed, Phase, Phase-claim, Phase-late, Phase-open}
use qd_library.Queue.DualBuffer.Core.{Core-idle, Core-claim}
use qd_library.Interleave.Total.{total, total-update, total-le}
use qd_library.Queue.DualBuffer.Inv.{
  Fits, is_helper, claims, Inv, After, req_pos, Phase-of, helpers_of, bound_of,
}

module _ (w : Wrappers) (entries entry_size : ℕ) (policy : AtomicInstructionPolicy) (threads : ℕ)
    (fits : Fits w entries entry_size policy threads) (q : DualBufferQueue) (pc : ℕ → Pc w.Op)
    (v : Inv w entries entry_size policy threads (record { mem = q; pc = pc })) (i : ℕ)
    (turn : i < threads) where
  abbrev pub Kept : DualBufferQueue × Pc w.Op → Type 0
  Kept r = After w entries entry_size policy threads fits q pc v i turn r

  abbrev pub aim_of : Pc w.Op → Option ℕ
  aim_of = target w entries entry_size policy

  -- A thread outside `open` and `flush` goes on without a change to the queue.
  pub idle :
      (p p' : Pc w.Op)
      → pc i ≡ p
      → is_helper p ≡ false
      → is_helper p' ≡ false
      → aim_of p ≡ none
      → aim_of p' ≡ none
      → (Closed w entries q → Phase w entries q p')
      → (Phase w entries q p → Closed w entries q)
      → q.counter + total (claims w entries entry_size policy threads) threads (update pc i p')
        ≤ entries + threads * entries
      → Kept (q, p')
  idle p p' e h h' a a' to from b = record {
    core = Core-idle w entries entry_size policy v.core i p' (ap aim_of e ∙ a) a';
    phase =
        Phase-of w entries entry_size policy threads fits q pc v i turn q p' (λ ne. v.phase)
          (λ z. to (from (subst (Phase w entries q) (ap pc (sym z) ∙ e) v.phase)));
    helpers =
        helpers_of w entries entry_size policy threads fits q pc v i turn p' (λ t. absurd (cc));
    bound = b;
  }

  pub bounded :
      (counter : ℕ) (p : Pc w.Op)
      → counter + claims w entries entry_size policy threads p
        ≤ q.counter + claims w entries entry_size policy threads (pc i)
      → counter + total (claims w entries entry_size policy threads) threads (update pc i p)
        ≤ entries + threads * entries
  bounded = bound_of w entries entry_size policy threads fits q pc v i turn

  room-eq :
      (op : w.Op)
      → room w entries entry_size policy op + req w entries entry_size policy op ≡ entries
  room-eq op = omega (arith, fits.op_fits op, fits.words)

  pub claims-le : (p : Pc w.Op) → claims w entries entry_size policy threads p ≤ entries
  claims-le (e_claim index op par) = fits.op_fits op
  claims-le p = omega arith

  pub load :
      (op : w.Op) (par : ℕ) (c : Call w.Op)
      → pc i ≡ e_load op par
      → Kept (next w entries entry_size policy i c q (e_load op par))
  unfolding next
  load op par c e = elim (Bool-cases (ltb (room w entries entry_size policy op) q.counter)) [
    | inl above ↦
        rw (above, next)
          (idle (e_load op par) outside e refl refl refl refl (λ h. h) (λ h. h)
            (bounded q.counter outside (omega arith)))
    | inr below ↦
        let le : q.counter ≤ room w entries entry_size policy op = ground arith in
        rw (below, next)
          (idle (e_load op par) (e_claim q.counter op par) e refl refl refl refl (λ h. h) (λ h. h)
            (omega (
              arith,
              le,
              room-eq op,
              total-le (claims w entries entry_size policy threads) entries claims-le threads
                  (update pc i (e_claim q.counter op par)),
            )))
  ]

  module _ (index : ℕ) (op : w.Op) (par : ℕ) (e : pc i ≡ e_claim index op par) where
    -- The addition does not wrap.
    no_wrap :
        u32 (q.counter + req w entries entry_size policy op)
        ≡ q.counter + req w entries entry_size policy op
    no_wrap = omega (
      arith,
      fits.words,
      v.bound,
      ap (claims w entries entry_size policy threads) e,
      total-update (claims w entries entry_size policy threads) threads pc i outside turn,
    )

    later_bound :
        (p : Pc w.Op)
        → claims w entries entry_size policy threads p ≡ 0
        → q.counter
            + req w entries entry_size policy op
            + total (claims w entries entry_size policy threads) threads (update pc i p)
          ≤ entries + threads * entries
    later_bound p z = omega (
      arith,
      v.bound,
      z,
      ap (claims w entries entry_size policy threads) e,
      total-update (claims w entries entry_size policy threads) threads pc i p turn,
    )

    not_open : i ≡ 0 → q.counter < entries → ⊥
    not_open z lt =
        let closed : Closed w entries q = subst (Phase w entries q) (ap pc (sym z) ∙ e) v.phase in
        omega (arith, closed.0)

    -- The operation gets its slots.
    claim_slot :
        leb q.counter (room w entries entry_size policy op) ≡ true
        → Kept (
          record q {
            counter = q.counter + req w entries entry_size policy op;
            accepted = q.accepted ++ (w.address op, par) ∷ [];
            pending = q.pending ++ slot w entries entry_size policy op par ∷ [];
          },
          e_fill q.counter op par,
        )
    claim_slot h = record {
      core =
          subst
            (λ l.
              Core w entries entry_size policy q.cells q.log (q.accepted ++ l) q.base
                (q.pending ++ x ∷ []) (update pc i (e_fill q.counter op par)))
            call
            (Core-claim w entries entry_size policy v.core i (e_fill q.counter op par) x q.counter
              (ap aim_of e) stop pos (omega (arith, le, room-eq op)) refl (refl, refl));
      phase =
          Phase-of w entries entry_size policy threads fits q pc v i turn _ _
            (λ ne.
              Phase-claim w entries q _ _ x (pc 0) lt
                (λ o. ground (arith, span-append q.pending (x ∷ []), le, room-eq op, stop)) v.phase)
            (λ z. absurd (not_open z lt));
      helpers =
          helpers_of w entries entry_size policy threads fits q pc v i turn _ (λ t. absurd (cc));
      bound = later_bound (e_fill q.counter op par) refl;
    }
      where
        x : Slot
        x = slot w entries entry_size policy op par

        pos : 0 < req w entries entry_size policy op
        pos = req_pos w entries entry_size policy threads fits q pc v i turn op

        le : q.counter ≤ room w entries entry_size policy op
        le = ground arith

        lt : q.counter < entries
        lt = omega (arith, le, room-eq op, pos)

        stop : q.counter ≡ q.base + span q.pending
        stop = sym (Phase-open w entries q (pc 0) lt v.phase)

        call : calls w.no_op (x ∷ []) ≡ (w.address op, par) ∷ []
        call = ground (arith, w.address-ne-no_op op)

    -- The rest of the buffer is too small: it becomes a `no_op`.
    claim_last :
        q.counter < entries
        → leb q.counter (room w entries entry_size policy op) ≡ false
        → Kept (
          record q {
            counter = q.counter + req w entries entry_size policy op;
            pending = q.pending ++ last_slot w entries entry_size policy q.counter ∷ [];
          },
          e_fill_no_op q.counter,
        )
    claim_last lt h = record {
      core =
          subst
            (λ l.
              Core w entries entry_size policy q.cells q.log l q.base (q.pending ++ x ∷ [])
                (update pc i (e_fill_no_op q.counter)))
            call
            (Core-claim w entries entry_size policy v.core i (e_fill_no_op q.counter) x q.counter
              (ap aim_of e) stop (omega arith) (omega arith) refl (refl, refl));
      phase =
          Phase-of w entries entry_size policy threads fits q pc v i turn _ _
            (λ ne.
              Phase-claim w entries q _ _ x (pc 0) lt
                (λ o. ground (arith, span-append q.pending (x ∷ []), room-eq op, stop)) v.phase)
            (λ z. absurd (not_open z lt));
      helpers =
          helpers_of w entries entry_size policy threads fits q pc v i turn _ (λ t. absurd (cc));
      bound = later_bound (e_fill_no_op q.counter) refl;
    }
      where
        x : Slot
        x = last_slot w entries entry_size policy q.counter

        stop : q.counter ≡ q.base + span q.pending
        stop = sym (Phase-open w entries q (pc 0) lt v.phase)

        call : q.accepted ++ calls w.no_op (x ∷ []) ≡ q.accepted
        call = ground (arith, append-nil q.accepted)

    claim_late :
        entries ≤ q.counter
        → Kept (record q { counter = q.counter + req w entries entry_size policy op }, outside)
    claim_late ge = record {
      core = Core-idle w entries entry_size policy v.core i outside (ap aim_of e) refl;
      phase =
          Phase-of w entries entry_size policy threads fits q pc v i turn _ _
            (λ ne. Phase-late w entries q _ (pc 0) ge (omega arith) v.phase)
            (λ z.
              Phase-late w entries q _ outside ge (omega arith)
                (subst (Phase w entries q) (ap pc (sym z) ∙ e) v.phase));
      helpers =
          helpers_of w entries entry_size policy threads fits q pc v i turn outside
            (λ t. absurd (cc));
      bound = later_bound outside refl;
    }

    -- All that the atomic addition can lead to.
    added : Kept (
        claimed w entries entry_size policy q.counter op par
          (record q { counter = u32 (q.counter + req w entries entry_size policy op) }))
    added = elim (Bool-cases (leb q.counter (room w entries entry_size policy op))) [
      | inl h ↦ rw (no_wrap, h) (claim_slot h)
      | inr h ↦ elim (Bool-cases (ltb q.counter entries)) [
        | inl lt ↦ rw (no_wrap, h, lt) (claim_last (ground arith) h)
        | inr ge ↦ rw (no_wrap, h, ge) (claim_late (ground arith))
      ]
    ]

    claim_by :
        (how : AtomicInstructionPolicy)
        → Kept (claim w entries entry_size policy how index op par q)
    claim_by use_fetch_and_add = added
    claim_by use_compare_and_swap = elim (Bool-cases (q.counter == index)) [
      | inl same ↦ rw same added
      | inr moved ↦ rw moved (
          idle (e_claim index op par) (e_claim q.counter op par) e refl refl refl refl (λ h. h)
            (λ h. h)
            (bounded q.counter (e_claim q.counter op par)
              (omega (arith, ap (claims w entries entry_size policy threads) e))))
    ]

    pub claim-Kept :
        (c : Call w.Op) → Kept (next w entries entry_size policy i c q (e_claim index op par))
    unfolding next
    claim-Kept c = claim_by policy
