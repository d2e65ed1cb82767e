-- ===== src/Qd/Account.antt =====
-- `qdlock_impl`: the books of an operation, over each access of the queue.
pub mod Flush
use qd_library.Prelude.{
  ℕ, ◌+◌, ◌≡◌, refl, sym, ap, ◌∙◌, Bool, true, false, ◌&&◌, ◌⊎◌, inl, inr, List, [], ◌∷◌, ◌++◌,
  arith, ltb, leb, ◌==◌, if◌then◌else◌, Bool-cases,
}
use mathlib.Core.Path.{subst, ap₂}
use mathlib.Core.List.{append-nil}
use qd_library.Delegate.{StarvationPolicy}
use qd_library.Queue.DualBuffer
use qd_library.Queue.DualBuffer.{
  Wrappers, AtomicInstructionPolicy, use_fetch_and_add, use_compare_and_swap, DualBufferQueue,
  e_load, e_claim, e_fill, e_publish, e_fill_no_op, e_publish_no_op, opened, f_load, f_exchange,
  f_spin, f_call, f_clear, f_next, room, claimed, claim,
}
use qd_library.Queue.DualBuffer.Inv.{is_helper}
use qd_library.Qd.{is_outside, succeeds, called}

-- 1 if two operations with their parameters are the same.
abbrev pub hit : ℕ × ℕ → ℕ × ℕ → ℕ
hit x y = if (x.0 == y.0) && (x.1 == y.1) then 1 else 0

-- How often an operation with its parameters stands in a list.
abbrev pub count : ℕ × ℕ → List (ℕ × ℕ) → ℕ
count x [] = 0
count x (y ∷ ys) = hit x y + count x ys

pub count-append : (x : ℕ × ℕ) (xs ys : List (ℕ × ℕ)) → count x (xs ++ ys) ≡ count x xs + count x ys
count-append x [] ys = omega arith
count-append x (y ∷ xs) ys = omega (arith, count-append x xs ys)

-- Between the reservation of a slot for the operation and the store of the function.
abbrev pub is_filling : {Op : Type 0} → DualBuffer.Pc Op → Bool
is_filling (e_fill index op par) = true
is_filling (e_publish index op par) = true
is_filling p = false

-- In `enqueue` of the operation, or out of it.
abbrev pub Carries : {Op : Type 0} → Op → ℕ → DualBuffer.Pc Op → Type 0
Carries op par (e_load o a) = (o ≡ op) × (a ≡ par)
Carries op par (e_claim index o a) = (o ≡ op) × (a ≡ par)
Carries op par (e_fill index o a) = (o ≡ op) × (a ≡ par)
Carries op par (e_publish index o a) = (o ≡ op) × (a ≡ par)
Carries op par (e_fill_no_op index) = Unit {0}
Carries op par (e_publish_no_op index) = Unit {0}
Carries op par DualBuffer.outside = Unit {0}
Carries op par p = ⊥

module _ (w : Wrappers) (entries entry_size : ℕ) (policy : AtomicInstructionPolicy) where
  abbrev queue_turn :
      ℕ
      → DualBuffer.Call w.Op
      → DualBufferQueue
      → DualBuffer.Pc w.Op
      → DualBufferQueue × DualBuffer.Pc w.Op
  queue_turn = DualBuffer.next w entries entry_size policy

  abbrev pub owed : ℕ × ℕ → w.Op → ℕ → Bool → ℕ
  owed x op par b = if b then hit x (w.address op, par) else 0

  -- What an access by `enqueue` of the operation does to the books.
  pub record Enqueued (x : ℕ × ℕ) (op : w.Op) (par : ℕ) (q : DualBufferQueue)
      (p : DualBuffer.Pc w.Op) (r : DualBufferQueue × DualBuffer.Pc w.Op) : Type 0 where
    pub carries : Carries op par r.1
    pub logs : r.0.log ≡ q.log
    pub grows :
        (r.0.accepted ≡ q.accepted) ⊎ (r.0.accepted ≡ q.accepted ++ (w.address op, par) ∷ [])
    pub accepts :
        count x r.0.accepted + owed x op par (is_filling p)
        ≡ count x q.accepted + owed x op par (is_filling r.1) + owed x op par (succeeds p)
    pub ends : succeeds p ≡ true → is_outside r.1 ≡ true

  module _ (x : ℕ × ℕ) (op : w.Op) (par : ℕ) where
    claimed-Enqueued :
        (q q' : DualBufferQueue) (index k : ℕ)
        → q'.accepted ≡ q.accepted
        → q'.log ≡ q.log
        → Enqueued x op par q
            (e_claim k op par)
            (claimed w entries entry_size policy index op par q')
    claimed-Enqueued q q' index k a l =
        elim (Bool-cases (leb index (room w entries entry_size policy op))) [
          | inl e ↦ rw e (record {
            carries = (refl, refl);
            logs = l;
            grows = inr (ap (λ l. l ++ (w.address op, par) ∷ []) a);
            accepts =
                omega
                  (arith, count-append x q'.accepted ((w.address op, par) ∷ []), ap (count x) a);
            ends = λ h. absurd (cc);
          })
          | inr e ↦ elim (Bool-cases (ltb index entries)) [
            | inl f ↦
                rw (e, f)
                  (record {
                    carries = tt;
                    logs = l;
                    grows = inl a;
                    accepts = omega (arith, ap (count x) a);
                    ends = λ h. absurd (cc);
                  })
            | inr f ↦
                rw (e, f)
                  (record {
                    carries = tt;
                    logs = l;
                    grows = inl a;
                    accepts = omega (arith, ap (count x) a);
                    ends = λ h. absurd (cc);
                  })
          ]
        ]

    claim-Enqueued :
        (policy' : AtomicInstructionPolicy) (q : DualBufferQueue) (index : ℕ)
        → Enqueued x op par q
            (e_claim index op par)
            (claim w entries entry_size policy policy' index op par q)
    claim-Enqueued use_fetch_and_add q index = claimed-Enqueued q _ q.counter index refl refl
    claim-Enqueued use_compare_and_swap q index = elim (Bool-cases (q.counter == index)) [
      | inl e ↦ rw e (claimed-Enqueued q _ q.counter index refl refl)
      | inr e ↦ rw e (record {
        carries = (refl, refl);
        logs = refl;
        grows = inl refl;
        accepts = omega arith;
        ends = λ h. absurd (cc);
      })
    ]

    -- The operation that is carried is the operation.
    carried :
        (P : DualBuffer.Pc w.Op → Type 0) (at : w.Op → ℕ → DualBuffer.Pc w.Op) (o : w.Op) (a : ℕ)
        → (o ≡ op) × (a ≡ par)
        → P (at op par)
        → P (at o a)
    carried P at o a h t = subst P (sym (ap₂ at h.0 h.1)) t

    abbrev Turned : ℕ → DualBufferQueue → DualBuffer.Pc w.Op → Type 0
    Turned i q p = Enqueued x op par q p (queue_turn i DualBuffer.call_flush q p)

    idle-Enqueued :
        (q q' : DualBufferQueue) (p p' : DualBuffer.Pc w.Op)
        → Carries op par p'
        → q'.log ≡ q.log
        → q'.accepted ≡ q.accepted
        → is_filling p ≡ is_filling p'
        → succeeds p ≡ false
        → Enqueued x op par q p (q', p')
    idle-Enqueued q q' p p' c l a f n = record {
      carries = c;
      logs = l;
      grows = inl a;
      accepts = rw (n, f) (omega (arith, ap (count x) a));
      ends = λ h. absurd (cc);
    }

    load-Enqueued : (i : ℕ) (q : DualBufferQueue) → Turned i q (e_load op par)
    unfolding DualBuffer.next
    load-Enqueued i q = elim (Bool-cases (ltb (room w entries entry_size policy op) q.counter)) [
      | inl e ↦ rw e (idle-Enqueued q q (e_load op par) DualBuffer.outside tt refl refl refl refl)
      | inr e ↦ rw e (
          idle-Enqueued q q (e_load op par) (e_claim q.counter op par) (refl, refl) refl refl refl
            refl)
    ]

    publish-Enqueued : (i index : ℕ) (q : DualBufferQueue) → Turned i q (e_publish index op par)
    unfolding DualBuffer.next
    publish-Enqueued i index q = record {
      carries = tt;
      logs = refl;
      grows = inl refl;
      accepts = omega arith;
      ends = λ h. refl;
    }

    pub enqueue-Enqueued :
        (i : ℕ) (q : DualBufferQueue) (p : DualBuffer.Pc w.Op)
        → Carries op par p
        → Enqueued x op par q p (queue_turn i DualBuffer.call_flush q p)
    unfolding DualBuffer.next
    enqueue-Enqueued i q (e_load o a) h = carried (Turned i q) e_load o a h (load-Enqueued i q)
    enqueue-Enqueued i q (e_claim index o a) h =
        carried (Turned i q) (e_claim index) o a h (claim-Enqueued policy q index)
    enqueue-Enqueued i q (e_fill index o a) h = carried (Turned i q) (e_fill index) o a h (
        idle-Enqueued q _ (e_fill index op par) (e_publish index op par) (refl, refl) refl refl refl
          refl)
    enqueue-Enqueued i q (e_publish index o a) h =
        carried (Turned i q) (e_publish index) o a h (publish-Enqueued i index q)
    enqueue-Enqueued i q (e_fill_no_op index) h =
        idle-Enqueued q _ (e_fill_no_op index) (e_publish_no_op index) tt refl refl refl refl
    enqueue-Enqueued i q (e_publish_no_op index) h =
        idle-Enqueued q _ (e_publish_no_op index) DualBuffer.outside tt refl refl refl refl
    enqueue-Enqueued i q DualBuffer.outside h =
        idle-Enqueued q q DualBuffer.outside DualBuffer.outside tt refl refl refl refl
    enqueue-Enqueued i q p h = absurd h
