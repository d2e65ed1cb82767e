-- ===== src/Queue/Entry/Order.antt =====
-- queues/entry_queue.hpp: every accepted operation is called once, in the order of the slots.
use qd_library.Prelude.{
  ℕ, ◌+◌, ◌^◌, ◌≤◌, ◌<◌, ◌≡◌, ◌≢◌, refl, sym, ap, ◌∙◌, ◌⊎◌, inl, inr, Bool, false, List, ◌++◌,
  arith, ◌==◌, Bool-cases,
}
use mathlib.Core.Path.{subst, fun_ext}
use mathlib.Core.List.{append-nil}
use qd_library.Interleave.{update, State, started, step, run, run-keeps}
use qd_library.Queue.Entry.{
  EntryQueue, entry_queue, Call, Pc, outside, e_fill, e_publish, f_spin, next,
}
use qd_library.Queue.Entry.Slots.{
  InSession, waiting, new_session-InSession, slot_of, at_work, works_at, none_waiting,
}
use qd_library.Queue.Entry.Acts.{Act-InSession}
use qd_library.Queue.Entry.Helper.{
  role, is_helper, Named, Helps, Helps-Grown, counts, rested, reserved-le, spinning,
}
use qd_library.Queue.Entry.Steps.{own-Helps, acts, grown, stays_out, step-Named, step_bound}

-- A thread that works on a slot is before one of its two writes.
at_slot :
    (p : Pc) (k : ℕ)
    → slot_of (role p) ≡ k + 1
    → (fun : ℕ) × ((par : ℕ) × ((p ≡ e_fill k fun par) ⊎ (p ≡ e_publish k fun par)))
at_slot (e_fill l fun par) k e = (fun, (par, inl (ap (λ n. e_fill n fun par) (omega (arith, e)))))
at_slot (e_publish l fun par) k e =
    (fun, (par, inr (ap (λ n. e_publish n fun par) (omega (arith, e)))))
at_slot p k e = absurd (omega (arith, e))

-- The address of a function is not null.
module _ (entries : ℕ) (small : entries < 2 ^ 62) {Op : Type 0} (address : Op → ℕ)
    (address_pos : (op : Op) → 0 < address op) where
  abbrev turn : ℕ → Call Op → EntryQueue → Pc → EntryQueue × Pc
  turn = next entries address

  abbrev Sys : Type 0
  Sys = State EntryQueue Pc

  record Inv (s : Sys) : Type 0 where
    session : InSession s.mem.session (λ i. role (s.pc i))
    helps : Helps entries s.mem (s.pc 0)
    named : (i : ℕ) → Named (s.pc i)
    out : (i : ℕ) → (i == 0) ≡ false → is_helper (s.pc i) ≡ false

  -- `counter` does not wrap around while it has not been added to 2 ^ 62 times.
  record Holds (s : Sys) : Type 0 where
    bound : s.mem.counter ≤ entries + s.mem.additions
    inv : s.mem.additions < 2 ^ 62 → Inv s

  role-update :
      (pc : ℕ → Pc) (i : ℕ) (p : Pc)
      → update (λ j. role (pc j)) i (role p) ≡ (λ j. role (update pc i p j))
  role-update pc i p = fun_ext λ j. ground arith

  step-Holds : (s : Sys) (i : ℕ) (c : Call Op) → Holds s → Holds (step turn s (i, c))
  unfolding step
  step-Holds s i c h =
      let (b, l) = step_bound entries address i c s.mem (s.pc i) h.bound in
      record {
        bound = b;
        inv = λ few. after (h.inv (omega (arith, l, few))) (omega (arith, h.bound, l, few, small));
      }
    where
      r : EntryQueue × Pc
      r = turn i c s.mem (s.pc i)

      after : Inv s → s.mem.counter < 2 ^ 63 → Inv (record { mem = r.0; pc = update s.pc i r.1 })
      after v low = record {
        session = subst (InSession r.0.session) (role-update s.pc i r.1) (
            Act-InSession (λ j. role (s.pc j)) i s.mem.session r.0.session (role (s.pc i))
              (role r.1) v.session refl
              (acts entries address i c s.mem (s.pc i) low (counts entries s.mem (s.pc 0) v.helps)
                (v.named i) (λ e. subst (λ j. Helps entries s.mem (s.pc j)) (ground arith) v.helps)
                (v.out i)));
        helps = elim (Bool-cases (i == 0)) [
          | inl e ↦ rw e (
              subst (λ j. Helps entries (turn j c s.mem (s.pc j)).0 (turn j c s.mem (s.pc j)).1)
                (ground arith)
                (own-Helps entries address c s.mem (s.pc 0) low v.session.within v.helps))
          | inr e ↦ rw e (
              Helps-Grown entries s.mem r.0 (s.pc 0)
                (grown entries address i c s.mem (s.pc i) e (v.out i e) low (v.session.working i))
                v.helps)
        ];
        named = λ j. elim (Bool-cases (i == j)) [
          | inl e ↦ rw e (step-Named entries address address_pos i c s.mem (s.pc i) (v.named i))
          | inr e ↦ rw e (v.named j)
        ];
        out = λ j e. elim (Bool-cases (i == j)) [
          | inl q ↦
              rw q (
                stays_out entries address i c s.mem (s.pc i) (ground arith)
                  (v.out i (ground arith)))
          | inr q ↦ rw q (v.out j e)
        ];
      }

  module _ (es : List (ℕ × Call Op)) where
    abbrev pub reached : Sys
    reached = run turn (started (entry_queue entries) outside) es

    reached-Inv : reached.mem.additions < 2 ^ 62 → Inv reached
    reached-Inv =
        (run-keeps turn Holds step-Holds (started (entry_queue entries) outside) es (record {
          bound = omega arith;
          inv = λ few. record {
            session = new_session-InSession;
            helps = (refl, refl, omega arith);
            named = λ i. tt;
            out = λ i e. refl;
          };
        })).inv

    -- However the threads take turns, with fewer than 2^62 additions to `counter`: the calls that
    -- `flush` has made are the first of the operations that `enqueue` has accepted, in the order of
    -- acceptance and with their parameters, and those that follow stand in the slots that are not
    -- called yet; whenever the helper is not between its `open` and the end of its `flush`, the calls
    -- made are exactly the operations accepted, once each.
    pub entry-flushed_all :
        reached.mem.additions < 2 ^ 62
        → (reached.mem.session.accepted ≡ reached.mem.session.log ++ waiting reached.mem.session)
          × (is_helper (reached.pc 0) ≡ false
              → reached.mem.session.log ≡ reached.mem.session.accepted)
    entry-flushed_all few =
        let v = reached-Inv few in
        let s = reached.mem.session in
        (
          v.session.order,
          λ n.
              let all : s.called ≡ s.reserved =
                rested entries reached.mem (reached.pc 0) n v.helps in
              sym (v.session.order ∙ ap (λ l. s.log ++ l) (none_waiting s all) ∙ append-nil s.log),
        )

    -- A thread that fills a slot, with fewer than 2^62 additions to `counter`: the slot lies in the
    -- array, no other thread fills it, and the helper, which waits for a function in it, finds none
    -- before the thread has stored it.
    entry_apart :
        reached.mem.additions < 2 ^ 62
        → (i j k : ℕ) → slot_of (role (reached.pc i)) ≡ k + 1
        → (k < entries)
          × (slot_of (role (reached.pc j)) ≡ k + 1 → i ≡ j)
          × (reached.mem.session.fun k ≡ 0)
    entry_apart few i j k e =
        let v = reached-Inv few in
        let s = reached.mem.session in
        let at = works_at s i k (role (reached.pc i)) e (v.session.working i) in
        (
          omega (
            arith,
            at,
            reserved-le entries reached.mem (reached.pc 0) v.helps (omega (arith, at.0, at.1)),
          ),
          (λ f.
              let other = works_at s j k (role (reached.pc j)) f (v.session.working j) in
              sym at.2 ∙ other.2),
          at_work s i k (role (reached.pc i)) e (v.session.working i),
        )

    -- `flush` does not wait in vain, with fewer than 2^62 additions to `counter`: when the helper
    -- waits for the function of a slot and it is not there, some other thread has reserved the slot,
    -- and is before its write of the parameters to it or before its store of the function.
    pub entry_not_stuck :
        reached.mem.additions < 2 ^ 62
        → (index todo : ℕ) (more : Bool) → reached.pc 0 ≡ f_spin index todo more
        → reached.mem.session.fun index ≡ 0
        → (i : ℕ) × ((i ≢ 0)
            × ((fun : ℕ) × ((par : ℕ) × ((reached.pc i ≡ e_fill index fun par)
                    ⊎ (reached.pc i ≡ e_publish index fun par)))))
    entry_not_stuck few index todo more e none =
        let v = reached-Inv few in
        let s = reached.mem.session in
        let i = s.writer index in
        let (at, within) =
          spinning entries reached.mem index todo more
            (subst (Helps entries reached.mem) e v.helps) in
        elim (v.session.slots index (omega (arith, at)) within) [
          | inl w ↦ (
            i,
            (
              λ z. absurd (
                  omega (
                    arith,
                    sym w
                        ∙ ap (λ j. slot_of (role (reached.pc j))) z
                        ∙ ap (λ p. slot_of (role p)) e,
                  )),
              at_slot (reached.pc i) index w,
            ),
          )
          | inr (a, b, pos) ↦ absurd (omega (arith, none, pos))
        ]
