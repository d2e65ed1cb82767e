-- ===== src/Mrqd/Exclusion.antt =====
-- mrqdlock.hpp: readers and writers exclude each other.
use qd_library.Prelude.{
  ℕ, ◌+◌, ◌%◌, ◌^◌, ◌≤◌, ◌<◌, ◌≡◌, ◌≢◌, refl, sym, ap, ◌∙◌, inl, inr, Bool, true, false, ◌&&◌, not,
  List, ltb, ◌==◌, if◌then◌else◌, none, some, arith, Bool-cases,
}
use qd_library.Interleave.{update, State, step, run, started}
use qd_library.Interleave.Total.{
  OfThreads, run-keeps_of, total, total-update, total-le, total-zero, weight-le,
}
use mathlib.Core.Path.{subst}
use qd_library.Lock.{Owner, Refines, step-Refines}
use qd_library.Mrqd.{
  positive, MrqdLock, mrqd_lock, Call, call_lock, call_unlock, call_rlock, call_runlock, queued, Pc,
  outside, w_barrier, w_mutex, w_query, inside, r_arrive, r_test, r_depart, r_wait, r_raise,
  r_lower, reading, next,
}
use qd_library.Mrqd.Inv.{
  holds, arrived, raises, passed, scanned, mrqd-IsLock, Counted, Fair, fair, counted,
}

module _ (groups limit threads : ℕ) (groups_pos : 0 < groups) (few : threads < 2 ^ 31) where
  abbrev pub Sys : Type 0
  Sys = State MrqdLock Pc

  abbrev Turn : ℕ → Call → MrqdLock → Pc → MrqdLock × Pc
  Turn = next groups limit

  abbrev sees : Pc → ℕ
  sees = scanned groups limit

  -- A reader's group is one of the groups.
  abbrev Grouped : Pc → Type 0
  Grouped (r_test k a b) = k < groups
  Grouped (r_depart k a b) = k < groups
  Grouped (r_lower k) = k < groups
  Grouped (reading k) = k < groups
  Grouped p = Unit {0}

  group-lt : (i : ℕ) → i % groups < groups
  group-lt i = grind arith

  Grouped-if : (b : Bool) (p q : Pc) → Grouped p → Grouped q → Grouped (if b then p else q)
  Grouped-if true p q h k = h
  Grouped-if false p q h k = k

  Grouped-next : (i : ℕ) (c : Call) (m : MrqdLock) (p : Pc) → Grouped p → Grouped (Turn i c m p).1
  unfolding next
  Grouped-next i call_lock m outside h = tt
  Grouped-next i call_rlock m outside h = tt
  Grouped-next i c m w_barrier h = Grouped-if (positive m.write_barrier) w_barrier w_mutex tt tt
  Grouped-next i queued m w_mutex h = tt
  Grouped-next i c m w_mutex h = elim (Bool-cases m.locked) [ inl l ↦ rw l tt | inr l ↦ rw l tt ]
  Grouped-next i c m (w_query g) h =
      Grouped-if (positive (m.counters g)) (w_query 0) _ tt
        (Grouped-if (g + 1 == groups) inside (w_query (g + 1)) tt tt)
  Grouped-next i call_unlock m inside h = tt
  Grouped-next i c m (r_arrive patience raised) h = group-lt i
  Grouped-next i c m (r_test g patience raised) h =
      Grouped-if m.locked (r_depart g patience raised) _ h
        (Grouped-if raised (r_lower g) (reading g) h h)
  Grouped-next i c m (r_wait patience raised) h =
      Grouped-if m.locked _ (r_arrive patience raised)
        (Grouped-if (patience == limit && not raised) (r_raise patience)
          (r_wait ((patience + 1) % 2 ^ 32) raised) tt tt)
        tt
  Grouped-next i c m (r_lower g) h = h
  Grouped-next i call_runlock m (reading g) h = tt
  Grouped-next i c m (reading g) h = h
  Grouped-next i c m p h = tt

  pub record Inv (s : Sys) : Type 0 where
    pub readers : (g : ℕ) → s.mem.counters g ≡ total (arrived g) threads s.pc
    pub barrier : s.mem.write_barrier ≡ total raises threads s.pc
    pub lock : (o : Owner) × Refines Turn (λ m. m.locked) holds s o
    -- A reader that has passed is in a group that no writer has found empty.
    pub clear : (i j g : ℕ) → j < threads → passed (s.pc j) ≡ some g → sees (s.pc i) ≤ g
    pub grouped : (j : ℕ) → Grouped (s.pc j)

  one : (g : ℕ) (p : Pc) → arrived g p ≤ 1
  one g (r_test k a b) = ground arith
  one g (r_depart k a b) = ground arith
  one g (r_lower k) = ground arith
  one g (reading k) = ground arith
  one g p = omega arith

  bit-le : (p : Pc) → raises p ≤ 1
  bit-le (r_arrive a b) = ground arith
  bit-le (r_test k a b) = ground arith
  bit-le (r_depart k a b) = ground arith
  bit-le (r_wait a b) = ground arith
  bit-le p = omega arith

  arrived-passed : (p : Pc) (g : ℕ) → passed p ≡ some g → arrived g p ≡ 1
  arrived-passed (r_lower k) g e = ground arith
  arrived-passed (reading k) g e = ground arith
  arrived-passed p g e = absurd (cc)

  scanned-holds : (p : Pc) → 0 < sees p → holds p ≡ true
  scanned-holds (w_query g) h = refl
  scanned-holds inside h = refl
  scanned-holds p h = absurd (omega arith)

  scanned-passed : (p : Pc) (g : ℕ) → passed p ≡ some g → sees p ≡ 0
  scanned-passed (r_lower k) g e = refl
  scanned-passed (reading k) g e = refl
  scanned-passed p g e = absurd (cc)

  locked_by : (s : Sys) → Inv s → (i : ℕ) → holds (s.pc i) ≡ true → s.mem.locked ≡ true
  locked_by s v i h = let (o, r) = v.lock in owned o r
    where
      owned : (o : Owner) → Refines Turn (λ m. m.locked) holds s o → s.mem.locked ≡ true
      owned none r = absurd (cc (r.owner i))
      owned (some k) r = r.lock_state

  module _ (s : Sys) (v : Inv s) (i : ℕ) (c : Call) (turn : i < threads) where
    m' : MrqdLock
    m' = (Turn i c s.mem (s.pc i)).0

    p' : Pc
    p' = (Turn i c s.mem (s.pc i)).1

    counts : Counted groups limit s.mem (s.pc i) m' p'
    unfolding m' p'
    counts =
        counted groups limit i c s.mem (s.pc i)
          (λ g. (
            omega (arith, weight-le (arrived g) threads s.pc i turn, v.readers g),
            omega (arith, total-le (arrived g) 1 (one g) threads s.pc, v.readers g),
          ))
          (omega (arith, weight-le raises threads s.pc i turn, v.barrier))
          (omega (arith, total-le raises 1 bit-le threads s.pc, v.barrier))

    fairly : Fair groups limit s.mem (s.pc i) p'
    unfolding p'
    fairly = fair groups limit i c s.mem (s.pc i)

    abbrev then_at : ℕ → Pc
    then_at = update s.pc i p'

    -- A reader enters while no writer has begun to look.
    entering : (a g : ℕ) → passed p' ≡ some g → sees (s.pc a) ≤ g
    entering a g e = elim (fairly.enters g e) [
      | inl was ↦ v.clear a i g turn was
      | inr open_ ↦ none_looks open_
    ]
      where
        none_looks : s.mem.locked ≡ false → sees (s.pc a) ≤ g
        none_looks open_ = elim (Bool-cases (ltb 0 (sees (s.pc a)))) [
          | inl pos ↦
              absurd (ground (arith, locked_by s v a (scanned-holds (s.pc a) (ground arith))))
          | inr zero_ ↦ ground arith
        ]

    -- A writer finds a counter at zero, so no reader of the group has passed.
    looking : (b g : ℕ) → b < threads → passed (s.pc b) ≡ some g → sees p' ≤ g
    looking b g lt e = elim (fairly.looks) [
      | inl less ↦ omega (arith, less, v.clear i b g lt e)
      | inr more ↦ beyond more.0 more.1
    ]
      where
        beyond :
            sees p' ≡ sees (s.pc i) + 1
            → positive (s.mem.counters (sees (s.pc i))) ≡ false
            → sees p' ≤ g
        beyond up empty = omega (arith, up, v.clear i b g lt e, differs)
          where
            differs : sees (s.pc i) ≢ g
            differs q =
                let here : positive (s.mem.counters g) ≡ false =
                  ap (λ k. positive (s.mem.counters k)) (sym q) ∙ empty in
                let least = weight-le (arrived g) threads s.pc b lt in
                let most = total-le (arrived g) 1 (one g) threads s.pc in
                absurd (ground (arith, least, most, arrived-passed (s.pc b) g e, v.readers g))

    clear_after : (a b g : ℕ) → b < threads → passed (then_at b) ≡ some g → sees (then_at a) ≤ g
    clear_after a b g lt e = elim (Bool-cases (i == a)) [
      | inl at_a ↦ elim (Bool-cases (i == b)) [
        | inl at_b ↦ ground (arith, scanned-passed p' g)
        | inr off_b ↦ ground (arith, looking b g lt)
      ]
      | inr off_a ↦ elim (Bool-cases (i == b)) [
        | inl at_b ↦ ground (arith, entering a g)
        | inr off_b ↦ ground (arith, v.clear a b g lt)
      ]
    ]

    step-Inv : Inv (step Turn s (i, c))
    unfolding step m' p'
    step-Inv = record {
      readers = λ g.
          omega
            (arith, counts.readers g, v.readers g, total-update (arrived g) threads s.pc i p' turn);
      barrier =
          omega (arith, counts.barrier, v.barrier, total-update raises threads s.pc i p' turn);
      lock =
          let (o, r) = v.lock in
          let (o', st, r') =
            step-Refines Turn (λ m. m.locked) holds (mrqd-IsLock groups limit) s o i c r in
          (o', r');
      clear = clear_after;
      grouped = λ j. grouped_after j;
    }
      where
        grouped_after : (j : ℕ) → Grouped (then_at j)
        grouped_after j = elim (Bool-cases (i == j)) [
          | inl same ↦ rw same (Grouped-next i c s.mem (s.pc i) (v.grouped i))
          | inr other ↦ rw other (v.grouped j)
        ]

  initial-Inv : Inv (started mrqd_lock outside)
  initial-Inv = record {
    readers = λ g. sym (total-zero (arrived g) threads outside refl);
    barrier = sym (total-zero raises threads outside refl);
    lock = (none, record { lock_state = refl; owner = λ i. refl });
    clear = λ i j g lt e. absurd (cc);
    grouped = λ j. tt;
  }

  -- All that the threads make of a lock that they take turns over.
  abbrev pub system : List (ℕ × Call) → Sys
  system es = run Turn (started mrqd_lock outside) es

  system-Inv : (es : List (ℕ × Call)) → OfThreads threads es → Inv (system es)
  system-Inv es t =
      run-keeps_of Turn threads Inv (λ s i c lt v. step-Inv s v i c lt) (started mrqd_lock outside)
        es t initial-Inv

  -- However fewer than 2 ^ 31 threads take turns: while a writer is between the return of `lock`
  -- (or of `wait_readers` in `delegate`) and its `unlock`, no thread is between the return of
  -- `rlock` and its `runlock`.
  pub readers-writers-exclusive :
      (es : List (ℕ × Call)) (i j g : ℕ)
      → OfThreads threads es
      → j < threads
      → (system es).pc i ≡ inside
      → ¬ ((system es).pc j ≡ reading g)
  readers-writers-exclusive es i j g t lt a b =
      let v = system-Inv es t in
      let seen = v.clear i j g lt (ap passed b) in
      let group : g < groups = subst Grouped b (v.grouped j) in
      omega (arith, seen, group, ap sees a)

  -- However fewer than 2 ^ 31 threads take turns, `writeBarrier` is the number of the readers that
  -- have raised it and not yet lowered it, and the counter of each group is the number of the
  -- readers that have arrived in it and not departed.
  counts_exact :
      (es : List (ℕ × Call))
      → OfThreads threads es
      → ((system es).mem.write_barrier ≡ total raises threads (system es).pc)
        × ((g : ℕ) → (system es).mem.counters g ≡ total (arrived g) threads (system es).pc)
  counts_exact es t = let v = system-Inv es t in (v.barrier, v.readers)
