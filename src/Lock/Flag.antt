-- ===== src/Lock/Flag.antt =====
-- A lock with a flag beside it, as in locks/mutex_lock.hpp and locks/pthreads_lock.hpp: what makes
-- the flag exact.
use qd_library.Prelude.{ℕ, ◌≡◌, sym, ◌∙◌, Bool, true, false, ◌⊎◌, inl, inr, List, none, arith}
use qd_library.Interleave.{State, Next, started, step, run, run-keeps}
use qd_library.Lock.{IsLock, Owner, Refines, step-Refines}

-- What one move does to the flag (`f`, then `f'`), where `n` and `n'` say whether the thread that
-- moves is inside the lock.
abbrev pub Marks : Bool → Bool → Bool → Bool → Type 0
Marks f n f' n' =
    ((f' ≡ true) × (n' ≡ true))
    ⊎ (((f' ≡ false) × (n ≡ true) × (n' ≡ false)) ⊎ ((f' ≡ f) × (n ≡ false) × (n' ≡ false)))

module _ {Choice Mem Pc : Type 0} (next : Next Choice Mem Pc) (held : Mem → Bool)
    (holds : Pc → Bool) (flag : Mem → Bool) (is_inside : Pc → Bool) where
  -- The flag is set exactly while a thread is inside.
  abbrev pub IsExact : State Mem Pc → Type 0
  IsExact s =
      ((i : ℕ) → is_inside (s.pc i) ≡ true → flag s.mem ≡ true)
      × (flag s.mem ≡ true → (i : ℕ) × (is_inside (s.pc i) ≡ true))

  pub record FlagLaws : Type 0 where
    pub lock : IsLock next held holds
    pub inside_holds : (p : Pc) → is_inside p ≡ true → holds p ≡ true
    pub marks :
        (i : ℕ) (c : Choice) (m : Mem) (p : Pc)
        → (is_inside p ≡ true → flag m ≡ true)
        → Marks (flag m) (is_inside p) (flag (next i c m p).0) (is_inside (next i c m p).1)

  module _ (laws : FlagLaws) where
    abbrev Good : State Mem Pc → Type 0
    Good s = ((o : Owner) × Refines next held holds s o) × IsExact s

    step-IsExact :
        (s : State Mem Pc) (i : ℕ) (c : Choice) (o : Owner)
        → Refines next held holds s o
        → IsExact s
        → IsExact (step next s (i, c))
    unfolding step
    step-IsExact s i c o r (a, b) = elim (laws.marks i c s.mem (s.pc i) (a i)) [
      | inl (set, here) ↦ (λ j e. set, λ e. (i, ground arith))
      | inr (inl (clear, left, gone)) ↦ (
        λ j e. absurd (
            ground (
              arith,
              r.owner i,
              r.owner j,
              laws.inside_holds (s.pc i),
              laws.inside_holds (s.pc j),
            )),
        λ e. absurd (cc),
      )
      | inr (inr (same, before, after)) ↦
          (λ j e. ground (arith, a j), λ e. let (j, q) = b (sym same ∙ e) in (j, ground arith))
    ]

    pub run-IsExact :
        (m : Mem) (p : Pc) (es : List (ℕ × Choice))
        → held m ≡ false
        → holds p ≡ false
        → is_inside p ≡ false
        → flag m ≡ false
        → IsExact (run next (started m p) es)
    run-IsExact m p es h q n f =
        (run-keeps next Good
          (λ s i c g.
            let (o', st, r') = step-Refines next held holds laws.lock s g.0.0 i c g.0.1 in
            ((o', r'), step-IsExact s i c g.0.0 g.0.1 g.1))
          (started m p) es
          ((none, record { lock_state = h; owner = λ i. q }), (λ i e. cc, λ e. cc))).1
