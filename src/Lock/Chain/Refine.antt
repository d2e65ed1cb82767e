-- ===== src/Lock/Chain/Refine.antt =====
-- What holds of a lock whose every access is an act on the chain of nodes.
use qd_library.Prelude.{
  ℕ, ◌≤◌, ◌<◌, ◌≡◌, refl, sym, ap, ◌∙◌, ◌⊎◌, inl, inr, Bool, true, false, List, none, some, arith,
  Bool-cases,
}
use mathlib.Core.Path.{subst₂, fun_ext}
use qd_library.Interleave.{update, State, Next, started, step, run, run-keeps}
use qd_library.Lock.Chain.{
  no_turns, Chain, Stage, idle, marking, linking, waiting, holding, reading, giving, Act, nothing,
  source, target, Guard, effect, is_some,
}
use qd_library.Lock.Chain.Inv.{queued, owns, ahead, waits, reads, is_broken, Inv}
use qd_library.Lock.Chain.Acts.{act-Inv}

abbrev pub empty_chain : (ℕ → Bool) → Chain
empty_chain free = record { tail = none; free = free; next = λ i. none; turns = no_turns }

-- The act that one access is.
pub record IsAct (i : ℕ) (c c' : Chain) (s s' : Stage) : Type 0 where
  pub act : Act
  pub from : s ≡ source act
  pub finds : Guard i act c
  pub to : s' ≡ target act
  pub does : c' ≡ effect i act c

-- An access that changes nothing.
pub still : (i : ℕ) (c : Chain) (s s' : Stage) → s' ≡ s → IsAct i c c s s'
still i c s s' e = record { act = nothing s; from = refl; finds = tt; to = e; does = refl }

-- The interface: `next` is a lock, seen as a chain by `chain` and `stage`.
pub record IsChain {Choice Mem Pc : Type 0} (next : Next Choice Mem Pc) (chain : Mem → Chain)
    (stage : Pc → Stage) : Type 0 where
  pub acts :
      (i : ℕ) (c : Choice) (m : Mem) (p : Pc)
      → (reads (stage p) ≡ true → is_some ((chain m).next i) ≡ true)
      → IsAct i (chain m) (chain (next i c m p).0) (stage p) (stage (next i c m p).1)

idle-Inv : (free : ℕ → Bool) → Inv (empty_chain free) (λ i. idle)
idle-Inv free = record {
  ord = omega arith;
  empty = λ h. refl;
  last = λ k h q. absurd (omega arith);
  mine = λ i h. absurd (cc);
  theirs = λ k h q. absurd (omega arith);
  first = λ i h. absurd (cc);
  woken = λ i h q. absurd (cc);
  blocked = λ i h q. absurd (cc);
  behind = λ i p k h q. absurd (cc);
  later = λ i p h. absurd (cc);
  marked = λ i h. absurd (cc);
  linked = λ k h q. absurd (omega arith);
  loose = λ k h q. refl;
  away = λ i h. refl;
  seen = λ i h. absurd (cc);
  sound = λ i. refl;
  handing = λ i n h. absurd (cc);
}

roles :
    (s : Stage)
    → queued s ≡ true
    → (owns s ≡ true) ⊎ ((waits s ≡ true) ⊎ ((p : ℕ) × (ahead s ≡ some p)))
roles (marking p) h = inr (inr (p, refl))
roles (linking p) h = inr (inr (p, refl))
roles waiting h = inr (inl refl)
roles holding h = inl refl
roles reading h = inl refl
roles (giving n) h = inl refl
roles s h = absurd (cc)

-- The first node of the chain is the owner's, or has been marked for a waiting thread.
head_of :
    (c : Chain) (st : ℕ → Stage)
    → Inv c st
    → is_some c.tail ≡ true
    → ((i : ℕ) × (owns (st i) ≡ true)) ⊎ ((i : ℕ) × (waits (st i) ≡ true) × (c.free i ≡ true))
head_of c st v h =
    let busy : c.turns.served < c.turns.taken = ground (arith, v.ord, v.empty) in
    let i = c.turns.at c.turns.served in
    let (in_chain, number) = v.theirs c.turns.served (omega arith) busy in
    elim (roles (st i) in_chain) [
      | inl o ↦ inl (i, o)
      | inr (inr (p, a)) ↦ absurd (omega (arith, v.later i p a, number))
      | inr (inl w) ↦ elim (Bool-cases (c.free i)) [
        | inl f ↦ inr (i, w, f)
        | inr f ↦ absurd (omega (arith, v.blocked i w f, number))
      ]
    ]

module _ {Choice Mem Pc : Type 0} (next : Next Choice Mem Pc) (chain : Mem → Chain)
    (stage : Pc → Stage) (laws : IsChain next chain stage) where
  abbrev Holds : State Mem Pc → Type 0
  Holds s = Inv (chain s.mem) (λ j. stage (s.pc j))

  stage-update :
      (pc : ℕ → Pc) (i : ℕ) (p : Pc)
      → update (λ j. stage (pc j)) i (stage p) ≡ (λ j. stage (update pc i p j))
  stage-update pc i p = fun_ext λ j. ground arith

  step-Inv : (s : State Mem Pc) (i : ℕ) (c : Choice) → Holds s → Holds (step next s (i, c))
  unfolding step
  step-Inv s i c v =
      let a = laws.acts i c s.mem (s.pc i) (v.seen i) in
      let kept = act-Inv (chain s.mem) (λ j. stage (s.pc j)) v i a.act a.from a.finds in
      subst₂ Inv (sym a.does)
        (ap (update (λ j. stage (s.pc j)) i) (sym a.to)
          ∙ stage-update s.pc i (next i c s.mem (s.pc i)).1)
        kept

  module _ (m : Mem) (p : Pc) (free : ℕ → Bool) (fresh : chain m ≡ empty_chain free)
      (away : stage p ≡ idle) (es : List (ℕ × Choice)) where
    abbrev reached : State Mem Pc
    reached = run next (started m p) es

    pub run-Inv :
        Inv (chain (run next (started m p) es).mem) (λ j. stage ((run next (started m p) es).pc j))
    run-Inv =
        run-keeps next Holds step-Inv (started m p) es
          (subst₂ Inv (sym fresh) (sym (fun_ext λ j. away)) (idle-Inv free))

    -- One owner at most.
    pub run-owner :
        (i j : ℕ)
        → owns (stage ((run next (started m p) es).pc i)) ≡ true
        → owns (stage ((run next (started m p) es).pc j)) ≡ true
        → i ≡ j
    run-owner i j a b =
        let v = run-Inv in ground (arith, v.first i a, v.first j b, v.mine i, v.mine j)

    -- The owner came before all others that are in the chain.
    pub run_in_order :
        (i j : ℕ)
        → owns (stage ((run next (started m p) es).pc i)) ≡ true
        → queued (stage ((run next (started m p) es).pc j)) ≡ true
        → (chain (run next (started m p) es).mem).turns.ticket i
          ≤ (chain (run next (started m p) es).mem).turns.ticket j
    run_in_order i j a b = let v = run-Inv in omega (arith, v.first i a, v.mine j b)

    -- A lock that is taken has an owner, or a waiting thread whose node has been marked `free`.
    pub run_taken :
        is_some (chain (run next (started m p) es).mem).tail ≡ true
        → ((i : ℕ) × (owns (stage ((run next (started m p) es).pc i)) ≡ true))
          ⊎ ((i : ℕ) × (waits (stage ((run next (started m p) es).pc i)) ≡ true)
              × ((chain (run next (started m p) es).mem).free i ≡ true))
    run_taken h =
        head_of (chain (run next (started m p) es).mem)
          (λ j. stage ((run next (started m p) es).pc j)) run-Inv h

    pub run_sound : (i : ℕ) → is_broken (stage ((run next (started m p) es).pc i)) ≡ false
    run_sound i = run-Inv.sound i
