-- ===== src/Queue/Registry/Found.antt =====
-- queues/buffer_queue.hpp: a function that has a number is found by it, with its size.
use qd_library.Prelude.{
  length, ◌∷◌, [], ◌+◌, ◌^◌, ◌<◌, some_eq, none≢some, ℕ, ◌≡◌, refl, sym, ◌∙◌, false, none, some,
  inl, inr, List, arith, ◌==◌, Bool-cases,
}
use qd_library.Interleave.{update, State, started, step, run}
use qd_library.Queue.Registry.{Registry, registry, Call, Pc, outside, next}
use qd_library.Queue.Registry.Inv.{reserves, Knows, Inv, Knows-Grows}
use qd_library.Queue.Registry.Deletes.{deletes, turn-deletes}
use qd_library.Queue.Registry.Publish.{Does}
use qd_library.Queue.Registry.Steps.{turn-Does}

-- The end of `flush` does not happen.
abbrev pub NeverDeletes : List (ℕ × Call) → Type 0
NeverDeletes [] = Unit {0}
NeverDeletes ((i, c) ∷ es) = (deletes c ≡ false) × NeverDeletes es

module _ (size_of : ℕ → ℕ) where
  abbrev turn : ℕ → Call → Registry → Pc → Registry × Pc
  turn = next size_of

  unique_after :
      (s : State Registry Pc) (i : ℕ) (res : Registry × Pc) (v : Inv size_of s)
      → Does size_of s.mem (s.pc i) res
      → (k a : ℕ) → (i == k) ≡ false
      → reserves res.1 ≡ some a
      → reserves (s.pc k) ≡ some a
      → ⊥
  unique_after s i res v d k a ne h g = elim (d.draws a h) [
    | inl old ↦ let e : i ≡ k = v.unique i k a old g in absurd (ground (arith, e, ne))
    | inr (e, f) ↦ absurd (omega (arith, e, (v.drawn k a g).0))
  ]

  step-Inv :
      (s : State Registry Pc) (i : ℕ) (c : Call)
      → s.mem.function_idx + 1 < 2 ^ 32
      → s.mem.deleted ≡ []
      → Inv size_of s
      → Inv size_of (step turn s (i, c))
  unfolding step
  step-Inv s i c few alive v = record {
    maps = d.maps;
    knows = knows;
    drawn = drawn;
    unique = unique;
  }
    where
      res : Registry × Pc
      res = turn i c s.mem (s.pc i)

      d : Does size_of s.mem (s.pc i) res
      d = turn-Does size_of i c s.mem (s.pc i) v.maps (v.knows i) (v.drawn i) few alive

      after : ℕ → Pc
      after = update s.pc i res.1

      knows : (j : ℕ) → Knows size_of res.0 (after j)
      knows j = elim (Bool-cases (i == j)) [
        | inl e ↦ rw e (d.knows)
        | inr e ↦ rw e (Knows-Grows size_of s.mem res.0 d.grows (s.pc j) (v.knows j))
      ]

      drawn_now :
          (a : ℕ)
          → reserves res.1 ≡ some a
          → (a < res.0.function_idx) × (res.0.functions.content a ≡ none)
      drawn_now a h = elim (d.draws a h) [
        | inl old ↦
            let was = v.drawn i a old in
            (omega (arith, was.0, d.counts), d.free_stay a (λ q. h) was.1)
        | inr (e, f) ↦
            (omega (arith, e, f), d.free_stay a (λ q. h) (v.maps.unused a (omega (arith, e))))
      ]

      drawn :
          (j a : ℕ)
          → reserves (after j) ≡ some a
          → (a < res.0.function_idx) × (res.0.functions.content a ≡ none)
      drawn j a = elim (Bool-cases (i == j)) [
        | inl e ↦ rw e (drawn_now a)
        | inr e ↦ rw e (λ h.
            let was = v.drawn j a h in
            (
              omega (arith, was.0, d.counts),
              d.free_stay a
                  (λ q. let same : i ≡ j = v.unique i j a q h in absurd (ground (arith, same, e)))
                  was.1,
            ))
      ]

      unique : (j k a : ℕ) → reserves (after j) ≡ some a → reserves (after k) ≡ some a → j ≡ k
      unique j k a = elim (Bool-cases (i == j)) [
        | inl e ↦ elim (Bool-cases (i == k)) [
          | inl f ↦ rw (e, f) (λ h g. ground (arith, e, f))
          | inr f ↦ rw (e, f) (λ h g. absurd (unique_after s i res v d k a f h g))
        ]
        | inr e ↦ elim (Bool-cases (i == k)) [
          | inl f ↦ rw (e, f) (λ h g. absurd (unique_after s i res v d j a e g h))
          | inr f ↦ rw (e, f) (λ h g. v.unique j k a h g)
        ]
      ]

  step_few :
      (s : State Registry Pc) (i : ℕ) (c : Call) (es : List (ℕ × Call))
      → s.mem.function_idx + length ((i, c) ∷ es) < 2 ^ 32
      → Does size_of s.mem (s.pc i) (turn i c s.mem (s.pc i))
      → (step turn s (i, c)).mem.function_idx + length es < 2 ^ 32
  unfolding step
  step_few s i c es few d = omega (arith, few, d.slow)

  step-deletes :
      (s : State Registry Pc) (i : ℕ) (c : Call)
      → deletes c ≡ false
      → s.mem.deleted ≡ []
      → (step turn s (i, c)).mem.deleted ≡ []
  unfolding step
  step-deletes s i c n e = turn-deletes size_of i c s.mem (s.pc i) n e

  fresh-Inv : Inv size_of (started registry outside)
  fresh-Inv = record {
    maps = record {
      found = λ op k h. absurd (none≢some h);
      unused = λ k h. refl;
      sizes_old = omega arith;
      functions_old = omega arith;
      rev_old = omega arith;
    };
    knows = λ j. tt;
    drawn = λ j a h. absurd (none≢some h);
    unique = λ j k a h. absurd (none≢some h);
  }

  abbrev pub registered : List (ℕ × Call) → Registry
  registered es = (run turn (started registry outside) es).mem

  kept-Inv :
      (s : State Registry Pc) (es : List (ℕ × Call))
      → NeverDeletes es
      → s.mem.function_idx + length es < 2 ^ 32
      → s.mem.deleted ≡ []
      → Inv size_of s
      → Inv size_of (run turn s es)
  unfolding run
  kept-Inv s [] never few alive v = v
  kept-Inv s ((i, c) ∷ es) never few alive v =
      let d =
        turn-Does size_of i c s.mem (s.pc i) v.maps (v.knows i) (v.drawn i) (omega (arith, few))
          alive in
      kept-Inv (step turn s (i, c)) es never.1 (step_few s i c es few d)
        (step-deletes s i c never.0 alive) (step-Inv s i c (omega (arith, few)) alive v)

  -- However threads register functions at the same time, and however often the exchanges fail, in
  -- fewer than 2^32 - 1 steps and as long as `flush` has deleted none of the maps: if a function has a
  -- number in `rev_functions`, then `functions` has the function for this number, `sizes` has its
  -- size, and no other function has the number.
  pub registered_found :
      (es : List (ℕ × Call)) (op k : ℕ)
      → NeverDeletes es
      → length es + 1 < 2 ^ 32
      → (registered es).rev_functions.content op ≡ some k
      → ((registered es).functions.content k ≡ some op)
        × ((registered es).sizes.content op ≡ some (size_of op))
        × ((op' : ℕ) → (registered es).rev_functions.content op' ≡ some k → op' ≡ op)
  registered_found es op k never few h =
      let v = kept-Inv (started registry outside) es never (omega (arith, few)) refl fresh-Inv in
      let here = v.maps.found op k h in
      (here.0, here.1, λ op' g. some_eq (sym (v.maps.found op' k g).0 ∙ here.0))
