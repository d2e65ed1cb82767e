-- ===== src/Interleave.antt =====
-- Threads that take turns over one shared memory, a shared access at a time. A component gives
-- what one thread does next; a schedule says which thread goes, and what it chooses where the
-- program leaves a choice. The numbers of the threads are the natural numbers.
pub mod Total
use qd_library.Prelude.{ℕ, ◌≡◌, refl, List, [], ◌∷◌, ◌++◌, ◌==◌, if◌then◌else◌}

abbrev pub update {ℓ} : {A : Type ℓ} → (ℕ → A) → ℕ → A → ℕ → A
update f i a j = if i == j then a else f j

pub record State (Mem Pc : Type 0) : Type 0 where
  pub mem : Mem
  pub pc : ℕ → Pc

abbrev pub started : {Mem Pc : Type 0} → Mem → Pc → State Mem Pc
started m p = record { mem = m; pc = λ _. p }

-- `next i c m p`: what thread `i`, at `p`, makes of the memory `m` and where it then stands, when
-- its choice is `c`.
abbrev pub Next : Type 0 → Type 0 → Type 0 → Type 0
Next Choice Mem Pc = ℕ → Choice → Mem → Pc → Mem × Pc

module _ {Choice Mem Pc : Type 0} (next : Next Choice Mem Pc) where
  unfoldable pub step : State Mem Pc → ℕ × Choice → State Mem Pc
  step s (i, c) = record {
    mem = (next i c s.mem (s.pc i)).0;
    pc = update s.pc i (next i c s.mem (s.pc i)).1;
  }

  unfoldable pub run : State Mem Pc → List (ℕ × Choice) → State Mem Pc
  unfolding step
  run s [] = s
  run s (e ∷ es) = run (step s e) es

  -- What each step keeps, every schedule keeps.
  pub run-keeps {ℓ} :
      (P : State Mem Pc → Type ℓ)
      → ((s : State Mem Pc) (i : ℕ) (c : Choice) → P s → P (step s (i, c)))
      → (s : State Mem Pc) (es : List (ℕ × Choice)) → P s
      → P (run s es)
  unfolding run
  run-keeps P keep s [] h = h
  run-keeps P keep s ((i, c) ∷ es) h = run-keeps P keep (step s (i, c)) es (keep s i c h)

  pub run-append :
      (s : State Mem Pc) (es fs : List (ℕ × Choice)) → run s (es ++ fs) ≡ run (run s es) fs
  unfolding run
  run-append s [] fs = refl
  run-append s (e ∷ es) fs = run-append (step s e) es fs
