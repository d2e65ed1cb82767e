-- ===== src/Interleave/Total.antt =====
-- Sums over the first threads, and schedules of them.
use qd_library.Prelude.{ℕ, zero, suc, ◌+◌, ◌*◌, ◌≤◌, ◌<◌, ◌≡◌, refl, ap, List, [], ◌∷◌, ◌++◌, arith}
use native.Mathlib.Decide.{dec_lt}
use qd_library.Interleave.{update, State, Next, step, run}

-- Each event of the schedule is a turn of one of the first `n` threads.
abbrev pub OfThreads : {Choice : Type 0} → ℕ → List (ℕ × Choice) → Type 0
OfThreads n [] = Unit {0}
OfThreads n ((i, c) ∷ es) = (i < n) × OfThreads n es

pub OfThreads-append :
    {Choice : Type 0} (n : ℕ) (es fs : List (ℕ × Choice))
    → OfThreads n es
    → OfThreads n fs
    → OfThreads n (es ++ fs)
OfThreads-append n [] fs t u = u
OfThreads-append n ((i, c) ∷ es) fs t u = (t.0, OfThreads-append n es fs t.1 u)

module _ {Choice Mem Pc : Type 0} (next : Next Choice Mem Pc) (n : ℕ) where
  pub run-keeps_of {ℓ} :
      (P : State Mem Pc → Type ℓ)
      → ((s : State Mem Pc) (i : ℕ) (c : Choice) → i < n → P s → P (step next s (i, c)))
      → (s : State Mem Pc) (es : List (ℕ × Choice)) → OfThreads n es
      → P s
      → P (run next s es)
  unfolding run
  run-keeps_of P keep s [] t h = h
  run-keeps_of P keep s ((i, c) ∷ es) t h =
      run-keeps_of P keep (step next s (i, c)) es t.1 (keep s i c t.0 h)

module _ {Pc : Type 0} (weight : Pc → ℕ) where
  pub total : ℕ → (ℕ → Pc) → ℕ
  total zero pc = 0
  total (suc n) pc = weight (pc n) + total n pc

  total-update_above :
      (n : ℕ) (pc : ℕ → Pc) (i : ℕ) (p : Pc) → n ≤ i → total n (update pc i p) ≡ total n pc
  unfolding total
  total-update_above zero pc i p h = refl
  total-update_above (suc n) pc i p h = ground (arith, total-update_above n pc i p)

  pub total-update :
      (n : ℕ) (pc : ℕ → Pc) (i : ℕ) (p : Pc)
      → i < n
      → weight (pc i) + total n (update pc i p) ≡ weight p + total n pc
  unfolding total
  total-update zero pc i p h = absurd (omega arith)
  total-update (suc n) pc i p h = elim (dec_lt i n) [
    | yes below ↦ ground (arith, total-update n pc i p)
    | no last ↦ ground (arith, total-update_above n pc i p)
  ]

  pub total-le : (b : ℕ) → ((p : Pc) → weight p ≤ b) → (n : ℕ) (pc : ℕ → Pc) → total n pc ≤ n * b
  unfolding total
  total-le b h zero pc = omega arith
  total-le b h (suc n) pc = grind (arith, h (pc n), total-le b h n pc)

  pub total-zero : (n : ℕ) (p : Pc) → weight p ≡ 0 → total n (λ _. p) ≡ 0
  unfolding total
  total-zero zero p h = refl
  total-zero (suc n) p h = omega (arith, total-zero n p h)

  pub total-zeros : (n : ℕ) (pc : ℕ → Pc) → ((i : ℕ) → weight (pc i) ≡ 0) → total n pc ≡ 0
  unfolding total
  total-zeros zero pc h = refl
  total-zeros (suc n) pc h = omega (arith, h n, total-zeros n pc h)

  pub weight-le : (n : ℕ) (pc : ℕ → Pc) (i : ℕ) → i < n → weight (pc i) ≤ total n pc
  unfolding total
  weight-le zero pc i h = absurd (omega arith)
  weight-le (suc n) pc i h = elim (dec_lt i n) [
    | yes below ↦ omega (arith, weight-le n pc i below)
    | no last ↦ let e : i ≡ n = omega arith in ground (arith, ap pc e)
  ]
