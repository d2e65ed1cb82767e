-- ===== src/Lock/Kernel.antt =====
-- The kernel's side of `sys_futex` (locks/futex_lock.hpp, locks/mcs_futex_lock.hpp and
-- locks/ticket_futex_lock.hpp): the threads that sleep on one futex word. The kernel is not part of
-- the library, so it is a parameter with the documented behaviour of FUTEX_WAIT and FUTEX_WAKE.
use qd_library.Prelude.{
  ℕ, zero, suc, ◌+◌, ◌≤◌, ◌<◌, ◌≡◌, refl, Bool, true, false, ◌||◌, ◌&&◌, not, List, [], ◌∷◌, arith,
  ◌==◌, if◌then◌else◌,
}

pub record Kernel : Type 1 where
  pub Queue : Type 0
  pub nobody : Queue
  pub asleep : Queue → ℕ → Bool
  -- FUTEX_WAIT at the expected value: the thread sleeps
  pub sleep : Queue → ℕ → Queue
  -- FUTEX_WAIT may return early, by a signal or for no reason
  pub interrupt : Queue → ℕ → Queue
  -- FUTEX_WAKE: wakes at most the given number of threads, and returns how many
  pub wake : Queue → ℕ → Queue × ℕ
  pub asleep-nobody : (i : ℕ) → asleep nobody i ≡ false
  pub asleep-sleep : (q : Queue) (i j : ℕ) → asleep (sleep q i) j ≡ (i == j) || asleep q j
  pub asleep-interrupt :
      (q : Queue) (i j : ℕ) → asleep (interrupt q i) j ≡ not (i == j) && asleep q j
  pub asleep-wake : (q : Queue) (n j : ℕ) → asleep (wake q n).0 j ≡ true → asleep q j ≡ true
  pub wake-le : (q : Queue) (n : ℕ) → (wake q n).1 ≤ n
  pub wake_one :
      (q : Queue) (j : ℕ) → ((k : ℕ) → asleep q k ≡ true → k ≡ j) → asleep (wake q 1).0 j ≡ false
  pub wake_all : (q : Queue) (n j : ℕ) → (wake q n).1 < n → asleep (wake q n).0 j ≡ false

-- A kernel that keeps the sleeping threads in a list, and wakes the last comers first.
abbrev pub member : List ℕ → ℕ → Bool
member [] j = false
member (x ∷ xs) j = (x == j) || member xs j

abbrev pub without : List ℕ → ℕ → List ℕ
without [] i = []
without (x ∷ xs) i = if x == i then without xs i else x ∷ without xs i

-- At most so many threads are woken; the second number says how many.
abbrev pub woken : ℕ → List ℕ → List ℕ × ℕ
woken zero q = (q, 0)
woken (suc n) [] = ([], 0)
woken (suc n) (x ∷ xs) = let rest = woken n (without xs x) in (rest.0, rest.1 + 1)

pub member-without : (q : List ℕ) (i j : ℕ) → member (without q i) j ≡ not (i == j) && member q j
member-without [] i j = ground arith
member-without (x ∷ xs) i j = ground (arith, member-without xs i j)

pub member-woken : (n : ℕ) (q : List ℕ) (j : ℕ) → member (woken n q).0 j ≡ true → member q j ≡ true
member-woken zero q j h = h
member-woken (suc n) [] j h = h
member-woken (suc n) (x ∷ xs) j h =
    ground (arith, member-woken n (without xs x) j h, member-without xs x j)

pub woken-le : (n : ℕ) (q : List ℕ) → (woken n q).1 ≤ n
woken-le zero q = omega arith
woken-le (suc n) [] = omega arith
woken-le (suc n) (x ∷ xs) = omega (arith, woken-le n (without xs x))

pub woken_all : (n : ℕ) (q : List ℕ) (j : ℕ) → (woken n q).1 < n → member (woken n q).0 j ≡ false
woken_all zero q j h = absurd (omega arith)
woken_all (suc n) [] j h = refl
woken_all (suc n) (x ∷ xs) j h = woken_all n (without xs x) j (omega arith)

pub woken_one :
    (q : List ℕ) (j : ℕ) → ((k : ℕ) → member q k ≡ true → k ≡ j) → member (woken 1 q).0 j ≡ false
woken_one [] j h = refl
woken_one (x ∷ xs) j h = ground (arith, h x, member-without xs x j)

abbrev pub list_kernel : Kernel
list_kernel = record {
  Queue = List ℕ;
  nobody = [];
  asleep = member;
  sleep = λ q i. i ∷ q;
  interrupt = without;
  wake = λ q n. woken n q;
  asleep-nobody = λ i. refl;
  asleep-sleep = λ q i j. refl;
  asleep-interrupt = member-without;
  asleep-wake = λ q n j. member-woken n q j;
  wake-le = λ q n. woken-le n q;
  wake_one = woken_one;
  wake_all = λ q n j. woken_all n q j;
}
