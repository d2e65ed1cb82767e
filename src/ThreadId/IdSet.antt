-- ===== src/ThreadId/IdSet.antt =====
-- `std::set<unsigned long>` as a strictly increasing list: the calls that threadid.hpp makes.
use qd_library.Prelude.{
  ℕ, suc, ◌+◌, ◌≤◌, ◌<◌, ◌≡◌, refl, Bool, true, false, ◌||◌, List, [], ◌∷◌, arith, length, count,
  ltb, ◌==◌, if◌then◌else◌,
}

unfoldable pub contains : ℕ → List ℕ → Bool
contains a [] = false
contains a (x ∷ xs) = (x == a) || contains a xs

unfoldable pub erase : ℕ → List ℕ → List ℕ
erase a [] = []
erase a (x ∷ xs) = if x == a then xs else x ∷ erase a xs

unfoldable pub insert : ℕ → List ℕ → List ℕ
insert a [] = a ∷ []
insert a (x ∷ xs) = if a == x then x ∷ xs else if ltb a x then a ∷ x ∷ xs else x ∷ insert a xs

-- Every member lies above the bound, and the list increases.
abbrev pub Above : ℕ → List ℕ → Type 0
Above b [] = Unit {0}
Above b (x ∷ xs) = (b < x) × Above x xs

pub Above-mono : (a b : ℕ) (xs : List ℕ) → a ≤ b → Above b xs → Above a xs
Above-mono a b [] h v = tt
Above-mono a b (x ∷ xs) h v = (omega arith, v.1)

pub count-below : (b a : ℕ) (xs : List ℕ) → Above b xs → a ≤ b → count a xs ≡ 0
count-below b a [] v h = refl
count-below b a (x ∷ xs) v h = ground (arith, count-below x a xs v.1)

pub contains-count :
    (a : ℕ) (xs : List ℕ) → contains a xs ≡ (if count a xs == 0 then false else true)
unfolding contains
contains-count a [] = refl
contains-count a (x ∷ xs) = ground (arith, contains-count a xs)

pub count-erase :
    (a j : ℕ) (xs : List ℕ)
    → contains a xs ≡ true
    → count j xs ≡ (if a == j then 1 else 0) + count j (erase a xs)
unfolding contains erase
count-erase a j [] h = cc
count-erase a j (x ∷ xs) h = ground (arith, count-erase a j xs)

pub length-erase :
    (a : ℕ) (xs : List ℕ) → contains a xs ≡ true → length xs ≡ suc (length (erase a xs))
unfolding contains erase
length-erase a [] h = cc
length-erase a (x ∷ xs) h = ground (arith, length-erase a xs)

pub erase-Above : (b a : ℕ) (xs : List ℕ) → Above b xs → Above b (erase a xs)
unfolding erase
erase-Above b a [] v = tt
erase-Above b a (x ∷ xs) v = ground (arith, erase-Above x a xs v.1, Above-mono b x xs)

pub count-insert :
    (a j : ℕ) (xs : List ℕ)
    → count a xs ≡ 0
    → count j (insert a xs) ≡ (if a == j then 1 else 0) + count j xs
unfolding insert
count-insert a j [] h = refl
count-insert a j (x ∷ xs) h = ground (arith, count-insert a j xs)

pub insert-Above : (b a : ℕ) (xs : List ℕ) → b < a → Above b xs → Above b (insert a xs)
unfolding insert
insert-Above b a [] h v = (h, tt)
insert-Above b a (x ∷ xs) h v = ground (arith, insert-Above x a xs)
