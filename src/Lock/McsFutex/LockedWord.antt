-- ===== src/Lock/McsFutex/LockedWord.antt =====
-- `locked` of locks/mcs_futex_lock.hpp: the address of a node, or null, whose lowest bit is a flag.
use qd_library.Prelude.{ℕ, ◌≡◌, refl, Bool, true, false, ◌&&◌, Option, none, some, arith, ◌==◌}

pub record Word : Type 0 where
  pub node : Option ℕ
  pub flag : Bool

-- `free`
abbrev pub no_node : Word
no_node = record { node = none; flag = false }

abbrev pub own_node : ℕ → Bool → Word
own_node i f = record { node = some i; flag = f }

abbrev pub is_null : Option ℕ → Bool
is_null none = true
is_null (some n) = false

abbrev pub node_eq : Option ℕ → Option ℕ → Bool
node_eq none none = true
node_eq (some i) (some j) = i == j
node_eq o p = false

abbrev pub flag_eq : Bool → Bool → Bool
flag_eq true true = true
flag_eq false false = true
flag_eq f g = false

abbrev pub word_eq : Word → Word → Bool
word_eq v w = node_eq v.node w.node && flag_eq v.flag w.flag

pub node_eq-eq : (o p : Option ℕ) → node_eq o p ≡ true → o ≡ p
node_eq-eq none none h = refl
node_eq-eq (some i) (some j) h = ground arith
node_eq-eq none (some j) h = absurd (cc)
node_eq-eq (some i) none h = absurd (cc)

flag_eq-eq : (f g : Bool) → flag_eq f g ≡ true → f ≡ g
flag_eq-eq true true h = refl
flag_eq-eq false false h = refl
flag_eq-eq true false h = absurd (cc)
flag_eq-eq false true h = absurd (cc)

pub word_eq-eq : (v w : Word) → word_eq v w ≡ true → (v.node ≡ w.node) × (v.flag ≡ w.flag)
word_eq-eq v w h =
    let (a, b) = both (node_eq v.node w.node) (flag_eq v.flag w.flag) h in
    (node_eq-eq v.node w.node a, flag_eq-eq v.flag w.flag b)
  where
    both : (a b : Bool) → a && b ≡ true → (a ≡ true) × (b ≡ true)
    both true true h = (refl, refl)
    both true false h = absurd (cc)
    both false b h = absurd (cc)
