-- ===== src/Lock/TicketFutex/Turn.antt =====
-- The turns that locks/ticket_futex_lock.hpp gives to its threads, and what each of its steps does
-- to them.
use qd_library.Prelude.{ℕ, ◌≤◌, ◌<◌, ◌≡◌, refl, sym, ap, ◌∙◌, Bool, true, false, arith}
use qd_library.Interleave.{update}
use qd_library.Lock.Chain.{Turns, no_turns, next_turn, turn_over}

-- Without a ticket; waiting with one; owning the lock.
pub data Role : Type 0 where
  away waits owns : Role

abbrev pub has_ticket : Role → Bool
has_ticket away = false
has_ticket r = true

abbrev pub is_owner : Role → Bool
is_owner owns = true
is_owner r = false

-- The tickets from `served` on belong to one thread each, and the owner's is the first.
pub record InTurn (t : Turns) (role : ℕ → Role) : Type 0 where
  pub ord : t.served ≤ t.taken
  pub mine :
      (i : ℕ)
      → has_ticket (role i) ≡ true
      → (t.served ≤ t.ticket i) × (t.ticket i < t.taken) × (t.at (t.ticket i) ≡ i)
  pub theirs :
      (n : ℕ)
      → t.served ≤ n
      → n < t.taken
      → (has_ticket (role (t.at n)) ≡ true) × (t.ticket (t.at n) ≡ n)
  pub first : (i : ℕ) → is_owner (role i) ≡ true → t.ticket i ≡ t.served

-- What a step of thread `i` makes of the turns and of the role of the thread.
pub data Turned (i : ℕ) (t : Turns) : Role → Turns → Role → Type 0 where
  stays : (r : Role) → Turned i t r t r
  draws : Turned i t away (next_turn i t) waits
  enters : t.served ≡ t.taken → Turned i t away (next_turn i t) owns
  begins : t.ticket i ≡ t.served → Turned i t waits t owns
  ends : Turned i t owns (turn_over t) away

pub no_turns-InTurn : InTurn no_turns (λ i. away)
no_turns-InTurn = record {
  ord = omega arith;
  mine = λ i h. absurd (cc);
  theirs = λ n h q. absurd (omega arith);
  first = λ i h. absurd (cc);
}

-- The parts of the invariant after a ticket has been drawn.
drawn-InTurn :
    (t : Turns) (role : ℕ → Role) (i : ℕ) (r : Role)
    → InTurn t role
    → role i ≡ away
    → has_ticket r ≡ true
    → (is_owner r ≡ true → t.served ≡ t.taken)
    → InTurn (next_turn i t) (update role i r)
drawn-InTurn t role i r v e h f = record {
  ord = omega (arith, v.ord);
  mine = λ j q. ground (arith, v.ord, v.mine j);
  theirs = λ n a b. ground (arith, v.theirs n);
  first = λ j q. ground (arith, v.first j);
}

pub Turned-InTurn :
    (role : ℕ → Role) (i : ℕ) (t t' : Turns) (r r' : Role)
    → InTurn t role
    → role i ≡ r
    → Turned i t r t' r'
    → InTurn t' (update role i r')
Turned-InTurn role i t _ _ _ v e (stays r) = record {
  ord = v.ord;
  mine = λ j q. ground (arith, v.mine j);
  theirs = λ n a b. ground (arith, v.theirs n a b);
  first = λ j q. ground (arith, v.first j);
}
Turned-InTurn role i t _ _ _ v e draws = drawn-InTurn t role i waits v e refl (λ h. absurd (cc))
Turned-InTurn role i t _ _ _ v e (enters f) = drawn-InTurn t role i owns v e refl (λ h. f)
Turned-InTurn role i t _ _ _ v e (begins f) = record {
  ord = v.ord;
  mine = λ j q. ground (arith, v.mine j);
  theirs = λ n a b. ground (arith, v.theirs n a b);
  first = λ j q. ground (arith, v.first j);
}
Turned-InTurn role i t _ _ _ v e ends = record {
  ord = ground (arith, v.mine i, v.first i);
  mine = λ j q. ground (arith, v.mine j, v.mine i, v.first i);
  theirs = λ n a b. ground (arith, v.theirs n, v.first i);
  first = λ j q. ground (arith, v.first j, v.mine j, v.first i, v.mine i);
}

pub owner-has_ticket : (r : Role) → is_owner r ≡ true → has_ticket r ≡ true
owner-has_ticket away h = absurd (cc)
owner-has_ticket r h = refl

pub only_owner :
    (t : Turns) (role : ℕ → Role)
    → InTurn t role
    → (i j : ℕ) → is_owner (role i) ≡ true
    → is_owner (role j) ≡ true
    → i ≡ j
only_owner t role v i j a b =
    let (_, _, p) = v.mine i (owner-has_ticket (role i) a) in
    let (_, _, q) = v.mine j (owner-has_ticket (role j) b) in
    sym p ∙ ap t.at (v.first i a ∙ sym (v.first j b)) ∙ q
