-- ===== src/Lock/Chain/Inv.antt =====
-- The chain of nodes is in the order in which the threads came, and its first node is the owner's.
use qd_library.Prelude.{ℕ, ◌+◌, ◌≤◌, ◌<◌, ◌≡◌, ◌⊎◌, Bool, true, false, Option, none, some}
use qd_library.Lock.Chain.{
  Chain, Stage, idle, marking, linking, waiting, holding, reading, giving, leaving, broken, is_some,
}

-- In the chain, from coming to leaving.
abbrev pub queued : Stage → Bool
queued idle = false
queued leaving = false
queued broken = false
queued s = true

abbrev pub owns : Stage → Bool
owns holding = true
owns reading = true
owns (giving n) = true
owns s = false

-- The node before, of a thread that has not linked its own yet.
abbrev pub ahead : Stage → Option ℕ
ahead (marking p) = some p
ahead (linking p) = some p
ahead s = none

abbrev pub waits : Stage → Bool
waits waiting = true
waits s = false

abbrev pub gives : Stage → Option ℕ
gives (giving n) = some n
gives s = none

abbrev pub reads : Stage → Bool
reads reading = true
reads s = false

abbrev pub is_broken : Stage → Bool
is_broken broken = true
is_broken s = false

abbrev pub is_idle : Stage → Bool
is_idle idle = true
is_idle s = false

abbrev pub links : Stage → Bool
links (linking p) = true
links s = false

-- The node is linked to the next one, or the next thread is about to do it.
abbrev pub Linked : Chain → (ℕ → Stage) → ℕ → ℕ → Type 0
Linked c st a b =
    ((c.next a ≡ some b) × (ahead (st b) ≡ none)) ⊎ ((c.next a ≡ none) × (ahead (st b) ≡ some a))

pub record Inv (c : Chain) (st : ℕ → Stage) : Type 0 where
  pub ord : c.turns.served ≤ c.turns.taken
  pub empty : c.turns.served ≡ c.turns.taken → c.tail ≡ none
  pub last : (k : ℕ) → c.turns.served ≤ k → k + 1 ≡ c.turns.taken → c.tail ≡ some (c.turns.at k)
  pub mine :
      (i : ℕ)
      → queued (st i) ≡ true
      → (c.turns.served ≤ c.turns.ticket i)
        × (c.turns.ticket i < c.turns.taken)
        × (c.turns.at (c.turns.ticket i) ≡ i)
  pub theirs :
      (k : ℕ)
      → c.turns.served ≤ k
      → k < c.turns.taken
      → (queued (st (c.turns.at k)) ≡ true) × (c.turns.ticket (c.turns.at k) ≡ k)
  pub first : (i : ℕ) → owns (st i) ≡ true → c.turns.ticket i ≡ c.turns.served
  pub woken : (i : ℕ) → waits (st i) ≡ true → c.free i ≡ true → c.turns.ticket i ≡ c.turns.served
  pub blocked : (i : ℕ) → waits (st i) ≡ true → c.free i ≡ false → c.turns.served < c.turns.ticket i
  pub behind : (i p k : ℕ) → ahead (st i) ≡ some p → k + 1 ≡ c.turns.ticket i → c.turns.at k ≡ p
  pub later : (i p : ℕ) → ahead (st i) ≡ some p → c.turns.served < c.turns.ticket i
  pub marked : (i : ℕ) → links (st i) ≡ true → c.free i ≡ false
  pub linked :
      (k : ℕ)
      → c.turns.served ≤ k
      → k + 1 < c.turns.taken
      → Linked c st (c.turns.at k) (c.turns.at (k + 1))
  pub loose : (k : ℕ) → c.turns.served ≤ k → k + 1 ≡ c.turns.taken → c.next (c.turns.at k) ≡ none
  pub away : (i : ℕ) → is_idle (st i) ≡ true → c.next i ≡ none
  pub seen : (i : ℕ) → reads (st i) ≡ true → is_some (c.next i) ≡ true
  pub sound : (i : ℕ) → is_broken (st i) ≡ false
  pub handing : (i n : ℕ) → gives (st i) ≡ some n → c.next i ≡ some n
