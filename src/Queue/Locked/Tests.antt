-- ===== src/Queue/Locked/Tests.antt =====
-- queues/simple_locked_queue.hpp: an operation that fits, and one that does not.
use qd_library.Prelude.{
  ℕ, zero, suc, ◌+◌, ◌≡◌, refl, Bool, true, leb, false, List, [], ◌∷◌, length, arith,
}
use qd_library.TypeTools.{Object, types, sumsizes}
use qd_library.Queue.Locked.{threw, is_returned, LockedQueue, enqueue, flush}
use qd_library.Queue.Locked.Order.{
  Operation, IsSmall, enqueue_all, flush-enqueue_all, enqueue_outcome, outcome_of,
}

abbrev zeros : ℕ → List ℕ
zeros zero = []
zeros (suc n) = 0 ∷ zeros n

abbrev add_seven : Operation
add_seven = record { val = zeros 128; op = 1 ∷ zeros 7; ps = (7 ∷ zeros 3) ∷ [] }

abbrev too_large : Operation
too_large = record { val = zeros 128; op = 1 ∷ zeros 7; ps = zeros 120 ∷ [] }

-- The operation adds its first byte.
abbrev invoke : Object → List ℕ → ℕ → ℕ
invoke f [] w = w
invoke f (b ∷ bs) w = b + w

add_seven-IsSmall : IsSmall add_seven
add_seven-IsSmall = record { entry = refl; address = refl; params = omega arith }

flush-enqueue_all_example :
    (flush invoke (enqueue_all true (record { queue = [] }) (add_seven ∷ add_seven ∷ [])).0 0
      ≡ (record { queue = [] }, 14))
    × ((enqueue_all true (record { queue = [] }) (add_seven ∷ add_seven ∷ [])).1 ≡ true)
flush-enqueue_all_example =
    flush-enqueue_all invoke true (add_seven ∷ add_seven ∷ []) 0
      (add_seven-IsSmall, (add_seven-IsSmall, tt))

abbrev one_entry : LockedQueue
one_entry = record { queue = zeros 128 ∷ [] }

-- With 8 bytes for the address the operation fits into the entry, but is over the limit.
enqueue_outcome_example :
    ((enqueue false one_entry (zeros 128) (1 ∷ zeros 7) (zeros 120 ∷ [])).1
      ≡ outcome_of 128 (sumsizes (types (too_large.op ∷ too_large.ps))))
    × (is_returned (enqueue true one_entry (zeros 128) (1 ∷ zeros 7) (zeros 120 ∷ [])).1
        ≡ leb (sumsizes (types (too_large.op ∷ too_large.ps))) 120)
    × ((asserts : Bool)
        → length (enqueue asserts one_entry (zeros 128) (1 ∷ zeros 7) (zeros 120 ∷ [])).0.queue ≡ 2)
enqueue_outcome_example = enqueue_outcome one_entry too_large refl

thrown : outcome_of 128 (sumsizes (types (too_large.op ∷ too_large.ps))) ≡ threw
thrown = refl
