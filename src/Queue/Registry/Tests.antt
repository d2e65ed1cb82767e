-- ===== src/Queue/Registry/Tests.antt =====
-- queues/buffer_queue.hpp: two threads register two functions at the same time.
use qd_library.Prelude.{none, arith, ℕ, ◌+◌, ◌≡◌, refl, some, List, [], ◌∷◌}
use qd_library.Interleave.{step, run}
use qd_library.Queue.Registry.{Call, call_enqueue, call_flush, reuse, go, spurious, next}
use qd_library.Queue.Registry.Found.{NeverDeletes, registered, registered_found}

abbrev size_of : ℕ → ℕ
size_of op = op + 4

-- Both threads load the pointers of the empty maps; thread 0 replaces `sizes` first, so the exchange
-- of thread 1 fails once there, and once more for no reason in `functions`.
abbrev two_functions : List (ℕ × Call)
two_functions =
    (0, call_enqueue 70)
    ∷ (1, call_enqueue 80)
    ∷ (0, go)
    ∷ (1, go)
    ∷ (0, go)
    ∷ (1, go)
    ∷ (0, go)
    ∷ (1, go)
    ∷ (0, go)
    ∷ (1, go)
    ∷ (0, go)
    ∷ (1, go)
    ∷ (0, go)
    ∷ (1, go)
    ∷ (1, go)
    ∷ (1, spurious)
    ∷ (1, go)
    ∷ (1, go)
    ∷ (0, go)
    ∷ (0, go)
    ∷ (0, go)
    ∷ (0, go)
    ∷ []

second_numbered : (registered size_of two_functions).rev_functions.content 80 ≡ some 2
unfolding run step next
second_numbered = refl

first_numbered : (registered size_of two_functions).rev_functions.content 70 ≡ some 1
unfolding run step next
first_numbered = refl

two_functions-NeverDeletes : NeverDeletes two_functions
two_functions-NeverDeletes = (
  refl,
  (
    refl,
    (
      refl,
      (
        refl,
        (
          refl,
          (
            refl,
            (
              refl,
              (
                refl,
                (
                  refl,
                  (
                    refl,
                    (
                      refl,
                      (
                        refl,
                        (
                          refl,
                          (
                            refl,
                            (refl, (refl, (refl, (refl, (refl, (refl, (refl, (refl, tt)))))))),
                          ),
                        ),
                      ),
                    ),
                  ),
                ),
              ),
            ),
          ),
        ),
      ),
    ),
  ),
)

registered_found_example :
    ((registered size_of two_functions).functions.content 2 ≡ some 80)
    × ((registered size_of two_functions).sizes.content 80 ≡ some (size_of 80))
    × ((op' : ℕ) → (registered size_of two_functions).rev_functions.content op' ≡ some 2 → op' ≡ 80)
registered_found_example =
    registered_found size_of two_functions 80 2 two_functions-NeverDeletes (omega arith)
      second_numbered

-- Thread 0 loads the pointer of the empty `sizes`; thread 1 registers 80; the old maps are deleted;
-- and the map of thread 2 comes to stand where that of thread 0 did, whose exchange then succeeds.
abbrev deleting : List (ℕ × Call)
deleting =
    (0, call_enqueue 70)
    ∷ (0, go)
    ∷ (0, go)
    ∷ (0, go)
    ∷ (0, go)
    ∷ (0, go)
    ∷ (1, call_enqueue 80)
    ∷ (1, go)
    ∷ (1, go)
    ∷ (1, go)
    ∷ (1, go)
    ∷ (1, go)
    ∷ (1, go)
    ∷ (1, go)
    ∷ (1, go)
    ∷ (1, go)
    ∷ (3, call_flush)
    ∷ (2, call_enqueue 90)
    ∷ (2, go)
    ∷ (2, go)
    ∷ (2, go)
    ∷ (2, go)
    ∷ (2, go)
    ∷ (2, reuse 0)
    ∷ (0, go)
    ∷ []

still_numbered : (registered size_of deleting).rev_functions.content 80 ≡ some 2
unfolding run step next
still_numbered = refl

size_lost : (registered size_of deleting).sizes.content 80 ≡ none
unfolding run step next
size_lost = refl
