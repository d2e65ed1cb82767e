-- ===== src/Delegated.antt =====
-- qdlock_base.hpp: how a critical section is run by the thread that has the lock, either directly
-- (`execute`) or out of a queue entry (`enqueue` and the `delegated_*` wrapper functions).
pub mod Transparent
pub mod Interface
pub mod Tests
use qd_library.Prelude.{ℕ, zero, suc, ◌+◌, ◌≡◌, Option, none, some, List, [], ◌∷◌, ◌++◌, length}
use qd_library.TypeTools.{Object, types, write_at, read_at}

-- The function that is delegated. Case A: it is named in the template arguments (a member function
-- takes its object as the first parameter). Case B: it is the first of the delegated objects.
pub data Callee (W R : Type 0) : Type 0 where
  known : (List Object → W → W × R) → Callee W R
  given : Callee W R

-- Which promise comes with the operation: for a value, for `void`, or none.
pub data Kind : Type 0 where
  value_future void_future nofuture : Kind

-- `forwardall` of the queues: moves the objects into the buffer, one behind the other.
unfoldable pub forwardall : List ℕ → ℕ → List Object → List ℕ
forwardall buf offset [] = buf
forwardall buf offset (p ∷ ps) = forwardall (write_at buf offset p) (offset + length p) ps

abbrev pub bind {ℓ κ} : {A : Type ℓ} {B : Type κ} → Option A → (A → Option B) → Option B
bind none f = none
bind (some a) f = f a

-- `W` is all that the sections work on, with the promises; `invoke` calls a function object,
-- `set_value` and `set_void` fulfil a `std::promise`.
module _ {W R : Type 0} (invoke : Object → List Object → W → W × R) (set_value : Object → R → W → W)
    (set_void : Object → W → W) where
  -- `f(ps...)`, `(o.*f)(ps...)`; without a function object there is no case B.
  unfoldable pub call : Callee W R → List Object → W → Option (W × R)
  call (known f) ps w = some (f ps w)
  call given [] w = none
  call given (f ∷ ps) w = some (invoke f ps w)

  -- The wrappers take the list of types apart, and read one object of the buffer for each. `none`
  -- says that no overload of the template fits.
  pub delegated_function_future : ℕ → Callee W R → List ℕ → List ℕ → ℕ → List Object → W → Option W
  unfolding call
  delegated_function_future size f [] buf ptr ps w =
      bind (call f ps w) λ (w', r). some (set_value (read_at buf ptr size) r w')
  delegated_function_future size f (t ∷ tail) buf ptr ps w =
      delegated_function_future size f tail buf (ptr + t) (ps ++ read_at buf ptr t ∷ []) w

  -- In case B the unrolling overload asks for `types<>` as the tail.
  pub delegated_void_function_future :
      ℕ → Callee W R → List ℕ → List ℕ → ℕ → List Object → W → Option W
  unfolding call
  delegated_void_function_future size f [] buf ptr ps w =
      bind (call f ps w) λ (w', r). some (set_void (read_at buf ptr size) w')
  delegated_void_function_future size (known f) (t ∷ tail) buf ptr ps w =
      delegated_void_function_future size (known f) tail buf (ptr + t)
        (ps ++ read_at buf ptr t ∷ []) w
  delegated_void_function_future size given (t ∷ []) buf ptr ps w =
      delegated_void_function_future size given [] buf (ptr + t) (ps ++ read_at buf ptr t ∷ []) w
  delegated_void_function_future size given (t ∷ u ∷ tail) buf ptr ps w = none

  pub delegated_function_nofuture : Callee W R → List ℕ → List ℕ → ℕ → List Object → W → Option W
  unfolding call
  delegated_function_nofuture f [] buf ptr ps w = bind (call f ps w) λ (w', r). some w'
  delegated_function_nofuture f (t ∷ tail) buf ptr ps w =
      delegated_function_nofuture f tail buf (ptr + t) (ps ++ read_at buf ptr t ∷ []) w

  -- What `enqueue` hands to the queue: the wrapper, and the objects to store, the promise last.
  pub wrapper : Kind → Callee W R → Object → List Object → List ℕ → W → Option W
  unfolding delegated_function_future delegated_void_function_future delegated_function_nofuture
  wrapper value_future f r ps buf w = delegated_function_future (length r) f (types ps) buf 0 [] w
  wrapper void_future f r ps buf w =
      delegated_void_function_future (length r) f (types ps) buf 0 [] w
  wrapper nofuture f r ps buf w = delegated_function_nofuture f (types ps) buf 0 [] w

  -- `execute`: the operation is run at once, by the caller.
  unfoldable pub execute : Kind → Callee W R → Object → List Object → W → Option W
  unfolding call
  execute value_future f r ps w = bind (call f ps w) λ (w', v). some (set_value r v w')
  execute void_future f r ps w = bind (call f ps w) λ (w', v). some (set_void r w')
  execute nofuture f r ps w = bind (call f ps w) λ (w', v). some w'

abbrev pub stored : Kind → Object → List Object → List Object
stored nofuture r ps = ps
stored _ r ps = ps ++ r ∷ []
