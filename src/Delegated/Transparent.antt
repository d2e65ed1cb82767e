-- ===== src/Delegated/Transparent.antt =====
-- qdlock_base.hpp: a delegated section does what it would do if it were run at once.
use qd_library.Prelude.{
  ℕ, zero, suc, ◌+◌, ◌≤◌, ◌≡◌, refl, sym, ap, ◌∙◌, Option, some, List, [], ◌∷◌, ◌++◌, arith, length,
  length-append, take, drop, drop-drop, take-append, drop-append,
}
use mathlib.Core.List.{append_assoc, append-nil}
use qd_library.TypeTools.{
  Object, types, sumsizes, write_at, read_at, drop-write_at, write_at-write_at,
}
use qd_library.Delegated.{
  Callee, known, given, Kind, value_future, void_future, nofuture, forwardall, bind,
  delegated_function_future, delegated_void_function_future, delegated_function_nofuture, wrapper,
  execute, stored, call,
}

-- All bytes of the objects in a row.
abbrev pub bytes : List Object → List ℕ
bytes [] = []
bytes (p ∷ ps) = p ++ bytes ps

length-bytes : (ps : List Object) → length (bytes ps) ≡ sumsizes (types ps)
length-bytes [] = refl
length-bytes (p ∷ ps) = omega (arith, length-append p (bytes ps), length-bytes ps)

bytes-append : (ps qs : List Object) → bytes (ps ++ qs) ≡ bytes ps ++ bytes qs
bytes-append [] qs = refl
bytes-append (p ∷ ps) qs = rw (append_assoc, bytes-append ps qs)

write_at-nil : (buf : List ℕ) (o : ℕ) → write_at buf o [] ≡ buf
write_at-nil buf zero = refl
write_at-nil [] (suc o) = refl
write_at-nil (x ∷ buf) (suc o) = ap (◌∷◌ x) (write_at-nil buf o)

-- `forwardall` is one write of all bytes.
pub forwardall-eq-write_at :
    (ps : List Object) (buf : List ℕ) (o : ℕ) → forwardall buf o ps ≡ write_at buf o (bytes ps)
unfolding forwardall
forwardall-eq-write_at [] buf o = sym (write_at-nil buf o)
forwardall-eq-write_at (p ∷ ps) buf o =
    forwardall-eq-write_at ps (write_at buf o p) (o + length p)
    ∙ write_at-write_at buf o p (bytes ps)

pub drop-forwardall :
    (ps : List Object) (buf : List ℕ)
    → sumsizes (types ps) ≤ length buf
    → drop 0 (forwardall buf 0 ps) ≡ bytes ps ++ drop (length (bytes ps)) buf
drop-forwardall ps buf h =
    rw (forwardall-eq-write_at ps buf 0)
      (drop-write_at buf 0 (bytes ps) (omega (arith, length-bytes ps)))

-- Reading where an object stands, and where the next one then stands.
read-front :
    (buf : List ℕ) (ptr : ℕ) (p rest : List ℕ)
    → drop ptr buf ≡ p ++ rest
    → (read_at buf ptr (length p) ≡ p) × (drop (ptr + length p) buf ≡ rest)
read-front buf ptr p rest h = (
  ap (take (length p)) h ∙ take-append p rest,
  sym (drop-drop (length p) ptr buf) ∙ ap (drop (length p)) h ∙ drop-append p rest,
)

module _ {W R : Type 0} (invoke : Object → List Object → W → W × R) (set_value : Object → R → W → W)
    (set_void : Object → W → W) where
  future-reads :
      (f : Callee W R) (r : Object) (qs ps : List Object) (buf rest : List ℕ) (ptr : ℕ) (w : W)
      → drop ptr buf ≡ bytes qs ++ (r ++ rest)
      → delegated_function_future invoke set_value set_void (length r) f (types qs) buf ptr ps w
        ≡ execute invoke set_value set_void value_future f r (ps ++ qs) w
  unfolding delegated_function_future execute
  future-reads f r [] ps buf rest ptr w h = rw (append-nil, (read-front buf ptr r rest h).0)
  future-reads f r (q ∷ qs) ps buf rest ptr w h =
      let (q_here, next) =
        read-front buf ptr q (bytes qs ++ (r ++ rest)) (h ∙ append_assoc q _ _) in
      ap
        (λ x.
          delegated_function_future invoke set_value set_void (length r) f (types qs) buf
            (ptr + length q) (ps ++ x ∷ []) w)
        q_here
      ∙ future-reads f r qs (ps ++ q ∷ []) buf rest (ptr + length q) w next
      ∙ ap (λ l. execute invoke set_value set_void value_future f r l w)
          (append_assoc ps (q ∷ []) qs)

  void-reads :
      (f : List Object → W → W × R) (r : Object) (qs ps : List Object) (buf rest : List ℕ) (ptr : ℕ)
      (w : W)
      → drop ptr buf ≡ bytes qs ++ (r ++ rest)
      → delegated_void_function_future invoke set_value set_void
          (length r)
          (known f)
          (types qs)
          buf
          ptr
          ps
          w
        ≡ execute invoke set_value set_void void_future (known f) r (ps ++ qs) w
  unfolding delegated_void_function_future execute
  void-reads f r [] ps buf rest ptr w h = rw (append-nil, (read-front buf ptr r rest h).0)
  void-reads f r (q ∷ qs) ps buf rest ptr w h =
      let (q_here, next) =
        read-front buf ptr q (bytes qs ++ (r ++ rest)) (h ∙ append_assoc q _ _) in
      ap
        (λ x.
          delegated_void_function_future invoke set_value set_void (length r) (known f) (types qs)
            buf (ptr + length q) (ps ++ x ∷ []) w)
        q_here
      ∙ void-reads f r qs (ps ++ q ∷ []) buf rest (ptr + length q) w next
      ∙ ap (λ l. execute invoke set_value set_void void_future (known f) r l w)
          (append_assoc ps (q ∷ []) qs)

  -- Case B of `void`: the function object alone.
  void-reads_given :
      (r q : Object) (buf rest : List ℕ) (ptr : ℕ) (w : W)
      → drop ptr buf ≡ q ++ (r ++ rest)
      → delegated_void_function_future invoke set_value set_void
          (length r)
          given
          (types (q ∷ []))
          buf
          ptr
          []
          w
        ≡ execute invoke set_value set_void void_future given r (q ∷ []) w
  unfolding delegated_void_function_future execute
  void-reads_given r q buf rest ptr w h =
      let (q_here, next) = read-front buf ptr q (r ++ rest) h in
      ap
        (λ x.
          bind (call invoke set_value set_void given (x ∷ []) w)
            λ (w', v). some (set_void (read_at buf (ptr + length q) (length r)) w'))
        q_here
      ∙ ap {B = Option W} (λ x. some (set_void x (invoke q [] w).0))
          (read-front buf (ptr + length q) r rest next).0

  nofuture-reads :
      (f : Callee W R) (r : Object) (qs ps : List Object) (buf rest : List ℕ) (ptr : ℕ) (w : W)
      → drop ptr buf ≡ bytes qs ++ rest
      → delegated_function_nofuture invoke set_value set_void f (types qs) buf ptr ps w
        ≡ execute invoke set_value set_void nofuture f r (ps ++ qs) w
  unfolding delegated_function_nofuture execute
  nofuture-reads f r [] ps buf rest ptr w h = rw append-nil
  nofuture-reads f r (q ∷ qs) ps buf rest ptr w h =
      let (q_here, next) = read-front buf ptr q (bytes qs ++ rest) (h ∙ append_assoc q _ _) in
      ap
        (λ x.
          delegated_function_nofuture invoke set_value set_void f (types qs) buf (ptr + length q)
            (ps ++ x ∷ []) w)
        q_here
      ∙ nofuture-reads f r qs (ps ++ q ∷ []) buf rest (ptr + length q) w next
      ∙ ap (λ l. execute invoke set_value set_void nofuture f r l w) (append_assoc ps (q ∷ []) qs)

  -- The overloads of the void wrapper: a function object comes with no parameters.
  abbrev pub HasOverload : Kind → Callee W R → List Object → Type 0
  HasOverload void_future given ps = length ps ≤ 1
  HasOverload _ f ps = Unit {0}

  layout :
      (kind : Kind) (r : Object) (ps : List Object) (buf : List ℕ)
      → sumsizes (types (stored kind r ps)) ≤ length buf
      → drop 0 (forwardall buf 0 (stored kind r ps))
        ≡ bytes (stored kind r ps) ++ drop (length (bytes (stored kind r ps))) buf
  layout kind r ps buf h = drop-forwardall (stored kind r ps) buf h

  -- The bytes of the objects, then those of the promise, then the rest.
  promise_last :
      (ps : List Object) (r rest xs : List ℕ)
      → xs ≡ bytes (ps ++ r ∷ []) ++ rest
      → xs ≡ bytes ps ++ (r ++ rest)
  promise_last ps r rest xs h =
      h
      ∙ ap (λ l. l ++ rest) (bytes-append ps (r ∷ []) ∙ ap (λ l. bytes ps ++ l) (append-nil r))
      ∙ append_assoc (bytes ps) r rest

  -- Delegation is transparent. If the objects and the promise fit into the buffer, the wrapper that
  -- `enqueue` picks, run on the buffer that `forwardall` has filled, does exactly what `execute`
  -- does with the same function, parameters and promise: the same effect, and the promise gets the
  -- same value. For a `void` result with a promise the function must be known to the template, or
  -- be a function object with no parameters.
  pub wrapper-eq-execute :
      (kind : Kind) (f : Callee W R) (r : Object) (ps : List Object) (buf : List ℕ) (w : W)
      → sumsizes (types (stored kind r ps)) ≤ length buf
      → HasOverload kind f ps
      → wrapper invoke set_value set_void kind f r ps (forwardall buf 0 (stored kind r ps)) w
        ≡ execute invoke set_value set_void kind f r ps w
  unfolding wrapper execute
  wrapper-eq-execute value_future f r ps buf w h v =
      future-reads f r ps [] _ _ 0 w (promise_last ps r _ _ (layout value_future r ps buf h))
  wrapper-eq-execute void_future (known f) r ps buf w h v =
      void-reads f r ps [] _ _ 0 w (promise_last ps r _ _ (layout void_future r ps buf h))
  wrapper-eq-execute void_future given r [] buf w h v = refl
  wrapper-eq-execute void_future given r (q ∷ []) buf w h v = void-reads_given r q _ _ 0 w (
      promise_last (q ∷ []) r _ _ (layout void_future r (q ∷ []) buf h)
      ∙ ap (λ l. l ++ (r ++ drop (length (bytes (q ∷ r ∷ []))) buf)) (append-nil q))
  wrapper-eq-execute void_future given r (q ∷ p ∷ ps) buf w h v = absurd (omega arith)
  wrapper-eq-execute nofuture f r ps buf w h v =
      nofuture-reads f r ps [] _ _ 0 w (layout nofuture r ps buf h)
