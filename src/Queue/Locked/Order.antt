-- ===== src/Queue/Locked/Order.antt =====
-- queues/simple_locked_queue.hpp: what is enqueued is run, in order and with its parameters.
use qd_library.Prelude.{
  ℕ, ◌+◌, ◌≤◌, ◌≡◌, refl, sym, ap, ◌∙◌, Bool, true, false, List, [], ◌∷◌, ◌++◌, length,
  length-append, take, drop, take-append, drop-append, ltb, leb, if◌then◌else◌, inl, inr,
  Bool-cases, arith,
}
use mathlib.Core.Path.{ap₂}
use mathlib.Core.List.{append_assoc}
use qd_library.TypeTools.{Object, types, sumsizes, write_at, length-write_at}
use qd_library.Delegated.{forwardall}
use qd_library.Delegated.Transparent.{bytes, drop-forwardall}
use qd_library.Queue.Locked.{
  Outcome, returned, threw, overran, is_returned, LockedQueue, forward, enqueue, run_entry,
  flush_one, flush_all, flush,
}

-- One call of `enqueue`, with what `val` holds.
pub record Operation : Type 0 where
  pub val : List ℕ
  pub op : Object
  pub ps : List Object

-- The size that the checks of `forwardall` allow.
pub record IsSmall (x : Operation) : Type 0 where
  pub entry : length x.val ≡ 128
  pub address : length x.op ≡ 8
  pub params : 8 + sumsizes (types x.ps) ≤ 120

abbrev pub AllSmall : List Operation → Type 0
AllSmall [] = Unit {0}
AllSmall (x ∷ xs) = IsSmall x × AllSmall xs

-- Calls of `enqueue`, up to the first that does not return; and whether all have returned.
pub enqueue_all : Bool → LockedQueue → List Operation → LockedQueue × Bool
enqueue_all asserts q [] = (q, true)
enqueue_all asserts q (x ∷ xs) =
    let (q', outcome) = enqueue asserts q x.val x.op x.ps in
    let rest = enqueue_all asserts q' xs in if is_returned outcome then rest else (q', false)

-- Within the limit the call returns, and the bytes are those of the other queues' `forwardall`.
forward-forwardall :
    (asserts : Bool) (ps : List Object) (buf : List ℕ) (offset : ℕ)
    → 120 ≤ length buf
    → offset + sumsizes (types ps) ≤ 120
    → forward asserts buf offset ps ≡ (forwardall buf offset ps, returned)
unfolding forward forwardall
forward-forwardall asserts [] buf offset n h = ground arith
forward-forwardall asserts (p ∷ ps) buf offset n h =
    let long = length-write_at buf offset p in
    let rest =
      forward-forwardall asserts ps (write_at buf offset p) (offset + length p)
        (omega (arith, long, n)) (omega arith) in
    let low : ltb 120 offset ≡ false = ground arith in
    let fits : leb (offset + length p) (length buf) ≡ true = ground arith in
    elim (Bool-cases asserts) [ inl a ↦ rw (a, low, fits) rest | inr a ↦ rw (a, fits) rest ]

-- Without `assert`: what a size leads to in an entry of the given length.
abbrev pub outcome_of : ℕ → ℕ → Outcome
outcome_of entry size =
    if leb size entry then (if leb size 120 then returned else threw) else overran

forward_outcome :
    (ps : List Object) (buf : List ℕ) (offset : ℕ)
    → offset ≤ length buf
    → (forward false buf offset ps).1 ≡ outcome_of (length buf) (offset + sumsizes (types ps))
unfolding forward
forward_outcome [] buf offset h = ground arith
forward_outcome (p ∷ ps) buf offset h =
    let long = length-write_at buf offset p in
    elim (Bool-cases (leb (offset + length p) (length buf))) [
      | inl fits ↦
          let rest =
            forward_outcome ps (write_at buf offset p) (offset + length p)
              (ground (arith, long, fits)) in
          let sum : offset + length p + sumsizes (types ps) ≡ offset + sumsizes (types (p ∷ ps)) =
            omega arith in
          rw fits (rest ∙ ap₂ outcome_of long sum)
      | inr over ↦ rw over (ground (arith, over))
    ]

forward_asserted :
    (ps : List Object) (buf : List ℕ) (offset : ℕ)
    → 120 ≤ length buf
    → is_returned (forward true buf offset ps).1 ≡ leb (offset + sumsizes (types ps)) 120
unfolding forward
forward_asserted [] buf offset h = ground arith
forward_asserted (p ∷ ps) buf offset h =
    let long = length-write_at buf offset p in
    elim (Bool-cases (ltb 120 offset)) [
      | inl high ↦ rw high (ground (arith, high))
      | inr low ↦ elim (Bool-cases (leb (offset + length p) (length buf))) [
        | inl fits ↦
            let rest =
              forward_asserted ps (write_at buf offset p) (offset + length p)
                (omega (arith, long, h)) in
            let sum : offset + length p + sumsizes (types ps) ≡ offset + sumsizes (types (p ∷ ps)) =
              omega arith in
            rw (low, fits) (rest ∙ ap (λ n. leb n 120) sum)
        | inr over ↦ rw (low, over) (ground (arith, over, h))
      ]
    ]

-- The function's address, the bytes of the parameters, and what `val` holds behind them.
abbrev pub left_over : Operation → List ℕ
left_over x = drop (length (bytes (x.op ∷ x.ps))) x.val

entry-layout :
    (x : Operation)
    → IsSmall x
    → forwardall x.val 0 (x.op ∷ x.ps) ≡ x.op ++ (bytes x.ps ++ left_over x)
entry-layout x h =
    drop-forwardall (x.op ∷ x.ps) x.val (omega (arith, h.entry, h.address, h.params))
    ∙ append_assoc x.op (bytes x.ps) (left_over x)

take_front :
    (n : ℕ) (p rest : List ℕ)
    → length p ≡ n
    → (take n (p ++ rest) ≡ p) × (drop n (p ++ rest) ≡ rest)
take_front n p rest e = rw (sym e) (take-append p rest, drop-append p rest)

module _ {W : Type 0} (invoke : Object → List ℕ → W → W) where
  -- The operations, called one after the other.
  abbrev pub in_turn : List Operation → W → W
  in_turn [] w = w
  in_turn (x ∷ xs) w = in_turn xs (invoke x.op (bytes x.ps ++ left_over x) w)

  run-forwardall :
      (x : Operation) (w : W)
      → IsSmall x
      → run_entry invoke (forwardall x.val 0 (x.op ∷ x.ps)) w
        ≡ invoke x.op (bytes x.ps ++ left_over x) w
  run-forwardall x w h =
      let (f, ps) = take_front 8 x.op (bytes x.ps ++ left_over x) h.address in
      rw (entry-layout x h, f, ps) refl

  flush_all-append :
      (xs ys : List (List ℕ)) (w : W)
      → flush_all invoke (xs ++ ys) w ≡ flush_all invoke ys (flush_all invoke xs w)
  unfolding flush_all
  flush_all-append [] ys w = refl
  flush_all-append (x ∷ xs) ys w = flush_all-append xs ys (run_entry invoke x w)

  enqueue-forwardall :
      (asserts : Bool) (q : LockedQueue) (x : Operation)
      → IsSmall x
      → enqueue asserts q x.val x.op x.ps
        ≡ (record { queue = q.queue ++ forwardall x.val 0 (x.op ∷ x.ps) ∷ [] }, returned)
  unfolding enqueue
  enqueue-forwardall asserts q x h =
      rw
        (forward-forwardall asserts (x.op ∷ x.ps) x.val 0 (omega (arith, h.entry))
          (omega (arith, h.address, h.params)))
        refl

  flush-enqueue_all_from :
      (asserts : Bool) (xs : List Operation) (q : LockedQueue) (w : W)
      → AllSmall xs
      → (flush invoke (enqueue_all asserts q xs).0 w
          ≡ (record { queue = [] }, in_turn xs (flush_all invoke q.queue w)))
        × ((enqueue_all asserts q xs).1 ≡ true)
  unfolding flush flush_all enqueue_all
  flush-enqueue_all_from asserts [] q w h = (refl, refl)
  flush-enqueue_all_from asserts (x ∷ xs) q w h =
      let next : LockedQueue = record {
        queue = q.queue ++ forwardall x.val 0 (x.op ∷ x.ps) ∷ [];
      } in
      let (rest, done) = flush-enqueue_all_from asserts xs next w h.1 in
      let here : flush_all invoke next.queue w
          ≡ invoke x.op (bytes x.ps ++ left_over x) (flush_all invoke q.queue w) =
        flush_all-append q.queue (forwardall x.val 0 (x.op ∷ x.ps) ∷ []) w
        ∙ run-forwardall x (flush_all invoke q.queue w) h.0 in
      rw (enqueue-forwardall asserts q x h.0)
        (rest ∙ ap (λ v. (record { queue = [] }, in_turn xs v)) here, done)

  -- With or without `assert`: if each operation and its parameters fit into the limit of an entry, a
  -- sequence of calls of `enqueue` on an empty queue succeeds, and `flush` then calls all operations, in order, each
  -- with the bytes of its parameters in front of whatever the entry held, and leaves the queue
  -- empty.
  pub flush-enqueue_all :
      (asserts : Bool) (xs : List Operation) (w : W)
      → AllSmall xs
      → (flush invoke (enqueue_all asserts (record { queue = [] }) xs).0 w
          ≡ (record { queue = [] }, in_turn xs w))
        × ((enqueue_all asserts (record { queue = [] }) xs).1 ≡ true)
  unfolding flush_all
  flush-enqueue_all asserts xs w h = flush-enqueue_all_from asserts xs (record { queue = [] }) w h

  -- On any queue, `flush_one` and then `flush` end as `flush` alone does: with the same calls made
  -- and with an empty queue.
  flush-flush_one :
      (q : LockedQueue) (w : W)
      → flush invoke (flush_one invoke q w).0 (flush_one invoke q w).1 ≡ flush invoke q w
  unfolding flush flush_all flush_one
  flush-flush_one q w = on q.queue
    where
      on :
          (xs : List (List ℕ))
          → flush invoke
              (flush_one invoke (record { queue = xs }) w).0
              (flush_one invoke (record { queue = xs }) w).1
            ≡ flush invoke (record { queue = xs }) w
      on [] = refl
      on (entry ∷ rest) = refl

-- Whatever the size of the operation: `enqueue` leaves one more entry in the queue, if the program
-- goes on at all. Without `assert` it returns up to 120 bytes, throws up to the 128 of the entry, and
-- writes past the entry beyond that; with `assert` it returns exactly up to 120 bytes.
pub enqueue_outcome :
    (q : LockedQueue) (x : Operation)
    → length x.val ≡ 128
    → ((enqueue false q x.val x.op x.ps).1 ≡ outcome_of 128 (sumsizes (types (x.op ∷ x.ps))))
      × (is_returned (enqueue true q x.val x.op x.ps).1 ≡ leb (sumsizes (types (x.op ∷ x.ps))) 120)
      × ((asserts : Bool) → length (enqueue asserts q x.val x.op x.ps).0.queue ≡ length q.queue + 1)
unfolding enqueue
enqueue_outcome q x h =
    let size = sumsizes (types (x.op ∷ x.ps)) in
    let total : 0 + size ≡ size = omega arith in
    (
      forward_outcome (x.op ∷ x.ps) x.val 0 (omega arith) ∙ ap₂ outcome_of h total,
      forward_asserted (x.op ∷ x.ps) x.val 0 (omega (arith, h)) ∙ ap (λ n. leb n 120) total,
      λ asserts. length-append q.queue (_ ∷ []),
    )
