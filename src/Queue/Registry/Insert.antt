-- ===== src/Queue/Registry/Insert.antt =====
-- queues/buffer_queue.hpp: what a copy of a map with one more entry holds.
use qd_library.Prelude.{
  none≢some, ℕ, ◌≡◌, ◌⊎◌, refl, sym, ap, ◌∙◌, true, false, Option, none, some, inl, inr, arith,
  ◌==◌, Bool-cases,
}
use qd_library.Queue.Registry.{MapPointer, Registry, insert}
use qd_library.Queue.Registry.Inv.{Sized}

module _ (size_of : ℕ → ℕ) where
  -- A copy of the current map with one more entry.
  pub insert-old :
      (place key value : ℕ) (seen now : MapPointer) (k : ℕ)
      → seen.content ≡ now.content
      → (key == k) ≡ false
      → (insert place key value seen).content k ≡ now.content k
  insert-old place key value seen now k same ne = rw ne (ap (λ f. f k) same)

  pub insert-new :
      (place key value : ℕ) (seen : MapPointer)
      → (insert place key value seen).content key ≡ some value
  insert-new place key value seen = ground arith

  pub insert_split :
      (place key value : ℕ) (seen now : MapPointer) (k : ℕ) (o : Option ℕ)
      → seen.content ≡ now.content
      → (insert place key value seen).content k ≡ o
      → ((key ≡ k) × (some value ≡ o)) ⊎ (now.content k ≡ o)
  insert_split place key value seen now k o same h = elim (Bool-cases (key == k)) [
    | inl e ↦ inl (ground (arith, e), sym (insert_at e) ∙ h)
    | inr e ↦ inr (sym (insert-old place key value seen now k same e) ∙ h)
  ]
    where
      insert_at : (key == k) ≡ true → (insert place key value seen).content k ≡ some value
      insert_at e = rw e refl

  pub sizes_keep :
      (r : Registry) (s : MapPointer) (op op' : ℕ)
      → s.content ≡ r.sizes.content
      → Sized size_of r op'
      → (insert r.allocated op (size_of op) s).content op' ≡ some (size_of op')
  sizes_keep r s op op' same h = elim (Bool-cases (op == op')) [
    | inl e ↦ let q : op ≡ op' = ground (arith, e) in rw e (ap (λ o. some (size_of o)) q)
    | inr e ↦ insert-old r.allocated op (size_of op) s r.sizes op' same e ∙ h
  ]

  pub functions_keep :
      (r : Registry) (f : MapPointer) (idx op k op' : ℕ)
      → f.content ≡ r.functions.content
      → r.functions.content idx ≡ none
      → r.functions.content k ≡ some op'
      → (insert r.allocated idx op f).content k ≡ some op'
  functions_keep r f idx op k op' same free h = elim (Bool-cases (idx == k)) [
    | inl e ↦
        let q : idx ≡ k = ground (arith, e) in
        absurd (none≢some (sym free ∙ ap r.functions.content q ∙ h))
    | inr e ↦ insert-old r.allocated idx op f r.functions k same e ∙ h
  ]
