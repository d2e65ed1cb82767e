-- ===== src/Queue/Entry/Steps.antt =====
-- queues/entry_queue.hpp: what one step does to the slots, to what the helper knows, and to the
-- other threads.
use qd_library.Prelude.{
  ℕ, ◌+◌, ◌^◌, ◌≤◌, ◌<◌, ◌≡◌, refl, sym, ◌∙◌, inl, inr, true, false, arith, ◌==◌, Bool-cases,
}
use mathlib.Core.Path.{subst}
use qd_library.Queue.Entry.{
  EntryQueue, Call, call_enqueue, call_open, call_flush, Pc, outside, e_load, e_add, e_fill,
  e_publish, o_store, opened, f_load, f_exchange, f_close, f_full, f_spin, f_call, f_clear, below,
  next,
}
use qd_library.Queue.Entry.Slots.{
  Session, idle, call, clear, AtWork, Act, keeps, accepts, fills, publishes, restarts, calls,
  clears,
}
use qd_library.Queue.Entry.Helper.{
  role, is_helper, Named, Helps, Grown, role-f_next, Named-f_next, next-Helps, Todo-same,
  Todo-within, unchanged, counts,
}

module _ (entries : ℕ) {Op : Type 0} (address : Op → ℕ) where
  abbrev turn : ℕ → Call Op → EntryQueue → Pc → EntryQueue × Pc
  turn = next entries address

  -- The helper's own steps.
  pub own-Helps :
      (c : Call Op) (q : EntryQueue) (p : Pc)
      → q.counter < 2 ^ 63
      → q.session.called ≤ q.session.reserved
      → Helps entries q p
      → Helps entries (turn 0 c q p).0 (turn 0 c q p).1
  unfolding next
  own-Helps (call_enqueue op par) q outside b w h = h
  own-Helps call_open q outside b w h = ground arith
  own-Helps call_flush q outside b w h = h
  own-Helps c q (e_load fun par) b w h = elim (Bool-cases q.closed) [
    | inl e ↦ rw e h
    | inr e ↦ rw e h
  ]
  own-Helps c q (e_add fun par) b w h = elim (Bool-cases (below entries q.counter)) [
    | inl e ↦ absurd (ground (arith, e, h, b))
    | inr e ↦ rw e (ground (arith, h, b))
  ]
  own-Helps c q (e_fill k fun par) b w h = h
  own-Helps c q (e_publish k fun par) b w h = h
  own-Helps c q o_store b w h = h
  own-Helps call_flush q opened b w h = h
  own-Helps c q opened b w h = h
  own-Helps c q (f_load done) b w h = elim (Bool-cases (q.counter == done)) [
    | inl e ↦ rw e h
    | inr e ↦ elim (Bool-cases (below entries q.counter)) [
      | inl f ↦
          let reserved : q.counter ≡ q.session.reserved =
            counts entries q (f_load done) h (ground (arith, f, b)) in
          rw (e, f)
            (next-Helps entries q done q.counter true h.0 (omega (arith, reserved, w, h.0.0))
              (omega (arith, reserved), h.1))
      | inr f ↦ rw (e, f) (h.0, ground (arith, f, b), ground (arith, f, b, h.1))
    ]
  ]
  own-Helps c q (f_exchange done) b w h = (h.0, omega arith, b, ground (arith, h.1))
  own-Helps c q (f_close done todo) b w h =
      let q' : EntryQueue = record q { closed = true } in
      elim (Bool-cases (below entries todo)) [
        | inl e ↦
            let all : todo ≡ q.session.reserved = ground (arith, e, h.2, h.3) in
            rw e (
              next-Helps entries q' done todo false h.0 (omega (arith, all, w, h.0.0))
                (all, h.1, ground (arith, e, h.2)))
        | inr e ↦ rw e (h.0, h.1, ground (arith, e, h.3))
      ]
  own-Helps c q (f_full done) b w h =
      next-Helps entries (record q { closed = true }) done entries false h.0
        (omega (arith, h.2, w, h.0.0)) (sym h.2, h.1, omega arith)
  own-Helps c q (f_spin index todo more) b w h = elim (Bool-cases (q.session.fun index == 0)) [
    | inl e ↦ rw e h
    | inr e ↦ rw e (h.0, h.1, refl, ground (arith, e), h.2)
  ]
  own-Helps c q (f_call index fun todo more) b w h = (
    (ground (arith, h.0), h.0.1),
    h.1,
    Todo-same entries q (record q { session = call index fun q.session }) todo more refl refl h.4,
  )
  own-Helps c q (f_clear index todo more) b w h =
      let q' : EntryQueue = record q { session = clear index q.session } in
      next-Helps entries q' (index + 1) todo more (h.0.0, ground (arith, h.0)) (omega (arith, h.1))
        (Todo-same entries q q' todo more refl refl h.2)

  mine : (i : ℕ) → ((i == 0) ≡ false → true ≡ false) → (i == 0) ≡ true
  mine i o = elim (Bool-cases (i == 0)) [ inl e ↦ e | inr e ↦ absurd (cc (o e)) ]

  becomes_idle :
      (i : ℕ) (s s' : Session) (p : Pc)
      → Act i s idle s' idle
      → role p ≡ idle
      → Act i s idle s' (role p)
  becomes_idle i s s' p a e = subst (Act i s idle s') (sym e) a

  -- What a step is to the slots.
  pub acts :
      (i : ℕ) (c : Call Op) (q : EntryQueue) (p : Pc)
      → q.counter < 2 ^ 63
      → (q.counter < entries → q.counter ≡ q.session.reserved)
      → Named p
      → ((i == 0) ≡ true → Helps entries q p)
      → ((i == 0) ≡ false → is_helper p ≡ false)
      → Act i q.session (role p) (turn i c q p).0.session (role (turn i c q p).1)
  unfolding next
  acts i (call_enqueue op par) q outside b r n h o = keeps idle
  acts i call_open q outside b r n h o = elim (Bool-cases (i == 0)) [
    | inl e ↦ let k = h e in rw e (restarts k.0 (k.1 ∙ sym k.0))
    | inr e ↦ rw e (keeps idle)
  ]
  acts i call_flush q outside b r n h o = keeps idle
  acts i c q (e_load fun par) b r n h o = elim (Bool-cases q.closed) [
    | inl e ↦ rw e (keeps idle)
    | inr e ↦ rw e (keeps idle)
  ]
  acts i c q (e_add fun par) b r n h o = elim (Bool-cases (below entries q.counter)) [
    | inl e ↦ rw e (accepts q.counter fun par (sym (r (ground (arith, e, b)))) n)
    | inr e ↦ rw e (keeps idle)
  ]
  acts i c q (e_fill k fun par) b r n h o = fills k fun par
  acts i c q (e_publish k fun par) b r n h o = publishes k fun par
  acts i c q o_store b r n h o = keeps idle
  acts i call_flush q opened b r n h o = keeps idle
  acts i c q opened b r n h o = keeps idle
  acts i c q (f_load done) b r n h o =
      becomes_idle i q.session q.session _ (keeps idle) (elim (Bool-cases (q.counter == done)) [
        | inl e ↦ rw e refl
        | inr e ↦ elim (Bool-cases (below entries q.counter)) [
          | inl f ↦ rw (e, f) (role-f_next done q.counter true)
          | inr f ↦ rw (e, f) refl
        ]
      ])
  acts i c q (f_exchange done) b r n h o = keeps idle
  acts i c q (f_close done todo) b r n h o =
      becomes_idle i q.session q.session _ (keeps idle) (elim (Bool-cases (below entries todo)) [
        | inl e ↦ rw e (role-f_next done todo false)
        | inr e ↦ rw e refl
      ])
  acts i c q (f_full done) b r n h o =
      becomes_idle i q.session q.session _ (keeps idle) (role-f_next done entries false)
  acts i c q (f_spin index todo more) b r n h o = elim (Bool-cases (q.session.fun index == 0)) [
    | inl e ↦ rw e (keeps idle)
    | inr e ↦ rw e (keeps idle)
  ]
  acts i c q (f_call index fun todo more) b r n h o =
      let k = h (mine i o) in
      subst (λ f. Act i q.session idle (call index f q.session) idle) (sym k.2)
        (calls index k.0.0 k.0.1 (Todo-within entries q index todo more k.1 k.4)
          (ground (arith, k.2, k.3)))
  acts i c q (f_clear index todo more) b r n h o =
      let k = h (mine i o) in
      becomes_idle i q.session (clear index q.session) _ (clears index k.0.1 (omega (arith, k.0.0)))
        (role-f_next (index + 1) todo more)

  -- What a thread that is not the helper does to the queue.
  pub grown :
      (i : ℕ) (c : Call Op) (q : EntryQueue) (p : Pc)
      → (i == 0) ≡ false
      → is_helper p ≡ false
      → q.counter < 2 ^ 63
      → AtWork q.session i (role p)
      → Grown entries q (turn i c q p).0
  unfolding next
  grown i (call_enqueue op par) q outside d n b a = unchanged entries q
  grown i call_open q outside d n b a = rw d (unchanged entries q)
  grown i call_flush q outside d n b a = unchanged entries q
  grown i c q (e_load fun par) d n b a = unchanged entries q
  grown i c q (e_add fun par) d n b a = elim (Bool-cases (below entries q.counter)) [
    | inl e ↦ rw e (record {
      called = refl;
      cleared = refl;
      fun = λ k h. refl;
      counted = inr (inl (ground (arith, e, b), ground (arith, b), refl));
    })
    | inr e ↦ rw e (record {
      called = refl;
      cleared = refl;
      fun = λ k h. refl;
      counted = inr (inr (ground (arith, e, b), ground (arith, b), refl));
    })
  ]
  grown i c q (e_fill k fun par) d n b a = record {
    called = refl;
    cleared = refl;
    fun = λ l h. refl;
    counted = inl (refl, refl);
  }
  grown i c q (e_publish k fun par) d n b a = record {
    called = refl;
    cleared = refl;
    fun = λ l h. ground (arith, a, h);
    counted = inl (refl, refl);
  }
  grown i c q p d n b a = absurd (cc)

  pub stays_out :
      (i : ℕ) (c : Call Op) (q : EntryQueue) (p : Pc)
      → (i == 0) ≡ false
      → is_helper p ≡ false
      → is_helper (turn i c q p).1 ≡ false
  unfolding next
  stays_out i (call_enqueue op par) q outside d n = refl
  stays_out i call_open q outside d n = rw d refl
  stays_out i call_flush q outside d n = refl
  stays_out i c q (e_load fun par) d n = ground arith
  stays_out i c q (e_add fun par) d n = ground arith
  stays_out i c q (e_fill k fun par) d n = refl
  stays_out i c q (e_publish k fun par) d n = refl
  stays_out i c q p d n = absurd (cc)

  -- A function that is enqueued is not null.
  pub step-Named :
      ((op : Op) → 0 < address op)
      → (i : ℕ) (c : Call Op) (q : EntryQueue) (p : Pc) → Named p
      → Named (turn i c q p).1
  unfolding next
  step-Named pos i (call_enqueue op par) q outside h = pos op
  step-Named pos i call_open q outside h = elim (Bool-cases (i == 0)) [
    | inl e ↦ rw e tt
    | inr e ↦ rw e tt
  ]
  step-Named pos i call_flush q outside h = tt
  step-Named pos i c q (e_load fun par) h = elim (Bool-cases q.closed) [
    | inl e ↦ rw e tt
    | inr e ↦ rw e h
  ]
  step-Named pos i c q (e_add fun par) h = elim (Bool-cases (below entries q.counter)) [
    | inl e ↦ rw e tt
    | inr e ↦ rw e tt
  ]
  step-Named pos i c q (e_fill k fun par) h = tt
  step-Named pos i c q (e_publish k fun par) h = tt
  step-Named pos i c q o_store h = tt
  step-Named pos i call_flush q opened h = tt
  step-Named pos i c q opened h = tt
  step-Named pos i c q (f_load done) h = elim (Bool-cases (q.counter == done)) [
    | inl e ↦ rw e tt
    | inr e ↦ elim (Bool-cases (below entries q.counter)) [
      | inl f ↦ rw (e, f) (Named-f_next done q.counter true)
      | inr f ↦ rw (e, f) tt
    ]
  ]
  step-Named pos i c q (f_exchange done) h = tt
  step-Named pos i c q (f_close done todo) h = elim (Bool-cases (below entries todo)) [
    | inl e ↦ rw e (Named-f_next done todo false)
    | inr e ↦ rw e tt
  ]
  step-Named pos i c q (f_full done) h = Named-f_next done entries false
  step-Named pos i c q (f_spin index todo more) h = elim (Bool-cases (q.session.fun index == 0)) [
    | inl e ↦ rw e tt
    | inr e ↦ rw e tt
  ]
  step-Named pos i c q (f_call index fun todo more) h = tt
  step-Named pos i c q (f_clear index todo more) h = Named-f_next (index + 1) todo more

  -- `counter` grows by the additions only.
  pub step_bound :
      (i : ℕ) (c : Call Op) (q : EntryQueue) (p : Pc)
      → q.counter ≤ entries + q.additions
      → ((turn i c q p).0.counter ≤ entries + (turn i c q p).0.additions)
        × (q.additions ≤ (turn i c q p).0.additions)
  unfolding next
  step_bound i call_open q outside h = ground (arith, h)
  step_bound i c q (e_add fun par) h = ground (arith, h)
  step_bound i c q (f_exchange done) h = ground (arith, h)
  step_bound i c q p h = ground (arith, h)
