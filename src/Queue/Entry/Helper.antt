-- ===== src/Queue/Entry/Helper.antt =====
-- queues/entry_queue.hpp: what the helper knows at each of its program points, and that the
-- steps of other threads leave it true.
use qd_library.Prelude.{
  ℕ, ◌+◌, ◌^◌, ◌≤◌, ◌<◌, ◌≡◌, refl, ◌∙◌, ◌⊎◌, inl, inr, Bool, true, false, arith, ltb, Bool-cases,
}
use qd_library.Queue.Entry.{
  EntryQueue, Pc, outside, e_load, e_add, e_fill, e_publish, o_store, opened, f_load, f_exchange,
  f_close, f_full, f_spin, f_call, f_clear, f_next,
}
use qd_library.Queue.Entry.Slots.{Role, idle, filling, filled}

abbrev pub role : Pc → Role
role (e_fill k fun par) = filling k fun par
role (e_publish k fun par) = filled k fun par
role p = idle

-- Between the first step of `open` and the last of `flush`.
abbrev pub is_helper : Pc → Bool
is_helper outside = false
is_helper (e_load fun par) = false
is_helper (e_add fun par) = false
is_helper (e_fill k fun par) = false
is_helper (e_publish k fun par) = false
is_helper p = true

abbrev pub Named : Pc → Type 0
Named (e_load fun par) = 0 < fun
Named (e_add fun par) = 0 < fun
Named p = Unit {0}

pub role-f_next : (index todo : ℕ) (more : Bool) → role (f_next index todo more) ≡ idle
role-f_next index todo true = ground arith
role-f_next index todo false = ground arith

pub Named-f_next : (index todo : ℕ) (more : Bool) → Named (f_next index todo more)
Named-f_next index todo true = elim (Bool-cases (ltb index todo)) [
  | inl e ↦ rw e tt
  | inr e ↦ rw e tt
]
Named-f_next index todo false = elim (Bool-cases (ltb index todo)) [
  | inl e ↦ rw e tt
  | inr e ↦ rw e tt
]

module _ (entries : ℕ) where
  -- While the queue is open, `counter` tells how many slots are reserved, or the queue is full.
  abbrev pub Live : EntryQueue → Type 0
  Live q =
      (q.session.reserved ≤ entries)
      × ((q.counter ≡ q.session.reserved)
          ⊎ ((entries ≤ q.counter) × (q.session.reserved ≡ entries)))

  -- What `flush` may execute, in a round with `open` and in the last.
  abbrev pub Todo : EntryQueue → ℕ → Bool → Type 0
  Todo q todo true = (todo ≤ q.session.reserved) × Live q
  Todo q todo false = (todo ≡ q.session.reserved) × (entries ≤ q.counter) × (todo ≤ entries)

  abbrev pub Past : EntryQueue → ℕ → ℕ → Type 0
  Past q called cleared = (q.session.called ≡ called) × (q.session.cleared ≡ cleared)

  abbrev pub Helps : EntryQueue → Pc → Type 0
  Helps q o_store = Past q 0 0 × Live q
  Helps q opened = Past q 0 0 × Live q
  Helps q (f_load done) = Past q done done × Live q
  Helps q (f_exchange done) = Past q done done × Live q
  Helps q (f_close done todo) =
      Past q done done
      × (entries ≤ q.counter)
      × (todo < 2 ^ 63)
      × (((todo < entries) × (q.session.reserved ≡ todo))
          ⊎ ((entries ≤ todo) × (q.session.reserved ≡ entries)))
  Helps q (f_full done) = Past q done done × (entries ≤ q.counter) × (q.session.reserved ≡ entries)
  Helps q (f_spin index todo more) = Past q index index × (index < todo) × Todo q todo more
  Helps q (f_call index fun todo more) =
      Past q index index
      × (index < todo)
      × (fun ≡ q.session.fun index)
      × (0 < fun)
      × Todo q todo more
  Helps q (f_clear index todo more) = Past q (index + 1) index × (index < todo) × Todo q todo more
  Helps q p =
      (q.session.called ≡ q.session.reserved)
      × (q.session.cleared ≡ q.session.reserved)
      × (entries ≤ q.counter)

  -- What an `enqueue` of another thread may do to the queue.
  pub record Grown (q q' : EntryQueue) : Type 0 where
    pub called : q'.session.called ≡ q.session.called
    pub cleared : q'.session.cleared ≡ q.session.cleared
    pub fun : (k : ℕ) → 0 < q.session.fun k → q'.session.fun k ≡ q.session.fun k
    pub counted :
        ((q'.counter ≡ q.counter) × (q'.session.reserved ≡ q.session.reserved))
        ⊎ (((q.counter < entries)
              × (q'.counter ≡ q.counter + 1)
              × (q'.session.reserved ≡ q.session.reserved + 1))
            ⊎ ((entries ≤ q.counter)
                × (q'.counter ≡ q.counter + 1)
                × (q'.session.reserved ≡ q.session.reserved)))

  Todo-Grown :
      (q q' : EntryQueue) (todo : ℕ) (more : Bool)
      → Grown q q'
      → Todo q todo more
      → Todo q' todo more
  Todo-Grown q q' todo true g h = ground (arith, g.counted, h)
  Todo-Grown q q' todo false g h = ground (arith, g.counted, h)

  pub Todo-same :
      (q q' : EntryQueue) (todo : ℕ) (more : Bool)
      → q'.counter ≡ q.counter
      → q'.session.reserved ≡ q.session.reserved
      → Todo q todo more
      → Todo q' todo more
  Todo-same q q' todo true e f h = ground (arith, e, f, h)
  Todo-same q q' todo false e f h = ground (arith, e, f, h)

  pub Todo-within :
      (q : EntryQueue) (index todo : ℕ) (more : Bool)
      → index < todo
      → Todo q todo more
      → index < q.session.reserved
  Todo-within q index todo true l t = omega (arith, l, t.0)
  Todo-within q index todo false l t = omega (arith, l, t.0)

  pub spinning :
      (q : EntryQueue) (index todo : ℕ) (more : Bool)
      → Helps q (f_spin index todo more)
      → (q.session.called ≡ index) × (index < q.session.reserved)
  spinning q index todo more h = (h.0.0, Todo-within q index todo more h.1 h.2)

  pub unchanged : (q : EntryQueue) → Grown q q
  unchanged q = record {
    called = refl;
    cleared = refl;
    fun = λ k h. refl;
    counted = inl (refl, refl);
  }

  pub Helps-Grown : (q q' : EntryQueue) (p : Pc) → Grown q q' → Helps q p → Helps q' p
  Helps-Grown q q' o_store g h = ground (arith, g.called, g.cleared, g.counted, h)
  Helps-Grown q q' opened g h = ground (arith, g.called, g.cleared, g.counted, h)
  Helps-Grown q q' (f_load done) g h = ground (arith, g.called, g.cleared, g.counted, h)
  Helps-Grown q q' (f_exchange done) g h = ground (arith, g.called, g.cleared, g.counted, h)
  Helps-Grown q q' (f_close done todo) g h = ground (arith, g.called, g.cleared, g.counted, h)
  Helps-Grown q q' (f_full done) g h = ground (arith, g.called, g.cleared, g.counted, h)
  Helps-Grown q q' (f_spin index todo more) g ((a, b), c, d) =
      ((g.called ∙ a, g.cleared ∙ b), c, Todo-Grown q q' todo more g d)
  Helps-Grown q q' (f_call index fun todo more) g ((a, b), c, d, e, f) = (
    (g.called ∙ a, g.cleared ∙ b),
    c,
    ground (arith, g.fun index, d, e),
    e,
    Todo-Grown q q' todo more g f,
  )
  Helps-Grown q q' (f_clear index todo more) g ((a, b), c, d) =
      ((g.called ∙ a, g.cleared ∙ b), c, Todo-Grown q q' todo more g d)
  Helps-Grown q q' p g h = ground (arith, g.called, g.cleared, g.counted, h)

  -- `counter` counts the slots as long as it gives any away.
  pub counts :
      (q : EntryQueue) (p : Pc) → Helps q p → q.counter < entries → q.counter ≡ q.session.reserved
  counts q (f_spin index todo true) h l = ground (arith, h, l)
  counts q (f_spin index todo false) h l = absurd (omega (arith, h.2.1, l))
  counts q (f_call index fun todo true) h l = ground (arith, h, l)
  counts q (f_call index fun todo false) h l = absurd (omega (arith, h.4.1, l))
  counts q (f_clear index todo true) h l = ground (arith, h, l)
  counts q (f_clear index todo false) h l = absurd (omega (arith, h.2.1, l))
  counts q p h l = ground (arith, h, l)

  pub rested :
      (q : EntryQueue) (p : Pc)
      → is_helper p ≡ false
      → Helps q p
      → q.session.called ≡ q.session.reserved
  rested q outside n h = h.0
  rested q (e_load fun par) n h = h.0
  rested q (e_add fun par) n h = h.0
  rested q (e_fill k fun par) n h = h.0
  rested q (e_publish k fun par) n h = h.0
  rested q p n h = absurd (cc)

  Todo-le :
      (q : EntryQueue) (todo : ℕ) (more : Bool) → Todo q todo more → q.session.reserved ≤ entries
  Todo-le q todo true t = t.1.0
  Todo-le q todo false t = omega (arith, t.0, t.2)

  -- While an operation waits in a slot, the slots that are reserved lie in the array.
  pub reserved-le :
      (q : EntryQueue) (p : Pc)
      → Helps q p
      → q.session.called < q.session.reserved
      → q.session.reserved ≤ entries
  reserved-le q (f_spin index todo more) h l = Todo-le q todo more h.2
  reserved-le q (f_call index fun todo more) h l = Todo-le q todo more h.4
  reserved-le q (f_clear index todo more) h l = Todo-le q todo more h.2
  reserved-le q p h l = ground (arith, h, l)

  -- `f_next` at most at its bound.
  pub next-Helps :
      (q : EntryQueue) (index todo : ℕ) (more : Bool)
      → Past q index index
      → index ≤ todo
      → Todo q todo more
      → Helps q (f_next index todo more)
  next-Helps q index todo true p l t = elim (Bool-cases (ltb index todo)) [
    | inl e ↦ rw e (p, ground arith, t)
    | inr e ↦ rw e (ground (arith, p, l), t.1)
  ]
  next-Helps q index todo false p l t = elim (Bool-cases (ltb index todo)) [
    | inl e ↦ rw e (p, ground arith, t)
    | inr e ↦ rw e (ground (arith, p, l, t))
  ]
