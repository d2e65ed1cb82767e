-- ===== src/Qd/Owned.antt =====
-- `qdlock_impl`: the thread that has the mutex is the one that runs operations.
use qd_library.Prelude.{
  ℕ, ◌+◌, ◌%◌, ◌^◌, ◌≡◌, refl, sym, ap, ◌∙◌, Bool, true, false, none, some, inl, inr, arith, ◌==◌,
  Bool-cases,
}
use qd_library.Interleave.{State, step}
use qd_library.Lock.{Owner, owns}
use qd_library.Delegate.{StarvationPolicy, goes_on}
use qd_library.Queue.DualBuffer
use qd_library.Queue.DualBuffer.{Wrappers, AtomicInstructionPolicy}
use qd_library.Qd.{
  QdLock, Call, call_delegate, call_lock, call_unlock, refused, Pc, outside, d_first, d_enqueue,
  d_try, d_last, x_run, x_unlock, h_open, h_run, h_flush, h_unlock, l_lock, held, is_free,
  is_outside, succeeds, locks, acquire, round, enqueue_step, flush_step, next,
}

-- Behind the lock of the mutex, before its unlock.
abbrev pub holds : {Op : Type 0} → Pc Op → Bool
holds (x_run op par) = true
holds (x_unlock op par) = true
holds (h_open op par) = true
holds (h_run op par) = true
holds (h_flush op par p) = true
holds (h_unlock op par) = true
holds held = true
holds p = false

pub locks-free : {Op : Type 0} (c : Call Op) (m : QdLock) → locks c m ≡ true → m.owner ≡ none
locks-free refused m h = absurd (cc)
locks-free c m h = unowned m.owner h
  where
    unowned : (o : Owner) → is_free o ≡ true → o ≡ none
    unowned none h = refl
    unowned (some i) h = absurd (cc)

pub owns-some : (o : Owner) (i : ℕ) → owns o i ≡ true → o ≡ some i
owns-some none i h = absurd (cc)
owns-some (some k) i h = ap some (ground (arith, h))

owns-other : (o : Owner) (i j : ℕ) → owns o i ≡ true → (i == j) ≡ false → owns o j ≡ false
owns-other none i j h d = refl
owns-other (some k) i j h d = ground (arith, h, d)

module _ (w : Wrappers) (entries entry_size : ℕ) (policy : AtomicInstructionPolicy)
    (starvation : StarvationPolicy) where
  abbrev turn : ℕ → Call w.Op → QdLock → Pc w.Op → QdLock × Pc w.Op
  turn = next w entries entry_size policy starvation

  abbrev pub Owned : State QdLock (Pc w.Op) → Type 0
  Owned s = (j : ℕ) → holds (s.pc j) ≡ owns s.mem.owner j

  -- A step of a thread changes the owner to the thread, from it, or not at all.
  record Takes (i : ℕ) (m : QdLock) (r : QdLock × Pc w.Op) : Type 0 where
    own : holds r.1 ≡ owns r.0.owner i
    others : (j : ℕ) → (i == j) ≡ false → owns r.0.owner j ≡ owns m.owner j

  keeps :
      (i : ℕ) (m m' : QdLock) (p : Pc w.Op)
      → m'.owner ≡ m.owner
      → holds p ≡ owns m.owner i
      → Takes i m (m', p)
  keeps i m m' p e h = record {
    own = h ∙ ap (λ o. owns o i) (sym e);
    others = λ j d. ap (λ o. owns o j) e;
  }

  acquire-Takes :
      (i : ℕ) (c : Call w.Op) (m : QdLock) (got otherwise : Pc w.Op)
      → owns m.owner i ≡ false
      → holds got ≡ true
      → holds otherwise ≡ false
      → Takes i m (acquire i c m got otherwise)
  acquire-Takes i c m got otherwise n g o = elim (Bool-cases (locks c m)) [
    | inl e ↦
        let free : m.owner ≡ none = locks-free c m e in
        rw e (record { own = g ∙ ground arith; others = λ j d. ground (arith, d, free) })
    | inr e ↦ rw e (record { own = o ∙ sym n; others = λ j d. refl })
  ]

  releases :
      (i : ℕ) (m m' : QdLock) (p : Pc w.Op)
      → m'.owner ≡ none
      → owns m.owner i ≡ true
      → holds p ≡ false
      → Takes i m (m', p)
  releases i m m' p e o h = record {
    own = h ∙ ap (λ o. owns o i) (sym e);
    others = λ j d. ap (λ o. owns o j) e ∙ sym (owns-other m.owner i j o d);
  }

  holds-round :
      (op : w.Op) (par retries : ℕ)
      → holds (round w entries entry_size policy starvation op par retries) ≡ false
  holds-round op par retries = elim (Bool-cases (goes_on starvation retries)) [
    | inl e ↦ rw e refl
    | inr e ↦ rw e refl
  ]

  turn-Takes :
      (i : ℕ) (c : Call w.Op) (m : QdLock) (p : Pc w.Op)
      → holds p ≡ owns m.owner i
      → Takes i m (turn i c m p)
  unfolding next
  turn-Takes i (call_delegate op par) m outside h = keeps i m m (d_first op par) refl h
  turn-Takes i call_lock m outside h = keeps i m m l_lock refl h
  turn-Takes i c m outside h = keeps i m m outside refl h
  turn-Takes i c m (d_first op par) h = acquire-Takes i c m _ _ (sym h) refl (holds-round op par 1)
  turn-Takes i c m (d_enqueue op par retries p) h =
      let r = enqueue_step w entries entry_size policy starvation i m.queue p in
      elim (Bool-cases (is_outside r.1)) [
        | inl e ↦ elim (Bool-cases (succeeds p)) [
          | inl f ↦ rw (e, f) (keeps i m _ outside refl h)
          | inr f ↦ rw (e, f) (keeps i m _ (d_try op par retries) refl h)
        ]
        | inr e ↦ rw e (keeps i m _ (d_enqueue op par retries r.1) refl h)
      ]
  turn-Takes i c m (d_try op par retries) h =
      acquire-Takes i c m _ _ (sym h) refl (holds-round op par ((retries + 1) % 2 ^ 32))
  turn-Takes i c m (d_last op par) h = acquire-Takes i c m _ _ (sym h) refl refl
  turn-Takes i c m (x_run op par) h = keeps i m _ (x_unlock op par) refl h
  turn-Takes i c m (x_unlock op par) h = releases i m _ outside refl (sym h) refl
  turn-Takes i c m (h_open op par) h = keeps i m _ (h_run op par) refl h
  turn-Takes i c m (h_run op par) h = keeps i m _ (h_flush op par DualBuffer.opened) refl h
  turn-Takes i c m (h_flush op par p) h =
      let r = flush_step w entries entry_size policy starvation m.queue p in
      elim (Bool-cases (is_outside r.1)) [
        | inl e ↦ rw e (keeps i m _ (h_unlock op par) refl h)
        | inr e ↦ rw e (keeps i m _ (h_flush op par r.1) refl h)
      ]
  turn-Takes i c m (h_unlock op par) h = releases i m _ outside refl (sym h) refl
  turn-Takes i c m l_lock h = acquire-Takes i c m _ _ (sym h) refl refl
  turn-Takes i call_unlock m held h = releases i m _ outside refl (sym h) refl
  turn-Takes i c m held h = keeps i m m held refl h

  pub step-Owned :
      (s : State QdLock (Pc w.Op)) (i : ℕ) (c : Call w.Op) → Owned s → Owned (step turn s (i, c))
  unfolding step
  step-Owned s i c h j =
      let t = turn-Takes i c s.mem (s.pc i) (h i) in
      elim (Bool-cases (i == j)) [
        | inl e ↦ rw e (t.own ∙ ap (owns (turn i c s.mem (s.pc i)).0.owner) (ground arith))
        | inr e ↦ rw e (h j ∙ sym (t.others j e))
      ]
