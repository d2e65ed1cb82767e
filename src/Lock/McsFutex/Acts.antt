-- ===== src/Lock/McsFutex/Acts.antt =====
-- locks/mcs_futex_lock.hpp: each access is an act on the chain of nodes.
use qd_library.Prelude.{
  ℕ, ◌≡◌, refl, sym, ap, inl, inr, Bool, true, false, ◌&&◌, ◌||◌, Option, none, some, arith,
  if◌then◌else◌, Bool-cases, Option-cases,
}
use qd_library.Interleave.{update}
use qd_library.Lock.Kernel.{Kernel}
use qd_library.Lock.Chain.{
  Chain, Turns, turn_over, Stage, idle, marking, linking, waiting, holding, reading, giving,
  leaving, broken, nothing, come_first, come_after, mark, link, notice, leave_last, see_next,
  find_next, give, reset, is_some,
}
use qd_library.Lock.Chain.Inv.{reads}
use qd_library.Lock.Chain.Refine.{IsAct, IsChain, still}
use qd_library.Lock.Nodes.{
  NodeStatus, free, taken, contended, is_free, is_taken, is_contended, set_status, is_free-update,
  is_free-update_same,
}
use qd_library.Lock.McsFutex.LockedWord.{
  Word, no_node, own_node, node_eq, word_eq, is_null, word_eq-eq,
}
use qd_library.Lock.McsFutex.{
  McsFutexLock, come, behind, with_flag, w_round, collided, Call, call_lock, call_try_lock,
  call_try_lock_or_wait, call_unlock, call_wake, fails_weakly, wakes_early, Pc, outside, l_load,
  l_swap, l_mark, l_link, l_spin, l_test, l_contend, l_loop, l_wait, l_sleep, t_load, t_swap,
  w_load, w_take, w_flag, w_wait, w_sleep, inside, u_test, u_flag, u_swap, u_notify_all, u_loop,
  u_next, u_give, u_notify, u_reset, v_load, v_notify_all, fault, next,
}

abbrev pub stage : Pc → Stage
stage (l_mark p) = marking p
stage (l_link p) = linking p
stage (l_spin r) = waiting
stage l_test = waiting
stage l_contend = waiting
stage l_loop = waiting
stage l_wait = waiting
stage l_sleep = waiting
stage inside = holding
stage u_test = holding
stage u_flag = holding
stage (u_swap slept) = holding
stage u_loop = holding
stage v_load = holding
stage v_notify_all = holding
stage u_next = reading
stage (u_give n) = giving n
stage (u_notify n) = leaving
stage u_reset = leaving
stage fault = broken
stage p = idle

stage_round : (c flagged : Word) → stage (w_round c flagged) ≡ idle
stage_round c flagged = elim (Bool-cases c.flag) [
  | inl e ↦ rw e refl
  | inr e ↦ elim (Option-cases c.node) [ inl n ↦ rw (e, n) refl | inr (p, n) ↦ rw (e, n) refl ]
]

null-eq : (o : Option ℕ) → is_null o ≡ true → o ≡ none
null-eq none h = refl
null-eq (some n) h = absurd (cc)

is_some-of_null : (o : Option ℕ) → is_null o ≡ false → is_some o ≡ true
is_some-of_null none h = absurd (cc)
is_some-of_null (some n) h = refl

module _ (k : Kernel) where
  abbrev pub chain : McsFutexLock k.Queue → Chain
  chain m = record {
    tail = m.locked.node;
    free = λ j. is_free (m.nodes.status j);
    next = m.nodes.next;
    turns = m.turns;
  }

  abbrev Acts : ℕ → Call → McsFutexLock k.Queue → Pc → Type 0
  Acts i c m p = IsAct i (chain m) (chain (next k i c m p).0) (stage p) (stage (next k i c m p).1)

  status_does :
      (m : McsFutexLock k.Queue) (i : ℕ) (s : NodeStatus) (t : Turns)
      → chain (record m { nodes = set_status m.nodes i s; turns = t })
        ≡ record (chain m) { free = update (chain m).free i (is_free s); turns = t }
  status_does m i s t =
      ap (λ f. record (chain m) { free = f; turns = t }) (is_free-update m.nodes.status i s)

  contend_does :
      (m : McsFutexLock k.Queue) (i : ℕ)
      → is_taken (m.nodes.status i) ≡ true
      → chain (record m { nodes = set_status m.nodes i contended }) ≡ chain m
  contend_does m i h =
      ap (λ f. record (chain m) { free = f })
        (is_free-update_same m.nodes.status i contended (ground arith))

  coming :
      (i : ℕ) (m : McsFutexLock k.Queue) (f : Bool) (o : Option ℕ)
      → m.locked.node ≡ o
      → IsAct i (chain m) (chain (come k i (own_node i f) m)) idle (stage (behind o))
  coming i m f none e = record { act = come_first; from = refl; finds = e; to = refl; does = refl }
  coming i m f (some p) e = record {
    act = come_after p;
    from = refl;
    finds = e;
    to = refl;
    does = refl;
  }

  -- A thread that finds its node free goes on as the owner.
  notices :
      (i : ℕ) (m : McsFutexLock k.Queue) (other : Pc)
      → stage other ≡ waiting
      → IsAct i
          (chain m)
          (chain m)
          waiting
          (stage (if is_free (m.nodes.status i) then inside else other))
  notices i m other h = elim (Bool-cases (is_free (m.nodes.status i))) [
    | inl f ↦ rw f (record { act = notice; from = refl; finds = f; to = refl; does = refl })
    | inr f ↦ rw f (still i (chain m) waiting _ h)
  ]

  -- The compare-exchange from `free` to the own node.
  comes_first :
      (i : ℕ) (m : McsFutexLock k.Queue) (other : Pc)
      → stage other ≡ idle
      → let r : McsFutexLock k.Queue × Pc =
          if word_eq m.locked no_node
          then (come k i (own_node i false) m, inside)
          else (m, other) in
        IsAct i (chain m) (chain r.0) idle (stage r.1)
  comes_first i m other h = elim (Bool-cases (word_eq m.locked no_node)) [
    | inl e ↦ rw e (coming i m false none (word_eq-eq m.locked no_node e).0)
    | inr e ↦ rw e (still i (chain m) idle _ h)
  ]

  abbrev tail_of : McsFutexLock k.Queue → Option ℕ → Chain
  tail_of m o = record (chain m) { tail = o }

  acts :
      (i : ℕ) (c : Call) (m : McsFutexLock k.Queue) (p : Pc)
      → (reads (stage p) ≡ true → is_some (m.nodes.next i) ≡ true)
      → Acts i c m p
  unfolding next
  acts i call_lock m outside seen = still i (chain m) idle idle refl
  acts i call_try_lock m outside seen = still i (chain m) idle idle refl
  acts i call_try_lock_or_wait m outside seen = still i (chain m) idle idle refl
  acts i c m outside seen = still i (chain m) idle idle refl
  acts i c m l_load seen = still i (chain m) idle idle refl
  acts i c m (l_swap w) seen = elim (Bool-cases (word_eq m.locked w)) [
    | inl e ↦ rw e (coming i m w.flag w.node ((word_eq-eq m.locked w e).0))
    | inr e ↦ rw e (still i (chain m) idle idle refl)
  ]
  acts i c m (l_mark p) seen = record {
    act = mark p;
    from = refl;
    finds = tt;
    to = refl;
    does = status_does m i taken m.turns;
  }
  acts i c m (l_link p) seen = record {
    act = link p;
    from = refl;
    finds = tt;
    to = refl;
    does = refl;
  }
  acts i c m (l_spin r) seen = still i (chain m) waiting _ (ground arith)
  acts i c m l_test seen = still i (chain m) waiting _ (ground arith)
  acts i c m l_contend seen = elim (Bool-cases (is_taken (m.nodes.status i))) [
    | inl e ↦ rw e (record {
      act = nothing waiting;
      from = refl;
      finds = tt;
      to = refl;
      does = contend_does m i e;
    })
    | inr e ↦ rw e (notices i m l_loop refl)
  ]
  acts i c m l_loop seen = notices i m l_wait refl
  acts i c m l_wait seen = elim (Bool-cases (is_contended (m.nodes.status i))) [
    | inl e ↦ rw e (still i (chain m) waiting waiting refl)
    | inr e ↦ rw e (still i (chain m) waiting waiting refl)
  ]
  acts i wakes_early m l_sleep seen = still i (chain m) waiting waiting refl
  acts i c m l_sleep seen = still i (chain m) waiting _ (ground arith)
  acts i c m t_load seen = still i (chain m) idle _ (ground arith)
  acts i c m t_swap seen = comes_first i m outside refl
  acts i c m w_load seen = still i (chain m) idle _ (stage_round m.locked (with_flag m.locked))
  acts i c m (w_take flagged) seen = comes_first i m _ (stage_round m.locked flagged)
  acts i fails_weakly m (w_flag p) seen =
      still i (chain m) idle _ (stage_round m.locked (own_node p true))
  acts i c m (w_flag p) seen = elim (Bool-cases (word_eq m.locked (own_node p false))) [
    | inl e ↦
        let (same, f) = word_eq-eq m.locked (own_node p false) e in
        rw e (record {
          act = nothing idle;
          from = refl;
          finds = tt;
          to = refl;
          does = ap (λ o. tail_of m o) (sym same);
        })
    | inr e ↦ rw e (still i (chain m) idle _ (stage_round m.locked (own_node p true)))
  ]
  acts i c m (w_wait flagged) seen =
      elim (Bool-cases (m.locked.flag && (node_eq m.locked.node flagged.node || collided c))) [
        | inl e ↦ rw e (still i (chain m) idle idle refl)
        | inr e ↦ rw e (still i (chain m) idle idle refl)
      ]
  acts i wakes_early m w_sleep seen = still i (chain m) idle idle refl
  acts i c m w_sleep seen = still i (chain m) idle _ (ground arith)
  acts i call_unlock m inside seen = still i (chain m) holding holding refl
  acts i call_wake m inside seen = still i (chain m) holding holding refl
  acts i c m inside seen = still i (chain m) holding holding refl
  acts i c m u_test seen = still i (chain m) holding _ (ground arith)
  acts i c m u_flag seen = still i (chain m) holding holding refl
  acts i c m (u_swap slept) seen = elim (Bool-cases (word_eq m.locked (own_node i slept))) [
    | inl e ↦
        let (same, f) = word_eq-eq m.locked (own_node i slept) e in
        rw e
          (record { act = leave_last; from = refl; finds = same; to = ground arith; does = refl })
    | inr e ↦ rw e (still i (chain m) holding _ (ground arith))
  ]
  acts i c m u_notify_all seen = still i (chain m) idle _ (ground arith)
  acts i c m u_loop seen = elim (Bool-cases (is_null (m.nodes.next i))) [
    | inl e ↦ rw e (still i (chain m) holding holding refl)
    | inr e ↦ rw e (record {
      act = see_next;
      from = refl;
      finds = is_some-of_null (m.nodes.next i) e;
      to = refl;
      does = refl;
    })
  ]
  acts i c m u_next seen = elim (Option-cases (m.nodes.next i)) [
    | inl e ↦ absurd (cc (seen refl))
    | inr (n, e) ↦
        rw e (record { act = find_next n; from = refl; finds = e; to = refl; does = refl })
  ]
  acts i c m (u_give n) seen = record {
    act = give n;
    from = refl;
    finds = tt;
    to = ground arith;
    does = status_does m n free (turn_over m.turns);
  }
  acts i c m (u_notify n) seen = still i (chain m) leaving leaving refl
  acts i c m u_reset seen = record { act = reset; from = refl; finds = tt; to = refl; does = refl }
  acts i c m v_load seen = still i (chain m) holding _ (ground arith)
  acts i c m v_notify_all seen = still i (chain m) holding _ (ground arith)
  acts i c m fault seen = still i (chain m) broken broken refl

  pub mcs_futex-IsChain : IsChain (next k) chain stage
  mcs_futex-IsChain = record { acts = acts }
