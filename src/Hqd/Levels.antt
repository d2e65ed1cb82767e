-- ===== src/Hqd/Levels.antt =====
-- hqdlock.hpp: who has the global lock, and who has the mutex of a node.
use qd_library.Prelude.{
  ℕ, ◌≡◌, refl, sym, ap, ◌∙◌, inl, inr, Bool, true, false, Option, none, some, List, arith, ◌==◌,
  Bool-cases,
}
use mathlib.Core.Path.{subst}
use qd_library.Interleave.{update, State, started, step, run, run-keeps}
use qd_library.Lock.{Owner, IsLock, Change, Refines, Change-Simulates, run-exclusive, Refines-exact}
use qd_library.Hqd.{
  PinningPolicy, pinned_threads, HqdLock, hqd_lock, Call, call_lock, call_unlock, call_delegate,
  queued, Pc, outside, l_get, l_mutex, l_global, held, u_get, u_mutex, d_mutex, d_global, running,
  d_unlock, get_qd, next,
}

-- Between the two calls of the global lock.
abbrev pub is_inside : Pc → Bool
is_inside (held n) = true
is_inside (running n) = true
is_inside p = false

-- Behind the lock of the node's mutex, before its unlock.
abbrev pub is_at : ℕ → Pc → Bool
is_at n (l_global k) = k == n
is_at n (held k) = k == n
is_at n (u_get k) = k == n
is_at n (u_mutex k other) = k == n
is_at n (d_global k) = k == n
is_at n (running k) = k == n
is_at n (d_unlock k) = k == n
is_at n p = false

module _ (policy : PinningPolicy) (numa_mapping : ℕ → ℕ) where
  change :
      (i : ℕ) (c : Call × ℕ) (m : HqdLock) (p : Pc)
      → Change m.global_lock
          (is_inside p)
          (next policy numa_mapping i c m p).0.global_lock
          (is_inside (next policy numa_mapping i c m p).1)
  unfolding next
  change i (c, cpu) m (l_mutex n) = ground arith
  change i (c, cpu) m (l_global n) = ground arith
  change i (call_unlock, cpu) m (held n) = ground arith
  change i (c, cpu) m (d_global n) = ground arith
  change i (queued, cpu) m (d_mutex n) = ground arith
  change i (c, cpu) m (d_mutex n) = ground arith
  change i (c, cpu) m (running n) = ground arith
  change i (c, cpu) m p = ground arith

  global-IsLock : IsLock (next policy numa_mapping) (λ m. m.global_lock) is_inside
  global-IsLock = record { change = change }

module _ (numa_mapping : ℕ → ℕ) where
  abbrev turn : ℕ → Call × ℕ → HqdLock → Pc → HqdLock × Pc
  turn = next pinned_threads numa_mapping

  -- With pinned threads, `get_qd` has its answer from the first call on.
  abbrev Home : Option ℕ → ℕ → Type 0
  Home node_id n = (c : ℕ) × (node_id ≡ some c) × (numa_mapping c ≡ n)

  abbrev Knows : Option ℕ → Pc → Type 0
  Knows node_id (l_mutex n) = Home node_id n
  Knows node_id (l_global n) = Home node_id n
  Knows node_id (held n) = Home node_id n
  Knows node_id (u_get n) = Home node_id n
  Knows node_id (u_mutex n k) = n ≡ k
  Knows node_id p = Unit

  set_node_id : (f : ℕ → Option ℕ) (i : ℕ) (o : Option ℕ) → o ≡ update f i o i
  set_node_id f i o = ground arith

  first-Home :
      (node_id : Option ℕ) (cpu : ℕ)
      → Home
          (get_qd pinned_threads numa_mapping node_id cpu).0
          (get_qd pinned_threads numa_mapping node_id cpu).1
  unfolding get_qd
  first-Home none cpu = (cpu, refl, refl)
  first-Home (some c) cpu = (c, refl, refl)

  same-Home :
      (node_id : Option ℕ) (cpu n : ℕ)
      → Home node_id n
      → n ≡ (get_qd pinned_threads numa_mapping node_id cpu).1
  unfolding get_qd
  same-Home none cpu n (c, e, f) = absurd (cc)
  same-Home (some d) cpu n (c, e, f) = sym f ∙ ap numa_mapping (sym (ground (arith, e)))

  step-Knows :
      (i : ℕ) (c : Call × ℕ) (m : HqdLock) (p : Pc)
      → Knows (m.node_ids i) p
      → Knows ((turn i c m p).0.node_ids i) (turn i c m p).1
  unfolding next
  step-Knows i (c, cpu) m l_get h =
      subst (λ o. Home o (get_qd pinned_threads numa_mapping (m.node_ids i) cpu).1)
        (set_node_id m.node_ids i (get_qd pinned_threads numa_mapping (m.node_ids i) cpu).0)
        (first-Home (m.node_ids i) cpu)
  step-Knows i (c, cpu) m (l_mutex n) h = elim (Bool-cases (m.mutex_locks n)) [
    | inl e ↦ rw e h
    | inr e ↦ rw e h
  ]
  step-Knows i (c, cpu) m (l_global n) h = elim (Bool-cases m.global_lock) [
    | inl e ↦ rw e h
    | inr e ↦ rw e h
  ]
  step-Knows i (call_unlock, cpu) m (held n) h = h
  step-Knows i (c, cpu) m (held n) h = h
  step-Knows i (c, cpu) m (u_get n) h = same-Home (m.node_ids i) cpu n h
  step-Knows i (queued, cpu) m (d_mutex n) h = tt
  step-Knows i (c, cpu) m (d_mutex n) h = elim (Bool-cases (m.mutex_locks n)) [
    | inl e ↦ rw e tt
    | inr e ↦ rw e tt
  ]
  step-Knows i (c, cpu) m (d_global n) h = elim (Bool-cases m.global_lock) [
    | inl e ↦ rw e tt
    | inr e ↦ rw e tt
  ]
  step-Knows i (call_lock, cpu) m outside h = tt
  step-Knows i (call_delegate, cpu) m outside h = tt
  step-Knows i (c, cpu) m p h = tt

  others :
      (i j : ℕ) (c : Call × ℕ) (m : HqdLock) (p : Pc)
      → (i == j) ≡ false
      → (turn i c m p).0.node_ids j ≡ m.node_ids j
  unfolding next
  others i j (c, cpu) m (l_mutex n) h = ground arith
  others i j (c, cpu) m (l_global n) h = ground arith
  others i j (c, cpu) m (d_global n) h = ground arith
  others i j (queued, cpu) m (d_mutex n) h = ground arith
  others i j (c, cpu) m (d_mutex n) h = ground arith
  others i j (c, cpu) m p h = ground arith

  mutex-Change :
      (n i : ℕ) (c : Call × ℕ) (m : HqdLock) (p : Pc)
      → Knows (m.node_ids i) p
      → Change
          (m.mutex_locks n)
          (is_at n p)
          ((turn i c m p).0.mutex_locks n)
          (is_at n (turn i c m p).1)
  unfolding next
  mutex-Change n i (c, cpu) m (l_mutex k) h = ground arith
  mutex-Change n i (c, cpu) m (l_global k) h = ground arith
  mutex-Change n i (call_unlock, cpu) m (held k) h = ground arith
  mutex-Change n i (c, cpu) m (u_mutex k other) h = ground arith
  mutex-Change n i (c, cpu) m (d_global k) h = ground arith
  mutex-Change n i (queued, cpu) m (d_mutex k) h = ground arith
  mutex-Change n i (c, cpu) m (d_mutex k) h = ground arith
  mutex-Change n i (c, cpu) m (running k) h = ground arith
  mutex-Change n i (c, cpu) m (d_unlock k) h = ground arith
  mutex-Change n i (c, cpu) m p h = ground arith

  abbrev locked_at : ℕ → HqdLock → Bool
  locked_at n m = m.mutex_locks n

  record Inv (s : State HqdLock Pc) : Type 0 where
    home : (i : ℕ) → Knows (s.mem.node_ids i) (s.pc i)
    mutex : (n : ℕ) → (o : Owner) × Refines turn (locked_at n) (is_at n) s o

  step-Inv : (s : State HqdLock Pc) (i : ℕ) (c : Call × ℕ) → Inv s → Inv (step turn s (i, c))
  unfolding step
  step-Inv s i c v = record {
    home = λ j. elim (Bool-cases (i == j)) [
      | inl e ↦ rw e (
          subst (λ n. Knows (r.0.node_ids n) r.1) (ground arith)
            (step-Knows i c s.mem (s.pc i) (v.home i)))
      | inr e ↦
          rw e (subst (λ o. Knows o (s.pc j)) (sym (others i j c s.mem (s.pc i) e)) (v.home j))
    ];
    mutex = λ n.
        let (o, q) = v.mutex n in
        let (o', st, q') =
          Change-Simulates turn (locked_at n) (is_at n) s o i r.0 r.1 q
            (mutex-Change n i c s.mem (s.pc i) (v.home i)) in
        (o', q');
  }
    where
      r : HqdLock × Pc
      r = turn i c s.mem (s.pc i)

  module _ (es : List (ℕ × (Call × ℕ))) where
    abbrev pub reached : State HqdLock Pc
    reached = run turn (started hqd_lock outside) es

    reached-Inv : Inv reached
    reached-Inv = run-keeps turn Inv step-Inv (started hqd_lock outside) es (record {
      home = λ i. tt;
      mutex = λ n. (none, record { lock_state = refl; owner = λ i. refl });
    })

    -- With pinned threads, `unlock` gives up the mutex of the node whose mutex `lock` has taken.
    unlock_same : (i n k : ℕ) → reached.pc i ≡ u_mutex n k → n ≡ k
    unlock_same i n k e = subst (Knows (reached.mem.node_ids i)) e (reached-Inv.home i)

    -- With pinned threads, the mutex of a node is locked exactly if some thread has it, in `lock`,
    -- `unlock` or `delegate`, and then that is one thread only.
    pub mutexes_exact :
        (n : ℕ)
        → (reached.mem.mutex_locks n ≡ true → (i : ℕ) × (is_at n (reached.pc i) ≡ true))
          × ((i : ℕ) → is_at n (reached.pc i) ≡ true → reached.mem.mutex_locks n ≡ true)
          × ((i j : ℕ) → is_at n (reached.pc i) ≡ true → is_at n (reached.pc j) ≡ true → i ≡ j)
    mutexes_exact n =
        let (o, q) = reached-Inv.mutex n in Refines-exact turn (locked_at n) (is_at n) reached o q

-- Whatever the policy, at most one thread is between the two calls of the global lock, in `lock`
-- and `unlock` or in the `helper` or `executor` of a `delegate`, over all nodes.
pub hqd-exclusive :
    (policy : PinningPolicy) (numa_mapping : ℕ → ℕ) (es : List (ℕ × (Call × ℕ))) (i j : ℕ)
    → is_inside ((run (next policy numa_mapping) (started hqd_lock outside) es).pc i) ≡ true
    → is_inside ((run (next policy numa_mapping) (started hqd_lock outside) es).pc j) ≡ true
    → i ≡ j
hqd-exclusive policy numa_mapping es =
    run-exclusive (next policy numa_mapping) (λ m. m.global_lock) is_inside
      (global-IsLock policy numa_mapping) hqd_lock outside es refl refl
