-- ===== src/Lock/Mcs/Order.antt =====
-- locks/mcs_lock.hpp: one owner at a time, in the order in which the threads came.
use qd_library.Prelude.{
  ℕ, ◌≤◌, ◌≡◌, ◌≢◌, refl, ap, ◌⊎◌, inl, inr, true, false, List, Option, none, some, arith,
  Bool-cases, Option-cases,
}
use qd_library.Interleave.{update, State, started, run}
use qd_library.Lock.Chain.{
  Chain, Turns, turn_over, Stage, idle, marking, linking, waiting, holding, reading, giving,
  leaving, broken, come_first, come_after, mark, link, notice, leave_last, see_next, find_next,
  give, reset, is_some,
}
use qd_library.Lock.Chain.Inv.{queued, owns, waits, reads, is_broken}
use qd_library.Lock.Chain.Refine.{
  IsAct, IsChain, still, run-owner, run_in_order, run_taken, run_sound,
}
use qd_library.Lock.Nodes.{NodeStatus, free, taken, is_free, set_status, is_free-update}
use qd_library.Lock.Mcs.{
  McsLock, mcs_lock, is_node, is_null, Call, call_lock, call_unlock, Pc, outside, l_swap, l_mark,
  l_link, l_spin, l_loop, t_load, t_swap, inside, u_test, u_swap, u_loop, u_next, u_give, u_reset,
  fault, next,
}

abbrev pub chain : McsLock → Chain
chain m = record {
  tail = m.locked;
  free = λ j. is_free (m.nodes.status j);
  next = m.nodes.next;
  turns = m.turns;
}

abbrev pub stage : Pc → Stage
stage (l_mark p) = marking p
stage (l_link p) = linking p
stage (l_spin k) = waiting
stage l_loop = waiting
stage inside = holding
stage u_test = holding
stage u_swap = holding
stage u_loop = holding
stage u_next = reading
stage (u_give n) = giving n
stage u_reset = leaving
stage fault = broken
stage p = idle

abbrev Acts : ℕ → Call → McsLock → Pc → Type 0
Acts i c m p = IsAct i (chain m) (chain (next i c m p).0) (stage p) (stage (next i c m p).1)

status_does :
    (m : McsLock) (i : ℕ) (s : NodeStatus) (t : Turns)
    → chain (record m { nodes = set_status m.nodes i s; turns = t })
      ≡ record (chain m) { free = update (chain m).free i (is_free s); turns = t }
status_does m i s t =
    ap (λ f. record (chain m) { free = f; turns = t }) (is_free-update m.nodes.status i s)

is_node-eq : (i : ℕ) (o : Option ℕ) → is_node i o ≡ true → o ≡ some i
is_node-eq i none h = absurd (cc)
is_node-eq i (some j) h = ground arith

null-eq : (o : Option ℕ) → is_null o ≡ true → o ≡ none
null-eq none h = refl
null-eq (some n) h = absurd (cc)

is_some-of_null : (o : Option ℕ) → is_null o ≡ false → is_some o ≡ true
is_some-of_null none h = absurd (cc)
is_some-of_null (some n) h = refl

acts :
    (i : ℕ) (c : Call) (m : McsLock) (p : Pc)
    → (reads (stage p) ≡ true → is_some (m.nodes.next i) ≡ true)
    → Acts i c m p
unfolding next
acts i call_lock m outside seen = still i (chain m) idle idle refl
acts i call_unlock m outside seen = still i (chain m) idle idle refl
acts i c m outside seen = still i (chain m) idle idle refl
acts i c m l_swap seen = elim (Option-cases m.locked) [
  | inl e ↦ rw e (record { act = come_first; from = refl; finds = refl; to = refl; does = refl })
  | inr (p, e) ↦
      rw e (record { act = come_after p; from = refl; finds = refl; to = refl; does = refl })
]
acts i c m (l_mark p) seen = record {
  act = mark p;
  from = refl;
  finds = tt;
  to = refl;
  does = status_does m i taken m.turns;
}
acts i c m (l_link p) seen = record {
  act = link p;
  from = refl;
  finds = tt;
  to = refl;
  does = refl;
}
acts i c m (l_spin k) seen = still i (chain m) waiting _ (ground arith)
acts i c m l_loop seen = elim (Bool-cases (is_free (m.nodes.status i))) [
  | inl e ↦ rw e (record { act = notice; from = refl; finds = e; to = refl; does = refl })
  | inr e ↦ rw e (still i (chain m) waiting waiting refl)
]
acts i c m t_load seen = still i (chain m) idle _ (ground arith)
acts i c m t_swap seen = elim (Bool-cases (is_null m.locked)) [
  | inl e ↦
      rw e (record {
        act = come_first;
        from = refl;
        finds = null-eq m.locked e;
        to = refl;
        does = refl;
      })
  | inr e ↦ rw e (still i (chain m) idle idle refl)
]
acts i call_unlock m inside seen = still i (chain m) holding holding refl
acts i c m inside seen = still i (chain m) holding holding refl
acts i c m u_test seen = still i (chain m) holding _ (ground arith)
acts i c m u_swap seen = elim (Bool-cases (is_node i m.locked)) [
  | inl e ↦ rw e (record {
    act = leave_last;
    from = refl;
    finds = is_node-eq i m.locked e;
    to = refl;
    does = refl;
  })
  | inr e ↦ rw e (still i (chain m) holding holding refl)
]
acts i c m u_loop seen = elim (Bool-cases (is_null (m.nodes.next i))) [
  | inl e ↦ rw e (still i (chain m) holding holding refl)
  | inr e ↦ rw e (record {
    act = see_next;
    from = refl;
    finds = is_some-of_null (m.nodes.next i) e;
    to = refl;
    does = refl;
  })
]
acts i c m u_next seen = elim (Option-cases (m.nodes.next i)) [
  | inl e ↦ absurd (cc (seen refl))
  | inr (n, e) ↦ rw e (record { act = find_next n; from = refl; finds = e; to = refl; does = refl })
]
acts i c m (u_give n) seen = record {
  act = give n;
  from = refl;
  finds = tt;
  to = refl;
  does = status_does m n free (turn_over m.turns);
}
acts i c m u_reset seen = record { act = reset; from = refl; finds = tt; to = refl; does = refl }
acts i c m fault seen = still i (chain m) broken broken refl

mcs-IsChain : IsChain next chain stage
mcs-IsChain = record { acts = acts }

module _ (garbage : ℕ → NodeStatus) (es : List (ℕ × Call)) where
  abbrev pub reached : State McsLock Pc
  reached = run next (started (mcs_lock garbage) outside) es

  -- Whatever the schedule, at most one thread is between the return of a successful `lock`,
  -- `try_lock` or `try_lock_or_wait` and the step of its `unlock` that gives the lock away.
  pub mcs-exclusive :
      (i j : ℕ) → owns (stage (reached.pc i)) ≡ true → owns (stage (reached.pc j)) ≡ true → i ≡ j
  mcs-exclusive =
      run-owner next chain stage mcs-IsChain (mcs_lock garbage) outside (λ j. is_free (garbage j))
        refl refl es

  -- First come, first served: the owner came (by the exchange in `lock`, or the compare-exchange in
  -- `try_lock`) no later than any thread that has come and not left.
  mcs_in_order :
      (i j : ℕ)
      → owns (stage (reached.pc i)) ≡ true
      → queued (stage (reached.pc j)) ≡ true
      → reached.mem.turns.ticket i ≤ reached.mem.turns.ticket j
  mcs_in_order =
      run_in_order next chain stage mcs-IsChain (mcs_lock garbage) outside
        (λ j. is_free (garbage j)) refl refl es

  -- The lock does not get lost: whenever `locked` is not null, some thread owns the lock, or some
  -- thread waits in `lock` and its node has been set to `free`.
  mcs_not_lost :
      is_some reached.mem.locked ≡ true
      → ((i : ℕ) × (owns (stage (reached.pc i)) ≡ true))
        ⊎ ((i : ℕ) × (waits (stage (reached.pc i)) ≡ true)
            × (is_free (reached.mem.nodes.status i) ≡ true))
  mcs_not_lost =
      run_taken next chain stage mcs-IsChain (mcs_lock garbage) outside (λ j. is_free (garbage j))
        refl refl es

  -- `unlock` never follows a null pointer.
  mcs_no_fault : (i : ℕ) → reached.pc i ≢ fault
  mcs_no_fault i e = absurd (
      cc (
        ap (λ p. is_broken (stage p)) e,
        run_sound next chain stage mcs-IsChain (mcs_lock garbage) outside (λ j. is_free (garbage j))
            refl refl es i,
      ))
