-- ===== src/Mrhqd/Simulation.antt =====
-- `mrhqdlock_impl` of hqdlock.hpp does what `mrqdlock_impl` does, with the global lock for the mutex.
use qd_library.Prelude.{
  ℕ, ◌+◌, ◌^◌, ◌<◌, ◌≡◌, refl, sym, ap, ◌∙◌, ◌&&◌, not, inl, inr, Option, none, some, List, [], ◌∷◌,
  arith, ◌==◌, Bool-cases,
}
use mathlib.Core.Path.{fun_ext}
use qd_library.Interleave.{update, State, started, step, run}
use qd_library.Interleave.Total.{OfThreads}
use qd_library.Mrqd.{MrqdLock, mrqd_lock, positive}
use qd_library.Mrqd
use qd_library.Mrqd.Exclusion.{readers-writers-exclusive}
use qd_library.Hqd.{PinningPolicy}
use qd_library.Mrhqd.{
  MrhqdLock, mrhqd_lock, Call, call_lock, call_unlock, call_delegate, queued, call_rlock,
  call_runlock, Pc, outside, l_barrier, l_get, l_mutex, l_global, l_query, held, u_get, u_mutex,
  d_barrier, d_mutex, d_global, d_query, running, d_unlock, r_arrive, r_test, r_depart, r_wait,
  r_raise, r_lower, reading, next,
}

abbrev pub view : MrhqdLock → MrqdLock
view m = record {
  write_barrier = m.write_barrier;
  counters = m.counters;
  locked = m.levels.global_lock;
}

abbrev pub view_pc : Pc → Mrqd.Pc
view_pc l_barrier = Mrqd.w_barrier
view_pc l_get = Mrqd.w_mutex
view_pc (l_mutex n) = Mrqd.w_mutex
view_pc (l_global n) = Mrqd.w_mutex
view_pc (l_query n g) = Mrqd.w_query g
view_pc (held n) = Mrqd.inside
view_pc (d_barrier n) = Mrqd.w_barrier
view_pc (d_mutex n) = Mrqd.w_mutex
view_pc (d_global n) = Mrqd.w_mutex
view_pc (d_query n g) = Mrqd.w_query g
view_pc (running n) = Mrqd.inside
view_pc (r_arrive p b) = Mrqd.r_arrive p b
view_pc (r_test g p b) = Mrqd.r_test g p b
view_pc (r_depart g p b) = Mrqd.r_depart g p b
view_pc (r_wait p b) = Mrqd.r_wait p b
view_pc (r_raise p) = Mrqd.r_raise p
view_pc (r_lower g) = Mrqd.r_lower g
view_pc (reading g) = Mrqd.reading g
view_pc p = Mrqd.outside

-- The step of `mrqdlock_impl` that a step stands for, if it stands for one.
abbrev view_call : Call → Pc → Option Mrqd.Call
view_call call_lock outside = some Mrqd.call_lock
view_call call_rlock outside = some Mrqd.call_rlock
view_call c outside = none
view_call c l_get = none
view_call c (l_mutex n) = none
view_call call_unlock (held n) = some Mrqd.call_unlock
view_call c (held n) = none
view_call c (u_get n) = none
view_call c (u_mutex n k) = none
view_call queued (d_mutex n) = some Mrqd.queued
view_call c (d_mutex n) = none
view_call c (running n) = some Mrqd.call_unlock
view_call c (d_unlock n) = none
view_call call_runlock (reading g) = some Mrqd.call_runlock
view_call c (reading g) = none
view_call c p = some Mrqd.call_lock

module _ (groups limit : ℕ) (policy : PinningPolicy) (numa_mapping : ℕ → ℕ) where
  abbrev turn : ℕ → Call × ℕ → MrhqdLock → Pc → MrhqdLock × Pc
  turn = next groups limit policy numa_mapping

  abbrev seen : MrhqdLock × Pc → MrqdLock × Mrqd.Pc
  seen (m, p) = (view m, view_pc p)

  abbrev answer : ℕ → Option Mrqd.Call → MrqdLock × Mrqd.Pc → MrqdLock × Mrqd.Pc
  answer i none (m, p) = (m, p)
  answer i (some c) (m, p) = Mrqd.next groups limit i c m p

  simulates :
      (i : ℕ) (c : Call) (cpu : ℕ) (m : MrhqdLock) (p : Pc)
      → seen (turn i (c, cpu) m p) ≡ answer i (view_call c p) (view m, view_pc p)
  unfolding next Mrqd.next
  simulates i call_lock cpu m outside = refl
  simulates i call_delegate cpu m outside = refl
  simulates i call_rlock cpu m outside = refl
  simulates i c cpu m outside = refl
  simulates i c cpu m l_barrier = elim (Bool-cases (positive m.write_barrier)) [
    | inl e ↦ rw e refl
    | inr e ↦ rw e refl
  ]
  simulates i c cpu m (l_mutex n) = elim (Bool-cases (m.levels.mutex_locks n)) [
    | inl e ↦ rw e refl
    | inr e ↦ rw e refl
  ]
  simulates i c cpu m (l_global n) = elim (Bool-cases (m.levels.global_lock)) [
    | inl e ↦ rw e refl
    | inr e ↦ rw e refl
  ]
  simulates i c cpu m (l_query n g) = elim (Bool-cases (positive (m.counters g))) [
    | inl e ↦ rw e refl
    | inr e ↦ elim (Bool-cases (g + 1 == groups)) [
      | inl f ↦ rw (e, f) refl
      | inr f ↦ rw (e, f) refl
    ]
  ]
  simulates i call_unlock cpu m (held n) = refl
  simulates i c cpu m (held n) = refl
  simulates i c cpu m (d_barrier n) = elim (Bool-cases (positive m.write_barrier)) [
    | inl e ↦ rw e refl
    | inr e ↦ rw e refl
  ]
  simulates i queued cpu m (d_mutex n) = refl
  simulates i c cpu m (d_mutex n) = elim (Bool-cases (m.levels.mutex_locks n)) [
    | inl e ↦ rw e refl
    | inr e ↦ rw e refl
  ]
  simulates i c cpu m (d_global n) = elim (Bool-cases (m.levels.global_lock)) [
    | inl e ↦ rw e refl
    | inr e ↦ rw e refl
  ]
  simulates i c cpu m (d_query n g) = elim (Bool-cases (positive (m.counters g))) [
    | inl e ↦ rw e refl
    | inr e ↦ elim (Bool-cases (g + 1 == groups)) [
      | inl f ↦ rw (e, f) refl
      | inr f ↦ rw (e, f) refl
    ]
  ]
  simulates i c cpu m (r_test g patience raised) = elim (Bool-cases m.levels.global_lock) [
    | inl e ↦ rw e refl
    | inr e ↦ elim (Bool-cases raised) [ inl f ↦ rw (e, f) refl | inr f ↦ rw (e, f) refl ]
  ]
  simulates i c cpu m (r_wait patience raised) = elim (Bool-cases m.levels.global_lock) [
    | inl e ↦ elim (Bool-cases (patience == limit && not raised)) [
      | inl f ↦ rw (e, f) refl
      | inr f ↦ rw (e, f) refl
    ]
    | inr e ↦ rw e refl
  ]
  simulates i call_runlock cpu m (reading g) = refl
  simulates i c cpu m (reading g) = refl
  simulates i c cpu m p = refl

  abbrev Sys : Type 0
  Sys = State MrhqdLock Pc

  abbrev pub view_state : Sys → State MrqdLock Mrqd.Pc
  view_state s = record { mem = view s.mem; pc = λ j. view_pc (s.pc j) }

  -- The steps of the other lock that one step stands for.
  abbrev steps : ℕ → Option Mrqd.Call → List (ℕ × Mrqd.Call)
  steps i none = []
  steps i (some c) = (i, c) ∷ []

  view-update :
      (pc : ℕ → Pc) (i : ℕ) (p : Pc)
      → ◌≡◌ {A = ℕ → Mrqd.Pc}
          (λ j. view_pc (update pc i p j))
          (update (λ j. view_pc (pc j)) i (view_pc p))
  view-update pc i p = fun_ext λ j. ground arith

  update-same : (pc : ℕ → Mrqd.Pc) (i : ℕ) → update pc i (pc i) ≡ pc
  update-same pc i = fun_ext λ j. ground (arith, ap pc)

  module _ (s : Sys) (i : ℕ) where
    abbrev pcs : ℕ → Mrqd.Pc
    pcs j = view_pc (s.pc j)

    abbrev moved : MrqdLock × Mrqd.Pc → State MrqdLock Mrqd.Pc
    moved (m, p) = record { mem = m; pc = update pcs i p }

    answered :
        (o : Option Mrqd.Call)
        → moved (answer i o (view s.mem, view_pc (s.pc i)))
          ≡ run (Mrqd.next groups limit) (view_state s) (steps i o)
    unfolding step run
    answered none = ap (λ f. record { mem = view s.mem; pc = f }) (update-same pcs i)
    answered (some c) = refl

    step_view :
        (c : Call) (cpu : ℕ)
        → view_state (step turn s (i, (c, cpu)))
          ≡ run (Mrqd.next groups limit) (view_state s) (steps i (view_call c (s.pc i)))
    unfolding step
    step_view c cpu =
        let r = turn i (c, cpu) s.mem (s.pc i) in
        ap (λ f. record { mem = view r.0; pc = f }) (view-update s.pc i r.1)
        ∙ ap moved (simulates i c cpu s.mem (s.pc i))
        ∙ answered (view_call c (s.pc i))

  abbrev pub Simulated : Sys → List (ℕ × (Call × ℕ)) → Type 0
  Simulated s es =
      (fs : List (ℕ × Mrqd.Call)) × ((threads : ℕ) → OfThreads threads es → OfThreads threads fs)
      × (view_state (run turn s es) ≡ run (Mrqd.next groups limit) (view_state s) fs)

  simulated : (s : Sys) (es : List (ℕ × (Call × ℕ))) → Simulated s es
  unfolding run
  simulated s [] = ([], λ n t. t, refl)
  simulated s ((i, (c, cpu)) ∷ es) =
      let (fs, t, e) = simulated (step turn s (i, (c, cpu))) es in
      after (view_call c (s.pc i)) fs t (step_view s i c cpu) e
    where
      after :
          (o : Option Mrqd.Call) (fs : List (ℕ × Mrqd.Call))
          → ((threads : ℕ) → OfThreads threads es → OfThreads threads fs)
          → view_state (step turn s (i, (c, cpu)))
            ≡ run (Mrqd.next groups limit) (view_state s) (steps i o)
          → view_state (run turn (step turn s (i, (c, cpu))) es)
            ≡ run (Mrqd.next groups limit) (view_state (step turn s (i, (c, cpu)))) fs
          → Simulated s ((i, (c, cpu)) ∷ es)
      after none fs t e f = (fs, λ n u. t n u.1, f ∙ ap (λ x. run (Mrqd.next groups limit) x fs) e)
      after (some d) fs t e f =
          ((i, d) ∷ fs, λ n u. (u.0, t n u.1), f ∙ ap (λ x. run (Mrqd.next groups limit) x fs) e)

  abbrev pub reached : List (ℕ × (Call × ℕ)) → Sys
  reached es = run turn (started mrhqd_lock outside) es

  -- Refinement: whatever `mrhqdlock_impl` does, with either pinning policy and any mapping of
  -- processors to nodes, `mrqdlock_impl` does too, by the same threads: seen without the nodes'
  -- mutexes and with the global lock as the mutex, every reachable state is one that a schedule of
  -- `mrqdlock_impl` reaches.
  pub mrhqd-Refines-mrqd :
      (es : List (ℕ × (Call × ℕ)))
      → (fs : List (ℕ × Mrqd.Call)) × ((threads : ℕ) → OfThreads threads es → OfThreads threads fs)
        × (view_state (reached es)
            ≡ run (Mrqd.next groups limit) (started mrqd_lock Mrqd.outside) fs)
  mrhqd-Refines-mrqd es = simulated (started mrhqd_lock outside) es

  -- However fewer than 2 ^ 31 threads take turns: while a writer is between the return of `lock`
  -- and its `unlock`, or behind `wait_readers` in a `delegate`, no thread is between the return of
  -- `rlock` and its `runlock`.
  pub mrhqd-exclusive :
      (threads : ℕ)
      → 0 < groups
      → threads < 2 ^ 31
      → (es : List (ℕ × (Call × ℕ))) (i j g : ℕ) → OfThreads threads es
      → j < threads
      → view_pc ((reached es).pc i) ≡ Mrqd.inside
      → ¬ ((reached es).pc j ≡ reading g)
  mrhqd-exclusive threads some_groups few es i j g t lt a b =
      let (fs, u, e) = mrhqd-Refines-mrqd es in
      readers-writers-exclusive groups limit threads some_groups few fs i j g (u threads t) lt
        (sym (ap (λ s. s.pc i) e) ∙ a) (sym (ap (λ s. s.pc j) e) ∙ ap view_pc b)
