-- ===== src/Qd/Linear/Steps.antt =====
-- `qdlock_impl`: each step of a thread extends the order of the operations, or keeps it.
use qd_library.Prelude.{
  ℕ, suc, ◌+◌, ◌%◌, ◌^◌, ◌≡◌, refl, sym, ap, ◌∙◌, true, false, inl, inr, List, [], ◌++◌, Bool-cases,
}
use mathlib.Core.Path.{subst}
use qd_library.Interleave.{update, State}
use qd_library.Delegate.{StarvationPolicy}
use qd_library.Queue.DualBuffer
use qd_library.Queue.DualBuffer.{Wrappers, AtomicInstructionPolicy, DualBufferQueue, e_load}
use qd_library.Queue.DualBuffer.Slots.{calls}
use qd_library.Queue.DualBuffer.Inv.{is_helper}
use qd_library.Qd.{
  QdLock, Call, call_delegate, call_lock, call_unlock, Pc, outside, d_first, d_enqueue, d_try,
  d_last, x_run, x_unlock, h_open, h_run, h_flush, h_unlock, l_lock, held, is_outside, succeeds,
  release, enqueue_step, flush_step, called, returns, next,
}
use qd_library.Qd.View.{helper_pc, owner-stays}
use qd_library.Qd.Owned.{Owned}
use qd_library.Qd.Account.Flush.{flush-Flushed}
use qd_library.Qd.Account.{Carries, enqueue-Enqueued}
use qd_library.Qd.Balance.{Agrees}
use qd_library.Qd.Linear.{
  runs_alone, opens, helper_runs, waits_longer, flush_calls, delegated, own_operation, Kept,
  waits_same, waits_more, waits_less, owned, Next, still, idles, tries_lock, rounds, now, then_,
  nothing_waits, leaves,
}

module _ (w : Wrappers) (entries entry_size : ℕ) (policy : AtomicInstructionPolicy)
    (starvation : StarvationPolicy) where
  abbrev turn : ℕ → Call w.Op → QdLock → Pc w.Op → QdLock × Pc w.Op
  turn = next w entries entry_size policy starvation

  abbrev waiting : DualBufferQueue → List (ℕ × ℕ)
  waiting q = calls w.no_op q.pending

  module _ (s : State QdLock (Pc w.Op)) (own : Owned w entries entry_size policy starvation s)
      (i : ℕ) (kept : Kept w entries entry_size policy starvation s.mem.queue)
      (quiet : is_helper (helper_pc s.mem.owner s.pc) ≡ false → s.mem.queue.pending ≡ []) where
    abbrev Extends : QdLock × Pc w.Op → Type 0
    Extends r = Next w entries entry_size policy starvation s own i kept quiet r

    abbrev Keeps : QdLock × Pc w.Op → Type 0
    Keeps r = Kept w entries entry_size policy starvation r.0.queue

    -- `enqueue` has made of the queue what it is in `m'`.
    enters :
        (op : w.Op) (par retries : ℕ) (p : DualBuffer.Pc w.Op)
        → s.pc i ≡ d_enqueue op par retries p
        → Carries op par p
        → Kept w entries entry_size policy starvation
            (enqueue_step w entries entry_size policy starvation i s.mem.queue p).0
        → (m' : QdLock) (p' : Pc w.Op) → m'.executed ≡ s.mem.executed
        → m'.owner ≡ s.mem.owner
        → m'.queue ≡ (enqueue_step w entries entry_size policy starvation i s.mem.queue p).0
        → own_operation w entries entry_size policy starvation p' ≡ []
        → Extends (m', p')
    enters op par retries p e h kept' m' p' x o q n =
        let r = enqueue_step w entries entry_size policy starvation i s.mem.queue p in
        let v =
          enqueue-Enqueued w entries entry_size policy (0, 0) op par (suc i) s.mem.queue p h in
        let to_waiting : waiting m'.queue ≡ waiting r.0 = ap waiting q in
        let owned' =
          ap
            (λ o.
              owned w entries entry_size policy starvation s own i kept quiet o (update s.pc i p'))
            o
          ∙ owner-stays (own_operation w entries entry_size policy starvation) [] s.mem.owner s.pc i
              p' (n ∙ sym (ap (own_operation w entries entry_size policy starvation) e)) in
        elim v.grows [
          | inl a ↦ still w entries entry_size policy starvation s own i kept quiet m' p' x owned' (
              to_waiting
              ∙ waits_same w entries entry_size policy starvation s.mem.queue r.0 kept kept' v.logs
                  a)
          | inr a ↦ inr (
            (w.address op, par),
            ap (delegated w entries entry_size policy starvation) e,
            ap
                  (λ l.
                    l
                    ++ (owned w entries entry_size policy starvation s own i kept quiet m'.owner
                          (update s.pc i p')
                        ++ waiting m'.queue))
                  x
                ∙ waits_longer s.mem.executed _ _ (waiting s.mem.queue) _ (w.address op, par) owned'
                    (to_waiting
                      ∙ waits_more w entries entry_size policy starvation s.mem.queue r.0
                          (w.address op, par) kept kept' v.logs a),
          )
        ]

    enqueue_queue :
        (c : Call w.Op) (op : w.Op) (par retries : ℕ) (p : DualBuffer.Pc w.Op)
        → (turn i c s.mem (d_enqueue op par retries p)).0.queue
          ≡ (enqueue_step w entries entry_size policy starvation i s.mem.queue p).0
    unfolding next
    enqueue_queue c op par retries p =
        elim (Bool-cases
          (is_outside (enqueue_step w entries entry_size policy starvation i s.mem.queue p).1)) [
            | inl o ↦ elim (Bool-cases (succeeds p)) [
              | inl f ↦ rw (o, f) refl
              | inr f ↦ rw (o, f) refl
            ]
            | inr o ↦ rw o refl
          ]

    enqueue_grows :
        (c : Call w.Op) (op : w.Op) (par retries : ℕ) (p : DualBuffer.Pc w.Op)
        → s.pc i ≡ d_enqueue op par retries p
        → Carries op par p
        → Keeps (turn i c s.mem (d_enqueue op par retries p))
        → Extends (turn i c s.mem (d_enqueue op par retries p))
    unfolding next
    enqueue_grows c op par retries p e h kept' =
        let after =
          subst (Kept w entries entry_size policy starvation) (enqueue_queue c op par retries p)
            kept' in
        let r = enqueue_step w entries entry_size policy starvation i s.mem.queue p in
        elim (Bool-cases (is_outside r.1)) [
          | inl o ↦ elim (Bool-cases (succeeds p)) [
            | inl f ↦
                rw (o, f)
                  (enters op par retries p e h after
                    (returns w entries entry_size policy starvation op par
                      (record (s.mem) { queue = r.0 }))
                    outside refl refl refl refl)
            | inr f ↦
                rw (o, f)
                  (enters op par retries p e h after (record (s.mem) { queue = r.0 })
                    (d_try op par retries) refl refl refl refl)
          ]
          | inr o ↦ rw o (
              enters op par retries p e h after (record (s.mem) { queue = r.0 })
                (d_enqueue op par retries r.1) refl refl refl refl)
        ]

    flush_grows :
        (c : Call w.Op) (op : w.Op) (par : ℕ) (p : DualBuffer.Pc w.Op)
        → s.pc i ≡ h_flush op par p
        → is_helper p ≡ true
        → Keeps (turn i c s.mem (h_flush op par p))
        → Extends (turn i c s.mem (h_flush op par p))
    unfolding next
    flush_grows c op par p e h kept' =
        let r = flush_step w entries entry_size policy starvation s.mem.queue p in
        let v = flush-Flushed w entries entry_size policy starvation s.mem.queue p h in
        let call = called w entries entry_size policy starvation s.mem.queue p in
        let less =
          waits_less w entries entry_size policy starvation s.mem.queue r.0 call kept kept' v.logs
            v.accepts in
        let mine_now =
          now w entries entry_size policy starvation s own i kept quiet (h_flush op par p) e refl in
        elim (Bool-cases (is_outside r.1)) [
          | inl o ↦ rw o (
              inl (
                flush_calls s.mem.executed _ _ _ (waiting r.0) call mine_now
                  (then_ w entries entry_size policy starvation s own i kept quiet
                    (h_flush op par p) (h_unlock op par) e refl)
                  less))
          | inr o ↦ rw o (
              inl (
                flush_calls s.mem.executed _ _ _ (waiting r.0) call mine_now
                  (then_ w entries entry_size policy starvation s own i kept quiet
                    (h_flush op par p) (h_flush op par r.1) e refl)
                  less))
        ]

    pub turn_grows :
        (c : Call w.Op) (p : Pc w.Op)
        → s.pc i ≡ p
        → Agrees p
        → Keeps (turn i c s.mem p)
        → Extends (turn i c s.mem p)
    unfolding next DualBuffer.next
    turn_grows (call_delegate op par) outside e h k =
        idles w entries entry_size policy starvation s own i kept quiet outside (d_first op par)
          s.mem e refl refl refl refl
    turn_grows call_lock outside e h k =
        idles w entries entry_size policy starvation s own i kept quiet outside l_lock s.mem e refl
          refl refl refl
    turn_grows c outside e h k =
        idles w entries entry_size policy starvation s own i kept quiet outside outside s.mem e refl
          refl refl refl
    turn_grows c (d_first op par) e h k =
        tries_lock w entries entry_size policy starvation s own i kept quiet c (x_run op par) _ refl
          (rounds w entries entry_size policy starvation s own i kept quiet (d_first op par) op par
            1 e refl)
    turn_grows c (d_enqueue op par retries p) e h k = enqueue_grows c op par retries p e h k
    turn_grows c (d_try op par retries) e h k =
        tries_lock w entries entry_size policy starvation s own i kept quiet c (h_open op par) _
          refl
          (rounds w entries entry_size policy starvation s own i kept quiet (d_try op par retries)
            op par ((retries + 1) % 2 ^ 32) e refl)
    turn_grows c (d_last op par) e h k =
        tries_lock w entries entry_size policy starvation s own i kept quiet c (x_run op par) _ refl
          (idles w entries entry_size policy starvation s own i kept quiet (d_last op par)
            (d_last op par) s.mem e refl refl refl refl)
    turn_grows c (x_run op par) e h k =
        let none_waits =
          nothing_waits w entries entry_size policy starvation s own i kept quiet (x_run op par) e
            refl refl in
        inr (
          (w.address op, par),
          ap (delegated w entries entry_size policy starvation) e,
          runs_alone s.mem.executed _ _ _ _ (w.address op, par)
              (now w entries entry_size policy starvation s own i kept quiet (x_run op par) e refl)
              (then_ w entries entry_size policy starvation s own i kept quiet (x_run op par)
                (x_unlock op par) e refl)
              none_waits none_waits,
        )
    turn_grows c (x_unlock op par) e h k =
        leaves w entries entry_size policy starvation s own i kept quiet (x_unlock op par)
          (release s.mem) e refl refl refl refl refl
    turn_grows c (h_open op par) e h k = inr (
      (w.address op, par),
      ap (delegated w entries entry_size policy starvation) e,
      opens s.mem.executed _ _ _ _ (w.address op, par)
          (now w entries entry_size policy starvation s own i kept quiet (h_open op par) e refl)
          (then_ w entries entry_size policy starvation s own i kept quiet (h_open op par)
            (h_run op par) e refl)
          (nothing_waits w entries entry_size policy starvation s own i kept quiet (h_open op par) e
            refl refl)
          refl,
    )
    turn_grows c (h_run op par) e h k = inl (
        helper_runs s.mem.executed _ _ _ _ (w.address op, par)
          (now w entries entry_size policy starvation s own i kept quiet (h_run op par) e refl)
          (then_ w entries entry_size policy starvation s own i kept quiet (h_run op par)
            (h_flush op par DualBuffer.opened) e refl)
          refl)
    turn_grows c (h_flush op par p) e h k = flush_grows c op par p e h k
    turn_grows c (h_unlock op par) e h k =
        leaves w entries entry_size policy starvation s own i kept quiet (h_unlock op par)
          (release s.mem) e refl refl refl refl refl
    turn_grows c l_lock e h k =
        tries_lock w entries entry_size policy starvation s own i kept quiet c held l_lock refl (
          idles w entries entry_size policy starvation s own i kept quiet l_lock l_lock s.mem e refl
            refl refl refl)
    turn_grows call_unlock held e h k =
        leaves w entries entry_size policy starvation s own i kept quiet held (release s.mem) e refl
          refl refl refl refl
    turn_grows c held e h k =
        idles w entries entry_size policy starvation s own i kept quiet held held s.mem e refl refl
          refl refl
