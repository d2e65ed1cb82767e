-- ===== src/Lock/McsFutex/Wakeups.antt =====
-- locks/mcs_futex_lock.hpp: a thread that sleeps, on `locked` or on its own node, is woken by someone.
use qd_library.Prelude.{ℕ, ◌≡◌, ◌≢◌, sym, ap, ◌∙◌, ◌⊎◌, inl, inr, true, false, List, arith}
use qd_library.Interleave.{update, State, started, step, run-keeps}
use qd_library.Lock.Kernel.{Kernel}
use qd_library.Lock.Nodes.{NodeStatus, is_contended}
use qd_library.Lock.McsFutex.LockedWord.{no_node, own_node, word_eq-eq}
use qd_library.Lock.McsFutex.{
  McsFutexLock, mcs_futex_lock, wake_at_once, Call, fails_weakly, wakes_early, Pc, outside, l_load,
  l_swap, l_mark, l_link, l_spin, l_test, l_contend, l_wait, l_sleep, t_swap, w_take, w_flag,
  w_wait, w_sleep, u_swap, u_notify_all, u_give, u_notify, v_notify_all, next,
}
use qd_library.Lock.McsFutex.Order.{reached}

module _ (k : Kernel) where
  abbrev Mem : Type 0
  Mem = McsFutexLock k.Queue

  -- Someone will wake the threads that sleep on `locked`: its flag says so to the last of the
  -- chain, or a thread is in `notify_all`.
  abbrev pub FlagCovers : Mem → (ℕ → Pc) → Type 0
  FlagCovers m pc = (m.locked.flag ≡ true) ⊎ ((i : ℕ) × (pc i ≡ u_notify_all))

  -- The mark of the node says so to the thread that gives the lock away, or a thread is about to
  -- call `notify_one` on the node.
  abbrev pub MarkCovers : Mem → (ℕ → Pc) → ℕ → Type 0
  MarkCovers m pc n = (is_contended (m.nodes.status n) ≡ true) ⊎ ((i : ℕ) × (pc i ≡ u_notify n))

  -- A thread sleeps on its own node only.
  record Covered (s : State Mem Pc) : Type 0 where
    flag : (j : ℕ) → k.asleep s.mem.waiters j ≡ true → FlagCovers s.mem s.pc
    own : (n j : ℕ) → k.asleep (s.mem.sleepers n) j ≡ true → j ≡ n
    in_wait : (n : ℕ) → k.asleep (s.mem.sleepers n) n ≡ true → s.pc n ≡ l_sleep
    mark : (n : ℕ) → k.asleep (s.mem.sleepers n) n ≡ true → MarkCovers s.mem s.pc n

  -- What one step does to those that sleep on `locked`.
  abbrev FlagLocal : Mem → Pc → Mem → Pc → Type 0
  FlagLocal m p m' p' =
      (j : ℕ)
      → k.asleep m'.waiters j ≡ true
      → (m'.locked.flag ≡ true)
        ⊎ ((p' ≡ u_notify_all)
            ⊎ ((k.asleep m.waiters j ≡ true) × (m.locked.flag ≡ false) × (p ≢ u_notify_all)))

  flag-Local :
      (i : ℕ) (c : Call) (m : Mem) (p : Pc) → FlagLocal m p (next k i c m p).0 (next k i c m p).1
  unfolding next
  flag-Local i c m l_load j h = ground (arith)
  flag-Local i c m (l_swap w) j h = ground (arith, word_eq-eq m.locked w)
  flag-Local i c m (l_link q) j h = ground (arith)
  flag-Local i c m l_contend j h = ground (arith)
  flag-Local i c m t_swap j h = ground (arith, word_eq-eq m.locked no_node)
  flag-Local i c m (w_take flagged) j h = ground (arith, word_eq-eq m.locked no_node)
  flag-Local i fails_weakly m (w_flag q) j h = ground (arith)
  flag-Local i c m (w_flag q) j h = ground (arith, word_eq-eq m.locked (own_node q false))
  flag-Local i c m (w_wait flagged) j h = ground (arith, k.asleep-sleep m.waiters i j)
  flag-Local i wakes_early m w_sleep j h = ground (arith, k.asleep-interrupt m.waiters i j)
  flag-Local i c m (u_swap slept) j h = ground (arith, word_eq-eq m.locked (own_node i slept))
  flag-Local i c m u_notify_all j h = ground (
    arith,
    k.asleep-wake m.waiters wake_at_once j,
    k.wake-le m.waiters wake_at_once,
    k.wake_all m.waiters wake_at_once j,
  )
  flag-Local i c m v_notify_all j h = ground (arith, k.asleep-wake m.waiters wake_at_once j)
  flag-Local i c m p j h = ground arith

  -- A step puts to sleep its own thread only, on its own node.
  own-Local :
      (i : ℕ) (c : Call) (m : Mem) (p : Pc) (n j : ℕ)
      → k.asleep ((next k i c m p).0.sleepers n) j ≡ true
      → (((i ≡ n) × (j ≡ n)) ⊎ (k.asleep (m.sleepers n) j ≡ true))
  unfolding next
  own-Local i c m l_wait n j h = ground (arith, k.asleep-sleep (m.sleepers i) i j)
  own-Local i wakes_early m l_sleep n j h = ground (arith, k.asleep-interrupt (m.sleepers i) i j)
  own-Local i c m (u_notify q) n j h = ground (arith, k.asleep-wake (m.sleepers q) 1 j)
  own-Local i c m p n j h = ground arith

  -- What one step does to a thread that sleeps on its node.
  mark-Local :
      (i : ℕ) (c : Call) (m : Mem) (p : Pc) (n : ℕ)
      → ((j : ℕ) → k.asleep (m.sleepers n) j ≡ true → j ≡ n)
      → (i ≡ n → k.asleep (m.sleepers n) n ≡ true → p ≡ l_sleep)
      → k.asleep ((next k i c m p).0.sleepers n) n ≡ true
      → (i ≡ n → (next k i c m p).1 ≡ l_sleep)
        × ((is_contended ((next k i c m p).0.nodes.status n) ≡ true)
            ⊎ (((next k i c m p).1 ≡ u_notify n)
                ⊎ ((k.asleep (m.sleepers n) n ≡ true)
                    × (is_contended (m.nodes.status n) ≡ false)
                    × (p ≢ u_notify n))))
  unfolding next
  mark-Local i c m l_load n own wait h = (ground (arith), ground (arith))
  mark-Local i c m (l_swap w) n own wait h = (ground (arith), ground (arith))
  mark-Local i c m (l_mark q) n own wait h = (ground (arith), ground (arith))
  mark-Local i c m (l_link q) n own wait h = (ground (arith), ground (arith))
  mark-Local i c m (l_spin r) n own wait h = (ground (arith), ground (arith))
  mark-Local i c m l_test n own wait h = (ground (arith), ground (arith))
  mark-Local i c m l_contend n own wait h = (ground (arith), ground (arith))
  mark-Local i c m l_wait n own wait h = (
    ground (arith, k.asleep-sleep (m.sleepers i) i n),
    ground (arith, k.asleep-sleep (m.sleepers i) i n),
  )
  mark-Local i wakes_early m l_sleep n own wait h = (
    ground (arith, k.asleep-interrupt (m.sleepers i) i n),
    ground (arith, k.asleep-interrupt (m.sleepers i) i n),
  )
  mark-Local i c m l_sleep n own wait h = (ground (arith), ground (arith))
  mark-Local i c m (u_give q) n own wait h = (ground (arith), ground (arith))
  mark-Local i c m (u_notify q) n own wait h = (
    ground (arith, k.asleep-wake (m.sleepers q) 1 n, k.wake_one (m.sleepers n) n own),
    ground (arith, k.asleep-wake (m.sleepers q) 1 n, k.wake_one (m.sleepers n) n own),
  )
  mark-Local i c m p n own wait h = (ground arith, ground arith)

  step-Covered :
      (s : State Mem Pc) (i : ℕ) (c : Call) → Covered s → Covered (step (next k) s (i, c))
  unfolding step
  step-Covered s i c v = record {
    flag = flags;
    own = owned;
    in_wait = λ n h. waiting_at n h;
    mark = marked;
  }
    where
      m' : Mem
      m' = (next k i c s.mem (s.pc i)).0

      pc' : ℕ → Pc
      pc' = update s.pc i (next k i c s.mem (s.pc i)).1

      flags : (j : ℕ) → k.asleep m'.waiters j ≡ true → FlagCovers m' pc'
      flags j h = elim (flag-Local i c s.mem (s.pc i) j h) [
        | inl f ↦ inl f
        | inr (inl now) ↦ inr (i, ground arith)
        | inr (inr (before, unset, other)) ↦ elim (v.flag j before) [
          | inl f ↦ absurd (cc)
          | inr (a, at) ↦ inr (a, ground (arith, ap s.pc))
        ]
      ]

      owned : (n j : ℕ) → k.asleep (m'.sleepers n) j ≡ true → j ≡ n
      owned n j h = elim (own-Local i c s.mem (s.pc i) n j h) [
        | inl (_, e) ↦ e
        | inr o ↦ v.own n j o
      ]

      local :
          (n : ℕ)
          → k.asleep (m'.sleepers n) n ≡ true
          → (i ≡ n → (next k i c s.mem (s.pc i)).1 ≡ l_sleep)
            × ((is_contended (m'.nodes.status n) ≡ true)
                ⊎ (((next k i c s.mem (s.pc i)).1 ≡ u_notify n)
                    ⊎ ((k.asleep (s.mem.sleepers n) n ≡ true)
                        × (is_contended (s.mem.nodes.status n) ≡ false)
                        × (s.pc i ≢ u_notify n))))
      local n = mark-Local i c s.mem (s.pc i) n (v.own n) (λ e h. ap s.pc e ∙ v.in_wait n h)

      waiting_at : (n : ℕ) → k.asleep (m'.sleepers n) n ≡ true → pc' n ≡ l_sleep
      waiting_at n h = elim (own-Local i c s.mem (s.pc i) n n h) [
        | inl (e, _) ↦ ground (arith, (local n h).0)
        | inr o ↦ ground (arith, (local n h).0, v.in_wait n o)
      ]

      marked : (n : ℕ) → k.asleep (m'.sleepers n) n ≡ true → MarkCovers m' pc' n
      marked n h = elim (local n h).1 [
        | inl f ↦ inl f
        | inr (inl now) ↦ inr (i, ground arith)
        | inr (inr (before, unset, other)) ↦ elim (v.mark n before) [
          | inl f ↦ absurd (cc)
          | inr (a, at) ↦ inr (a, ground (arith, ap s.pc))
        ]
      ]

  reached-Covered :
      (garbage : ℕ → NodeStatus) (es : List (ℕ × Call)) → Covered (reached k garbage es)
  reached-Covered garbage es =
      run-keeps (next k) Covered step-Covered (started (mcs_futex_lock k garbage) outside) es
        (record {
          flag = λ j h. absurd (cc (k.asleep-nobody j));
          own = λ n j h. absurd (cc (k.asleep-nobody j));
          in_wait = λ n h. absurd (cc (k.asleep-nobody n));
          mark = λ n h. absurd (cc (k.asleep-nobody n));
        })

  module _ (garbage : ℕ → NodeStatus) (es : List (ℕ × Call)) where
    abbrev s : State Mem Pc
    s = reached k garbage es

    -- No lost wakeup in `try_lock_or_wait`: while a thread sleeps on `locked`, the word has the flag
    -- that makes the `unlock` of the last node wake the sleepers, or a thread is in that `notify_all`
    -- of its `unlock` already.
    pub no_lost_flag : (j : ℕ) → k.asleep s.mem.waiters j ≡ true → FlagCovers s.mem s.pc
    no_lost_flag = (reached-Covered garbage es).flag

    -- No lost wakeup in `lock`: a thread that sleeps on the mark of a node sleeps on its own, in
    -- the wait of its `lock`; and the node is marked `contended`, which makes the `unlock` that
    -- gives the lock to it call `notify_one`, or a thread is about to make that call.
    pub no_lost_node :
        (n j : ℕ)
        → k.asleep (s.mem.sleepers n) j ≡ true
        → (j ≡ n) × (s.pc n ≡ l_sleep) × MarkCovers s.mem s.pc n
    no_lost_node n j h =
        let v : Covered s = reached-Covered garbage es in
        let e : j ≡ n = v.own n j h in
        let at : k.asleep (s.mem.sleepers n) n ≡ true =
          sym (ap (k.asleep (s.mem.sleepers n)) e) ∙ h in
        (e, v.in_wait n at, v.mark n at)
