-- ===== src/Qd/Linear.antt =====
-- `qdlock_impl`: the one order in which operations take effect.
pub mod Steps
pub mod Order
use qd_library.Prelude.{
  ℕ, suc, ◌+◌, ◌%◌, ◌^◌, ◌≤◌, ◌<◌, ◌≡◌, refl, sym, ap, ◌∙◌, Bool, true, false, Option, none, some,
  ◌⊎◌, inl, inr, List, [], ◌∷◌, ◌++◌, arith, ◌==◌, if◌then◌else◌, Bool-cases,
}
use mathlib.Core.Path.{ap₂}
use mathlib.Core.List.{append-nil, append_assoc, append_cancel_left}
use qd_library.Interleave.{update, State, step}
use qd_library.Lock.{Owner, owns}
use qd_library.Delegate.{StarvationPolicy, goes_on}
use qd_library.Queue.DualBuffer
use qd_library.Queue.DualBuffer.{Wrappers, AtomicInstructionPolicy, DualBufferQueue, e_load}
use qd_library.Queue.DualBuffer.Slots.{calls}
use qd_library.Queue.DualBuffer.Inv.{is_helper}
use qd_library.Qd.{
  QdLock, Call, call_delegate, call_lock, call_unlock, refused, Pc, outside, d_first, d_enqueue,
  d_try, d_last, x_run, x_unlock, h_open, h_run, h_flush, h_unlock, l_lock, held, is_outside,
  succeeds, locks, acquire, release, round, enqueue_step, flush_step, called, operation, next,
}
use qd_library.Qd.View.{at_owner, as_helper, helper_pc, owner-stays, owner-comes, owner-goes}
use qd_library.Qd.Owned.{holds, Owned, locks-free, owns-some}
use qd_library.Qd.Account.{Carries, Enqueued, enqueue-Enqueued}
use qd_library.Qd.Balance.{Agrees}

-- A list grows at its end, by nothing or by the given item.
abbrev pub Grows {ℓ} : {A : Type ℓ} → Option A → List A → List A → Type ℓ
Grows {A = A} o xs ys = (ys ≡ xs) ⊎ ((x : A) × (o ≡ some x) × (ys ≡ xs ++ x ∷ []))

module _ {ℓ} {A : Type ℓ} (executed own own' waits waits' : List A) (x : A) where
  pub runs_alone :
      own ≡ []
      → own' ≡ []
      → waits ≡ []
      → waits' ≡ []
      → (executed ++ x ∷ []) ++ (own' ++ waits') ≡ (executed ++ (own ++ waits)) ++ x ∷ []
  runs_alone o o' e e' =
      rw (o, o', e, e')
        (append-nil (executed ++ x ∷ []) ∙ ap (λ l. l ++ x ∷ []) (sym (append-nil executed)))

  pub opens :
      own ≡ []
      → own' ≡ x ∷ []
      → waits ≡ []
      → waits' ≡ []
      → executed ++ (own' ++ waits') ≡ (executed ++ (own ++ waits)) ++ x ∷ []
  opens o o' e e' = rw (o, o', e, e') (ap (λ l. l ++ x ∷ []) (sym (append-nil executed)))

  pub helper_runs :
      own ≡ x ∷ []
      → own' ≡ []
      → waits' ≡ waits
      → (executed ++ x ∷ []) ++ (own' ++ waits') ≡ executed ++ (own ++ waits)
  helper_runs o o' e = rw (o, o', e) (append_assoc executed (x ∷ []) waits)

  pub waits_longer :
      own' ≡ own
      → waits' ≡ waits ++ x ∷ []
      → executed ++ (own' ++ waits') ≡ (executed ++ (own ++ waits)) ++ x ∷ []
  waits_longer o e =
      rw (o, e)
        (ap (λ l. executed ++ l) (sym (append_assoc own waits (x ∷ [])))
          ∙ sym (append_assoc executed (own ++ waits) (x ∷ [])))

pub flush_calls {ℓ} :
    {A : Type ℓ} (executed own own' waits waits' call : List A)
    → own ≡ []
    → own' ≡ []
    → call ++ waits' ≡ waits
    → (executed ++ call) ++ (own' ++ waits') ≡ executed ++ (own ++ waits)
flush_calls executed own own' waits waits' call o o' e =
    rw (o, o', sym e) (append_assoc executed call waits')

module _ (w : Wrappers) (entries entry_size : ℕ) (policy : AtomicInstructionPolicy)
    (starvation : StarvationPolicy) where
  abbrev turn : ℕ → Call w.Op → QdLock → Pc w.Op → QdLock × Pc w.Op
  turn = next w entries entry_size policy starvation

  -- The operation of the `delegate` that a thread is in.
  abbrev pub delegated : Pc w.Op → Option (ℕ × ℕ)
  delegated (d_first op par) = some (w.address op, par)
  delegated (d_enqueue op par retries p) = some (w.address op, par)
  delegated (d_try op par retries) = some (w.address op, par)
  delegated (d_last op par) = some (w.address op, par)
  delegated (x_run op par) = some (w.address op, par)
  delegated (x_unlock op par) = some (w.address op, par)
  delegated (h_open op par) = some (w.address op, par)
  delegated (h_run op par) = some (w.address op, par)
  delegated (h_flush op par p) = some (w.address op, par)
  delegated (h_unlock op par) = some (w.address op, par)
  delegated p = none

  -- The helper's own operation, from the opening of the queue until it runs it.
  abbrev pub own_operation : Pc w.Op → List (ℕ × ℕ)
  own_operation (h_run op par) = (w.address op, par) ∷ []
  own_operation p = []

  abbrev pub ordered : List (ℕ × ℕ) → List (ℕ × ℕ) → DualBufferQueue → List (ℕ × ℕ)
  ordered executed own q = executed ++ (own ++ calls w.no_op q.pending)

  -- What has been run, then the helper's own operation, then what waits in the queue.
  abbrev pub order : State QdLock (Pc w.Op) → List (ℕ × ℕ)
  order s = ordered s.mem.executed (at_owner own_operation [] s.mem.owner s.pc) s.mem.queue

  -- The queue's books.
  abbrev pub Kept : DualBufferQueue → Type 0
  Kept q = q.accepted ≡ q.log ++ calls w.no_op q.pending

  pub waits_same :
      (q q' : DualBufferQueue)
      → Kept q
      → Kept q'
      → q'.log ≡ q.log
      → q'.accepted ≡ q.accepted
      → calls w.no_op q'.pending ≡ calls w.no_op q.pending
  waits_same q q' k k' l a =
      append_cancel_left q.log _ _
        (ap (λ l. l ++ calls w.no_op q'.pending) (sym l) ∙ sym k' ∙ a ∙ k)

  pub waits_more :
      (q q' : DualBufferQueue) (x : ℕ × ℕ)
      → Kept q
      → Kept q'
      → q'.log ≡ q.log
      → q'.accepted ≡ q.accepted ++ x ∷ []
      → calls w.no_op q'.pending ≡ calls w.no_op q.pending ++ x ∷ []
  waits_more q q' x k k' l a = append_cancel_left q.log _ _ (
      ap (λ l. l ++ calls w.no_op q'.pending) (sym l)
      ∙ sym k'
      ∙ a
      ∙ ap (λ l. l ++ x ∷ []) k
      ∙ append_assoc q.log (calls w.no_op q.pending) (x ∷ []))

  pub waits_less :
      (q q' : DualBufferQueue) (call : List (ℕ × ℕ))
      → Kept q
      → Kept q'
      → q'.log ≡ q.log ++ call
      → q'.accepted ≡ q.accepted
      → call ++ calls w.no_op q'.pending ≡ calls w.no_op q.pending
  waits_less q q' call k k' l a = append_cancel_left q.log _ _ (
      sym (append_assoc q.log call (calls w.no_op q'.pending))
      ∙ ap (λ l. l ++ calls w.no_op q'.pending) (sym l)
      ∙ sym k'
      ∙ a
      ∙ k)

  module _ (s : State QdLock (Pc w.Op)) (own : Owned w entries entry_size policy starvation s)
      (i : ℕ) (kept : Kept s.mem.queue)
      (quiet : is_helper (helper_pc s.mem.owner s.pc) ≡ false → s.mem.queue.pending ≡ []) where
    abbrev pub owned : Owner → (ℕ → Pc w.Op) → List (ℕ × ℕ)
    owned o pc = at_owner own_operation [] o pc

    abbrev pub Next : QdLock × Pc w.Op → Type 0
    Next (m', p') =
        Grows (delegated (s.pc i)) (order s)
          (ordered m'.executed (owned m'.owner (update s.pc i p')) m'.queue)

    pub still :
        (m' : QdLock) (p' : Pc w.Op)
        → m'.executed ≡ s.mem.executed
        → owned m'.owner (update s.pc i p') ≡ owned s.mem.owner s.pc
        → calls w.no_op m'.queue.pending ≡ calls w.no_op s.mem.queue.pending
        → Next (m', p')
    still m' p' e o q = inl (ap₂ ◌++◌ e (ap₂ ◌++◌ o q))

    pub idles :
        (p p' : Pc w.Op) (m' : QdLock)
        → s.pc i ≡ p
        → m'.executed ≡ s.mem.executed
        → calls w.no_op m'.queue.pending ≡ calls w.no_op s.mem.queue.pending
        → m'.owner ≡ s.mem.owner
        → own_operation p' ≡ own_operation p
        → Next (m', p')
    idles p p' m' e x q o h =
        still m' p' x
          (ap (λ o. owned o (update s.pc i p')) o
            ∙ owner-stays own_operation [] s.mem.owner s.pc i p' (h ∙ sym (ap own_operation e)))
          q

    pub tries_lock :
        (c : Call w.Op) (got otherwise : Pc w.Op)
        → own_operation got ≡ []
        → Next (s.mem, otherwise)
        → Next (acquire i c s.mem got otherwise)
    tries_lock c got otherwise h o = elim (Bool-cases (locks c s.mem)) [
      | inl l ↦ rw l (
          still (record (s.mem) { owner = some i }) got refl
            (owner-comes own_operation [] s.mem.owner s.pc i got (locks-free c s.mem l) h) refl)
      | inr l ↦ rw l o
    ]

    pub rounds :
        (p : Pc w.Op) (op : w.Op) (par retries : ℕ)
        → s.pc i ≡ p
        → own_operation p ≡ []
        → Next (s.mem, round w entries entry_size policy starvation op par retries)
    rounds p op par retries e h = elim (Bool-cases (goes_on starvation retries)) [
      | inl g ↦
          rw g (idles p (d_enqueue op par retries (e_load op par)) s.mem e refl refl refl (sym h))
      | inr g ↦ rw g (idles p (d_last op par) s.mem e refl refl refl (sym h))
    ]

    pub mine : (p : Pc w.Op) → s.pc i ≡ p → holds p ≡ true → s.mem.owner ≡ some i
    mine p e h = owns-some s.mem.owner i (sym (own i) ∙ ap holds e ∙ h)

    -- What the thread itself is given, if it has the mutex.
    pub now : (p : Pc w.Op) → s.pc i ≡ p → holds p ≡ true → owned s.mem.owner s.pc ≡ own_operation p
    now p e h = ap (λ o. owned o s.pc) (mine p e h) ∙ ap own_operation e

    pub then_ :
        (p p' : Pc w.Op)
        → s.pc i ≡ p
        → holds p ≡ true
        → owned s.mem.owner (update s.pc i p') ≡ own_operation p'
    then_ p p' e h = ap (λ o. owned o (update s.pc i p')) (mine p e h) ∙ ground arith

    -- Outside of `open` and `flush` nothing waits in the queue.
    pub nothing_waits :
        (p : Pc w.Op)
        → s.pc i ≡ p
        → holds p ≡ true
        → is_helper (as_helper p) ≡ false
        → calls w.no_op s.mem.queue.pending ≡ []
    nothing_waits p e h g = ap (calls w.no_op) (
        quiet (
          ap (λ o. is_helper (helper_pc o s.pc)) (mine p e h)
          ∙ ap (λ p. is_helper (as_helper p)) e
          ∙ g))

    pub leaves :
        (p : Pc w.Op) (m' : QdLock)
        → s.pc i ≡ p
        → holds p ≡ true
        → m'.executed ≡ s.mem.executed
        → m'.queue ≡ s.mem.queue
        → m'.owner ≡ none
        → own_operation p ≡ []
        → Next (m', outside)
    leaves p m' e a x q o h =
        still m' outside x
          (ap (λ o. owned o (update s.pc i outside)) o
            ∙ owner-goes own_operation [] s.mem.owner s.pc i (mine p e a) (ap own_operation e ∙ h))
          (ap (λ q. calls w.no_op q.pending) q)
