-- ===== src/Qd/Seen.antt =====
-- `qdlock_impl`: what a step of a thread of each kind is to the queue.
use qd_library.Prelude.{
  ℕ, suc, ◌≡◌, refl, sym, ap, ◌∙◌, true, none, some, inl, inr, [], ◌∷◌, Bool-cases,
}
use mathlib.Core.Path.{ap₂}
use qd_library.Interleave.{update, State, step, run}
use qd_library.Lock.{Owner}
use qd_library.Delegate.{StarvationPolicy, goes_on}
use qd_library.Queue.DualBuffer
use qd_library.Queue.DualBuffer.{Wrappers, AtomicInstructionPolicy, DualBufferQueue}
use qd_library.Qd.{QdLock, Call, Pc, outside, d_enqueue, d_last, locks, acquire, round, next}
use qd_library.Qd.Owned.{holds, Owned, locks-free, owns-some}
use qd_library.Qd.View.{
  as_helper, as_enqueuer, helper_pc, queue_pc, queue_pc-still, queue_pc-enqueuer, queue_pc-helper,
  owner-stays, owner-comes, owner-goes, events,
}

module _ (w : Wrappers) (entries entry_size : ℕ) (policy : AtomicInstructionPolicy)
    (starvation : StarvationPolicy) where
  abbrev pub turn : ℕ → Call w.Op → QdLock → Pc w.Op → QdLock × Pc w.Op
  turn = next w entries entry_size policy starvation

  abbrev pub queue_turn :
      ℕ
      → DualBuffer.Call w.Op
      → DualBufferQueue
      → DualBuffer.Pc w.Op
      → DualBufferQueue × DualBuffer.Pc w.Op
  queue_turn = DualBuffer.next w entries entry_size policy

  abbrev Queue : Type 0
  Queue = State DualBufferQueue (DualBuffer.Pc w.Op)

  abbrev pub queue_of : State QdLock (Pc w.Op) → Queue
  queue_of s = record { mem = s.mem.queue; pc = queue_pc s.mem.owner s.pc }

  abbrev state : DualBufferQueue → (ℕ → DualBuffer.Pc w.Op) → Queue
  state q pc = record { mem = q; pc = pc }

  one_event :
      (q : DualBufferQueue) (pc : ℕ → DualBuffer.Pc w.Op) (j : ℕ) (c : DualBuffer.Call w.Op)
      (p : DualBuffer.Pc w.Op)
      → pc j ≡ p
      → run queue_turn (state q pc) ((j, c) ∷ [])
        ≡ state (queue_turn j c q p).0 (update pc j (queue_turn j c q p).1)
  unfolding run step
  one_event q pc j c p e =
      ap (λ p. state (queue_turn j c q p).0 (update pc j (queue_turn j c q p).1)) e

  abbrev pub Seen : State QdLock (Pc w.Op) → ℕ → DualBufferQueue → Owner → Pc w.Op → Type 0
  Seen s i q o p' =
      state q (queue_pc o (update s.pc i p')) ≡ run queue_turn (queue_of s) (events i (s.pc i) p')

  abbrev pub SeenTurn : State QdLock (Pc w.Op) → ℕ → QdLock × Pc w.Op → Type 0
  SeenTurn s i (m', p') = Seen s i m'.queue m'.owner p'

  module _ (s : State QdLock (Pc w.Op)) (own : Owned w entries entry_size policy starvation s)
      (i : ℕ) where
    pub unseen :
        (q' : DualBufferQueue) (o' : Owner) (p' : Pc w.Op)
        → events i (s.pc i) p' ≡ []
        → q' ≡ s.mem.queue
        → helper_pc o' (update s.pc i p') ≡ helper_pc s.mem.owner s.pc
        → as_enqueuer p' ≡ as_enqueuer (s.pc i)
        → Seen s i q' o' p'
    unfolding run
    unseen q' o' p' nil q h e =
        ap₂ state q (queue_pc-still s.mem.owner o' s.pc i p' h e)
        ∙ ap (run queue_turn (queue_of s)) (sym nil)

    pub seen :
        (j : ℕ) (c : DualBuffer.Call w.Op) (p x : DualBuffer.Pc w.Op) (q' : DualBufferQueue)
        (o' : Owner) (p' : Pc w.Op)
        → events i (s.pc i) p' ≡ (j, c) ∷ []
        → queue_pc s.mem.owner s.pc j ≡ p
        → queue_turn j c s.mem.queue p ≡ (q', x)
        → queue_pc o' (update s.pc i p') ≡ update (queue_pc s.mem.owner s.pc) j x
        → Seen s i q' o' p'
    seen j c p x q' o' p' v e r h =
        ap (state q') h
        ∙ ap (λ r. state r.0 (update (queue_pc s.mem.owner s.pc) j r.1)) (sym r)
        ∙ sym (one_event s.mem.queue (queue_pc s.mem.owner s.pc) j c p e)
        ∙ ap (run queue_turn (queue_of s)) (sym v)

    pub mine : holds (s.pc i) ≡ true → s.mem.owner ≡ some i
    mine h = owns-some s.mem.owner i (sym (own i) ∙ h)

    -- An attempt to lock.
    pub tries_lock :
        (c : Call w.Op) (got otherwise : Pc w.Op)
        → events i (s.pc i) got ≡ []
        → as_helper got ≡ DualBuffer.outside
        → as_enqueuer got ≡ as_enqueuer (s.pc i)
        → Seen s i s.mem.queue s.mem.owner otherwise
        → SeenTurn s i (acquire i c s.mem got otherwise)
    tries_lock c got otherwise nil h e o = elim (Bool-cases (locks c s.mem)) [
      | inl l ↦ rw l (
          unseen s.mem.queue (some i) got nil refl
            (owner-comes as_helper DualBuffer.outside s.mem.owner s.pc i got (locks-free c s.mem l)
              h)
            e)
      | inr l ↦ rw l o
    ]

    -- A step of `enqueue`.
    pub enqueues :
        (c : DualBuffer.Call w.Op) (p : DualBuffer.Pc w.Op) (q' : DualBufferQueue) (o' : Owner)
        (p' : Pc w.Op)
        → events i (s.pc i) p' ≡ (suc i, c) ∷ []
        → as_enqueuer (s.pc i) ≡ p
        → queue_turn (suc i) c s.mem.queue p ≡ (q', as_enqueuer p')
        → o' ≡ s.mem.owner
        → as_helper p' ≡ as_helper (s.pc i)
        → Seen s i q' o' p'
    enqueues c p q' o' p' v e r o h = seen (suc i) c p (as_enqueuer p') q' o' p' v e r (
        queue_pc-enqueuer s.mem.owner o' s.pc i p' (
          ap (λ o. helper_pc o (update s.pc i p')) o
          ∙ owner-stays as_helper DualBuffer.outside s.mem.owner s.pc i p' h))

    -- A step of the helper in the queue.
    pub helps :
        (c : DualBuffer.Call w.Op) (p : DualBuffer.Pc w.Op) (q' : DualBufferQueue) (o' : Owner)
        (p' : Pc w.Op)
        → holds (s.pc i) ≡ true
        → events i (s.pc i) p' ≡ (0, c) ∷ []
        → as_helper (s.pc i) ≡ p
        → queue_turn 0 c s.mem.queue p ≡ (q', as_helper p')
        → o' ≡ s.mem.owner
        → as_enqueuer p' ≡ as_enqueuer (s.pc i)
        → Seen s i q' o' p'
    helps c p q' o' p' a v e r o h =
        seen 0 c p (as_helper p') q' o' p' v (ap (λ o. helper_pc o s.pc) (mine a) ∙ e) r (
          ap (λ o. queue_pc o (update s.pc i p')) o
          ∙ queue_pc-helper s.mem.owner s.pc i p' (mine a) h)

    -- The next round of `delegate`, or what follows the loop.
    pub rounds :
        (p : Pc w.Op) (op : w.Op) (par retries : ℕ)
        → s.pc i ≡ p
        → events i p (d_last op par) ≡ []
        → events i p (d_enqueue op par retries (DualBuffer.e_load op par))
          ≡ (suc i, DualBuffer.call_enqueue op par) ∷ []
        → as_enqueuer p ≡ DualBuffer.outside
        → as_helper p ≡ DualBuffer.outside
        → Seen s i s.mem.queue s.mem.owner
            (round w entries entry_size policy starvation op par retries)
    unfolding DualBuffer.next
    rounds p op par retries e last begin q h = elim (Bool-cases (goes_on starvation retries)) [
      | inl g ↦
          let p' : Pc w.Op = d_enqueue op par retries (DualBuffer.e_load op par) in
          rw g (
            enqueues (DualBuffer.call_enqueue op par) DualBuffer.outside s.mem.queue s.mem.owner p'
              (ap (λ p. events i p p') e ∙ begin) (ap as_enqueuer e ∙ q) refl refl
              (sym (ap as_helper e ∙ h)))
      | inr g ↦ rw g (
          unseen s.mem.queue s.mem.owner (d_last op par)
            (ap (λ p. events i p (d_last op par)) e ∙ last) refl
            (owner-stays as_helper DualBuffer.outside s.mem.owner s.pc i (d_last op par)
              (sym (ap as_helper e ∙ h)))
            (sym (ap as_enqueuer e ∙ q)))
    ]

    -- A step that the queue does not see, of a thread that keeps the mutex or stays without it.
    pub idles :
        (p p' : Pc w.Op) (q' : DualBufferQueue) (o' : Owner)
        → s.pc i ≡ p
        → events i p p' ≡ []
        → q' ≡ s.mem.queue
        → o' ≡ s.mem.owner
        → as_helper p' ≡ as_helper p
        → as_enqueuer p' ≡ as_enqueuer p
        → Seen s i q' o' p'
    idles p p' q' o' e nil q o h a =
        unseen q' o' p' (ap (λ p. events i p p') e ∙ nil) q
          (ap (λ o. helper_pc o (update s.pc i p')) o
            ∙ owner-stays as_helper DualBuffer.outside s.mem.owner s.pc i p'
                (h ∙ sym (ap as_helper e)))
          (a ∙ sym (ap as_enqueuer e))

    -- The unlock of the mutex.
    pub leaves :
        (p : Pc w.Op) (q' : DualBufferQueue) (o' : Owner)
        → s.pc i ≡ p
        → holds p ≡ true
        → events i p outside ≡ []
        → q' ≡ s.mem.queue
        → o' ≡ none
        → as_helper p ≡ DualBuffer.outside
        → as_enqueuer p ≡ DualBuffer.outside
        → Seen s i q' o' outside
    leaves p q' o' e a nil q o h x =
        unseen q' o' outside (ap (λ p. events i p outside) e ∙ nil) q
          (ap (λ o. helper_pc o (update s.pc i outside)) o
            ∙ owner-goes as_helper DualBuffer.outside s.mem.owner s.pc i (mine (ap holds e ∙ a))
                (ap as_helper e ∙ h))
          (sym (ap as_enqueuer e ∙ x))
