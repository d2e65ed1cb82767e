-- ===== src/ThreadId/History.antt =====
-- threadid.hpp, `thread_id_t`: its constructor takes a number from the store when a thread starts,
-- and its destructor gives it back when the thread ends.
use qd_library.Prelude.{
  ℕ, zero, suc, ◌+◌, ◌≤◌, ◌<◌, ◌≡◌, true, List, [], ◌∷◌, arith, length, if◌then◌else◌, Bool-cases,
  inl, inr,
}
use qd_library.ThreadId.{ThreadIdStore, word, fresh_store, get, free, shrink, decrement, get_from}
use qd_library.ThreadId.IdSet.{contains, erase, Above, count-below, contains-count, erase-Above}
use qd_library.ThreadId.Inv.{Inv, IsLeastFree, Inv-fresh, get-Inv, free-Inv, get-IsLeastFree}

pub data Event : Type 0 where
  start : Event
  stop : ℕ → Event

-- The store, and the numbers that the living `thread_id_t` objects hold.
pub record Threads : Type 0 where
  pub store : ThreadIdStore
  pub live : List ℕ

abbrev pub no_threads : Threads
no_threads = record { store = fresh_store; live = [] }

-- `thread_id_t::thread_id_t`
unfoldable pub construct : Threads → Threads
construct t = record { store = (get t.store).1; live = (get t.store).0 ∷ t.live }

-- `thread_id_t::~thread_id_t`
unfoldable pub destruct : Threads → ℕ → Threads
destruct t id = record { store = free t.store id; live = erase id t.live }

-- Only a living object is destroyed.
unfoldable pub happen : Threads → Event → Threads
unfolding construct destruct
happen t start = construct t
happen t (stop id) = if contains id t.live then destruct t id else t

unfoldable pub history : Threads → List Event → Threads
history t [] = t
history t (e ∷ es) = history (happen t e) es

max_id-get : (s : ThreadIdStore) → s.max_id + 1 < word → (get s).1.max_id ≤ s.max_id + 1
unfolding get get_from
max_id-get s h = go s.orphans
  where
    go : (os : List ℕ) → (get_from s.max_id os).1.max_id ≤ s.max_id + 1
    go [] = omega arith
    go (x ∷ xs) = omega arith

max_id-shrink : (fuel m : ℕ) (os : List ℕ) → m < word → Above 0 os → (shrink fuel m os).max_id ≤ m
unfolding shrink
max_id-shrink zero m os h a = omega arith
max_id-shrink (suc fuel) m os h a = elim (Bool-cases (contains m os)) [
  | inl old ↦
      let pos : decrement m + 1 ≡ m = ground (arith, contains-count m os, count-below 0 m os a) in
      rw (old, shrink)
        (omega (
          arith,
          max_id-shrink fuel (decrement m) (erase m os) (omega arith) (erase-Above 0 m os a),
        ))
  | inr new ↦ rw (new, shrink) (omega arith)
]

max_id-free :
    (s : ThreadIdStore) (live : List ℕ) (idx : ℕ)
    → Inv s live
    → contains idx live ≡ true
    → (free s idx).max_id ≤ s.max_id
unfolding free
max_id-free s live idx v h = ground (
  arith,
  v.parts idx,
  contains-count idx live,
  v.small,
  max_id-shrink (length s.orphans) (decrement s.max_id) s.orphans (omega arith) v.sorted,
)

-- What a history keeps, where `n` events have still to come.
abbrev Good : ℕ → Threads → Type 0
Good n t = Inv t.store t.live × (t.store.max_id + n + 1 < word)

happen-Good : (n : ℕ) (t : Threads) (e : Event) → Good (suc n) t → Good n (happen t e)
unfolding happen
happen-Good n t start (v, h) =
    (get-Inv t.store t.live (omega arith) v, omega (arith, max_id-get t.store (omega arith)))
happen-Good n t (stop id) (v, h) = elim (Bool-cases (contains id t.live)) [
  | inl runs ↦
      rw runs
        (free-Inv t.store t.live id v runs, omega (arith, max_id-free t.store t.live id v runs))
  | inr absent ↦ rw absent (v, omega arith)
]

history-Good : (t : Threads) (es : List Event) → Good (length es) t → Good 0 (history t es)
unfolding history
history-Good t [] g = g
history-Good t (e ∷ es) g = history-Good (happen t e) es (happen-Good (length es) t e g)

-- After any history of at most 2 ^ 64 - 2 thread starts and ends, the numbers of the living
-- threads and the orphans together are exactly 1 to `max_id`, each once.
history-Inv :
    (es : List Event)
    → length es + 1 < word
    → Inv (history no_threads es).store (history no_threads es).live
history-Inv es h = (history-Good no_threads es (Inv-fresh, omega arith)).0

-- After any history of at most 2 ^ 64 - 2 thread starts and ends, a starting thread gets the least number from 1 on that no living
-- thread has.
pub get-history :
    (es : List Event)
    → length es + 1 < word
    → IsLeastFree (history no_threads es).live (get (history no_threads es).store).0
get-history es h =
    let (v, room) = history-Good no_threads es (Inv-fresh, omega arith) in
    get-IsLeastFree _ _ (omega arith) v
