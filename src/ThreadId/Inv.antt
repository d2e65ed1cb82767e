-- ===== src/ThreadId/Inv.antt =====
-- threadid.hpp: the numbers of the live threads and the orphans together are 1 to `max_id`.
use qd_library.Prelude.{
  ℕ, zero, suc, ◌+◌, ◌≤◌, ◌<◌, ◌≡◌, refl, true, ◌&&◌, List, [], ◌∷◌, arith, length, count, leb,
  ◌==◌, if◌then◌else◌, Bool-cases, inl, inr,
}
use qd_library.ThreadId.{ThreadIdStore, word, fresh_store, get, free, shrink, decrement, get_from}
use qd_library.ThreadId.IdSet.{
  contains, erase, Above, count-below, Above-mono, contains-count, count-erase, length-erase,
  erase-Above, count-insert, insert-Above,
}

-- One for the numbers in use up to `m`, and zero elsewhere.
abbrev pub in_use : ℕ → ℕ → ℕ
in_use m j = if leb 1 j && leb j m then 1 else 0

-- `live` holds the numbers of the threads that run.
pub record Inv (s : ThreadIdStore) (live : List ℕ) : Type 0 where
  pub small : s.max_id < word
  pub sorted : Above 0 s.orphans
  pub top : count s.max_id s.orphans ≡ 0
  pub parts : (j : ℕ) → count j live + count j s.orphans ≡ in_use s.max_id j

-- The least number from 1 on that no thread of `live` has.
pub record IsLeastFree (live : List ℕ) (r : ℕ) : Type 0 where
  pub positive : 1 ≤ r
  pub unused : count r live ≡ 0
  pub least : (j : ℕ) → 1 ≤ j → j < r → count j live ≡ 1

pub Inv-fresh : Inv fresh_store []
Inv-fresh = record { small = omega arith; sorted = tt; top = refl; parts = λ j. ground arith }

get_from-Inv :
    (m : ℕ) (os live : List ℕ)
    → m + 1 < word
    → Inv (record { max_id = m; orphans = os }) live
    → Inv (get_from m os).1 ((get_from m os).0 ∷ live)
unfolding get_from
get_from-Inv m [] live h v = record {
  small = omega arith;
  sorted = tt;
  top = refl;
  parts = λ j. ground (arith, v.parts j);
}
get_from-Inv m (x ∷ xs) live h v = record {
  small = v.small;
  sorted = Above-mono 0 x xs (omega arith) v.sorted.1;
  top = ground (arith, v.top);
  parts = λ j. ground (arith, v.parts j);
}

get_from-IsLeastFree :
    (m : ℕ) (os live : List ℕ)
    → m + 1 < word
    → Inv (record { max_id = m; orphans = os }) live
    → IsLeastFree live (get_from m os).0
unfolding get_from
get_from-IsLeastFree m [] live h v = record {
  positive = omega arith;
  unused = ground (arith, v.parts (m + 1));
  least = λ j p q. ground (arith, v.parts j);
}
get_from-IsLeastFree m (x ∷ xs) live h v = record {
  positive = v.sorted.0;
  unused = ground (arith, v.parts x);
  least = λ j p q. ground (arith, v.parts j, v.parts x, count-below x j xs v.sorted.1);
}

pub get-Inv :
    (s : ThreadIdStore) (live : List ℕ)
    → s.max_id + 1 < word
    → Inv s live
    → Inv (get s).1 ((get s).0 ∷ live)
unfolding get
get-Inv s live h v = get_from-Inv s.max_id s.orphans live h v

pub get-IsLeastFree :
    (s : ThreadIdStore) (live : List ℕ)
    → s.max_id + 1 < word
    → Inv s live
    → IsLeastFree live (get s).0
unfolding get
get-IsLeastFree s live h v = get_from-IsLeastFree s.max_id s.orphans live h v

-- The loop from a state that may have its highest numbers among the orphans.
shrink-Inv :
    (fuel m : ℕ) (os live : List ℕ)
    → length os ≤ fuel
    → m < word
    → Above 0 os
    → ((j : ℕ) → count j live + count j os ≡ in_use m j)
    → Inv (shrink fuel m os) live
unfolding shrink
shrink-Inv zero m [] live f h a p = record { small = h; sorted = tt; top = refl; parts = p }
shrink-Inv zero m (x ∷ os) live f h a p = absurd (omega arith)
shrink-Inv (suc fuel) m os live f h a p = elim (Bool-cases (contains m os)) [
  | inl old ↦
      rw (old, shrink)
        (shrink-Inv fuel (decrement m) (erase m os) live (omega (arith, length-erase m os old))
          (omega arith) (erase-Above 0 m os a)
          (λ j.
            ground (
              arith,
              p j,
              p m,
              contains-count m os,
              count-erase m j os old,
              count-erase m m os old,
            )))
  | inr new ↦
      rw (new, shrink)
        (record { small = h; sorted = a; top = ground (arith, contains-count m os); parts = p })
]

pub free-Inv :
    (s : ThreadIdStore) (live : List ℕ) (idx : ℕ)
    → Inv s live
    → contains idx live ≡ true
    → Inv (free s idx) (erase idx live)
unfolding free
free-Inv s live idx v h = elim (Bool-cases (idx == s.max_id)) [
  | inl last ↦ rw last (
      shrink-Inv (length s.orphans) (decrement s.max_id) s.orphans (erase idx live) (omega arith)
        (omega arith) v.sorted
        (λ j. ground (
          arith,
          v.parts j,
          v.parts idx,
          v.top,
          contains-count idx live,
          count-erase idx j live h,
        )))
  | inr inner ↦ rw inner (record {
    small = v.small;
    sorted =
        insert-Above 0 idx s.orphans (ground (arith, v.parts idx, contains-count idx live))
          v.sorted;
    top =
        ground
          (arith, v.top, v.parts idx, contains-count idx live, count-insert idx s.max_id s.orphans);
    parts = λ j. ground (
      arith,
      v.parts j,
      v.parts idx,
      contains-count idx live,
      count-erase idx j live h,
      count-insert idx j s.orphans,
    );
  })
]
