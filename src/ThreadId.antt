-- ===== src/ThreadId.antt =====
-- threadid.hpp: the store that hands out small thread numbers.
-- The calls of `thread_id_store` run under its mutex, so each is one step.
pub mod IdSet
pub mod Inv
pub mod History
mod Tests
use qd_library.Prelude.{
  ℕ, zero, suc, ◌+◌, ◌-◌, ◌%◌, ◌^◌, Bool, true, false, List, [], ◌∷◌, length, ◌==◌, if◌then◌else◌,
}
use IdSet.{contains, erase, insert}

-- The two static members; `orphans` is a `std::set`, kept as a strictly increasing list.
pub record ThreadIdStore : Type 0 where
  pub max_id : ℕ
  pub orphans : List ℕ

-- `unsigned long`
abbrev pub word : ℕ
word = 2 ^ 64

abbrev pub fresh_store : ThreadIdStore
fresh_store = record { max_id = 0; orphans = [] }

get_from : ℕ → List ℕ → ℕ × ThreadIdStore
get_from m [] = ((m + 1) % word, record { max_id = (m + 1) % word; orphans = [] })
get_from m (first ∷ rest) = (first, record { max_id = m; orphans = rest })

-- `thread_id_store::get`
pub get : ThreadIdStore → ℕ × ThreadIdStore
unfolding get_from
get s = get_from s.max_id s.orphans

-- `max_id--`
abbrev pub decrement : ℕ → ℕ
decrement m = (m + word - 1) % word

-- `while(orphans.erase(max_id)) { max_id--; }`: each round but the last takes an orphan away, so
-- the number of orphans is enough fuel.
pub shrink : ℕ → ℕ → List ℕ → ThreadIdStore
shrink zero m os = record { max_id = m; orphans = os }
shrink (suc fuel) m os = elim (contains m os) [
  | true ↦ shrink fuel (decrement m) (erase m os)
  | false ↦ record { max_id = m; orphans = os }
]

-- `thread_id_store::free`
pub free : ThreadIdStore → ℕ → ThreadIdStore
free s idx =
    if idx == s.max_id
    then shrink (length s.orphans) (decrement s.max_id) s.orphans
    else record s { orphans = insert idx s.orphans }
