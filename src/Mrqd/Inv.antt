-- ===== src/Mrqd/Inv.antt =====
-- mrqdlock.hpp: the counters count the readers, and a writer that has passed a counter keeps the
-- readers of its group out.
use qd_library.Prelude.{
  ℕ, ◌+◌, ◌^◌, ◌≤◌, ◌<◌, ◌≡◌, ◌⊎◌, Bool, true, false, ◌==◌, if◌then◌else◌, Option, none, some,
  arith,
}
use qd_library.Lock.{IsLock, Change}
use qd_library.Mrqd.{
  positive, MrqdLock, Call, call_lock, call_unlock, call_rlock, call_runlock, queued, Pc, outside,
  w_barrier, w_mutex, w_query, inside, r_arrive, r_test, r_depart, r_wait, r_raise, r_lower,
  reading, next,
}

abbrev pub holds : Pc → Bool
holds (w_query g) = true
holds inside = true
holds _ = false

-- A reader counts in its group from `arrive` to `depart`.
abbrev pub arrived : ℕ → Pc → ℕ
arrived g (r_test k patience raised) = if k == g then 1 else 0
arrived g (r_depart k patience raised) = if k == g then 1 else 0
arrived g (r_lower k) = if k == g then 1 else 0
arrived g (reading k) = if k == g then 1 else 0
arrived g _ = 0

abbrev pub bit : Bool → ℕ
bit b = if b then 1 else 0

-- A reader that has raised the barrier and not lowered it.
abbrev pub raises : Pc → ℕ
raises (r_arrive patience raised) = bit raised
raises (r_test k patience raised) = bit raised
raises (r_depart k patience raised) = bit raised
raises (r_wait patience raised) = bit raised
raises (r_lower k) = 1
raises _ = 0

-- A reader that has found the mutex free.
abbrev pub passed : Pc → Option ℕ
passed (r_lower g) = some g
passed (reading g) = some g
passed _ = none

module _ (groups limit : ℕ) where
  -- The counters that a writer has found at zero.
  abbrev pub scanned : Pc → ℕ
  scanned (w_query g) = g
  scanned inside = groups
  scanned _ = 0

  change :
      (i : ℕ) (c : Call) (m : MrqdLock) (p : Pc)
      → Change m.locked
          (holds p)
          (next groups limit i c m p).0.locked
          (holds (next groups limit i c m p).1)
  unfolding next
  change i call_lock m outside = ground arith
  change i call_rlock m outside = ground arith
  change i c m w_barrier = ground arith
  change i queued m w_mutex = ground arith
  change i c m w_mutex = ground arith
  change i c m (w_query g) = ground arith
  change i call_unlock m inside = ground arith
  change i call_runlock m (reading g) = ground arith
  change i c m p = ground arith

  pub mrqd-IsLock : IsLock (next groups limit) (λ m. m.locked) holds
  mrqd-IsLock = record { change = change }

  -- What one step does to the counts.
  pub record Counted (m : MrqdLock) (p : Pc) (m' : MrqdLock) (p' : Pc) : Type 0 where
    pub readers : (g : ℕ) → m'.counters g + arrived g p ≡ m.counters g + arrived g p'
    pub barrier : m'.write_barrier + raises p ≡ m.write_barrier + raises p'

  -- What one step does to the readers and to the writer.
  pub record Fair (m : MrqdLock) (p p' : Pc) : Type 0 where
    pub enters : (g : ℕ) → passed p' ≡ some g → (passed p ≡ some g) ⊎ (m.locked ≡ false)
    pub looks :
        (scanned p' ≤ scanned p)
        ⊎ ((scanned p' ≡ scanned p + 1) × (positive (m.counters (scanned p)) ≡ false))

  pub fair : (i : ℕ) (c : Call) (m : MrqdLock) (p : Pc) → Fair m p (next groups limit i c m p).1
  unfolding next
  fair i call_lock m outside = record { enters = λ a e. ground arith; looks = ground arith }
  fair i call_rlock m outside = record { enters = λ a e. ground arith; looks = ground arith }
  fair i c m w_barrier = record { enters = λ a e. ground arith; looks = ground arith }
  fair i queued m w_mutex = record { enters = λ a e. ground arith; looks = ground arith }
  fair i c m w_mutex = record { enters = λ a e. ground arith; looks = ground arith }
  fair i c m (w_query g) = record { enters = λ a e. ground arith; looks = ground arith }
  fair i call_unlock m inside = record { enters = λ a e. ground arith; looks = ground arith }
  fair i c m (r_arrive patience raised) = record {
    enters = λ a e. ground arith;
    looks = ground arith;
  }
  fair i c m (r_test g patience raised) = record {
    enters = λ a e. ground arith;
    looks = ground arith;
  }
  fair i c m (r_depart g patience raised) = record {
    enters = λ a e. ground arith;
    looks = ground arith;
  }
  fair i c m (r_wait patience raised) = record {
    enters = λ a e. ground arith;
    looks = ground arith;
  }
  fair i c m (r_raise patience) = record { enters = λ a e. ground arith; looks = ground arith }
  fair i c m (r_lower g) = record { enters = λ a e. ground arith; looks = ground arith }
  fair i call_runlock m (reading g) = record { enters = λ a e. ground arith; looks = ground arith }
  fair i c m p = record { enters = λ a e. ground arith; looks = ground arith }

  pub counted :
      (i : ℕ) (c : Call) (m : MrqdLock) (p : Pc)
      → ((g : ℕ) → (arrived g p ≤ m.counters g) × (m.counters g < 2 ^ 31))
      → raises p ≤ m.write_barrier
      → m.write_barrier < 2 ^ 31
      → Counted m p (next groups limit i c m p).0 (next groups limit i c m p).1
  unfolding next
  counted i call_lock m outside h k l = record {
    readers = λ a. ground (arith, h a);
    barrier = ground arith;
  }
  counted i call_rlock m outside h k l = record {
    readers = λ a. ground (arith, h a);
    barrier = ground arith;
  }
  counted i c m w_barrier h k l = record {
    readers = λ a. ground (arith, h a);
    barrier = ground arith;
  }
  counted i queued m w_mutex h k l = record {
    readers = λ a. ground (arith, h a);
    barrier = ground arith;
  }
  counted i c m w_mutex h k l = record {
    readers = λ a. ground (arith, h a);
    barrier = ground arith;
  }
  counted i c m (w_query g) h k l = record {
    readers = λ a. ground (arith, h a);
    barrier = ground arith;
  }
  counted i call_unlock m inside h k l = record {
    readers = λ a. ground (arith, h a);
    barrier = ground arith;
  }
  counted i c m (r_arrive patience raised) h k l = record {
    readers = λ a. ground (arith, h a);
    barrier = ground arith;
  }
  counted i c m (r_test g patience raised) h k l = record {
    readers = λ a. ground (arith, h a);
    barrier = ground arith;
  }
  counted i c m (r_depart g patience raised) h k l = record {
    readers = λ a. ground (arith, h a);
    barrier = ground arith;
  }
  counted i c m (r_wait patience raised) h k l = record {
    readers = λ a. ground (arith, h a);
    barrier = ground arith;
  }
  counted i c m (r_raise patience) h k l = record {
    readers = λ a. ground (arith, h a);
    barrier = ground arith;
  }
  counted i c m (r_lower g) h k l = record {
    readers = λ a. ground (arith, h a);
    barrier = ground arith;
  }
  counted i call_runlock m (reading g) h k l = record {
    readers = λ a. ground (arith, h a);
    barrier = ground arith;
  }
  counted i c m p h k l = record { readers = λ a. ground (arith, h a); barrier = ground arith }
