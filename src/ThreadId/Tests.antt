-- ===== src/ThreadId/Tests.antt =====
-- threadid.hpp: three threads start, and the second one ends.
use qd_library.Prelude.{◌<◌, ◌+◌, ◌≡◌, refl, List, [], ◌∷◌, length, arith}
use qd_library.ThreadId.{word, get, shrink, free, get_from}
use qd_library.ThreadId.IdSet.{contains, insert}
use qd_library.ThreadId.Inv.{IsLeastFree}
use qd_library.ThreadId.History.{
  Event, start, stop, no_threads, construct, destruct, happen, history, get-history,
}

abbrev three_starts : List Event
three_starts = start ∷ start ∷ start ∷ stop 2 ∷ []

short : length three_starts + 1 < word
short = omega arith

-- The number 2 is used again.
reused : (get (history no_threads three_starts).store).0 ≡ 2
unfolding history happen construct destruct get get_from free shrink contains insert
reused = refl

get-history_example :
    IsLeastFree
      (history no_threads three_starts).live
      (get (history no_threads three_starts).store).0
get-history_example = get-history three_starts short
