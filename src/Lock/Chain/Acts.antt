-- ===== src/Lock/Chain/Acts.antt =====
-- Each act on the chain of nodes keeps its invariant.
use qd_library.Prelude.{ℕ, ◌+◌, ◌-◌, ◌<◌, ◌≡◌, refl, none, some, arith}
use qd_library.Interleave.{update}
use qd_library.Lock.Chain.{
  Turns, Chain, Stage, Act, nothing, come_first, come_after, mark, link, notice, leave_last,
  see_next, find_next, give, reset, source, target, Guard, effect,
}
use qd_library.Lock.Chain.Inv.{Inv}

module _ (c : Chain) (st : ℕ → Stage) (v : Inv c st) (i : ℕ) where
  abbrev Kept : Act → Type 0
  Kept a = st i ≡ source a → Guard i a c → Inv (effect i a c) (update st i (target a))

  abbrev t : Turns
  t = c.turns

  vacant : c.tail ≡ none → t.served ≡ t.taken
  vacant h = ground (arith, v.ord, v.last (t.taken - 1))

  -- The last to come is the one that the tail names.
  tail_is :
      (p : ℕ) → c.tail ≡ some p → (t.served < t.taken) × ((k : ℕ) → k + 1 ≡ t.taken → t.at k ≡ p)
  tail_is p h =
      let busy : t.served < t.taken = ground (arith, v.ord, v.empty) in
      (busy, λ k q. ground (arith, v.last k))

  come_first-Inv : Kept come_first
  come_first-Inv e g =
      let z = vacant g in
      record {
        ord = ground (arith, v.ord);
        empty = λ h. ground (arith, v.ord);
        last = λ k h q. ground (arith, v.ord);
        mine = λ j h. ground (arith, v.mine j, v.ord);
        theirs = λ k h q. ground (arith, v.theirs k, v.ord, v.mine i);
        first = λ j h. ground (arith, v.first j, v.mine j, v.ord);
        woken = λ j h q. ground (arith, v.woken j, v.mine j);
        blocked = λ j h q. ground (arith, v.blocked j, v.mine j);
        behind = λ j p' k h q. absurd (ground (arith, v.later j p', v.mine j));
        later = λ j p' h. absurd (ground (arith, v.later j p', v.mine j));
        marked = λ j h. ground (arith, v.marked j);
        linked = λ k h q. absurd (omega arith);
        loose = λ k h q. ground (arith, v.away i);
        away = λ j h. ground (arith, v.away j);
        handing = λ j m h. ground (arith, v.handing j m);
        seen = λ j h. ground (arith, v.seen j);
        sound = λ j. ground (arith, v.sound j);
      }

  come_after-Inv : (p : ℕ) → Kept (come_after p)
  come_after-Inv p e g =
      let (busy, is_last) = tail_is p g in
      record {
        ord = ground (arith, v.ord);
        empty = λ h. ground (arith, v.ord);
        last = λ k h q. ground (arith, v.ord);
        mine = λ j h. ground (arith, v.mine j, v.ord);
        theirs = λ k h q. ground (arith, v.theirs k, v.ord, v.mine i);
        first = λ j h. ground (arith, v.first j, v.mine j, v.ord);
        woken = λ j h q. ground (arith, v.woken j, v.mine j);
        blocked = λ j h q. ground (arith, v.blocked j, v.mine j);
        behind = λ j p' k h q. ground (arith, v.behind j p' k, v.mine j, is_last k);
        later = λ j p' h. ground (arith, v.later j p', v.mine j);
        marked = λ j h. ground (arith, v.marked j);
        linked = λ k h q. ground (arith, v.linked k, is_last k, v.loose k, v.theirs (k + 1));
        loose = λ k h q. ground (arith, v.away i);
        away = λ j h. ground (arith, v.away j);
        handing = λ j m h. ground (arith, v.handing j m);
        seen = λ j h. ground (arith, v.seen j);
        sound = λ j. ground (arith, v.sound j);
      }

  mark-Inv : (p : ℕ) → Kept (mark p)
  mark-Inv p e g = record {
    ord = v.ord;
    empty = v.empty;
    last = v.last;
    mine = λ j h. ground (arith, v.mine j);
    theirs = λ k h q. ground (arith, v.theirs k);
    first = λ j h. ground (arith, v.first j);
    woken = λ j h q. ground (arith, v.woken j);
    blocked = λ j h q. ground (arith, v.blocked j);
    behind = λ j p' k h q. ground (arith, v.behind j p' k);
    later = λ j p' h. ground (arith, v.later j p');
    marked = λ j h. ground (arith, v.marked j);
    linked = λ k h q. ground (arith, v.linked k);
    loose = v.loose;
    away = λ j h. ground (arith, v.away j);
    handing = λ j m h. ground (arith, v.handing j m);
    seen = λ j h. ground (arith, v.seen j);
    sound = λ j. ground (arith, v.sound j);
  }

  link-Inv : (p : ℕ) → Kept (link p)
  link-Inv p e g =
      let at = v.behind i p (t.ticket i - 1) in
      let mine = v.mine i in
      let late = v.later i p in
      record {
        ord = v.ord;
        empty = v.empty;
        last = v.last;
        mine = λ j h. ground (arith, v.mine j);
        theirs = λ k h q. ground (arith, v.theirs k);
        first = λ j h. ground (arith, v.first j);
        woken = λ j h q. ground (arith, v.woken j, v.marked j);
        blocked = λ j h q. ground (arith, v.blocked j);
        behind = λ j p' k h q. ground (arith, v.behind j p' k);
        later = λ j p' h. ground (arith, v.later j p');
        marked = λ j h. ground (arith, v.marked j);
        linked = λ k h q. ground (
          arith,
          v.linked k,
          v.theirs k,
          v.theirs (k + 1),
          v.theirs (t.ticket i - 1),
          v.behind i p k,
        );
        loose = λ k h q. ground (arith, v.loose k, v.theirs k, v.theirs (t.ticket i - 1));
        away = λ j h. ground (arith, v.away j, v.theirs (t.ticket i - 1));
        handing = λ j m h.
            ground (arith, v.handing j m, v.linked (t.ticket i - 1), v.theirs (t.ticket i - 1));
        seen = λ j h. ground (arith, v.seen j);
        sound = λ j. ground (arith, v.sound j);
      }

  notice-Inv : Kept notice
  notice-Inv e g = record {
    ord = v.ord;
    empty = v.empty;
    last = v.last;
    mine = λ j h. ground (arith, v.mine j);
    theirs = λ k h q. ground (arith, v.theirs k);
    first = λ j h. ground (arith, v.first j, v.woken j);
    woken = λ j h q. ground (arith, v.woken j);
    blocked = λ j h q. ground (arith, v.blocked j);
    behind = λ j p' k h q. ground (arith, v.behind j p' k);
    later = λ j p' h. ground (arith, v.later j p');
    marked = λ j h. ground (arith, v.marked j);
    linked = λ k h q. ground (arith, v.linked k);
    loose = v.loose;
    away = λ j h. ground (arith, v.away j);
    handing = λ j m h. ground (arith, v.handing j m);
    seen = λ j h. ground (arith, v.seen j);
    sound = λ j. ground (arith, v.sound j);
  }

  leave_last-Inv : Kept leave_last
  leave_last-Inv e g =
      let (busy, is_last) = tail_is i g in
      let own = v.first i in
      let mine = v.mine i in
      let at_end = is_last (t.taken - 1) in
      let theirs = v.theirs (t.taken - 1) in
      record {
        ord = ground arith;
        empty = λ h. refl;
        last = λ k h q. absurd (ground arith);
        mine = λ j h. ground (arith, v.mine j);
        theirs = λ k h q. absurd (ground arith);
        first = λ j h. ground (arith, v.first j, v.mine j);
        woken = λ j h q. ground (arith, v.woken j, v.mine j);
        blocked = λ j h q. ground (arith, v.blocked j, v.mine j);
        behind = λ j p' k h q. ground (arith, v.behind j p' k);
        later = λ j p' h. ground (arith, v.later j p', v.mine j);
        marked = λ j h. ground (arith, v.marked j);
        linked = λ k h q. absurd (ground arith);
        loose = λ k h q. absurd (ground arith);
        away = λ j h. ground (arith, v.away j, v.loose (t.taken - 1));
        handing = λ j m h. ground (arith, v.handing j m);
        seen = λ j h. ground (arith, v.seen j);
        sound = λ j. ground (arith, v.sound j);
      }

  see_next-Inv : Kept see_next
  see_next-Inv e g = record {
    ord = v.ord;
    empty = v.empty;
    last = v.last;
    mine = λ j h. ground (arith, v.mine j);
    theirs = λ k h q. ground (arith, v.theirs k);
    first = λ j h. ground (arith, v.first j);
    woken = λ j h q. ground (arith, v.woken j);
    blocked = λ j h q. ground (arith, v.blocked j);
    behind = λ j p' k h q. ground (arith, v.behind j p' k);
    later = λ j p' h. ground (arith, v.later j p');
    marked = λ j h. ground (arith, v.marked j);
    linked = λ k h q. ground (arith, v.linked k);
    loose = v.loose;
    away = λ j h. ground (arith, v.away j);
    handing = λ j m h. ground (arith, v.handing j m);
    seen = λ j h. ground (arith, v.seen j);
    sound = λ j. ground (arith, v.sound j);
  }

  find_next-Inv : (n : ℕ) → Kept (find_next n)
  find_next-Inv n e g = record {
    ord = v.ord;
    empty = v.empty;
    last = v.last;
    mine = λ j h. ground (arith, v.mine j);
    theirs = λ k h q. ground (arith, v.theirs k);
    first = λ j h. ground (arith, v.first j);
    woken = λ j h q. ground (arith, v.woken j);
    blocked = λ j h q. ground (arith, v.blocked j);
    behind = λ j p' k h q. ground (arith, v.behind j p' k);
    later = λ j p' h. ground (arith, v.later j p');
    marked = λ j h. ground (arith, v.marked j);
    linked = λ k h q. ground (arith, v.linked k);
    loose = v.loose;
    away = λ j h. ground (arith, v.away j);
    handing = λ j m h. ground (arith, v.handing j m);
    seen = λ j h. ground (arith, v.seen j);
    sound = λ j. ground (arith, v.sound j);
  }

  give-Inv : (n : ℕ) → Kept (give n)
  give-Inv n e g =
      let own = v.first i in
      let mine = v.mine i in
      let next = v.handing i n in
      let link = v.linked t.served in
      let end = v.loose t.served in
      let second = v.theirs (t.served + 1) in
      record {
        ord = ground arith;
        empty = λ h. ground arith;
        last = λ k h q. ground (arith, v.last k);
        mine = λ j h. ground (arith, v.mine j);
        theirs = λ k h q. ground (arith, v.theirs k);
        first = λ j h. ground (arith, v.first j, v.mine j);
        woken = λ j h q. ground (arith, v.woken j, v.mine j);
        blocked = λ j h q. ground (arith, v.blocked j, v.mine j);
        behind = λ j p' k h q. ground (arith, v.behind j p' k);
        later = λ j p' h. ground (arith, v.later j p', v.mine j);
        marked = λ j h. ground (arith, v.marked j);
        linked = λ k h q. ground (arith, v.linked k, v.theirs k, v.theirs (k + 1));
        loose = λ k h q. ground (arith, v.loose k);
        away = λ j h. ground (arith, v.away j);
        handing = λ j m h. ground (arith, v.handing j m);
        seen = λ j h. ground (arith, v.seen j);
        sound = λ j. ground (arith, v.sound j);
      }

  reset-Inv : Kept reset
  reset-Inv e g = record {
    ord = v.ord;
    empty = v.empty;
    last = v.last;
    mine = λ j h. ground (arith, v.mine j);
    theirs = λ k h q. ground (arith, v.theirs k);
    first = λ j h. ground (arith, v.first j);
    woken = λ j h q. ground (arith, v.woken j);
    blocked = λ j h q. ground (arith, v.blocked j);
    behind = λ j p' k h q. ground (arith, v.behind j p' k);
    later = λ j p' h. ground (arith, v.later j p');
    marked = λ j h. ground (arith, v.marked j);
    linked = λ k h q. ground (arith, v.linked k, v.theirs k, v.theirs (k + 1));
    loose = λ k h q. ground (arith, v.loose k, v.theirs k);
    away = λ j h. ground (arith, v.away j);
    handing = λ j m h. ground (arith, v.handing j m);
    seen = λ j h. ground (arith, v.seen j);
    sound = λ j. ground (arith, v.sound j);
  }

  nothing-Inv : (x : Stage) → Kept (nothing x)
  nothing-Inv x e g = record {
    ord = v.ord;
    empty = v.empty;
    last = v.last;
    mine = λ j h. ground (arith, v.mine j);
    theirs = λ k h q. ground (arith, v.theirs k);
    first = λ j h. ground (arith, v.first j);
    woken = λ j h q. ground (arith, v.woken j);
    blocked = λ j h q. ground (arith, v.blocked j);
    behind = λ j p' k h q. ground (arith, v.behind j p' k);
    later = λ j p' h. ground (arith, v.later j p');
    marked = λ j h. ground (arith, v.marked j);
    linked = λ k h q. ground (arith, v.linked k);
    loose = v.loose;
    away = λ j h. ground (arith, v.away j);
    handing = λ j m h. ground (arith, v.handing j m);
    seen = λ j h. ground (arith, v.seen j);
    sound = λ j. ground (arith, v.sound j);
  }

  pub act-Inv : (a : Act) → Kept a
  act-Inv (nothing x) = nothing-Inv x
  act-Inv come_first = come_first-Inv
  act-Inv (come_after p) = come_after-Inv p
  act-Inv (mark p) = mark-Inv p
  act-Inv (link p) = link-Inv p
  act-Inv notice = notice-Inv
  act-Inv leave_last = leave_last-Inv
  act-Inv see_next = see_next-Inv
  act-Inv (find_next n) = find_next-Inv n
  act-Inv (give n) = give-Inv n
  act-Inv reset = reset-Inv
