-- ===== src/Queue/Entry/Acts.antt =====
-- queues/entry_queue.hpp: what happens to the slots keeps the invariant of the slots.
use qd_library.Prelude.{
  ℕ, zero, suc, ◌+◌, ◌-◌, ◌≤◌, ◌<◌, ◌≡◌, ◌≢◌, refl, sym, ap, ◌∙◌, inl, inr, List, [], ◌∷◌, ◌++◌,
  arith, ◌==◌, Bool-cases,
}
use mathlib.Core.Path.{subst, ap₂}
use mathlib.Core.List.{append_assoc}
use qd_library.Interleave.{update}
use qd_library.Queue.Entry.Slots.{
  Session, Role, idle, filling, filled, accept, fill, publish, restart, call, clear, claims,
  waiting, AtWork, InSession, Act, keeps, accepts, fills, publishes, restarts, calls, clears,
  at_work,
}

-- A claim behind the others, and the first of the claims.
claims-snoc :
    (f p : ℕ → ℕ) (k n : ℕ) → claims f p k (suc n) ≡ claims f p k n ++ (f (k + n), p (k + n)) ∷ []
claims-snoc f p k zero = ap (λ n. (f n, p n) ∷ []) (omega arith)
claims-snoc f p k (suc n) =
    ap (λ l. (f k, p k) ∷ l)
      (claims-snoc f p (k + 1) n
        ∙ ap (λ m. claims f p (k + 1) n ++ (f m, p m) ∷ []) {x = k + 1 + n} {y = k + suc n}
            (omega arith))

claims-update :
    (f p : ℕ → ℕ) (k n l a b : ℕ)
    → k + n ≤ l
    → claims (update f l a) (update p l b) k n ≡ claims f p k n
claims-update f p k zero l a b h = refl
claims-update f p k (suc n) l a b h =
    rw (claims-update f p (k + 1) n l a b (omega (arith, h)))
      (ap₂ (λ x y. (x, y) ∷ claims f p (k + 1) n) (ground (arith, h)) (ground (arith, h)))

accepts-AtWork :
    (s : Session) (i j k fun par : ℕ) (q : Role)
    → s.reserved ≡ k
    → AtWork s j q
    → AtWork (accept i k fun par s) j q
accepts-AtWork s i j k fun par idle e h = tt
accepts-AtWork s i j k fun par (filling l f p) e h = ground (arith, e, h)
accepts-AtWork s i j k fun par (filled l f p) e h = ground (arith, e, h)

fills-AtWork :
    (s : Session) (j k par : ℕ) (q : Role)
    → s.writer k ≢ j
    → AtWork s j q
    → AtWork (fill k par s) j q
fills-AtWork s j k par idle e h = tt
fills-AtWork s j k par (filling l f p) e h = ground (arith, e, h)
fills-AtWork s j k par (filled l f p) e h = ground (arith, e, h)

publishes-AtWork :
    (s : Session) (j k fun : ℕ) (q : Role)
    → s.writer k ≢ j
    → AtWork s j q
    → AtWork (publish k fun s) j q
publishes-AtWork s j k fun idle e h = tt
publishes-AtWork s j k fun (filling l f p) e h = ground (arith, e, h)
publishes-AtWork s j k fun (filled l f p) e h = ground (arith, e, h)

restarts-AtWork :
    (s : Session) (j : ℕ) (q : Role) → s.called ≡ s.reserved → AtWork s j q → AtWork (restart s) j q
restarts-AtWork s j idle e h = tt
restarts-AtWork s j (filling l f p) e h = absurd (omega (arith, e, h.0, h.1))
restarts-AtWork s j (filled l f p) e h = absurd (omega (arith, e, h.0, h.1))

calls-AtWork :
    (s : Session) (j k : ℕ) (q : Role)
    → s.called ≡ k
    → 0 < s.fun k
    → AtWork s j q
    → AtWork (call k (s.fun k) s) j q
calls-AtWork s j k idle e p h = tt
calls-AtWork s j k (filling l f q) e p h = ground (arith, e, p, h)
calls-AtWork s j k (filled l f q) e p h = ground (arith, e, p, h)

clears-AtWork :
    (s : Session) (j k : ℕ) (q : Role) → k < s.called → AtWork s j q → AtWork (clear k s) j q
clears-AtWork s j k idle e h = tt
clears-AtWork s j k (filling l f p) e h = ground (arith, e, h)
clears-AtWork s j k (filled l f p) e h = ground (arith, e, h)

-- One thread's own claim to its slot, and that of all others.
working-update :
    (s' : Session) (role : ℕ → Role) (i : ℕ) (r : Role)
    → AtWork s' i r
    → ((j : ℕ) → i ≢ j → AtWork s' j (role j))
    → (j : ℕ) → AtWork s' j (update role i r j)
working-update s' role i r own others j = elim (Bool-cases (i == j)) [
  | inl q ↦ rw q (subst (λ n. AtWork s' n r) (ground arith) own)
  | inr q ↦ rw q (others j (ground arith))
]

accepts_order :
    (s : Session) (i k fun par : ℕ)
    → s.accepted ≡ s.log ++ waiting s
    → s.called ≤ s.reserved
    → s.reserved ≡ k
    → s.accepted ++ (fun, par) ∷ [] ≡ s.log ++ waiting (accept i k fun par s)
accepts_order s i k fun par v w q =
    ap (λ l. l ++ (fun, par) ∷ []) v
    ∙ append_assoc s.log (waiting s) ((fun, par) ∷ [])
    ∙ ap (λ l. s.log ++ l) (sym tail)
  where
    f : ℕ → ℕ
    f = update s.claim_fun k fun

    p : ℕ → ℕ
    p = update s.claim_params k par

    n : ℕ
    n = s.reserved - s.called

    tail : claims f p s.called (s.reserved + 1 - s.called) ≡ waiting s ++ (fun, par) ∷ []
    tail =
        ap (claims f p s.called) {x = s.reserved + 1 - s.called} {y = suc n} (omega (arith, w))
        ∙ claims-snoc f p s.called n
        ∙ ap₂ (λ x y. x ++ y ∷ [])
            (claims-update s.claim_fun s.claim_params s.called n k fun par (omega (arith, w, q)))
            (ap₂ (λ x y. (x, y)) (ground (arith, w, q)) (ground (arith, w, q)))

calls_order :
    (s : Session) (role : ℕ → Role) (k : ℕ)
    → InSession s role
    → s.called ≡ k
    → k < s.reserved
    → 0 < s.fun k
    → s.accepted ≡ (s.log ++ (s.fun k, s.params k) ∷ []) ++ waiting (call k (s.fun k) s)
calls_order s role k v q l p =
    v.order
    ∙ ap (λ m. s.log ++ claims s.claim_fun s.claim_params s.called m) {x = s.reserved - s.called}
        {y = suc n} (omega (arith, q, l))
    ∙ ap (λ x. s.log ++ x ∷ rest) (ap₂ (λ x y. (x, y)) head.0 head.1)
    ∙ sym (append_assoc s.log ((s.fun k, s.params k) ∷ []) rest)
  where
    n : ℕ
    n = s.reserved - (s.called + 1)

    rest : List (ℕ × ℕ)
    rest = claims s.claim_fun s.claim_params (s.called + 1) n

    head : (s.claim_fun s.called ≡ s.fun k) × (s.claim_params s.called ≡ s.params k)
    head = elim (v.slots k (omega (arith, q)) l) [
      | inl w ↦ absurd (
          omega (arith, p, at_work s (s.writer k) k (role (s.writer k)) w (v.working (s.writer k))))
      | inr (a, b, c) ↦ (ground (arith, a, q), ground (arith, b, q))
    ]

pub Act-InSession :
    (role : ℕ → Role) (i : ℕ) (s s' : Session) (r r' : Role)
    → InSession s role
    → role i ≡ r
    → Act i s r s' r'
    → InSession s' (update role i r')
Act-InSession role i s _ _ _ v e (keeps r) = record {
  order = v.order;
  before = v.before;
  within = v.within;
  working = working-update s role i r (subst (AtWork s i) e (v.working i)) (λ j d. v.working j);
  slots = λ k a b. ground (arith, v.slots k a b);
  empty = v.empty;
}
Act-InSession role i s _ _ _ v e (accepts k fun par q p) = record {
  order = accepts_order s i k fun par v.order v.within q;
  before = v.before;
  within = omega (arith, v.within);
  working =
      working-update (accept i k fun par s) role i (filling k fun par)
        (ground (arith, v.within, v.empty k))
        (λ j d. accepts-AtWork s i j k fun par (role j) q (v.working j));
  slots = λ l a b. ground (arith, v.slots l, q);
  empty = λ l h. ground (arith, v.empty l, q);
}
Act-InSession role i s _ _ _ v e (fills k fun par) =
    let at : AtWork s i (filling k fun par) = subst (AtWork s i) e (v.working i) in
    record {
      order = v.order;
      before = v.before;
      within = v.within;
      working =
          working-update (fill k par s) role i (filled k fun par) (ground (arith, at))
            (λ j d. fills-AtWork s j k par (role j) (ground (arith, at, d)) (v.working j));
      slots = λ l a b. ground (arith, v.slots l a b, at, e);
      empty = v.empty;
    }
Act-InSession role i s _ _ _ v e (publishes k fun par) =
    let at : AtWork s i (filled k fun par) = subst (AtWork s i) e (v.working i) in
    record {
      order = v.order;
      before = v.before;
      within = v.within;
      working =
          working-update (publish k fun s) role i idle tt
            (λ j d. publishes-AtWork s j k fun (role j) (ground (arith, at, d)) (v.working j));
      slots = λ l a b. ground (arith, v.slots l a b, at, e);
      empty = λ l h. ground (arith, v.empty l h, v.before, at);
    }
Act-InSession role i s _ _ _ v e (restarts q c) = record {
  order =
      v.order
      ∙ ap (λ n. s.log ++ claims s.claim_fun s.claim_params s.called n) {x = s.reserved - s.called}
          {y = 0} (omega (arith, q));
  before = omega arith;
  within = omega arith;
  working =
      working-update (restart s) role i idle tt
        (λ j d. restarts-AtWork s j (role j) q (v.working j));
  slots = λ l a b. absurd (omega arith);
  empty = λ l h. ground (arith, v.empty l, q, c);
}
Act-InSession role i s _ _ _ v e (calls k q c l p) = record {
  order = calls_order s role k v q l p;
  before = omega (arith, v.before);
  within = omega (arith, q, l);
  working =
      working-update (call k (s.fun k) s) role i idle tt
        (λ j d. calls-AtWork s j k (role j) q p (v.working j));
  slots = λ n a b. ground (arith, v.slots n, e);
  empty = v.empty;
}
Act-InSession role i s _ _ _ v e (clears k c l) = record {
  order = v.order;
  before = omega (arith, c, l);
  within = v.within;
  working =
      working-update (clear k s) role i idle tt
        (λ j d. clears-AtWork s j k (role j) l (v.working j));
  slots = λ n a b. ground (arith, v.slots n a b, l, e);
  empty = λ n h. ground (arith, v.empty n, c);
}
