-- ===== src/Hqd/Interface.antt =====
-- hqdlock.hpp: the functions `delegate_n`, `delegate_f`, `delegate_p` and `delegate_fp` of
-- `hqdlock_impl`, which hand to the lock of a node what those of `qdlock_impl` hand to theirs.
-- `delegate_fp` of a function as a template argument cannot be instantiated.
use qd_library.Prelude.{ℕ, ◌≡◌, refl, ap, ◌∙◌, Bool, Option, none, some, List, [], ◌∷◌, map}
use qd_library.TypeTools.{Object}
use qd_library.Delegated.Interface
use qd_library.Delegated.Interface.{Request}
use qd_library.Hqd.{PinningPolicy, free_threads, pinned_threads, get_qd}

-- The `node_id` that `get_qd` leaves, the node of the lock that it returns, and what is handed to
-- `delegate` of this lock.
pub record Delegation (W R : Type 0) : Type 0 where
  pub node_id : Option ℕ
  pub node : ℕ
  pub request : Request W R

module _ {W R : Type 0} (policy : PinningPolicy) (numa_mapping : ℕ → ℕ) where
  abbrev pub to_node : Option ℕ → ℕ → Request W R → Delegation W R
  to_node node_id cpu request =
      let (new_id, n) = get_qd policy numa_mapping node_id cpu in
      record { node_id = new_id; node = n; request = request }

module _ {W R : Type 0} (policy : PinningPolicy) (numa_mapping : ℕ → ℕ) where
  abbrev pub delegate_n_template :
      Option ℕ → ℕ → (List Object → W → W × R) → List Object → Delegation W R
  delegate_n_template node_id cpu f ps =
      to_node policy numa_mapping node_id cpu (Interface.delegate_n_template f ps)

  abbrev pub delegate_n : Option ℕ → ℕ → Object → List Object → Delegation W R
  delegate_n node_id cpu f ps = to_node policy numa_mapping node_id cpu (Interface.delegate_n f ps)

  abbrev pub delegate_f_template :
      Option ℕ → ℕ → Bool → (List Object → W → W × R) → Object → List Object → Delegation W R
  delegate_f_template node_id cpu returns_void f result ps =
      to_node policy numa_mapping node_id cpu
        (Interface.delegate_f_template returns_void f result ps)

  abbrev pub delegate_f : Option ℕ → ℕ → Bool → Object → Object → List Object → Delegation W R
  delegate_f node_id cpu returns_void f result ps =
      to_node policy numa_mapping node_id cpu (Interface.delegate_f returns_void f result ps)

  abbrev pub delegate_p_template :
      Option ℕ → ℕ → (List Object → W → W × R) → Object → List Object → Delegation W R
  delegate_p_template node_id cpu f result ps =
      to_node policy numa_mapping node_id cpu (Interface.delegate_p_template f result ps)

  abbrev pub delegate_p : Option ℕ → ℕ → Object → Object → List Object → Delegation W R
  delegate_p node_id cpu f result ps =
      to_node policy numa_mapping node_id cpu (Interface.delegate_p f result ps)

  abbrev pub delegate_fp : Option ℕ → ℕ → Object → Object → List Object → Delegation W R
  delegate_fp node_id cpu f result ps =
      to_node policy numa_mapping node_id cpu (Interface.delegate_fp f result ps)

-- A call of one of the functions.
pub data Form (W R : Type 0) : Type 0 where
  form_n_template : (List Object → W → W × R) → List Object → Form W R
  form_n : Object → List Object → Form W R
  form_f_template : Bool → (List Object → W → W × R) → Object → List Object → Form W R
  form_f : Bool → Object → Object → List Object → Form W R
  form_p_template : (List Object → W → W × R) → Object → List Object → Form W R
  form_p : Object → Object → List Object → Form W R
  form_fp : Object → Object → List Object → Form W R

module _ {W R : Type 0} (policy : PinningPolicy) (numa_mapping : ℕ → ℕ) where
  pub delegate_form : Option ℕ → ℕ → Form W R → Delegation W R
  delegate_form id cpu (form_n_template f ps) = delegate_n_template policy numa_mapping id cpu f ps
  delegate_form id cpu (form_n f ps) = delegate_n policy numa_mapping id cpu f ps
  delegate_form id cpu (form_f_template void f result ps) =
      delegate_f_template policy numa_mapping id cpu void f result ps
  delegate_form id cpu (form_f void f result ps) =
      delegate_f policy numa_mapping id cpu void f result ps
  delegate_form id cpu (form_p_template f result ps) =
      delegate_p_template policy numa_mapping id cpu f result ps
  delegate_form id cpu (form_p f result ps) = delegate_p policy numa_mapping id cpu f result ps
  delegate_form id cpu (form_fp f result ps) = delegate_fp policy numa_mapping id cpu f result ps

  -- The calls of one thread, each with the processor that it is on.
  pub delegations : Option ℕ → List (ℕ × Form W R) → List (Delegation W R)
  unfolding delegate_form
  delegations id [] = []
  delegations id ((cpu, x) ∷ calls) =
      let d = delegate_form id cpu x in d ∷ delegations d.node_id calls

  -- Every form asks `get_qd`, once, with the `node_id` of the thread.
  form-get_qd :
      (id : Option ℕ) (cpu : ℕ) (x : Form W R)
      → ((delegate_form id cpu x).node_id, (delegate_form id cpu x).node)
        ≡ get_qd policy numa_mapping id cpu
  unfolding delegate_form
  form-get_qd id cpu (form_n_template f ps) = refl
  form-get_qd id cpu (form_n f ps) = refl
  form-get_qd id cpu (form_f_template void f result ps) = refl
  form-get_qd id cpu (form_f void f result ps) = refl
  form-get_qd id cpu (form_p_template f result ps) = refl
  form-get_qd id cpu (form_p f result ps) = refl
  form-get_qd id cpu (form_fp f result ps) = refl

module _ {W R : Type 0} (numa_mapping : ℕ → ℕ) where
  -- The nodes that a thread's calls should go to.
  abbrev pub expected_nodes : PinningPolicy → List (ℕ × Form W R) → List ℕ
  expected_nodes free_threads calls = map (λ c. numa_mapping c.0) calls
  expected_nodes pinned_threads [] = []
  expected_nodes pinned_threads ((cpu, x) ∷ calls) =
      numa_mapping cpu ∷ map (λ c. numa_mapping cpu) calls

  abbrev nodes : PinningPolicy → Option ℕ → List (ℕ × Form W R) → List ℕ
  nodes policy id calls = map (λ d. d.node) (delegations policy numa_mapping id calls)

  nodes-cons :
      (policy : PinningPolicy) (id new_id : Option ℕ) (cpu n : ℕ) (x : Form W R)
      (calls : List (ℕ × Form W R))
      → get_qd policy numa_mapping id cpu ≡ (new_id, n)
      → nodes policy id ((cpu, x) ∷ calls) ≡ n ∷ nodes policy new_id calls
  unfolding delegations
  nodes-cons policy id new_id cpu n x calls e =
      ap (λ r. r.1 ∷ nodes policy r.0 calls) (form-get_qd policy numa_mapping id cpu x ∙ e)

  free_nodes :
      (id : Option ℕ) (calls : List (ℕ × Form W R))
      → nodes free_threads id calls ≡ map (λ c. numa_mapping c.0) calls
  unfolding delegations get_qd
  free_nodes id [] = refl
  free_nodes id ((cpu, x) ∷ calls) =
      nodes-cons free_threads id id cpu (numa_mapping cpu) x calls refl
      ∙ ap (◌∷◌ (numa_mapping cpu)) (free_nodes id calls)

  seen_nodes :
      (first : ℕ) (calls : List (ℕ × Form W R))
      → nodes pinned_threads (some first) calls ≡ map (λ c. numa_mapping first) calls
  unfolding delegations get_qd
  seen_nodes first [] = refl
  seen_nodes first ((cpu, x) ∷ calls) =
      nodes-cons pinned_threads (some first) (some first) cpu (numa_mapping first) x calls refl
      ∙ ap (◌∷◌ (numa_mapping first)) (seen_nodes first calls)

  -- Whatever a thread delegates, in all forms and on any processors: with `free_threads` each
  -- delegation goes to the lock of the node of the processor that the thread is on then; with
  -- `pinned_threads` all go to that of the processor that it was on at the first.
  pub delegations-expected_nodes :
      (policy : PinningPolicy) (calls : List (ℕ × Form W R))
      → map (λ d. d.node) (delegations policy numa_mapping none calls) ≡ expected_nodes policy calls
  unfolding delegations get_qd
  delegations-expected_nodes free_threads calls = free_nodes none calls
  delegations-expected_nodes pinned_threads [] = refl
  delegations-expected_nodes pinned_threads ((cpu, x) ∷ calls) =
      nodes-cons pinned_threads none (some cpu) cpu (numa_mapping cpu) x calls refl
      ∙ ap (◌∷◌ (numa_mapping cpu)) (seen_nodes cpu calls)
