-- ===== src/Mrhqd/Interface.antt =====
-- hqdlock.hpp: the functions `delegate_n`, `delegate_f` and `delegate_p` of `mrhqdlock_impl`, which
-- hand to the lock of a node what those of `qdlock_impl` hand to theirs. Those named `delegate_fp`
-- cannot be instantiated.
use qd_library.Prelude.{ℕ, Bool, Option, List}
use qd_library.TypeTools.{Object}
use qd_library.Delegated.Interface
use qd_library.Hqd.{PinningPolicy}
use qd_library.Hqd.Interface.{Delegation, to_node}

module _ {W R : Type 0} (policy : PinningPolicy) (numa_mapping : ℕ → ℕ) where
  abbrev pub delegate_n_template :
      Option ℕ → ℕ → (List Object → W → W × R) → List Object → Delegation W R
  delegate_n_template node_id cpu f ps =
      to_node policy numa_mapping node_id cpu (Interface.delegate_n_template f ps)

  abbrev pub delegate_n : Option ℕ → ℕ → Object → List Object → Delegation W R
  delegate_n node_id cpu f ps = to_node policy numa_mapping node_id cpu (Interface.delegate_n f ps)

  abbrev pub delegate_f_template :
      Option ℕ → ℕ → Bool → (List Object → W → W × R) → Object → List Object → Delegation W R
  delegate_f_template node_id cpu returns_void f result ps =
      to_node policy numa_mapping node_id cpu
        (Interface.delegate_f_template returns_void f result ps)

  abbrev pub delegate_f : Option ℕ → ℕ → Bool → Object → Object → List Object → Delegation W R
  delegate_f node_id cpu returns_void f result ps =
      to_node policy numa_mapping node_id cpu (Interface.delegate_f returns_void f result ps)

  abbrev pub delegate_p_template :
      Option ℕ → ℕ → (List Object → W → W × R) → Object → List Object → Delegation W R
  delegate_p_template node_id cpu f result ps =
      to_node policy numa_mapping node_id cpu (Interface.delegate_p_template f result ps)

  abbrev pub delegate_p : Option ℕ → ℕ → Object → Object → List Object → Delegation W R
  delegate_p node_id cpu f result ps =
      to_node policy numa_mapping node_id cpu (Interface.delegate_p f result ps)
