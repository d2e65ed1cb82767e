-- ===== src/Hqd/Nodes.antt =====
-- hqdlock.hpp: the constructor of `hqdlock_impl`, which asks libnuma for the nodes. That of
-- `mrhqdlock_impl` does the same. libnuma is a parameter.
use qd_library.Prelude.{
  ℕ, zero, suc, ◌+◌, ◌≤◌, ◌<◌, ◌≡◌, refl, ap, ◌∙◌, Option, none, some, List, [], ◌∷◌, arith,
}
use native.Mathlib.Decide.{ℕ_discrete}
use mathlib.Core.Path.{subst}
use qd_library.Hqd.{PinningPolicy, free_threads, pinned_threads, get_qd}

-- What `numa_num_configured_nodes` and `numa_node_of_cpu` return.
pub record LibNuma : Type 0 where
  pub configured_nodes : ℕ
  pub node_of_cpu : ℕ → ℕ

-- `numanodes`, which is also the length of `qdlocks`, and `numa_mapping`.
pub record NodeMap : Type 0 where
  pub numanodes : ℕ
  pub numa_mapping : List ℕ

-- `numa_mapping.resize(n, 0)` of the empty vector
abbrev pub zeros : ℕ → List ℕ
zeros zero = []
zeros (suc n) = 0 ∷ zeros n

-- `numa_mapping[i] = v`
abbrev pub set_at : ℕ → ℕ → List ℕ → List ℕ
set_at i v [] = []
set_at zero v (x ∷ xs) = v ∷ xs
set_at (suc i) v (x ∷ xs) = x ∷ set_at i v xs

-- `numa_mapping[i]`
abbrev pub get_elem? : List ℕ → ℕ → Option ℕ
get_elem? [] i = none
get_elem? (x ∷ xs) zero = some x
get_elem? (x ∷ xs) (suc i) = get_elem? xs i

-- The loop over the processors, with those that are left and the next one.
pub map_cpus : (ℕ → ℕ) → ℕ → ℕ → List ℕ → List ℕ
map_cpus node_of_cpu zero i mapping = mapping
map_cpus node_of_cpu (suc left) i mapping =
    map_cpus node_of_cpu left (i + 1) (set_at i (node_of_cpu i) mapping)

-- The constructor, with what `numanodes` holds before; no libnuma says that the code is built
-- without it or that `numa_available` fails.
pub construct : ℕ → ℕ → Option LibNuma → NodeMap
unfolding map_cpus
construct garbage num_cpus none = record { numanodes = garbage; numa_mapping = zeros num_cpus }
construct garbage num_cpus (some numa) = record {
  numanodes = numa.configured_nodes;
  numa_mapping = map_cpus numa.node_of_cpu num_cpus 0 (zeros num_cpus);
}

-- `get_qd` of the constructed lock; none says that `numa_mapping` is read out of range, which has no
-- defined behaviour.
pub get_qd_at : NodeMap → PinningPolicy → Option ℕ → ℕ → Option (Option ℕ × ℕ)
get_qd_at n free_threads node_id cpu = elim (get_elem? n.numa_mapping cpu) [
  | none ↦ none
  | some node ↦ some (node_id, node)
]
get_qd_at n pinned_threads none cpu = elim (get_elem? n.numa_mapping cpu) [
  | none ↦ none
  | some node ↦ some (some cpu, node)
]
get_qd_at n pinned_threads (some first) cpu = elim (get_elem? n.numa_mapping first) [
  | none ↦ none
  | some node ↦ some (some first, node)
]

get_elem?-set_at_same :
    (xs : List ℕ) (i v u : ℕ) → get_elem? xs i ≡ some u → get_elem? (set_at i v xs) i ≡ some v
get_elem?-set_at_same [] i v u h = absurd (cc)
get_elem?-set_at_same (x ∷ xs) zero v u h = refl
get_elem?-set_at_same (x ∷ xs) (suc i) v u h = get_elem?-set_at_same xs i v u h

get_elem?-set_at_other :
    (xs : List ℕ) (i j v : ℕ) → (i ≡ j → ⊥) → get_elem? (set_at i v xs) j ≡ get_elem? xs j
get_elem?-set_at_other [] i j v h = refl
get_elem?-set_at_other (x ∷ xs) zero zero v h = absurd (h refl)
get_elem?-set_at_other (x ∷ xs) zero (suc j) v h = refl
get_elem?-set_at_other (x ∷ xs) (suc i) zero v h = refl
get_elem?-set_at_other (x ∷ xs) (suc i) (suc j) v h =
    get_elem?-set_at_other xs i j v (λ e. h (ap suc e))

get_elem?-zeros : (n i : ℕ) → i < n → get_elem? (zeros n) i ≡ some 0
get_elem?-zeros zero i h = absurd (omega arith)
get_elem?-zeros (suc n) zero h = refl
get_elem?-zeros (suc n) (suc i) h = get_elem?-zeros n i (omega arith)

map_cpus-below :
    (f : ℕ → ℕ) (left i : ℕ) (xs : List ℕ) (j : ℕ)
    → j < i
    → get_elem? (map_cpus f left i xs) j ≡ get_elem? xs j
unfolding map_cpus
map_cpus-below f zero i xs j h = refl
map_cpus-below f (suc left) i xs j h =
    map_cpus-below f left (i + 1) (set_at i (f i) xs) j (omega arith)
    ∙ get_elem?-set_at_other xs i j (f i) (λ e. omega arith)

map_cpus-lookup :
    (f : ℕ → ℕ) (left i : ℕ) (xs : List ℕ) (j : ℕ)
    → ((k : ℕ) → k < i + left → (u : ℕ) × (get_elem? xs k ≡ some u))
    → i ≤ j
    → j < i + left
    → get_elem? (map_cpus f left i xs) j ≡ some (f j)
unfolding map_cpus
map_cpus-lookup f zero i xs j full h lt = absurd (omega arith)
map_cpus-lookup f (suc left) i xs j full h lt =
    let ys = set_at i (f i) xs in
    elim (ℕ_discrete i j) [
      | yes e ↦
          let same =
            get_elem?-set_at_same xs i (f i) (full i (omega arith)).0 (full i (omega arith)).1 in
          subst (λ j. get_elem? (map_cpus f left (i + 1) ys) j ≡ some (f j)) e
            (map_cpus-below f left (i + 1) ys i (omega arith) ∙ same)
      | no ne ↦ map_cpus-lookup f left (i + 1) ys j filled (omega arith) (omega arith)
    ]
  where
    filled : (k : ℕ) → k < i + 1 + left → (u : ℕ) × (get_elem? (set_at i (f i) xs) k ≡ some u)
    filled k lt = elim (ℕ_discrete i k) [
      | yes e ↦
          let same =
            get_elem?-set_at_same xs i (f i) (full i (omega arith)).0 (full i (omega arith)).1 in
          (f i, subst (λ k. get_elem? (set_at i (f i) xs) k ≡ some (f i)) e same)
      | no ne ↦
          let old = full k (omega arith) in (old.0, get_elem?-set_at_other xs i k (f i) ne ∙ old.1)
    ]

-- What the constructed mapping holds.
abbrev pub node_of : Option LibNuma → ℕ → ℕ
node_of none cpu = 0
node_of (some numa) cpu = numa.node_of_cpu cpu

construct-mapping :
    (garbage num_cpus : ℕ) (numa : Option LibNuma) (cpu : ℕ)
    → cpu < num_cpus
    → get_elem? (construct garbage num_cpus numa).numa_mapping cpu ≡ some (node_of numa cpu)
unfolding construct
construct-mapping garbage num_cpus none cpu h = get_elem?-zeros num_cpus cpu h
construct-mapping garbage num_cpus (some numa) cpu h =
    map_cpus-lookup numa.node_of_cpu num_cpus 0 (zeros num_cpus) cpu
      (λ k lt. (0, get_elem?-zeros num_cpus k (omega arith))) (omega arith) (omega arith)

-- For a thread that runs, and was first seen, on a configured processor: `get_qd` of the constructed
-- lock reads `numa_mapping` within its range and does what `get_qd` does with the mapping of
-- libnuma, the node of each processor, and without libnuma with the mapping of all to node 0.
pub get_qd_at-construct :
    (garbage num_cpus : ℕ) (numa : Option LibNuma) (policy : PinningPolicy) (node_id : Option ℕ)
    (cpu : ℕ)
    → ((first : ℕ) → node_id ≡ some first → first < num_cpus)
    → cpu < num_cpus
    → get_qd_at (construct garbage num_cpus numa) policy node_id cpu
      ≡ some (get_qd policy (node_of numa) node_id cpu)
unfolding get_qd get_qd_at
get_qd_at-construct garbage num_cpus numa free_threads node_id cpu seen h =
    rw (get_qd_at, construct-mapping garbage num_cpus numa cpu h) refl
get_qd_at-construct garbage num_cpus numa pinned_threads none cpu seen h =
    rw (get_qd_at, construct-mapping garbage num_cpus numa cpu h) refl
get_qd_at-construct garbage num_cpus numa pinned_threads (some first) cpu seen h =
    rw (get_qd_at, construct-mapping garbage num_cpus numa first (seen first refl)) refl
