-- ===== src/Configuration/Comparison.antt =====
-- `compareConfigs` of src/utils/config_utils.cpp. A difference is kept as its kind with the two values, which the
-- source writes as text.
use cache_simulator.Prelude.{
  ◌≡◌, refl, Bool, true, false, not, List, [], ◌∷◌, ◌++◌, ◌↔◌, Option, none, some, if◌then◌else◌,
  arith,
}
use cache_simulator.Cache.Config.{ℤ, pos, negsuc, CacheConfig}
use cache_simulator.Hierarchy.State.{MemoryHierarchyConfig}
use cache_simulator.Configuration.Numbers.{is_equal}
use cache_simulator.Configuration.State.{SimulatorConfig}

pub data Difference : Type 0 where
  l1_sizes l1_associativities block_sizes prefetch_distances : ℤ → ℤ → Difference
  l2_sizes l2_associativities : ℤ → ℤ → Difference
  prefetching l2_presence stride_prediction adaptive_prefetching : Bool → Bool → Difference

abbrev pub is_same : Bool → Bool → Bool
is_same true b = b
is_same false b = not b

abbrev pub int_difference : (ℤ → ℤ → Difference) → ℤ → ℤ → List Difference
int_difference kind a b = if is_equal a b then [] else kind a b ∷ []

abbrev pub bool_difference : (Bool → Bool → Difference) → Bool → Bool → List Difference
bool_difference kind a b = if is_same a b then [] else kind a b ∷ []

unfoldable pub compare_l1 : CacheConfig → CacheConfig → List Difference
compare_l1 a b =
    int_difference l1_sizes a.size b.size
    ++ (int_difference l1_associativities a.associativity b.associativity
        ++ (int_difference block_sizes a.block_size b.block_size
            ++ (bool_difference prefetching a.prefetch_enabled b.prefetch_enabled
                ++ int_difference prefetch_distances a.prefetch_distance b.prefetch_distance)))

unfoldable pub compare_l2 : Option CacheConfig → Option CacheConfig → List Difference
compare_l2 none none = []
compare_l2 none (some b) = l2_presence false true ∷ []
compare_l2 (some a) none = l2_presence true false ∷ []
compare_l2 (some a) (some b) =
    int_difference l2_sizes a.size b.size
    ++ int_difference l2_associativities a.associativity b.associativity

unfoldable pub compare_prefetching : MemoryHierarchyConfig → MemoryHierarchyConfig → List Difference
compare_prefetching a b =
    bool_difference stride_prediction a.use_stride_prediction b.use_stride_prediction
    ++ bool_difference adaptive_prefetching a.use_adaptive_prefetching b.use_adaptive_prefetching

unfoldable pub compare_hierarchies : MemoryHierarchyConfig → MemoryHierarchyConfig → List Difference
unfolding compare_l1 compare_l2 compare_prefetching
compare_hierarchies a b =
    compare_l1 a.l1_config b.l1_config
    ++ (compare_l2 a.l2_config b.l2_config ++ compare_prefetching a b)

unfoldable pub compare_configs :
    {Double : Type 0} → SimulatorConfig Double → SimulatorConfig Double → List Difference
unfolding compare_hierarchies
compare_configs config1 config2 =
    compare_hierarchies config1.hierarchy_config config2.hierarchy_config

-- The parameters of L1 that are compared.
abbrev pub SameL1 : CacheConfig → CacheConfig → Type 0
SameL1 a b =
    (a.size ≡ b.size)
    × ((a.associativity ≡ b.associativity)
        × ((a.block_size ≡ b.block_size)
            × ((a.prefetch_enabled ≡ b.prefetch_enabled)
                × (a.prefetch_distance ≡ b.prefetch_distance))))

-- Both have no L2, or both have one, of the same size and associativity.
abbrev pub SameL2 : Option CacheConfig → Option CacheConfig → Type 0
SameL2 none none = Unit
SameL2 (some a) (some b) = (a.size ≡ b.size) × (a.associativity ≡ b.associativity)
SameL2 _ _ = ⊥

abbrev pub SamePrefetching : MemoryHierarchyConfig → MemoryHierarchyConfig → Type 0
SamePrefetching a b =
    (a.use_stride_prediction ≡ b.use_stride_prediction)
    × (a.use_adaptive_prefetching ≡ b.use_adaptive_prefetching)

is_equal_iff : (a b : ℤ) → (is_equal a b ≡ true) ↔ (a ≡ b)
is_equal_iff (pos m) (pos n) = ground arith
is_equal_iff (negsuc m) (negsuc n) = ground arith
is_equal_iff (pos m) (negsuc n) = ground arith
is_equal_iff (negsuc m) (pos n) = ground arith

is_same_iff : (a b : Bool) → (is_same a b ≡ true) ↔ (a ≡ b)
is_same_iff true true = ground arith
is_same_iff true false = ground arith
is_same_iff false true = ground arith
is_same_iff false false = ground arith

-- Two lists together are empty when both are.
append_iff {ℓ κ ι} :
    {A : Type ℓ} {P : Type κ} {Q : Type ι} {xs ys : List A}
    → (xs ≡ []) ↔ P
    → (ys ≡ []) ↔ Q
    → (xs ++ ys ≡ []) ↔ (P × Q)
append_iff {xs = []} p q = (λ e. (p.0 refl, q.0 e), λ r. q.1 r.1)
append_iff {xs = x ∷ xs} p q = (λ e. absurd (cc), λ r. absurd (cc (p.1 r.0)))

int_difference_iff :
    (kind : ℤ → ℤ → Difference) (a b : ℤ) → (int_difference kind a b ≡ []) ↔ (a ≡ b)
int_difference_iff kind a b = ground (arith, is_equal_iff a b)

bool_difference_iff :
    (kind : Bool → Bool → Difference) (a b : Bool) → (bool_difference kind a b ≡ []) ↔ (a ≡ b)
bool_difference_iff kind a b = ground (arith, is_same_iff a b)

compare_l1_iff : (a b : CacheConfig) → (compare_l1 a b ≡ []) ↔ SameL1 a b
unfolding compare_l1
compare_l1_iff a b = append_iff (int_difference_iff l1_sizes a.size b.size) (
    append_iff (int_difference_iff l1_associativities a.associativity b.associativity) (
      append_iff (int_difference_iff block_sizes a.block_size b.block_size) (
        append_iff (bool_difference_iff prefetching a.prefetch_enabled b.prefetch_enabled)
          (int_difference_iff prefetch_distances a.prefetch_distance b.prefetch_distance))))

compare_l2_iff : (a b : Option CacheConfig) → (compare_l2 a b ≡ []) ↔ SameL2 a b
unfolding compare_l2
compare_l2_iff none none = (λ e. tt, λ s. refl)
compare_l2_iff none (some b) = (λ e. absurd (cc), λ s. elim s [ ])
compare_l2_iff (some a) none = (λ e. absurd (cc), λ s. elim s [ ])
compare_l2_iff (some a) (some b) =
    append_iff (int_difference_iff l2_sizes a.size b.size)
      (int_difference_iff l2_associativities a.associativity b.associativity)

compare_prefetching_iff :
    (a b : MemoryHierarchyConfig) → (compare_prefetching a b ≡ []) ↔ SamePrefetching a b
unfolding compare_prefetching
compare_prefetching_iff a b =
    append_iff
      (bool_difference_iff stride_prediction a.use_stride_prediction b.use_stride_prediction)
      (bool_difference_iff adaptive_prefetching a.use_adaptive_prefetching
        b.use_adaptive_prefetching)

-- The comparison finds no difference exactly when the two configurations agree on the size, the
-- associativity, the block size and the prefetching of L1, on the presence of L2 with its size and
-- associativity, and on the two strategies of prefetching. Nothing else is compared.
pub compare_configs_iff :
    {Double : Type 0} (config1 config2 : SimulatorConfig Double)
    → (compare_configs config1 config2 ≡ []) ↔ (
        SameL1 config1.hierarchy_config.l1_config config2.hierarchy_config.l1_config
        × (SameL2 config1.hierarchy_config.l2_config config2.hierarchy_config.l2_config
            × SamePrefetching config1.hierarchy_config config2.hierarchy_config))
unfolding compare_configs compare_hierarchies
compare_configs_iff config1 config2 =
    let a = config1.hierarchy_config in
    let b = config2.hierarchy_config in
    append_iff (compare_l1_iff a.l1_config b.l1_config)
      (append_iff (compare_l2_iff a.l2_config b.l2_config) (compare_prefetching_iff a b))
