-- ===== src/Configuration/Fitting.antt =====
-- The values with which `generateParameterSweep` of src/utils/config_utils.cpp keeps a valid hierarchy valid.
use cache_simulator.Prelude.{◌≡◌, Bool, true, false, ◌&&◌, Option, none, some, arith, if◌then◌else◌}
use cache_simulator.Cache.Config.{ℤ, pos, CacheConfig}
use cache_simulator.Hierarchy.State.{MemoryHierarchyConfig}
use cache_simulator.Configuration.Numbers.{is_positive}
use cache_simulator.Configuration.State.{ParameterValue, int_value, bool_value, new_config, is_ok}
use cache_simulator.Configuration.Validation.{is_valid_size, validate_l2, validate_hierarchy}
use cache_simulator.Configuration.Changes.{is_equal_refl}
use cache_simulator.Configuration.Sweep.{
  l1_size, l1_assoc, l2_size, l2_assoc, block_size, prefetch, prefetch_distance, extra_option,
  Parameter, change_l1, change_l2, set_block_size, set_prefetching, set_distance, with_size,
  with_associativity,
}

abbrev pub int_passes : {Double : Type 0} → (ℤ → Bool) → ParameterValue Double → Bool
int_passes p (int_value n) = p n
int_passes p _ = false

abbrev pub bool_passes : {Double : Type 0} → (Bool → Bool) → ParameterValue Double → Bool
bool_passes p (bool_value b) = p b
bool_passes p _ = false

-- There is an L2 to resize, or `CacheConfig` accepts a new one.
abbrev pub has_room : ℤ → CacheConfig → Option CacheConfig → Bool
has_room n l1 (some l2) = true
has_room n l1 none =
    is_ok (new_config n (pos 8) l1.block_size l1.prefetch_enabled l1.prefetch_distance)

abbrev pub l2_size_fits : ℤ → CacheConfig → Option CacheConfig → Bool
l2_size_fits n l1 l2 = if is_positive n then is_valid_size n && has_room n l1 l2 else true

-- The values that keep a configuration valid: sizes that are powers of two, positive associativities
-- and distances, and prefetching turned off or turned on with a positive distance. A size of L2 that is
-- not positive removes L2; a positive one is a power of two, and where there is no L2 `CacheConfig`
-- accepts a new one of that size.
unfoldable pub fits :
    {Double : Type 0} → MemoryHierarchyConfig → Parameter → ParameterValue Double → Bool
fits h l1_size value = int_passes is_valid_size value
fits h l1_assoc value = int_passes is_positive value
fits h l2_size value = int_passes (λ n. l2_size_fits n h.l1_config h.l2_config) value
fits h l2_assoc value = int_passes is_positive value
fits h block_size value = int_passes is_valid_size value
fits h prefetch value =
    bool_passes (λ b. if b then is_positive h.l1_config.prefetch_distance else true) value
fits h prefetch_distance value = int_passes is_positive value
fits h extra_option value = true

pub change_l1_size :
    (h : MemoryHierarchyConfig) (n : ℤ)
    → is_valid_size n ≡ true
    → validate_hierarchy h ≡ none
    → validate_hierarchy (change_l1 (with_size n) h) ≡ none
unfolding validate_hierarchy
change_l1_size h n fit v = ground arith

pub set_block_size_lem :
    (h : MemoryHierarchyConfig) (n : ℤ)
    → is_valid_size n ≡ true
    → validate_hierarchy h ≡ none
    → validate_hierarchy (set_block_size n h) ≡ none
unfolding validate_hierarchy validate_l2
set_block_size_lem h n fit v = ground (arith, is_equal_refl n)

pub change_l1_associativity :
    (h : MemoryHierarchyConfig) (n : ℤ)
    → is_positive n ≡ true
    → validate_hierarchy h ≡ none
    → validate_hierarchy (change_l1 (with_associativity n) h) ≡ none
unfolding validate_hierarchy
change_l1_associativity h n fit v = ground arith

pub change_l2_associativity :
    (h : MemoryHierarchyConfig) (n : ℤ)
    → is_positive n ≡ true
    → validate_hierarchy h ≡ none
    → validate_hierarchy (change_l2 (with_associativity n) h) ≡ none
unfolding validate_hierarchy validate_l2
change_l2_associativity h n fit v = ground arith

pub set_prefetching_lem :
    (h : MemoryHierarchyConfig) (b : Bool)
    → (if b then is_positive h.l1_config.prefetch_distance else true) ≡ true
    → validate_hierarchy h ≡ none
    → validate_hierarchy (set_prefetching b h) ≡ none
unfolding validate_hierarchy validate_l2
set_prefetching_lem h b fit v = ground arith

pub set_distance_lem :
    (h : MemoryHierarchyConfig) (n : ℤ)
    → is_positive n ≡ true
    → validate_hierarchy h ≡ none
    → validate_hierarchy (set_distance n h) ≡ none
unfolding validate_hierarchy validate_l2
set_distance_lem h n fit v = ground arith

pub validate_hierarchy-l2 :
    (h : MemoryHierarchyConfig)
    → validate_hierarchy h ≡ none
    → validate_l2 h.l1_config.block_size h.l2_config ≡ none
unfolding validate_hierarchy
validate_hierarchy-l2 h v = ground arith

pub replace_l2 :
    (h : MemoryHierarchyConfig) (l2 : Option CacheConfig)
    → validate_hierarchy h ≡ none
    → validate_l2 h.l1_config.block_size l2 ≡ none
    → validate_hierarchy (record h { l2_config = l2 }) ≡ none
unfolding validate_hierarchy
replace_l2 h l2 v w = ground arith
