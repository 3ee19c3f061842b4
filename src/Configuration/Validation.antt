-- ===== src/Configuration/Validation.antt =====
-- `validateConfig` of src/utils/config_utils.cpp with the tests of src/utils/config_utils.h.
use Prim.Native.Nat.{bit_and}
use cache_simulator.Prelude.{◌-◌, Bool, true, false, not, ◌&&◌, Option, none, some, ltb, ◌==◌}
use cache_simulator.Cache.Config.{ℤ, pos, negsuc, CacheConfig}
use cache_simulator.Hierarchy.State.{MemoryHierarchyConfig}
use cache_simulator.Configuration.Numbers.{is_equal, is_positive}
use cache_simulator.Configuration.State.{SimulatorConfig}

-- The messages, in the order of the tests.
pub data ValidationError : Type 0 where
  l1_size_not_power l1_associativity_not_positive block_size_not_power : ValidationError
  prefetch_distance_not_positive l2_size_not_power : ValidationError
  l2_associativity_not_positive block_sizes_differ : ValidationError

unfoldable pub is_valid_size : ℤ → Bool
is_valid_size (pos n) = ltb 0 n && (bit_and n (n - 1) == 0)
is_valid_size (negsuc n) = false

abbrev pub is_valid_associativity : ℤ → Bool
is_valid_associativity assoc = is_positive assoc

-- The first test that fails, and else the rest.
abbrev pub require : Bool → ValidationError → Option ValidationError → Option ValidationError
require true e rest = rest
require false e rest = some e

unfoldable pub validate_l2 : ℤ → Option CacheConfig → Option ValidationError
unfolding is_valid_size
validate_l2 block_size none = none
validate_l2 block_size (some l2) = require (is_valid_size l2.size) l2_size_not_power (
    require (is_valid_associativity l2.associativity) l2_associativity_not_positive
      (require (is_equal l2.block_size block_size) block_sizes_differ none))

unfoldable pub validate_hierarchy : MemoryHierarchyConfig → Option ValidationError
unfolding is_valid_size validate_l2
validate_hierarchy h = require (is_valid_size h.l1_config.size) l1_size_not_power (
    require (is_valid_associativity h.l1_config.associativity) l1_associativity_not_positive (
      require (is_valid_size h.l1_config.block_size) block_size_not_power (
        require
          (not (h.l1_config.prefetch_enabled && not (is_positive h.l1_config.prefetch_distance)))
          prefetch_distance_not_positive (validate_l2 h.l1_config.block_size h.l2_config))))

-- `none` stands for true, and an error for false with its message.
unfoldable pub validate_config : {Double : Type 0} → SimulatorConfig Double → Option ValidationError
unfolding validate_hierarchy
validate_config config = validate_hierarchy config.hierarchy_config
