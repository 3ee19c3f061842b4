-- ===== src/Configuration/State.antt =====
-- `SimulatorConfig` and `getDefaultConfig` of src/utils/config_utils.h and src/utils/config_utils.cpp. A map of
-- options is an association list, newest first. Numbers of type `double` are a parameter.
use cache_simulator.Prelude.{◌≡◌, refl, Bool, true, false, List, [], ◌∷◌, none, some}
use cache_simulator.Trace.Text.{Text}
use cache_simulator.Replacement.Policy.{lru}
use cache_simulator.Cache.Config.{
  ℤ, pos, CacheConfig, write_back, Result, ok, throw, abort, ◌>>=◌, validate,
}
use cache_simulator.Hierarchy.State.{MemoryHierarchyConfig}

-- The alternatives of the variant of `generateParameterSweep`, and what an option holds.
pub data ParameterValue (Double : Type 0) : Type 0 where
  int_value : ℤ → ParameterValue Double
  bool_value : Bool → ParameterValue Double
  double_value : Double → ParameterValue Double
  string_value : Text → ParameterValue Double

pub record SimulatorConfig (Double : Type 0) : Type 0 where
  pub name : Text
  pub hierarchy_config : MemoryHierarchyConfig
  pub extra_options : List (Text × ParameterValue Double)

-- The constructor of `CacheConfig` with its last two arguments at their defaults, before it validates.
unfoldable pub cache_config : ℤ → ℤ → ℤ → Bool → ℤ → CacheConfig
cache_config size associativity block_size prefetch_enabled prefetch_distance = record {
  size = size;
  associativity = associativity;
  block_size = block_size;
  prefetch_enabled = prefetch_enabled;
  prefetch_distance = prefetch_distance;
  replacement_policy = lru;
  write_policy = write_back;
}

-- The constructor of `CacheConfig` throws where the configuration does not validate.
unfoldable pub new_config : ℤ → ℤ → ℤ → Bool → ℤ → Result CacheConfig
unfolding cache_config validate
new_config size associativity block_size prefetch_enabled prefetch_distance =
    let config = cache_config size associativity block_size prefetch_enabled prefetch_distance in
    do _ ← validate config; ok config

abbrev pub is_ok : {A : Type 0} → Result A → Bool
is_ok (ok a) = true
is_ok _ = false

kept_lem :
    {A : Type 0} (r : Result A) (config : CacheConfig)
    → is_ok (do _ ← r; ok config) ≡ true
    → (do _ ← r; ok config) ≡ ok config
kept_lem (ok a) config e = refl
kept_lem (throw error) config e = absurd (cc)
kept_lem abort config e = absurd (cc)

-- The constructor keeps the numbers that it is given.
pub new_config_lem :
    (size associativity block_size : ℤ) (prefetch_enabled : Bool) (distance : ℤ)
    → is_ok (new_config size associativity block_size prefetch_enabled distance) ≡ true
    → new_config size associativity block_size prefetch_enabled distance
      ≡ ok (cache_config size associativity block_size prefetch_enabled distance)
unfolding new_config
new_config_lem size associativity block_size prefetch_enabled distance e =
    let config = cache_config size associativity block_size prefetch_enabled distance in
    kept_lem (validate config) config e

abbrev default_name : Text
default_name =
    b'D' ∷ b'e' ∷ b'f' ∷ b'a' ∷ b'u' ∷ b'l' ∷ b't' ∷ b' ' ∷ b'C' ∷ b'o' ∷ b'n' ∷ b'f' ∷ b'i' ∷ b'g'
    ∷ b'u' ∷ b'r' ∷ b'a' ∷ b't' ∷ b'i' ∷ b'o' ∷ b'n' ∷ []

unfoldable pub get_default_config : (Double : Type 0) → Result (SimulatorConfig Double)
unfolding new_config
get_default_config Double = do
  l1 ← new_config (pos 32768) (pos 4) (pos 64) true (pos 4)
  l2 ← new_config (pos 262144) (pos 8) (pos 64) true (pos 4)
  ok (record {
    name = default_name;
    hierarchy_config = record {
      l1_config = l1;
      l2_config = some l2;
      l3_config = none;
      use_stride_prediction = true;
      use_adaptive_prefetching = true;
      stride_table_size = pos 1024;
      l3_inclusive = true;
    };
    extra_options = [];
  })
