-- ===== src/Configuration/Quick.antt =====
-- `parseConfigString` of src/utils/config_utils.cpp.
use cache_simulator.Prelude.{Bool, true, ◌||◌, List, [], ◌∷◌, Option, none, some, if◌then◌else◌}
use cache_simulator.Trace.Text.{Text}
use cache_simulator.Cache.Config.{ℤ, pos, CacheConfig, Result, ok, throw, abort}
use cache_simulator.Hierarchy.State.{MemoryHierarchyConfig}
use cache_simulator.Configuration.Numbers.{is_text, is_positive, stoi, split}
use cache_simulator.Configuration.State.{SimulatorConfig, new_config}
use cache_simulator.Configuration.Validation.{ValidationError, validate_config}

infixl 5 ◌>>=◌
abbrev pub ◌>>=◌ {ℓ κ} : {A : Type ℓ} {B : Type κ} → Option A → (A → Option B) → Option B
none >>= f = none
some a >>= f = f a

abbrev quick_name : Text
quick_name =
    b'Q' ∷ b'u' ∷ b'i' ∷ b'c' ∷ b'k' ∷ b' ' ∷ b'C' ∷ b'o' ∷ b'n' ∷ b'f' ∷ b'i' ∷ b'g' ∷ b'u' ∷ b'r'
    ∷ b'a' ∷ b't' ∷ b'i' ∷ b'o' ∷ b'n' ∷ []

abbrev pub one_text : Text
one_text = b'1' ∷ []

abbrev pub true_text : Text
true_text = b't' ∷ b'r' ∷ b'u' ∷ b'e' ∷ []

abbrev pub yes_text : Text
yes_text = b'y' ∷ b'e' ∷ b's' ∷ []

unfoldable pub is_enabled : Text → Bool
is_enabled token = is_text token one_text || (is_text token true_text || is_text token yes_text)

-- An exception is caught and gives no configuration. A division by zero is not caught: it gives none
-- since the program ends.
abbrev pub caught {ℓ} : {A : Type ℓ} → Result A → Option A
caught (ok a) = some a
caught (throw e) = none
caught abort = none

-- The seventh token, if there is one.
abbrev pub distance_of : List Text → Option ℤ
distance_of [] = some (pos 4)
distance_of (token ∷ tokens) = stoi token

unfoldable pub quick_l2 : ℤ → ℤ → ℤ → Bool → ℤ → Option (Option CacheConfig)
unfolding new_config
quick_l2 size associativity block_size enabled distance =
    if is_positive size
    then (do
      l2 ← caught (new_config size associativity block_size enabled distance)
      some (some l2))
    else some none

abbrev pub quick_hierarchy : CacheConfig → Option CacheConfig → Bool → MemoryHierarchyConfig
quick_hierarchy l1 l2 enabled = record {
  l1_config = l1;
  l2_config = l2;
  l3_config = none;
  use_stride_prediction = enabled;
  use_adaptive_prefetching = enabled;
  stride_table_size = pos 1024;
  l3_inclusive = true;
}

-- L1 and L2 with one block size, one prefetch distance and one switch for all prefetching.
unfoldable pub quick_levels : ℤ → ℤ → ℤ → ℤ → ℤ → Bool → ℤ → Option MemoryHierarchyConfig
unfolding new_config quick_l2
quick_levels l1_size l1_assoc l2_size l2_assoc block_size enabled distance = do
  l1 ← caught (new_config l1_size l1_assoc block_size enabled distance)
  l2 ← quick_l2 l2_size l2_assoc block_size enabled distance
  some (quick_hierarchy l1 l2 enabled)

abbrev pub accept_valid : {A : Type 0} → A → Option ValidationError → Option A
accept_valid config none = some config
accept_valid config (some e) = none

unfoldable pub validated :
    {Double : Type 0} → MemoryHierarchyConfig → Option (SimulatorConfig Double)
unfolding validate_config
validated {Double} h =
    let config : SimulatorConfig Double = record {
      name = quick_name;
      hierarchy_config = h;
      extra_options = [];
    } in
    accept_valid config (validate_config config)

unfoldable pub parse_tokens : {Double : Type 0} → List Text → Option (SimulatorConfig Double)
unfolding is_enabled stoi quick_levels validated
parse_tokens (t0 ∷ t1 ∷ t2 ∷ t3 ∷ t4 ∷ t5 ∷ more) = do
  l1_size ← stoi t0
  l1_assoc ← stoi t1
  l2_size ← stoi t2
  l2_assoc ← stoi t3
  block_size ← stoi t4
  distance ← distance_of more
  h ← quick_levels l1_size l1_assoc l2_size l2_assoc block_size (is_enabled t5) distance
  validated h
parse_tokens _ = none

unfoldable pub parse_config_string : {Double : Type 0} → Text → Option (SimulatorConfig Double)
unfolding split stoi parse_tokens
parse_config_string cs = parse_tokens (split b':' cs)
