-- ===== src/Configuration/Sweep.antt =====
-- `generateParameterSweep` of src/utils/config_utils.cpp. `none` stands for an exception: a value of
-- another type than the parameter's, or an L2 that `CacheConfig` refuses. It also stands for the end of the
-- program where that constructor divides by zero.
use cache_simulator.Prelude.{Bool, List, [], ◌∷◌, ◌++◌, Option, none, some, if◌then◌else◌}
use cache_simulator.Trace.Text.{Text}
use cache_simulator.Cache.Config.{ℤ, pos, CacheConfig}
use cache_simulator.Hierarchy.State.{MemoryHierarchyConfig}
use cache_simulator.Configuration.Numbers.{is_text, is_positive, to_string}
use cache_simulator.Configuration.State.{
  ParameterValue, int_value, bool_value, double_value, string_value, SimulatorConfig, new_config,
}
use cache_simulator.Configuration.Quick.{◌>>=◌, caught, true_text}

abbrev pub false_text : Text
false_text = b'f' ∷ b'a' ∷ b'l' ∷ b's' ∷ b'e' ∷ []

abbrev size_of : Text
size_of = b'_' ∷ b's' ∷ b'i' ∷ b'z' ∷ b'e' ∷ []

abbrev assoc_of : Text
assoc_of = b'_' ∷ b'a' ∷ b's' ∷ b's' ∷ b'o' ∷ b'c' ∷ []

abbrev pub l1_size_text : Text
l1_size_text = b'l' ∷ b'1' ∷ size_of

abbrev pub l1_assoc_text : Text
l1_assoc_text = b'l' ∷ b'1' ∷ assoc_of

abbrev pub l2_size_text : Text
l2_size_text = b'l' ∷ b'2' ∷ size_of

abbrev pub l2_assoc_text : Text
l2_assoc_text = b'l' ∷ b'2' ∷ assoc_of

abbrev pub block_size_text : Text
block_size_text = b'b' ∷ b'l' ∷ b'o' ∷ b'c' ∷ b'k' ∷ size_of

abbrev pub prefetch_text : Text
prefetch_text = b'p' ∷ b'r' ∷ b'e' ∷ b'f' ∷ b'e' ∷ b't' ∷ b'c' ∷ b'h' ∷ []

abbrev pub prefetch_distance_text : Text
prefetch_distance_text =
    prefetch_text ++ (b'_' ∷ b'd' ∷ b'i' ∷ b's' ∷ b't' ∷ b'a' ∷ b'n' ∷ b'c' ∷ b'e' ∷ [])

-- What the name of a parameter stands for: a place in the hierarchy, or an option by that name.
pub data Parameter : Type 0 where
  l1_size l1_assoc l2_size l2_assoc block_size prefetch prefetch_distance extra_option : Parameter

unfoldable pub parameter_of : Text → Parameter
parameter_of param =
    if is_text param l1_size_text
    then l1_size
    else if is_text param l1_assoc_text
    then l1_assoc
    else if is_text param l2_size_text
    then l2_size
    else if is_text param l2_assoc_text
    then l2_assoc
    else if is_text param block_size_text
    then block_size
    else if is_text param prefetch_text
    then prefetch
    else if is_text param prefetch_distance_text
    then prefetch_distance
    else extra_option

abbrev pub text_of_bool : Bool → Text
text_of_bool b = if b then true_text else false_text

-- Changes to L1, and to L2 where there is one.
abbrev pub change_l1 : (CacheConfig → CacheConfig) → MemoryHierarchyConfig → MemoryHierarchyConfig
change_l1 f h = record h { l1_config = f h.l1_config }

abbrev pub change_option {ℓ} : {A : Type ℓ} → (A → A) → Option A → Option A
change_option f none = none
change_option f (some a) = some (f a)

abbrev pub change_l2 : (CacheConfig → CacheConfig) → MemoryHierarchyConfig → MemoryHierarchyConfig
change_l2 f h = record h { l2_config = change_option f h.l2_config }

abbrev pub with_size : ℤ → CacheConfig → CacheConfig
with_size n c = record c { size = n }

abbrev pub with_associativity : ℤ → CacheConfig → CacheConfig
with_associativity n c = record c { associativity = n }

abbrev pub with_block_size : ℤ → CacheConfig → CacheConfig
with_block_size n c = record c { block_size = n }

abbrev pub with_prefetching : Bool → CacheConfig → CacheConfig
with_prefetching b c = record c { prefetch_enabled = b }

abbrev pub with_distance : ℤ → CacheConfig → CacheConfig
with_distance n c = record c { prefetch_distance = n }

-- A positive size resizes L2 or makes one; any other removes it.
unfoldable pub resize_l2 : ℤ → CacheConfig → Option CacheConfig → Option (Option CacheConfig)
unfolding new_config
resize_l2 size l1 l2 =
    if is_positive size
    then elim l2 [
      | some config ↦ some (some (with_size size config))
      | none ↦ do
        made ←
            caught (new_config size (pos 8) l1.block_size l1.prefetch_enabled l1.prefetch_distance)
        some (some made)
    ]
    else some none

unfoldable pub set_l2_size : ℤ → MemoryHierarchyConfig → Option MemoryHierarchyConfig
unfolding resize_l2
set_l2_size size h = do
  l2 ← resize_l2 size h.l1_config h.l2_config
  some (record h { l2_config = l2 })

abbrev pub set_block_size : ℤ → MemoryHierarchyConfig → MemoryHierarchyConfig
set_block_size n h = change_l2 (with_block_size n) (change_l1 (with_block_size n) h)

abbrev pub set_prefetching : Bool → MemoryHierarchyConfig → MemoryHierarchyConfig
set_prefetching b h = record (change_l2 (with_prefetching b) (change_l1 (with_prefetching b) h)) {
  use_stride_prediction = b;
  use_adaptive_prefetching = b;
}

abbrev pub set_distance : ℤ → MemoryHierarchyConfig → MemoryHierarchyConfig
set_distance n h = change_l2 (with_distance n) (change_l1 (with_distance n) h)

module _ {Double : Type 0} where
  -- `std::get<int>` and `std::get<bool>`.
  abbrev pub get_int : ParameterValue Double → Option ℤ
  get_int (int_value n) = some n
  get_int _ = none

  abbrev pub get_bool : ParameterValue Double → Option Bool
  get_bool (bool_value b) = some b
  get_bool _ = none

  -- The hierarchy with the parameter set; an extra option leaves it as it is.
  unfoldable pub set_parameter :
      Parameter → ParameterValue Double → MemoryHierarchyConfig → Option MemoryHierarchyConfig
  unfolding set_l2_size
  set_parameter l1_size value h = do n ← get_int value; some (change_l1 (with_size n) h)
  set_parameter l1_assoc value h = do n ← get_int value; some (change_l1 (with_associativity n) h)
  set_parameter l2_size value h = do n ← get_int value; set_l2_size n h
  set_parameter l2_assoc value h = do n ← get_int value; some (change_l2 (with_associativity n) h)
  set_parameter block_size value h = do n ← get_int value; some (set_block_size n h)
  set_parameter prefetch value h = do b ← get_bool value; some (set_prefetching b h)
  set_parameter prefetch_distance value h = do n ← get_int value; some (set_distance n h)
  set_parameter extra_option value h = some h

-- The options after the call: an extra option is set to its value.
abbrev pub add_option : {A : Type 0} → Parameter → Text → A → List (Text × A) → List (Text × A)
add_option extra_option param value options = (param, value) ∷ options
add_option _ param value options = options

-- The name of a configuration: the base's, then the parameter and its value in parentheses.
abbrev pub name_of : Text → Text → Text → Text
name_of base param value = base ++ ((b' ' ∷ b'(' ∷ param) ++ ((b'=' ∷ value) ++ (b')' ∷ [])))

module _ {Double : Type 0} (show_double : Double → Text) where
  abbrev pub text_of : ParameterValue Double → Text
  text_of (int_value n) = to_string n
  text_of (bool_value b) = text_of_bool b
  text_of (double_value d) = show_double d
  text_of (string_value cs) = cs

  abbrev pub swept :
      SimulatorConfig Double
      → Text
      → ParameterValue Double
      → MemoryHierarchyConfig
      → SimulatorConfig Double
  swept base param value h = record {
    name = name_of base.name param (text_of value);
    hierarchy_config = h;
    extra_options = add_option (parameter_of param) param value base.extra_options;
  }

  unfoldable pub sweep_value :
      SimulatorConfig Double → Text → ParameterValue Double → Option (SimulatorConfig Double)
  unfolding set_parameter parameter_of to_string
  sweep_value base param value = do
    h ← set_parameter (parameter_of param) value base.hierarchy_config
    some (swept base param value h)

  unfoldable pub generate_parameter_sweep :
      SimulatorConfig Double
      → Text
      → List (ParameterValue Double)
      → Option (List (SimulatorConfig Double))
  unfolding sweep_value
  generate_parameter_sweep base param [] = some []
  generate_parameter_sweep base param (value ∷ values) = do
    config ← sweep_value base param value
    rest ← generate_parameter_sweep base param values
    some (config ∷ rest)
