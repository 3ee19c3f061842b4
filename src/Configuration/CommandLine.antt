-- ===== src/Configuration/CommandLine.antt =====
-- `createFromCommandLine` of src/utils/config_utils.cpp. The arguments are those after the program's name.
use cache_simulator.Prelude.{
  Bool, true, false, not, ◌&&◌, ◌==◌, List, [], ◌∷◌, Option, none, some, if◌then◌else◌,
}
use cache_simulator.Trace.Text.{Text}
use cache_simulator.Cache.Config.{ℤ, pos, negsuc}
use cache_simulator.Hierarchy.State.{MemoryHierarchyConfig}
use cache_simulator.Configuration.Numbers.{is_positive, stoi}
use cache_simulator.Configuration.State.{ParameterValue, string_value, SimulatorConfig}
use cache_simulator.Configuration.Validation.{is_valid_size, is_valid_associativity}
use cache_simulator.Configuration.Quick.{◌>>=◌, true_text, quick_levels}

abbrev command_line_name : Text
command_line_name =
    b'C' ∷ b'o' ∷ b'm' ∷ b'm' ∷ b'a' ∷ b'n' ∷ b'd' ∷ b' ' ∷ b'L' ∷ b'i' ∷ b'n' ∷ b'e' ∷ b' ' ∷ b'C'
    ∷ b'o' ∷ b'n' ∷ b'f' ∷ b'i' ∷ b'g' ∷ b'u' ∷ b'r' ∷ b'a' ∷ b't' ∷ b'i' ∷ b'o' ∷ b'n' ∷ []

abbrev pub is_negative : ℤ → Bool
is_negative (pos n) = false
is_negative (negsuc n) = true

-- The name of an option, less its two dashes.
abbrev pub option_name : Text → Option Text
option_name (a ∷ b ∷ rest) = if (a == b'-') && (b == b'-') then some rest else none
option_name _ = none

-- An option takes the argument after it for its value, whatever that is; at the end it is "true".
unfoldable pub read_options :
    {Double : Type 0}
    → List Text
    → List (Text × ParameterValue Double)
    → List (Text × ParameterValue Double)
read_options [] options = options
read_options (arg ∷ []) options = elim (option_name arg) [
  | some name ↦ (name, string_value true_text) ∷ options
  | none ↦ options
]
read_options (arg ∷ value ∷ rest) options = elim (option_name arg) [
  | some name ↦ read_options rest ((name, string_value value) ∷ options)
  | none ↦ read_options (value ∷ rest) options
]

-- The tests before a configuration is built.
unfoldable pub is_accepted : ℤ → ℤ → ℤ → ℤ → ℤ → Bool → ℤ → Bool
unfolding is_valid_size
is_accepted block_size l1_size l1_assoc l2_size l2_assoc enabled distance =
    is_valid_size block_size
    && (is_valid_size l1_size
        && (is_valid_associativity l1_assoc
            && (not (is_negative l2_size)
                && (not (is_positive l2_size && not (is_valid_associativity l2_assoc))
                    && not (enabled && not (is_positive distance))))))

abbrev pub accept : Bool → Option (Unit {0})
accept true = some tt
accept false = none

unfoldable pub command_config :
    {Double : Type 0} → MemoryHierarchyConfig → List Text → SimulatorConfig Double
unfolding read_options
command_config h more = record {
  name = command_line_name;
  hierarchy_config = h;
  extra_options = read_options more [];
}

-- At least seven arguments. An exception of `stoi` or of `CacheConfig` gives no configuration.
unfoldable pub create_from_command_line :
    {Double : Type 0} → List Text → Option (SimulatorConfig Double)
unfolding stoi is_accepted quick_levels command_config
create_from_command_line (t1 ∷ t2 ∷ t3 ∷ t4 ∷ t5 ∷ t6 ∷ t7 ∷ more) = do
  block_size ← stoi t1
  l1_size ← stoi t2
  l1_assoc ← stoi t3
  l2_size ← stoi t4
  l2_assoc ← stoi t5
  prefetching ← stoi t6
  distance ← stoi t7
  let enabled = is_positive prefetching
  _ ← accept (is_accepted block_size l1_size l1_assoc l2_size l2_assoc enabled distance)
  h ← quick_levels l1_size l1_assoc l2_size l2_assoc block_size enabled distance
  some (command_config h more)
create_from_command_line _ = none
