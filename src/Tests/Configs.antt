-- ===== src/Tests/Configs.antt =====
-- Tests of Configuration on concrete inputs, and the examples of its theorems.
use cache_simulator.Prelude.{ℕ, ◌≡◌, refl, true, false, List, [], ◌∷◌, none, some, All}
use cache_simulator.Tests.Spelling.{codes}
use cache_simulator.Trace.Text.{Text}
use cache_simulator.Cache.Config.{pos, negsuc, ok, throw, no_sets}
use cache_simulator.Hierarchy.State as Hierarchy
use cache_simulator.Hierarchy.State.{MemoryHierarchyConfig}
use cache_simulator.Configuration.Numbers.{stoi, to_string, split, normalize_config_key}
use cache_simulator.Configuration.State.{
  SimulatorConfig, ParameterValue, int_value, bool_value, string_value, cache_config,
  get_default_config,
}
use cache_simulator.Configuration.Validation.{is_valid_size}
use cache_simulator.Configuration.Quick.{quick_hierarchy, parse_config_string}
use cache_simulator.Configuration.CommandLine.{create_from_command_line}
use cache_simulator.Configuration.Sweep.{l2_size, prefetch}
use cache_simulator.Configuration.Fitting.{fits}
use cache_simulator.Configuration.Building.{Buildable, parse_config_string-Buildable}
use cache_simulator.Arguments.{
  CommandLineOptions, default_options, options, refused, kind_of, set_value, set_alone, parse,
}
use cache_simulator.Arguments.Printing.{arguments_of, IsPrintable}
use cache_simulator.Arguments.RoundTrip.{parse-arguments_of}

stoi_test : stoi (codes " -42K") ≡ some (negsuc 41)
unfolding stoi
stoi_test = refl

stoi_out_of_range : stoi (codes "2147483648") ≡ none
unfolding stoi
stoi_out_of_range = refl

to_string_test : to_string (negsuc 2147483647) ≡ codes "-2147483648"
unfolding to_string
to_string_test = refl

split_test : split b':' (codes "1::2:") ≡ codes "1" ∷ [] ∷ codes "2" ∷ []
unfolding split
split_test = refl

normalize_test : normalize_config_key (codes "block_size") ≡ codes "blockSize"
unfolding normalize_config_key
normalize_test = refl

default_IsOk : (config : SimulatorConfig ℕ) × (get_default_config ℕ ≡ ok config)
unfolding get_default_config
default_IsOk = (_, refl)

abbrev levels : MemoryHierarchyConfig
unfolding cache_config
levels =
    quick_hierarchy (cache_config (pos 256) (pos 2) (pos 64) true (pos 4))
      (some (cache_config (pos 1024) (pos 4) (pos 64) true (pos 4))) true

abbrev quick : SimulatorConfig ℕ
quick = record { name = codes "Quick Configuration"; hierarchy_config = levels; extra_options = [] }

abbrev quick_text : Text
quick_text = codes "256:2:1024:4:64:1"

parse_quick : parse_config_string quick_text ≡ some quick
unfolding parse_config_string stoi
parse_quick = refl

parse_config_string-Buildable_example : Buildable (λ i. i) quick
parse_config_string-Buildable_example =
    parse_config_string-Buildable (λ i. i) quick_text parse_quick

-- The block size is not a power of two.
parse_refused : parse_config_string {Double = ℕ} (codes "256:2:0:4:48:1") ≡ none
unfolding parse_config_string stoi
parse_refused = refl

-- The product of 65535 ways and 65536 bytes overflows: the parser returns a configuration, and the
-- constructor of the hierarchy throws.
abbrev wide_text : Text
wide_text = codes "65536:65535:0:1:65536:0"

abbrev wide_levels : MemoryHierarchyConfig
unfolding cache_config
wide_levels =
    quick_hierarchy (cache_config (pos 65536) (pos 65535) (pos 65536) false (pos 4)) none false

parse_wide :
    parse_config_string {Double = ℕ} wide_text
    ≡ some (record {
      name = codes "Quick Configuration";
      hierarchy_config = wide_levels;
      extra_options = [];
    })
unfolding parse_config_string stoi wide_levels
parse_wide = refl

wide-create : Hierarchy.create (λ i. i) wide_levels ≡ throw no_sets
unfolding Hierarchy.create wide_levels cache_simulator.Cache.State.create
wide-create = refl

abbrev command : SimulatorConfig ℕ
command = record {
  name = codes "Command Line Configuration";
  hierarchy_config = levels;
  extra_options = (codes "verbose", string_value (codes "true")) ∷ [];
}

abbrev command_arguments : List Text
command_arguments =
    codes "64"
    ∷ codes "256"
    ∷ codes "2"
    ∷ codes "1024"
    ∷ codes "4"
    ∷ codes "1"
    ∷ codes "4"
    ∷ codes "--verbose"
    ∷ []

create_command : create_from_command_line command_arguments ≡ some command
unfolding create_from_command_line
create_command = refl

abbrev block_sizes : List (ParameterValue ℕ)
block_sizes = int_value (pos 32) ∷ int_value (pos 128) ∷ []

-- L2 may be removed, resized, or made anew, and prefetching turned on.
l2_sizes_fit :
    All
      (λ value. fits {Double = ℕ} levels l2_size value ≡ true)
      (int_value (pos 0) ∷ int_value (pos 512) ∷ [])
unfolding fits is_valid_size levels
l2_sizes_fit = (refl, (refl, tt))

l2_made_fits :
    fits {Double = ℕ} (record levels { l2_config = none }) l2_size (int_value (pos 4096)) ≡ true
unfolding fits is_valid_size levels cache_simulator.Configuration.State.new_config
l2_made_fits = refl

prefetch_fits : fits {Double = ℕ} levels prefetch (bool_value true) ≡ true
unfolding fits levels
prefetch_fits = refl

abbrev some_options : CommandLineOptions
some_options = record default_options {
  config_file = codes "small.json";
  trace_file = codes "loop.trace";
  use_colors = false;
  parallel = true;
  num_threads = pos 4;
  tech_node = pos 22;
}

printable : IsPrintable some_options (codes "4") (codes "22")
unfolding stoi kind_of
printable = record {
  tech_number = (refl, refl);
  threads_number = (refl, refl);
  output = refl;
  trace = refl;
}

parse-arguments_of_example :
    parse (arguments_of some_options (codes "4") (codes "22")) ≡ options some_options
parse-arguments_of_example = parse-arguments_of some_options (codes "4") (codes "22") printable

-- A trace file whose name starts with a digit is taken for a number of threads.
parse_digit :
    parse (codes "-p" ∷ codes "7.trace" ∷ [])
    ≡ options (record default_options { parallel = true; num_threads = pos 7 })
unfolding parse kind_of set_value set_alone
parse_digit = refl

-- No configuration file follows.
parse_refused_config : parse (codes "-c" ∷ []) ≡ refused
unfolding parse kind_of set_alone
parse_refused_config = refl
