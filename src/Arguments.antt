-- ===== src/Arguments.antt =====
-- `CLIParser::parse` with `CommandLineOptions` of src/utils/cli_parser.h and src/utils/cli_parser.cpp.
use cache_simulator.Prelude.{
  ℕ, Bool, true, false, not, ◌&&◌, ◌||◌, List, [], ◌∷◌, Option, none, some, leb, ◌==◌,
  if◌then◌else◌,
}
use cache_simulator.Trace.Text.{Text}
use cache_simulator.Cache.Config.{ℤ, pos}
use cache_simulator.Configuration.Numbers.{is_text, stoi}
pub mod Printing
pub mod RoundTrip

pub record CommandLineOptions : Type 0 where
  pub config_file : Text
  pub trace_file : Text
  pub run_benchmark : Bool
  pub visualize_results : Bool
  pub export_results : Bool
  pub output_path : Text
  pub verbose : Bool
  pub help : Bool
  pub version : Bool
  pub use_colors : Bool
  pub parallel : Bool
  pub num_threads : ℤ
  pub use_victim_cache : Bool
  pub show_charts : Bool
  pub show_power_stats : Bool
  pub tech_node : ℤ

abbrev pub default_options : CommandLineOptions
default_options = record {
  config_file = [];
  trace_file = [];
  run_benchmark = false;
  visualize_results = false;
  export_results = false;
  output_path = [];
  verbose = false;
  help = false;
  version = false;
  use_colors = true;
  parallel = false;
  num_threads = pos 0;
  use_victim_cache = false;
  show_charts = false;
  show_power_stats = false;
  tech_node = pos 45;
}

-- An error message, or an exception of `stoi`, gives no options.
pub data ParseOutcome : Type 0 where
  options : CommandLineOptions → ParseOutcome
  refused : ParseOutcome
  thrown : ParseOutcome

-- What an argument is.
pub data ArgumentKind : Type 0 where
  help version benchmark visualize no_color verbose parallel victim_cache charts power :
      ArgumentKind
  tech_node export config trace_file unknown : ArgumentKind

abbrev pub help_text : Text
help_text = b'-' ∷ b'h' ∷ []

abbrev help_long : Text
help_long = b'-' ∷ b'-' ∷ b'h' ∷ b'e' ∷ b'l' ∷ b'p' ∷ []

abbrev pub version_text : Text
version_text = b'-' ∷ b'v' ∷ []

abbrev version_long : Text
version_long = b'-' ∷ b'-' ∷ b'v' ∷ b'e' ∷ b'r' ∷ b's' ∷ b'i' ∷ b'o' ∷ b'n' ∷ []

abbrev pub benchmark_text : Text
benchmark_text = b'-' ∷ b'b' ∷ []

abbrev benchmark_long : Text
benchmark_long = b'-' ∷ b'-' ∷ b'b' ∷ b'e' ∷ b'n' ∷ b'c' ∷ b'h' ∷ b'm' ∷ b'a' ∷ b'r' ∷ b'k' ∷ []

abbrev pub visualize_text : Text
visualize_text = b'-' ∷ b'-' ∷ b'v' ∷ b'i' ∷ b's' ∷ []

abbrev visualize_long : Text
visualize_long = b'-' ∷ b'-' ∷ b'v' ∷ b'i' ∷ b's' ∷ b'u' ∷ b'a' ∷ b'l' ∷ b'i' ∷ b'z' ∷ b'e' ∷ []

abbrev pub no_color_text : Text
no_color_text = b'-' ∷ b'-' ∷ b'n' ∷ b'o' ∷ b'-' ∷ b'c' ∷ b'o' ∷ b'l' ∷ b'o' ∷ b'r' ∷ []

abbrev pub verbose_text : Text
verbose_text = b'-' ∷ b'-' ∷ b'v' ∷ b'e' ∷ b'r' ∷ b'b' ∷ b'o' ∷ b's' ∷ b'e' ∷ []

abbrev pub parallel_text : Text
parallel_text = b'-' ∷ b'p' ∷ []

abbrev parallel_long : Text
parallel_long = b'-' ∷ b'-' ∷ b'p' ∷ b'a' ∷ b'r' ∷ b'a' ∷ b'l' ∷ b'l' ∷ b'e' ∷ b'l' ∷ []

abbrev pub victim_cache_text : Text
victim_cache_text =
    b'-' ∷ b'-' ∷ b'v' ∷ b'i' ∷ b'c' ∷ b't' ∷ b'i' ∷ b'm' ∷ b'-' ∷ b'c' ∷ b'a' ∷ b'c' ∷ b'h' ∷ b'e'
    ∷ []

abbrev pub charts_text : Text
charts_text = b'-' ∷ b'-' ∷ b'c' ∷ b'h' ∷ b'a' ∷ b'r' ∷ b't' ∷ b's' ∷ []

abbrev pub power_text : Text
power_text = b'-' ∷ b'-' ∷ b'p' ∷ b'o' ∷ b'w' ∷ b'e' ∷ b'r' ∷ []

abbrev pub tech_node_text : Text
tech_node_text = b'-' ∷ b'-' ∷ b't' ∷ b'e' ∷ b'c' ∷ b'h' ∷ b'-' ∷ b'n' ∷ b'o' ∷ b'd' ∷ b'e' ∷ []

abbrev pub export_text : Text
export_text = b'-' ∷ b'e' ∷ []

abbrev export_long : Text
export_long = b'-' ∷ b'-' ∷ b'e' ∷ b'x' ∷ b'p' ∷ b'o' ∷ b'r' ∷ b't' ∷ []

abbrev pub config_text : Text
config_text = b'-' ∷ b'c' ∷ []

abbrev config_long : Text
config_long = b'-' ∷ b'-' ∷ b'c' ∷ b'o' ∷ b'n' ∷ b'f' ∷ b'i' ∷ b'g' ∷ []

abbrev pub starts_with_dash : Text → Bool
starts_with_dash [] = false
starts_with_dash (c ∷ cs) = c == b'-'

abbrev pub starts_with_digit : Text → Bool
starts_with_digit [] = false
starts_with_digit (c ∷ cs) = leb b'0' c && leb c b'9'

unfoldable pub kind_of : Text → ArgumentKind
kind_of arg =
    if is_text arg help_text || is_text arg help_long
    then help
    else if is_text arg version_text || is_text arg version_long
    then version
    else if is_text arg benchmark_text || is_text arg benchmark_long
    then benchmark
    else if is_text arg visualize_text || is_text arg visualize_long
    then visualize
    else if is_text arg no_color_text
    then no_color
    else if is_text arg verbose_text
    then verbose
    else if is_text arg parallel_text || is_text arg parallel_long
    then parallel
    else if is_text arg victim_cache_text
    then victim_cache
    else if is_text arg charts_text
    then charts
    else if is_text arg power_text
    then power
    else if is_text arg tech_node_text
    then tech_node
    else if is_text arg export_text || is_text arg export_long
    then export
    else if is_text arg config_text || is_text arg config_long
    then config
    else if starts_with_dash arg
    then unknown
    else trace_file

-- Whether an argument of a kind takes the next one for its value.
abbrev pub takes_value : ArgumentKind → Text → Bool
takes_value parallel next = starts_with_digit next
takes_value tech_node next = starts_with_digit next
takes_value export next = not (starts_with_dash next)
takes_value config next = true
takes_value _ next = false

abbrev pub with_number : (ℤ → CommandLineOptions) → Option ℤ → Option CommandLineOptions
with_number f none = none
with_number f (some n) = some (f n)

-- The options after an argument with its value; `none` is an exception.
unfoldable pub set_value : ArgumentKind → Text → CommandLineOptions → Option CommandLineOptions
unfolding stoi
set_value parallel value o =
    with_number (λ n. record o { parallel = true; num_threads = n }) (stoi value)
set_value tech_node value o = with_number (λ n. record o { tech_node = n }) (stoi value)
set_value export value o = some (record o { export_results = true; output_path = value })
set_value config value o = some (record o { config_file = value })
set_value _ value o = some o

abbrev pub default_output : Text
default_output =
    b'c' ∷ b'a' ∷ b'c' ∷ b'h' ∷ b'e' ∷ b'_' ∷ b's' ∷ b'i' ∷ b'm' ∷ b'_' ∷ b'r' ∷ b'e' ∷ b's' ∷ b'u'
    ∷ b'l' ∷ b't' ∷ b's' ∷ b'.' ∷ b'c' ∷ b's' ∷ b'v' ∷ []

-- The options after an argument alone; `none` is an error.
unfoldable pub set_alone : ArgumentKind → Text → CommandLineOptions → Option CommandLineOptions
set_alone help arg o = some (record o { help = true })
set_alone version arg o = some (record o { version = true })
set_alone benchmark arg o = some (record o { run_benchmark = true })
set_alone visualize arg o = some (record o { visualize_results = true })
set_alone no_color arg o = some (record o { use_colors = false })
set_alone verbose arg o = some (record o { verbose = true })
set_alone parallel arg o = some (record o { parallel = true })
set_alone victim_cache arg o = some (record o { use_victim_cache = true })
set_alone charts arg o = some (record o { show_charts = true })
set_alone power arg o = some (record o { show_power_stats = true })
set_alone tech_node arg o = some o
set_alone export arg o = some (record o { export_results = true; output_path = default_output })
set_alone config arg o = none
set_alone trace_file arg o = some (record o { trace_file = arg })
set_alone unknown arg o = none

unfoldable pub parse_from : CommandLineOptions → List Text → ParseOutcome
parse_from o [] = options o
parse_from o (arg ∷ []) = elim (set_alone (kind_of arg) arg o) [
  | some o' ↦ options o'
  | none ↦ refused
]
parse_from o (arg ∷ next ∷ rest) = elim (takes_value (kind_of arg) next) [
  | true ↦ elim (set_value (kind_of arg) next o) [ some o' ↦ parse_from o' rest | none ↦ thrown ]
  | false ↦ elim (set_alone (kind_of arg) arg o) [
    | some o' ↦ parse_from o' (next ∷ rest)
    | none ↦ refused
  ]
]

-- The arguments are those after the program's name.
unfoldable pub parse : List Text → ParseOutcome
unfolding parse_from
parse arguments = parse_from default_options arguments
