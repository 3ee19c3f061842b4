-- ===== src/Arguments/Printing.antt =====
-- Options written as arguments, and read by `CLIParser::parse` of src/utils/cli_parser.cpp.
use cache_simulator.Prelude.{◌≡◌, refl, sym, ap, Bool, true, false, not, List, [], ◌∷◌, some}
use cache_simulator.Trace.Text.{Text}
use cache_simulator.Cache.Config.{ℤ, pos}
use cache_simulator.Configuration.Numbers.{stoi}
use cache_simulator.Arguments.{
  CommandLineOptions, options, trace_file, help_text, version_text, benchmark_text, visualize_text,
  no_color_text, verbose_text, parallel_text, victim_cache_text, charts_text, power_text,
  tech_node_text, export_text, config_text, starts_with_dash, starts_with_digit, kind_of,
  takes_value, with_number, set_value, set_alone, parse_from,
}

abbrev pub when : Bool → Text → List Text → List Text
when true arg rest = arg ∷ rest
when false arg rest = rest

abbrev pub when_value : Bool → Text → Text → List Text → List Text
when_value true arg value rest = arg ∷ value ∷ rest
when_value false arg value rest = rest

-- A flag for each choice that is not the default, the numbers as they are spelt, and the paths.
unfoldable pub arguments_of : CommandLineOptions → Text → Text → List Text
arguments_of o threads tech = when o.help help_text (
    when o.version version_text (
      when o.run_benchmark benchmark_text (
        when o.visualize_results visualize_text (
          when (not o.use_colors) no_color_text (
            when o.verbose verbose_text (
              when o.use_victim_cache victim_cache_text (
                when o.show_charts charts_text (
                  when o.show_power_stats power_text (
                    when_value o.parallel parallel_text threads (
                      when_value o.export_results export_text o.output_path (
                        tech_node_text ∷ tech ∷ config_text ∷ o.config_file ∷ o.trace_file
                        ∷ [])))))))))))

-- The value of a choice that is made, and the default of one that is not.
abbrev pub Chosen : Bool → Type 0 → Type 0 → Type 0
Chosen true A B = A
Chosen false A B = B

-- `threads` and `tech` spell the numbers of the options, and no path is taken for an option.
pub record IsPrintable (o : CommandLineOptions) (threads tech : Text) : Type 0 where
  pub tech_number : (starts_with_digit tech ≡ true) × (stoi tech ≡ some o.tech_node)
  pub threads_number :
      Chosen o.parallel
        ((starts_with_digit threads ≡ true) × (stoi threads ≡ some o.num_threads))
        (o.num_threads ≡ pos 0)
  pub output : Chosen o.export_results (starts_with_dash o.output_path ≡ false) (o.output_path ≡ [])
  pub trace : kind_of o.trace_file ≡ trace_file

-- An argument alone, whatever follows it.
pub alone_step :
    (o o' : CommandLineOptions) (arg : Text)
    → ((next : Text) → takes_value (kind_of arg) next ≡ false)
    → set_alone (kind_of arg) arg o ≡ some o'
    → (rest : List Text) → parse_from o (arg ∷ rest) ≡ parse_from o' rest
unfolding parse_from
alone_step o o' arg never set [] = rw (parse_from, set) refl
alone_step o o' arg never set (next ∷ rest) = rw (parse_from, never next, set) refl

pub flag_step :
    (f : Bool → CommandLineOptions) (arg : Text)
    → ((next : Text) → takes_value (kind_of arg) next ≡ false)
    → set_alone (kind_of arg) arg (f false) ≡ some (f true)
    → (b : Bool) (rest : List Text) → parse_from (f false) (when b arg rest) ≡ parse_from (f b) rest
flag_step f arg never set false rest = refl
flag_step f arg never set true rest = alone_step (f false) (f true) arg never set rest

pub value_step :
    (o o' : CommandLineOptions) (arg value : Text)
    → takes_value (kind_of arg) value ≡ true
    → set_value (kind_of arg) value o ≡ some o'
    → (rest : List Text) → parse_from o (arg ∷ value ∷ rest) ≡ parse_from o' rest
unfolding parse_from
value_step o o' arg value takes set rest = rw (parse_from, takes, set) refl

-- A flag that turns off what is on.
pub flag_off_step :
    (f : Bool → CommandLineOptions) (arg : Text)
    → ((next : Text) → takes_value (kind_of arg) next ≡ false)
    → set_alone (kind_of arg) arg (f true) ≡ some (f false)
    → (b : Bool) (rest : List Text)
    → parse_from (f true) (when (not b) arg rest) ≡ parse_from (f b) rest
flag_off_step f arg never set true rest = refl
flag_off_step f arg never set false rest = alone_step (f true) (f false) arg never set rest

pub threads_step :
    (s : CommandLineOptions) (threads : Text) (n : ℤ) (b : Bool)
    → Chosen b ((starts_with_digit threads ≡ true) × (stoi threads ≡ some n)) (n ≡ pos 0)
    → (rest : List Text)
    → parse_from
        (record s { parallel = false; num_threads = pos 0 })
        (when_value b parallel_text threads rest)
      ≡ parse_from (record s { parallel = b; num_threads = n }) rest
unfolding kind_of set_value
threads_step s threads n false h rest =
    ap (λ n. parse_from (record s { parallel = false; num_threads = n }) rest) (sym h)
threads_step s threads n true (digit, number) rest =
    value_step _ (record s { parallel = true; num_threads = n }) parallel_text threads digit
      (ap (with_number (λ n. record s { parallel = true; num_threads = n })) number) rest

pub export_step :
    (s : CommandLineOptions) (path : Text) (b : Bool)
    → Chosen b (starts_with_dash path ≡ false) (path ≡ [])
    → (rest : List Text)
    → parse_from
        (record s { export_results = false; output_path = [] })
        (when_value b export_text path rest)
      ≡ parse_from (record s { export_results = b; output_path = path }) rest
unfolding kind_of set_value
export_step s path false h rest =
    ap (λ p. parse_from (record s { export_results = false; output_path = p }) rest) (sym h)
export_step s path true h rest =
    value_step _ (record s { export_results = true; output_path = path }) export_text path
      (ap not h) refl rest

pub tech_step :
    (s : CommandLineOptions) (tech : Text) (n : ℤ)
    → starts_with_digit tech ≡ true
    → stoi tech ≡ some n
    → (rest : List Text)
    → parse_from s (tech_node_text ∷ tech ∷ rest) ≡ parse_from (record s { tech_node = n }) rest
unfolding kind_of set_value
tech_step s tech n digit number rest =
    value_step s (record s { tech_node = n }) tech_node_text tech digit
      (ap (with_number (λ n. record s { tech_node = n })) number) rest

pub config_step :
    (s : CommandLineOptions) (path : Text) (rest : List Text)
    → parse_from s (config_text ∷ path ∷ rest) ≡ parse_from (record s { config_file = path }) rest
unfolding kind_of set_value
config_step s path rest =
    value_step s (record s { config_file = path }) config_text path refl refl rest

pub trace_step :
    (s : CommandLineOptions) (path : Text)
    → kind_of path ≡ trace_file
    → parse_from s (path ∷ []) ≡ options (record s { trace_file = path })
unfolding parse_from set_alone
trace_step s path e = rw (parse_from, e) refl
