-- ===== src/Arguments/RoundTrip.antt =====
-- Every choice of options comes back from its arguments, through `CLIParser::parse` of src/utils/cli_parser.cpp.
use cache_simulator.Prelude.{◌≡◌, refl, ◌∙◌, not, List, [], ◌∷◌}
use cache_simulator.Trace.Text.{Text}
use cache_simulator.Arguments.{
  CommandLineOptions, default_options, options, help_text, version_text, benchmark_text,
  visualize_text, no_color_text, verbose_text, victim_cache_text, charts_text, power_text,
  tech_node_text, export_text, config_text, kind_of, set_alone, parse_from, parse,
}
use cache_simulator.Arguments.Printing.{
  when, when_value, arguments_of, IsPrintable, flag_step, flag_off_step, threads_step, export_step,
  tech_step, config_step, trace_step,
}

-- The flags, one after the other.
module _ (o : CommandLineOptions) where
  abbrev with_flags : CommandLineOptions
  with_flags = record default_options {
    help = o.help;
    version = o.version;
    run_benchmark = o.run_benchmark;
    visualize_results = o.visualize_results;
    use_colors = o.use_colors;
    verbose = o.verbose;
    use_victim_cache = o.use_victim_cache;
    show_charts = o.show_charts;
    show_power_stats = o.show_power_stats;
  }

  flags : List Text → List Text
  flags rest = when o.help help_text (
      when o.version version_text (
        when o.run_benchmark benchmark_text (
          when o.visualize_results visualize_text (
            when (not o.use_colors) no_color_text (
              when o.verbose verbose_text (
                when o.use_victim_cache victim_cache_text
                  (when o.show_charts charts_text (when o.show_power_stats power_text rest))))))))

  abbrev after_help : CommandLineOptions
  after_help = record default_options { help = o.help }

  abbrev after_version : CommandLineOptions
  after_version = record after_help { version = o.version }

  abbrev after_benchmark : CommandLineOptions
  after_benchmark = record after_version { run_benchmark = o.run_benchmark }

  abbrev after_visualize : CommandLineOptions
  after_visualize = record after_benchmark { visualize_results = o.visualize_results }

  abbrev after_colors : CommandLineOptions
  after_colors = record after_visualize { use_colors = o.use_colors }

  abbrev after_verbose : CommandLineOptions
  after_verbose = record after_colors { verbose = o.verbose }

  abbrev after_victim_cache : CommandLineOptions
  after_victim_cache = record after_verbose { use_victim_cache = o.use_victim_cache }

  abbrev after_charts : CommandLineOptions
  after_charts = record after_victim_cache { show_charts = o.show_charts }

  parse_from-flags :
      (rest : List Text) → parse_from default_options (flags rest) ≡ parse_from with_flags rest
  unfolding flags kind_of set_alone
  parse_from-flags rest =
      flag_step (λ b. record default_options { help = b }) help_text (λ _. refl) refl o.help _
      ∙ flag_step (λ b. record after_help { version = b }) version_text (λ _. refl) refl o.version _
      ∙ flag_step (λ b. record after_version { run_benchmark = b }) benchmark_text (λ _. refl) refl
          o.run_benchmark _
      ∙ flag_step (λ b. record after_benchmark { visualize_results = b }) visualize_text (λ _. refl)
          refl o.visualize_results _
      ∙ flag_off_step (λ b. record after_visualize { use_colors = b }) no_color_text (λ _. refl)
          refl o.use_colors _
      ∙ flag_step (λ b. record after_colors { verbose = b }) verbose_text (λ _. refl) refl o.verbose
          _
      ∙ flag_step (λ b. record after_verbose { use_victim_cache = b }) victim_cache_text (λ _. refl)
          refl o.use_victim_cache _
      ∙ flag_step (λ b. record after_victim_cache { show_charts = b }) charts_text (λ _. refl) refl
          o.show_charts _
      ∙ flag_step (λ b. record after_charts { show_power_stats = b }) power_text (λ _. refl) refl
          o.show_power_stats _

-- Options that are written as arguments are what the parser reads from them, provided that the two texts
-- spell their numbers, with a digit first, that the output path does not start with a dash, that
-- the trace file is not taken for an option, and that an output path and a number of threads
-- stand only where they are asked for.
pub parse-arguments_of :
    (o : CommandLineOptions) (threads tech : Text)
    → IsPrintable o threads tech
    → parse (arguments_of o threads tech) ≡ options o
unfolding parse arguments_of flags
parse-arguments_of o threads tech h =
    let paths = config_text ∷ o.config_file ∷ o.trace_file ∷ [] in
    let numbers = tech_node_text ∷ tech ∷ paths in
    let s1 : CommandLineOptions = record (with_flags o) {
      parallel = o.parallel;
      num_threads = o.num_threads;
    } in
    let s2 : CommandLineOptions = record s1 {
      export_results = o.export_results;
      output_path = o.output_path;
    } in
    let s3 : CommandLineOptions = record s2 { tech_node = o.tech_node } in
    parse_from-flags o _
    ∙ threads_step (with_flags o) threads o.num_threads o.parallel h.threads_number
        (when_value o.export_results export_text o.output_path numbers)
    ∙ export_step s1 o.output_path o.export_results h.output numbers
    ∙ tech_step s2 tech o.tech_node h.tech_number.0 h.tech_number.1 paths
    ∙ config_step s3 o.config_file (o.trace_file ∷ [])
    ∙ trace_step (record s3 { config_file = o.config_file }) o.trace_file h.trace
