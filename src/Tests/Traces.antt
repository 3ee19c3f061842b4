-- ===== src/Tests/Traces.antt =====
-- The trace parser on small texts and files.
use cache_simulator.Prelude.{
  ℕ, ◌+◌, ◌≤◌, ◌≡◌, refl, replicate, arith, Bool, true, false, List, [], ◌∷◌, some, none, length,
}
use cache_simulator.Tests.Spelling.{codes}
use cache_simulator.Trace.Text.{Text, from_chars}
use cache_simulator.Trace.Parser.{
  MemoryAccess, parsed, failed, invalid_access_type, parse_line, parse_json_line, parse_address,
  whole, remove_spaces, extended,
}
use cache_simulator.Trace.Reader.{TraceParser, open_file, parse_all, parse_as, detect_format}
use cache_simulator.Trace.Writer.{write_access, generate_filtered_trace, generate_sequential_trace}
use cache_simulator.Trace.Reading.{accesses_of, parse_all-accesses_of}
use cache_simulator.Trace.Files.{Reads, select, sequence, parse_all-generate_trace}
use cache_simulator.Trace.Addresses.{or_zero, parse_address-or_zero}
use cache_simulator.Trace.Patterns.{pattern_of, looping, strided, detect_pattern}
use cache_simulator.Trace.Detection.{detect_pattern-generate_sequential_trace}

abbrev read_of : ℕ → MemoryAccess
read_of address = record { is_write = false; address = address; core_id = none }

abbrev write_of : ℕ → MemoryAccess
write_of address = record { is_write = true; address = address; core_id = none }

parse_line_commented : parse_line (codes "w 0x1F  # store") ≡ parsed (write_of 31)
unfolding parse_line
parse_line_commented = refl

parse_line_core :
    parse_line (codes "P2 R 64")
    ≡ parsed (record { is_write = false; address = 64; core_id = some 2 })
unfolding parse_line
parse_line_core = refl

parse_line_bad : parse_line (codes "x 0x10") ≡ failed invalid_access_type
unfolding parse_line
parse_line_bad = refl

-- Not an error, but address 0.
parse_line_not_hex : parse_line (codes "r 0xZZ") ≡ parsed (read_of 0)
unfolding parse_line
parse_line_not_hex = refl

parse_json_line_example :
    parse_json_line (codes "{ \"type\" : \"W\", \"address\": \"0xff\" }") ≡ parsed (write_of 255)
unfolding parse_json_line
parse_json_line_example = refl

write_access_example : write_access true 48879 ≡ codes "w 0xbeef"
unfolding write_access
write_access_example = refl

abbrev lines : List Text
lines = codes "# a trace" ∷ codes "r 0x10" ∷ [] ∷ codes "oops" ∷ codes "w 0x20" ∷ []

abbrev opened : TraceParser
opened = open_file (some lines)

accesses_of_lines : accesses_of opened.trace_format opened.lines ≡ read_of 16 ∷ write_of 32 ∷ []
unfolding open_file parse_as
accesses_of_lines = refl

parse_all-accesses_of_example :
    (p : TraceParser) × (parse_all opened ≡ some (accesses_of opened.trace_format opened.lines, p))
    × (p.total_accesses
        ≡ opened.total_accesses + length (accesses_of opened.trace_format opened.lines))
unfolding open_file
parse_all-accesses_of_example = parse_all-accesses_of opened refl

detect_extended : detect_format (open_file (some (codes "P0 r 0x10" ∷ []))) ≡ extended
unfolding detect_format open_file
detect_extended = refl

abbrev accesses : List MemoryAccess
accesses = read_of 16 ∷ record { is_write = true; address = 80; core_id = some 1 } ∷ []

abbrev writes_only : MemoryAccess → Bool
writes_only a = a.is_write

parse_all-generate_trace_example :
    Reads (generate_filtered_trace writes_only accesses) (select writes_only accesses)
    × Reads
        (generate_sequential_trace 4096 4 0 (true ∷ false ∷ []))
        (sequence 4096 4 0 (true ∷ false ∷ []))
parse_all-generate_trace_example =
    parse_all-generate_trace writes_only accesses 4096 4 (true ∷ false ∷ []) (omega arith)

parse_address-or_zero_example :
    parse_address (codes "0x1g")
    ≡ some (or_zero (whole (from_chars 16 (remove_spaces (codes "1g")))))
parse_address-or_zero_example = parse_address-or_zero (codes "1g")

-- Three addresses that are read again and again.
abbrev looped : List ℕ
looped =
    64 ∷ 7 ∷ 512 ∷ 64 ∷ 7 ∷ 512 ∷ 64 ∷ 7 ∷ 512 ∷ 64 ∷ 7 ∷ 512 ∷ 64 ∷ 7 ∷ 512 ∷ 64 ∷ 7 ∷ 512 ∷ 64 ∷ 7
    ∷ 512 ∷ []

pattern_looped : pattern_of looped ≡ looping 3 (record { part = 17; whole = 17 })
unfolding pattern_of
pattern_looped = refl

abbrev nine_reads : List Bool
nine_reads = replicate 9 false

nine_lem : 9 ≤ length nine_reads
nine_lem = omega arith

detect_pattern-generate_sequential_trace_example :
    (p : TraceParser) × (detect_pattern
        (open_file (some (generate_sequential_trace 64 16 0 (true ∷ nine_reads))))
      ≡ some (some (strided 16 (record { part = 9; whole = 9 })), p))
detect_pattern-generate_sequential_trace_example =
    detect_pattern-generate_sequential_trace 64 16 true nine_reads nine_lem
