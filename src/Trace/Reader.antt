-- ===== src/Trace/Reader.antt =====
-- `TraceParser` of src/utils/trace_parser.h and trace_parser.cpp over the lines of its file. A file
-- that cannot be opened has no lines. The messages on the error stream are left out.
use cache_simulator.Prelude.{
  ℕ, zero, suc, ◌+◌, ◌-◌, Bool, true, false, List, [], ◌∷◌, Option, none, some, ◌==◌, length,
  if◌then◌else◌,
}
use cache_simulator.Trace.Text.{Text, next_token}
use cache_simulator.Trace.Parser.{
  MemoryAccess, unknown_error, ParseResult, parsed, failed, TraceFormat, simple, extended, json,
  parse_line, parse_json_line,
}

-- `lines` is the file, `rest` what is left to read.
pub record TraceParser : Type 0 where
  pub lines : List Text
  pub rest : List Text
  pub file_valid : Bool
  pub trace_format : TraceFormat
  pub total_accesses : ℕ
  pub read_accesses : ℕ
  pub write_accesses : ℕ
  pub line_number : ℕ

-- An empty line, or a comment.
unfoldable pub is_skipped : Text → Bool
is_skipped [] = true
is_skipped (c ∷ cs) = c == b'#'

unfoldable pub parse_as : TraceFormat → Text → ParseResult
unfolding parse_line parse_json_line
parse_as json line = parse_json_line line
parse_as simple line = parse_line line
parse_as extended line = parse_line line

unfoldable pub count : TraceParser → MemoryAccess → TraceParser
count p access =
    let counted = record p { total_accesses = p.total_accesses + 1 } in
    if access.is_write
    then record counted { write_accesses = p.write_accesses + 1 }
    else record counted { read_accesses = p.read_accesses + 1 }

abbrev pub at_line : TraceParser → List Text → TraceParser
at_line p rest = record p { rest = rest; line_number = p.line_number + 1 }

-- The loop over the lines: skipped lines and lines in error are passed over.
unfoldable pub next_access : List Text → TraceParser → Option MemoryAccess × TraceParser
unfolding is_skipped parse_as count
next_access [] p = (none, record p { rest = [] })
next_access (line ∷ rest) p =
    let p' = at_line p rest in
    let later = next_access rest p' in
    if is_skipped line then later else elim (parse_as p.trace_format line) [
      | parsed access ↦ (some access, count p' access)
      | failed e ↦ later
    ]

unfoldable pub get_next_access : TraceParser → Option MemoryAccess × TraceParser
unfolding next_access
get_next_access p = if p.file_valid then next_access p.rest p else (none, p)

abbrev count_result : TraceParser → ParseResult → TraceParser
count_result p (parsed access) = count p access
count_result p (failed e) = p

-- The same with the first error returned; the end of the file counts as an error.
unfoldable pub next_result : List Text → TraceParser → ParseResult × TraceParser
unfolding is_skipped parse_as count
next_result [] p = (failed unknown_error, record p { rest = [] })
next_result (line ∷ rest) p =
    let p' = at_line p rest in
    let later = next_result rest p' in
    let result = parse_as p.trace_format line in
    if is_skipped line then later else (result, count_result p' result)

unfoldable pub get_next_access_with_error : TraceParser → ParseResult × TraceParser
unfolding next_result
get_next_access_with_error p =
    if p.file_valid then next_result p.rest p else (failed unknown_error, p)

-- The counts of accesses go on.
unfoldable pub reset : TraceParser → TraceParser
reset p = if p.file_valid then record p { rest = p.lines; line_number = 0 } else p

abbrev pub prepend :
    MemoryAccess
    → Option (List MemoryAccess × TraceParser)
    → Option (List MemoryAccess × TraceParser)
prepend access none = none
prepend access (some (accesses, p)) = some (access ∷ accesses, p)

-- A round of the loop of `parseAll`, which goes on while an access is found.
abbrev pub collect :
    Option MemoryAccess × TraceParser
    → (TraceParser → Option (List MemoryAccess × TraceParser))
    → Option (List MemoryAccess × TraceParser)
collect (none, p) more = some ([], p)
collect (some access, p) more = prepend access (more p)

-- The loop with rounds to spare: `none` means that they ran out.
unfoldable pub read_all : ℕ → TraceParser → Option (List MemoryAccess × TraceParser)
unfolding get_next_access
read_all zero p = none
read_all (suc rounds) p = collect (get_next_access p) (read_all rounds)

-- Each round but the last takes a line or more.
unfoldable pub parse_all : TraceParser → Option (List MemoryAccess × TraceParser)
unfolding read_all reset
parse_all p = read_all (suc (length p.lines)) (reset p)

abbrev pub has_three_words : Option (Text × Text) → Bool
has_three_words none = false
has_three_words (some (word, rest)) = elim (next_token rest) [
  | none ↦ false
  | some (word', rest') ↦ elim (next_token rest') [ none ↦ false | some r ↦ true ]
]

abbrev pub is_object : Text → Bool
is_object [] = false
is_object (c ∷ cs) = c == b'{'

-- The loop over at most `left` lines that are not skipped.
unfoldable pub detect : ℕ → List Text → TraceFormat
unfolding is_skipped next_token
detect left [] = simple
detect left (line ∷ rest) =
    let here = if is_skipped line then left else left - 1 in
    let later = detect here rest in
    let next =
      if is_object line
      then json
      else if has_three_words (next_token line)
      then extended
      else later in
    if left == 0 then simple else if is_skipped line then later else next

unfoldable pub detect_format : TraceParser → TraceFormat
unfolding detect
detect_format p = if p.file_valid then detect 10 p.lines else simple

-- The constructor: `none` is a file that cannot be opened.
unfoldable pub open_file : Option (List Text) → TraceParser
unfolding detect_format reset
open_file none = record {
  lines = [];
  rest = [];
  file_valid = false;
  trace_format = simple;
  total_accesses = 0;
  read_accesses = 0;
  write_accesses = 0;
  line_number = 0;
}
open_file (some lines) =
    let opened : TraceParser = record {
      lines = lines;
      rest = lines;
      file_valid = true;
      trace_format = simple;
      total_accesses = 0;
      read_accesses = 0;
      write_accesses = 0;
      line_number = 0;
    } in
    reset (record opened { trace_format = detect_format opened })
