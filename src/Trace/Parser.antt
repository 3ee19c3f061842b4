-- ===== src/Trace/Parser.antt =====
-- The grammar of a line, of src/utils/trace_parser.cpp: `parseLine`, `parseJSONLine` and `parseAddress`.
use cache_simulator.Prelude.{
  ℕ, Bool, true, false, ◌&&◌, ◌||◌, [], ◌∷◌, Option, none, some, ltb, ◌==◌, if◌then◌else◌,
}
use cache_simulator.Trace.Text.{Text, is_space, skip_spaces, next_token, digit_value, from_chars}

pub record MemoryAccess : Type 0 where
  pub is_write : Bool
  pub address : ℕ
  pub core_id : Option ℕ

pub data ParseErrorType : Type 0 where
  invalid_access_type invalid_address_format unknown_error invalid_json_format : ParseErrorType

pub data ParseResult : Type 0 where
  parsed : MemoryAccess → ParseResult
  failed : ParseErrorType → ParseResult

pub data TraceFormat : Type 0 where
  simple extended json : TraceFormat

unfoldable pub remove_spaces : Text → Text
unfolding is_space
remove_spaces [] = []
remove_spaces (c ∷ cs) = let rest = remove_spaces cs in if is_space c then rest else c ∷ rest

-- A `0x` with something behind it.
unfoldable pub hex_digits_of : Text → Option Text
hex_digits_of (z ∷ x ∷ d ∷ ds) =
    if z == b'0' && (x == b'x' || x == b'X') then some (d ∷ ds) else none
hex_digits_of _ = none

-- The hexadecimal value, where it takes all of the text.
unfoldable pub whole : Option (ℕ × Text) → Option ℕ
whole none = none
whole (some (v, [])) = some v
whole (some (v, c ∷ cs)) = none

abbrev pub and_then {ℓ κ} : {A : Type ℓ} {B : Type κ} → Option A → (A → Option B) → Option B
and_then none f = none
and_then (some a) f = f a

abbrev pub or_else {ℓ} : {A : Type ℓ} → Option A → Option A → Option A
or_else none o = o
or_else (some a) o = some a

-- What does not parse as hexadecimal is tried as decimal, where a rest is let pass.
unfoldable pub parse_address : Text → Option ℕ
unfolding remove_spaces hex_digits_of whole from_chars
parse_address text =
    let clean = remove_spaces text in
    or_else (and_then (hex_digits_of clean) (λ digits. whole (from_chars 16 digits)))
      (and_then (from_chars 10 clean) (λ r. some r.0))

-- `r`, `R`, `w` or `W`; the result is whether it writes.
unfoldable pub parse_access_type : Text → Option Bool
parse_access_type (c ∷ []) =
    if c == b'r' || c == b'R'
    then some false
    else if c == b'w' || c == b'W'
    then some true
    else none
parse_access_type _ = none

-- `P0`, `p1` and so on.
unfoldable pub parse_core_id : Text → Option ℕ
unfolding from_chars
parse_core_id (p ∷ d ∷ ds) =
    if p == b'P' || p == b'p' then and_then (from_chars 10 (d ∷ ds)) (λ r. some r.0) else none
parse_core_id _ = none

unfoldable pub make_access : Option Bool → Option ℕ → Option ℕ → ParseResult
make_access none address core_id = failed invalid_access_type
make_access (some is_write) none core_id = failed invalid_address_format
make_access (some is_write) (some address) core_id =
    parsed (record { is_write = is_write; address = address; core_id = core_id })

unfoldable pub strip_comment : Text → Text
strip_comment [] = []
strip_comment (c ∷ cs) = let rest = strip_comment cs in if c == b'#' then [] else c ∷ rest

abbrev keep_unless_blank : ℕ → Text → Text
keep_unless_blank c [] = if is_space c then [] else c ∷ []
keep_unless_blank c (d ∷ ds) = c ∷ d ∷ ds

unfoldable pub trim_end : Text → Text
unfolding is_space
trim_end [] = []
trim_end (c ∷ cs) = keep_unless_blank c (trim_end cs)

-- Three words are a core, a type and an address, two are a type and an address; more are ignored.
unfoldable pub parse_words : Text → Text → Option (Text × Text) → ParseResult
unfolding parse_access_type parse_address parse_core_id make_access
parse_words first second none = make_access (parse_access_type first) (parse_address second) none
parse_words first second (some (third, rest)) =
    make_access (parse_access_type second) (parse_address third) (parse_core_id first)

unfoldable pub parse_second : Text → Option (Text × Text) → ParseResult
unfolding next_token parse_words
parse_second first none = failed unknown_error
parse_second first (some (second, rest)) = parse_words first second (next_token rest)

unfoldable pub parse_first : Option (Text × Text) → ParseResult
unfolding next_token parse_second
parse_first none = failed unknown_error
parse_first (some (first, rest)) = parse_second first (next_token rest)

-- A line with nothing before its comment has no first word.
unfoldable pub parse_line : Text → ParseResult
unfolding strip_comment trim_end next_token parse_first
parse_line line = parse_first (next_token (trim_end (strip_comment line)))

-- The parts of the regular expression: a given text, a class of characters, and blanks between.
unfoldable pub expect : Text → Text → Option Text
expect [] cs = some cs
expect (e ∷ es) [] = none
expect (e ∷ es) (c ∷ cs) = let rest = expect es cs in if e == c then rest else none

abbrev after_spaces : Text → Text → Option Text
after_spaces expected cs = expect expected (skip_spaces cs)

-- The longest run of hexadecimal digits, and the rest.
unfoldable pub take_hex : Text → Text × Text
unfolding digit_value
take_hex [] = ([], [])
take_hex (c ∷ cs) =
    let rest = take_hex cs in if ltb (digit_value c) 16 then (c ∷ rest.0, rest.1) else ([], c ∷ cs)

-- `"type"` and `"address"`, with their quotes.
abbrev pub type_key : Text
type_key = b'"' ∷ b't' ∷ b'y' ∷ b'p' ∷ b'e' ∷ b'"' ∷ []

abbrev pub address_key : Text
address_key = b'"' ∷ b'a' ∷ b'd' ∷ b'd' ∷ b'r' ∷ b'e' ∷ b's' ∷ b's' ∷ b'"' ∷ []

abbrev take_char : Text → Option (ℕ × Text)
take_char [] = none
take_char (c ∷ cs) = some (c, cs)

-- `\{\s*"type"\s*:\s*"`, up to the letter.
unfoldable pub json_to_type : Text → Option Text
unfolding expect skip_spaces
json_to_type cs = and_then (expect (b'{' ∷ []) cs) λ a.
    and_then (after_spaces type_key a)
      λ b. and_then (after_spaces (b':' ∷ []) b) λ c. after_spaces (b'"' ∷ []) c

-- `"\s*,\s*"address"\s*:\s*"0x`, up to the digits.
unfoldable pub json_to_address : Text → Option Text
unfolding expect skip_spaces
json_to_address cs = and_then (expect (b'"' ∷ []) cs) λ a.
    and_then (after_spaces (b',' ∷ []) a) λ b. and_then (after_spaces address_key b) λ c.
      and_then (after_spaces (b':' ∷ []) c)
        λ d. and_then (after_spaces (b'"' ∷ []) d) λ e. expect (b'0' ∷ b'x' ∷ []) e

abbrev is_end : Text → Option (Unit {0})
is_end [] = some tt
is_end (c ∷ cs) = none

-- One digit or more, then `"\s*\}` and the end of the line.
unfoldable pub json_digits : Text → Option Text
unfolding take_hex expect skip_spaces
json_digits cs =
    let (digits, rest) = take_hex cs in
    elim digits [
      | [] ↦ none
      | d ∷ ds ↦
          (and_then (expect (b'"' ∷ []) rest)
            λ a. and_then (after_spaces (b'}' ∷ []) a) λ b. and_then (is_end b) λ e. some (d ∷ ds))
    ]

-- The letter and the digits of a line that matches.
unfoldable pub match_json : Text → Option (Bool × Text)
unfolding json_to_type json_to_address json_digits parse_access_type
match_json line = and_then (json_to_type line) λ a. and_then (take_char a) λ b.
    and_then (parse_access_type (b.0 ∷ [])) λ is_write.
      and_then (json_to_address b.1) λ c. and_then (json_digits c) λ digits. some (is_write, digits)

unfoldable pub json_access : Option (Bool × Text) → ParseResult
unfolding parse_address make_access
json_access none = failed invalid_json_format
json_access (some (is_write, digits)) =
    make_access (some is_write) (parse_address (b'0' ∷ b'x' ∷ digits)) none

unfoldable pub parse_json_line : Text → ParseResult
unfolding match_json json_access
parse_json_line line = json_access (match_json line)
