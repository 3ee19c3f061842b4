-- ===== src/Trace/Text.antt =====
-- What src/utils/trace_parser.cpp uses of the standard library on text: `isspace`, reading a word from a
-- stream, and `from_chars` for a `uint32_t`. A text is the list of its bytes.
use cache_simulator.Prelude.{
  ℕ, ◌+◌, ◌-◌, ◌*◌, Bool, ◌&&◌, ◌||◌, List, [], ◌∷◌, Option, none, some, leb, ltb, ◌==◌,
  if◌then◌else◌, u32_mod,
}

abbrev pub Text : Type 0
Text = List ℕ

-- A blank, or one of the five control characters from the tabulator on.
unfoldable pub is_space : ℕ → Bool
is_space c = (c == 32) || (leb 9 c && leb c 13)

unfoldable pub skip_spaces : Text → Text
unfolding is_space
skip_spaces [] = []
skip_spaces (c ∷ cs) = let rest = skip_spaces cs in if is_space c then rest else c ∷ cs

-- The characters up to the first space, and the rest.
unfoldable pub take_word : Text → Text × Text
unfolding is_space
take_word [] = ([], [])
take_word (c ∷ cs) =
    let rest = take_word cs in if is_space c then ([], c ∷ cs) else (c ∷ rest.0, rest.1)

abbrev pub non_empty : Text × Text → Option (Text × Text)
non_empty ([], rest) = none
non_empty (c ∷ cs, rest) = some (c ∷ cs, rest)

-- `stream >> word`, which fails where no word is left.
unfoldable pub next_token : Text → Option (Text × Text)
unfolding skip_spaces take_word
next_token cs = non_empty (take_word (skip_spaces cs))

-- The value of a digit, or 16 for a character that is none.
unfoldable pub digit_value : ℕ → ℕ
digit_value c =
    if leb b'0' c && leb c b'9'
    then c - b'0'
    else if leb b'a' c && leb c b'f'
    then c - b'a' + 10
    else if leb b'A' c && leb c b'F'
    then c - b'A' + 10
    else 16

-- The longest run of digits, after those of the value `v`, and the rest.
unfoldable pub read_digits : ℕ → ℕ → Text → ℕ × Text
unfolding digit_value
read_digits base v [] = (v, [])
read_digits base v (c ∷ cs) =
    let rest = read_digits base (v * base + digit_value c) cs in
    if ltb (digit_value c) base then rest else (v, c ∷ cs)

abbrev pub in_range : ℕ × Text → Option (ℕ × Text)
in_range (v, rest) = if ltb v u32_mod then some (v, rest) else none

-- `none` is an error: no digit at the start, or a value out of range.
unfoldable pub from_chars : ℕ → Text → Option (ℕ × Text)
unfolding read_digits digit_value
from_chars base [] = none
from_chars base (c ∷ cs) =
    if ltb (digit_value c) base then in_range (read_digits base 0 (c ∷ cs)) else none
