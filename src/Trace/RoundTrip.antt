-- ===== src/Trace/RoundTrip.antt =====
-- What src/utils/trace_utils.cpp writes, src/utils/trace_parser.cpp reads back.
use cache_simulator.Prelude.{
  ℕ, zero, suc, ◌+◌, ◌*◌, ◌/◌, ◌%◌, ◌<◌, ◌≡◌, refl, ap, ◌∙◌, Bool, true, false, [], ◌∷◌, none, some,
  ltb, lt→ltb, ◌==◌, Bool-cases, inl, inr, All, All-map, arith, u32_mod,
}
use cache_simulator.Trace.Text.{
  Text, is_space, skip_spaces, take_word, next_token, digit_value, read_digits, from_chars,
  in_range,
}
use cache_simulator.Trace.Parser.{
  parsed, hex_digits_of, whole, remove_spaces, parse_address, parse_access_type, make_access,
  strip_comment, trim_end, parse_words, parse_second, parse_first, parse_line,
}
use cache_simulator.Trace.Writer.{digit_char, hex_onto, to_hex, write_access}

-- A character of a word that is no start of a comment, and a hexadecimal digit.
abbrev pub IsPlain : ℕ → Type 0
IsPlain c = (is_space c ≡ false) × ((c == b'#') ≡ false)

abbrev IsHexDigit : ℕ → Type 0
IsHexDigit c = (ltb (digit_value c) 16 ≡ true) × IsPlain c

-- A number of at most `digits` hexadecimal digits.
abbrev Fits : ℕ → ℕ → Type 0
Fits zero n = n ≡ 0
Fits (suc digits) n = Fits digits (n / 16)

digit_value-digit_char : (d : ℕ) → d < 16 → digit_value (digit_char d) ≡ d
unfolding digit_value digit_char
digit_value-digit_char d h = ground arith

digit_char-IsHexDigit : (d : ℕ) → d < 16 → IsHexDigit (digit_char d)
unfolding digit_value digit_char is_space
digit_char-IsHexDigit d h = ground arith

read_digit :
    (v d n : ℕ) (cs : Text)
    → d < 16
    → v * 16 + d ≡ n
    → read_digits 16 v (digit_char d ∷ cs) ≡ read_digits 16 n cs
unfolding read_digits
read_digit v d n cs h e =
    let one = digit_value-digit_char d h in
    let is_digit : ltb d 16 ≡ true = ground arith in rw (one, is_digit, e)

-- The digits of a number are read as that number.
read_digits-hex_onto :
    (digits n : ℕ) (acc : Text)
    → Fits digits n
    → read_digits 16 0 (hex_onto digits n acc) ≡ read_digits 16 n acc
unfolding hex_onto
read_digits-hex_onto zero n acc h = rw h
read_digits-hex_onto (suc digits) n acc h = elim (Bool-cases (ltb n 16)) [
  | inl small ↦ rw small (read_digit 0 n n acc (ground arith) (omega arith))
  | inr large ↦ rw large (
      read_digits-hex_onto digits (n / 16) (digit_char (n % 16) ∷ acc) h
      ∙ read_digit (n / 16) (n % 16) n acc (omega arith) (omega arith))
]

hex_onto-IsHexDigit :
    (digits n : ℕ) (acc : Text) → All IsHexDigit acc → All IsHexDigit (hex_onto digits n acc)
unfolding hex_onto
hex_onto-IsHexDigit zero n acc h = h
hex_onto-IsHexDigit (suc digits) n acc h = elim (Bool-cases (ltb n 16)) [
  | inl small ↦ rw small (digit_char-IsHexDigit n (ground arith), h)
  | inr large ↦ rw large (
      hex_onto-IsHexDigit digits (n / 16) (digit_char (n % 16) ∷ acc)
        (digit_char-IsHexDigit (n % 16) (omega arith), h))
]

abbrev IsNonEmpty : Text → Type 0
IsNonEmpty [] = ⊥
IsNonEmpty (c ∷ cs) = Unit {0}

hex_onto-IsNonEmpty :
    (digits n : ℕ) (acc : Text) → IsNonEmpty acc → IsNonEmpty (hex_onto digits n acc)
unfolding hex_onto
hex_onto-IsNonEmpty zero n acc h = h
hex_onto-IsNonEmpty (suc digits) n acc h = elim (Bool-cases (ltb n 16)) [
  | inl small ↦ rw small tt
  | inr large ↦ rw large (hex_onto-IsNonEmpty digits (n / 16) (digit_char (n % 16) ∷ acc) tt)
]

to_hex-IsNonEmpty : (n : ℕ) → IsNonEmpty (to_hex n)
unfolding to_hex hex_onto
to_hex-IsNonEmpty n = elim (Bool-cases (ltb n 16)) [
  | inl small ↦ rw small tt
  | inr large ↦ rw large (hex_onto-IsNonEmpty 7 (n / 16) (digit_char (n % 16) ∷ []) tt)
]

to_hex-IsHexDigit : (n : ℕ) → All IsHexDigit (to_hex n)
unfolding to_hex
to_hex-IsHexDigit n = hex_onto-IsHexDigit 8 n [] tt

from_chars_digits :
    (cs : Text)
    → IsNonEmpty cs
    → All IsHexDigit cs
    → from_chars 16 cs ≡ in_range (read_digits 16 0 cs)
unfolding from_chars
from_chars_digits [] ne h = absurd ne
from_chars_digits (c ∷ cs) ne h = rw h.0.0

-- `from_chars` reads the digits of a `uint32_t` to their end.
from_chars-to_hex : (n : ℕ) → n < u32_mod → from_chars 16 (to_hex n) ≡ some (n, [])
unfolding to_hex read_digits
from_chars-to_hex n h =
    let read = read_digits-hex_onto 8 n [] (omega arith) in
    let below : ltb n u32_mod ≡ true = lt→ltb n u32_mod h in
    from_chars_digits (to_hex n) (to_hex-IsNonEmpty n) (to_hex-IsHexDigit n)
    ∙ ap in_range read
    ∙ rw below

abbrev pub IsPlainText : Text → Type 0
IsPlainText cs = All IsPlain cs

to_hex-IsPlainText : (n : ℕ) → IsPlainText (to_hex n)
to_hex-IsPlainText n = All-map IsHexDigit IsPlain (λ c h. h.1) (to_hex n) (to_hex-IsHexDigit n)

-- A word without spaces or comments is left as it is by each stage.
remove_spaces_plain : (cs : Text) → IsPlainText cs → remove_spaces cs ≡ cs
unfolding remove_spaces
remove_spaces_plain [] h = refl
remove_spaces_plain (c ∷ cs) h = rw (h.0.0) (ap (c ∷◌) (remove_spaces_plain cs h.1))

strip_comment_plain : (cs : Text) → IsPlainText cs → strip_comment cs ≡ cs
unfolding strip_comment
strip_comment_plain [] h = refl
strip_comment_plain (c ∷ cs) h = rw (h.0.1) (ap (c ∷◌) (strip_comment_plain cs h.1))

take_word_plain : (cs : Text) → IsPlainText cs → take_word cs ≡ (cs, [])
unfolding take_word
take_word_plain [] h = refl
take_word_plain (c ∷ cs) h = rw (h.0.0, take_word_plain cs h.1)

trim_end_cons :
    (c d : ℕ) (ds : Text) → trim_end (d ∷ ds) ≡ d ∷ ds → trim_end (c ∷ d ∷ ds) ≡ c ∷ d ∷ ds
unfolding trim_end
trim_end_cons c d ds e = rw (e, trim_end)

trim_end_plain : (cs : Text) → IsPlainText cs → trim_end cs ≡ cs
unfolding trim_end
trim_end_plain [] h = refl
trim_end_plain (c ∷ []) h = rw (h.0.0)
trim_end_plain (c ∷ d ∷ ds) h = trim_end_cons c d ds (trim_end_plain (d ∷ ds) h.1)

-- The address as it is written.
abbrev pub prefixed : ℕ → Text
prefixed n = b'0' ∷ b'x' ∷ to_hex n

pub prefixed-IsPlainText : (n : ℕ) → IsPlainText (prefixed n)
unfolding is_space
prefixed-IsPlainText n = ((refl, refl), ((refl, refl), to_hex-IsPlainText n))

hex_digits_of_prefixed : (cs : Text) → IsNonEmpty cs → hex_digits_of (b'0' ∷ b'x' ∷ cs) ≡ some cs
unfolding hex_digits_of
hex_digits_of_prefixed [] ne = absurd ne
hex_digits_of_prefixed (c ∷ cs) ne = refl

pub parse_address-to_hex : (n : ℕ) → n < u32_mod → parse_address (prefixed n) ≡ some n
unfolding parse_address whole
parse_address-to_hex n h = rw (
  remove_spaces_plain (prefixed n) (prefixed-IsPlainText n),
  hex_digits_of_prefixed (to_hex n) (to_hex-IsNonEmpty n),
  from_chars-to_hex n h,
)

skip_blank : (cs : Text) → skip_spaces (b' ' ∷ cs) ≡ skip_spaces cs
unfolding skip_spaces is_space
skip_blank cs = refl

skip_plain : (c : ℕ) (cs : Text) → is_space c ≡ false → skip_spaces (c ∷ cs) ≡ c ∷ cs
unfolding skip_spaces
skip_plain c cs h = rw h

pub next_token_plain :
    (c : ℕ) (cs : Text) → IsPlainText (c ∷ cs) → next_token (b' ' ∷ c ∷ cs) ≡ some (c ∷ cs, [])
unfolding next_token
next_token_plain c cs h =
    rw (skip_blank (c ∷ cs), skip_plain c cs h.0.0, take_word_plain (c ∷ cs) h)

pub next_token_end : next_token [] ≡ none
unfolding next_token skip_spaces take_word
next_token_end = refl

take_word_letter :
    (c : ℕ) (cs : Text) → is_space c ≡ false → take_word (c ∷ b' ' ∷ cs) ≡ (c ∷ [], b' ' ∷ cs)
unfolding take_word
take_word_letter c cs h = rw h

pub next_token_letter :
    (c : ℕ) (cs : Text) → is_space c ≡ false → next_token (c ∷ b' ' ∷ cs) ≡ some (c ∷ [], b' ' ∷ cs)
unfolding next_token
next_token_letter c cs h = rw (skip_plain c (b' ' ∷ cs) h, take_word_letter c cs h)

strip_comment_cons :
    (c : ℕ) (cs : Text) → (c == b'#') ≡ false → strip_comment (c ∷ cs) ≡ c ∷ strip_comment cs
unfolding strip_comment
strip_comment_cons c cs h = rw h

-- The stages of a line, each with the others shut.
parse_line_lem :
    (line : Text) → parse_line line ≡ parse_first (next_token (trim_end (strip_comment line)))
unfolding parse_line
parse_line_lem line = refl

parse_first_lem :
    (word rest : Text) → parse_first (some (word, rest)) ≡ parse_second word (next_token rest)
unfolding parse_first
parse_first_lem word rest = refl

parse_second_lem :
    (first second rest : Text)
    → parse_second first (some (second, rest)) ≡ parse_words first second (next_token rest)
unfolding parse_second
parse_second_lem first second rest = refl

parse_words_lem :
    (first second : Text)
    → parse_words first second none
      ≡ make_access (parse_access_type first) (parse_address second) none
unfolding parse_words
parse_words_lem first second = refl

-- A line of a letter, a blank and a written address.
module _ (letter : ℕ) (n : ℕ) where
  abbrev letter_line : Text
  letter_line = letter ∷ b' ' ∷ prefixed n

  strip_comment-letter_line : (letter == b'#') ≡ false → strip_comment letter_line ≡ letter_line
  strip_comment-letter_line h =
      strip_comment_cons letter (b' ' ∷ prefixed n) h
      ∙ ap (letter ∷◌) (
          strip_comment_cons b' ' (prefixed n) refl
          ∙ ap (b' ' ∷◌) (strip_comment_plain (prefixed n) (prefixed-IsPlainText n)))

  trim_end-letter_line : trim_end letter_line ≡ letter_line
  trim_end-letter_line = trim_end_cons letter b' ' (prefixed n) (
      trim_end_cons b' ' b'0' (b'x' ∷ to_hex n)
        (trim_end_plain (prefixed n) (prefixed-IsPlainText n)))

  parse_line-letter_line :
      (is_write : Bool)
      → (letter == b'#') ≡ false
      → is_space letter ≡ false
      → parse_access_type (letter ∷ []) ≡ some is_write
      → n < u32_mod
      → parse_line letter_line
        ≡ parsed (record { is_write = is_write; address = n; core_id = none })
  unfolding make_access
  parse_line-letter_line is_write plain solid type h = rw (
    parse_line_lem letter_line,
    strip_comment-letter_line plain,
    trim_end-letter_line,
    next_token_letter letter (prefixed n) solid,
    parse_first_lem (letter ∷ []) (b' ' ∷ prefixed n),
    next_token_plain b'0' (b'x' ∷ to_hex n) (prefixed-IsPlainText n),
    parse_second_lem (letter ∷ []) (prefixed n) [],
    next_token_end,
    parse_words_lem (letter ∷ []) (prefixed n),
    type,
    parse_address-to_hex n h,
  )

-- The line of an access parses back to the access.
pub parse_line-write_access :
    (is_write : Bool) (address : ℕ)
    → address < u32_mod
    → parse_line (write_access is_write address)
      ≡ parsed (record { is_write = is_write; address = address; core_id = none })
unfolding write_access parse_access_type is_space
parse_line-write_access true address h = parse_line-letter_line b'w' address true refl refl refl h
parse_line-write_access false address h = parse_line-letter_line b'r' address false refl refl refl h
