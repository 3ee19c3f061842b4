-- ===== src/Trace/Addresses.antt =====
-- Addresses with a prefix `0x`, in `parseAddress` of src/utils/trace_parser.cpp.
use cache_simulator.Prelude.{ℕ, ◌≡◌, refl, [], ◌∷◌, Option, none, some}
use cache_simulator.Trace.Text.{Text, is_space, digit_value, read_digits, from_chars}
use cache_simulator.Trace.Parser.{
  remove_spaces, hex_digits_of, whole, or_else, and_then, parse_address,
}

abbrev pub or_zero : Option ℕ → ℕ
or_zero none = 0
or_zero (some v) = v

decimal_of_prefix : (cs : Text) → from_chars 10 (b'0' ∷ b'x' ∷ cs) ≡ some (0, b'x' ∷ cs)
unfolding from_chars read_digits digit_value
decimal_of_prefix cs = refl

hex_of_prefix :
    (cs : Text)
    → and_then (hex_digits_of (b'0' ∷ b'x' ∷ cs)) (λ digits. whole (from_chars 16 digits))
      ≡ whole (from_chars 16 cs)
unfolding hex_digits_of whole from_chars
hex_of_prefix [] = refl
hex_of_prefix (c ∷ cs) = refl

or_else-some : (o : Option ℕ) → or_else o (some 0) ≡ some (or_zero o)
or_else-some none = refl
or_else-some (some v) = refl

prefix_lem :
    (cs : Text)
    → or_else
        (and_then (hex_digits_of (b'0' ∷ b'x' ∷ cs)) (λ digits. whole (from_chars 16 digits)))
        (and_then (from_chars 10 (b'0' ∷ b'x' ∷ cs)) (λ r. some r.0))
      ≡ some (or_zero (whole (from_chars 16 cs)))
prefix_lem cs =
    rw (hex_of_prefix cs, decimal_of_prefix cs) (or_else-some (whole (from_chars 16 cs)))

-- An address that starts with `0x` is never in error. Where the rest, less its spaces, is a hexadecimal
-- number of 32 bits, the address is that number, and 0 where it is anything else.
pub parse_address-or_zero :
    (cs : Text)
    → parse_address (b'0' ∷ b'x' ∷ cs) ≡ some (or_zero (whole (from_chars 16 (remove_spaces cs))))
unfolding parse_address is_space
parse_address-or_zero cs = prefix_lem (remove_spaces cs)
