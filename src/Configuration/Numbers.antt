-- ===== src/Configuration/Numbers.antt =====
-- What src/utils/config_utils.cpp uses of the standard library on text and on `int`: `==`, `stoi`,
-- `to_string`, `getline` with a delimiter and `toupper`. A text is the list of its bytes.
use cache_simulator.Prelude.{
  ℕ, zero, suc, ◌+◌, ◌-◌, ◌/◌, ◌%◌, Bool, true, false, ◌&&◌, List, [], ◌∷◌, Option, none, some, leb,
  ltb, ◌==◌, if◌then◌else◌,
}
use cache_simulator.Trace.Text.{Text, skip_spaces, digit_value, read_digits}
use cache_simulator.Cache.Config.{ℤ, pos, negsuc, negated}

abbrev pub is_text : Text → Text → Bool
is_text [] [] = true
is_text (a ∷ rest) (b ∷ other) = (a == b) && is_text rest other
is_text _ _ = false

abbrev pub is_equal : ℤ → ℤ → Bool
is_equal (pos m) (pos n) = m == n
is_equal (negsuc m) (negsuc n) = m == n
is_equal _ _ = false

abbrev pub is_positive : ℤ → Bool
is_positive (pos n) = ltb 0 n
is_positive (negsuc n) = false

-- The decimal digits of `n` before `acc`, at most `digits` of them.
unfoldable pub decimal_onto : ℕ → ℕ → Text → Text
decimal_onto zero n acc = acc
decimal_onto (suc digits) n acc =
    let more = decimal_onto digits (n / 10) ((n % 10 + b'0') ∷ acc) in
    if ltb n 10 then (n + b'0') ∷ acc else more

-- `std::to_string` of an `int`, which has ten digits at most.
unfoldable pub to_string : ℤ → Text
unfolding decimal_onto
to_string (pos n) = decimal_onto 10 n []
to_string (negsuc n) = b'-' ∷ decimal_onto 10 (suc n) []

-- The largest `int`.
abbrev pub int_max : ℕ
int_max = 0x7fff_ffff

abbrev positive_int : ℕ → Option ℤ
positive_int n = if leb n int_max then some (pos n) else none

abbrev negative_int : ℕ → Option ℤ
negative_int n = if leb n (suc int_max) then some (negated n) else none

-- At least one digit, with no more than digits read; what follows them is not read.
unfoldable pub unsigned_of : (ℕ → Option ℤ) → Text → Option ℤ
unfolding read_digits digit_value
unsigned_of sign [] = none
unsigned_of sign (c ∷ cs) =
    let n = (read_digits 10 0 (c ∷ cs)).0 in if ltb (digit_value c) 10 then sign n else none

unfoldable pub signed_of : Text → Option ℤ
unfolding unsigned_of
signed_of [] = none
signed_of (c ∷ cs) =
    if c == b'-'
    then unsigned_of negative_int cs
    else if c == b'+'
    then unsigned_of positive_int cs
    else unsigned_of positive_int (c ∷ cs)

-- `std::stoi`, where `none` is either exception.
unfoldable pub stoi : Text → Option ℤ
unfolding signed_of skip_spaces
stoi cs = signed_of (skip_spaces cs)

-- A character before the first token.
abbrev pub before_token : ℕ → List Text → List Text
before_token c [] = (c ∷ []) ∷ []
before_token c (token ∷ tokens) = (c ∷ token) ∷ tokens

-- `getline(stream, token, delimiter)` up to the end: no token follows a delimiter at the end.
unfoldable pub split : ℕ → Text → List Text
split delimiter [] = []
split delimiter (c ∷ cs) =
    let tokens = split delimiter cs in if c == delimiter then [] ∷ tokens else before_token c tokens

unfoldable pub to_upper : ℕ → ℕ
to_upper c = if leb b'a' c && leb c b'z' then c - b'a' + b'A' else c

-- `normalizeConfigKey`: the flag is `capitalizeNext`.
unfoldable pub normalize_from : Bool → Text → Text
unfolding to_upper
normalize_from flag [] = []
normalize_from flag (c ∷ cs) =
    let after = normalize_from true cs in
    let plain = normalize_from false cs in
    if c == b'_' then after else if flag then to_upper c ∷ plain else c ∷ plain

unfoldable pub normalize_config_key : Text → Text
unfolding normalize_from
normalize_config_key key = normalize_from false key
