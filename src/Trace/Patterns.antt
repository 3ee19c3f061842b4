-- ===== src/Trace/Patterns.antt =====
-- The detection of patterns in `TraceAnalyzer` of src/utils/trace_utils.cpp, on the addresses of a trace. A confidence
-- is kept as the two numbers that are divided: their quotient exceeds a threshold of so many tenths
-- exactly when the product does, since no two such quotients are as close as the precision of `double`.
-- A stride is kept as the bit pattern of the `int32_t`.
use cache_simulator.Prelude.{
  ℕ, suc, ◌-◌, ◌*◌, ◌/◌, ◌%◌, Bool, ◌||◌, List, [], ◌∷◌, Option, none, some, ltb, ◌==◌,
  if◌then◌else◌, length, map, min, get_or, iota, add32, sub32,
}
use cache_simulator.Trace.Parser.{MemoryAccess}
use cache_simulator.Trace.Reader.{TraceParser, parse_all}

pub record Confidence : Type 0 where
  pub part : ℕ
  pub whole : ℕ

-- The confidence is above `tenths` / 10.
abbrev pub exceeds : Confidence → ℕ → Bool
exceeds c tenths = ltb (tenths * c.whole) (10 * c.part)

-- The pattern with what describes it: the stride of a sequential one is 1. `Mixed` is never detected.
pub data PatternInfo : Type 0 where
  sequential : Confidence → PatternInfo
  strided : ℕ → Confidence → PatternInfo
  looping : ℕ → Confidence → PatternInfo
  random : Confidence → PatternInfo

abbrev pub is_next : ℕ → ℕ → Bool
is_next a b = (b == add32 a 4) || ((b == add32 a 8) || (b == add32 a 1))

-- The steps from one address to the next that are sequential.
unfoldable pub sequential_count : List ℕ → ℕ
sequential_count (a ∷ b ∷ rest) =
    let more = sequential_count (b ∷ rest) in if is_next a b then suc more else more
sequential_count _ = 0

unfoldable pub is_sequential_pattern : List ℕ → Option Confidence
unfolding sequential_count
is_sequential_pattern addresses =
    let c : Confidence = record {
      part = sequential_count addresses;
      whole = length addresses - 1;
    } in
    if ltb (length addresses) 10 then none else if exceeds c 7 then some c else none

-- The differences of neighbours.
unfoldable pub strides : List ℕ → List ℕ
strides (a ∷ b ∷ rest) = sub32 b a ∷ strides (b ∷ rest)
strides _ = []

-- Whether one `int32_t` is below another.
abbrev pub is_below : ℕ → ℕ → Bool
is_below d e = ltb (add32 d 0x8000_0000) (add32 e 0x8000_0000)

-- `strideCounts[diff]++`, in a map that is ordered by its keys.
unfoldable pub add_stride : ℕ → List (ℕ × ℕ) → List (ℕ × ℕ)
add_stride d [] = (d, 1) ∷ []
add_stride d ((e, k) ∷ counts) =
    let later = add_stride d counts in
    if d == e
    then (e, suc k) ∷ counts
    else if is_below d e
    then (d, 1) ∷ (e, k) ∷ counts
    else (e, k) ∷ later

unfoldable pub count_strides : List (ℕ × ℕ) → List ℕ → List (ℕ × ℕ)
unfolding add_stride
count_strides counts [] = counts
count_strides counts (d ∷ ds) = count_strides (add_stride d counts) ds

-- `std::max_element`: the first of the largest.
unfoldable pub max_count : ℕ × ℕ → List (ℕ × ℕ) → ℕ × ℕ
max_count best [] = best
max_count best (c ∷ counts) = max_count (if ltb best.1 c.1 then c else best) counts

abbrev most_common : List (ℕ × ℕ) → Option (ℕ × ℕ)
most_common [] = none
most_common (c ∷ counts) = some (max_count c counts)

abbrev confident_stride : ℕ → Option (ℕ × ℕ) → Option (ℕ × Confidence)
confident_stride whole none = none
confident_stride whole (some (stride, count)) =
    let c : Confidence = record { part = count; whole = whole } in
    if exceeds c 6 then some (stride, c) else none

unfoldable pub detect_stride : List ℕ → Option (ℕ × Confidence)
unfolding strides count_strides max_count
detect_stride addresses =
    if ltb (length addresses) 10
    then none
    else confident_stride (length addresses - 1)
        (most_common (count_strides [] (strides addresses)))

-- Of the positions `is`, those that are compared with the first round of a loop of `size`, and those of them that
-- hold the same address.
unfoldable pub loop_matches : List ℕ → ℕ → List ℕ → Confidence
loop_matches addresses size [] = record { part = 0; whole = 0 }
loop_matches addresses size (i ∷ is) =
    let c = loop_matches addresses size is in
    if ltb (i % size) (length addresses - i)
    then (if get_or addresses i 0 == get_or addresses (i % size) 0
        then record { part = suc c.part; whole = suc c.whole }
        else record { part = c.part; whole = suc c.whole })
    else c

-- The first size whose confidence is above 8 / 10; with no test made there is none.
unfoldable pub first_loop : List ℕ → List ℕ → Option (ℕ × Confidence)
unfolding loop_matches
first_loop addresses [] = none
first_loop addresses (size ∷ sizes) =
    let c = loop_matches addresses size (iota size (length addresses - size)) in
    let later = first_loop addresses sizes in
    if ltb 0 c.whole then (if exceeds c 8 then some (size, c) else later) else later

-- The sizes from 3 to a third of the trace, 50 at most.
unfoldable pub is_looping_pattern : List ℕ → Option (ℕ × Confidence)
unfolding first_loop
is_looping_pattern addresses =
    if ltb (length addresses) 20
    then none
    else first_loop addresses (iota 3 (min (length addresses / 3) 50 - 2))

abbrev loop_or_random : Option (ℕ × Confidence) → PatternInfo
loop_or_random (some (size, c)) = looping size c
loop_or_random none = random (record { part = 1; whole = 2 })

abbrev strided_or : Option (ℕ × Confidence) → PatternInfo → PatternInfo
strided_or (some (stride, c)) later = strided stride c
strided_or none later = later

abbrev sequential_or : Option Confidence → PatternInfo → PatternInfo
sequential_or (some c) later = sequential c
sequential_or none later = later

unfoldable pub pattern_of : List ℕ → PatternInfo
unfolding is_sequential_pattern detect_stride is_looping_pattern
pattern_of addresses =
    sequential_or (is_sequential_pattern addresses)
      (strided_or (detect_stride addresses) (loop_or_random (is_looping_pattern addresses)))

abbrev pub addresses : List MemoryAccess → List ℕ
addresses accesses = map (λ access. access.address) accesses

unfoldable pub pattern_in : List MemoryAccess → Option PatternInfo
unfolding pattern_of
pattern_in accesses =
    if ltb (length accesses) 10 then none else some (pattern_of (addresses accesses))

abbrev pub detected :
    Option (List MemoryAccess × TraceParser) → Option (Option PatternInfo × TraceParser)
detected none = none
detected (some (accesses, p)) = some (pattern_in accesses, p)

-- The whole file is read; `none` would be a reader that does not end.
unfoldable pub detect_pattern : TraceParser → Option (Option PatternInfo × TraceParser)
unfolding pattern_in parse_all
detect_pattern p = detected (parse_all p)
