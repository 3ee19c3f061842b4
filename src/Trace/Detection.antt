-- ===== src/Trace/Detection.antt =====
-- What `TraceAnalyzer::detectPattern` of src/utils/trace_utils.cpp finds in a trace of `generateSequentialTrace`.
use native.Mathlib.Nat.{add-mul, one-mul}
use cache_simulator.Prelude.{
  ℕ, zero, suc, ◌+◌, ◌*◌, ◌%◌, ◌≤◌, ◌<◌, ◌≡◌, refl, ap, ◌∙◌, Bool, true, false, ◌||◌, List, [], ◌∷◌,
  none, some, ltb, ◌==◌, if◌then◌else◌, length, replicate, inl, inr, Bool-cases, arith, u32_mod,
  add32, sub32,
}
use cache_simulator.Trace.Parser.{MemoryAccess}
use cache_simulator.Trace.Reader.{TraceParser, open_file}
use cache_simulator.Trace.Writer.{generate_sequential_trace}
use cache_simulator.Trace.Files.{sequence, parse_all-generate_trace}
use cache_simulator.Trace.Patterns.{
  Confidence, PatternInfo, sequential, strided, is_next, sequential_count, is_sequential_pattern,
  strides, add_stride, count_strides, detect_stride, pattern_of, pattern_in, detected,
  detect_pattern, addresses,
}

-- The strides of a byte, a word and a double word.
abbrev pub is_unit : ℕ → Bool
is_unit stride = (stride == 4) || ((stride == 8) || (stride == 1))

sub32_step : (x t : ℕ) → sub32 ((x + t) % u32_mod) (x % u32_mod) ≡ t % u32_mod
sub32_step x t = omega arith

-- Whether a step is by `c`, by its two ends and by its length.
step_is :
    (x t c : ℕ) → c < u32_mod → ((x + t) % u32_mod == add32 (x % u32_mod) c) ≡ (t % u32_mod == c)
step_is x t c h = ground arith

is_next_step : (x t : ℕ) → is_next (x % u32_mod) ((x + t) % u32_mod) ≡ is_unit (t % u32_mod)
is_next_step x t =
    rw (step_is x t 4 (omega arith), step_is x t 8 (omega arith), step_is x t 1 (omega arith)) refl

step_lem : (start stride i : ℕ) → start + (i + 1) * stride ≡ start + i * stride + stride
step_lem start stride i = omega (arith, add-mul i 1 stride, one-mul stride)

-- The addresses of a sequence.
abbrev places : ℕ → ℕ → ℕ → List Bool → List ℕ
places start stride i choices = addresses (sequence start stride i choices)

length-sequence :
    (start stride i : ℕ) (choices : List Bool)
    → length (sequence start stride i choices) ≡ length choices
length-sequence start stride i [] = refl
length-sequence start stride i (b ∷ choices) = ap suc (length-sequence start stride (i + 1) choices)

length-places :
    (start stride i : ℕ) (choices : List Bool)
    → length (places start stride i choices) ≡ length choices
length-places start stride i [] = refl
length-places start stride i (b ∷ choices) = ap suc (length-places start stride (i + 1) choices)

module _ (start stride : ℕ) where
  strides-places :
      (i : ℕ) (b : Bool) (choices : List Bool)
      → strides (places start stride i (b ∷ choices))
        ≡ replicate (length choices) (stride % u32_mod)
  unfolding strides
  strides-places i b [] = refl
  strides-places i b (c ∷ choices) =
      rw (step_lem start stride i, sub32_step (start + i * stride) stride)
        (ap (stride % u32_mod ∷◌) (strides-places (i + 1) c choices))

  sequential_count-all :
      (i : ℕ) (b : Bool) (choices : List Bool)
      → is_unit (stride % u32_mod) ≡ true
      → sequential_count (places start stride i (b ∷ choices)) ≡ length choices
  unfolding sequential_count
  sequential_count-all i b [] e = refl
  sequential_count-all i b (c ∷ choices) e =
      rw (step_lem start stride i, is_next_step (start + i * stride) stride, e)
        (ap suc (sequential_count-all (i + 1) c choices e))

  sequential_count-none :
      (i : ℕ) (b : Bool) (choices : List Bool)
      → is_unit (stride % u32_mod) ≡ false
      → sequential_count (places start stride i (b ∷ choices)) ≡ 0
  unfolding sequential_count
  sequential_count-none i b [] e = refl
  sequential_count-none i b (c ∷ choices) e =
      rw (step_lem start stride i, is_next_step (start + i * stride) stride, e)
        (sequential_count-none (i + 1) c choices e)

==_refl : (d : ℕ) → (d == d) ≡ true
==_refl d = ground arith

-- One stride alone is counted.
count_strides-replicate :
    (d k n : ℕ) → count_strides ((d, k) ∷ []) (replicate n d) ≡ (d, n + k) ∷ []
unfolding count_strides add_stride
count_strides-replicate d k zero = ap (λ m. (d, m) ∷ []) (omega arith)
count_strides-replicate d k (suc n) =
    rw (count_strides, add_stride, ==_refl d)
      (count_strides-replicate d (suc k) n ∙ ap (λ m. (d, m) ∷ []) (omega arith))

-- The confidence of a count of all steps.
abbrev pub full : ℕ → Confidence
full n = record { part = n; whole = n }

count_strides-all : (d n : ℕ) → 0 < n → count_strides [] (replicate n d) ≡ (d, n) ∷ []
unfolding count_strides add_stride
count_strides-all d zero h = absurd (omega arith)
count_strides-all d (suc n) h = count_strides-replicate d 1 n ∙ ap (λ m. (d, m) ∷ []) (omega arith)

-- The three cases, for any list of `n` steps.
is_sequential_pattern-some :
    (xs : List ℕ) (n : ℕ)
    → length xs ≡ suc n
    → 9 ≤ n
    → sequential_count xs ≡ n
    → is_sequential_pattern xs ≡ some (full n)
unfolding is_sequential_pattern
is_sequential_pattern-some xs n e many all = rw (e, all) (ground arith)

is_sequential_pattern-none :
    (xs : List ℕ) → sequential_count xs ≡ 0 → is_sequential_pattern xs ≡ none
unfolding is_sequential_pattern
is_sequential_pattern-none xs e = rw e (ground arith)

detect_stride-some :
    (xs : List ℕ) (d n : ℕ)
    → length xs ≡ suc n
    → 9 ≤ n
    → strides xs ≡ replicate n d
    → detect_stride xs ≡ some (d, full n)
unfolding detect_stride
detect_stride-some xs d n e many all =
    rw (e, all, count_strides-all d n (omega arith)) (ground arith)

detect_sequence :
    (xs : List ℕ) (d n : ℕ)
    → length xs ≡ suc n
    → 9 ≤ n
    → strides xs ≡ replicate n d
    → (is_unit d ≡ true → sequential_count xs ≡ n)
    → (is_unit d ≡ false → sequential_count xs ≡ 0)
    → pattern_of xs ≡ (if is_unit d then sequential (full n) else strided d (full n))
unfolding pattern_of
detect_sequence xs d n e many same all never = elim (Bool-cases (is_unit d)) [
  | inl unit ↦ rw (is_sequential_pattern-some xs n e many (all unit), unit) refl
  | inr other ↦
      rw (is_sequential_pattern-none xs (never other), detect_stride-some xs d n e many same, other)
        refl
]

pattern_in-some :
    (accesses : List MemoryAccess)
    → 10 ≤ length accesses
    → pattern_in accesses ≡ some (pattern_of (addresses accesses))
unfolding pattern_in
pattern_in-some accesses many = let e : ltb (length accesses) 10 ≡ false = ground arith in rw e refl

abbrev pub pattern_expected : ℕ → ℕ → PatternInfo
pattern_expected d n = if is_unit d then sequential (full n) else strided d (full n)

pattern_in-sequence :
    (start stride : ℕ) (b : Bool) (choices : List Bool)
    → 9 ≤ length choices
    → pattern_in (sequence start stride 0 (b ∷ choices))
      ≡ some (pattern_expected (stride % u32_mod) (length choices))
pattern_in-sequence start stride b choices many =
    let size = length-sequence start stride 0 (b ∷ choices) in
    let xs = places start stride 0 (b ∷ choices) in
    pattern_in-some (sequence start stride 0 (b ∷ choices)) (omega (arith, size))
    ∙ ap some (
        detect_sequence xs (stride % u32_mod) (length choices)
          (length-places start stride 0 (b ∷ choices)) many
          (strides-places start stride 0 b choices) (sequential_count-all start stride 0 b choices)
          (sequential_count-none start stride 0 b choices))

-- In the file that `generateSequentialTrace` writes for ten accesses or more the analyser finds a
-- sequential pattern where the stride, as a 32-bit number, is 1, 4 or 8, and else a strided
-- one with that stride: in either case every step confirms it. Reading the file ends.
pub detect_pattern-generate_sequential_trace :
    (start stride : ℕ) (b : Bool) (choices : List Bool)
    → 9 ≤ length choices
    → (p : TraceParser) × (detect_pattern
          (open_file (some (generate_sequential_trace start stride 0 (b ∷ choices))))
        ≡ some (some (pattern_expected (stride % u32_mod) (length choices)), p))
unfolding detect_pattern
detect_pattern-generate_sequential_trace start stride b choices many =
    let (_, (p, read, _)) =
      parse_all-generate_trace (λ access. true) [] start stride (b ∷ choices) tt in
    (p, ap detected read ∙ ap (λ o. some (o, p)) (pattern_in-sequence start stride b choices many))
