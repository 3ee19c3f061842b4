-- ===== src/Trace/Files.antt =====
-- Whole trace files: what src/utils/trace_utils.cpp writes and src/utils/trace_parser.cpp reads.
use cache_simulator.Prelude.{
  ℕ, ◌+◌, ◌-◌, ◌*◌, ◌%◌, ◌<◌, ◌≡◌, refl, sym, ap, subst, ◌∙◌, Bool, true, false, List, [], ◌∷◌,
  none, some, length, if◌then◌else◌, Bool-cases, ◌==◌, inl, inr, All, arith, u32_mod,
}
use cache_simulator.Trace.Text.{Text, is_space, next_token}
use cache_simulator.Trace.Parser.{MemoryAccess, simple}
use cache_simulator.Trace.Reader.{
  TraceParser, is_skipped, parse_as, has_three_words, is_object, detect, detect_format, reset,
  open_file, parse_all,
}
use cache_simulator.Trace.Writer.{
  to_hex, write_access, line_of, generate_filtered_trace, generate_sequential_trace,
}
use cache_simulator.Trace.RoundTrip.{
  prefixed, prefixed-IsPlainText, next_token_letter, next_token_plain, next_token_end,
  parse_line-write_access,
}
use cache_simulator.Trace.Reading.{accesses_of, parse_all-accesses_of}

-- A line that `writeAccess` writes.
abbrev IsWritten : Text → Type 0
IsWritten line =
    (is_write : Bool) × (address : ℕ) × (address < u32_mod) × (line ≡ write_access is_write address)

letter_of : Bool → ℕ
letter_of b = if b then b'w' else b'r'

letter_plain :
    (b : Bool)
    → (is_space (letter_of b) ≡ false)
      × ((letter_of b == b'#') ≡ false)
      × ((letter_of b == b'{') ≡ false)
unfolding is_space letter_of
letter_plain true = (refl, refl, refl)
letter_plain false = (refl, refl, refl)

three_words : (b : Bool) (n : ℕ) → has_three_words (next_token (write_access b n)) ≡ false
unfolding write_access letter_of
three_words b n = rw (next_token_letter (letter_of b) (prefixed n) (letter_plain b).0) (
    rw
      (
        next_token_plain b'0' (b'x' ∷ to_hex n) (prefixed-IsPlainText n),
        next_token_end,
        has_three_words,
      )
      refl)

skipped : (b : Bool) (n : ℕ) → is_skipped (write_access b n) ≡ false
unfolding write_access is_skipped letter_of
skipped b n = (letter_plain b).1

object : (b : Bool) (n : ℕ) → is_object (write_access b n) ≡ false
unfolding write_access letter_of
object b n = (letter_plain b).2

detect_line :
    (left : ℕ) (line : Text) (rest : List Text)
    → is_skipped line ≡ false
    → is_object line ≡ false
    → has_three_words (next_token line) ≡ false
    → detect (left - 1) rest ≡ simple
    → detect left (line ∷ rest) ≡ simple
unfolding detect
detect_line left line rest kept plain short later = elim (Bool-cases (left == 0)) [
  | inl done ↦ rw done
  | inr more ↦ rw (more, kept, plain, short) later
]

-- A file of written lines is taken for the simple format.
detect-simple : (left : ℕ) (lines : List Text) → All IsWritten lines → detect left lines ≡ simple
detect-simple left [] h = unfold detect in refl
detect-simple left (line ∷ rest) ((b, n, fits, e), h) = rw e (
    detect_line left (write_access b n) rest (skipped b n) (object b n) (three_words b n)
      (detect-simple (left - 1) rest h))

-- The access of a line that is written for one: a core is not written.
abbrev pub without_core : MemoryAccess → MemoryAccess
without_core access = record access { core_id = none }

abbrev pub select : (MemoryAccess → Bool) → List MemoryAccess → List MemoryAccess
select filter [] = []
select filter (access ∷ rest) =
    let later = select filter rest in if filter access then without_core access ∷ later else later

abbrev pub Addressed : List MemoryAccess → Type 0
Addressed = All (λ access. access.address < u32_mod)

accesses_of_line :
    (access : MemoryAccess) (lines : List Text)
    → access.address < u32_mod
    → accesses_of simple (line_of access ∷ lines) ≡ without_core access ∷ accesses_of simple lines
unfolding parse_as
accesses_of_line access lines h =
    rw
      (
        skipped access.is_write access.address,
        parse_line-write_access access.is_write access.address h,
      )
      refl

module _ (filter : MemoryAccess → Bool) where
  filtered-IsWritten :
      (accesses : List MemoryAccess)
      → Addressed accesses
      → All IsWritten (generate_filtered_trace filter accesses)
  unfolding generate_filtered_trace
  filtered-IsWritten [] h = tt
  filtered-IsWritten (access ∷ rest) h = elim (Bool-cases (filter access)) [
    | inl keep ↦ rw keep ((access.is_write, access.address, h.0, refl), filtered-IsWritten rest h.1)
    | inr drop ↦ rw drop (filtered-IsWritten rest h.1)
  ]

  accesses_of-filtered :
      (accesses : List MemoryAccess)
      → Addressed accesses
      → accesses_of simple (generate_filtered_trace filter accesses) ≡ select filter accesses
  unfolding generate_filtered_trace
  accesses_of-filtered [] h = refl
  accesses_of-filtered (access ∷ rest) h = elim (Bool-cases (filter access)) [
    | inl keep ↦ rw keep (
        accesses_of_line access (generate_filtered_trace filter rest) h.0
        ∙ ap (without_core access ∷◌) (accesses_of-filtered rest h.1))
    | inr drop ↦ rw drop (accesses_of-filtered rest h.1)
  ]

-- The accesses of a sequence from number `i` on.
abbrev pub sequence : ℕ → ℕ → ℕ → List Bool → List MemoryAccess
sequence start stride i [] = []
sequence start stride i (is_write ∷ choices) =
    record { is_write = is_write; address = (start + i * stride) % u32_mod; core_id = none }
    ∷ sequence start stride (i + 1) choices

sequence-Addressed :
    (start stride i : ℕ) (choices : List Bool) → Addressed (sequence start stride i choices)
sequence-Addressed start stride i [] = tt
sequence-Addressed start stride i (b ∷ choices) =
    (omega arith, sequence-Addressed start stride (i + 1) choices)

abbrev every : MemoryAccess → Bool
every access = true

-- A generated sequence is the trace of its accesses.
generate_sequential_trace_lem :
    (start stride i : ℕ) (choices : List Bool)
    → generate_sequential_trace start stride i choices
      ≡ generate_filtered_trace every (sequence start stride i choices)
unfolding generate_sequential_trace generate_filtered_trace
generate_sequential_trace_lem start stride i [] = refl
generate_sequential_trace_lem start stride i (b ∷ choices) =
    ap (write_access b ((start + i * stride) % u32_mod) ∷◌)
      (generate_sequential_trace_lem start stride (i + 1) choices)

select-sequence :
    (start stride i : ℕ) (choices : List Bool)
    → select every (sequence start stride i choices) ≡ sequence start stride i choices
select-sequence start stride i [] = refl
select-sequence start stride i (b ∷ choices) =
    ap (record { is_write = b; address = (start + i * stride) % u32_mod; core_id = none } ∷◌)
      (select-sequence start stride (i + 1) choices)

abbrev pub Reads : List Text → List MemoryAccess → Type 0
Reads lines accesses =
    (p : TraceParser) × (parse_all (open_file (some lines)) ≡ some (accesses, p))
    × (p.total_accesses ≡ length accesses)

record IsOpened (lines : List Text) (p : TraceParser) : Type 0 where
  at : p.lines ≡ lines
  valid : p.file_valid ≡ true
  format : p.trace_format ≡ simple
  fresh : p.total_accesses ≡ 0

open_file-IsOpened :
    (lines : List Text) → All IsWritten lines → IsOpened lines (open_file (some lines))
unfolding open_file detect_format reset
open_file-IsOpened lines h = record {
  at = refl;
  valid = refl;
  format = detect-simple 10 lines h;
  fresh = refl;
}

read_written : (lines : List Text) → All IsWritten lines → Reads lines (accesses_of simple lines)
read_written lines h =
    let opened = open_file-IsOpened lines h in
    let (p, read, counted) = parse_all-accesses_of (open_file (some lines)) opened.valid in
    let same : accesses_of (open_file (some lines)).trace_format (open_file (some lines)).lines
        ≡ accesses_of simple lines =
      ap (λ f. accesses_of f (open_file (some lines)).lines) opened.format
      ∙ ap (accesses_of simple) opened.at in
    (p, read ∙ ap (λ l. some (l, p)) same, omega (arith, opened.fresh, ap length same))

-- The file that `generateFilteredTrace` writes for accesses to addresses of 32 bits, and the one that
-- `generateSequentialTrace` writes, are recognised and read back as the same accesses in the same
-- order, without their cores, and each is counted once.
pub parse_all-generate_trace :
    (filter : MemoryAccess → Bool) (accesses : List MemoryAccess) (start stride : ℕ)
    (choices : List Bool)
    → Addressed accesses
    → Reads (generate_filtered_trace filter accesses) (select filter accesses)
      × Reads (generate_sequential_trace start stride 0 choices) (sequence start stride 0 choices)
parse_all-generate_trace filter accesses start stride choices h =
    let written = filtered-IsWritten filter accesses h in
    let all = sequence start stride 0 choices in
    let all_addressed = sequence-Addressed start stride 0 choices in
    let all_written = filtered-IsWritten every all all_addressed in
    (
      subst (Reads (generate_filtered_trace filter accesses))
          (accesses_of-filtered filter accesses h)
          (read_written (generate_filtered_trace filter accesses) written),
      subst (λ lines. Reads lines all) (sym (generate_sequential_trace_lem start stride 0 choices))
          (subst (Reads (generate_filtered_trace every all))
            (accesses_of-filtered every all all_addressed ∙ select-sequence start stride 0 choices)
            (read_written (generate_filtered_trace every all) all_written)),
    )
