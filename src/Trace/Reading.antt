-- ===== src/Trace/Reading.antt =====
-- What `parseAll` of src/utils/trace_parser.cpp reads from a whole file, and the files of
-- src/utils/trace_utils.cpp.
use cache_simulator.Prelude.{
  ℕ, zero, suc, ◌+◌, ◌<◌, ◌≡◌, refl, sym, ap, ◌∙◌, true, false, List, [], ◌∷◌, Option, none, some,
  length, if◌then◌else◌, Bool-cases, inl, inr, arith, ◌⊎◌,
}
use cache_simulator.Trace.Text.{Text}
use cache_simulator.Trace.Parser.{
  MemoryAccess, ParseErrorType, ParseResult, parsed, failed, TraceFormat,
}
use cache_simulator.Trace.Reader.{
  TraceParser, is_skipped, parse_as, count, at_line, next_access, get_next_access, collect, reset,
  read_all, parse_all,
}

-- The accesses of the lines that are neither skipped nor in error, in their order.
abbrev pub accesses_of : TraceFormat → List Text → List MemoryAccess
accesses_of f [] = []
accesses_of f (line ∷ rest) =
    let later = accesses_of f rest in
    if is_skipped line
    then later
    else elim (parse_as f line) [ parsed access ↦ access ∷ later | failed e ↦ later ]

-- What a search for the next access finds in `lines`, and where it leaves the parser.
abbrev Finds : TraceFormat → List Text → ℕ → Option MemoryAccess × TraceParser → Type 0
Finds f lines total (none, p) = (accesses_of f lines ≡ []) × (p.total_accesses ≡ total)
Finds f lines total (some access, p) =
    (accesses_of f lines ≡ access ∷ accesses_of f p.rest)
    × (length p.rest < length lines)
    × (p.trace_format ≡ f)
    × (p.file_valid ≡ true)
    × (p.total_accesses ≡ total + 1)

ParseResult-cases :
    (r : ParseResult)
    → ((a : MemoryAccess) × (r ≡ parsed a)) ⊎ ((e : ParseErrorType) × (r ≡ failed e))
ParseResult-cases (parsed a) = inl (a, refl)
ParseResult-cases (failed e) = inr (e, refl)

-- A line without an access is passed over.
Finds-weaken :
    (f : TraceFormat) (line : Text) (lines : List Text) (total : ℕ)
    (r : Option MemoryAccess × TraceParser)
    → accesses_of f (line ∷ lines) ≡ accesses_of f lines
    → Finds f lines total r
    → Finds f (line ∷ lines) total r
Finds-weaken f line lines total (none, p) e h = (e ∙ h.0, h.1)
Finds-weaken f line lines total (some access, p) e (a, b, c, d, t) = (e ∙ a, omega arith, c, d, t)

count_lem :
    (p : TraceParser) (access : MemoryAccess)
    → (count p access).rest ≡ p.rest
      × ((count p access).trace_format ≡ p.trace_format)
      × ((count p access).file_valid ≡ p.file_valid)
      × ((count p access).total_accesses ≡ p.total_accesses + 1)
unfolding count
count_lem p access = elim (Bool-cases access.is_write) [
  | inl w ↦ rw w (refl, refl, refl, refl)
  | inr r ↦ rw r (refl, refl, refl, refl)
]

module _ (line : Text) (rest : List Text) (p : TraceParser) where
  next_access_skipped :
      is_skipped line ≡ true → next_access (line ∷ rest) p ≡ next_access rest (at_line p rest)
  unfolding next_access
  next_access_skipped skipped = rw skipped

  module _ (kept : is_skipped line ≡ false) where
    next_access_parsed :
        (access : MemoryAccess)
        → parse_as p.trace_format line ≡ parsed access
        → next_access (line ∷ rest) p ≡ (some access, count (at_line p rest) access)
    unfolding next_access
    next_access_parsed access e = rw (kept, e, next_access)

    next_access_failed :
        (error : ParseErrorType)
        → parse_as p.trace_format line ≡ failed error
        → next_access (line ∷ rest) p ≡ next_access rest (at_line p rest)
    unfolding next_access
    next_access_failed error e = rw (kept, e, next_access)

next_access-Finds :
    (lines : List Text) (p : TraceParser)
    → p.file_valid ≡ true
    → Finds p.trace_format lines p.total_accesses (next_access lines p)
next_access-Finds [] p valid = unfold next_access in (refl, refl)
next_access-Finds (line ∷ rest) p valid =
    let f = p.trace_format in
    let total = p.total_accesses in
    let found = next_access rest (at_line p rest) in
    let later = next_access-Finds rest (at_line p rest) valid in
    elim (Bool-cases (is_skipped line)) [
      | inl skipped ↦
          rw (next_access_skipped line rest p skipped)
            (Finds-weaken f line rest total found (rw skipped) later)
      | inr kept ↦ elim (ParseResult-cases (parse_as f line)) [
        | inl (access, e) ↦
            let (a, b, c, d) = count_lem (at_line p rest) access in
            rw (next_access_parsed line rest p kept access e) (
              rw (kept, e, accesses_of) (ap (λ l. access ∷ accesses_of f l) (sym a)),
              omega (arith, ap length a),
              b,
              c ∙ valid,
              d,
            )
        | inr (error, e) ↦
            rw (next_access_failed line rest p kept error e)
              (Finds-weaken f line rest total found (rw (kept, e, accesses_of)) later)
      ]
    ]

-- What the loop returns: all accesses, each counted.
abbrev ReadsAll : ℕ → TraceParser → Type 0
ReadsAll rounds p =
    (p' : TraceParser) × (read_all rounds p ≡ some (accesses_of p.trace_format p.rest, p'))
    × (p'.total_accesses ≡ p.total_accesses + length (accesses_of p.trace_format p.rest))

get_next_access_lem :
    (p : TraceParser) → p.file_valid ≡ true → get_next_access p ≡ next_access p.rest p
unfolding get_next_access
get_next_access_lem p valid = rw valid

read_all_lem :
    (rounds : ℕ) (p : TraceParser)
    → read_all (suc rounds) p ≡ collect (get_next_access p) (read_all rounds)
unfolding read_all
read_all_lem rounds p = refl

reset_lem :
    (p : TraceParser) → p.file_valid ≡ true → reset p ≡ record p { rest = p.lines; line_number = 0 }
unfolding reset
reset_lem p valid =
    elim p.file_valid
        as (λ v.
          v ≡ true
          → (if v then record p { rest = p.lines; line_number = 0 } else p)
            ≡ record p { rest = p.lines; line_number = 0 }) [
              | true ↦ λ e. refl
              | false ↦ λ e. absurd (cc)
            ]
      valid

read_all_step :
    (rounds : ℕ) (p : TraceParser) (r : Option MemoryAccess × TraceParser)
    → get_next_access p ≡ r
    → Finds p.trace_format p.rest p.total_accesses r
    → ((p' : TraceParser)
        → p'.file_valid ≡ true
        → length p'.rest < length p.rest
        → ReadsAll rounds p')
    → ReadsAll (suc rounds) p
read_all_step rounds p (none, p') e (nothing, total) ih =
    (p', rw (read_all_lem rounds p, e, nothing), omega (arith, ap length nothing))
read_all_step rounds p (some access, p') e (here, shorter, same, valid, total) ih =
    let (q, read, counted) = ih p' valid shorter in
    let rest : accesses_of p'.trace_format p'.rest ≡ accesses_of p.trace_format p'.rest =
      ap (λ f. accesses_of f p'.rest) same in
    (
      q,
      rw (read_all_lem rounds p, e, read, rest, here),
      omega (arith, ap length here, ap length rest),
    )

read_all-ReadsAll :
    (rounds : ℕ) (p : TraceParser)
    → p.file_valid ≡ true
    → length p.rest < rounds
    → ReadsAll rounds p
read_all-ReadsAll zero p valid h = absurd (omega arith)
read_all-ReadsAll (suc rounds) p valid h =
    read_all_step rounds p (next_access p.rest p) (get_next_access_lem p valid)
      (next_access-Finds p.rest p valid)
      (λ p' valid' shorter. read_all-ReadsAll rounds p' valid' (omega arith))

-- On a file that could be opened `parseAll` ends, with exactly the accesses of the lines that are
-- neither skipped nor in error, in their order, wherever the parser stood; it adds their number
-- to the total, also when it is called again.
pub parse_all-accesses_of :
    (p : TraceParser)
    → p.file_valid ≡ true
    → (p' : TraceParser) × (parse_all p ≡ some (accesses_of p.trace_format p.lines, p'))
      × (p'.total_accesses ≡ p.total_accesses + length (accesses_of p.trace_format p.lines))
unfolding parse_all
parse_all-accesses_of p valid =
    let start = record p { rest = p.lines; line_number = 0 } in
    rw (reset_lem p valid) (read_all-ReadsAll (suc (length p.lines)) start valid (omega arith))
