-- ===== src/Parallel/Chunks.antt =====
-- `partitionTrace`, `processChunk` and `processTrace` of `ParallelTraceProcessor` of
-- src/utils/parallel_executor.h. The results are collected in the order of the chunks, so that the order in which
-- the workers finish does not show. The time taken is left out.
use cache_simulator.Prelude.{
  ℕ, ◌-◌, ◌%◌, Bool, true, false, List, [], ◌∷◌, ◌++◌, map, Option, none, some, length, leb, ltb,
  ◌==◌, ◌||◌, if◌then◌else◌, add64, u32_mod, foldl,
}
use cache_simulator.Trace.Text.{Text, skip_spaces, digit_value, read_digits}

-- `sscanf` at `%x`, after the spaces: a sign, a prefix and at least one digit. A number of more than 32 bits, for
-- which the standard says nothing, is taken modulo their number of values.
unfoldable pub hex_digits : Text → Option ℕ
unfolding digit_value read_digits
hex_digits [] = none
hex_digits (c ∷ cs) =
    let value = (read_digits 16 0 (c ∷ cs)).0 in
    if ltb (digit_value c) 16 then some (value % u32_mod) else none

unfoldable pub hex_number : Text → Option ℕ
unfolding hex_digits
hex_number (a ∷ x ∷ cs) =
    let digits = hex_digits cs in
    if a == b'0'
    then (if (x == b'x') || (x == b'X') then digits else hex_digits (a ∷ x ∷ cs))
    else hex_digits (a ∷ x ∷ cs)
hex_number cs = hex_digits cs

abbrev opposite : Option ℕ → Option ℕ
opposite none = none
opposite (some n) = some ((u32_mod - n) % u32_mod)

unfoldable pub scan_hex : Text → Option ℕ
unfolding hex_number
scan_hex [] = none
scan_hex (c ∷ cs) =
    if c == b'-'
    then opposite (hex_number cs)
    else if c == b'+'
    then hex_number cs
    else hex_number (c ∷ cs)

-- The address of a line, `"%c %x"`, and none for a line that is empty, a comment, or of another form.
unfoldable pub address_of : Text → Option ℕ
unfolding skip_spaces scan_hex
address_of [] = none
address_of (c ∷ cs) = if c == b'#' then none else scan_hex (skip_spaces cs)

abbrev pub remaining : List ℕ → List (List ℕ)
remaining [] = []
remaining (a ∷ current) = (a ∷ current) ∷ []

-- `current` is the chunk that is being filled.
unfoldable pub partition_from : ℕ → List ℕ → List Text → List (List ℕ)
partition_from chunk_size current [] = remaining current
partition_from chunk_size current (line ∷ lines) = elim (address_of line) [
  | none ↦ partition_from chunk_size current lines
  | some address ↦
      let filled = current ++ (address ∷ []) in
      elim (leb chunk_size (length filled)) [
        | true ↦ filled ∷ partition_from chunk_size [] lines
        | false ↦ partition_from chunk_size filled lines
      ]
]

unfoldable pub partition_trace : List Text → ℕ → List (List ℕ)
unfolding partition_from
partition_trace lines chunk_size = partition_from chunk_size [] lines

-- What `processChunk` asks of the class of a simulator.
pub record CacheSimulator (Config State : Type 0) : Type 0 where
  pub create : Config → State
  pub access : State → ℕ → State × Bool
  pub prefetches : State → ℕ

pub record ProcessingResult : Type 0 where
  pub total_accesses : ℕ
  pub hits : ℕ
  pub misses : ℕ
  pub prefetches : ℕ

abbrev pub no_result : ProcessingResult
no_result = record { total_accesses = 0; hits = 0; misses = 0; prefetches = 0 }

abbrev pub count_access : Bool → ProcessingResult → ProcessingResult
count_access true r = record r { total_accesses = add64 r.total_accesses 1; hits = add64 r.hits 1 }
count_access false r = record r {
  total_accesses = add64 r.total_accesses 1;
  misses = add64 r.misses 1;
}

unfoldable pub combine : ProcessingResult → ProcessingResult → ProcessingResult
combine r s = record {
  total_accesses = add64 r.total_accesses s.total_accesses;
  hits = add64 r.hits s.hits;
  misses = add64 r.misses s.misses;
  prefetches = add64 r.prefetches s.prefetches;
}

module _ {Config State : Type 0} (sim : CacheSimulator Config State) where
  unfoldable pub access_all : List ℕ → State → ProcessingResult → State × ProcessingResult
  access_all [] st r = (st, r)
  access_all (address ∷ rest) st r =
      let (next, hit) = sim.access st address in access_all rest next (count_access hit r)

  unfoldable pub process_chunk : Config → List ℕ → ProcessingResult
  unfolding access_all
  process_chunk config addresses =
      let (st, r) = access_all addresses (sim.create config) no_result in
      record r { prefetches = sim.prefetches st }

  unfoldable pub process_trace : List Text → Config → ℕ → ProcessingResult
  unfolding partition_trace process_chunk combine
  process_trace lines config chunk_size =
      foldl combine no_result (map (process_chunk config) (partition_trace lines chunk_size))
