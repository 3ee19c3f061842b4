-- ===== src/Parallel/Totals.antt =====
-- What `partitionTrace` and `processTrace` of src/utils/parallel_executor.h give for a trace.
use cache_simulator.Prelude.{
  ℕ, ◌+◌, ◌%◌, ◌≤◌, ◌<◌, ◌≡◌, refl, sym, ap, subst, ◌∙◌, Bool, true, false, List, [], ◌∷◌, ◌++◌,
  map, max, none, some, length, length-append, leb, All, arith, add64, u64_mod, foldl, inl, inr,
  Bool-cases, Option-cases,
}
use mathlib.Core.List.{append_assoc}
use native.Mathlib.Nat.{add-mod}
use cache_simulator.Trace.Text.{Text}
use cache_simulator.Parallel.Chunks.{
  address_of, partition_from, partition_trace, CacheSimulator, ProcessingResult, no_result,
  count_access, combine, access_all, process_chunk, process_trace,
}

-- The addresses of the lines that have one, in their order.
unfoldable pub addresses_of : List Text → List ℕ
addresses_of [] = []
addresses_of (line ∷ lines) = elim (address_of line) [
  | none ↦ addresses_of lines
  | some address ↦ address ∷ addresses_of lines
]

abbrev pub joined : List (List ℕ) → List ℕ
joined [] = []
joined (c ∷ cs) = c ++ joined cs

-- A chunk is not empty, and no longer than the size that is asked for, or 1.
abbrev pub FitsIn : ℕ → List ℕ → Type 0
FitsIn chunk_size c = (0 < length c) × (length c ≤ max 1 chunk_size)

-- The chunks that follow a chunk in the making, their addresses and their sizes.
abbrev Follows : ℕ → List ℕ → List Text → Type 0
Follows n current lines =
    (joined (partition_from n current lines) ≡ current ++ addresses_of lines)
    × All (FitsIn n) (partition_from n current lines)

last_chunk : (n : ℕ) (current : List ℕ) → length current < max 1 n → Follows n current []
unfolding partition_from addresses_of
last_chunk n [] h = (refl, tt)
last_chunk n (a ∷ current) h = (refl, ((omega arith, omega arith), tt))

line_skipped :
    (n : ℕ) (current : List ℕ) (line : Text) (lines : List Text)
    → address_of line ≡ none
    → Follows n current lines
    → Follows n current (line ∷ lines)
unfolding partition_from addresses_of
line_skipped n current line lines e h = rw (partition_from, addresses_of, e) h

chunk_grows :
    (n : ℕ) (current : List ℕ) (line : Text) (lines : List Text) (address : ℕ)
    → address_of line ≡ some address
    → leb n (length (current ++ (address ∷ []))) ≡ false
    → Follows n (current ++ (address ∷ [])) lines
    → Follows n current (line ∷ lines)
unfolding partition_from addresses_of
chunk_grows n current line lines address e f h =
    rw (partition_from, addresses_of, e, f)
      (h.0 ∙ append_assoc current (address ∷ []) (addresses_of lines), h.1)

chunk_full :
    (n : ℕ) (current : List ℕ) (line : Text) (lines : List Text) (address : ℕ)
    → address_of line ≡ some address
    → leb n (length (current ++ (address ∷ []))) ≡ true
    → length current < max 1 n
    → Follows n [] lines
    → Follows n current (line ∷ lines)
unfolding partition_from addresses_of
chunk_full n current line lines address e f short h =
    let size = length-append current (address ∷ []) in
    rw (partition_from, addresses_of, e, f)
      (
        append_assoc current (address ∷ []) (joined (partition_from n [] lines))
            ∙ ap (λ r. current ++ (address ∷ r)) h.0,
        ((omega (arith, size), omega (arith, size, short)), h.1),
      )

partition_from-Follows :
    (n : ℕ) (current : List ℕ) (lines : List Text)
    → length current < max 1 n
    → Follows n current lines
partition_from-Follows n current [] short = last_chunk n current short
partition_from-Follows n current (line ∷ lines) short = elim (Option-cases (address_of line)) [
  | inl e ↦ line_skipped n current line lines e (partition_from-Follows n current lines short)
  | inr (address, e) ↦ elim (Bool-cases (leb n (length (current ++ (address ∷ []))))) [
    | inl full ↦
        chunk_full n current line lines address e full short
          (partition_from-Follows n [] lines (omega arith))
    | inr room ↦
        let size = length-append current (address ∷ []) in
        let below : length (current ++ (address ∷ [])) < n = ground arith in
        chunk_grows n current line lines address e room
          (partition_from-Follows n (current ++ (address ∷ [])) lines (omega (arith, below)))
  ]
]

-- A result that counts `n` accesses, each a hit or a miss, as 64-bit numbers.
abbrev pub Counts : ProcessingResult → ℕ → Type 0
Counts r n =
    (h : ℕ) × (k : ℕ) × (h + k ≡ n)
    × (r.total_accesses ≡ n % u64_mod)
    × (r.hits ≡ h % u64_mod)
    × (r.misses ≡ k % u64_mod)

add64_lem : {a b : ℕ} (m n : ℕ) → a ≡ m % u64_mod → b ≡ n % u64_mod → add64 a b ≡ (m + n) % u64_mod
add64_lem m n e f = rw (e, f) (sym (add-mod m n u64_mod))

count_access-Counts :
    (hit : Bool) (r : ProcessingResult) (n : ℕ) → Counts r n → Counts (count_access hit r) (n + 1)
count_access-Counts true r n (h, k, sum, e1, e2, e3) =
    (h + 1, k, omega (arith, sum), add64_lem n 1 e1 refl, add64_lem h 1 e2 refl, e3)
count_access-Counts false r n (h, k, sum, e1, e2, e3) =
    (h, k + 1, omega (arith, sum), add64_lem n 1 e1 refl, e2, add64_lem k 1 e3 refl)

combine-Counts :
    (r s : ProcessingResult) (m n : ℕ) → Counts r m → Counts s n → Counts (combine r s) (m + n)
unfolding combine
combine-Counts r s m n (h, k, sum, e1, e2, e3) (h', k', sum', f1, f2, f3) = (
  h + h',
  k + k',
  omega (arith, sum, sum'),
  add64_lem m n e1 f1,
  add64_lem h h' e2 f2,
  add64_lem k k' e3 f3,
)

no_result-Counts : Counts no_result 0
no_result-Counts = (0, 0, refl, refl, refl, refl)

module _ {Config State : Type 0} (sim : CacheSimulator Config State) where
  access_all-Counts :
      (addresses : List ℕ) (st : State) (r : ProcessingResult) (n : ℕ)
      → Counts r n
      → Counts (access_all sim addresses st r).1 (n + length addresses)
  unfolding access_all
  access_all-Counts [] st r n h = subst (Counts r) (omega arith) h
  access_all-Counts (address ∷ rest) st r n h =
      let (next, hit) = sim.access st address in
      subst (Counts (access_all sim rest next (count_access hit r)).1) (omega arith)
        (access_all-Counts rest next (count_access hit r) (n + 1) (count_access-Counts hit r n h))

  process_chunk-Counts :
      (config : Config) (c : List ℕ) → Counts (process_chunk sim config c) (length c)
  unfolding process_chunk
  process_chunk-Counts config c =
      subst (Counts (process_chunk sim config c)) (omega arith)
        (access_all-Counts c (sim.create config) no_result 0 no_result-Counts)

  chunks-Counts :
      (config : Config) (cs : List (List ℕ)) (r : ProcessingResult) (n : ℕ)
      → Counts r n
      → Counts (foldl combine r (map (process_chunk sim config) cs)) (n + length (joined cs))
  chunks-Counts config [] r n h = subst (Counts r) (omega arith) h
  chunks-Counts config (c ∷ cs) r n h =
      subst (Counts (foldl combine r (map (process_chunk sim config) (c ∷ cs))))
        (omega (arith, length-append c (joined cs)))
        (chunks-Counts config cs (combine r (process_chunk sim config c)) (n + length c)
          (combine-Counts r _ n (length c) h (process_chunk-Counts config c)))

-- Whatever the simulator, the chunks of a trace are its addresses in their order, none is empty, and none
-- is longer than the size that is asked for, or 1. The combined result counts every address once, as
-- a hit or as a miss, up to the 64 bits of a counter.
pub process_trace-Counts :
    {Config State : Type 0} (sim : CacheSimulator Config State) (lines : List Text)
    (config : Config) (chunk_size : ℕ)
    → (joined (partition_trace lines chunk_size) ≡ addresses_of lines)
      × All (FitsIn chunk_size) (partition_trace lines chunk_size)
      × Counts (process_trace sim lines config chunk_size) (length (addresses_of lines))
unfolding partition_trace process_trace
process_trace-Counts sim lines config chunk_size =
    let (e, sizes) = partition_from-Follows chunk_size [] lines (omega arith) in
    (
      e,
      sizes,
      subst (Counts (process_trace sim lines config chunk_size)) (omega (arith, ap length e)) (
          chunks-Counts sim config (partition_from chunk_size [] lines) no_result 0
            no_result-Counts),
    )
