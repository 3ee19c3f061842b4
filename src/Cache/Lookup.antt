-- ===== src/Cache/Lookup.antt =====
-- The parts of `Cache` of src/core/cache.cpp that read the state: `getTagAndSet`, `findBlock`,
-- `findVictim` and the queries for one block.
use cache_simulator.Prelude.{
  ◌≡◌, ℕ, ◌+◌, ◌*◌, ◌/◌, ◌%◌, Bool, true, not, ◌&&◌, List, [], Option, none, some, ◌==◌, ltb,
  get_or, replicate, find_index, if◌then◌else◌, u32_mod,
}
use cache_simulator.Coherence.Mesi.{MesiState, invalid}
use cache_simulator.Replacement.Policy
use cache_simulator.Replacement.Policy.{Policy}
use cache_simulator.Cache.State.{
  Cache, CacheBlock, CacheMissType, compulsory, capacity, conflict, empty_block,
}

abbrev pub set_index_of : Cache → ℕ → ℕ
set_index_of c address = address / c.block_size % c.num_sets

abbrev pub tag_of : Cache → ℕ → ℕ
tag_of c address = address / c.block_size / c.num_sets

unfoldable pub get_tag_and_set : Cache → ℕ → ℕ × ℕ
get_tag_and_set c address = (tag_of c address, set_index_of c address)

abbrev pub set_at : Cache → ℕ → List CacheBlock
set_at c i = get_or c.sets i []

-- The test of every loop that looks for a block.
abbrev pub holds : ℕ → CacheBlock → Bool
holds tag b = b.valid && b.tag == tag

unfoldable pub find_way : ℕ → List CacheBlock → Option ℕ
find_way tag blocks = find_index (holds tag) 0 blocks

unfoldable pub find_invalid : List CacheBlock → Option ℕ
find_invalid blocks = find_index (λ b. not b.valid) 0 blocks

pub data AccessResult : Type 0 where
  hit : ℕ → AccessResult
  miss : CacheMissType → AccessResult

-- The classification of a miss: a set with room, else by the shape of the cache.
unfoldable pub classify_miss : Cache → List CacheBlock → CacheMissType
classify_miss c blocks = elim (find_invalid blocks) [
  | some i ↦ compulsory
  | none ↦ if ltb c.associativity c.num_sets then conflict else capacity
]

unfoldable pub find_block : Cache → ℕ → AccessResult
find_block c address =
    let blocks = set_at c (set_index_of c address) in
    elim (find_way (tag_of c address) blocks) [
      | some i ↦ hit i
      | none ↦ miss (classify_miss c blocks)
    ]

abbrev pub no_policy : Policy
no_policy = Policy.lru_policy (record { num_blocks = 0; lru_order = [] })

abbrev pub policy_at : Cache → ℕ → Policy
policy_at c i = get_or c.replacement_policies i no_policy

-- The victim, and the policy after the choice.
unfoldable pub find_victim : Cache → ℕ → Policy × ℕ
find_victim c i = elim (find_invalid (set_at c i)) [
  | some way ↦ (policy_at c i, way)
  | none ↦ Policy.select_victim (policy_at c i) (replicate c.associativity true)
]

-- The address that a block of a set is written back to, in `uint32_t`.
unfoldable pub victim_address : Cache → ℕ → ℕ → ℕ
victim_address c tag i = (tag * c.num_sets + i) * c.block_size % u32_mod

abbrev pub block_at : Cache → ℕ → ℕ → CacheBlock
block_at c i way = get_or (set_at c i) way empty_block

-- The queries answer false or 0 out of range.
unfoldable pub is_block_valid : Cache → ℕ → ℕ → Bool
is_block_valid c i way = ltb i c.num_sets && ltb way c.associativity && (block_at c i way).valid

unfoldable pub is_block_dirty : Cache → ℕ → ℕ → Bool
is_block_dirty c i way = ltb i c.num_sets && ltb way c.associativity && (block_at c i way).dirty

unfoldable pub get_block_tag : Cache → ℕ → ℕ → ℕ
get_block_tag c i way =
    if ltb i c.num_sets && ltb way c.associativity then (block_at c i way).tag else 0

unfoldable pub get_block_access_count : Cache → ℕ → ℕ → ℕ
get_block_access_count c i way =
    if ltb i c.num_sets && ltb way c.associativity then (block_at c i way).access_count else 0

unfoldable pub get_block_last_access : Cache → ℕ → ℕ → ℕ
get_block_last_access c i way =
    if ltb i c.num_sets && ltb way c.associativity then (block_at c i way).last_access else 0

unfoldable pub is_block_prefetched : Cache → ℕ → ℕ → Bool
is_block_prefetched c i way =
    ltb i c.num_sets && ltb way c.associativity && (block_at c i way).prefetched

unfoldable pub get_block_state : Cache → ℕ → MesiState
get_block_state c address =
    let i = set_index_of c address in
    elim (find_way (tag_of c address) (set_at c i)) [
      | some way ↦ (block_at c i way).mesi_state
      | none ↦ invalid
    ]

-- The block of an address is in the cache, in a way, or it is not.
abbrev pub IsPresent : Cache → ℕ → ℕ → Type 0
IsPresent c address way = find_way (tag_of c address) (set_at c (set_index_of c address)) ≡ some way

abbrev pub IsAbsent : Cache → ℕ → Type 0
IsAbsent c address = find_way (tag_of c address) (set_at c (set_index_of c address)) ≡ none
