-- ===== src/VictimCache/State.antt =====
-- `VictimBlock` and `VictimCache` of src/core/victim_cache.h. `current_size` is a `size_t`, which wraps; the
-- three statistics are numbers without a bound.
use cache_simulator.Prelude.{
  ℕ, ◌+◌, ◌-◌, ◌%◌, Bool, true, false, not, ◌&&◌, List, [], ◌∷◌, ◌++◌, Option, none, some, ◌==◌,
  leb, ltb, get_or, set, length, find_index, erase, iota, if◌then◌else◌, u64_mod,
}

pub record VictimBlock : Type 0 where
  pub address : ℕ
  pub tag : ℕ
  pub valid : Bool
  pub dirty : Bool

abbrev pub empty_block : VictimBlock
empty_block = record { address = 0; tag = 0; valid = false; dirty = false }

pub record VictimCache : Type 0 where
  pub blocks : List VictimBlock
  pub fifo_queue : List ℕ
  pub address_to_index : ℕ → Option ℕ
  pub max_size : ℕ
  pub current_size : ℕ
  pub hits : ℕ
  pub misses : ℕ
  pub evictions : ℕ

unfoldable pub create : ℕ → VictimCache
create size = record {
  blocks = [];
  fifo_queue = [];
  address_to_index = λ a. none;
  max_size = size;
  current_size = 0;
  hits = 0;
  misses = 0;
  evictions = 0;
}

-- `--currentSize` and `++currentSize` of a `size_t`.
abbrev pub pred_size : ℕ → ℕ
pred_size n = (n + (u64_mod - 1)) % u64_mod

abbrev pub next_size : ℕ → ℕ
next_size n = (n + 1) % u64_mod

abbrev pub erase_key : (ℕ → Option ℕ) → ℕ → ℕ → Option ℕ
erase_key m key k = if k == key then none else m k

abbrev pub put_key : (ℕ → Option ℕ) → ℕ → ℕ → ℕ → Option ℕ
put_key m key value k = if k == key then some value else m k

-- The test of `findBlock` and `searchAndRemove`.
abbrev pub is_at : ℕ → VictimBlock → Bool
is_at address b = b.address == address && b.valid

-- `isSameBlock`, which leaves the validity aside.
abbrev pub is_same_block : VictimBlock → VictimBlock → Bool
is_same_block new_block b = b.address == new_block.address

abbrev pub block_at : VictimCache → ℕ → VictimBlock
block_at v i = get_or v.blocks i empty_block

unfoldable pub find_block : VictimCache → ℕ → VictimCache × Bool
find_block v address = elim (find_index (is_at address) 0 v.blocks) [
  | some i ↦ (record v { hits = v.hits + 1 }, true)
  | none ↦ (record v { misses = v.misses + 1 }, false)
]

abbrev pub set_valid : List VictimBlock → ℕ → Bool → List VictimBlock
set_valid blocks i valid = set blocks i (record (get_or blocks i empty_block) { valid = valid })

-- The block leaves the queue, its slot becomes invalid, and the answer is the block as it was.
unfoldable pub search_and_remove : VictimCache → ℕ → VictimCache × Option VictimBlock
search_and_remove v address = elim (find_index (is_at address) 0 v.blocks) [
  | some i ↦ (
    record v {
      fifo_queue = erase i v.fifo_queue;
      blocks = set_valid v.blocks i false;
      address_to_index = erase_key v.address_to_index address;
      current_size = pred_size v.current_size;
      hits = v.hits + 1;
    },
    some (block_at v i),
  )
  | none ↦ (record v { misses = v.misses + 1 }, none)
]

-- The oldest of the queue, where there is one and a block is counted, leaves; a number that is no
-- slot's is dropped alone.
unfoldable pub evict_oldest : List ℕ → VictimCache → VictimCache
evict_oldest [] v = v
evict_oldest (oldest ∷ rest) v =
    if ltb 0 v.current_size
    then (if ltb oldest (length v.blocks)
        then record v {
          fifo_queue = rest;
          address_to_index = erase_key v.address_to_index (block_at v oldest).address;
          blocks = set_valid v.blocks oldest false;
          current_size = v.current_size - 1;
          evictions = v.evictions + 1;
        }
        else record v { fifo_queue = rest })
    else v

unfoldable pub evict_oldest_block : VictimCache → VictimCache
unfolding evict_oldest
evict_oldest_block v = evict_oldest v.fifo_queue v

-- The first invalid slot, or a new one at the end.
unfoldable pub place : List VictimBlock → VictimBlock → List VictimBlock × ℕ
place blocks b = elim (find_index (λ vb. not vb.valid) 0 blocks) [
  | some i ↦ (set blocks i b, i)
  | none ↦ (blocks ++ (b ∷ []), length blocks)
]

unfoldable pub insert_new : VictimCache → VictimBlock → VictimCache
unfolding place
insert_new v b =
    let (blocks, i) = place v.blocks b in
    record v {
      blocks = blocks;
      fifo_queue = v.fifo_queue ++ (i ∷ []);
      address_to_index = put_key v.address_to_index b.address i;
      current_size = next_size v.current_size;
    }

-- A slot with the block's address, valid or not, is overwritten and nothing else changes.
unfoldable pub insert_block : VictimCache → VictimBlock → VictimCache
unfolding evict_oldest_block insert_new
insert_block v b = elim (find_index (is_same_block b) 0 v.blocks) [
  | some i ↦ record v { blocks = set v.blocks i b }
  | none ↦ insert_new (if leb v.max_size v.current_size then evict_oldest_block v else v) b
]

-- The first entry of the queue whose slot holds the address.
abbrev pub dequeue : List VictimBlock → ℕ → List ℕ → List ℕ
dequeue blocks address [] = []
dequeue blocks address (i ∷ rest) =
    if (get_or blocks i empty_block).address == address
    then rest
    else i ∷ dequeue blocks address rest

unfoldable pub remove_from_data_structures : VictimCache → VictimBlock → VictimCache
remove_from_data_structures v b = record v {
  address_to_index = erase_key v.address_to_index b.address;
  fifo_queue = dequeue v.blocks b.address v.fifo_queue;
  current_size = pred_size v.current_size;
}

unfoldable pub invalidate_slot : ℕ → ℕ → VictimCache → ℕ → VictimCache
unfolding remove_from_data_structures
invalidate_slot first last v i =
    let b = block_at v i in
    if leb first b.address && leb b.address last && b.valid
    then (let v' = remove_from_data_structures v b in
        record v' { blocks = set_valid v'.blocks i false })
    else v

unfoldable pub invalidate_slots : ℕ → ℕ → VictimCache → List ℕ → VictimCache
unfolding invalidate_slot
invalidate_slots first last v [] = v
invalidate_slots first last v (i ∷ rest) =
    invalidate_slots first last (invalidate_slot first last v i) rest

unfoldable pub invalidate_blocks_in_range : VictimCache → ℕ → ℕ → VictimCache
unfolding invalidate_slots
invalidate_blocks_in_range v first last = invalidate_slots first last v (iota 0 (length v.blocks))

unfoldable pub dirty_blocks : List VictimBlock → List VictimBlock
dirty_blocks [] = []
dirty_blocks (b ∷ bs) = if b.valid && b.dirty then b ∷ dirty_blocks bs else dirty_blocks bs

unfoldable pub get_dirty_blocks : VictimCache → List VictimBlock
unfolding dirty_blocks
get_dirty_blocks v = dirty_blocks v.blocks

abbrev pub count_valid : List VictimBlock → ℕ
count_valid [] = 0
count_valid (b ∷ bs) = if b.valid then count_valid bs + 1 else count_valid bs

unfoldable pub count_valid_blocks : VictimCache → ℕ
count_valid_blocks v = count_valid v.blocks

unfoldable pub valid_addresses : List VictimBlock → List ℕ
valid_addresses [] = []
valid_addresses (b ∷ bs) = if b.valid then b.address ∷ valid_addresses bs else valid_addresses bs

unfoldable pub get_all_valid_addresses : VictimCache → List ℕ
unfolding valid_addresses
get_all_valid_addresses v = valid_addresses v.blocks

unfoldable pub is_empty : VictimCache → Bool
is_empty v = v.current_size == 0

unfoldable pub is_full : VictimCache → Bool
is_full v = leb v.max_size v.current_size
