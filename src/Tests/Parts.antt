-- ===== src/Tests/Parts.antt =====
-- The victim cache, the write-combining buffer and the prefetchers on small inputs.
use cache_simulator.Prelude.{
  Bool, List, [], arith, contains, false, get_or, length, none, refl, some, suc, true, zero, ℕ, ◌<◌,
  ◌∷◌, ◌≡◌, ◌≤◌,
}
use cache_simulator.VictimCache.State as Victim
use cache_simulator.VictimCache.State.{
  VictimCache, VictimBlock, search_and_remove, insert_block, pred_size,
}
use cache_simulator.VictimCache.RoundTrip.{insert_block-search_and_remove}
use cache_simulator.WritePolicy.Combining.{
  WriteCombiningBuffer, is_for, new_entry, try_write, flush,
}
use cache_simulator.WritePolicy.Buffered.{try_write-flush}
use cache_simulator.Prefetch.StreamBuffer.{StreamBuffer, access, prefetch, shift}
use cache_simulator.Prefetch.Capacity.{shift-shrinks}
use cache_simulator.Prefetch.StridePredictor.{
  StridePredictor, slot, update, get_stride, stride_between,
}
use cache_simulator.Prefetch.Learning.{entry_at, IsBounded, update-get_stride}

abbrev first_is_better : List Bool → List Bool → Bool
first_is_better xs ys = true

abbrev dirty_block : VictimBlock
dirty_block = record { address = 64; tag = 4; valid = true; dirty = true }

abbrev two_slots : VictimCache
two_slots = Victim.create 2

insert_block-search_and_remove_example :
    (search_and_remove (insert_block two_slots dirty_block) 64).1 ≡ some dirty_block
insert_block-search_and_remove_example = insert_block-search_and_remove two_slots dirty_block refl

abbrev one_block : VictimCache
one_block = record two_slots { blocks = dirty_block ∷ []; fifo_queue = 0 ∷ []; current_size = 1 }

-- The count of the one block ends at 2 ^ 64 - 1.
abbrev combining : WriteCombiningBuffer
combining = record { entries = new_entry ∷ new_entry ∷ []; current_time = 0 }

try_write-flush_example :
    (contains 8 (flush (try_write combining 8).0).1 ≡ true)
    × ((try_write combining 8).1 ≡ false
        → (j : ℕ) → j < length combining.entries
        → ((get_or combining.entries j new_entry).valid ≡ true)
          × (is_for 8 (get_or combining.entries j new_entry) ≡ false))
try_write-flush_example = try_write-flush combining 8 (omega arith)

abbrev streaming : StreamBuffer
streaming = record {
  valid = true;
  buffer = 100 ∷ 101 ∷ 102 ∷ [];
  last_accessed_index = none;
  hits = 0;
  accesses = 0;
}

shift-shrinks_example :
    (length (access streaming 101).0.buffer ≡ 3)
    × (length (prefetch streaming 101).buffer ≡ 3)
    × (length (shift streaming).buffer ≤ 3)
    × ((access streaming 101).1 ≡ true → length (shift (access streaming 101).0).buffer < 3)
shift-shrinks_example = shift-shrinks streaming 101

-- One entry that has seen the stride 4 once.
abbrev learning : StridePredictor
learning = record {
  table =
      record { last_address = 8; stride = 4; last_stride = 0; confidence = 1; valid = true } ∷ [];
  correct_predictions = 1;
  total_predictions = 2;
  stride_histogram = λ s. 0;
}

learning-IsBounded : IsBounded learning
learning-IsBounded zero = omega arith
learning-IsBounded (suc i) = omega arith

update-get_stride_example :
    IsBounded (update learning 12)
    × ((entry_at learning (slot learning 12)).valid ≡ true
        → stride_between (entry_at learning (slot learning 12)).last_address 12
          ≡ (entry_at learning (slot learning 12)).stride
        → 1 ≤ (entry_at learning (slot learning 12)).confidence
        → get_stride (update learning 12) 12 ≡ (entry_at learning (slot learning 12)).stride)
update-get_stride_example = update-get_stride learning 12 (omega arith) learning-IsBounded
