-- ===== src/VictimCache/Accounting.antt =====
-- The count of the blocks in a victim cache, when a block comes back to the slot it has left.
use cache_simulator.Prelude.{
  ℕ, ◌+◌, ◌≡◌, refl, ap, ◌∙◌, arith, true, false, some, get_or, find_index, find_index-some,
  find_index-finds, get_or-set_self,
}
use cache_simulator.VictimCache.State.{
  VictimBlock, VictimCache, empty_block, is_at, is_same_block, set_valid, insert_block,
  search_and_remove, pred_size,
}
use cache_simulator.VictimCache.RoundTrip.{insert_block_finds}

-- Where a slot has the address of a block, valid or not, an insertion counts and queues nothing.
insert_block_uncounted :
    (v : VictimCache) (b : VictimBlock) (i : ℕ)
    → find_index (is_same_block b) 0 v.blocks ≡ some i
    → ((insert_block v b).current_size ≡ v.current_size)
      × ((insert_block v b).fifo_queue ≡ v.fifo_queue)
unfolding insert_block
insert_block_uncounted v b i held = rw (held, insert_block) (refl, refl)

removed_size :
    (v : VictimCache) (a i : ℕ)
    → find_index (is_at a) 0 v.blocks ≡ some i
    → (search_and_remove v a).0.current_size ≡ pred_size v.current_size
unfolding search_and_remove
removed_size v a i found = rw (found, search_and_remove) refl

-- The slot of a block that is taken out keeps its address.
removed_held :
    (v : VictimCache) (b : VictimBlock) (i : ℕ)
    → find_index (is_at b.address) 0 v.blocks ≡ some i
    → (j : ℕ) × (find_index (is_same_block b) 0 (search_and_remove v b.address).0.blocks ≡ some j)
unfolding search_and_remove
removed_held v b i found =
    let d = record b { address = b.address + 1 } in
    let (k, e, lt, y) = find_index-some (is_at b.address) empty_block 0 i v.blocks found in
    let same : i ≡ k = omega arith in
    let old = get_or v.blocks k empty_block in
    let kept : is_same_block b old ≡ true = ground arith in
    rw (found, search_and_remove, same)
      (find_index-finds (is_same_block b) d 0 k (set_valid v.blocks k false) (ground arith)
        (rw (get_or-set_self v.blocks k (record old { valid = false }) d lt) kept))

-- A valid block that is found in the cache, taken out and inserted again is neither counted nor
-- queued, and the next search for it counts it out a second time: taking it out, putting it back
-- and taking it out again lowers the `size_t` count twice.
pub insert_block_again :
    (v : VictimCache) (b : VictimBlock) (i : ℕ)
    → b.valid ≡ true
    → find_index (is_at b.address) 0 v.blocks ≡ some i
    → let v1 = (search_and_remove v b.address).0 in
      let v2 = insert_block v1 b in
      let (v3, answer) = search_and_remove v2 b.address in
      (v2.current_size ≡ v1.current_size)
      × (v2.fifo_queue ≡ v1.fifo_queue)
      × (v3.current_size ≡ pred_size (pred_size v.current_size))
insert_block_again v b i valid found =
    let v1 = (search_and_remove v b.address).0 in
    let v2 = insert_block v1 b in
    let (j, held) = removed_held v b i found in
    let (same_size, same_queue) = insert_block_uncounted v1 b j held in
    let (k, (found', here)) = insert_block_finds v1 b valid in
    (
      same_size,
      same_queue,
      removed_size v2 b.address k found'
          ∙ ap pred_size (same_size ∙ removed_size v b.address i found),
    )
