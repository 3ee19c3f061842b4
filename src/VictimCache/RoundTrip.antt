-- ===== src/VictimCache/RoundTrip.antt =====
-- `insertBlock` and the `searchAndRemove` that follows it, of src/core/victim_cache.h.
use cache_simulator.Prelude.{
  ℕ, ◌+◌, ◌≡◌, refl, ap, ◌∙◌, arith, inl, inr, true, false, not, List, [], ◌∷◌, ◌++◌, none, some,
  leb, ltb, get_or, length, find_index, Bool-cases, Option-cases, if◌then◌else◌, find_index-some,
  find_index-none, get_or-set_self, get_or_in_range,
}
use cache_simulator.VictimCache.State.{
  VictimBlock, VictimCache, empty_block, is_at, is_same_block, evict_oldest, evict_oldest_block,
  place, insert_new, insert_block, search_and_remove,
}
use cache_simulator.VictimCache.Slots.{set_first, set_only, append_only, set-none}

-- The slot in which the search for a block's address ends.
abbrev pub IsFound : List VictimBlock → VictimBlock → ℕ → Type 0
IsFound blocks b i =
    (find_index (is_at b.address) 0 blocks ≡ some i) × (get_or blocks i empty_block ≡ b)

same_weaker : (b x : VictimBlock) → is_same_block b x ≡ false → is_at b.address x ≡ false
same_weaker b x h = ground arith

get_or-append {ℓ} : {A : Type ℓ} (xs : List A) (x d : A) → get_or (xs ++ (x ∷ [])) (length xs) d ≡ x
get_or-append [] x d = refl
get_or-append (y ∷ ys) x d = get_or-append ys x d

place_finds :
    (blocks : List VictimBlock) (b : VictimBlock)
    → b.valid ≡ true
    → find_index (is_same_block b) 0 blocks ≡ none
    → IsFound (place blocks b).0 b (place blocks b).1
unfolding place
place_finds blocks b valid absent =
    let found : is_at b.address b ≡ true = ground arith in
    elim (Option-cases (find_index (λ vb. not vb.valid) 0 blocks)) [
      | inl full ↦
          rw (full, place)
            (
              append_only (is_same_block b) (is_at b.address) (same_weaker b) b found 0 blocks
                    absent
                  ∙ ap some (omega arith),
              get_or-append blocks b empty_block,
            )
      | inr (r, room) ↦
          let (k, e, lt, y) =
            find_index-some (λ vb. not vb.valid) (record empty_block { valid = true }) 0 r blocks
              room in
          let same : r ≡ k = omega arith in
          rw (room, place, same)
            (
              set_only (is_same_block b) (is_at b.address) (same_weaker b) b found 0 k blocks lt
                    absent
                  ∙ ap some (omega arith),
              get_or-set_self blocks k b empty_block lt,
            )
    ]

-- An eviction changes no address.
evict_oldest_absent :
    (queue : List ℕ) (v : VictimCache) (b : VictimBlock)
    → find_index (is_same_block b) 0 v.blocks ≡ none
    → find_index (is_same_block b) 0 (evict_oldest queue v).blocks ≡ none
unfolding evict_oldest
evict_oldest_absent [] v b absent = absent
evict_oldest_absent (oldest ∷ rest) v b absent =
    let d = record b { address = b.address + 1 } in
    let old = get_or v.blocks oldest empty_block in
    elim (Bool-cases (ltb 0 v.current_size)) [
      | inr n ↦ rw n absent
      | inl y ↦ elim (Bool-cases (ltb oldest (length v.blocks))) [
        | inr n ↦ rw (y, n) absent
        | inl lt ↦
            let other : is_same_block b old ≡ false =
              rw (get_or_in_range v.blocks oldest empty_block d (ground arith))
                (find_index-none (is_same_block b) d 0 oldest v.blocks (ground arith) absent) in
            rw (y, lt)
              (set-none (is_same_block b) 0 oldest v.blocks (record old { valid = false }) other
                absent)
      ]
    ]

-- A valid block, inserted, is what a search for its address finds.
pub insert_block_finds :
    (v : VictimCache) (b : VictimBlock)
    → b.valid ≡ true
    → (i : ℕ) × IsFound (insert_block v b).blocks b i
unfolding insert_block insert_new evict_oldest_block
insert_block_finds v b valid =
    let found : is_at b.address b ≡ true = ground arith in
    elim (Option-cases (find_index (is_same_block b) 0 v.blocks)) [
      | inl absent ↦
          let room = if leb v.max_size v.current_size then evict_oldest_block v else v in
          let absent' : find_index (is_same_block b) 0 room.blocks ≡ none =
            elim (leb v.max_size v.current_size)
              as (λ x.
                find_index (is_same_block b) 0 (if x then evict_oldest_block v else v).blocks
                ≡ none) [ true ↦ evict_oldest_absent v.fifo_queue v b absent | false ↦ absent ] in
          (
            (place room.blocks b).1,
            rw (absent, insert_block) (place_finds room.blocks b valid absent'),
          )
      | inr (r, held) ↦
          let (k, e, lt, y) =
            find_index-some (is_same_block b) (record b { address = b.address + 1 }) 0 r v.blocks
              held in
          let same : r ≡ k = omega arith in
          (
            k,
            rw (held, insert_block, same)
                (
                  set_first (is_same_block b) (is_at b.address) (same_weaker b) b found 0 k v.blocks
                        (held ∙ ap some e)
                      ∙ ap some (omega arith),
                  get_or-set_self v.blocks k b empty_block lt,
                ),
          )
    ]

-- A valid block that is inserted, whatever stood in the cache and whether another was evicted for it,
-- is the answer to the search for its address that follows.
pub insert_block-search_and_remove :
    (v : VictimCache) (b : VictimBlock)
    → b.valid ≡ true
    → (search_and_remove (insert_block v b) b.address).1 ≡ some b
unfolding search_and_remove
insert_block-search_and_remove v b valid =
    let (i, (found, here)) = insert_block_finds v b valid in
    rw (found, search_and_remove, here) refl
