-- ===== src/Cache/Tags.antt =====
-- The tags of a cache over the operations of src/core/cache.cpp that only touch blocks.
use cache_simulator.Prelude.{
  ℕ, ◌+◌, ◌≡◌, ◌<◌, refl, ap, ◌∙◌, inl, inr, Bool, true, false, ◌&&◌, List, [], arith, ◌==◌,
  Bool-cases, if◌then◌else◌, get_or, set, length, length-set, get_or-set_self, get_or-set_ne,
}
use cache_simulator.Coherence.Mesi.{modified}
use cache_simulator.Cache.State.{Cache, CacheBlock, empty_block}
use cache_simulator.Cache.Lookup.{holds, set_at, block_at, set_index_of, tag_of, IsPresent}
use cache_simulator.Cache.Access.{
  World, is_write_through, put_block, write_hit, write_through_to, on_hit, touched, tick,
}
use cache_simulator.Cache.Shape.{WellFormed}
use cache_simulator.Cache.Invariant.{set_index_of-lt, find_way-some}

-- Two caches of one geometry whose ways hold the same tags.
pub record SameTags (c c' : Cache) : Type 0 where
  pub bytes : c'.block_size ≡ c.block_size
  pub sets : c'.num_sets ≡ c.num_sets
  pub prefetch : c'.prefetch_enabled ≡ c.prefetch_enabled
  pub policy : c'.write_policy ≡ c.write_policy
  pub tags : (t j k : ℕ) → holds t (block_at c' j k) ≡ holds t (block_at c j k)

pub SameTags-trans : {c c' c'' : Cache} → SameTags c c' → SameTags c' c'' → SameTags c c''
SameTags-trans s s' = record {
  bytes = s'.bytes ∙ s.bytes;
  sets = s'.sets ∙ s.sets;
  prefetch = s'.prefetch ∙ s.prefetch;
  policy = s'.policy ∙ s.policy;
  tags = λ t j k. s'.tags t j k ∙ s.tags t j k;
}

-- The block that a write leaves at each place.
pub block_at-put_block :
    (sets : List (List CacheBlock)) (i way j k : ℕ) (b : CacheBlock)
    → i < length sets
    → way < length (get_or sets i [])
    → get_or (get_or (set sets i (set (get_or sets i []) way b)) j []) k empty_block
      ≡ (if i == j && way == k then b else get_or (get_or sets j []) k empty_block)
block_at-put_block sets i way j k b hi hw =
    let blocks = get_or sets i [] in
    elim (Bool-cases (i == j)) [
      | inl e ↦
          let same : i ≡ j = ground arith in
          rw (e, ← same, get_or-set_self sets i (set blocks way b) [] hi)
            (ground (
              arith,
              get_or-set_self blocks way b empty_block hw,
              get_or-set_ne blocks way k b empty_block,
            ))
      | inr ne ↦ rw (ne, get_or-set_ne sets i j (set blocks way b) [] (ground arith)) refl
    ]

-- A block written over one with the same tag and validity.
pub put_block-SameTags :
    (c : Cache) (i way : ℕ) (b : CacheBlock)
    → i < length c.sets
    → way < length (set_at c i)
    → ((t : ℕ) → holds t b ≡ holds t (block_at c i way))
    → SameTags c (put_block c i way b)
put_block-SameTags c i way b hi hw same = record {
  bytes = refl;
  sets = refl;
  prefetch = refl;
  policy = refl;
  tags = λ t j k. elim (Bool-cases (i == j && way == k)) [
    | inl e ↦
        let ei : i ≡ j = ground arith in
        let ek : way ≡ k = ground arith in
        rw (block_at-put_block c.sets i way j k b hi hw, e, ← ei, ← ek) (same t)
    | inr n ↦ rw (block_at-put_block c.sets i way j k b hi hw, n)
  ];
}

module _ {ℓ} {N : Type ℓ} (forward : World N → ℕ → Bool → World N) where
  write_hit-SameTags :
      (c : Cache) (a i way : ℕ) (w : World N)
      → i < length c.sets
      → way < length (set_at c i)
      → SameTags c (write_hit forward c a i way w).0
  unfolding write_hit write_through_to
  write_hit-SameTags c a i way w hi hw = elim (Bool-cases (is_write_through c.write_policy)) [
    | inl y ↦
        let b = record (block_at c i way) { dirty = false } in
        let kept = put_block-SameTags c i way b hi hw (λ t. refl) in
        rw (y, write_hit)
          (record { bytes = refl; sets = refl; prefetch = refl; policy = refl; tags = kept.tags })
    | inr n ↦
        let b = record (block_at c i way) { dirty = true; mesi_state = modified } in
        let kept = put_block-SameTags c i way b hi hw (λ t. refl) in
        rw (n, write_hit)
          (record { bytes = refl; sets = refl; prefetch = refl; policy = refl; tags = kept.tags })
  ]

  -- A hit changes no tag.
  pub on_hit-SameTags :
      (c : Cache) (a : ℕ) (is_write : Bool) (way : ℕ) (w : World N)
      → WellFormed c
      → IsPresent c a way
      → SameTags c (on_hit forward c a is_write way w).0
  unfolding on_hit
  on_hit-SameTags c a is_write way w wf found =
      let i = set_index_of c a in
      let hi : i < length c.sets = omega (arith, set_index_of-lt c wf a, wf.set_count) in
      let hw = (find_way-some (tag_of c a) way (set_at c i) found).0 in
      let b = touched (block_at c i way) w.clock in
      let c1 = put_block (record c { hits = c.hits + 1 }) i way b in
      let first : SameTags c c1 =
        let kept = put_block-SameTags c i way b hi hw (λ t. refl) in
        record { bytes = refl; sets = refl; prefetch = refl; policy = refl; tags = kept.tags } in
      let here : set_at c1 i ≡ set (set_at c i) way b =
        get_or-set_self c.sets i (set (set_at c i) way b) [] hi in
      let hi1 : i < length c1.sets = omega (arith, length-set c.sets i (set (set_at c i) way b)) in
      let hw1 : way < length (set_at c1 i) =
        omega (arith, ap length here, length-set (set_at c i) way b) in
      elim is_write as (λ x. SameTags c (on_hit forward c a x way w).0) [
        | true ↦
            let second = write_hit-SameTags c1 a i way (tick w) hi1 hw1 in
            record {
              bytes = second.bytes;
              sets = second.sets;
              prefetch = second.prefetch;
              policy = second.policy;
              tags = λ t j k. second.tags t j k ∙ first.tags t j k;
            }
        | false ↦ record {
          bytes = refl;
          sets = refl;
          prefetch = refl;
          policy = refl;
          tags = first.tags;
        }
      ]
