-- ===== src/Cache/Invariant.antt =====
-- The well-formedness of a cache over the steps of `Cache::access` of src/core/cache.cpp.
use native.Mathlib.Nat.{mod-lt}
use cache_simulator.Prelude.{
  ℕ, ◌+◌, ◌/◌, ◌%◌, ◌<◌, ◌≡◌, refl, subst, inl, inr, Bool, true, false, not, ◌&&◌, List, Option,
  none, some, arith, ◌==◌, length, get_or, Bool-cases, if◌then◌else◌, find_index-some,
  find_index-none, u32_mod, Option-cases,
}
use cache_simulator.Replacement.Choice
use cache_simulator.Prefetch.StridePredictor.{StridePredictor, get_stride}
use cache_simulator.Cache.State.{Cache, CacheBlock, empty_block}
use cache_simulator.Cache.Lookup.{
  holds, set_at, block_at, policy_at, set_index_of, tag_of, find_way, find_invalid, find_block,
  find_victim, IsPresent, IsAbsent,
}
use cache_simulator.Cache.Access.{
  World, is_write_through, put_block, put_policy, tick, installed, touched, count_access, evict,
  install_block, fill, write_hit, on_hit, handle_prefetch, prefetch_block, prefetch_after, probe,
  consume, on_miss, access, write_back_to, write_through_to,
}
use cache_simulator.Cache.Shape.{WellFormed, Fits, set_block-Shape, set_policy-Shape, retouch-Shape}

-- A way that a search finds holds the tag; a search that fails has no such way.
pub find_way-some :
    (t r : ℕ) (blocks : List CacheBlock)
    → find_way t blocks ≡ some r
    → (r < length blocks) × (holds t (get_or blocks r empty_block) ≡ true)
unfolding find_way
find_way-some t r blocks e =
    let (k, e', lt, y) = find_index-some (holds t) empty_block 0 r blocks e in
    let same : k ≡ r = omega arith in
    (omega arith, subst (λ j. holds t (get_or blocks j empty_block) ≡ true) same y)

pub find_way-none :
    (t j : ℕ) (blocks : List CacheBlock)
    → find_way t blocks ≡ none
    → holds t (get_or blocks j empty_block) ≡ false
unfolding find_way
find_way-none t j blocks e = find_index-none (holds t) empty_block 0 j blocks refl e

module _ (c : Cache) (wf : WellFormed c) where
  pub set_index_of-lt : (a : ℕ) → set_index_of c a < c.num_sets
  set_index_of-lt a = mod-lt (a / c.block_size) wf.some_sets

  pub find_victim-lt : (i : ℕ) → i < c.num_sets → (find_victim c i).1 < c.associativity
  unfolding find_victim find_invalid
  find_victim-lt i hi = elim (Option-cases (find_invalid (set_at c i))) [
    | inl full ↦
        rw (full, find_victim)
          (Choice.select_victim-lt (policy_at c i) c.associativity wf.some_ways)
    | inr (r, room) ↦
        let (k, e, lt, y) =
          find_index-some (λ b. not b.valid) (record empty_block { valid = true }) 0 r (set_at c i)
            room in
        rw (room, find_victim) (omega (arith, wf.ways i hi))
  ]

-- A block with the tag of an absent address may stand anywhere in its set.
fresh_tag-Fits :
    (c : Cache) (a way : ℕ) (b : CacheBlock)
    → IsAbsent c a
    → b.tag ≡ tag_of c a
    → Fits (set_at c (set_index_of c a)) way b
fresh_tag-Fits c a way b absent e t j hb hj =
    let blocks = set_at c (set_index_of c a) in
    let none_there = find_way-none (tag_of c a) j blocks absent in
    let same : t ≡ tag_of c a = ground (arith, e) in
    absurd (cc (subst (λ u. holds u (get_or blocks j empty_block) ≡ true) same hj, none_there))

-- The stream buffer is all that a probe changes.
pub probe_lem :
    (c : Cache) (a : ℕ) → (probe c a).0 ≡ record c { stream_buffer = (probe c a).0.stream_buffer }
unfolding probe
probe_lem c a = ground arith

consume-WellFormed : (c : Cache) (b : Bool) → WellFormed c → WellFormed (consume c b)
unfolding consume
consume-WellFormed c true wf = wf
consume-WellFormed c false wf = wf

-- Two counters are all that the count of an access changes.
pub count_access_lem :
    (c : Cache) (b : Bool)
    → count_access c b
      ≡ record c { reads = (count_access c b).reads; writes = (count_access c b).writes }
unfolding count_access
count_access_lem c true = refl
count_access_lem c false = refl

module _ {ℓ} {N : Type ℓ} (forward : World N → ℕ → Bool → World N) where
  -- The cache that an eviction leaves: one more write-back at most.
  pub evict_lem :
      (c : Cache) (i way : ℕ) (w : World N)
      → (evict forward c i way w).0
        ≡ record c { write_backs = (evict forward c i way w).0.write_backs }
  unfolding evict write_back_to
  evict_lem c i way w = ground arith

  pub fill-WellFormed :
      (c : Cache) (a : ℕ) (is_write is_prefetch : Bool) (w : World N)
      → WellFormed c
      → IsAbsent c a
      → WellFormed (fill forward c a is_write is_prefetch w).0
  unfolding fill install_block
  fill-WellFormed c a is_write is_prefetch w wf absent =
      let i = set_index_of c a in
      let (p, way) = find_victim c i in
      let stamp = (forward (evict forward (put_policy c i p) i way w).1 a false).clock in
      let b = installed c a is_write is_prefetch stamp in
      rw (evict_lem (put_policy c i p) i way w) (
        set_policy-Shape
          (set_policy-Shape
            (set_block-Shape wf i way b (set_index_of-lt c wf a)
              (find_victim-lt c wf i (set_index_of-lt c wf a))
              (fresh_tag-Fits c a way b absent refl))
            i p)
          i _)

  write_hit-WellFormed :
      (c : Cache) (a i way : ℕ) (w : World N)
      → WellFormed c
      → i < c.num_sets
      → way < c.associativity
      → WellFormed (write_hit forward c a i way w).0
  unfolding write_hit write_through_to
  write_hit-WellFormed c a i way w wf hi hw = elim (Bool-cases (is_write_through c.write_policy)) [
    | inl y ↦ rw (y, write_hit) (retouch-Shape wf i way _ hi hw (λ t. refl))
    | inr n ↦ rw (n, write_hit) (retouch-Shape wf i way _ hi hw (λ t. refl))
  ]

  pub on_hit-WellFormed :
      (c : Cache) (a : ℕ) (is_write : Bool) (way : ℕ) (w : World N)
      → WellFormed c
      → IsPresent c a way
      → WellFormed (on_hit forward c a is_write way w).0
  unfolding on_hit
  on_hit-WellFormed c a is_write way w wf found =
      let i = set_index_of c a in
      let hi = set_index_of-lt c wf a in
      let hw : way < c.associativity =
        omega (arith, (find_way-some (tag_of c a) way (set_at c i) found).0, wf.ways i hi) in
      let c1 =
        put_block (record c { hits = c.hits + 1 }) i way (touched (block_at c i way) w.clock) in
      let wf1 : WellFormed c1 =
        retouch-Shape wf i way (touched (block_at c i way) w.clock) hi hw (λ t. refl) in
      elim is_write as (λ b. WellFormed (on_hit forward c a b way w).0) [
        | true ↦ set_policy-Shape (write_hit-WellFormed c1 a i way (tick w) wf1 hi hw) _ _
        | false ↦ set_policy-Shape wf1 _ _
      ]

  prefetch_block-WellFormed :
      (c : Cache) (a : ℕ) (w : World N) → WellFormed c → WellFormed (prefetch_block forward c a w).0
  unfolding prefetch_block find_block
  prefetch_block-WellFormed c a w wf =
      elim (Option-cases (find_way (tag_of c a) (set_at c (set_index_of c a)))) [
        | inl absent ↦
            rw (absent, prefetch_block, find_block) (fill-WellFormed c a false true w wf absent)
        | inr (way, found) ↦ rw (found, prefetch_block, find_block) wf
      ]

  handle_prefetch-WellFormed :
      (c : Cache) (a : ℕ) (is_write : Bool) (predictor : StridePredictor) (w : World N)
      → WellFormed c
      → WellFormed (handle_prefetch forward c a is_write predictor w).0
  unfolding handle_prefetch
  handle_prefetch-WellFormed c a is_write predictor w wf =
      let stride = get_stride predictor a in
      elim (Bool-cases (not is_write && not (stride == 0))) [
        | inl y ↦
            rw (y, handle_prefetch) (prefetch_block-WellFormed c ((a + stride) % u32_mod) w wf)
        | inr n ↦ rw (n, handle_prefetch) wf
      ]

  prefetch_after-WellFormed :
      (c : Cache) (a : ℕ) (is_write : Bool) (predictor : Option StridePredictor) (w : World N)
      → WellFormed c
      → WellFormed (prefetch_after forward c a is_write predictor w).0
  unfolding prefetch_after
  prefetch_after-WellFormed c a is_write none w wf = wf
  prefetch_after-WellFormed c a is_write (some predictor) w wf =
      let handled = handle_prefetch-WellFormed c a is_write predictor w wf in
      elim c.prefetch_enabled
        as (λ b.
          WellFormed (if b then handle_prefetch forward c a is_write predictor w else (c, w)).0) [
            | true ↦ handled
            | false ↦ wf
          ]

  on_miss-WellFormed :
      (c : Cache) (a : ℕ) (is_write : Bool) (predictor : Option StridePredictor) (w : World N)
      → WellFormed c
      → IsAbsent c a
      → WellFormed (on_miss forward c a is_write predictor w).1
  unfolding on_miss
  on_miss-WellFormed c a is_write predictor w wf absent =
      let (looked, served) = probe c a in
      let wf1 : WellFormed looked = rw (probe_lem c a) wf in
      let absent1 : IsAbsent looked a = rw (probe_lem c a) absent in
      elim (Bool-cases served) [
        | inl y ↦ rw (y, on_miss) (consume-WellFormed looked is_write wf1)
        | inr n ↦
            rw (n, on_miss)
              (prefetch_after-WellFormed _ a is_write predictor _
                (fill-WellFormed looked a is_write false w wf1 absent1))
      ]

  -- An access keeps the cache well formed, whether it hits, is served by the stream buffer, or fills
  -- a way and prefetches, and whatever the next level does.
  pub access-WellFormed :
      (c : Cache) (a : ℕ) (is_write : Bool) (predictor : Option StridePredictor) (w : World N)
      → WellFormed c
      → WellFormed (access forward c a is_write predictor w).1
  unfolding access find_block
  access-WellFormed c a is_write predictor w wf =
      let counted = count_access_lem c is_write in
      elim (Option-cases (find_way (tag_of c a) (set_at c (set_index_of c a)))) [
        | inl absent ↦
            rw (absent, access, find_block, counted)
              (on_miss-WellFormed _ a is_write predictor w wf absent)
        | inr (way, found) ↦
            rw (found, access, find_block, counted) (on_hit-WellFormed _ a is_write way w wf found)
      ]
