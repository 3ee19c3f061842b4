-- ===== src/Cache/Invalidation.antt =====
-- What an invalidation takes from a cache.
use cache_simulator.Prelude.{
  ℕ, ◌≡◌, ◌<◌, ◌⊎◌, refl, sym, ◌∙◌, inl, inr, true, false, ◌&&◌, List, [], none, arith, ◌==◌,
  Bool-cases, Option-cases, if◌then◌else◌, get_or, set,
}
use cache_simulator.Coherence.Mesi
use cache_simulator.Coherence.Mesi.{invalid}
use cache_simulator.Cache.State.{Cache, CacheBlock, empty_block}
use cache_simulator.Cache.Lookup.{
  holds, tag_of, set_index_of, set_at, block_at, find_way, IsPresent, IsAbsent,
}
use cache_simulator.Cache.Maintain.{invalidate_block}
use cache_simulator.Cache.Shape.{WellFormed, set_block-Shape}
use cache_simulator.Cache.Invariant.{set_index_of-lt, find_way-some}
use cache_simulator.Cache.Tags.{block_at-put_block}
use cache_simulator.Cache.Residency.{Holds}

-- The way of the block is dropped, a transition and a coherence miss are counted.
dropped_lem :
    (c : Cache) (a way : ℕ)
    → IsPresent c a way
    → let i = set_index_of c a in
      let b = block_at c i way in
      let c' = invalidate_block c a in
      c' ≡ record c {
        sets =
            set c.sets i (set (set_at c i) way (record b { mesi_state = invalid; valid = false }));
        mesi_protocol = c'.mesi_protocol;
        miss_type_stats = c'.miss_type_stats;
      }
unfolding invalidate_block Mesi.handle_remote_write Mesi.is_valid
dropped_lem c a way found = rw (found, invalidate_block) refl

absent_lem : (c : Cache) (a : ℕ) → IsAbsent c a → invalidate_block c a ≡ c
unfolding invalidate_block
absent_lem c a absent = rw (absent, invalidate_block) refl

holds_tag : (t : ℕ) (b : CacheBlock) → holds t b ≡ true → b.tag ≡ t
holds_tag t b h = ground arith

-- A block without its validity.
abbrev gone : CacheBlock → CacheBlock
gone b = record b { mesi_state = invalid; valid = false }

module _ (c : Cache) (wf : WellFormed c) (a way : ℕ) (found : IsPresent c a way) where
  abbrev index : ℕ
  index = set_index_of c a

  abbrev after : List (List CacheBlock)
  after = set c.sets index (set (set_at c index) way (gone (block_at c index way)))

  -- What the ways hold afterwards.
  holds-after :
      (t j k : ℕ)
      → holds t (get_or (get_or after j []) k empty_block)
        ≡ (if index == j && way == k then false else holds t (block_at c j k))
  holds-after t j k =
      let hi = set_index_of-lt c wf a in
      let lt = (find_way-some (tag_of c a) way (set_at c index) found).0 in
      let at =
        block_at-put_block c.sets index way j k (gone (block_at c index way))
          (omega (arith, wf.set_count)) lt in
      elim (Bool-cases (index == j && way == k)) [
        | inl y ↦ rw (at, y) refl
        | inr n ↦ rw (at, n) refl
      ]

  gone_absent : find_way (tag_of c a) (get_or after index []) ≡ none
  gone_absent = elim (Option-cases (find_way (tag_of c a) (get_or after index []))) [
    | inl none_left ↦ none_left
    | inr (r, again) ↦
        let t = tag_of c a in
        let still = (find_way-some t r (get_or after index []) again).1 in
        let held = (find_way-some t way (set_at c index) found).1 in
        let here = holds-after t index r in
        elim (Bool-cases (way == r)) [
          | inl y ↦ absurd (ground arith)
          | inr n ↦
              let kept : holds t (block_at c index r) ≡ true = ground arith in
              let same = wf.unique index (set_index_of-lt c wf a) t r way kept held in
              absurd (ground arith)
        ]
  ]

  gone_alone :
      (b k : ℕ)
      → Holds c b k
      → (holds (tag_of c b) (get_or (get_or after (set_index_of c b) []) k empty_block) ≡ true)
        ⊎ (tag_of c b ≡ tag_of c a) × (set_index_of c b ≡ set_index_of c a)
  gone_alone b k h = elim (Bool-cases (index == set_index_of c b && way == k)) [
    | inl y ↦
        let here : index ≡ set_index_of c b = ground arith in
        let same : way ≡ k = ground arith in
        let held = (find_way-some (tag_of c a) way (set_at c index) found).1 in
        let h' : holds (tag_of c b) (block_at c index way) ≡ true = rw (here, same) h in
        inr (
          sym (holds_tag (tag_of c b) (block_at c index way) h')
              ∙ holds_tag (tag_of c a) (block_at c index way) held,
          sym here,
        )
    | inr n ↦ inl (holds-after (tag_of c b) (set_index_of c b) k ∙ rw n h)
  ]

-- After an invalidation the cache is well formed and the block of the address is not in it; every
-- block of another address is where it was.
pub invalidate_block-IsAbsent :
    (c : Cache) (a : ℕ)
    → WellFormed c
    → WellFormed (invalidate_block c a)
      × IsAbsent (invalidate_block c a) a
      × ((b k : ℕ)
          → Holds c b k
          → Holds (invalidate_block c a) b k
            ⊎ (tag_of c b ≡ tag_of c a) × (set_index_of c b ≡ set_index_of c a))
invalidate_block-IsAbsent c a wf =
    elim (Option-cases (find_way (tag_of c a) (set_at c (set_index_of c a)))) [
      | inl absent ↦ rw (absent_lem c a absent) (wf, absent, λ b k h. inl h)
      | inr (way, found) ↦
          let i = set_index_of c a in
          let hi = set_index_of-lt c wf a in
          let lt = (find_way-some (tag_of c a) way (set_at c i) found).0 in
          let hw : way < c.associativity = omega (arith, wf.ways i hi) in
          rw (dropped_lem c a way found) (
            set_block-Shape wf i way (gone (block_at c i way)) hi hw (λ t j h1 h2. absurd (cc)),
            gone_absent c wf a way found,
            gone_alone c wf a way found,
          )
    ]
