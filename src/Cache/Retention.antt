-- ===== src/Cache/Retention.antt =====
-- What an access without prefetching keeps in the cache, and what it brings in.
use cache_simulator.Replacement.Policy.{Policy}
use cache_simulator.Prelude.{
  ℕ, ◌+◌, ◌≡◌, ◌<◌, ◌⊎◌, refl, sym, ap, ◌∙◌, inl, inr, Bool, true, false, not, find_index-none,
  find_index-some, get_or_in_range, ◌&&◌, Option, arith, ◌==◌, Bool-cases, Option-cases, length,
}
use cache_simulator.Prefetch.StridePredictor.{StridePredictor}
use cache_simulator.Cache.State.{Cache, empty_block}
use cache_simulator.Cache.Lookup.{
  tag_of, set_index_of, set_at, block_at, find_way, find_block, find_victim, find_invalid,
  classify_miss, IsPresent, IsAbsent,
}
use cache_simulator.Cache.Access.{
  World, count_access, count_miss, installed, fill, on_hit, on_miss, access,
}
use cache_simulator.Cache.Shape.{WellFormed}
use cache_simulator.Cache.Invariant.{
  count_access_lem, set_index_of-lt, find_victim-lt, on_hit-WellFormed,
}
use cache_simulator.Cache.Tags.{on_hit-SameTags, block_at-put_block}
use cache_simulator.Cache.Residency.{
  Holds, IsPresent-Holds, Holds-IsPresent, SameTags-Holds, fill_lem, fill-IsPresent, on_miss_off,
}

-- The cache that a miss goes on with: two counters and the type of the miss are counted.
abbrev pub missed : Cache → ℕ → Bool → Cache
missed c a is_write =
    let c0 = count_access c is_write in
    record c0 {
      misses = c0.misses + 1;
      miss_type_stats =
          count_miss (classify_miss c (set_at c (set_index_of c a))) c0.miss_type_stats;
    }

-- The victim's way is invalid, or the set is full.
victim_room :
    (c : Cache) (i : ℕ)
    → WellFormed c
    → i < c.num_sets
    → ((block_at c i (find_victim c i).1).valid ≡ false)
      ⊎ ((j : ℕ) → j < c.associativity → (block_at c i j).valid ≡ true)
unfolding find_victim find_invalid
victim_room c i wf hi =
    let d = record empty_block { valid = true } in
    let blocks = set_at c i in
    elim (Option-cases (find_invalid blocks)) [
      | inl full ↦ inr (λ j hj.
          let lt : j < length blocks = omega (arith, wf.ways i hi) in
          let valid = find_index-none (λ b. not b.valid) d 0 j blocks refl full in
          rw (get_or_in_range blocks j empty_block d lt) (ground arith))
      | inr (r, room) ↦
          let (k, e, lt, y) = find_index-some (λ b. not b.valid) d 0 r blocks room in
          let same : r ≡ k = omega arith in
          inl
            (rw (room, find_victim, same, get_or_in_range blocks k empty_block d lt) (ground arith))
    ]

-- A way that holds a block is not an invalid victim.
victim_held :
    (c : Cache) (b k i : ℕ)
    → i ≡ set_index_of c b
    → (find_victim c i).1 ≡ k
    → (block_at c i (find_victim c i).1).valid ≡ false
    → ¬ Holds c b k
victim_held c b k i s v room h =
    let x : (block_at c (set_index_of c b) k).valid ≡ true = ground arith in
    let y : (block_at c i (find_victim c i).1).valid ≡ true = rw (v, s) x in absurd (cc)

module _ {ℓ} {N : Type ℓ} (forward : World N → ℕ → Bool → World N) where
  pub access_hit :
      (c : Cache) (a way : ℕ) (is_write : Bool) (predictor : Option StridePredictor) (w : World N)
      → IsPresent c a way
      → let r = on_hit forward (count_access c is_write) a is_write way w in
        access forward c a is_write predictor w ≡ (true, r.0, r.1)
  unfolding access find_block
  access_hit c a way is_write predictor w found = rw (found, access, find_block)

  pub access_miss :
      (c : Cache) (a : ℕ) (is_write : Bool) (predictor : Option StridePredictor) (w : World N)
      → IsAbsent c a
      → access forward c a is_write predictor w
        ≡ on_miss forward (missed c a is_write) a is_write predictor w
  unfolding access find_block
  access_miss c a is_write predictor w absent = rw (absent, access, find_block)

  -- Without prefetching a miss fills the victim's way.
  pub access-fill :
      (c : Cache) (a : ℕ) (is_write : Bool) (predictor : Option StridePredictor) (w : World N)
      → c.prefetch_enabled ≡ false
      → IsAbsent c a
      → let r = fill forward (missed c a is_write) a is_write false w in
        access forward c a is_write predictor w ≡ (false, r.0, r.1)
  access-fill c a is_write predictor w off absent =
      let off' : (missed c a is_write).prefetch_enabled ≡ false =
        ap (λ (d : Cache). d.prefetch_enabled) (count_access_lem c is_write) ∙ off in
      access_miss c a is_write predictor w absent
      ∙ on_miss_off forward (missed c a is_write) a is_write predictor w off'

  -- Without prefetching the block of an accessed address is in the cache afterwards, by a hit or by a
  -- fill.
  pub access-IsPresent :
      (c : Cache) (a : ℕ) (is_write : Bool) (predictor : Option StridePredictor) (w : World N)
      → WellFormed c
      → c.prefetch_enabled ≡ false
      → (way : ℕ) × IsPresent (access forward c a is_write predictor w).1 a way
  access-IsPresent c a is_write predictor w wf off =
      let counted = count_access_lem c is_write in
      elim (Option-cases (find_way (tag_of c a) (set_at c (set_index_of c a)))) [
        | inl absent ↦
            let wf0 : WellFormed (missed c a is_write) = rw counted wf in
            let absent0 : IsAbsent (missed c a is_write) a = rw counted absent in
            (
              (find_victim (missed c a is_write) (set_index_of (missed c a is_write) a)).1,
              rw (access-fill c a is_write predictor w off absent)
                  (fill-IsPresent forward (missed c a is_write) a is_write false w wf0 absent0),
            )
        | inr (way, found) ↦
            let c0 = count_access c is_write in
            let wf0 : WellFormed c0 = rw counted wf in
            let found0 : IsPresent c0 a way = rw counted found in
            let c1 = (on_hit forward c0 a is_write way w).0 in
            (
              way,
              rw (access_hit c a way is_write predictor w found) (
                  Holds-IsPresent c1 a way
                    (on_hit-WellFormed forward c0 a is_write way w wf0 found0)
                    (SameTags-Holds c0 c1 a way
                      (on_hit-SameTags forward c0 a is_write way w wf0 found0)
                      (IsPresent-Holds c0 a way found0))),
            )
      ]

  -- Without prefetching a second access to the same address hits, whatever the kinds of the two
  -- accesses, the policies, and the levels below.
  pub access_twice :
      (c : Cache) (a : ℕ) (first second : Bool) (p p' : Option StridePredictor) (w w' : World N)
      → WellFormed c
      → c.prefetch_enabled ≡ false
      → (access forward (access forward c a first p w).1 a second p' w').0 ≡ true
  access_twice c a first second p p' w w' wf off =
      let (way, found) = access-IsPresent c a first p w wf off in
      ap (λ r. r.0) (access_hit (access forward c a first p w).1 a way second p' w' found)

  missed-find_victim :
      (c : Cache) (a : ℕ) (is_write : Bool) (i : ℕ)
      → find_victim (missed c a is_write) i ≡ find_victim c i
  unfolding find_victim count_access
  missed-find_victim c a true i = refl
  missed-find_victim c a false i = refl

  fill_keeps :
      (c : Cache) (a b k : ℕ) (is_write is_prefetch : Bool) (w : World N)
      → WellFormed c
      → Holds c b k
      → Holds (fill forward c a is_write is_prefetch w).0 b k
        ⊎ (set_index_of c a ≡ set_index_of c b) × ((find_victim c (set_index_of c a)).1 ≡ k)
  fill_keeps c a b k is_write is_prefetch w wf h =
      let i = set_index_of c a in
      let way = (find_victim c i).1 in
      let (stamp, e) = fill_lem forward c a is_write is_prefetch w in
      let blk = installed c a is_write is_prefetch stamp in
      let hi = set_index_of-lt c wf a in
      let at =
        block_at-put_block c.sets i way (set_index_of c b) k blk (omega (arith, wf.set_count))
          (omega (arith, find_victim-lt c wf i hi, wf.ways i hi)) in
      elim (Bool-cases (i == set_index_of c b && way == k)) [
        | inl y ↦ inr (ground arith, ground arith)
        | inr n ↦ inl (rw (e, at, n) h)
      ]

  -- Without prefetching an access loses at most one block: a block that stood in a way is still there,
  -- or the access missed, its set was full, and the way is the victim that was chosen in that set.
  pub access_keeps :
      (c : Cache) (a b k : ℕ) (is_write : Bool) (predictor : Option StridePredictor) (w : World N)
      → WellFormed c
      → c.prefetch_enabled ≡ false
      → Holds c b k
      → Holds (access forward c a is_write predictor w).1 b k
        ⊎ IsAbsent c a
          × (set_index_of c a ≡ set_index_of c b)
          × ((find_victim c (set_index_of c a)).1 ≡ k)
          × ((j : ℕ) → j < c.associativity → (block_at c (set_index_of c a) j).valid ≡ true)
  access_keeps c a b k is_write predictor w wf off h =
      let counted = count_access_lem c is_write in
      let i = set_index_of c a in
      elim (Option-cases (find_way (tag_of c a) (set_at c i))) [
        | inr (way, found) ↦
            let c0 = count_access c is_write in
            let wf0 : WellFormed c0 = rw counted wf in
            let found0 : IsPresent c0 a way = rw counted found in
            let h0 : Holds c0 b k = rw counted h in
            let c1 = (on_hit forward c0 a is_write way w).0 in
            inl (
              rw (access_hit c a way is_write predictor w found) (
                SameTags-Holds c0 c1 b k (on_hit-SameTags forward c0 a is_write way w wf0 found0)
                  h0))
        | inl absent ↦
            let m = missed c a is_write in
            let wf0 : WellFormed m = rw counted wf in
            let h0 : Holds m b k = rw counted h in
            let e1 : set_index_of m a ≡ i = ap (λ (d : Cache). set_index_of d a) counted in
            let e2 : set_index_of m b ≡ set_index_of c b =
              ap (λ (d : Cache). set_index_of d b) counted in
            let e3 = missed-find_victim c a is_write i in
            elim (fill_keeps m a b k is_write false w wf0 h0) [
              | inl kept ↦ inl (rw (access-fill c a is_write predictor w off absent) kept)
              | inr (s, v) ↦
                  let s' : i ≡ set_index_of c b = sym e1 ∙ s ∙ e2 in
                  let v' : (find_victim c i).1 ≡ k =
                    sym (ap (λ (r : Policy × ℕ). r.1) e3)
                    ∙ ap (λ j. (find_victim m j).1) (sym e1)
                    ∙ v in
                  elim (victim_room c i wf (set_index_of-lt c wf a)) [
                    | inl room ↦ absurd (victim_held c b k i s' v' room h)
                    | inr full ↦ inr (absent, s', v', full)
                  ]
            ]
      ]
