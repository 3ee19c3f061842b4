-- ===== src/Cache/Levels.antt =====
-- What an access without prefetching asks of the level below, and what it leaves as configured.
use cache_simulator.Prelude.{
  ℕ, ◌≡◌, ◌==◌, not, ◌+◌, ◌%◌, u32_mod, refl, ap, ◌∙◌, inl, inr, Bool, true, false, ◌&&◌, Option,
  none, some, Bool-cases, Option-cases, if◌then◌else◌,
}
use cache_simulator.Prefetch.StridePredictor.{StridePredictor, get_stride}
use cache_simulator.Cache.State.{Cache, requires_writeback}
use cache_simulator.Cache.Lookup.{
  set_index_of, tag_of, set_at, find_way, find_victim, block_at, victim_address, find_block,
  IsPresent,
}
use cache_simulator.Cache.Access.{
  World, put_policy, tick, is_write_through, count_access, evict, install_block, fill, write_hit,
  write_back_to, write_through_to, on_hit, probe, prefetch_block, handle_prefetch, prefetch_after,
  on_miss, access,
}
use cache_simulator.Cache.Shape.{WellFormed}
use cache_simulator.Cache.Invariant.{count_access_lem}
use cache_simulator.Cache.Tags.{on_hit-SameTags}
use cache_simulator.Cache.Residency.{fill_lem}
use cache_simulator.Cache.Retention.{missed, access_hit, access-fill}

module _ {ℓ} {N : Type ℓ} (forward : World N → ℕ → Bool → World N) where
  -- The last request of a fill is the read of its address.
  pub fill_lower :
      (c : Cache) (a : ℕ) (is_write is_prefetch : Bool) (w : World N)
      → let (p, way) = find_victim c (set_index_of c a) in
        let w' = (evict forward (put_policy c (set_index_of c a) p) (set_index_of c a) way w).1 in
        (fill forward c a is_write is_prefetch w).1.lower ≡ (forward w' a false).lower
  unfolding fill install_block
  fill_lower c a is_write is_prefetch w = refl

  -- Without prefetching an access leaves prefetching off.
  pub access_off :
      (c : Cache) (a : ℕ) (is_write : Bool) (predictor : Option StridePredictor) (w : World N)
      → WellFormed c
      → c.prefetch_enabled ≡ false
      → (access forward c a is_write predictor w).1.prefetch_enabled ≡ false
  access_off c a is_write predictor w wf off =
      let counted = count_access_lem c is_write in
      elim (Option-cases (find_way (tag_of c a) (set_at c (set_index_of c a)))) [
        | inl absent ↦
            let m = missed c a is_write in
            let (stamp, e) = fill_lem forward m a is_write false w in
            rw (access-fill forward c a is_write predictor w off absent) (
              ap (λ (d : Cache). d.prefetch_enabled) e
              ∙ ap (λ (d : Cache). d.prefetch_enabled) counted
              ∙ off)
        | inr (way, found) ↦
            let c0 = count_access c is_write in
            let wf0 : WellFormed c0 = rw counted wf in
            let found0 : IsPresent c0 a way = rw counted found in
            let same = on_hit-SameTags forward c0 a is_write way w wf0 found0 in
            rw (access_hit forward c a way is_write predictor w found)
              (same.prefetch ∙ ap (λ (d : Cache). d.prefetch_enabled) counted ∙ off)
      ]

  module _ {κ} (P : N → Type κ)
      (keeps : (w : World N) (a : ℕ) (b : Bool) → P w.lower → P (forward w a b).lower) where
    pub evict_keeps :
        (c : Cache) (i way : ℕ) (w : World N) → P w.lower → P (evict forward c i way w).1.lower
    unfolding evict write_back_to
    evict_keeps c i way w h =
        let b = block_at c i way in
        elim (Bool-cases (b.valid && requires_writeback b)) [
          | inl y ↦ rw (y, evict) (keeps w (victim_address c b.tag i) true h)
          | inr n ↦ rw (n, evict) h
        ]

    on_hit_keeps :
        (c : Cache) (a : ℕ) (is_write : Bool) (way : ℕ) (w : World N)
        → P w.lower
        → P (on_hit forward c a is_write way w).1.lower
    unfolding on_hit write_hit write_through_to
    on_hit_keeps c a false way w h = h
    on_hit_keeps c a true way w h = elim (Bool-cases (is_write_through c.write_policy)) [
      | inl y ↦ rw (y, on_hit, write_hit) (keeps (tick w) a true h)
      | inr n ↦ rw (n, on_hit, write_hit) h
    ]

    fill_keeps :
        (c : Cache) (a : ℕ) (is_write is_prefetch : Bool) (w : World N)
        → P w.lower
        → P (fill forward c a is_write is_prefetch w).1.lower
    fill_keeps c a is_write is_prefetch w h =
        let i = set_index_of c a in
        let (p, way) = find_victim c i in
        let w1 = (evict forward (put_policy c i p) i way w).1 in
        rw (fill_lower c a is_write is_prefetch w)
          (keeps w1 a false (evict_keeps (put_policy c i p) i way w h))

    prefetch_block_keeps :
        (c : Cache) (target : ℕ) (w : World N)
        → P w.lower
        → P (prefetch_block forward c target w).1.lower
    unfolding prefetch_block find_block
    prefetch_block_keeps c target w h =
        elim (Option-cases (find_way (tag_of c target) (set_at c (set_index_of c target)))) [
          | inl absent ↦
              rw (absent, prefetch_block, find_block) (fill_keeps c target false true w h)
          | inr (way, found) ↦ rw (found, prefetch_block, find_block) h
        ]

    handle_prefetch_keeps :
        (c : Cache) (a : ℕ) (is_write : Bool) (p : StridePredictor) (w : World N)
        → P w.lower
        → P (handle_prefetch forward c a is_write p w).1.lower
    unfolding handle_prefetch
    handle_prefetch_keeps c a is_write p w h =
        let stride = get_stride p a in
        elim (Bool-cases (not is_write && not (stride == 0))) [
          | inl y ↦ rw (y, handle_prefetch) (prefetch_block_keeps c ((a + stride) % u32_mod) w h)
          | inr n ↦ rw (n, handle_prefetch) h
        ]

    prefetch_after_keeps :
        (c : Cache) (a : ℕ) (is_write : Bool) (predictor : Option StridePredictor) (w : World N)
        → P w.lower
        → P (prefetch_after forward c a is_write predictor w).1.lower
    unfolding prefetch_after
    prefetch_after_keeps c a is_write none w h = h
    prefetch_after_keeps c a is_write (some p) w h =
        let handled = handle_prefetch_keeps c a is_write p w h in
        elim c.prefetch_enabled
          as (λ b. P (if b then handle_prefetch forward c a is_write p w else (c, w)).1.lower) [
            | true ↦ handled
            | false ↦ h
          ]

    on_miss_keeps :
        (c : Cache) (a : ℕ) (is_write : Bool) (predictor : Option StridePredictor) (w : World N)
        → P w.lower
        → P (on_miss forward c a is_write predictor w).2.lower
    unfolding on_miss
    on_miss_keeps c a is_write predictor w h =
        let (looked, served) = probe c a in
        elim (Bool-cases served) [
          | inl y ↦ rw (y, on_miss) h
          | inr n ↦
              rw (n, on_miss)
                (prefetch_after_keeps _ a is_write predictor _
                  (fill_keeps looked a is_write false w h))
        ]

    -- An access keeps what every request to the level below keeps.
    pub access_keeps_lower :
        (c : Cache) (a : ℕ) (is_write : Bool) (predictor : Option StridePredictor) (w : World N)
        → P w.lower
        → P (access forward c a is_write predictor w).2.lower
    unfolding access find_block
    access_keeps_lower c a is_write predictor w h =
        elim (Option-cases (find_way (tag_of c a) (set_at c (set_index_of c a)))) [
          | inl absent ↦ rw (absent, access, find_block) (on_miss_keeps _ a is_write predictor w h)
          | inr (way, found) ↦
              rw (found, access, find_block)
                (on_hit_keeps (count_access c is_write) a is_write way w h)
        ]
