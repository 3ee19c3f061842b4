-- ===== src/Cache/Residency.antt =====
-- Which addresses a cache holds after an access.
use cache_simulator.Prelude.{
  ℕ, ◌≡◌, ◌<◌, refl, ap, subst, ◌∙◌, inl, inr, Bool, true, false, List, [], Option, none, some,
  arith, Option-cases, get_or, set, length, get_or-set_self,
}
use cache_simulator.Prefetch.StridePredictor.{StridePredictor}
use cache_simulator.Cache.State.{Cache, CacheBlock, empty_block}
use cache_simulator.Cache.Lookup.{
  holds, tag_of, set_index_of, set_at, block_at, find_way, find_victim, IsPresent, IsAbsent,
}
use cache_simulator.Cache.Access.{
  World, put_policy, installed, evict, install_block, fill, prefetch_after, probe, on_miss,
}
use cache_simulator.Cache.Tags.{SameTags}
use cache_simulator.Cache.Shape.{WellFormed, UniqueTags}
use cache_simulator.Cache.Invariant.{
  evict_lem, find_way-some, find_way-none, set_index_of-lt, find_victim-lt, fill-WellFormed,
}

-- In a set where no tag stands twice, a way that holds a tag is the one that the search finds.
pub find_way_of_holds :
    (t k : ℕ) (blocks : List CacheBlock)
    → UniqueTags blocks
    → holds t (get_or blocks k empty_block) ≡ true
    → find_way t blocks ≡ some k
find_way_of_holds t k blocks u h = elim (Option-cases (find_way t blocks)) [
  | inl absent ↦ absurd (cc (find_way-none t k blocks absent))
  | inr (r, found) ↦ found ∙ ap some (u t r k (find_way-some t r blocks found).1 h)
]

module _ {ℓ} {N : Type ℓ} (forward : World N → ℕ → Bool → World N) where
  -- What a fill changes: one way of one set, and the fields that the last line names.
  pub fill_lem :
      (c : Cache) (a : ℕ) (is_write is_prefetch : Bool) (w : World N)
      → let i = set_index_of c a in
        let way = (find_victim c i).1 in
        let c' = (fill forward c a is_write is_prefetch w).0 in
        (stamp : ℕ) × (c' ≡ record c {
          sets = set c.sets i (set (set_at c i) way (installed c a is_write is_prefetch stamp));
          replacement_policies = c'.replacement_policies;
          mesi_protocol = c'.mesi_protocol;
          write_backs = c'.write_backs;
        })
  unfolding fill install_block
  fill_lem c a is_write is_prefetch w =
      let i = set_index_of c a in
      let (p, way) = find_victim c i in
      let stamp = (forward (evict forward (put_policy c i p) i way w).1 a false).clock in
      (stamp, rw (evict_lem forward (put_policy c i p) i way w))

  -- A fill puts the block of its address into the victim's way.
  pub fill-IsPresent :
      (c : Cache) (a : ℕ) (is_write is_prefetch : Bool) (w : World N)
      → WellFormed c
      → IsAbsent c a
      → IsPresent (fill forward c a is_write is_prefetch w).0 a (find_victim c (set_index_of c a)).1
  fill-IsPresent c a is_write is_prefetch w wf absent =
      let i = set_index_of c a in
      let way = (find_victim c i).1 in
      let (stamp, e) = fill_lem c a is_write is_prefetch w in
      let b = installed c a is_write is_prefetch stamp in
      let hi = set_index_of-lt c wf a in
      let hw : way < length (set_at c i) = omega (arith, find_victim-lt c wf i hi, wf.ways i hi) in
      let wf' : WellFormed (record c {
        sets = set c.sets i (set (set_at c i) way b);
        replacement_policies = (fill forward c a is_write is_prefetch w).0.replacement_policies;
      }) =
        subst WellFormed e (fill-WellFormed forward c a is_write is_prefetch w wf absent) in
      let here : get_or (set c.sets i (set (set_at c i) way b)) i [] ≡ set (set_at c i) way b =
        get_or-set_self c.sets i (set (set_at c i) way b) [] (omega (arith, wf.set_count)) in
      rw (e, here)
        (find_way_of_holds (tag_of c a) way (set (set_at c i) way b) (rw here at (wf'.unique i hi))
          (rw (get_or-set_self (set_at c i) way b empty_block hw) (ground arith)))

  probe_off : (c : Cache) (a : ℕ) → c.prefetch_enabled ≡ false → probe c a ≡ (c, false)
  unfolding probe
  probe_off c a h = ground arith

  prefetch_after_off :
      (c : Cache) (a : ℕ) (is_write : Bool) (predictor : Option StridePredictor) (w : World N)
      → c.prefetch_enabled ≡ false
      → prefetch_after forward c a is_write predictor w ≡ (c, w)
  unfolding prefetch_after
  prefetch_after_off c a is_write none w h = refl
  prefetch_after_off c a is_write (some predictor) w h = ground arith

  -- Without prefetching a miss is a fill.
  pub on_miss_off :
      (c : Cache) (a : ℕ) (is_write : Bool) (predictor : Option StridePredictor) (w : World N)
      → c.prefetch_enabled ≡ false
      → on_miss forward c a is_write predictor w
        ≡ (false, (fill forward c a is_write false w).0, (fill forward c a is_write false w).1)
  unfolding on_miss
  on_miss_off c a is_write predictor w h =
      let (stamp, e) = fill_lem c a is_write false w in
      let off : (fill forward c a is_write false w).0.prefetch_enabled ≡ false =
        ap (λ (d : Cache). d.prefetch_enabled) e ∙ h in
      rw (probe_off c a h, on_miss)
        (rw (
          probe_off c a h,
          prefetch_after_off (fill forward c a is_write false w).0 a is_write predictor
              (fill forward c a is_write false w).1 off,
        ))

-- A way holds the block of an address.
abbrev pub Holds : Cache → ℕ → ℕ → Type 0
Holds c a way = holds (tag_of c a) (block_at c (set_index_of c a) way) ≡ true

pub IsPresent-Holds : (c : Cache) (a way : ℕ) → IsPresent c a way → Holds c a way
IsPresent-Holds c a way found =
    (find_way-some (tag_of c a) way (set_at c (set_index_of c a)) found).1

pub Holds-IsPresent : (c : Cache) (a way : ℕ) → WellFormed c → Holds c a way → IsPresent c a way
Holds-IsPresent c a way wf h =
    find_way_of_holds (tag_of c a) way (set_at c (set_index_of c a))
      (wf.unique (set_index_of c a) (set_index_of-lt c wf a)) h

pub SameTags-Holds : (c c' : Cache) (a way : ℕ) → SameTags c c' → Holds c a way → Holds c' a way
SameTags-Holds c c' a way s h =
    rw (s.bytes, s.sets) (s.tags (tag_of c a) (set_index_of c a) way ∙ h)
