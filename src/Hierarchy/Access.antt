-- ===== src/Hierarchy/Access.antt =====
-- `MemoryHierarchy::access` and the operations that it calls, of src/core/memory_hierarchy.cpp. The
-- call of `recordPrefetchOutcome` in `access` stands under a flag that is always false, and is left
-- out there.
use cache_simulator.Prelude.{
  ℕ, ◌+◌, ◌%◌, Bool, true, false, List, [], ◌∷◌, Option, none, some, ◌==◌, if◌then◌else◌,
}
use cache_simulator.Prefetch.Adaptive
use cache_simulator.Prefetch.Adaptive.{AdaptivePrefetcher}
use cache_simulator.Prefetch.StridePredictor
use cache_simulator.Prefetch.StridePredictor.{StridePredictor}
use cache_simulator.Cache.State.{Cache}
use cache_simulator.Cache.Maintain
use cache_simulator.Cache.Access
use cache_simulator.Cache.Access.{World}
use cache_simulator.Hierarchy.State.{MemoryHierarchy}

-- A cache without a next level.
abbrev pub no_level {ℓ} : {N : Type ℓ} → World N → ℕ → Bool → World N
no_level w address is_write = w

-- An access of a cache that has neither a next level nor a predictor: `std::nullopt` for both.
unfoldable pub access_last : Cache → ℕ → Bool → ℕ → Bool × Cache × ℕ
access_last c address is_write clock =
    let start : World (Unit {0}) = record { clock = clock; lower = tt } in
    let (was_hit, c', w) = Access.access no_level c address is_write none start in
    (was_hit, c', w.clock)

-- The next level of L1 is L2, where there is one.
unfoldable pub into_l2 : World (Option Cache) → ℕ → Bool → World (Option Cache)
into_l2 w address is_write = elim w.lower [
  | none ↦ w
  | some l2 ↦
      (let (was_hit, l2', clock) = access_last l2 address is_write w.clock in
        record { clock = clock; lower = some l2' })
]

-- The lookup in L3, in both of its places.
unfoldable pub access_l3 : MemoryHierarchy → ℕ → Bool → MemoryHierarchy
access_l3 h address is_write = elim h.l3 [
  | none ↦ h
  | some l3 ↦
      (let (was_hit, l3', clock) = access_last l3 address is_write h.clock in
        record h {
          l3 = some l3';
          clock = clock;
          l3_accesses = h.l3_accesses + 1;
          l3_misses = if was_hit then h.l3_misses else h.l3_misses + 1;
        })
]

-- What follows a miss in L1.
unfoldable pub after_l1_miss : MemoryHierarchy → ℕ → Bool → MemoryHierarchy
after_l1_miss h address is_write =
    let h1 = record h { l1_misses = h.l1_misses + 1 } in
    elim h.l2 [
      | none ↦ access_l3 h1 address is_write
      | some l2 ↦
          (let (was_hit, l2', clock) = access_last l2 address is_write h.clock in
            let h2 = record h1 { l2 = some l2'; clock = clock; l2_accesses = h1.l2_accesses + 1 } in
            if was_hit
            then h2
            else access_l3 (record h2 { l2_misses = h2.l2_misses + 1 }) address is_write)
    ]

unfoldable pub count : MemoryHierarchy → Bool → MemoryHierarchy
count h true = record h { l1_writes = h.l1_writes + 1 }
count h false = record h { l1_reads = h.l1_reads + 1 }

unfoldable pub update_stride : MemoryHierarchy → ℕ → MemoryHierarchy
update_stride h address =
    if h.prefetch_enabled
    then record h { stride_predictor = StridePredictor.update h.stride_predictor address }
    else h

-- The access of L1, with L2 behind it.
unfoldable pub access_l1 : MemoryHierarchy → ℕ → Bool → Bool × MemoryHierarchy
access_l1 h address is_write =
    let predictor = if h.prefetch_enabled then some h.stride_predictor else none in
    let (was_hit, l1, w) =
      Access.access into_l2 h.l1 address is_write predictor
        (record { clock = h.clock; lower = h.l2 }) in
    (was_hit, record h { l1 = l1; l2 = w.lower; clock = w.clock })

module _ (better : List Bool → List Bool → Bool) where
  unfoldable pub adapt_prefetch_distance : MemoryHierarchy → MemoryHierarchy
  adapt_prefetch_distance h = elim h.adaptive_prefetcher [
    | none ↦ h
    | some p ↦
        (let p' = Adaptive.adapt_prefetch_distance better p in
          record h { adaptive_prefetcher = some p'; prefetch_distance = p'.prefetch_distance })
  ]

  -- Every 1000 accesses the distance is adapted.
  unfoldable pub adapt : MemoryHierarchy → ℕ → MemoryHierarchy
  adapt h address = elim h.adaptive_prefetcher [
    | none ↦ h
    | some p ↦
        (let h' = record h { adaptive_prefetcher = some (Adaptive.update_history address p) } in
          if h.prefetch_enabled
          then (if (h.l1_reads + h.l1_writes) % 1000 == 0 then adapt_prefetch_distance h' else h')
          else h)
  ]

  unfoldable pub access : MemoryHierarchy → ℕ → Bool → MemoryHierarchy
  access h address is_write =
      let (l1_hit, h1) = access_l1 (update_stride h address) address is_write in
      let h2 = count h1 is_write in
      let h3 = if l1_hit then h2 else after_l1_miss h2 address is_write in adapt h3 address

  -- The accesses of a trace, in its order.
  unfoldable pub process_trace : MemoryHierarchy → List (ℕ × Bool) → MemoryHierarchy
  unfolding access
  process_trace h [] = h
  process_trace h ((address, is_write) ∷ rest) = process_trace (access h address is_write) rest

unfoldable pub record_prefetch_outcome : MemoryHierarchy → Bool → MemoryHierarchy
record_prefetch_outcome h useful =
    let h' =
      if useful
      then record h { useful_prefetches = h.useful_prefetches + 1 }
      else record h { useless_prefetches = h.useless_prefetches + 1 } in
    elim h.adaptive_prefetcher [
      | none ↦ h'
      | some p ↦ record h' {
        adaptive_prefetcher = some (Adaptive.record_prefetch_outcome useful p);
      }
    ]

abbrev pub reset_level : Option Cache → Option Cache
reset_level none = none
reset_level (some c) = some (Maintain.reset_stats c)

unfoldable pub reset_stats : MemoryHierarchy → MemoryHierarchy
reset_stats h = record h {
  l1_reads = 0;
  l1_writes = 0;
  l1_misses = 0;
  l2_accesses = 0;
  l2_misses = 0;
  l3_accesses = 0;
  l3_misses = 0;
  useful_prefetches = 0;
  useless_prefetches = 0;
  l1 = Maintain.reset_stats h.l1;
  l2 = reset_level h.l2;
  l3 = reset_level h.l3;
  adaptive_prefetcher = elim h.adaptive_prefetcher [
    | none ↦ none
    | some p ↦ some (Adaptive.reset_stats p)
  ];
  stride_predictor = StridePredictor.reset_stats h.stride_predictor;
}
