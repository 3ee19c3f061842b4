-- ===== src/Hierarchy/Invariant.antt =====
-- The invariant of the memory hierarchy: each of its levels is well formed.
use cache_simulator.Prelude.{
  ℕ, ◌+◌, subst, inl, inr, Bool, true, false, List, [], ◌∷◌, Option, none, some, Bool-cases,
  Option-cases, if◌then◌else◌,
}
use cache_simulator.Cache.State.{Cache}
use cache_simulator.Cache.Access.{World}
use cache_simulator.Cache.Shape.{WellFormed}
use cache_simulator.Cache.Invariant.{access-WellFormed}
use cache_simulator.Cache.Levels.{access_keeps_lower}
use cache_simulator.Hierarchy.State.{MemoryHierarchy}
use cache_simulator.Hierarchy.Access.{
  no_level, access_last, into_l2, access_l1, access_l3, after_l1_miss, update_stride, count, access,
  process_trace,
}
use cache_simulator.Hierarchy.Steps.{update_stride_lem, count_lem, adapt_lem}

-- A level that is not there, or is well formed.
abbrev pub LevelWellFormed : Option Cache → Type 0
LevelWellFormed none = Unit
LevelWellFormed (some c) = WellFormed c

pub record LevelsWellFormed (l1 : Cache) (l2 l3 : Option Cache) : Type 0 where
  pub l1_formed : WellFormed l1
  pub l2_formed : LevelWellFormed l2
  pub l3_formed : LevelWellFormed l3

abbrev pub HierarchyWellFormed : MemoryHierarchy → Type 0
HierarchyWellFormed h = LevelsWellFormed h.l1 h.l2 h.l3

access_last-WellFormed :
    (c : Cache) (a : ℕ) (is_write : Bool) (clock : ℕ)
    → WellFormed c
    → WellFormed (access_last c a is_write clock).1
unfolding access_last
access_last-WellFormed c a is_write clock wf =
    let start : World (Unit {0}) = record { clock = clock; lower = tt } in
    access-WellFormed no_level c a is_write none start wf

request_l2-WellFormed :
    (l : Option Cache) (clock a : ℕ) (is_write : Bool)
    → LevelWellFormed l
    → LevelWellFormed (into_l2 (record { clock = clock; lower = l }) a is_write).lower
unfolding into_l2
request_l2-WellFormed none clock a is_write wf = wf
request_l2-WellFormed (some c) clock a is_write wf = access_last-WellFormed c a is_write clock wf

access_l1-WellFormed :
    (h : MemoryHierarchy) (a : ℕ) (is_write : Bool)
    → HierarchyWellFormed h
    → HierarchyWellFormed (access_l1 h a is_write).1
unfolding access_l1
access_l1-WellFormed h a is_write wf =
    let predictor = if h.prefetch_enabled then some h.stride_predictor else none in
    let start : World (Option Cache) = record { clock = h.clock; lower = h.l2 } in
    record {
      l1_formed = access-WellFormed into_l2 h.l1 a is_write predictor start wf.l1_formed;
      l2_formed =
          access_keeps_lower into_l2 LevelWellFormed
            (λ w b is_write'. request_l2-WellFormed w.lower w.clock b is_write') h.l1 a is_write
            predictor start wf.l2_formed;
      l3_formed = wf.l3_formed;
    }

access_l3-WellFormed :
    (h : MemoryHierarchy) (a : ℕ) (is_write : Bool)
    → HierarchyWellFormed h
    → HierarchyWellFormed (access_l3 h a is_write)
unfolding access_l3
access_l3-WellFormed h a is_write wf = elim (Option-cases h.l3) [
  | inl e ↦
      rw (e, access_l3)
        (record { l1_formed = wf.l1_formed; l2_formed = wf.l2_formed; l3_formed = wf.l3_formed })
  | inr (c, e) ↦
      let formed : WellFormed c = subst LevelWellFormed e wf.l3_formed in
      rw (e, access_l3)
        (record {
          l1_formed = wf.l1_formed;
          l2_formed = wf.l2_formed;
          l3_formed = access_last-WellFormed c a is_write h.clock formed;
        })
]

after_l1_miss-WellFormed :
    (h : MemoryHierarchy) (a : ℕ) (is_write : Bool)
    → HierarchyWellFormed h
    → HierarchyWellFormed (after_l1_miss h a is_write)
unfolding after_l1_miss
after_l1_miss-WellFormed h a is_write wf =
    let h1 = record h { l1_misses = h.l1_misses + 1 } in
    elim (Option-cases h.l2) [
      | inl e ↦
          rw (e, after_l1_miss)
            (access_l3-WellFormed h1 a is_write (record {
              l1_formed = wf.l1_formed;
              l2_formed = wf.l2_formed;
              l3_formed = wf.l3_formed;
            }))
      | inr (c, e) ↦
          let formed : WellFormed c = subst LevelWellFormed e wf.l2_formed in
          let r = access_last c a is_write h.clock in
          let h2 = record h1 { l2 = some r.1; clock = r.2; l2_accesses = h1.l2_accesses + 1 } in
          let wf2 : HierarchyWellFormed h2 = record {
            l1_formed = wf.l1_formed;
            l2_formed = access_last-WellFormed c a is_write h.clock formed;
            l3_formed = wf.l3_formed;
          } in
          elim (Bool-cases r.0) [
            | inl y ↦ rw (e, after_l1_miss, y) wf2
            | inr n ↦
                rw (e, after_l1_miss, n)
                  (access_l3-WellFormed (record h2 { l2_misses = h2.l2_misses + 1 }) a is_write
                    (record {
                      l1_formed = wf2.l1_formed;
                      l2_formed = wf2.l2_formed;
                      l3_formed = wf2.l3_formed;
                    }))
          ]
    ]

after_l1-WellFormed :
    (h : MemoryHierarchy) (a : ℕ) (is_write : Bool)
    → HierarchyWellFormed h
    → let (l1_hit, h1) = access_l1 h a is_write in
      let h2 = count h1 is_write in
      HierarchyWellFormed (if l1_hit then h2 else after_l1_miss h2 a is_write)
after_l1-WellFormed h a is_write wf =
    let (l1_hit, h1) = access_l1 h a is_write in
    let h2 = count h1 is_write in
    let wf2 : HierarchyWellFormed h2 =
      rw (count_lem h1 is_write) (access_l1-WellFormed h a is_write wf) in
    let wf3 = after_l1_miss-WellFormed h2 a is_write wf2 in
    elim l1_hit as (λ b. HierarchyWellFormed (if b then h2 else after_l1_miss h2 a is_write)) [
      | true ↦ wf2
      | false ↦ wf3
    ]

module _ (better : List Bool → List Bool → Bool) where
  -- An access keeps every level well formed, whichever levels there are and with or without
  -- prefetching.
  pub access-HierarchyWellFormed :
      (h : MemoryHierarchy) (a : ℕ) (is_write : Bool)
      → HierarchyWellFormed h
      → HierarchyWellFormed (access better h a is_write)
  unfolding access
  access-HierarchyWellFormed h a is_write wf =
      let h0 = update_stride h a in
      let wf0 : HierarchyWellFormed h0 = rw (update_stride_lem h a) wf in
      rw (adapt_lem better _ a) (after_l1-WellFormed h0 a is_write wf0)

  -- A trace keeps every level of a hierarchy well formed, whichever levels there are and with or without
  -- prefetching.
  pub process_trace-HierarchyWellFormed :
      (h : MemoryHierarchy) (trace : List (ℕ × Bool))
      → HierarchyWellFormed h
      → HierarchyWellFormed (process_trace better h trace)
  unfolding process_trace
  process_trace-HierarchyWellFormed h [] wf = wf
  process_trace-HierarchyWellFormed h ((a, is_write) ∷ rest) wf =
      process_trace-HierarchyWellFormed (access better h a is_write) rest
        (access-HierarchyWellFormed h a is_write wf)
