-- ===== src/Hierarchy/Traffic.antt =====
-- The requests that reach L2 and L3 in `MemoryHierarchy::access`, without prefetching.
use cache_simulator.Prelude.{
  ℕ, ◌+◌, ◌≡◌, refl, sym, ap, subst, ◌∙◌, inl, inr, Bool, true, false, List, [], ◌∷◌, Option, none,
  some, Bool-cases, Option-cases, if◌then◌else◌,
}
use cache_simulator.Cache.State.{Cache}
use cache_simulator.Cache.Lookup.{set_index_of, tag_of, set_at, find_way, find_victim}
use cache_simulator.Cache.Access.{World, put_policy, evict}
use cache_simulator.Cache.Shape.{WellFormed}
use cache_simulator.Cache.Invariant.{access-WellFormed}
use cache_simulator.Cache.Retention.{missed, access-fill, access_hit, access_twice}
use cache_simulator.Cache.Levels.{fill_lower, evict_keeps, access_off, access_keeps_lower}
use cache_simulator.Hierarchy.State.{MemoryHierarchy}
use cache_simulator.Hierarchy.Steps.{update_stride_lem, count_lem, adapt_lem}
use cache_simulator.Hierarchy.Access.{
  no_level, access_last, into_l2, access_l1, after_l1_miss, update_stride, count, adapt, access,
  process_trace,
}

-- A level that is there, is well formed, and does not prefetch.
pub record IsPlain (level : Option Cache) : Type 0 where
  pub cache : Cache
  pub present : level ≡ some cache
  pub formed : WellFormed cache
  pub off : cache.prefetch_enabled ≡ false

some-IsPlain : (c : Cache) → WellFormed c → c.prefetch_enabled ≡ false → IsPlain (some c)
some-IsPlain c wf off = record { cache = c; present = refl; formed = wf; off = off }

hit_not_miss : ¬ (false ≡ true)
hit_not_miss e = absurd (cc)

access_last-IsPlain :
    (c : Cache) (a : ℕ) (is_write : Bool) (clock : ℕ)
    → WellFormed c
    → c.prefetch_enabled ≡ false
    → IsPlain (some (access_last c a is_write clock).1)
unfolding access_last
access_last-IsPlain c a is_write clock wf off =
    let start : World (Unit {0}) = record { clock = clock; lower = tt } in
    some-IsPlain (access_last c a is_write clock).1
      (access-WellFormed no_level c a is_write none start wf)
      (access_off no_level c a is_write none start wf off)

into_l2-IsPlain :
    (w : World (Option Cache)) (a : ℕ) (is_write : Bool)
    → IsPlain w.lower
    → IsPlain (into_l2 w a is_write).lower
unfolding into_l2
into_l2-IsPlain w a is_write h =
    rw (h.present, into_l2) (access_last-IsPlain h.cache a is_write w.clock h.formed h.off)

-- L2 answers the second request for an address that was the last one to reach it.
into_l2_twice :
    (w : World (Option Cache)) (a clock : ℕ) (first second : Bool) (c : Cache)
    → IsPlain w.lower
    → (into_l2 w a first).lower ≡ some c
    → (access_last c a second clock).0 ≡ true
unfolding into_l2 access_last
into_l2_twice w a clock first second c h e =
    let c1 = (access_last h.cache a first w.clock).1 in
    let reached : (into_l2 w a first).lower ≡ some c1 = rw (h.present, into_l2) refl in
    let same : c1 ≡ c = cc in
    let start : World (Unit {0}) = record { clock = w.clock; lower = tt } in
    let again : World (Unit {0}) = record { clock = clock; lower = tt } in
    subst (λ (d : Cache). (access_last d a second clock).0 ≡ true) same
      (access_twice no_level h.cache a first second none none start again h.formed h.off)

-- After a miss of L1 without prefetching the level below has just been asked for the address.
access_l1_asked :
    (h : MemoryHierarchy) (a : ℕ) (is_write : Bool)
    → h.l1.prefetch_enabled ≡ false
    → IsPlain h.l2
    → (access_l1 h a is_write).0 ≡ false
    → (w : World (Option Cache)) × IsPlain w.lower
      × ((access_l1 h a is_write).1.l2 ≡ (into_l2 w a false).lower)
unfolding access_l1
access_l1_asked h a is_write off plain missed_l1 =
    let predictor = if h.prefetch_enabled then some h.stride_predictor else none in
    let start : World (Option Cache) = record { clock = h.clock; lower = h.l2 } in
    let i = set_index_of h.l1 a in
    elim (Option-cases (find_way (tag_of h.l1 a) (set_at h.l1 i))) [
      | inl absent ↦
          let m = missed h.l1 a is_write in
          let (p, way) = find_victim m (set_index_of m a) in
          let m' = put_policy m (set_index_of m a) p in
          let w1 = (evict into_l2 m' (set_index_of m a) way start).1 in
          (
            w1,
            evict_keeps into_l2 IsPlain into_l2-IsPlain m' (set_index_of m a) way start plain,
            ap (λ (r : Bool × Cache × World (Option Cache)). r.2.lower)
                  (access-fill into_l2 h.l1 a is_write predictor start off absent)
                ∙ fill_lower into_l2 m a is_write false start,
          )
      | inr (way, found) ↦ absurd (
          hit_not_miss (
            sym missed_l1
            ∙ ap (λ (r : Bool × Cache × World (Option Cache)). r.0)
                (access_hit into_l2 h.l1 a way is_write predictor start found)))
    ]

-- Neither L1 nor L2 prefetches, and L2 is there.
pub record IsQuiet (h : MemoryHierarchy) : Type 0 where
  pub l1_formed : WellFormed h.l1
  pub l1_off : h.l1.prefetch_enabled ≡ false
  pub l2_plain : IsPlain h.l2

-- No miss of L2 is counted and L3 is as it was.
pub record StopsAtL2 (h h' : MemoryHierarchy) : Type 0 where
  pub l2_misses : h'.l2_misses ≡ h.l2_misses
  pub l3_accesses : h'.l3_accesses ≡ h.l3_accesses
  pub l3_misses : h'.l3_misses ≡ h.l3_misses
  pub l3 : h'.l3 ≡ h.l3

abbrev stopped : (h : MemoryHierarchy) → StopsAtL2 h h
stopped h = record { l2_misses = refl; l3_accesses = refl; l3_misses = refl; l3 = refl }

-- A miss of L1 that finds the address in L2 goes no further.
after_l1_miss_served :
    (h : MemoryHierarchy) (a : ℕ) (is_write : Bool) (c : Cache)
    → h.l2 ≡ some c
    → (access_last c a is_write h.clock).0 ≡ true
    → after_l1_miss h a is_write ≡ record h {
      l1_misses = h.l1_misses + 1;
      l2 = some (access_last c a is_write h.clock).1;
      clock = (access_last c a is_write h.clock).2;
      l2_accesses = h.l2_accesses + 1;
    }
unfolding after_l1_miss
after_l1_miss_served h a is_write c e served = rw (e, after_l1_miss, served) refl

access_l1-IsQuiet :
    (h : MemoryHierarchy) (a : ℕ) (is_write : Bool) → IsQuiet h → IsQuiet (access_l1 h a is_write).1
unfolding access_l1
access_l1-IsQuiet h a is_write q =
    let predictor = if h.prefetch_enabled then some h.stride_predictor else none in
    let start : World (Option Cache) = record { clock = h.clock; lower = h.l2 } in
    record {
      l1_formed = access-WellFormed into_l2 h.l1 a is_write predictor start q.l1_formed;
      l1_off = access_off into_l2 h.l1 a is_write predictor start q.l1_formed q.l1_off;
      l2_plain =
          access_keeps_lower into_l2 IsPlain into_l2-IsPlain h.l1 a is_write predictor start
            q.l2_plain;
    }

-- A miss of L1 is answered by L2 where L2 has just been asked for the address.
after_l1_miss_idle :
    (h : MemoryHierarchy) (a : ℕ) (is_write : Bool) (w : World (Option Cache))
    → IsQuiet h
    → IsPlain w.lower
    → h.l2 ≡ (into_l2 w a false).lower
    → StopsAtL2 h (after_l1_miss h a is_write) × IsQuiet (after_l1_miss h a is_write)
after_l1_miss_idle h a is_write w q plain asked =
    let p = q.l2_plain in
    let c = p.cache in
    let e =
      after_l1_miss_served h a is_write c p.present
        (into_l2_twice w a h.clock false is_write c plain (sym asked ∙ p.present)) in
    rw e (
      record { l2_misses = refl; l3_accesses = refl; l3_misses = refl; l3 = refl },
      record {
        l1_formed = q.l1_formed;
        l1_off = q.l1_off;
        l2_plain = access_last-IsPlain c a is_write h.clock p.formed p.off;
      },
    )

StopsAtL2-trans : {h h' h'' : MemoryHierarchy} → StopsAtL2 h h' → StopsAtL2 h' h'' → StopsAtL2 h h''
StopsAtL2-trans s s' = record {
  l2_misses = s'.l2_misses ∙ s.l2_misses;
  l3_accesses = s'.l3_accesses ∙ s.l3_accesses;
  l3_misses = s'.l3_misses ∙ s.l3_misses;
  l3 = s'.l3 ∙ s.l3;
}

-- The caches decide whether a hierarchy is quiet.
same_caches-IsQuiet :
    {h h' : MemoryHierarchy} → h'.l1 ≡ h.l1 → h'.l2 ≡ h.l2 → IsQuiet h → IsQuiet h'
same_caches-IsQuiet e1 e2 q = record {
  l1_formed = rw e1 q.l1_formed;
  l1_off = rw e1 q.l1_off;
  l2_plain = rw e2 q.l2_plain;
}

-- The part of an access that follows L1's answer.
after_l1_idle :
    (h : MemoryHierarchy) (a : ℕ) (is_write : Bool)
    → IsQuiet h
    → let (l1_hit, h1) = access_l1 h a is_write in
      let h2 = count h1 is_write in
      let h3 = if l1_hit then h2 else after_l1_miss h2 a is_write in StopsAtL2 h h3 × IsQuiet h3
unfolding access_l1
after_l1_idle h a is_write q =
    let (l1_hit, h1) = access_l1 h a is_write in
    let h2 = count h1 is_write in
    let e = count_lem h1 is_write in
    let q2 : IsQuiet h2 =
      same_caches-IsQuiet (ap (λ (x : MemoryHierarchy). x.l1) e)
        (ap (λ (x : MemoryHierarchy). x.l2) e) (access_l1-IsQuiet h a is_write q) in
    let s2 : StopsAtL2 h h2 =
      rw e (record { l2_misses = refl; l3_accesses = refl; l3_misses = refl; l3 = refl }) in
    elim (Bool-cases l1_hit) [
      | inl y ↦ rw y (s2, q2)
      | inr n ↦
          let (w, plain, asked) = access_l1_asked h a is_write q.l1_off q.l2_plain n in
          let asked2 : h2.l2 ≡ (into_l2 w a false).lower =
            ap (λ (x : MemoryHierarchy). x.l2) e ∙ asked in
          let (s3, q3) = after_l1_miss_idle h2 a is_write w q2 plain asked2 in
          rw n (StopsAtL2-trans s2 s3, q3)
    ]

module _ (better : List Bool → List Bool → Bool) where
  access_idle :
      (h : MemoryHierarchy) (a : ℕ) (is_write : Bool)
      → IsQuiet h
      → StopsAtL2 h (access better h a is_write) × IsQuiet (access better h a is_write)
  unfolding access
  access_idle h a is_write q =
      let h0 = update_stride h a in
      let u = update_stride_lem h a in
      let q0 : IsQuiet h0 =
        same_caches-IsQuiet (ap (λ (x : MemoryHierarchy). x.l1) u)
          (ap (λ (x : MemoryHierarchy). x.l2) u) q in
      let s0 : StopsAtL2 h h0 =
        rw u (record { l2_misses = refl; l3_accesses = refl; l3_misses = refl; l3 = refl }) in
      let (l1_hit, h1) = access_l1 h0 a is_write in
      let h3 = if l1_hit then count h1 is_write else after_l1_miss (count h1 is_write) a is_write in
      let (s3, q3) = after_l1_idle h0 a is_write q0 in
      let v = adapt_lem better h3 a in
      let s4 : StopsAtL2 h3 (adapt better h3 a) =
        rw v (record { l2_misses = refl; l3_accesses = refl; l3_misses = refl; l3 = refl }) in
      (
        StopsAtL2-trans s0 (StopsAtL2-trans s3 s4),
        same_caches-IsQuiet (ap (λ (x : MemoryHierarchy). x.l1) v)
            (ap (λ (x : MemoryHierarchy). x.l2) v) q3,
      )

  -- Where L1 and L2 are well formed and neither prefetches, a whole trace ends at L2: no miss of L2
  -- is counted, and L3 is neither asked nor changed.
  pub process_trace-StopsAtL2 :
      (h : MemoryHierarchy) (trace : List (ℕ × Bool))
      → IsQuiet h
      → StopsAtL2 h (process_trace better h trace)
  unfolding process_trace
  process_trace-StopsAtL2 h [] q = stopped h
  process_trace-StopsAtL2 h ((a, is_write) ∷ rest) q =
      let (s, q') = access_idle h a is_write q in
      StopsAtL2-trans s (process_trace-StopsAtL2 (access better h a is_write) rest q')
