-- ===== src/Processor/Soundness.antt =====
-- The invariant of the multi-processor system of src/core/multiprocessor/processor_core.cpp.
use cache_simulator.Prelude.{
  ℕ, zero, suc, ◌+◌, ◌%◌, ◌<◌, ◌≡◌, ◌≢◌, refl, subst, Bool, true, false, List, [], ◌∷◌, none, some,
  get_elem?, set, length, get_elem?-some, get_elem?-set_ne, ◌==◌, Bool-cases, inl, inr, All, arith,
  add32, add64, u64_mod,
}
use cache_simulator.Coherence.Mesi
use cache_simulator.Coherence.Mesi.{MesiState, modified, shared, invalid}
use cache_simulator.Cache.State.{Cache}
use cache_simulator.Cache.Shape.{WellFormed}
use cache_simulator.Cache.Invariant.{access-WellFormed}
use cache_simulator.Hierarchy.Access.{access_last, no_level}
use cache_simulator.Directory.State.{CoherenceController, get_or_create_entry, put_entry}
use cache_simulator.Directory.Requests.{process_request, update_cache_state}
use cache_simulator.Directory.Ownership.{
  IsProcessor, DirectoryIsConsistent, process_request-DirectoryIsConsistent,
}
use cache_simulator.Processor.Core.{
  ProcessorState, running, ProcessorCore, Shared, Progress, check_coherence_permission, request_of,
  handle_l1_miss, acquire, access_l1, access,
}
use cache_simulator.Processor.System.{
  MultiProcessorSystem, get_processor, put_progress, process_access,
}

-- A core has a well-formed L1 cache and a number that is no owner's -1, and `pending` of its accesses are
-- not yet counted as hits or misses.
pub record CoreIsSound (pending : ℕ) (c : ProcessorCore) : Type 0 where
  pub well_formed : WellFormed c.l1_cache
  pub numbered : IsProcessor c.processor_id
  pub answered : (c.l1_hits + c.l1_misses + pending) % u64_mod ≡ c.total_accesses

-- A line that a processor takes keeps its entry.
update_cache_state-DirectoryIsConsistent :
    (d : CoherenceController) (p address : ℕ) (old_state new_state : MesiState)
    → Mesi.is_valid new_state ≡ true
    → DirectoryIsConsistent d
    → DirectoryIsConsistent (update_cache_state d p address old_state new_state)
unfolding update_cache_state get_or_create_entry put_entry
update_cache_state-DirectoryIsConsistent d p address old_state new_state valid h a =
    elim (Bool-cases (a == address)) [
      | inl same ↦ rw (valid, same) (h address)
      | inr apart ↦ rw apart (h a)
    ]

abbrev IsSoundAt : ℕ → Progress → Type 0
IsSoundAt pending p = CoreIsSound pending p.core × DirectoryIsConsistent p.world.controller

handle_l1_miss-IsSoundAt :
    (p : Progress) (pending address : ℕ) (is_write : Bool)
    → IsSoundAt pending p
    → IsSoundAt pending (handle_l1_miss p address is_write)
unfolding handle_l1_miss Mesi.is_valid
handle_l1_miss-IsSoundAt p pending address true h =
    (h.0, update_cache_state-DirectoryIsConsistent _ _ address invalid modified refl h.1)
handle_l1_miss-IsSoundAt p pending address false h =
    (h.0, update_cache_state-DirectoryIsConsistent _ _ address invalid shared refl h.1)

-- The state of a core and its coherence misses are apart from the invariant.
resumed :
    {c : ProcessorCore} {pending : ℕ} (s : ProcessorState) (k : ℕ)
    → CoreIsSound pending c
    → CoreIsSound pending (record c { state = s; coherence_misses = k })
resumed s k h = record { well_formed = h.well_formed; numbered = h.numbered; answered = h.answered }

acquire-IsSoundAt :
    (p : Progress) (pending address : ℕ) (is_write : Bool)
    → IsSoundAt pending p
    → IsSoundAt pending (acquire p address is_write)
unfolding acquire
acquire-IsSoundAt p pending address is_write h =
    let q = request_of p.core address is_write in
    let asked = process_request-DirectoryIsConsistent p.world.controller q h.0.numbered h.1 in
    elim (Bool-cases (check_coherence_permission p.core p.world address is_write)) [
      | inl yes_permit ↦ rw yes_permit h
      | inr refused ↦ elim (Bool-cases (process_request p.world.controller q).1.granted) [
        | inl granted ↦ rw (refused, granted) (resumed running p.core.coherence_misses h.0, asked)
        | inr denied ↦
            let counted = resumed p.core.state (add64 p.core.coherence_misses 1) h.0 in
            let missed =
              handle_l1_miss-IsSoundAt
                (record {
                  core = record p.core { coherence_misses = add64 p.core.coherence_misses 1 };
                  world = record p.world { controller = (process_request p.world.controller q).0 };
                  latency = add32 p.latency (process_request p.world.controller q).1.latency;
                })
                pending address is_write (counted, asked) in
            rw (refused, denied) (resumed running _ missed.0, missed.1)
      ]
    ]

access_last-WellFormed :
    (c : Cache) (address : ℕ) (is_write : Bool) (clock : ℕ)
    → WellFormed c
    → WellFormed (access_last c address is_write clock).1
unfolding access_last
access_last-WellFormed c address is_write clock wf =
    access-WellFormed no_level c address is_write none (record { clock = clock; lower = tt }) wf

-- The access of the L1 cache counts the pending access.
access_l1-IsSoundAt :
    (p : Progress) (address : ℕ) (is_write : Bool)
    → IsSoundAt 1 p
    → IsSoundAt 0 (access_l1 p address is_write)
unfolding access_l1
access_l1-IsSoundAt p address is_write h =
    let kept =
      access_last-WellFormed p.core.l1_cache address is_write p.world.clock h.0.well_formed in
    let answered = h.0.answered in
    elim (Bool-cases (access_last p.core.l1_cache address is_write p.world.clock).0) [
      | inl was_hit ↦
          rw was_hit
            (record { well_formed = kept; numbered = h.0.numbered; answered = omega arith }, h.1)
      | inr missed ↦
          let (was_hit, cache, clock) =
            access_last p.core.l1_cache address is_write p.world.clock in
          let after : Progress = record {
            core = record p.core { l1_cache = cache; l1_misses = add64 p.core.l1_misses 1 };
            world = record p.world { clock = clock };
            latency = p.latency;
          } in
          rw missed (
            handle_l1_miss-IsSoundAt after 0 address is_write
              (record { well_formed = kept; numbered = h.0.numbered; answered = omega arith }, h.1))
    ]

-- An access of a core whose invariant holds keeps it, and that of the directory.
pub access-IsSound :
    (c : ProcessorCore) (w : Shared) (address : ℕ) (is_write : Bool)
    → CoreIsSound 0 c
    → DirectoryIsConsistent w.controller
    → CoreIsSound 0 (access c w address is_write).core
      × DirectoryIsConsistent (access c w address is_write).world.controller
unfolding access
access-IsSound c w address is_write h d =
    let counted : CoreIsSound 1 (record c { total_accesses = add64 c.total_accesses 1 }) = record {
      well_formed = h.well_formed;
      numbered = h.numbered;
      answered = omega (arith, h.answered);
    } in
    let acquired =
      acquire-IsSoundAt
        (record {
          core = record c { total_accesses = add64 c.total_accesses 1 };
          world = w;
          latency = 1;
        })
        1 address is_write (counted, d) in
    let done = access_l1-IsSoundAt _ address is_write acquired in
    (
      record {
        well_formed = done.0.well_formed;
        numbered = done.0.numbered;
        answered = done.0.answered;
      },
      done.1,
    )

-- Every core and the directory are sound.
pub record SystemIsSound (s : MultiProcessorSystem) : Type 0 where
  pub cores : All (CoreIsSound 0) s.processors
  pub consistent : DirectoryIsConsistent s.world.controller

All-get_elem? :
    (xs : List ProcessorCore) (i : ℕ) (c : ProcessorCore)
    → All (CoreIsSound 0) xs
    → get_elem? xs i ≡ some c
    → CoreIsSound 0 c
All-get_elem? [] i c h e = absurd (cc)
All-get_elem? (x ∷ xs) zero c h e = let same : x ≡ c = cc in subst (CoreIsSound 0) same h.0
All-get_elem? (x ∷ xs) (suc i) c h e = All-get_elem? xs i c h.1 e

All-set :
    (xs : List ProcessorCore) (i : ℕ) (c : ProcessorCore)
    → All (CoreIsSound 0) xs
    → CoreIsSound 0 c
    → All (CoreIsSound 0) (set xs i c)
All-set [] i c h k = tt
All-set (x ∷ xs) zero c h k = (k, h.1)
All-set (x ∷ xs) (suc i) c h k = (h.0, All-set xs i c h.1 k)

-- An access of a processor that the system has succeeds. It keeps every L1 cache well formed, the hits
-- and misses of every core adding up to its accesses, and the directory consistent; and it changes no
-- core but its own, so no other L1 cache is invalidated or downgraded.
pub process_access-SystemIsSound :
    (s : MultiProcessorSystem) (id address : ℕ) (is_write : Bool)
    → id < length s.processors
    → SystemIsSound s
    → (s' : MultiProcessorSystem) × (latency : ℕ) × (process_access s id address is_write
        ≡ some (s', latency))
      × SystemIsSound s'
      × ((j : ℕ) → id ≢ j → get_processor s' j ≡ get_processor s j)
unfolding process_access get_processor
process_access-SystemIsSound s id address is_write lt h =
    let (c, found) = get_elem?-some s.processors id lt in
    let sound = All-get_elem? s.processors id c h.cores found in
    let (core, directory) = access-IsSound c s.world address is_write sound h.consistent in
    let p = access c s.world address is_write in
    let s' = record (put_progress s id p) { system_cycles = add64 s.system_cycles p.latency } in
    (
      s',
      p.latency,
      rw (found, process_access) refl,
      record { cores = All-set s.processors id _ h.cores core; consistent = directory },
      λ j apart. get_elem?-set_ne s.processors _ apart,
    )
