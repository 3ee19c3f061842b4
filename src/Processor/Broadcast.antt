-- ===== src/Processor/Broadcast.antt =====
-- `broadcastInvalidate` of src/core/multiprocessor/coherence_controller.cpp, which sends an invalidation to the cores
-- of a system, and what it leaves in their caches. No code calls it.
use cache_simulator.Prelude.{
  ℕ, zero, suc, ◌<◌, ◌⊎◌, sym, if◌then◌else◌, ◌≡◌, ◌≢◌, refl, subst, ◌∙◌, Bool, true, false, ◌==◌,
  List, [], ◌∷◌, none, some, get_elem?, set, length, contains, Bool-cases, Option-cases, inl, inr,
  arith, get_elem?-set_ne, get_elem?-set_self,
}
use cache_simulator.Coherence.Mesi
use cache_simulator.Coherence.Mesi.{MesiState, invalid}
use cache_simulator.Cache.State.{Cache}
use cache_simulator.Cache.Shape.{WellFormed}
use cache_simulator.Cache.Lookup.{get_block_state, IsAbsent}
use cache_simulator.Cache.Maintain
use cache_simulator.Cache.Invalidation.{invalidate_block-IsAbsent}
use cache_simulator.Directory.State.{invalidate_request}
use cache_simulator.Processor.Core.{ProcessorCore, Shared, Progress, handle_coherence_request}
use cache_simulator.Processor.System.{MultiProcessorSystem}

-- A number of no core is passed over.
unfoldable pub broadcast_invalidate : MultiProcessorSystem → ℕ → List ℕ → MultiProcessorSystem
unfolding handle_coherence_request
broadcast_invalidate s address [] = s
broadcast_invalidate s address (id ∷ ids) = elim (get_elem? s.processors id) [
  | none ↦ broadcast_invalidate s address ids
  | some c ↦
      let p = handle_coherence_request invalidate_request c s.world address in
      broadcast_invalidate (record s { processors = set s.processors id p.core; world = p.world })
        address ids
]

-- The core's cache is well formed, and holds no copy of the address that may be read.
abbrev pub IsInvalidated : ℕ → ProcessorCore → Type 0
IsInvalidated address c = WellFormed c.l1_cache × (get_block_state c.l1_cache address ≡ invalid)

is_valid-invalid : (m : MesiState) → Mesi.is_valid m ≡ false → m ≡ invalid
unfolding Mesi.is_valid
is_valid-invalid invalid e = refl
is_valid-invalid Mesi.shared e = absurd (cc)
is_valid-invalid Mesi.exclusive e = absurd (cc)
is_valid-invalid Mesi.modified e = absurd (cc)

absent-invalid :
    (c : Cache) (address : ℕ) → IsAbsent c address → get_block_state c address ≡ invalid
unfolding get_block_state
absent-invalid c address e = rw (get_block_state, e) refl

either_way :
    (address : ℕ) (b : Bool) (p q : Progress)
    → (b ≡ true → IsInvalidated address p.core)
    → (b ≡ false → IsInvalidated address q.core)
    → IsInvalidated address (if b then p else q).core
either_way address true p q if_valid if_not = if_valid refl
either_way address false p q if_valid if_not = if_not refl

handle-IsInvalidated :
    (c : ProcessorCore) (w : Shared) (address : ℕ)
    → WellFormed c.l1_cache
    → IsInvalidated address (handle_coherence_request invalidate_request c w address).core
unfolding handle_coherence_request get_block_state
handle-IsInvalidated c w address wf =
    let (kept, absent, _) = invalidate_block-IsAbsent c.l1_cache address wf in
    either_way address (Mesi.is_valid (get_block_state c.l1_cache address)) _ _
      (λ _. (kept, absent-invalid (Maintain.invalidate_block c.l1_cache address) address absent))
      (λ e. (wf, is_valid-invalid (get_block_state c.l1_cache address) e))

in_range :
    (cs : List ProcessorCore) (i : ℕ) (c : ProcessorCore) → get_elem? cs i ≡ some c → i < length cs
in_range [] i c e = absurd (cc)
in_range (x ∷ cs) zero c e = omega arith
in_range (x ∷ cs) (suc i) c e = omega (arith, in_range cs i c e)

abbrev pub Every : (ProcessorCore → Type 0) → MultiProcessorSystem → ℕ → Type 0
Every P s j = (c : ProcessorCore) → get_elem? s.processors j ≡ some c → P c

abbrev stepped : MultiProcessorSystem → ℕ → ℕ → ProcessorCore → MultiProcessorSystem
stepped s address id c =
    let p = handle_coherence_request invalidate_request c s.world address in
    record s { processors = set s.processors id p.core; world = p.world }

-- A step keeps what holds of a core, if it holds of the core that it invalidates.
stepped-Every :
    (P : ProcessorCore → Type 0) (s : MultiProcessorSystem) (address id j : ℕ) (c : ProcessorCore)
    → get_elem? s.processors id ≡ some c
    → P (handle_coherence_request invalidate_request c s.world address).core
    → (id ≢ j → Every P s j)
    → Every P (stepped s address id c) j
stepped-Every P s address id j c found new old d e = elim (Bool-cases (id == j)) [
  | inl same ↦
      let same' : id ≡ j = ground arith in
      let core = (handle_coherence_request invalidate_request c s.world address).core in
      let there = get_elem?-set_self s.processors id core (in_range s.processors id c found) in
      let e' : core ≡ d = cc in subst P e' new
  | inr apart ↦
      let apart' : id ≢ j = λ q. absurd (ground arith) in
      let core = (handle_coherence_request invalidate_request c s.world address).core in
      old apart' d (sym (get_elem?-set_ne s.processors core apart') ∙ e)
]

abbrev Outcome : MultiProcessorSystem → ℕ → List ℕ → ℕ → Type 0
Outcome s address ids j =
    Every (λ c. WellFormed c.l1_cache) (broadcast_invalidate s address ids) j
    × ((contains j ids ≡ true) ⊎ Every (IsInvalidated address) s j
        → Every (IsInvalidated address) (broadcast_invalidate s address ids) j)
    × (contains j ids ≡ false
        → get_elem? (broadcast_invalidate s address ids).processors j ≡ get_elem? s.processors j)

nobody :
    (P : ProcessorCore → Type 0) (s : MultiProcessorSystem) (j : ℕ)
    → get_elem? s.processors j ≡ none
    → Every P s j
nobody P s j e c found = absurd (cc)

first_or_later :
    (id j : ℕ) (ids : List ℕ) → contains j (id ∷ ids) ≡ true → (id ≡ j) ⊎ (contains j ids ≡ true)
first_or_later id j ids e = elim (Bool-cases (id == j)) [
  | inl same ↦ inl (ground arith)
  | inr apart ↦ inr (ground arith)
]

not_first :
    (id j : ℕ) (ids : List ℕ) → contains j (id ∷ ids) ≡ false → (id ≢ j) × (contains j ids ≡ false)
not_first id j ids e = (λ q. absurd (ground arith), ground arith)

broadcast_lem :
    (s : MultiProcessorSystem) (address : ℕ) (ids : List ℕ)
    → ((j : ℕ) → Every (λ c. WellFormed c.l1_cache) s j)
    → (j : ℕ) → Outcome s address ids j
unfolding broadcast_invalidate
broadcast_lem s address [] wf j = (wf j, λ h. elim h [ inl e ↦ absurd (cc) | inr i ↦ i ], λ _. refl)
broadcast_lem s address (id ∷ ids) wf j = elim (Option-cases (get_elem? s.processors id)) [
  | inl absent ↦
      let (kept, gone, same) = broadcast_lem s address ids wf j in
      rw (broadcast_invalidate, absent)
        (
          kept,
          λ h. gone (elim h [
            | inr i ↦ inr i
            | inl e ↦ elim (first_or_later id j ids e) [
              | inr later ↦ inl later
              | inl first ↦
                  inr (nobody _ s j (subst (λ k. get_elem? s.processors k ≡ none) first absent))
            ]
          ]),
          λ e. same (not_first id j ids e).1,
        )
  | inr (c, found) ↦
      let new = handle-IsInvalidated c s.world address (wf id c found) in
      let t = stepped s address id c in
      let (kept, gone, same) =
        broadcast_lem t address ids
          (λ k. stepped-Every (λ d. WellFormed d.l1_cache) s address id k c found new.0 (λ _. wf k))
          j in
      rw (broadcast_invalidate, found)
        (
          kept,
          λ h. gone (elim h [
            | inr i ↦
                inr (stepped-Every (IsInvalidated address) s address id j c found new (λ _. i))
            | inl e ↦ elim (first_or_later id j ids e) [
              | inr later ↦ inl later
              | inl first ↦ inr (
                  stepped-Every (IsInvalidated address) s address id j c found new
                    (λ apart. absurd (apart first)))
            ]
          ]),
          λ e.
              same (not_first id j ids e).1
              ∙ get_elem?-set_ne s.processors _ (not_first id j ids e).0,
        )
]

-- Where the caches of the cores are well formed, they still are after the broadcast, the cores that are named hold no copy
-- of the address that may be read, and all other cores are as they were.
pub broadcast_invalidate-IsInvalidated :
    (s : MultiProcessorSystem) (address : ℕ) (ids : List ℕ)
    → ((j : ℕ) → Every (λ c. WellFormed c.l1_cache) s j)
    → (j : ℕ)
    → Every (λ c. WellFormed c.l1_cache) (broadcast_invalidate s address ids) j
      × (contains j ids ≡ true
          → Every (IsInvalidated address) (broadcast_invalidate s address ids) j)
      × (contains j ids ≡ false
          → get_elem? (broadcast_invalidate s address ids).processors j ≡ get_elem? s.processors j)
unfolding broadcast_invalidate
broadcast_invalidate-IsInvalidated s address ids wf j =
    let (kept, gone, same) = broadcast_lem s address ids wf j in (kept, λ e. gone (inl e), same)
