-- ===== src/Prefetch/Adaptive.antt =====
-- src/core/adaptive_prefetcher.h and src/core/adaptive_prefetcher.cpp. A confidence, a `double`
-- that starts at 0.5 and moves with each outcome, is kept as the list of the outcomes, the last one
-- first; `better` is the test of `chooseBestStrategy` on two such numbers. The accuracy, a
-- quotient of two `int`, is compared with 0.8 and 0.5 by cross multiplication.
use cache_simulator.Prelude.{
  ℕ, ◌+◌, ◌-◌, ◌*◌, ◌/◌, ◌%◌, Bool, true, false, List, [], ◌∷◌, Option, none, some, ◌==◌, ltb,
  replicate, min, max, if◌then◌else◌, u32_mod,
}

pub data Strategy : Type 0 where
  sequential stride adaptive : Strategy

pub record AdaptivePrefetcher : Type 0 where
  pub prefetch_distance : ℕ
  pub max_prefetch_distance : ℕ
  pub useful_prefetches : ℕ
  pub useless_prefetches : ℕ
  pub total_cache_misses : ℕ
  pub current_strategy : Strategy
  pub address_history : List ℕ
  pub last_access_map : ℕ → Option ℕ
  pub stride_map : ℕ → Option ℕ
  pub sequential_confidence : List Bool
  pub stride_confidence : List Bool

unfoldable pub create : ℕ → Strategy → AdaptivePrefetcher
create max_distance initial = record {
  prefetch_distance = 1;
  max_prefetch_distance = max_distance;
  useful_prefetches = 0;
  useless_prefetches = 0;
  total_cache_misses = 0;
  current_strategy = initial;
  address_history = replicate 32 0;
  last_access_map = λ pc. none;
  stride_map = λ pc. none;
  sequential_confidence = [];
  stride_confidence = [];
}

unfoldable pub update_confidence : Strategy → Bool → AdaptivePrefetcher → AdaptivePrefetcher
update_confidence sequential useful p = record p {
  sequential_confidence = useful ∷ p.sequential_confidence;
}
update_confidence stride useful p = record p { stride_confidence = useful ∷ p.stride_confidence }
update_confidence adaptive useful p = p

unfoldable pub record_prefetch_outcome : Bool → AdaptivePrefetcher → AdaptivePrefetcher
unfolding update_confidence
record_prefetch_outcome true p =
    update_confidence p.current_strategy true
      (record p { useful_prefetches = p.useful_prefetches + 1 })
record_prefetch_outcome false p =
    update_confidence p.current_strategy false
      (record p { useless_prefetches = p.useless_prefetches + 1 })

-- The distance after an adaptation: doubled up to the maximum, halved down to 1, or kept.
unfoldable pub adapted_distance : AdaptivePrefetcher → ℕ
adapted_distance p =
    let total = p.useful_prefetches + p.useless_prefetches in
    if ltb (4 * total) (5 * p.useful_prefetches)
    then min (p.prefetch_distance * 2) p.max_prefetch_distance
    else if ltb (2 * p.useful_prefetches) total
    then max (p.prefetch_distance / 2) 1
    else p.prefetch_distance

abbrev pub pc_of : ℕ → ℕ
pc_of address = address / 65536 * 65536

abbrev pub put : (ℕ → Option ℕ) → ℕ → ℕ → ℕ → Option ℕ
put m key value k = if k == key then some value else m k

-- `push_front` and `pop_back`.
unfoldable pub rotate : ℕ → List ℕ → List ℕ
rotate a [] = []
rotate a (b ∷ bs) = a ∷ rotate b bs

unfoldable pub update_history : ℕ → AdaptivePrefetcher → AdaptivePrefetcher
update_history address p =
    let pc = pc_of address in
    record p {
      address_history = rotate address p.address_history;
      stride_map = elim (p.last_access_map pc) [
        | none ↦ p.stride_map
        | some last ↦ put p.stride_map pc ((address + u32_mod - last) % u32_mod)
      ];
      last_access_map = put p.last_access_map pc address;
      total_cache_misses = p.total_cache_misses + 1;
    }

unfoldable pub detect_stride : AdaptivePrefetcher → ℕ → ℕ
detect_stride p address = elim (p.stride_map (pc_of address)) [ some s ↦ s | none ↦ 0 ]

unfoldable pub reset_stats : AdaptivePrefetcher → AdaptivePrefetcher
reset_stats p = record p { useful_prefetches = 0; useless_prefetches = 0; total_cache_misses = 0 }

module _ (better : List Bool → List Bool → Bool) where
  unfoldable pub choose_best_strategy : AdaptivePrefetcher → Strategy
  choose_best_strategy p =
      if better p.sequential_confidence p.stride_confidence then sequential else stride

  unfoldable pub adapt_strategy : Strategy → AdaptivePrefetcher → Strategy
  unfolding choose_best_strategy
  adapt_strategy adaptive p = choose_best_strategy p
  adapt_strategy s p = s

  -- Nothing is adapted before the first outcome.
  unfoldable pub adapt_prefetch_distance : AdaptivePrefetcher → AdaptivePrefetcher
  unfolding adapted_distance adapt_strategy
  adapt_prefetch_distance p =
      if p.useful_prefetches + p.useless_prefetches == 0 then p else record p {
        prefetch_distance = adapted_distance p;
        current_strategy = adapt_strategy p.current_strategy p;
      }

  unfoldable pub prefetch_by : Strategy → AdaptivePrefetcher → ℕ → ℕ → ℕ
  unfolding detect_stride
  prefetch_by stride p current detected =
      let s = if detected == 0 then detect_stride p current else detected in
      if s == 0
      then (current + p.prefetch_distance) % u32_mod
      else (current + s * p.prefetch_distance) % u32_mod
  prefetch_by s p current detected = (current + p.prefetch_distance) % u32_mod

  unfoldable pub get_prefetch_address : AdaptivePrefetcher → ℕ → ℕ → ℕ
  unfolding adapt_strategy prefetch_by
  get_prefetch_address p current detected =
      prefetch_by (adapt_strategy p.current_strategy p) p current detected
