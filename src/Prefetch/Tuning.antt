-- ===== src/Prefetch/Tuning.antt =====
-- The prefetch distance of the adaptive prefetcher.
use cache_simulator.Prelude.{
  ℕ, suc, ◌+◌, ◌≡◌, ◌≤◌, refl, ap, ◌∙◌, arith, inl, inr, Bool, true, false, List, [], ◌∷◌, ◌==◌,
  length, Bool-cases,
}
use cache_simulator.Prefetch.Adaptive.{
  AdaptivePrefetcher, Strategy, sequential, stride, adaptive, update_confidence,
  record_prefetch_outcome, adapted_distance, rotate, update_history, adapt_prefetch_distance,
  create,
}

-- A distance between 1 and the maximum, and a history of 32 addresses.
pub record IsTuned (p : AdaptivePrefetcher) : Type 0 where
  pub at_least : 1 ≤ p.prefetch_distance
  pub at_most : p.prefetch_distance ≤ p.max_prefetch_distance
  pub history : length p.address_history ≡ 32

length-rotate : (a : ℕ) (xs : List ℕ) → length (rotate a xs) ≡ length xs
unfolding rotate
length-rotate a [] = refl
length-rotate a (x ∷ xs) = ap suc (length-rotate x xs)

adapted_distance-bounds :
    (p : AdaptivePrefetcher)
    → IsTuned p
    → (1 ≤ adapted_distance p) × (adapted_distance p ≤ p.max_prefetch_distance)
unfolding adapted_distance
adapted_distance-bounds p t =
    let at_least = t.at_least in let at_most = t.at_most in (ground arith, ground arith)

update_confidence-IsTuned :
    (s : Strategy) (useful : Bool) (p : AdaptivePrefetcher)
    → IsTuned p
    → IsTuned (update_confidence s useful p)
unfolding update_confidence
update_confidence-IsTuned sequential useful p t = record {
  at_least = t.at_least;
  at_most = t.at_most;
  history = t.history;
}
update_confidence-IsTuned stride useful p t = record {
  at_least = t.at_least;
  at_most = t.at_most;
  history = t.history;
}
update_confidence-IsTuned adaptive useful p t = t

record_prefetch_outcome-IsTuned :
    (useful : Bool) (p : AdaptivePrefetcher)
    → IsTuned p
    → IsTuned (record_prefetch_outcome useful p)
unfolding record_prefetch_outcome
record_prefetch_outcome-IsTuned true p t =
    update_confidence-IsTuned p.current_strategy true
      (record p { useful_prefetches = p.useful_prefetches + 1 })
      (record { at_least = t.at_least; at_most = t.at_most; history = t.history })
record_prefetch_outcome-IsTuned false p t =
    update_confidence-IsTuned p.current_strategy false
      (record p { useless_prefetches = p.useless_prefetches + 1 })
      (record { at_least = t.at_least; at_most = t.at_most; history = t.history })

-- A new prefetcher with room for a distance is tuned, that is its distance lies between 1 and the maximum and
-- its history has 32 addresses; every outcome, every address and every adaptation keeps it so,
-- whatever the comparison of the confidences.
pub adapt_prefetch_distance-IsTuned :
    (better : List Bool → List Bool → Bool) (n : ℕ) (s : Strategy)
    → 1 ≤ n
    → IsTuned (create n s)
      × ((p : AdaptivePrefetcher)
          → IsTuned p
          → IsTuned (adapt_prefetch_distance better p)
            × ((a : ℕ) → IsTuned (update_history a p))
            × ((useful : Bool) → IsTuned (record_prefetch_outcome useful p)))
unfolding create adapt_prefetch_distance update_history
adapt_prefetch_distance-IsTuned better n s some_room = (
  record { at_least = omega arith; at_most = some_room; history = refl },
  λ p t. (
    elim (Bool-cases (p.useful_prefetches + p.useless_prefetches == 0)) [
      | inl y ↦ rw y t
      | inr x ↦
          let (low, high) = adapted_distance-bounds p t in
          rw x (record { at_least = low; at_most = high; history = t.history })
    ],
    λ a. record {
      at_least = t.at_least;
      at_most = t.at_most;
      history = length-rotate a p.address_history ∙ t.history;
    },
    λ useful. record_prefetch_outcome-IsTuned useful p t,
  ),
)
