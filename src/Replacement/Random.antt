-- ===== src/Replacement/Random.antt =====
-- `RandomPolicy` of src/core/replacement_policy.h. The generator is a stream of raw numbers, of
-- which `uniform_int_distribution` takes the next one into its range.
use cache_simulator.Prelude.{ℕ, ◌+◌, ◌%◌, Bool, List, [], ◌∷◌, get_or, length, if◌then◌else◌}

pub record RandomPolicy : Type 0 where
  pub draws : ℕ → ℕ
  pub drawn : ℕ

unfoldable pub create : (ℕ → ℕ) → RandomPolicy
create draws = record { draws = draws; drawn = 0 }

unfoldable pub on_access : RandomPolicy → ℕ → RandomPolicy
on_access p i = p

unfoldable pub on_install : RandomPolicy → ℕ → RandomPolicy
on_install p i = p

unfoldable pub reset : RandomPolicy → RandomPolicy
reset p = p

-- The indices of the valid blocks, counted from `i`.
unfoldable pub valid_indices : ℕ → List Bool → List ℕ
valid_indices i [] = []
valid_indices i (b ∷ bs) = let rest = valid_indices (i + 1) bs in if b then i ∷ rest else rest

-- `dist(rng_)` over 0 .. size - 1.
unfoldable pub draw : RandomPolicy → ℕ → RandomPolicy × ℕ
draw p size = (record p { drawn = p.drawn + 1 }, p.draws p.drawn % size)

unfoldable pub pick : RandomPolicy → List ℕ → RandomPolicy × ℕ
unfolding draw
pick p [] = (p, 0)
pick p (i ∷ is) = let (p', k) = draw p (length (i ∷ is)) in (p', get_or (i ∷ is) k 0)

unfoldable pub select_victim : RandomPolicy → List Bool → RandomPolicy × ℕ
unfolding valid_indices pick
select_victim p valid = pick p (valid_indices 0 valid)
