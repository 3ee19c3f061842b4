-- ===== src/Replacement/Lru.antt =====
-- `LRUPolicy` of src/core/replacement_policy.h: block indices from most to least recently used.
pub mod Recency
use cache_simulator.Prelude.{
  ℕ, Bool, false, ◌&&◌, List, [], ◌∷◌, Option, none, some, ltb, reverse, length, get_or,
  if◌then◌else◌, contains, erase, iota, first_valid,
}

pub record LruPolicy : Type 0 where
  pub num_blocks : ℕ
  pub lru_order : List ℕ

unfoldable pub reset : LruPolicy → LruPolicy
reset p = record p { lru_order = iota 0 p.num_blocks }

unfoldable pub create : ℕ → LruPolicy
unfolding reset
create n = reset (record { num_blocks = n; lru_order = [] })

-- `std::find`, `erase`, and `insert` at the front.
unfoldable pub move_to_front : ℕ → List ℕ → List ℕ
move_to_front i order = if contains i order then i ∷ erase i order else order

unfoldable pub on_access : LruPolicy → ℕ → LruPolicy
unfolding move_to_front
on_access p i = record p { lru_order = move_to_front i p.lru_order }

unfoldable pub on_install : LruPolicy → ℕ → LruPolicy
unfolding on_access
on_install p i = on_access p i

-- The loop from the back of the order: the first block index that is in range and valid.
unfoldable pub first_valid_of : List Bool → List ℕ → Option ℕ
first_valid_of valid [] = none
first_valid_of valid (i ∷ is) =
    if ltb i (length valid) && get_or valid i false then some i else first_valid_of valid is

unfoldable pub select_victim : LruPolicy → List Bool → ℕ
unfolding first_valid_of
select_victim p valid = elim (first_valid_of valid (reverse p.lru_order)) [
  | some i ↦ i
  | none ↦ first_valid valid
]
