-- ===== src/Coherence/Table.antt =====
-- The tables that the coherence protocols count their transitions in.
use cache_simulator.Prelude.{ℕ, ◌+◌, List, [], get_or, set}

abbrev pub Table : Type 0
Table = List (List ℕ)

-- `transitionCount_[i][j]++`
abbrev pub bump : Table → ℕ → ℕ → Table
bump t i j = let row = get_or t i [] in set t i (set row j (get_or row j 0 + 1))
