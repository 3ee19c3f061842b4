-- ===== src/Tests/Policies.antt =====
-- The replacement policies on small sets.
use cache_simulator.Prelude.{
  ℕ, zero, suc, ◌^◌, ◌≡◌, ◌<◌, ◌≤◌, refl, arith, true, false, List, [], ◌∷◌, ◌++◌, replicate,
  reverse, All, contains, age, iota, IsValidAt,
}
use cache_simulator.Replacement.Lru
use cache_simulator.Replacement.Lru.Recency.{run, select_victim-least_recent}
use cache_simulator.Replacement.Fifo
use cache_simulator.Replacement.Fifo.Oldest.{install_all, select_victim-first_in}
use cache_simulator.Replacement.Plru
use cache_simulator.Replacement.Plru.{PlruPolicy}
use cache_simulator.Replacement.Plru.Walk.{select_victim-on_access}
use cache_simulator.Replacement.Nru.{NruPolicy}
use cache_simulator.Replacement.Policy
use cache_simulator.Replacement.Policy.{Policy, nru_policy}
use cache_simulator.Replacement.Choice.{select_victim-IsValidAt}

abbrev uses : List ℕ
uses = 0 ∷ 1 ∷ 2 ∷ 0 ∷ []

uses_in_range : All (λ x. x < 3) uses
uses_in_range = (omega arith, (omega arith, (omega arith, (omega arith, tt))))

select_victim-least_recent_example :
    let l = reverse uses ++ iota 0 3 in
    let v = Lru.select_victim (run uses (Lru.create 3)) (replicate 3 true) in
    (v < 3) × ((j : ℕ) → j < 3 → age j l ≤ age v l)
select_victim-least_recent_example = select_victim-least_recent 3 uses uses_in_range (omega arith)

all_installed : (j : ℕ) → j < 3 → contains j (reverse uses) ≡ true
all_installed zero h = refl
all_installed (suc zero) h = refl
all_installed (suc (suc zero)) h = refl
all_installed (suc (suc (suc j))) h = absurd (omega arith)

select_victim-first_in_example :
    let v = Fifo.select_victim (install_all uses (Fifo.create 3)) (replicate 3 true) in
    (v < 3) × ((j : ℕ) → j < 3 → age j (reverse uses) ≤ age v (reverse uses))
select_victim-first_in_example =
    select_victim-first_in 3 uses (omega arith) uses_in_range (omega arith) all_installed

abbrev four_ways : PlruPolicy
four_ways = record { num_blocks = 2 ^ 2; tree_bits = false ∷ true ∷ false ∷ [] }

select_victim-on_access_example :
    Plru.select_victim (Plru.on_access four_ways 2) (replicate (2 ^ 2) true) ≡ 2
select_victim-on_access_example = select_victim-on_access 2 2 four_ways.tree_bits (omega arith) refl

abbrev some_idle : NruPolicy
some_idle = record {
  reference_bits = true ∷ false ∷ true ∷ [];
  access_counter = 2;
  clear_interval = 12;
}

select_victim-IsValidAt_example :
    IsValidAt
      (false ∷ true ∷ false ∷ [])
      (Policy.select_victim (nru_policy some_idle) (false ∷ true ∷ false ∷ [])).1
select_victim-IsValidAt_example =
    select_victim-IsValidAt (nru_policy some_idle) (false ∷ true ∷ false ∷ []) 1 tt refl
