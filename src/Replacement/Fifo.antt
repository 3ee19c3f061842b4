-- ===== src/Replacement/Fifo.antt =====
-- `FIFOPolicy` of src/core/replacement_policy.h: the installation stamp of each block. The counter
-- is a `uint64_t`.
pub mod Oldest
use cache_simulator.Prelude.{
  ℕ, ◌+◌, ◌-◌, ◌%◌, Bool, ◌&&◌, List, [], ◌∷◌, Option, none, some, ltb, get_or, set, replicate,
  if◌then◌else◌, map, u64_mod,
}

pub record FifoPolicy : Type 0 where
  pub fifo_order : List ℕ
  pub install_counter : ℕ

unfoldable pub reset : FifoPolicy → FifoPolicy
reset p = record { fifo_order = map (λ t. 0) p.fifo_order; install_counter = 0 }

unfoldable pub create : ℕ → FifoPolicy
unfolding reset
create n = reset (record { fifo_order = replicate n 0; install_counter = 0 })

unfoldable pub on_access : FifoPolicy → ℕ → FifoPolicy
on_access p i = p

unfoldable pub on_install : FifoPolicy → ℕ → FifoPolicy
on_install p i = record {
  fifo_order = set p.fifo_order i p.install_counter;
  install_counter = (p.install_counter + 1) % u64_mod;
}

-- The loop of `selectVictim` from index `i` on: `victim` is `none` for the source's -1.
unfoldable pub oldest_from : List Bool → List ℕ → ℕ → Option ℕ → ℕ → Option ℕ
oldest_from [] order i victim oldest_time = victim
oldest_from (valid ∷ rest) order i victim oldest_time =
    let stamp = get_or order i 0 in
    let older = valid && ltb stamp oldest_time in
    oldest_from rest order (i + 1) (if older then some i else victim)
      (if older then stamp else oldest_time)

unfoldable pub select_victim : FifoPolicy → List Bool → ℕ
unfolding oldest_from
select_victim p valid = elim (oldest_from valid p.fifo_order 0 none (u64_mod - 1)) [
  | some i ↦ i
  | none ↦ 0
]
