-- ===== src/Replacement/Policy.antt =====
-- `ReplacementPolicy`, the virtual methods of `ReplacementPolicyBase` and `ReplacementPolicyFactory`
-- of src/core/replacement_policy.h: one constructor for each class.
use cache_simulator.Prelude.{ℕ, Bool, List, Option, some}
use mathlib.Core.Option.{map}
use cache_simulator.Replacement.Lru
use cache_simulator.Replacement.Fifo
use cache_simulator.Replacement.Random
use cache_simulator.Replacement.Plru
use cache_simulator.Replacement.Nru

-- The values of the enumeration.
pub data ReplacementPolicy : Type 0 where
  lru fifo random plru nru : ReplacementPolicy

pub data Policy : Type 0 where
  lru_policy : Lru.LruPolicy → Policy
  fifo_policy : Fifo.FifoPolicy → Policy
  random_policy : Random.RandomPolicy → Policy
  plru_policy : Plru.PlruPolicy → Policy
  nru_policy : Nru.NruPolicy → Policy

-- `none` is a failed assertion. `draws` is the generator that a `RandomPolicy` seeds from `random_device`.
unfoldable pub create : (ℕ → ℕ) → ReplacementPolicy → ℕ → Option Policy
unfolding Lru.create Fifo.create Random.create Plru.create Nru.create
create draws ReplacementPolicy.lru n = some (lru_policy (Lru.create n))
create draws ReplacementPolicy.fifo n = some (fifo_policy (Fifo.create n))
create draws ReplacementPolicy.random n = some (random_policy (Random.create draws))
create draws ReplacementPolicy.plru n = map plru_policy (Plru.create n)
create draws ReplacementPolicy.nru n = some (nru_policy (Nru.create n))

unfoldable pub on_access : Policy → ℕ → Policy
unfolding Lru.on_access Fifo.on_access Random.on_access Plru.on_access Nru.on_access
on_access (lru_policy p) i = lru_policy (Lru.on_access p i)
on_access (fifo_policy p) i = fifo_policy (Fifo.on_access p i)
on_access (random_policy p) i = random_policy (Random.on_access p i)
on_access (plru_policy p) i = plru_policy (Plru.on_access p i)
on_access (nru_policy p) i = nru_policy (Nru.on_access p i)

unfoldable pub on_install : Policy → ℕ → Policy
unfolding Lru.on_install Fifo.on_install Random.on_install Plru.on_install Nru.on_install
on_install (lru_policy p) i = lru_policy (Lru.on_install p i)
on_install (fifo_policy p) i = fifo_policy (Fifo.on_install p i)
on_install (random_policy p) i = random_policy (Random.on_install p i)
on_install (plru_policy p) i = plru_policy (Plru.on_install p i)
on_install (nru_policy p) i = nru_policy (Nru.on_install p i)

unfoldable pub reset : Policy → Policy
unfolding Lru.reset Fifo.reset Random.reset Plru.reset Nru.reset
reset (lru_policy p) = lru_policy (Lru.reset p)
reset (fifo_policy p) = fifo_policy (Fifo.reset p)
reset (random_policy p) = random_policy (Random.reset p)
reset (plru_policy p) = plru_policy (Plru.reset p)
reset (nru_policy p) = nru_policy (Nru.reset p)

-- The choice of a victim changes the state of two of the policies.
unfoldable pub select_victim : Policy → List Bool → Policy × ℕ
unfolding Lru.select_victim Fifo.select_victim Random.select_victim Plru.select_victim
    Nru.select_victim
select_victim (lru_policy p) valid = (lru_policy p, Lru.select_victim p valid)
select_victim (fifo_policy p) valid = (fifo_policy p, Fifo.select_victim p valid)
select_victim (random_policy p) valid =
    let (p', i) = Random.select_victim p valid in (random_policy p', i)
select_victim (plru_policy p) valid = (plru_policy p, Plru.select_victim p valid)
select_victim (nru_policy p) valid = let (p', i) = Nru.select_victim p valid in (nru_policy p', i)
