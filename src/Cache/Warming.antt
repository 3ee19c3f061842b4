-- ===== src/Cache/Warming.antt =====
-- What a warm-up leaves behind.
use cache_simulator.Prelude.{ℕ, ◌≡◌, refl, Bool, false, List, [], ◌∷◌, ◌++◌, none}
use cache_simulator.Cache.State.{Cache}
use cache_simulator.Cache.Lookup.{IsPresent}
use cache_simulator.Cache.Access.{World, access}
use cache_simulator.Cache.Maintain.{warm, warmup}
use cache_simulator.Cache.Shape.{WellFormed}
use cache_simulator.Cache.Invariant.{access-WellFormed}
use cache_simulator.Cache.Counters.{counters}
use cache_simulator.Cache.Levels.{access_off}
use cache_simulator.Cache.Retention.{access-IsPresent}

abbrev alone : World (Unit {0}) → ℕ → Bool → World (Unit {0})
alone w a is_write = w

warm-WellFormed :
    (c : Cache) (addresses : List ℕ) (w : World (Unit {0}))
    → WellFormed c
    → WellFormed (warm c addresses w).0
unfolding warm
warm-WellFormed c [] w wf = wf
warm-WellFormed c (a ∷ rest) w wf =
    let (was_hit, c', w') = access alone c a false none w in
    warm-WellFormed c' rest w' (access-WellFormed alone c a false none w wf)

warm-IsPresent :
    (c : Cache) (addresses : List ℕ) (a : ℕ) (w : World (Unit {0}))
    → WellFormed c
    → c.prefetch_enabled ≡ false
    → (way : ℕ) × IsPresent (warm c (addresses ++ (a ∷ [])) w).0 a way
unfolding warm
warm-IsPresent c [] a w wf off = access-IsPresent alone c a false none w wf off
warm-IsPresent c (b ∷ rest) a w wf off =
    let (was_hit, c', w') = access alone c b false none w in
    warm-IsPresent c' rest a w' (access-WellFormed alone c b false none w wf)
      (access_off alone c b false none w wf off)

-- Without prefetching a warm-up keeps the cache well formed and all its counters as they were, and the
-- block of its last address is in the cache afterwards.
pub warmup-IsPresent :
    (c : Cache) (addresses : List ℕ) (a : ℕ) (w : World (Unit {0}))
    → WellFormed c
    → c.prefetch_enabled ≡ false
    → let c' = (warmup c (addresses ++ (a ∷ [])) w).0 in
      WellFormed c'
      × (counters c' ≡ counters c)
      × (c'.write_backs ≡ c.write_backs)
      × (c'.write_throughs ≡ c.write_throughs)
      × ((way : ℕ) × IsPresent c' a way)
unfolding warmup
warmup-IsPresent c addresses a w wf off = (
  warm-WellFormed c (addresses ++ (a ∷ [])) w wf,
  refl,
  refl,
  refl,
  warm-IsPresent c addresses a w wf off,
)
