-- ===== src/Parallel/Counting.antt =====
-- The workers and the queue of the pool of src/utils/parallel_executor.h, counted.
use cache_simulator.Prelude.{
  ℕ, zero, suc, ◌≤◌, ◌≡◌, refl, ap, List, [], ◌∷◌, ◌++◌, some, get_elem?, set, replicate, length,
  length-append, arith,
}
use cache_simulator.Parallel.Pool.{Task, config_task, chunk_task, Worker, idle, in_config, in_chunk}

-- The configurations in front of the queue, and the workers that have no task.
unfoldable pub configs_first : List Task → ℕ
configs_first [] = 0
configs_first (config_task c ∷ ts) = suc (configs_first ts)
configs_first (chunk_task c ∷ ts) = 0

unfoldable pub idle_count : List Worker → ℕ
idle_count [] = 0
idle_count (idle ∷ ws) = suc (idle_count ws)
idle_count (in_config c k ∷ ws) = idle_count ws
idle_count (in_chunk c ∷ ws) = idle_count ws

abbrev pub NoChunk : List Worker → Type 0
NoChunk [] = Unit
NoChunk (in_chunk c ∷ ws) = ⊥
NoChunk (w ∷ ws) = NoChunk ws

pub configs_first-append : (ts us : List Task) → configs_first ts ≤ configs_first (ts ++ us)
unfolding configs_first
configs_first-append [] us = omega arith
configs_first-append (config_task c ∷ ts) us = omega (arith, configs_first-append ts us)
configs_first-append (chunk_task c ∷ ts) us = omega arith

pub idle_count-set :
    (ws : List Worker) (i c k : ℕ)
    → get_elem? ws i ≡ some idle
    → idle_count ws ≡ suc (idle_count (set ws i (in_config c k)))
unfolding idle_count
idle_count-set [] i c k e = absurd (cc)
idle_count-set (idle ∷ ws) zero c k e = refl
idle_count-set (in_config d j ∷ ws) zero c k e = absurd (cc)
idle_count-set (in_chunk d ∷ ws) zero c k e = absurd (cc)
idle_count-set (idle ∷ ws) (suc i) c k e = ap suc (idle_count-set ws i c k e)
idle_count-set (in_config d j ∷ ws) (suc i) c k e = idle_count-set ws i c k e
idle_count-set (in_chunk d ∷ ws) (suc i) c k e = idle_count-set ws i c k e

pub idle_count-set_config :
    (ws : List Worker) (i c k d j : ℕ)
    → get_elem? ws i ≡ some (in_config d j)
    → idle_count (set ws i (in_config c k)) ≡ idle_count ws
unfolding idle_count
idle_count-set_config [] i c k d j e = refl
idle_count-set_config (idle ∷ ws) zero c k d j e = absurd (cc)
idle_count-set_config (in_config _ _ ∷ ws) zero c k d j e = refl
idle_count-set_config (in_chunk _ ∷ ws) zero c k d j e = absurd (cc)
idle_count-set_config (idle ∷ ws) (suc i) c k d j e = ap suc (idle_count-set_config ws i c k d j e)
idle_count-set_config (in_config _ _ ∷ ws) (suc i) c k d j e = idle_count-set_config ws i c k d j e
idle_count-set_config (in_chunk _ ∷ ws) (suc i) c k d j e = idle_count-set_config ws i c k d j e

pub set-NoChunk : (ws : List Worker) (i c k : ℕ) → NoChunk ws → NoChunk (set ws i (in_config c k))
set-NoChunk [] i c k h = tt
set-NoChunk (idle ∷ ws) zero c k h = h
set-NoChunk (in_config _ _ ∷ ws) zero c k h = h
set-NoChunk (in_chunk _ ∷ ws) zero c k h = elim h [ ]
set-NoChunk (idle ∷ ws) (suc i) c k h = set-NoChunk ws i c k h
set-NoChunk (in_config _ _ ∷ ws) (suc i) c k h = set-NoChunk ws i c k h
set-NoChunk (in_chunk _ ∷ ws) (suc i) c k h = elim h [ ]

pub NoChunk-at : (ws : List Worker) (i c : ℕ) → NoChunk ws → get_elem? ws i ≡ some (in_chunk c) → ⊥
NoChunk-at [] i c h e = absurd (cc)
NoChunk-at (idle ∷ ws) zero c h e = absurd (cc)
NoChunk-at (in_config _ _ ∷ ws) zero c h e = absurd (cc)
NoChunk-at (in_chunk _ ∷ ws) i c h e = h
NoChunk-at (idle ∷ ws) (suc i) c h e = NoChunk-at ws i c h e
NoChunk-at (in_config _ _ ∷ ws) (suc i) c h e = NoChunk-at ws i c h e

pub only_configs :
    (ts : List Task) (c : ℕ)
    → configs_first ts ≡ length ts
    → configs_first (ts ++ (config_task c ∷ [])) ≡ suc (length ts)
unfolding configs_first
only_configs [] c e = refl
only_configs (config_task d ∷ ts) c e = ap suc (only_configs ts c (omega (arith, e)))
only_configs (chunk_task d ∷ ts) c e = absurd (omega (arith, e))

pub length-append_one : (ts : List Task) (t : Task) → length (ts ++ (t ∷ [])) ≡ suc (length ts)
length-append_one ts t = omega (arith, length-append ts (t ∷ []))

pub replicate-NoChunk : (n : ℕ) → NoChunk (replicate n idle)
replicate-NoChunk zero = tt
replicate-NoChunk (suc n) = replicate-NoChunk n

pub idle_count-replicate : (n : ℕ) → idle_count (replicate n idle) ≡ n
unfolding idle_count
idle_count-replicate zero = refl
idle_count-replicate (suc n) = ap suc (idle_count-replicate n)
