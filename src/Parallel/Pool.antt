-- ===== src/Parallel/Pool.antt =====
-- `ThreadPool` and `processMultipleConfigs` of src/utils/parallel_executor.h, as a relation of steps. A step is what
-- one thread does under the lock of the queue, or without it where no other thread can tell.
use cache_simulator.Prelude.{
  ℕ, suc, ◌-◌, ◌≡◌, List, [], ◌∷◌, ◌++◌, some, get_elem?, set, replicate, ◌==◌, if◌then◌else◌,
}

-- A task simulates a configuration, whose chunks it enqueues and waits for, or one chunk.
pub data Task : Type 0 where
  config_task : ℕ → Task
  chunk_task : ℕ → Task

-- A worker without a task, in the task of a configuration with chunks still to enqueue, or in a chunk. With no
-- chunk left to enqueue the task of a configuration waits for its futures.
pub data Worker : Type 0 where
  idle : Worker
  in_config : ℕ → ℕ → Worker
  in_chunk : ℕ → Worker

-- `pending` counts the chunks of a configuration whose futures are not ready. `to_launch` is what the caller has
-- still to enqueue, and `finished` the configurations whose futures are ready.
pub record ThreadPool : Type 0 where
  pub workers : List Worker
  pub tasks : List Task
  pub to_launch : List ℕ
  pub pending : ℕ → ℕ
  pub finished : List ℕ

abbrev pub enqueue : Task → ThreadPool → ThreadPool
enqueue t s = record s { tasks = s.tasks ++ (t ∷ []) }

abbrev pub one_less : ℕ → (ℕ → ℕ) → ℕ → ℕ
one_less c pending d = if d == c then pending d - 1 else pending d

-- `chunks c` is the number of chunks of the trace of configuration `c`.
module _ (chunks : ℕ → ℕ) where
  -- The pool of `n` workers, before the caller enqueues the first configuration.
  unfoldable pub start : ℕ → List ℕ → ThreadPool
  start n configs = record {
    workers = replicate n idle;
    tasks = [];
    to_launch = configs;
    pending = chunks;
    finished = [];
  }

  unfoldable pub begin_task : Task → Worker
  begin_task (config_task c) = in_config c (chunks c)
  begin_task (chunk_task c) = in_chunk c

  -- `i` is the worker that makes the step.
  pub data Step : ThreadPool → ThreadPool → Type 0 where
    launch :
        (s : ThreadPool) (c : ℕ) (rest : List ℕ)
        → s.to_launch ≡ c ∷ rest
        → Step s (enqueue (config_task c) (record s { to_launch = rest }))
    take_task :
        (s : ThreadPool) (i : ℕ) (t : Task) (rest : List Task)
        → get_elem? s.workers i ≡ some idle
        → s.tasks ≡ t ∷ rest
        → Step s (record s { workers = set s.workers i (begin_task t); tasks = rest })
    enqueue_chunk :
        (s : ThreadPool) (i c k : ℕ)
        → get_elem? s.workers i ≡ some (in_config c (suc k))
        → Step s (enqueue (chunk_task c) (record s { workers = set s.workers i (in_config c k) }))
    end_chunk :
        (s : ThreadPool) (i c : ℕ)
        → get_elem? s.workers i ≡ some (in_chunk c)
        → Step s (record s { workers = set s.workers i idle; pending = one_less c s.pending })
    end_config :
        (s : ThreadPool) (i c : ℕ)
        → get_elem? s.workers i ≡ some (in_config c 0)
        → s.pending c ≡ 0
        → Step s (record s { workers = set s.workers i idle; finished = c ∷ s.finished })

  pub data Steps : ThreadPool → ThreadPool → Type 0 where
    done : (s : ThreadPool) → Steps s s
    then_step : (s t u : ThreadPool) → Steps s t → Step t u → Steps s u
