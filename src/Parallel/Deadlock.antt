-- ===== src/Parallel/Deadlock.antt =====
-- `processMultipleConfigs` of src/utils/parallel_executor.h waits in the workers of its own pool.
use cache_simulator.Prelude.{
  ℕ, suc, ◌+◌, ◌≤◌, ◌≡◌, refl, sym, ap, ◌∙◌, subst, List, [], ◌∷◌, some, get_elem?, set, length,
  arith,
}
use cache_simulator.Parallel.Pool.{
  Task, config_task, chunk_task, idle, ThreadPool, enqueue, start, begin_task, Step, launch,
  take_task, enqueue_chunk, end_chunk, end_config, Steps, done, then_step,
}
use cache_simulator.Parallel.Counting.{
  configs_first, idle_count, NoChunk, configs_first-append, idle_count-set, idle_count-set_config,
  set-NoChunk, NoChunk-at, only_configs, length-append_one, replicate-NoChunk, idle_count-replicate,
}

-- Every worker without a task finds a configuration in front of the queue, and every configuration
-- waits for a chunk that no worker is in.
record Doomed (s : ThreadPool) : Type 0 where
  no_chunk : NoChunk s.workers
  enough : idle_count s.workers ≤ configs_first s.tasks
  waits : (c : ℕ) → 1 ≤ s.pending c

module _ (chunks : ℕ → ℕ) where
  take_task-Doomed :
      (s : ThreadPool) (i : ℕ) (t : Task) (rest : List Task)
      → get_elem? s.workers i ≡ some idle
      → s.tasks ≡ t ∷ rest
      → Doomed s
      → Doomed (record s { workers = set s.workers i (begin_task chunks t); tasks = rest })
  unfolding begin_task configs_first
  take_task-Doomed s i (config_task c) rest at front h = record {
    no_chunk = set-NoChunk s.workers i c (chunks c) h.no_chunk;
    enough =
        omega (arith, h.enough, ap configs_first front, idle_count-set s.workers i c (chunks c) at);
    waits = h.waits;
  }
  take_task-Doomed s i (chunk_task c) rest at front h =
      absurd (omega (arith, h.enough, ap configs_first front, idle_count-set s.workers i c 0 at))

  Step-Doomed :
      {s t : ThreadPool} → Step chunks s t → Doomed s → Doomed t × (t.finished ≡ s.finished)
  Step-Doomed (launch s c rest e) h = (
    record {
      no_chunk = h.no_chunk;
      enough = omega (arith, h.enough, configs_first-append s.tasks (config_task c ∷ []));
      waits = h.waits;
    },
    refl,
  )
  Step-Doomed (take_task s i t rest at front) h = (take_task-Doomed s i t rest at front h, refl)
  Step-Doomed (enqueue_chunk s i c k at) h = (
    record {
      no_chunk = set-NoChunk s.workers i c k h.no_chunk;
      enough = omega (
        arith,
        h.enough,
        configs_first-append s.tasks (chunk_task c ∷ []),
        idle_count-set_config s.workers i c k c (suc k) at,
      );
      waits = h.waits;
    },
    refl,
  )
  Step-Doomed (end_chunk s i c at) h = absurd (NoChunk-at s.workers i c h.no_chunk at)
  Step-Doomed (end_config s i c at none_left) h = absurd (omega (arith, h.waits c, none_left))

  Steps-Doomed :
      {s t : ThreadPool} → Steps chunks s t → Doomed s → Doomed t × (t.finished ≡ s.finished)
  Steps-Doomed (done s) h = (h, refl)
  Steps-Doomed (then_step s t u run step) h =
      let (h1, e1) = Steps-Doomed run h in let (h2, e2) = Step-Doomed step h1 in (h2, e2 ∙ e1)

  -- The caller enqueues the configurations one after the other, and no worker makes a step.
  launched : ThreadPool → List ℕ → ThreadPool
  launched s [] = s
  launched s (c ∷ rest) = launched (enqueue (config_task c) (record s { to_launch = rest })) rest

  launched-Steps :
      (r s : ThreadPool) (configs : List ℕ)
      → s.to_launch ≡ configs
      → Steps chunks r s
      → Steps chunks r (launched s configs)
  unfolding launched
  launched-Steps r s [] e run = run
  launched-Steps r s (c ∷ rest) e run =
      launched-Steps r _ rest refl (then_step r s _ run (launch s c rest e))

  launched_same :
      (s : ThreadPool) (configs : List ℕ)
      → ((launched s configs).workers ≡ s.workers)
        × ((launched s configs).pending ≡ s.pending)
        × ((launched s configs).finished ≡ s.finished)
  unfolding launched
  launched_same s [] = (refl, refl, refl)
  launched_same s (c ∷ rest) = launched_same _ rest

  configs_first-launched :
      (s : ThreadPool) (configs : List ℕ)
      → configs_first s.tasks ≡ length s.tasks
      → configs_first (launched s configs).tasks ≡ length s.tasks + length configs
  unfolding launched
  configs_first-launched s [] e = omega (arith, e)
  configs_first-launched s (c ∷ rest) e = omega (
    arith,
    configs_first-launched (enqueue (config_task c) (record s { to_launch = rest })) rest
        (only_configs s.tasks c e ∙ sym (length-append_one s.tasks (config_task c))),
    length-append_one s.tasks (config_task c),
  )

  -- All is enqueued and no worker has begun.
  abbrev all_launched : ℕ → List ℕ → ThreadPool
  all_launched n configs = launched (start chunks n configs) configs

  all_launched-Doomed :
      (n : ℕ) (configs : List ℕ)
      → n ≤ length configs
      → ((c : ℕ) → 1 ≤ chunks c)
      → Doomed (all_launched n configs) × ((all_launched n configs).finished ≡ [])
  unfolding start configs_first
  all_launched-Doomed n configs many some_chunk =
      let (e1, e2, e3) = launched_same (start chunks n configs) configs in
      let e4 = configs_first-launched (start chunks n configs) configs refl in
      (
        record {
          no_chunk = subst NoChunk (sym e1) (replicate-NoChunk n);
          enough = omega (arith, ap idle_count e1, idle_count-replicate n, e4, many);
          waits = λ c. omega (arith, some_chunk c, ap (λ p. p c) e2);
        },
        e3,
      )

-- A pool of workers that is given as many configurations as it has workers, or more, each with a
-- chunk to run, can come to a state from which no step leads on to a result: whatever the threads do
-- from there, no future of a configuration is ever ready, and no worker is ever in a chunk.
pub process_multiple_configs-stuck :
    (chunks : ℕ → ℕ) (n : ℕ) (configs : List ℕ)
    → n ≤ length configs
    → ((c : ℕ) → 1 ≤ chunks c)
    → (s : ThreadPool) × Steps chunks (start chunks n configs) s
      × ((t : ThreadPool) → Steps chunks s t → (t.finished ≡ []) × NoChunk t.workers)
unfolding start
process_multiple_configs-stuck chunks n configs many some_chunk =
    let (doomed, none_ready) = all_launched-Doomed chunks n configs many some_chunk in
    (
      all_launched chunks n configs,
      launched-Steps chunks _ _ configs refl (done _),
      λ t run. let (h, e) = Steps-Doomed chunks run doomed in (e ∙ none_ready, h.no_chunk),
    )
