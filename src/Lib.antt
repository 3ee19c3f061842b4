-- ===== src/Lib.antt =====
-- A verification library for the cache simulator: its caches, their replacement policies and
-- prefetchers, the memory hierarchy, the coherence protocols and the directory, the victim cache,
-- and the write policies, as functions on explicit states.
--
-- The parts of the program, and the modules that model them:
--
-- - core/replacement_policy.h: Replacement. One module for each class (Lru, Fifo, Random, Nru, Plru)
--   with the constructor (create), onAccess (on_access), onInstall (on_install), selectVictim
--   (select_victim) and reset; Policy is the enumeration, the base class and the factory.
-- - core/cache.h, core/cache.cpp, core/cache_block.h: Cache. Config is CacheConfig with validate, State the
--   members and the constructor, Lookup the reads (getTagAndSet, findBlock, findVictim and the block
--   queries), Access the method access with writeBack, writeThrough, installBlock and
--   handlePrefetch, and Maintain the coherence operations, warmup and resetStats. A cache takes
--   its policies from Replacement, its stream buffer and the predictor from Prefetch, and the counting
--   of transitions from Coherence.Mesi. The next level is a state with the operation `forward`; the
--   global access counter travels with it in a World.
-- - core/memory_hierarchy.h and .cpp: Hierarchy. State is the configuration and the members, Access is
--   access, with L2 as the next level of L1, processTrace, the adaptation and the reset.
-- - core/stream_buffer, core/stride_predictor and core/adaptive_prefetcher (.h and .cpp): Prefetch.
-- - core/mesi_protocol, core/msi_protocol, core/moesi_protocol and core/coherence_protocol (.h and .cpp):
--   Coherence. Protocol is the common interface with the adapter and the factory; Safety puts
--   caches that run one protocol on a bus, as a relation of reachable states.
-- - core/multiprocessor/coherence_controller.h and .cpp: Directory. State is the directory, Requests
--   its operations.
-- - core/victim_cache.h: VictimCache.
-- - core/write_policy.h and .cpp: WritePolicy, with the policies in Policies and the write-combining
--   buffer in Combining.
-- - core/multiprocessor/interconnect.h and .cpp: Interconnect, one module for each class and Factory for
--   the interface and the factory. Mailboxes is the contract of the interface, as a record of operations
--   and laws.
-- - core/multiprocessor/processor_core.h and .cpp: Processor. Core is ProcessorCore, which takes its L1 cache
--   from Cache and the directory from Directory, System is MultiProcessorSystem, Barrier its global
--   barrier as a relation of steps, and Broadcast the broadcastInvalidate of the directory.
-- - core/memory_pool.h: MemoryPool.
-- - utils/trace_parser.h and .cpp, utils/trace_utils.cpp: Trace. Text is what they use of the standard
--   library, Parser the grammar of a line, Reader the class TraceParser, Writer the traces that are
--   written, and Patterns the detection of patterns in TraceAnalyzer.
-- - utils/config_utils.h and .cpp: Configuration. State is SimulatorConfig and the default, Validation,
--   Comparison and Sweep are validateConfig, compareConfigs and generateParameterSweep, Quick is
--   parseConfigString and CommandLine createFromCommandLine; what they return goes to Cache and Hierarchy.
-- - utils/cli_parser.h and .cpp: Arguments, with the options written as arguments in Printing.
-- - utils/parallel_executor.h: Parallel. Pool is ThreadPool with the tasks of processMultipleConfigs, as a
--   relation of steps, and Chunks the partition of a trace and its results.
--
-- Prelude has the shared names, lists with a total read (get_or) and write (set), searches, and
-- the arithmetic of the unsigned types. Tests has runs and the theorems at concrete inputs.
--
-- Numbers: addresses and tags are `uint32_t` and wrap by % 2 ^ 32, the access counter, the FIFO stamps
-- and the sizes of the victim cache are 64 bits and wrap by % 2 ^ 64, and so do the counters of the
-- interconnects, the processors, the directory, the memory pool and the parallel runs. The `int`
-- counters of statistics are numbers without a bound. A configuration's numbers are signed, and the
-- product of associativity and block size wraps around as an `int`. A division by zero and an
-- assertion that fails end the program, which is the result `abort` of a constructor: assertions are
-- taken as compiled in, while a build with NDEBUG goes on past that of the PLRU policy. A stride and the
-- owner of a directory entry, signed in the source, are kept as bit patterns. What a read out of
-- range would do is left open by the source; the model reads a default there.
--
-- Fuel: the climb of the PLRU tree takes as many rounds as the number of the leaf, since each round
-- moves to a smaller node, and the count of its levels as many as there are blocks, since each round
-- halves. A dimension of a mesh route takes the distance as its rounds, an integer root as many as its
-- square, a hexadecimal number eight digits, a decimal one ten, and the reading of a trace one round more than its lines,
-- since each round but the last takes a line. Every other loop goes along a list.
--
-- Parameters: the next level of a cache, the random numbers of the random policy, the comparison of two
-- floating-point confidences in the adaptive prefetcher, the write of the level below in the write
-- policies, the lines of a trace file, the simulator of a parallel run with the number of chunks of
-- each configuration, the numbers of type `double` with their text, and the random choices of the
-- generated traces.
--
-- Not modelled: printing, the JSON and INI files of configurations, main, statistics and the rest of
-- utils, the floating-point models of power and area (models), ratios and averages; the race of the
-- threads of simulateParallelTraces and the waits for a bus or a port; the bytes of a block, which no
-- code reads; the sorting of the victim cache; the locks of the directory, held by each operation
-- from start to end.
pub mod Prelude
pub mod Replacement
pub mod Coherence
pub mod Prefetch
pub mod Cache
pub mod Configuration
pub mod Hierarchy
pub mod Directory
pub mod VictimCache
pub mod WritePolicy
pub mod Interconnect
pub mod Processor
pub mod MemoryPool
pub mod Parallel
pub mod Arguments
pub mod Trace
pub mod Tests
