-- ===== src/Processor/Core.antt =====
-- `ProcessorCore` of src/core/multiprocessor/processor_core.h and .cpp. The coherence controller and the global
-- access counter, which all cores share, go in and out of each method; the time stamps of requests, read by
-- no code, are left out. No code puts a request into `requestQueue_` or an entry into
-- `pendingReleases_`, so a barrier never waits in `drainPendingRequests`, and both are left out.
-- The counters are 64 bits wide.
use cache_simulator.Prelude.{ℕ, Bool, true, false, if◌then◌else◌, add32, add64}
use cache_simulator.Coherence.Mesi
use cache_simulator.Coherence.Mesi.{MesiState, modified, exclusive, shared, invalid}
use cache_simulator.Cache.State.{Cache}
use cache_simulator.Cache.Lookup.{get_block_state}
use cache_simulator.Cache.Maintain
use cache_simulator.Hierarchy.Access.{access_last}
use cache_simulator.Directory.State.{
  CoherenceController, CoherenceRequest, CoherenceRequestType, read_request, write_request,
  invalidate_request, writeback_request, share_request, flush_request,
}
use cache_simulator.Directory.Requests.{process_request, update_cache_state, check_permission}

pub data ProcessorState : Type 0 where
  running stalled idle synchronizing : ProcessorState

pub record ProcessorCore : Type 0 where
  pub processor_id : ℕ
  pub state : ProcessorState
  pub l1_cache : Cache
  pub total_accesses : ℕ
  pub l1_hits : ℕ
  pub l1_misses : ℕ
  pub coherence_misses : ℕ
  pub atomic_operations : ℕ
  pub barriers : ℕ
  pub stalled_cycles : ℕ
  pub total_latency : ℕ

unfoldable pub create : ℕ → Cache → ProcessorCore
create id l1_cache = record {
  processor_id = id;
  state = idle;
  l1_cache = l1_cache;
  total_accesses = 0;
  l1_hits = 0;
  l1_misses = 0;
  coherence_misses = 0;
  atomic_operations = 0;
  barriers = 0;
  stalled_cycles = 0;
  total_latency = 0;
}

-- What the cores share.
pub record Shared : Type 0 where
  pub controller : CoherenceController
  pub clock : ℕ

-- A core in the middle of a method, with the latency so far.
pub record Progress : Type 0 where
  pub core : ProcessorCore
  pub world : Shared
  pub latency : ℕ

unfoldable pub check_coherence_permission : ProcessorCore → Shared → ℕ → Bool → Bool
check_coherence_permission c w address is_write =
    check_permission w.controller c.processor_id address is_write

abbrev pub tell : Shared → ProcessorCore → ℕ → MesiState → MesiState → Shared
tell w c address old_state new_state = record w {
  controller = update_cache_state w.controller c.processor_id address old_state new_state;
}

unfoldable pub handle_l1_miss : Progress → ℕ → Bool → Progress
handle_l1_miss p address is_write = record p {
  world = tell p.world p.core address invalid (if is_write then modified else shared);
  latency = add32 p.latency 10;
}

abbrev pub request_of : ProcessorCore → ℕ → Bool → CoherenceRequest
request_of c address is_write = record {
  requestor_id = c.processor_id;
  address = address;
  type = if is_write then write_request else read_request;
}

-- Where the directory does not permit the access, it is asked; the latency of its answer counts.
unfoldable pub acquire : Progress → ℕ → Bool → Progress
unfolding check_coherence_permission handle_l1_miss
acquire p address is_write =
    let (controller, response) =
      process_request p.world.controller (request_of p.core address is_write) in
    let asked = record p {
      world = record p.world { controller = controller };
      latency = add32 p.latency response.latency;
    } in
    let counted = record asked {
      core = record p.core { coherence_misses = add64 p.core.coherence_misses 1 };
    } in
    let served = if response.granted then asked else handle_l1_miss counted address is_write in
    if check_coherence_permission p.core p.world address is_write
    then p
    else record served { core = record served.core { state = running } }

-- The access of the L1 cache, and what it counts.
unfoldable pub access_l1 : Progress → ℕ → Bool → Progress
unfolding handle_l1_miss
access_l1 p address is_write =
    let (was_hit, cache, clock) = access_last p.core.l1_cache address is_write p.world.clock in
    let c = record p.core { l1_cache = cache } in
    let w = record p.world { clock = clock } in
    if was_hit
    then record {
      core = record c { l1_hits = add64 c.l1_hits 1 };
      world = w;
      latency = add32 p.latency 1;
    }
    else handle_l1_miss
        (record {
          core = record c { l1_misses = add64 c.l1_misses 1 };
          world = w;
          latency = p.latency;
        })
        address is_write

unfoldable pub access : ProcessorCore → Shared → ℕ → Bool → Progress
unfolding acquire access_l1
access c w address is_write =
    let start : Progress = record {
      core = record c { total_accesses = add64 c.total_accesses 1 };
      world = w;
      latency = 1;
    } in
    let p = access_l1 (acquire start address is_write) address is_write in
    record p { core = record p.core { total_latency = add64 p.core.total_latency p.latency } }

unfoldable pub update_coherence_state :
    ProcessorCore → Shared → ℕ → MesiState → ProcessorCore × Shared
unfolding get_block_state
update_coherence_state c w address new_state =
    let old_state = get_block_state c.l1_cache address in
    (
      record c { l1_cache = Maintain.update_mesi_state c.l1_cache address new_state },
      tell w c address old_state new_state,
    )

-- Exclusive ownership is asked for first, whether the access writes or not.
unfoldable pub atomic_access : ProcessorCore → Shared → ℕ → Bool → Progress
unfolding access update_coherence_state
atomic_access c w address is_write =
    let counted = record c {
      atomic_operations = add64 c.atomic_operations 1;
      state = synchronizing;
    } in
    let (controller, response) = process_request w.controller (request_of counted address true) in
    let p = access counted (record w { controller = controller }) address is_write in
    let (core, world) = update_coherence_state p.core p.world address modified in
    let held = record p { core = core; world = world } in
    let final = if is_write then held else p in
    record final {
      core = record final.core { state = running };
      latency = add32 response.latency p.latency;
    }

-- `currentState == Modified || currentState == Exclusive`
abbrev pub is_alone : MesiState → Bool
is_alone modified = true
is_alone exclusive = true
is_alone shared = false
is_alone invalid = false

-- The answer to a request of another core. The types without a case cost one cycle.
unfoldable pub handle_coherence_request :
    CoherenceRequestType → ProcessorCore → Shared → ℕ → Progress
unfolding get_block_state Mesi.is_valid Mesi.is_modified
handle_coherence_request invalidate_request c w address =
    let current = get_block_state c.l1_cache address in
    if Mesi.is_valid current
    then record {
      core = record c { l1_cache = Maintain.invalidate_block c.l1_cache address };
      world = tell w c address current invalid;
      latency = 3;
    }
    else record { core = c; world = w; latency = 1 }
handle_coherence_request share_request c w address =
    let current = get_block_state c.l1_cache address in
    if is_alone current
    then record {
      core = record c { l1_cache = Maintain.update_mesi_state c.l1_cache address shared };
      world = tell w c address current shared;
      latency = if Mesi.is_modified current then 11 else 1;
    }
    else record { core = c; world = w; latency = 1 }
handle_coherence_request flush_request c w address =
    let current = get_block_state c.l1_cache address in
    record {
      core = record c { l1_cache = Maintain.invalidate_block c.l1_cache address };
      world = tell w c address current invalid;
      latency = if Mesi.is_modified current then 11 else 1;
    }
handle_coherence_request read_request c w address = record { core = c; world = w; latency = 1 }
handle_coherence_request write_request c w address = record { core = c; world = w; latency = 1 }
handle_coherence_request writeback_request c w address = record { core = c; world = w; latency = 1 }

-- The two flags of a barrier have no effect on the state.
unfoldable pub memory_barrier : ProcessorCore → Bool → Bool → ProcessorCore
memory_barrier c is_acquire is_release = record c { barriers = add64 c.barriers 1 }

unfoldable pub reset_stats : ProcessorCore → ProcessorCore
reset_stats c = record c {
  l1_cache = Maintain.reset_stats c.l1_cache;
  total_accesses = 0;
  l1_hits = 0;
  l1_misses = 0;
  coherence_misses = 0;
  atomic_operations = 0;
  barriers = 0;
  stalled_cycles = 0;
  total_latency = 0;
}
