-- ===== src/Directory/Requests.antt =====
-- The operations of `CoherenceController` of src/core/multiprocessor/coherence_controller.cpp.
use cache_simulator.Prelude.{
  ℕ, ◌+◌, ◌*◌, ◌%◌, ◌^◌, Bool, true, false, not, ◌&&◌, List, [], ◌∷◌, ◌++◌, none, some, ◌==◌, ltb,
  contains, without, length, if◌then◌else◌, u32_mod, add64,
}
use cache_simulator.Coherence.Mesi
use cache_simulator.Coherence.Mesi.{MesiState, modified, exclusive, shared, invalid}
use cache_simulator.Directory.State.{
  DirectoryEntry, no_owner, CoherenceRequestType, read_request, write_request, invalidate_request,
  writeback_request, share_request, flush_request, CoherenceRequest, CoherenceResponse,
  CoherenceController, get_or_create_entry, put_entry,
}

abbrev pub insert : ℕ → List ℕ → List ℕ
insert p sharers = if contains p sharers then sharers else p ∷ sharers

-- `entry.owner_ >= 0` on the bit pattern.
abbrev pub is_owned : DirectoryEntry → Bool
is_owned e = ltb e.owner (2 ^ 31)

unfoldable pub invalidate_sharers : DirectoryEntry → ℕ → List ℕ
invalidate_sharers e excluded =
    let others = without excluded e.sharers in
    if is_owned e && not (e.owner == excluded) then others ++ (e.owner ∷ []) else others

abbrev pub no_response : ℕ → CoherenceResponse
no_response latency = record {
  granted = false;
  new_state = none;
  has_data = false;
  latency = latency;
  invalidated_processors = [];
}

abbrev pub grant : ℕ → MesiState → CoherenceResponse
grant latency s = record (no_response latency) { granted = true; new_state = some s }

-- A read of a line that another processor owns makes both of them sharers.
unfoldable pub read_owned : DirectoryEntry → ℕ → ℕ → DirectoryEntry × CoherenceResponse
read_owned e p latency = if e.owner == p then (e, grant latency e.state) else (
  record e { state = shared; sharers = insert p (insert e.owner e.sharers); owner = no_owner },
  grant ((latency + latency) % u32_mod) shared,
)

unfoldable pub read_entry : MesiState → DirectoryEntry → ℕ → ℕ → DirectoryEntry × CoherenceResponse
unfolding read_owned
read_entry invalid e p latency =
    (record e { state = exclusive; owner = p }, grant latency exclusive)
read_entry exclusive e p latency = read_owned e p latency
read_entry modified e p latency = read_owned e p latency
read_entry shared e p latency = (record e { sharers = insert p e.sharers }, grant latency shared)

-- A write to a line that another processor owns invalidates the owner.
unfoldable pub write_owned : DirectoryEntry → ℕ → ℕ → DirectoryEntry × CoherenceResponse
write_owned e p latency =
    if e.owner == p
    then (record e { state = modified; dirty = true }, grant latency modified)
    else (
      record e { state = modified; owner = p; dirty = true },
      record (grant ((latency + latency) % u32_mod) modified) {
        invalidated_processors = e.owner ∷ [];
      },
    )

unfoldable pub write_entry : MesiState → DirectoryEntry → ℕ → ℕ → DirectoryEntry × CoherenceResponse
unfolding write_owned invalidate_sharers
write_entry invalid e p latency =
    (record e { state = modified; owner = p; dirty = true }, grant latency modified)
write_entry exclusive e p latency = write_owned e p latency
write_entry modified e p latency = write_owned e p latency
write_entry shared e p latency =
    let invalidated = invalidate_sharers e p in
    (
      record e { state = modified; owner = p; sharers = []; dirty = true },
      record (grant ((latency + latency * length invalidated) % u32_mod) modified) {
        invalidated_processors = invalidated;
      },
    )

-- The switch on the type of a request. The types without a case change no entry.
unfoldable pub serve :
    CoherenceRequestType → DirectoryEntry → ℕ → ℕ → DirectoryEntry × CoherenceResponse
unfolding read_entry write_entry invalidate_sharers
serve read_request e p latency = read_entry e.state e p latency
serve write_request e p latency = write_entry e.state e p latency
serve invalidate_request e p latency = (
  record e { state = invalid; owner = no_owner; sharers = [] },
  record (no_response latency) { granted = true; invalidated_processors = invalidate_sharers e p },
)
serve writeback_request e p latency =
    if e.owner == p
    then (record e { dirty = false }, record (no_response latency) { granted = true })
    else (e, no_response latency)
serve share_request e p latency = (e, no_response latency)
serve flush_request e p latency = (e, no_response latency)

-- A read and a write count themselves and a write its invalidations; an invalidation counts one.
unfoldable pub count_request :
    CoherenceRequestType → CoherenceController → CoherenceResponse → CoherenceController
count_request read_request c r = record c { read_requests = add64 c.read_requests 1 }
count_request write_request c r = record c {
  write_requests = add64 c.write_requests 1;
  invalidations = add64 c.invalidations (length r.invalidated_processors);
}
count_request invalidate_request c r = record c { invalidations = add64 c.invalidations 1 }
count_request writeback_request c r = record c { writebacks = add64 c.writebacks 1 }
count_request share_request c r = c
count_request flush_request c r = c

unfoldable pub process_request :
    CoherenceController → CoherenceRequest → CoherenceController × CoherenceResponse
unfolding get_or_create_entry put_entry serve count_request
process_request c request =
    let e = get_or_create_entry c request.address in
    let (e', response) = serve request.type e request.requestor_id c.interconnect_latency in
    let c' = count_request request.type (put_entry c request.address e') response in
    (record c' { coherence_messages = add64 c'.coherence_messages 1 }, response)

unfoldable pub update_cache_state :
    CoherenceController → ℕ → ℕ → MesiState → MesiState → CoherenceController
unfolding get_or_create_entry put_entry Mesi.is_valid
update_cache_state c p address old_state new_state =
    let e = get_or_create_entry c address in
    let dropped = record e {
      sharers = without p e.sharers;
      owner = if e.owner == p then no_owner else e.owner;
    } in
    record (put_entry c address (if Mesi.is_valid new_state then e else dropped)) {
      state_transitions = add64 c.state_transitions 1;
    }

unfoldable pub handle_writeback : CoherenceController → ℕ → ℕ → CoherenceController
unfolding get_or_create_entry put_entry
handle_writeback c p address =
    let e = get_or_create_entry c address in
    let cleaned = if e.owner == p then record e { dirty = false } else e in
    record (put_entry c address cleaned) { writebacks = add64 c.writebacks 1 }

unfoldable pub may_read : MesiState → DirectoryEntry → ℕ → Bool
may_read shared e p = contains p e.sharers
may_read exclusive e p = e.owner == p
may_read modified e p = e.owner == p
may_read invalid e p = false

unfoldable pub check_permission : CoherenceController → ℕ → ℕ → Bool → Bool
unfolding may_read Mesi.is_modified
check_permission c p address is_write = elim (c.directory address) [
  | none ↦ true
  | some e ↦ if is_write then Mesi.is_modified e.state && e.owner == p else may_read e.state e p
]

-- The state that the directory grants a processor for a line.
unfoldable pub line_state : MesiState → DirectoryEntry → ℕ → MesiState
line_state shared e p = if contains p e.sharers then shared else invalid
line_state exclusive e p = if e.owner == p then exclusive else invalid
line_state modified e p = if e.owner == p then modified else invalid
line_state invalid e p = invalid

unfoldable pub get_cache_line_state : CoherenceController → ℕ → ℕ → MesiState
unfolding line_state
get_cache_line_state c p address = elim (c.directory address) [
  | none ↦ invalid
  | some e ↦ line_state e.state e p
]

unfoldable pub reset_stats : CoherenceController → CoherenceController
reset_stats c = record c {
  read_requests = 0;
  write_requests = 0;
  invalidations = 0;
  writebacks = 0;
  state_transitions = 0;
  coherence_messages = 0;
}
