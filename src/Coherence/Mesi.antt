-- ===== src/Coherence/Mesi.antt =====
-- src/core/mesi_protocol.h and src/core/mesi_protocol.cpp: the transitions of the MESI protocol, and
-- the 4 by 4 table that counts them.
use cache_simulator.Prelude.{
  ℕ, ◌+◌, Bool, true, false, List, [], ◌==◌, get_or, set, replicate, if◌then◌else◌,
}

pub data MesiState : Type 0 where
  modified exclusive shared invalid : MesiState

pub record MesiProtocol : Type 0 where
  pub transition_count : List (List ℕ)

unfoldable pub create : MesiProtocol
create = record { transition_count = replicate 4 (replicate 4 0) }

unfoldable pub state_to_index : MesiState → ℕ
state_to_index modified = 0
state_to_index exclusive = 1
state_to_index shared = 2
state_to_index invalid = 3

unfoldable pub get_transition_count : MesiProtocol → MesiState → MesiState → ℕ
unfolding state_to_index
get_transition_count p from to =
    get_or (get_or p.transition_count (state_to_index from) []) (state_to_index to) 0

-- `transitionCount[i][j]++`
unfoldable pub count_transition : MesiProtocol → ℕ → ℕ → MesiProtocol
count_transition p i j =
    let row = get_or p.transition_count i [] in
    record { transition_count = set p.transition_count i (set row j (get_or row j 0 + 1)) }

-- A transition into the same state is not counted.
unfoldable pub record_state_transition : MesiProtocol → MesiState → MesiState → MesiProtocol
unfolding state_to_index count_transition
record_state_transition p from to =
    let i = state_to_index from in
    let j = state_to_index to in if i == j then p else count_transition p i j

unfoldable pub handle_local_read : MesiProtocol → MesiState → Bool → MesiProtocol × MesiState
unfolding record_state_transition
handle_local_read p invalid true = (record_state_transition p invalid shared, shared)
handle_local_read p invalid false = (record_state_transition p invalid exclusive, exclusive)
handle_local_read p s others = (record_state_transition p s s, s)

unfoldable pub handle_local_write : MesiProtocol → MesiState → MesiProtocol × MesiState
unfolding record_state_transition
handle_local_write p s = (record_state_transition p s modified, modified)

unfoldable pub next_on_remote_read : MesiState → MesiState
next_on_remote_read modified = shared
next_on_remote_read exclusive = shared
next_on_remote_read s = s

unfoldable pub handle_remote_read : MesiProtocol → MesiState → MesiProtocol × MesiState
unfolding record_state_transition next_on_remote_read
handle_remote_read p s =
    let next = next_on_remote_read s in (record_state_transition p s next, next)

unfoldable pub handle_remote_write : MesiProtocol → MesiState → MesiProtocol × MesiState
unfolding record_state_transition
handle_remote_write p s = (record_state_transition p s invalid, invalid)

unfoldable pub handle_eviction : MesiProtocol → MesiState → MesiProtocol × MesiState
unfolding record_state_transition
handle_eviction p s = (record_state_transition p s invalid, invalid)

unfoldable pub requires_writeback : MesiState → Bool
requires_writeback modified = true
requires_writeback _ = false

unfoldable pub is_valid : MesiState → Bool
is_valid invalid = false
is_valid _ = true

unfoldable pub is_modified : MesiState → Bool
is_modified modified = true
is_modified _ = false

unfoldable pub reset_stats : MesiProtocol → MesiProtocol
reset_stats p = record { transition_count = replicate 4 (replicate 4 0) }
