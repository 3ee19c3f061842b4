-- ===== src/Coherence/Moesi.antt =====
-- src/core/moesi_protocol.h and src/core/moesi_protocol.cpp. The MOESI protocol. The callers hand states over as
-- numbers; an `int` that is no state is `unknown`, which the switches leave alone and the table of
-- transitions does not count.
use cache_simulator.Prelude.{
  ℕ, Bool, true, false, not, ◌&&◌, ◌||◌, replicate, ◌==◌, ltb, if◌then◌else◌,
}
use cache_simulator.Coherence.Table.{Table, bump}

pub data MoesiState : Type 0 where
  modified owned exclusive shared invalid : MoesiState
  unknown : ℕ → MoesiState

-- The values of the enumeration.
unfoldable pub to_int : MoesiState → ℕ
to_int modified = 0
to_int owned = 1
to_int exclusive = 2
to_int shared = 3
to_int invalid = 4
to_int (unknown i) = i

unfoldable pub of_int : ℕ → MoesiState
of_int i =
    if i == 0
    then modified
    else if i == 1
    then owned
    else if i == 2
    then exclusive
    else if i == 3
    then shared
    else if i == 4
    then invalid
    else unknown i

pub record MoesiProtocol : Type 0 where
  pub transition_count : Table

unfoldable pub create : MoesiProtocol
create = record { transition_count = replicate 5 (replicate 5 0) }

-- A transition from a state into itself is counted too.
unfoldable pub record_state_transition : MoesiProtocol → MoesiState → MoesiState → MoesiProtocol
unfolding to_int
record_state_transition p from to =
    let i = to_int from in
    let j = to_int to in
    if ltb i 5 && ltb j 5 then record { transition_count = bump p.transition_count i j } else p

unfoldable pub next_on_local_read : MoesiState → Bool → MoesiState
next_on_local_read invalid true = shared
next_on_local_read invalid false = exclusive
next_on_local_read s copy = s

unfoldable pub next_on_local_write : MoesiState → MoesiState
next_on_local_write (unknown i) = unknown i
next_on_local_write s = modified

unfoldable pub next_on_remote_read : MoesiState → MoesiState
next_on_remote_read modified = owned
next_on_remote_read exclusive = shared
next_on_remote_read s = s

unfoldable pub next_on_remote_write : MoesiState → MoesiState
next_on_remote_write (unknown i) = unknown i
next_on_remote_write s = invalid

-- Each handler decodes the state, counts the transition and encodes the state that follows.
unfoldable pub handle_local_read : MoesiProtocol → ℕ → Bool → MoesiProtocol × ℕ
unfolding of_int to_int next_on_local_read record_state_transition
handle_local_read p current shared_copy =
    let s = of_int current in
    let next = next_on_local_read s shared_copy in (record_state_transition p s next, to_int next)

unfoldable pub handle_local_write : MoesiProtocol → ℕ → MoesiProtocol × ℕ
unfolding of_int to_int next_on_local_write record_state_transition
handle_local_write p current =
    let s = of_int current in
    let next = next_on_local_write s in (record_state_transition p s next, to_int next)

unfoldable pub handle_remote_read : MoesiProtocol → ℕ → MoesiProtocol × ℕ
unfolding of_int to_int next_on_remote_read record_state_transition
handle_remote_read p current =
    let s = of_int current in
    let next = next_on_remote_read s in (record_state_transition p s next, to_int next)

unfoldable pub handle_remote_write : MoesiProtocol → ℕ → MoesiProtocol × ℕ
unfolding of_int to_int next_on_remote_write record_state_transition
handle_remote_write p current =
    let s = of_int current in
    let next = next_on_remote_write s in (record_state_transition p s next, to_int next)

unfoldable pub requires_writeback : ℕ → Bool
requires_writeback state = state == 0 || state == 1

unfoldable pub is_valid : ℕ → Bool
is_valid state = not (state == 4)

unfoldable pub invalid_state : ℕ
unfolding to_int
invalid_state = to_int invalid

unfoldable pub is_owned : ℕ → Bool
is_owned state = state == 1

unfoldable pub can_supply_data : ℕ → Bool
can_supply_data state = state == 0 || state == 1 || state == 2

unfoldable pub reset_stats : MoesiProtocol → MoesiProtocol
reset_stats p = record { transition_count = replicate 5 (replicate 5 0) }
