-- ===== src/Coherence/Msi.antt =====
-- src/core/msi_protocol.h and src/core/msi_protocol.cpp. The MSI protocol. The callers hand states over as
-- numbers; an `int` that is no state is `unknown`, which the switches leave alone and the table of
-- transitions does not count.
use cache_simulator.Prelude.{ℕ, Bool, not, ◌&&◌, replicate, ◌==◌, ltb, if◌then◌else◌}
use cache_simulator.Coherence.Table.{Table, bump}

pub data MsiState : Type 0 where
  modified shared invalid : MsiState
  unknown : ℕ → MsiState

-- The values of the enumeration.
unfoldable pub to_int : MsiState → ℕ
to_int modified = 0
to_int shared = 1
to_int invalid = 2
to_int (unknown i) = i

unfoldable pub of_int : ℕ → MsiState
of_int i =
    if i == 0 then modified else if i == 1 then shared else if i == 2 then invalid else unknown i

pub record MsiProtocol : Type 0 where
  pub transition_count : Table

unfoldable pub create : MsiProtocol
create = record { transition_count = replicate 3 (replicate 3 0) }

-- A transition from a state into itself is counted too.
unfoldable pub record_state_transition : MsiProtocol → MsiState → MsiState → MsiProtocol
unfolding to_int
record_state_transition p from to =
    let i = to_int from in
    let j = to_int to in
    if ltb i 3 && ltb j 3 then record { transition_count = bump p.transition_count i j } else p

unfoldable pub next_on_local_read : MsiState → Bool → MsiState
next_on_local_read invalid copy = shared
next_on_local_read s copy = s

unfoldable pub next_on_local_write : MsiState → MsiState
next_on_local_write (unknown i) = unknown i
next_on_local_write s = modified

unfoldable pub next_on_remote_read : MsiState → MsiState
next_on_remote_read modified = shared
next_on_remote_read s = s

unfoldable pub next_on_remote_write : MsiState → MsiState
next_on_remote_write (unknown i) = unknown i
next_on_remote_write s = invalid

-- Each handler decodes the state, counts the transition and encodes the state that follows.
unfoldable pub handle_local_read : MsiProtocol → ℕ → Bool → MsiProtocol × ℕ
unfolding of_int to_int next_on_local_read record_state_transition
handle_local_read p current shared_copy =
    let s = of_int current in
    let next = next_on_local_read s shared_copy in (record_state_transition p s next, to_int next)

unfoldable pub handle_local_write : MsiProtocol → ℕ → MsiProtocol × ℕ
unfolding of_int to_int next_on_local_write record_state_transition
handle_local_write p current =
    let s = of_int current in
    let next = next_on_local_write s in (record_state_transition p s next, to_int next)

unfoldable pub handle_remote_read : MsiProtocol → ℕ → MsiProtocol × ℕ
unfolding of_int to_int next_on_remote_read record_state_transition
handle_remote_read p current =
    let s = of_int current in
    let next = next_on_remote_read s in (record_state_transition p s next, to_int next)

unfoldable pub handle_remote_write : MsiProtocol → ℕ → MsiProtocol × ℕ
unfolding of_int to_int next_on_remote_write record_state_transition
handle_remote_write p current =
    let s = of_int current in
    let next = next_on_remote_write s in (record_state_transition p s next, to_int next)

unfoldable pub requires_writeback : ℕ → Bool
requires_writeback state = state == 0

unfoldable pub is_valid : ℕ → Bool
is_valid state = not (state == 2)

unfoldable pub invalid_state : ℕ
unfolding to_int
invalid_state = to_int invalid

unfoldable pub reset_stats : MsiProtocol → MsiProtocol
reset_stats p = record { transition_count = replicate 3 (replicate 3 0) }
