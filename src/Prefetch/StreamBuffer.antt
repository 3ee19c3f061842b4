-- ===== src/Prefetch/StreamBuffer.antt =====
-- src/core/stream_buffer.h and src/core/stream_buffer.cpp. An index of -1 is `none`; addresses are
-- `uint32_t`.
use cache_simulator.Prelude.{
  ℕ, suc, ◌+◌, ◌%◌, Bool, true, false, List, [], ◌∷◌, Option, none, some, ◌==◌, replicate,
  find_index, drop, u32_mod,
}

pub record StreamBuffer : Type 0 where
  pub valid : Bool
  pub buffer : List ℕ
  pub last_accessed_index : Option ℕ
  pub hits : ℕ
  pub accesses : ℕ

unfoldable pub create : ℕ → StreamBuffer
create size = record {
  valid = false;
  buffer = replicate size 0;
  last_accessed_index = none;
  hits = 0;
  accesses = 0;
}

unfoldable pub access : StreamBuffer → ℕ → StreamBuffer × Bool
access s address = elim (find_index (λ a. a == address) 0 s.buffer) [
  | some i ↦ (
    record s { last_accessed_index = some i; hits = s.hits + 1; accesses = s.accesses + 1 },
    true,
  )
  | none ↦ (record s { accesses = s.accesses + 1 }, false)
]

-- `buffer[i] = address + i` for each slot from `i` on.
unfoldable pub sequential : ℕ → ℕ → List ℕ → List ℕ
sequential address i [] = []
sequential address i (b ∷ bs) = (address + i) % u32_mod ∷ sequential address (i + 1) bs

-- The write to `buffer[0]` is undefined for an empty buffer; here it changes nothing.
unfoldable pub prefetch : StreamBuffer → ℕ → StreamBuffer
unfolding sequential
prefetch s address = record s {
  valid = true;
  last_accessed_index = some 0;
  buffer = sequential address 0 s.buffer;
}

-- The erased slots are not refilled: the `resize` that follows is to the size that is left.
unfoldable pub shift : StreamBuffer → StreamBuffer
shift s = elim s.last_accessed_index [
  | some i ↦ record s { buffer = drop (suc i) s.buffer; last_accessed_index = none }
  | none ↦ s
]

unfoldable pub reset_stats : StreamBuffer → StreamBuffer
reset_stats s = record s { hits = 0; accesses = 0 }
