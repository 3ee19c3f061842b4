-- ===== src/Interconnect/Message.antt =====
-- What the interconnects of src/core/multiprocessor/interconnect.h share: the message, a vector of
-- `std::queue`, each a list with its front first, and the integer parts of the statistics.
use cache_simulator.Prelude.{
  ℕ, zero, suc, ◌+◌, ◌*◌, ltb, leb, if◌then◌else◌, Bool, true, false, Option, none, some, List, [],
  ◌∷◌, ◌++◌, get_or, set,
}

pub data InterconnectType : Type 0 where
  bus crossbar mesh ring torus : InterconnectType

pub data MessageType : Type 0 where
  coherence_request coherence_response data_transfer acknowledgment : MessageType

pub record InterconnectMessage : Type 0 where
  pub source_id : ℕ
  pub dest_id : ℕ
  pub address : ℕ
  pub type : MessageType
  pub payload : List ℕ
  pub timestamp : ℕ
  pub hop_count : ℕ

abbrev pub Queues : Type 0
Queues = List (List InterconnectMessage)

-- `queues[i].push(message)`, where `i` is in range.
abbrev pub push : Queues → ℕ → InterconnectMessage → Queues
push queues i message = set queues i (get_or queues i [] ++ message ∷ [])

abbrev pub is_empty : List InterconnectMessage → Bool
is_empty [] = true
is_empty (m ∷ ms) = false

-- The front of a queue of a vector, and the vector without it.
abbrev pub pop_front : List InterconnectMessage → Queues → ℕ → Option InterconnectMessage × Queues
pop_front [] queues i = (none, queues)
pop_front (m ∷ ms) queues i = (some m, set queues i ms)

-- The averages in floating point are left out.
pub record InterconnectStats : Type 0 where
  pub total_messages : ℕ
  pub total_latency : ℕ
  pub congestion_events : ℕ

-- The integer part of a square root, counted up from `r`, with `fuel` more candidates.
unfoldable pub root : ℕ → ℕ → ℕ → ℕ
root zero r n = r
root (suc fuel) r n = elim (leb ((r + 1) * (r + 1)) n) [ true ↦ root fuel (r + 1) n | false ↦ r ]

-- No root is above its square, which bounds the fuel.
unfoldable pub floor_sqrt : ℕ → ℕ
unfolding root
floor_sqrt n = root n 0 n

unfoldable pub ceil_sqrt : ℕ → ℕ
unfolding floor_sqrt
ceil_sqrt n = let r = floor_sqrt n in if ltb (r * r) n then r + 1 else r
