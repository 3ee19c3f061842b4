-- ===== src/Interconnect/Ring.antt =====
-- `RingInterconnect` of src/core/multiprocessor/interconnect.h. A method locks the one queue that it uses.
pub mod Shortest
use cache_simulator.Prelude.{
  ℕ, ◌*◌, ◌%◌, Bool, false, not, [], Option, none, leb, ltb, ◌==◌, min, get_or, replicate,
  if◌then◌else◌, u64_mod, add32, sub32, mul32, add64,
}
use cache_simulator.Interconnect.Message.{
  InterconnectMessage, Queues, push, is_empty, pop_front, InterconnectStats,
}

pub record RingInterconnect : Type 0 where
  pub num_processors : ℕ
  pub hop_latency : ℕ
  pub routers : Queues
  pub total_messages : ℕ
  pub total_hops : ℕ

unfoldable pub create : ℕ → ℕ → RingInterconnect
create num_processors hop_latency = record {
  num_processors = num_processors;
  hop_latency = hop_latency;
  routers = replicate num_processors [];
  total_messages = 0;
  total_hops = 0;
}

unfoldable pub calculate_hops : ℕ → ℕ → ℕ → ℕ
calculate_hops num_processors src dst =
    let clockwise = if leb src dst then sub32 dst src else add32 (sub32 num_processors src) dst in
    let counter_clockwise = sub32 num_processors clockwise in
    if src == dst then 0 else min clockwise counter_clockwise

unfoldable pub send_message : RingInterconnect → InterconnectMessage → RingInterconnect × ℕ
unfolding calculate_hops
send_message r message =
    let hops = calculate_hops r.num_processors message.source_id message.dest_id in
    (
      record r {
        routers =
            if ltb message.dest_id r.num_processors
            then push r.routers message.dest_id (record message { hop_count = hops })
            else r.routers;
        total_messages = add64 r.total_messages 1;
        total_hops = add64 r.total_hops hops;
      },
      mul32 hops r.hop_latency,
    )

unfoldable pub has_messages : RingInterconnect → ℕ → Bool
has_messages r processor_id =
    if leb r.num_processors processor_id
    then false
    else not (is_empty (get_or r.routers processor_id []))

unfoldable pub receive_message :
    RingInterconnect → ℕ → Option InterconnectMessage × RingInterconnect
receive_message r processor_id =
    if leb r.num_processors processor_id
    then (none, r)
    else let (m, queues) = pop_front (get_or r.routers processor_id []) r.routers processor_id in
      (m, record r { routers = queues })

unfoldable pub get_stats : RingInterconnect → InterconnectStats
get_stats r = record {
  total_messages = r.total_messages;
  total_latency = r.total_hops * r.hop_latency % u64_mod;
  congestion_events = 0;
}

unfoldable pub reset_stats : RingInterconnect → RingInterconnect
reset_stats r = record r { total_messages = 0; total_hops = 0 }
