-- ===== src/Interconnect/Bus.antt =====
-- `BusInterconnect` of src/core/multiprocessor/interconnect.h and .cpp. A send holds the bus from its start
-- to its end, so sends come one after the other and each finds the bus free: the flag, its mutexes
-- and the delay of the sender's thread are left out. A width of 0, which the factory never gives, would
-- divide by 0.
use cache_simulator.Prelude.{
  ℕ, ◌+◌, ◌/◌, ◌%◌, Bool, false, not, [], Option, none, leb, ltb, length, get_or, replicate,
  if◌then◌else◌, u32_mod, add64,
}
use cache_simulator.Interconnect.Message.{
  InterconnectMessage, Queues, push, is_empty, pop_front, InterconnectStats,
}

pub record BusInterconnect : Type 0 where
  pub num_processors : ℕ
  pub bus_latency : ℕ
  pub bus_width : ℕ
  pub message_queues : Queues
  pub total_messages : ℕ
  pub total_latency : ℕ
  pub congestion_events : ℕ
  pub bus_utilization_cycles : ℕ
  pub total_cycles : ℕ

unfoldable pub create : ℕ → ℕ → ℕ → BusInterconnect
create num_processors bus_latency bus_width = record {
  num_processors = num_processors;
  bus_latency = bus_latency;
  bus_width = bus_width;
  message_queues = replicate num_processors [];
  total_messages = 0;
  total_latency = 0;
  congestion_events = 0;
  bus_utilization_cycles = 0;
  total_cycles = 0;
}

unfoldable pub transmission_cycles : BusInterconnect → InterconnectMessage → ℕ
transmission_cycles b message = (b.bus_latency + length message.payload / b.bus_width) % u32_mod

unfoldable pub send_message : BusInterconnect → InterconnectMessage → BusInterconnect × ℕ
unfolding transmission_cycles
send_message b message =
    let cycles = transmission_cycles b message in
    (
      record b {
        message_queues =
            if ltb message.dest_id b.num_processors
            then push b.message_queues message.dest_id message
            else b.message_queues;
        total_messages = add64 b.total_messages 1;
        total_latency = add64 b.total_latency cycles;
        bus_utilization_cycles = add64 b.bus_utilization_cycles cycles;
        total_cycles = add64 b.total_cycles cycles;
      },
      cycles,
    )

unfoldable pub has_messages : BusInterconnect → ℕ → Bool
has_messages b processor_id =
    if leb b.num_processors processor_id
    then false
    else not (is_empty (get_or b.message_queues processor_id []))

unfoldable pub receive_message : BusInterconnect → ℕ → Option InterconnectMessage × BusInterconnect
receive_message b processor_id =
    if leb b.num_processors processor_id
    then (none, b)
    else let (m, queues) =
        pop_front (get_or b.message_queues processor_id []) b.message_queues processor_id in
      (m, record b { message_queues = queues })

unfoldable pub get_stats : BusInterconnect → InterconnectStats
get_stats b = record {
  total_messages = b.total_messages;
  total_latency = b.total_latency;
  congestion_events = b.congestion_events;
}

unfoldable pub reset_stats : BusInterconnect → BusInterconnect
reset_stats b = record b {
  total_messages = 0;
  total_latency = 0;
  congestion_events = 0;
  bus_utilization_cycles = 0;
  total_cycles = 0;
}
