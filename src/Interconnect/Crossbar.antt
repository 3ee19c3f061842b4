-- ===== src/Interconnect/Crossbar.antt =====
-- `CrossbarInterconnect` of src/core/multiprocessor/interconnect.h and .cpp, one call after the other. A port
-- that another thread holds only counts a conflict and delays the thread, so the flags are kept.
use cache_simulator.Prelude.{
  ℕ, zero, suc, ◌+◌, Bool, true, false, ◌||◌, List, [], Option, none, some, leb, get_or, set,
  replicate, if◌then◌else◌, add64,
}
use cache_simulator.Interconnect.Message.{
  InterconnectMessage, Queues, push, is_empty, pop_front, InterconnectStats,
}

-- `connections` holds for each source the queue of each destination.
pub record CrossbarInterconnect : Type 0 where
  pub num_processors : ℕ
  pub crossbar_latency : ℕ
  pub connections : List Queues
  pub port_occupied : List Bool
  pub total_messages : ℕ
  pub total_latency : ℕ
  pub port_conflicts : ℕ

unfoldable pub create : ℕ → ℕ → CrossbarInterconnect
create num_processors crossbar_latency = record {
  num_processors = num_processors;
  crossbar_latency = crossbar_latency;
  connections = replicate num_processors (replicate num_processors []);
  port_occupied = replicate num_processors false;
  total_messages = 0;
  total_latency = 0;
  port_conflicts = 0;
}

abbrev pub connection : CrossbarInterconnect → ℕ → ℕ → List InterconnectMessage
connection c src dst = get_or (get_or c.connections src []) dst []

unfoldable pub send_message : CrossbarInterconnect → InterconnectMessage → CrossbarInterconnect × ℕ
send_message c message =
    if leb c.num_processors message.source_id || leb c.num_processors message.dest_id
    then (c, 0)
    else (
      record c {
        connections =
            set c.connections message.source_id
              (push (get_or c.connections message.source_id []) message.dest_id message);
        port_occupied = set c.port_occupied message.dest_id false;
        total_messages = add64 c.total_messages 1;
        total_latency = add64 c.total_latency c.crossbar_latency;
        port_conflicts =
            if get_or c.port_occupied message.dest_id false
            then add64 c.port_conflicts 1
            else c.port_conflicts;
      },
      c.crossbar_latency,
    )

-- The loop over the sources from `src`, with `left` of them to go: the first that has a message for
-- the destination.
unfoldable pub first_source : ℕ → ℕ → CrossbarInterconnect → ℕ → Option ℕ
first_source zero src c dst = none
first_source (suc left) src c dst =
    let rest = first_source left (src + 1) c dst in
    if is_empty (connection c src dst) then rest else some src

abbrev pub is_some : Option ℕ → Bool
is_some none = false
is_some (some n) = true

unfoldable pub has_messages : CrossbarInterconnect → ℕ → Bool
unfolding first_source
has_messages c processor_id =
    if leb c.num_processors processor_id
    then false
    else is_some (first_source c.num_processors 0 c processor_id)

abbrev pub receive_from :
    CrossbarInterconnect → ℕ → Option ℕ → Option InterconnectMessage × CrossbarInterconnect
receive_from c dst none = (none, c)
receive_from c dst (some src) =
    let (m, queues) = pop_front (connection c src dst) (get_or c.connections src []) dst in
    (m, record c { connections = set c.connections src queues })

unfoldable pub receive_message :
    CrossbarInterconnect → ℕ → Option InterconnectMessage × CrossbarInterconnect
unfolding first_source
receive_message c processor_id =
    if leb c.num_processors processor_id
    then (none, c)
    else receive_from c processor_id (first_source c.num_processors 0 c processor_id)

unfoldable pub get_stats : CrossbarInterconnect → InterconnectStats
get_stats c = record {
  total_messages = c.total_messages;
  total_latency = c.total_latency;
  congestion_events = c.port_conflicts;
}

unfoldable pub reset_stats : CrossbarInterconnect → CrossbarInterconnect
reset_stats c = record c { total_messages = 0; total_latency = 0; port_conflicts = 0 }
