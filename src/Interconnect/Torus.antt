-- ===== src/Interconnect/Torus.antt =====
-- `TorusInterconnect` of src/core/multiprocessor/interconnect.h. `std::ceil(std::sqrt(n))` is the least number
-- whose square reaches `n`: a `double` holds each square exactly. A torus of no processors, for which the
-- constructor divides by zero, is left open by the source.
use cache_simulator.Prelude.{
  ℕ, ◌-◌, ◌*◌, ◌/◌, ◌%◌, Bool, false, not, [], Option, none, leb, ltb, ◌==◌, min, get_or, replicate,
  if◌then◌else◌, u32_mod, u64_mod, add32, sub32, mul32, add64,
}
use cache_simulator.Interconnect.Message.{
  InterconnectMessage, Queues, push, is_empty, pop_front, InterconnectStats, ceil_sqrt,
}

pub record TorusInterconnect : Type 0 where
  pub num_processors : ℕ
  pub hop_latency : ℕ
  pub width : ℕ
  pub height : ℕ
  pub routers : Queues
  pub total_messages : ℕ
  pub total_hops : ℕ

unfoldable pub create : ℕ → ℕ → TorusInterconnect
unfolding ceil_sqrt
create num_processors hop_latency =
    let width = ceil_sqrt num_processors in
    record {
      num_processors = num_processors;
      hop_latency = hop_latency;
      width = width;
      height = sub32 (add32 num_processors width) 1 / width;
      routers = replicate num_processors [];
      total_messages = 0;
      total_hops = 0;
    }

-- The distance as an `int32_t`, as it is or around the end of an axis.
unfoldable pub wrapped : ℕ → ℕ → ℕ → ℕ
wrapped extent a b =
    let difference = sub32 b a in
    let d = if ltb difference 0x8000_0000 then difference else u32_mod - difference in
    min d (sub32 extent d)

unfoldable pub calculate_hops : TorusInterconnect → ℕ → ℕ → ℕ
unfolding wrapped
calculate_hops t src dst =
    if src == dst
    then 0
    else add32 (wrapped t.width (src % t.width) (dst % t.width))
        (wrapped t.height (src / t.width) (dst / t.width))

unfoldable pub send_message : TorusInterconnect → InterconnectMessage → TorusInterconnect × ℕ
unfolding calculate_hops
send_message t message =
    let hops = calculate_hops t message.source_id message.dest_id in
    (
      record t {
        routers =
            if ltb message.dest_id t.num_processors
            then push t.routers message.dest_id (record message { hop_count = hops })
            else t.routers;
        total_messages = add64 t.total_messages 1;
        total_hops = add64 t.total_hops hops;
      },
      mul32 hops t.hop_latency,
    )

unfoldable pub has_messages : TorusInterconnect → ℕ → Bool
has_messages t processor_id =
    if leb t.num_processors processor_id
    then false
    else not (is_empty (get_or t.routers processor_id []))

unfoldable pub receive_message :
    TorusInterconnect → ℕ → Option InterconnectMessage × TorusInterconnect
receive_message t processor_id =
    if leb t.num_processors processor_id
    then (none, t)
    else let (m, queues) = pop_front (get_or t.routers processor_id []) t.routers processor_id in
      (m, record t { routers = queues })

unfoldable pub get_stats : TorusInterconnect → InterconnectStats
get_stats t = record {
  total_messages = t.total_messages;
  total_latency = t.total_hops * t.hop_latency % u64_mod;
  congestion_events = 0;
}

unfoldable pub reset_stats : TorusInterconnect → TorusInterconnect
reset_stats t = record t { total_messages = 0; total_hops = 0 }
