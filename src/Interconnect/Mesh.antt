-- ===== src/Interconnect/Mesh.antt =====
-- `MeshInterconnect` of src/core/multiprocessor/interconnect.h and .cpp. `none` is an access to
-- `routers_` out of its bounds, which the source leaves undefined; so is a width of 0, which the
-- factory gives for no processor only.
pub mod Coordinates
pub mod Route
pub mod Delivery
pub mod PartialRow
use cache_simulator.Prelude.{
  ℕ, zero, suc, ◌+◌, ◌-◌, ◌*◌, ◌/◌, ◌%◌, ◌<◌, Bool, true, false, not, List, [], ◌∷◌, ◌++◌, Option,
  none, some, leb, ltb, ◌==◌, length, get_elem?, set, replicate, if◌then◌else◌, u32_mod, u64_mod,
  add32, sub32, mul32, add64,
}
use cache_simulator.Interconnect.Message.{InterconnectMessage, is_empty, InterconnectStats}

-- A congestion level is a `uint32_t`.
pub record Router : Type 0 where
  pub input_queue : List InterconnectMessage
  pub output_queue : List InterconnectMessage
  pub congestion_level : ℕ

pub record MeshInterconnect : Type 0 where
  pub num_processors : ℕ
  pub link_latency : ℕ
  pub mesh_width : ℕ
  pub mesh_height : ℕ
  pub routers : List Router
  pub total_messages : ℕ
  pub total_hops : ℕ
  pub congestion_events : ℕ

abbrev pub new_router : Router
new_router = record { input_queue = []; output_queue = []; congestion_level = 0 }

unfoldable pub create : ℕ → ℕ → ℕ → MeshInterconnect
create num_processors link_latency mesh_width = record {
  num_processors = num_processors;
  link_latency = link_latency;
  mesh_width = mesh_width;
  mesh_height = sub32 (add32 num_processors mesh_width) 1 / mesh_width;
  routers = replicate num_processors new_router;
  total_messages = 0;
  total_hops = 0;
  congestion_events = 0;
}

unfoldable pub id_to_coordinates : ℕ → ℕ → ℕ × ℕ
id_to_coordinates mesh_width id = (id % mesh_width, id / mesh_width)

unfoldable pub coordinates_to_id : ℕ → ℕ → ℕ → ℕ
coordinates_to_id mesh_width x y = add32 (mul32 y mesh_width) x

-- One round towards `d`. Between two numbers of 32 bits no step wraps.
unfoldable pub toward : ℕ → ℕ → ℕ
toward s d = if ltb s d then s + 1 else s - 1

-- `while (s != d)` of one dimension: the nodes that it pushes, where `node` gives the node at
-- a coordinate. The distance is the fuel.
unfoldable pub route_dimension : (ℕ → ℕ) → ℕ → ℕ → ℕ → List ℕ
unfolding toward
route_dimension node zero s d = []
route_dimension node (suc fuel) s d =
    let s' = toward s d in
    let rest = route_dimension node fuel s' d in if s == d then [] else node s' ∷ rest

abbrev pub distance : ℕ → ℕ → ℕ
distance s d = if ltb s d then d - s else s - d

unfoldable pub calculate_route : ℕ → ℕ → ℕ → List ℕ
unfolding id_to_coordinates coordinates_to_id route_dimension
calculate_route mesh_width source dest =
    let (sx, sy) = id_to_coordinates mesh_width source in
    let (dx, dy) = id_to_coordinates mesh_width dest in
    if source == dest
    then source ∷ []
    else source
      ∷ (route_dimension (λ x. coordinates_to_id mesh_width x sy) (distance sx dx) sx dx
          ++ route_dimension (λ y. coordinates_to_id mesh_width dx y) (distance sy dy) sy dy)

-- A message on its way: the state, the message with its hops so far, and the latency so far.
pub record Transit : Type 0 where
  pub mesh : MeshInterconnect
  pub message : InterconnectMessage
  pub latency : ℕ

abbrev pub put_router : MeshInterconnect → ℕ → Router → MeshInterconnect
put_router m i r = record m { routers = set m.routers i r }

abbrev pub push_input : InterconnectMessage → Router → Router
push_input message r = record r { input_queue = r.input_queue ++ message ∷ [] }

abbrev pub push_output : InterconnectMessage → Router → Router
push_output message r = record r { output_queue = r.output_queue ++ message ∷ [] }

-- What a router at the start of a link adds to the latency, and to the congestion events.
unfoldable pub leave_router : Transit → ℕ → Router → Transit
leave_router t current r =
    let congested = ltb 10 r.congestion_level in
    let penalty = mul32 t.mesh.link_latency 2 in
    let events = add64 t.mesh.congestion_events 1 in
    record t {
      mesh =
          record (put_router t.mesh current
            (record r { congestion_level = add32 r.congestion_level 1 })) {
              congestion_events = if congested then events else t.mesh.congestion_events;
            };
      latency = add32 t.latency (if congested then penalty else t.mesh.link_latency);
    }

unfoldable pub enter_router : Transit → ℕ → Router → Transit
enter_router t next r = record t {
  mesh = put_router t.mesh next (push_input t.message r);
  message = record t.message { hop_count = add32 t.message.hop_count 1 };
}

abbrev pub at_router : MeshInterconnect → ℕ → (Router → Transit) → Option Transit
at_router m i f = elim (get_elem? m.routers i) [ none ↦ none | some r ↦ some (f r) ]

-- One round of the loop over the route.
unfoldable pub hop : Transit → ℕ → ℕ → Option Transit
unfolding leave_router enter_router
hop t current next = elim (at_router t.mesh current (leave_router t current)) [
  | none ↦ none
  | some t' ↦ at_router t'.mesh next (enter_router t' next)
]

abbrev pub and_then {ℓ κ} : {A : Type ℓ} {B : Type κ} → Option A → (A → Option B) → Option B
and_then none f = none
and_then (some a) f = f a

-- The loop over the nodes of the route after `current`.
unfoldable pub forward : ℕ → List ℕ → Transit → Option Transit
unfolding hop
forward current [] t = some t
forward current (next ∷ route) t = and_then (hop t current next) (forward next route)

unfoldable pub deliver : Transit → ℕ → Option (MeshInterconnect × ℕ)
deliver t dest = elim (get_elem? t.mesh.routers dest) [
  | none ↦ none
  | some r ↦ some (
    record (put_router t.mesh dest (push_output t.message r)) {
      total_messages = add64 t.mesh.total_messages 1;
      total_hops = add64 t.mesh.total_hops t.message.hop_count;
    },
    t.latency,
  )
]

abbrev pub start : MeshInterconnect → InterconnectMessage → Transit
start m message = record { mesh = m; message = message; latency = 0 }

unfoldable pub send_along :
    List ℕ → MeshInterconnect → InterconnectMessage → Option (MeshInterconnect × ℕ)
unfolding forward deliver
send_along [] m message = some (m, 0)
send_along (node ∷ route) m message =
    and_then (forward node route (start m message)) (λ t. deliver t message.dest_id)

unfoldable pub send_message : MeshInterconnect → InterconnectMessage → Option (MeshInterconnect × ℕ)
unfolding calculate_route send_along
send_message m message =
    send_along (calculate_route m.mesh_width message.source_id message.dest_id) m message

abbrev pub output : MeshInterconnect → ℕ → List InterconnectMessage
output m i = elim (get_elem? m.routers i) [ none ↦ [] | some r ↦ r.output_queue ]

unfoldable pub has_messages : MeshInterconnect → ℕ → Bool
has_messages m processor_id =
    if leb m.num_processors processor_id then false else not (is_empty (output m processor_id))

abbrev pub take_output : List InterconnectMessage → Router → Option InterconnectMessage × Router
take_output [] r = (none, r)
take_output (message ∷ rest) r = (
  some message,
  record r {
    output_queue = rest;
    congestion_level = if ltb 0 r.congestion_level then r.congestion_level - 1 else 0;
  },
)

unfoldable pub receive_message :
    MeshInterconnect → ℕ → Option InterconnectMessage × MeshInterconnect
receive_message m processor_id =
    if leb m.num_processors processor_id
    then (none, m)
    else elim (get_elem? m.routers processor_id) [
      | none ↦ (none, m)
      | some r ↦
          let (message, r') = take_output r.output_queue r in
          (message, put_router m processor_id r')
    ]

-- The latency is what the source calls simplified: a link for each message.
unfoldable pub get_stats : MeshInterconnect → InterconnectStats
get_stats m = record {
  total_messages = m.total_messages;
  total_latency = m.total_messages * m.link_latency % u64_mod;
  congestion_events = m.congestion_events;
}

unfoldable pub reset_stats : MeshInterconnect → MeshInterconnect
reset_stats m = record m { total_messages = 0; total_hops = 0; congestion_events = 0 }
