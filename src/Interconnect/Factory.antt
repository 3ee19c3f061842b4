-- ===== src/Interconnect/Factory.antt =====
-- `InterconnectFactory`, and the calls through `InterconnectInterface`, of
-- src/core/multiprocessor/interconnect.h: an interconnect is one of the five classes.
use cache_simulator.Prelude.{ℕ, Bool, Option, none, some}
use cache_simulator.Interconnect.Message.{
  InterconnectType, bus, crossbar, mesh, ring, torus, InterconnectMessage, InterconnectStats,
  ceil_sqrt,
}
use cache_simulator.Interconnect.Bus
use cache_simulator.Interconnect.Bus.{BusInterconnect}
use cache_simulator.Interconnect.Crossbar
use cache_simulator.Interconnect.Crossbar.{CrossbarInterconnect}
use cache_simulator.Interconnect.Mesh
use cache_simulator.Interconnect.Mesh.{MeshInterconnect}
use cache_simulator.Interconnect.Ring
use cache_simulator.Interconnect.Ring.{RingInterconnect}
use cache_simulator.Interconnect.Torus
use cache_simulator.Interconnect.Torus.{TorusInterconnect}

pub data Interconnect : Type 0 where
  of_bus : BusInterconnect → Interconnect
  of_crossbar : CrossbarInterconnect → Interconnect
  of_mesh : MeshInterconnect → Interconnect
  of_ring : RingInterconnect → Interconnect
  of_torus : TorusInterconnect → Interconnect

-- The width of a mesh is the root of the number of processors, rounded up.
unfoldable pub create : InterconnectType → ℕ → ℕ → Interconnect
unfolding Bus.create Crossbar.create Mesh.create Ring.create Torus.create ceil_sqrt
create bus num_processors base_latency = of_bus (Bus.create num_processors base_latency 64)
create crossbar num_processors base_latency =
    of_crossbar (Crossbar.create num_processors base_latency)
create mesh num_processors base_latency =
    of_mesh (Mesh.create num_processors base_latency (ceil_sqrt num_processors))
create ring num_processors base_latency = of_ring (Ring.create num_processors base_latency)
create torus num_processors base_latency = of_torus (Torus.create num_processors base_latency)

abbrev with_state {ℓ} : {S : Type ℓ} → (S → Interconnect) → S × ℕ → Option (Interconnect × ℕ)
with_state f (s, latency) = some (f s, latency)

abbrev mesh_state : Option (MeshInterconnect × ℕ) → Option (Interconnect × ℕ)
mesh_state none = none
mesh_state (some (m, latency)) = some (of_mesh m, latency)

-- `none` is the mesh's access out of bounds.
unfoldable pub send_message : Interconnect → InterconnectMessage → Option (Interconnect × ℕ)
send_message (of_bus b) message = with_state of_bus (Bus.send_message b message)
send_message (of_crossbar c) message = with_state of_crossbar (Crossbar.send_message c message)
send_message (of_mesh m) message = mesh_state (Mesh.send_message m message)
send_message (of_ring r) message = with_state of_ring (Ring.send_message r message)
send_message (of_torus t) message = with_state of_torus (Torus.send_message t message)

unfoldable pub has_messages : Interconnect → ℕ → Bool
has_messages (of_bus b) id = Bus.has_messages b id
has_messages (of_crossbar c) id = Crossbar.has_messages c id
has_messages (of_mesh m) id = Mesh.has_messages m id
has_messages (of_ring r) id = Ring.has_messages r id
has_messages (of_torus t) id = Torus.has_messages t id

abbrev received {ℓ} :
    {S : Type ℓ}
    → (S → Interconnect)
    → Option InterconnectMessage × S
    → Option InterconnectMessage × Interconnect
received f (message, s) = (message, f s)

unfoldable pub receive_message : Interconnect → ℕ → Option InterconnectMessage × Interconnect
receive_message (of_bus b) id = received of_bus (Bus.receive_message b id)
receive_message (of_crossbar c) id = received of_crossbar (Crossbar.receive_message c id)
receive_message (of_mesh m) id = received of_mesh (Mesh.receive_message m id)
receive_message (of_ring r) id = received of_ring (Ring.receive_message r id)
receive_message (of_torus t) id = received of_torus (Torus.receive_message t id)

unfoldable pub get_stats : Interconnect → InterconnectStats
get_stats (of_bus b) = Bus.get_stats b
get_stats (of_crossbar c) = Crossbar.get_stats c
get_stats (of_mesh m) = Mesh.get_stats m
get_stats (of_ring r) = Ring.get_stats r
get_stats (of_torus t) = Torus.get_stats t

unfoldable pub reset_stats : Interconnect → Interconnect
reset_stats (of_bus b) = of_bus (Bus.reset_stats b)
reset_stats (of_crossbar c) = of_crossbar (Crossbar.reset_stats c)
reset_stats (of_mesh m) = of_mesh (Mesh.reset_stats m)
reset_stats (of_ring r) = of_ring (Ring.reset_stats r)
reset_stats (of_torus t) = of_torus (Torus.reset_stats t)
