-- ===== src/Tests/Network.antt =====
-- The interconnects on small runs.
use cache_simulator.Prelude.{ℕ, ◌≤◌, ◌≡◌, refl, arith, List, [], ◌∷◌, none, some, true}
use cache_simulator.Interconnect.Message.{InterconnectMessage, data_transfer}
use cache_simulator.Interconnect.Bus
use cache_simulator.Interconnect.Ring
use cache_simulator.Interconnect.Torus
use cache_simulator.Interconnect.Mesh
use cache_simulator.Interconnect.Mesh.{MeshInterconnect, calculate_route, send_message}
use cache_simulator.Interconnect.Mesh.Route.{IsRoute, calculate_route-IsRoute}
use cache_simulator.Interconnect.Mesh.Delivery.{IsDelivered, links, send_message-IsDelivered}
use cache_simulator.Interconnect.Mesh.PartialRow.{send_message-none}
use cache_simulator.Interconnect.Ring.Shortest.{Walk, calculate_hops-shortest}
use cache_simulator.Interconnect.Mailboxes.{
  Command, send, receive, has, sent, received, answered, run, run_mailboxes,
}
use cache_simulator.Interconnect.Order.{
  empty_boxes, bus_stamp, ring_stamp, torus_stamp, bus_network, ring_network, torus_network,
  run-mailboxes,
}

abbrev message : ℕ → ℕ → InterconnectMessage
message source dest = record {
  source_id = source;
  dest_id = dest;
  address = 64;
  type = data_transfer;
  payload = 1 ∷ 2 ∷ [];
  timestamp = 0;
  hop_count = 0;
}

-- Over the row of node 1, then up the last column.
route_from_one : calculate_route 3 1 5 ≡ 1 ∷ 2 ∷ 5 ∷ []
unfolding calculate_route
route_from_one = refl

calculate_route-IsRoute_example : IsRoute 3 2 1 5 (calculate_route 3 1 5)
calculate_route-IsRoute_example =
    calculate_route-IsRoute 3 2 (omega arith) 1 5 (omega arith) (omega arith) (omega arith)

-- Two rows of three.
abbrev grid : MeshInterconnect
grid = Mesh.create 6 5 3

send_message-IsDelivered_example :
    (m : MeshInterconnect) × (l : ℕ) × (send_message grid (message 1 5) ≡ some (m, l))
    × IsDelivered grid (message 1 5) (links grid.mesh_width 1 5) m
unfolding Mesh.create
send_message-IsDelivered_example =
    send_message-IsDelivered grid (message 1 5) 2
      (record { has_columns = omega arith; full = refl; fits = omega arith }) (omega arith)
      (omega arith) (omega arith)

-- Five nodes in rows of three: node 3 has no way along its row to column 2.
abbrev uneven : MeshInterconnect
uneven = Mesh.create 5 5 3

send_message-none_example : send_message uneven (message 3 2) ≡ none
unfolding Mesh.create
send_message-none_example = send_message-none uneven (message 3 2) (record {
  has_columns = omega arith;
  fits = omega arith;
  source_in_range = omega arith;
  in_last_row = refl;
  beyond = omega arith;
})

ring_hops : Ring.calculate_hops 8 1 7 ≡ 2
unfolding Ring.calculate_hops
ring_hops = refl

calculate_hops-shortest_example :
    Walk 8 (Ring.calculate_hops 8 1 7) 1 7
    × ((k : ℕ) → Walk 8 k 1 7 → Ring.calculate_hops 8 1 7 ≤ k)
calculate_hops-shortest_example =
    calculate_hops-shortest 8 1 7 (omega arith) (omega arith) (omega arith)

abbrev commands : List Command
commands =
    send (message 0 2)
    ∷ send (message 1 2)
    ∷ has 2
    ∷ receive 2
    ∷ receive 2
    ∷ receive 2
    ∷ receive 9
    ∷ []

bus_run :
    run bus_network (Bus.create 4 10 64) commands
    ≡ sent
      ∷ (sent
          ∷ (answered true
              ∷ (received (some (message 0 2))
                  ∷ (received (some (message 1 2)) ∷ (received none ∷ (received none ∷ []))))))
unfolding Bus.create Bus.send_message Bus.receive_message Bus.has_messages
bus_run = refl

run-mailboxes_example :
    (run bus_network (Bus.create 4 10 64) commands
      ≡ run_mailboxes (empty_boxes 4 bus_stamp) commands)
    × (run ring_network (Ring.create 4 10) commands
        ≡ run_mailboxes (empty_boxes 4 (ring_stamp (Ring.create 4 10))) commands)
    × (run torus_network (Torus.create 4 10) commands
        ≡ run_mailboxes (empty_boxes 4 (torus_stamp (Torus.create 4 10))) commands)
run-mailboxes_example = run-mailboxes 4 10 64 commands

torus_width : (Torus.create 10 1).width ≡ 4
unfolding Torus.create
torus_width = refl
