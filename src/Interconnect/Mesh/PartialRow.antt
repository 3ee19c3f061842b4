-- ===== src/Interconnect/Mesh/PartialRow.antt =====
-- Routes of `MeshInterconnect` of src/core/multiprocessor/interconnect.cpp that leave a last row which is
-- not full.
use native.Mathlib.Nat.{mod-lt, mod-eq_of_lt, div-add-mod'}
use mathlib.Core.List.{append_assoc}
use cache_simulator.Prelude.{
  ℕ, zero, suc, ◌+◌, ◌-◌, ◌*◌, ◌/◌, ◌%◌, ◌≤◌, ◌<◌, ◌≡◌, ap, ◌∙◌, inl, inr, false, List, [], ◌∷◌,
  ◌++◌, none, some, Option-cases, length, length-set, get_elem?, get_elem?-none, ◌==◌, Bool-cases,
  arith, u32_mod,
}
use cache_simulator.Interconnect.Message.{InterconnectMessage}
use cache_simulator.Interconnect.Mesh.{
  Router, MeshInterconnect, Transit, leave_router, enter_router, at_router, hop, forward, start,
  send_along, send_message, distance, calculate_route, coordinates_to_id, toward, route_dimension,
}
use cache_simulator.Interconnect.Mesh.Route.{toward_lem}

-- The loop ends by pushing the node of its target.
route_dimension-last :
    (node : ℕ → ℕ) (fuel s d : ℕ)
    → distance s d ≡ suc fuel
    → (xs : List ℕ) × (route_dimension node (suc fuel) s d ≡ xs ++ node d ∷ [])
unfolding route_dimension
route_dimension-last node zero s d far =
    let (adj, within, near) = toward_lem s d (suc (s + d)) 0 (omega arith) (omega arith) far in
    let apart : (s == d) ≡ false = ground arith in
    let there : toward s d ≡ d = ground arith in ([], rw (apart, there))
route_dimension-last node (suc fuel) s d far =
    let (adj, within, near) =
      toward_lem s d (suc (s + d)) (suc fuel) (omega arith) (omega arith) far in
    let apart : (s == d) ≡ false = ground arith in
    let (xs, e) = route_dimension-last node fuel (toward s d) d near in
    (node (toward s d) ∷ xs, rw apart (ap (node (toward s d) ∷◌) e))

-- A hop to a router that is not there.
hop-none :
    (t : Transit) (current next : ℕ) → length t.mesh.routers ≤ next → hop t current next ≡ none
unfolding hop leave_router
hop-none t current next out = elim (Option-cases (get_elem? t.mesh.routers current)) [
  | inl e ↦ rw (e, hop)
  | inr (r, e) ↦
      let gone =
        get_elem?-none (leave_router t current r).mesh.routers next
          (omega (arith, length-set t.mesh.routers current)) in
      rw (e, hop) (rw (gone, at_router))
]

at_router-eq-some :
    (m : MeshInterconnect) (i : ℕ) (f : Router → Transit) (u : Transit)
    → at_router m i f ≡ some u
    → (r : Router) × (u ≡ f r)
at_router-eq-some m i f u e = elim (Option-cases (get_elem? m.routers i)) [
  | inl out ↦ absurd (cc)
  | inr (r, at) ↦ (r, cc)
]

-- A hop that goes through keeps the number of routers.
hop-length :
    (t : Transit) (current next : ℕ) (u : Transit)
    → hop t current next ≡ some u
    → length u.mesh.routers ≡ length t.mesh.routers
unfolding hop leave_router enter_router
hop-length t current next u e =
    elim (Option-cases (at_router t.mesh current (leave_router t current))) [
      | inl out ↦ absurd (cc)
      | inr (t', left) ↦
          let (r, e') = at_router-eq-some t.mesh current (leave_router t current) t' left in
          let went : at_router t'.mesh next (enter_router t' next) ≡ some u = cc in
          let (r', e'') = at_router-eq-some t'.mesh next (enter_router t' next) u went in
          let second : length u.mesh.routers ≡ length t'.mesh.routers =
            rw e'' (length-set t'.mesh.routers next _) in
          let first : length t'.mesh.routers ≡ length t.mesh.routers =
            rw e' (length-set t.mesh.routers current _) in
          second ∙ first
    ]

-- A route over a router that is not there breaks off.
forward-none :
    (xs : List ℕ) (bad : ℕ) (ys : List ℕ) (current : ℕ) (t : Transit)
    → length t.mesh.routers ≤ bad
    → forward current (xs ++ bad ∷ ys) t ≡ none
unfolding forward
forward-none [] bad ys current t out = rw (hop-none t current bad out)
forward-none (next ∷ xs) bad ys current t out = elim (Option-cases (hop t current next)) [
  | inl e ↦ rw e
  | inr (u, e) ↦ rw e (forward-none xs bad ys next u (omega (arith, hop-length t current next u e)))
]

-- A source in a last row that is not full, and a destination in a column that the row has not.
pub record LeavesLastRow (m : MeshInterconnect) (message : InterconnectMessage) : Type 0 where
  pub has_columns : 0 < m.mesh_width
  pub fits : length m.routers + m.mesh_width ≤ u32_mod
  pub source_in_range : message.source_id < length m.routers
  pub in_last_row : message.source_id / m.mesh_width ≡ length m.routers / m.mesh_width
  pub beyond : length m.routers % m.mesh_width ≤ message.dest_id % m.mesh_width

module _ (m : MeshInterconnect) (message : InterconnectMessage)
    (leaves : LeavesLastRow m message) where
  open leaves use {has_columns, fits, source_in_range, in_last_row, beyond}
  open m use {mesh_width, routers}
  open message use {source_id, dest_id}

  corner-ge :
      length routers ≤ coordinates_to_id mesh_width (dest_id % mesh_width) (source_id / mesh_width)
  unfolding coordinates_to_id
  corner-ge =
      let column = mod-lt dest_id has_columns in
      let whole = div-add-mod' (length routers) mesh_width in
      let row : length routers / mesh_width * mesh_width % u32_mod
          ≡ length routers / mesh_width * mesh_width =
        mod-eq_of_lt (omega arith) in
      let there = length routers / mesh_width * mesh_width + dest_id % mesh_width in
      let fits_there : there % u32_mod ≡ there = mod-eq_of_lt (omega arith) in
      rw (in_last_row, row, fits_there) (omega arith)

  shorter : source_id % mesh_width < dest_id % mesh_width
  shorter =
      let a = div-add-mod' (length routers) mesh_width in
      let b = div-add-mod' source_id mesh_width in
      let c = ap (λ (r : ℕ). r * mesh_width) in_last_row in omega (arith, source_in_range)

  x_node : ℕ → ℕ
  x_node x = coordinates_to_id mesh_width x (source_id / mesh_width)

  -- The route passes the corner.
  route-corner :
      (xs : List ℕ) × (ys : List ℕ) × (calculate_route mesh_width source_id dest_id
        ≡ source_id ∷ (xs ++ x_node (dest_id % mesh_width) ∷ ys))
  unfolding calculate_route x_node
  route-corner =
      let s = source_id % mesh_width in
      let d = dest_id % mesh_width in
      let below : s < d = shorter in
      let far : distance s d ≡ suc (d - s - 1) = ground arith in
      let (xs, e) = route_dimension-last x_node (d - s - 1) s d far in
      let column =
        route_dimension (λ y. coordinates_to_id mesh_width d y)
          (distance (source_id / mesh_width) (dest_id / mesh_width)) (source_id / mesh_width)
          (dest_id / mesh_width) in
      let apart : (source_id == dest_id) ≡ false = elim (Bool-cases (source_id == dest_id)) [
        | inl same ↦
            let e : source_id ≡ dest_id = ground arith in
            absurd (omega (arith, ap (λ (n : ℕ). n % mesh_width) e))
        | inr ne ↦ ne
      ] in
      (xs, column, rw (apart, far, e) (ap (source_id ∷◌) (append_assoc xs (x_node d ∷ []) column)))

  -- A message from a last row that is not full to a column that this row has not is sent over a
  -- router that does not exist.
  pub send_message-none : send_message m message ≡ none
  unfolding send_message send_along x_node
  send_message-none =
      let (xs, ys, e) = route-corner in
      rw e (
        rw (
          forward-none xs (x_node (dest_id % mesh_width)) ys source_id (start m message) corner-ge))
