-- ===== src/Interconnect/Mesh/Delivery.antt =====
-- The delivery of a message over the routers of `MeshInterconnect` of
-- src/core/multiprocessor/interconnect.cpp.
use cache_simulator.Prelude.{
  ℕ, zero, suc, ◌+◌, ◌*◌, ◌/◌, ◌%◌, ◌≤◌, ◌<◌, ◌≡◌, ◌≢◌, refl, sym, ap, subst, ◌∙◌, List, [], ◌∷◌,
  ◌++◌, none, some, length, length-set, get_elem?, set, get_elem?-some, get_elem?-set_ne, All,
  arith, u32_mod, add64,
}
use cache_simulator.Interconnect.Message.{InterconnectMessage}
use cache_simulator.Interconnect.Mesh.{
  Router, MeshInterconnect, Transit, put_router, push_output, leave_router, enter_router, at_router,
  hop, forward, deliver, start, send_along, send_message, output, distance,
}
use cache_simulator.Interconnect.Mesh.Route.{IsRoute, calculate_route-IsRoute}

abbrev output_of : List Router → ℕ → List InterconnectMessage
output_of rs i = elim (get_elem? rs i) [ none ↦ [] | some r ↦ r.output_queue ]

-- A router replaced by one with the same output queue.
output-set :
    (rs : List Router) (i j : ℕ) (r r' : Router)
    → get_elem? rs i ≡ some r
    → r'.output_queue ≡ r.output_queue
    → output_of (set rs i r') j ≡ output_of rs j
output-set [] i j r r' here same = refl
output-set (x ∷ rs) zero zero r r' here same = ground arith
output-set (x ∷ rs) zero (suc j) r r' here same = refl
output-set (x ∷ rs) (suc i) zero r r' here same = refl
output-set (x ∷ rs) (suc i) (suc j) r r' here same = output-set rs i j r r' here same

-- What a message on its way has changed after `n` hops from `t`.
record IsAfter (n : ℕ) (t u : Transit) : Type 0 where
  counted : length u.mesh.routers ≡ length t.mesh.routers
  outputs : (i : ℕ) → output u.mesh i ≡ output t.mesh i
  hops : u.message.hop_count ≡ t.message.hop_count + n
  same : record u.message { hop_count = 0 } ≡ record t.message { hop_count = 0 }
  messages : u.mesh.total_messages ≡ t.mesh.total_messages

IsAfter-trans :
    {a b c : ℕ} {t u v : Transit} → a + b ≡ c → IsAfter a t u → IsAfter b u v → IsAfter c t v
IsAfter-trans sum p q = record {
  counted = q.counted ∙ p.counted;
  outputs = λ i. q.outputs i ∙ p.outputs i;
  hops = omega (arith, p.hops, q.hops);
  same = q.same ∙ p.same;
  messages = q.messages ∙ p.messages;
}

leave_router-IsAfter :
    (t : Transit) (current : ℕ) (r : Router)
    → get_elem? t.mesh.routers current ≡ some r
    → IsAfter 0 t (leave_router t current r)
unfolding leave_router
leave_router-IsAfter t current r at = record {
  counted = length-set t.mesh.routers current _;
  outputs = λ i. output-set t.mesh.routers current i r _ at refl;
  hops = omega arith;
  same = refl;
  messages = refl;
}

enter_router-IsAfter :
    (t : Transit) (next : ℕ) (r : Router)
    → get_elem? t.mesh.routers next ≡ some r
    → t.message.hop_count + 1 < u32_mod
    → IsAfter 1 t (enter_router t next r)
unfolding enter_router
enter_router-IsAfter t next r at fits = record {
  counted = length-set t.mesh.routers next _;
  outputs = λ i. output-set t.mesh.routers next i r _ at refl;
  hops = omega arith;
  same = refl;
  messages = refl;
}

-- A hop between two routers that are there goes through.
hop-IsAfter :
    (t : Transit) (current next : ℕ)
    → current < length t.mesh.routers
    → next < length t.mesh.routers
    → t.message.hop_count + 1 < u32_mod
    → (u : Transit) × (hop t current next ≡ some u) × IsAfter 1 t u
unfolding hop
hop-IsAfter t current next hc hn fits =
    let (r, at) = get_elem?-some t.mesh.routers current hc in
    let left = leave_router-IsAfter t current r at in
    let (r', at') =
      get_elem?-some (leave_router t current r).mesh.routers next (omega (arith, left.counted)) in
    let moved =
      enter_router-IsAfter (leave_router t current r) next r' at' (omega (arith, left.hops)) in
    (
      enter_router (leave_router t current r) next r',
      rw (at, hop) (rw (at', at_router)),
      IsAfter-trans (omega arith) left moved,
    )

-- A message goes along any route over routers that are there.
forward-IsAfter :
    (route : List ℕ) (current : ℕ) (t : Transit)
    → current < length t.mesh.routers
    → All (λ n. n < length t.mesh.routers) route
    → t.message.hop_count + length route < u32_mod
    → (u : Transit) × (forward current route t ≡ some u) × IsAfter (length route) t u
unfolding forward
forward-IsAfter [] current t hc all fits = (
  t,
  refl,
  record { counted = refl; outputs = λ i. refl; hops = omega arith; same = refl; messages = refl },
)
forward-IsAfter (next ∷ route) current t hc all fits =
    let (u, e, after) = hop-IsAfter t current next hc all.0 (omega arith) in
    let (v, e', rest) =
      forward-IsAfter route next u (omega (arith, after.counted))
        (subst (λ n. All (λ k. k < n) route) (sym after.counted) all.1)
        (omega (arith, after.hops)) in
    (v, rw (e, forward) e', IsAfter-trans (omega arith) after rest)

-- What a delivery after `n` hops does: the message arrives with them counted, behind what was
-- there, and no other output queue changes.
pub record IsDelivered (m : MeshInterconnect) (message : InterconnectMessage) (n : ℕ)
    (m' : MeshInterconnect) : Type 0 where
  pub arrived :
      output m' message.dest_id
      ≡ output m message.dest_id ++ record message { hop_count = message.hop_count + n } ∷ []
  pub others : (i : ℕ) → message.dest_id ≢ i → output m' i ≡ output m i
  pub counted : m'.total_messages ≡ add64 m.total_messages 1
  pub kept : length m'.routers ≡ length m.routers

output-push_self :
    (rs : List Router) (i : ℕ) (r : Router) (message : InterconnectMessage)
    → get_elem? rs i ≡ some r
    → output_of (set rs i (push_output message r)) i ≡ output_of rs i ++ message ∷ []
output-push_self [] i r message at = absurd (cc)
output-push_self (x ∷ rs) zero r message at = ground arith
output-push_self (x ∷ rs) (suc i) r message at = output-push_self rs i r message at

output-set_ne :
    (rs : List Router) (i j : ℕ) (r : Router) → i ≢ j → output_of (set rs i r) j ≡ output_of rs j
output-set_ne rs i j r apart = rw (get_elem?-set_ne rs r apart, output_of)

with_hops :
    (a b : InterconnectMessage) (n : ℕ)
    → record a { hop_count = 0 } ≡ record b { hop_count = 0 }
    → a.hop_count ≡ n
    → a ≡ record b { hop_count = n }
with_hops a b n same count =
    let e : a ≡ record a { hop_count = n } = ground arith in
    e ∙ ap (λ (m : InterconnectMessage). record m { hop_count = n }) same

deliver-IsDelivered :
    (t u : Transit) (n : ℕ)
    → IsAfter n t u
    → t.message.dest_id < length t.mesh.routers
    → (m' : MeshInterconnect) × (l : ℕ) × (deliver u t.message.dest_id ≡ some (m', l))
      × IsDelivered t.mesh t.message n m'
unfolding deliver
deliver-IsDelivered t u n after hd =
    let dest = t.message.dest_id in
    let (r, at) = get_elem?-some u.mesh.routers dest (omega (arith, after.counted)) in
    let final = record (put_router u.mesh dest (push_output u.message r)) {
      total_messages = add64 u.mesh.total_messages 1;
      total_hops = add64 u.mesh.total_hops u.message.hop_count;
    } in
    (
      final,
      u.latency,
      rw (at, deliver),
      record {
        arrived =
            output-push_self u.mesh.routers dest r u.message at
            ∙ ap (λ q. q ++ u.message ∷ []) (after.outputs dest)
            ∙ ap (λ a. output t.mesh dest ++ a ∷ [])
                (with_hops u.message t.message (t.message.hop_count + n) after.same after.hops);
        others = λ i apart. output-set_ne u.mesh.routers dest i _ apart ∙ after.outputs i;
        counted = rw after.messages;
        kept = length-set u.mesh.routers dest _ ∙ after.counted;
      },
    )

send_along-IsDelivered :
    (m : MeshInterconnect) (message : InterconnectMessage) (node : ℕ) (route : List ℕ)
    → node < length m.routers
    → All (λ n. n < length m.routers) route
    → message.dest_id < length m.routers
    → message.hop_count + length route < u32_mod
    → (m' : MeshInterconnect) × (l : ℕ) × (send_along (node ∷ route) m message ≡ some (m', l))
      × IsDelivered m message (length route) m'
unfolding send_along
send_along-IsDelivered m message node route hn all hd fits =
    let (u, e, after) = forward-IsAfter route node (start m message) hn all fits in
    let (m', l, e', done) = deliver-IsDelivered (start m message) u (length route) after hd in
    (m', l, rw (e, send_along) e', done)

-- The number of links between two nodes of a mesh of `w` columns.
abbrev pub links : ℕ → ℕ → ℕ → ℕ
links w a b = distance (a % w) (b % w) + distance (a / w) (b / w)

-- A mesh all of whose rows are full.
pub record IsFullGrid (m : MeshInterconnect) (h : ℕ) : Type 0 where
  pub has_columns : 0 < m.mesh_width
  pub full : length m.routers ≡ m.mesh_width * h
  pub fits : m.mesh_width * h ≤ u32_mod

send_route :
    (m : MeshInterconnect) (message : InterconnectMessage) (h : ℕ) (route : List ℕ)
    → IsFullGrid m h
    → IsRoute m.mesh_width h message.source_id message.dest_id route
    → message.source_id < length m.routers
    → message.dest_id < length m.routers
    → message.hop_count + links m.mesh_width message.source_id message.dest_id < u32_mod
    → (m' : MeshInterconnect) × (l : ℕ) × (send_along route m message ≡ some (m', l))
      × IsDelivered m message (links m.mesh_width message.source_id message.dest_id) m'
send_route m message h [] grid is hs hd fits = absurd is
send_route m message h (node ∷ route) grid is hs hd fits =
    let (starts, path, count, all) = is in
    let delivered =
      send_along-IsDelivered m message node route
        (subst (λ n. n < length m.routers) (sym starts) hs)
        (subst (λ n. All (λ k. k < n) route) (sym grid.full) all) hd
        (subst (λ n. message.hop_count + n < u32_mod) (sym count) fits) in
    subst
      (λ n.
        (m' : MeshInterconnect) × (l : ℕ) × (send_along (node ∷ route) m message ≡ some (m', l))
        × IsDelivered m message n m')
      count delivered

-- On a full grid a message between two nodes goes through: it arrives at its destination behind
-- the messages that are there, with one hop counted for each link between the two, no other
-- output queue changes, and one message is counted.
pub send_message-IsDelivered :
    (m : MeshInterconnect) (message : InterconnectMessage) (h : ℕ)
    → IsFullGrid m h
    → message.source_id < length m.routers
    → message.dest_id < length m.routers
    → message.hop_count + links m.mesh_width message.source_id message.dest_id < u32_mod
    → (m' : MeshInterconnect) × (l : ℕ) × (send_message m message ≡ some (m', l))
      × IsDelivered m message (links m.mesh_width message.source_id message.dest_id) m'
unfolding send_message
send_message-IsDelivered m message h grid hs hd fits =
    send_route m message h _ grid
      (calculate_route-IsRoute m.mesh_width h grid.fits message.source_id message.dest_id
        grid.has_columns (subst (λ n. message.source_id < n) grid.full hs)
        (subst (λ n. message.dest_id < n) grid.full hd))
      hs hd fits
