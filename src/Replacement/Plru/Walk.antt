-- ===== src/Replacement/Plru/Walk.antt =====
-- The walk of `selectVictim` after `updateTreeBits`.
use native.Mathlib.Nat.{pow-suc, pow-zero}
use cache_simulator.Prelude.{
  ℕ, zero, suc, ◌+◌, ◌-◌, ◌*◌, ◌/◌, ◌%◌, ◌^◌, ◌≤◌, ◌<◌, ◌≡◌, refl, sym, ap, ◌∙◌, Bool, true, false,
  List, arith, leb, ◌==◌, length, get_or, set, replicate, if◌then◌else◌, length-set,
  get_or-set_self, get_or-set_ne, get_or-replicate, length-replicate,
}
use cache_simulator.Replacement.Plru.{
  PlruPolicy, climb, count_levels, descend, on_access, select_victim,
}

length-climb : (f node : ℕ) (bits : List Bool) → length (climb f node bits) ≡ length bits
unfolding climb
length-climb zero node bits = refl
length-climb (suc f) node bits = ground (
  arith,
  length-climb f ((node - 1) / 2) (set bits ((node - 1) / 2) (node % 2 == 0)),
  length-set bits ((node - 1) / 2) (node % 2 == 0),
)

pow_pos : (d : ℕ) → 0 < 2 ^ d
pow_pos zero = omega (arith, pow-zero 2)
pow_pos (suc d) = omega (arith, pow-suc 2 d, pow_pos d)

-- The climb writes above its node only.
climb_below :
    (f node q : ℕ) (bits : List Bool)
    → node ≤ q
    → get_or (climb f node bits) q false ≡ get_or bits q false
unfolding climb
climb_below zero node q bits h = refl
climb_below (suc f) node q bits h = ground (
  arith,
  climb_below f ((node - 1) / 2) q (set bits ((node - 1) / 2) (node % 2 == 0)),
  get_or-set_ne bits ((node - 1) / 2) q (node % 2 == 0) false,
)

-- One round of the walk.
child_of : List Bool → ℕ → ℕ
child_of bits node =
    if leb (length bits) node
    then node
    else (if get_or bits node false then 2 * node + 2 else 2 * node + 1)

descend_out : (d node : ℕ) (bits : List Bool) → length bits ≤ node → descend d bits node ≡ node
unfolding descend
descend_out zero node bits h = refl
descend_out (suc d) node bits h = ground arith

-- The first round, with the early exit gone: a node out of range stays where it is.
descend-suc :
    (d node : ℕ) (bits : List Bool)
    → descend (suc d) bits node ≡ descend d bits (child_of bits node)
unfolding descend child_of
descend-suc d node bits = ground (arith, descend_out d node bits)

-- The last round instead of the first.
descend_snoc :
    (d node : ℕ) (bits : List Bool)
    → descend (suc d) bits node ≡ child_of bits (descend d bits node)
descend_snoc zero node bits = descend-suc zero node bits ∙ (unfold descend in refl)
descend_snoc (suc d) node bits =
    descend-suc (suc d) node bits
    ∙ descend_snoc d (child_of bits node) bits
    ∙ ap (child_of bits) (sym (descend-suc d node bits))

climb-suc :
    (d f node : ℕ) (bits : List Bool)
    → 0 < node
    → descend d (climb f ((node - 1) / 2) (set bits ((node - 1) / 2) (node % 2 == 0))) 0 ≡ node
    → descend d (climb (suc f) node bits) 0 ≡ node
unfolding climb
climb-suc d f node bits h e = ground arith

-- After the climb the bit of the parent leads to the node that was climbed from.
child_of-climb :
    (f node : ℕ) (bits : List Bool)
    → 0 < node
    → (node - 1) / 2 < length bits
    → child_of
        (climb f ((node - 1) / 2) (set bits ((node - 1) / 2) (node % 2 == 0)))
        ((node - 1) / 2)
      ≡ node
unfolding child_of
child_of-climb f node bits pos h =
    let p = (node - 1) / 2 in
    let marked = set bits p (node % 2 == 0) in
    ground (
      arith,
      climb_below f p p marked,
      length-climb f p marked,
      length-set bits p (node % 2 == 0),
      get_or-set_self bits p (node % 2 == 0) false h,
    )

-- A node at depth `d` has its one-based index between two powers of two.
-- After the climb from a node the walk from the root arrives at that node.
descend-climb :
    (d f node : ℕ) (bits : List Bool)
    → 2 ^ d ≤ node + 1
    → node + 1 < 2 ^ suc d
    → 2 ^ d ≤ length bits + 1
    → node ≤ f
    → descend d (climb f node bits) 0 ≡ node
descend-climb zero f node bits lo hi len fuel =
    unfold descend in omega (arith, pow-suc 2 0, pow-zero 2)
descend-climb (suc d) zero node bits lo hi len fuel = absurd (omega (arith, pow-suc 2 d, pow_pos d))
descend-climb (suc d) (suc f) node bits lo hi len fuel =
    let p = (node - 1) / 2 in
    let right = node % 2 == 0 in
    let marked = set bits p right in
    let two : 2 ^ suc d ≡ 2 ^ d * 2 = pow-suc 2 d in
    let four : 2 ^ suc (suc d) ≡ 2 ^ suc d * 2 = pow-suc 2 (suc d) in
    let pos = pow_pos d in
    let up : descend d (climb f p marked) 0 ≡ p =
      descend-climb d f p marked (omega arith) (omega arith)
        (omega (arith, length-set bits p right)) (omega arith) in
    climb-suc (suc d) f node bits (omega arith) (
      descend_snoc d 0 (climb f p marked)
      ∙ ap (child_of (climb f p marked)) up
      ∙ child_of-climb f node bits (omega arith) (omega arith))

count_levels_pow : (k f : ℕ) → k ≤ f → count_levels f (2 ^ k) ≡ k
unfolding count_levels
count_levels_pow zero zero h = refl
count_levels_pow zero (suc f) h = ground (arith, pow-zero 2)
count_levels_pow (suc k) zero h = absurd (omega arith)
count_levels_pow (suc k) (suc f) h =
    let two : 2 ^ suc k ≡ 2 ^ k * 2 = pow-suc 2 k in
    let half : 2 ^ suc k / 2 ≡ 2 ^ k = omega arith in
    let pos = pow_pos k in ground (arith, count_levels_pow k f, half)

le-pow : (k : ℕ) → k ≤ 2 ^ k
le-pow zero = omega arith
le-pow (suc k) = omega (arith, le-pow k, pow-suc 2 k, pow_pos k)

-- The tree over 2 ^ k blocks has 2 ^ k - 1 bits. Whatever they are, an access of a block makes that
-- same block the next victim, so the policy evicts the most recently used block.
pub select_victim-on_access :
    (k i : ℕ) (bits : List Bool)
    → i < 2 ^ k
    → length bits ≡ 2 ^ k - 1
    → let p : PlruPolicy = record { num_blocks = 2 ^ k; tree_bits = bits } in
      select_victim (on_access p i) (replicate (2 ^ k) true) ≡ i
unfolding on_access select_victim
select_victim-on_access k i bits h len =
    let n = 2 ^ k in
    let pos = pow_pos k in
    let leaf = i + (n - 1) in
    let walk : descend k (climb leaf leaf bits) 0 ≡ leaf =
      descend-climb k leaf leaf bits (omega arith) (omega (arith, pow-suc 2 k)) (omega arith)
        (omega arith) in
    ground (
      arith,
      walk,
      count_levels_pow k n (le-pow k),
      get_or-replicate n i true false h,
      length-replicate n true,
    )
