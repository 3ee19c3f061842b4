-- ===== src/Replacement/Plru.antt =====
-- `PLRUPolicy` of src/core/replacement_policy.h: the bits of a complete binary tree, stored as a
-- heap, over a number of blocks that the constructor asserts to be a power of two.
pub mod Walk
use Prim.Native.Nat.{bit_and}
use cache_simulator.Prelude.{
  ℕ, zero, suc, ◌+◌, ◌-◌, ◌*◌, ◌/◌, ◌%◌, Bool, false, ◌&&◌, List, ltb, leb, ◌==◌, length, get_or,
  set, replicate, Option, none, some, if◌then◌else◌, map, first_valid,
}

pub record PlruPolicy : Type 0 where
  pub num_blocks : ℕ
  pub tree_bits : List Bool

-- `none` is the assertion that fails where the number is no power of two.
unfoldable pub create : ℕ → Option PlruPolicy
create n =
    if bit_and n (n - 1) == 0
    then some (record { num_blocks = n; tree_bits = replicate (n - 1) false })
    else none

unfoldable pub reset : PlruPolicy → PlruPolicy
reset p = record p { tree_bits = map (λ b. false) p.tree_bits }

-- The loop of `updateTreeBits` from `node` up to the root. Each round moves to a smaller node, so
-- `node` rounds are enough.
unfoldable pub climb : ℕ → ℕ → List Bool → List Bool
climb zero node bits = bits
climb (suc fuel) node bits =
    let parent = (node - 1) / 2 in
    let rest = climb fuel parent (set bits parent (node % 2 == 0)) in
    if ltb 0 node then rest else bits

unfoldable pub update_tree_bits : PlruPolicy → ℕ → PlruPolicy
unfolding climb
update_tree_bits p i =
    let leaf = i + (p.num_blocks - 1) in record p { tree_bits = climb leaf leaf p.tree_bits }

unfoldable pub on_access : PlruPolicy → ℕ → PlruPolicy
unfolding update_tree_bits
on_access p i = update_tree_bits p i

unfoldable pub on_install : PlruPolicy → ℕ → PlruPolicy
unfolding on_access
on_install p i = on_access p i

-- `for (int n = numBlocks_; n > 1; n >>= 1) ++numLevels`, where `n` rounds are enough.
unfoldable pub count_levels : ℕ → ℕ → ℕ
count_levels zero n = 0
count_levels (suc fuel) n =
    let rest = suc (count_levels fuel (n / 2)) in if ltb 1 n then rest else 0

-- The walk from `node` towards a leaf, one level in each round.
unfoldable pub descend : ℕ → List Bool → ℕ → ℕ
descend zero bits node = node
descend (suc levels) bits node =
    let child = if get_or bits node false then 2 * node + 2 else 2 * node + 1 in
    let rest = descend levels bits child in if leb (length bits) node then node else rest

-- A leaf left of the first one has no block: the source's index is then negative.
unfoldable pub select_victim : PlruPolicy → List Bool → ℕ
unfolding count_levels descend
select_victim p valid =
    let node = descend (count_levels p.num_blocks p.num_blocks) p.tree_bits 0 in
    let block = node - (p.num_blocks - 1) in
    if leb (p.num_blocks - 1) node && ltb block (length valid) && get_or valid block false
    then block
    else first_valid valid
