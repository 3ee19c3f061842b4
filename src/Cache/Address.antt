-- ===== src/Cache/Address.antt =====
-- The split of an address into a tag and a set index, and the address that a block is written back
-- to.
use native.Mathlib.Nat.{mod-eq_of_lt, div-add-mod', mul-div_cancel}
use cache_simulator.Prelude.{ℕ, ◌+◌, ◌-◌, ◌*◌, ◌/◌, ◌%◌, ◌<◌, ◌≡◌, ◌∙◌, arith, u32_mod}
use cache_simulator.Cache.State.{Cache}
use cache_simulator.Cache.Lookup.{tag_of, set_index_of, get_tag_and_set, victim_address}

-- The block number, put together again.
block_number : (c : Cache) (a : ℕ) → tag_of c a * c.num_sets + set_index_of c a ≡ a / c.block_size
block_number c a = div-add-mod' (a / c.block_size) c.num_sets

victim_address_base :
    (c : Cache) (a : ℕ)
    → a < u32_mod
    → victim_address c (tag_of c a) (set_index_of c a) ≡ a / c.block_size * c.block_size
unfolding victim_address
victim_address_base c a h =
    rw (block_number c a) (mod-eq_of_lt (omega (arith, div-add-mod' a c.block_size)))

-- A block is written back to the address of its first byte, and that address splits into the same
-- tag and set again: nothing wraps, since the block was installed for a `uint32_t` address.
pub victim_address-get_tag_and_set :
    (c : Cache) (a : ℕ)
    → a < u32_mod
    → 0 < c.block_size
    → let (tag, i) = get_tag_and_set c a in
      (victim_address c tag i ≡ a - a % c.block_size)
      × (get_tag_and_set c (victim_address c tag i) ≡ (tag, i))
unfolding get_tag_and_set
victim_address-get_tag_and_set c a h pos =
    let base = victim_address_base c a h in
    let number : a / c.block_size * c.block_size / c.block_size ≡ a / c.block_size =
      mul-div_cancel (a / c.block_size) pos in
    (base ∙ omega (arith, div-add-mod' a c.block_size), rw (base, number))
