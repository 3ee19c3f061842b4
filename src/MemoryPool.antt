-- ===== src/MemoryPool.antt =====
-- `MemoryPool` of src/core/memory_pool.h, less the objects themselves: a pointer is a block and an index.
-- `none` is a read of `blocks_` out of its bounds, which the source leaves undefined. Sizes are 64 bits wide.
use cache_simulator.Prelude.{
  ℕ, ◌+◌, ◌-◌, ◌*◌, ◌%◌, ◌≤◌, ◌<◌, ◌≡◌, refl, ap, ◌⊎◌, inl, inr, Bool, true, Option, none, some,
  leb, ltb, if◌then◌else◌, Bool-cases, arith, u64_mod, add64,
}

-- `blocks` is the number of blocks.
pub record MemoryPool : Type 0 where
  pub blocks : ℕ
  pub pool_size : ℕ
  pub current_block : ℕ
  pub current_index : ℕ

unfoldable pub allocate_new_block : MemoryPool → MemoryPool
allocate_new_block p = record p {
  blocks = if leb p.blocks p.current_block then p.blocks + 1 else p.blocks;
  current_block = add64 p.current_block 1;
  current_index = 0;
}

unfoldable pub create : ℕ → MemoryPool
unfolding allocate_new_block
create pool_size =
    allocate_new_block
      (record { blocks = 0; pool_size = pool_size; current_block = 0; current_index = 0 })

pub record Pointer : Type 0 where
  pub block : ℕ
  pub index : ℕ

-- `n > poolSize_ - currentIndex_`, in unsigned arithmetic.
abbrev is_full : MemoryPool → ℕ → Bool
is_full p n = ltb ((p.pool_size + u64_mod - p.current_index) % u64_mod) n

-- The objects from the current index of the current block on.
unfoldable pub hand_out : MemoryPool → ℕ → Option (Pointer × MemoryPool)
hand_out p n =
    if ltb p.current_block p.blocks
    then some (
      record { block = p.current_block; index = p.current_index },
      record p { current_index = add64 p.current_index n },
    )
    else none

unfoldable pub allocate : MemoryPool → ℕ → Option (Pointer × MemoryPool)
unfolding allocate_new_block hand_out
allocate p n = hand_out (if is_full p n then allocate_new_block p else p) n

-- Nothing is given back before the pool is destroyed.
unfoldable pub deallocate : MemoryPool → Pointer → ℕ → MemoryPool
deallocate p pointer n = p

unfoldable pub reset : MemoryPool → MemoryPool
reset p = record p { current_block = 0; current_index = 0 }

unfoldable pub capacity : MemoryPool → ℕ
capacity p = p.blocks * p.pool_size % u64_mod

unfoldable pub size : MemoryPool → ℕ
size p = (p.current_block * p.pool_size + p.current_index) % u64_mod

pub record IsValid (p : MemoryPool) : Type 0 where
  pub sized : p.pool_size < u64_mod
  pub within : p.current_index ≤ p.pool_size
  pub few : p.blocks + 1 < u64_mod
  pub near : p.current_block ≤ p.blocks

-- Where the next free object of a pool stands: at `index` of `block`, or behind.
abbrev pub IsFree : MemoryPool → Pointer → Type 0
IsFree p pointer =
    (p.current_block < pointer.block)
    ⊎ ((pointer.block ≡ p.current_block) × (p.current_index ≤ pointer.index))

-- What a pool hands out for `n` objects.
pub record IsAllocated (p : MemoryPool) (n : ℕ) (pointer : Pointer) (q : MemoryPool) : Type 0 where
  pub in_block : pointer.block < q.blocks
  pub fits : pointer.index + n ≤ p.pool_size
  pub fresh : IsFree p pointer
  pub next_block : q.current_block ≡ pointer.block
  pub next_index : q.current_index ≡ pointer.index + n
  pub valid : IsValid q
  pub same_size : q.pool_size ≡ p.pool_size

hand_out-eq-some :
    (p : MemoryPool) (n : ℕ) {pointer : Pointer} {q : MemoryPool}
    → hand_out p n ≡ some (pointer, q)
    → (p.current_block < p.blocks)
      × (pointer ≡ record { block = p.current_block; index = p.current_index })
      × (q ≡ record p { current_index = add64 p.current_index n })
unfolding hand_out
hand_out-eq-some p n e = elim (Bool-cases (ltb p.current_block p.blocks)) [
  | inl inside ↦ (ground arith, ground arith, ground arith)
  | inr outside ↦ absurd (ground arith)
]

-- What it hands out where a block is too small: the start of the next block, whose end the objects pass.
pub record IsOversized (p : MemoryPool) (n : ℕ) (pointer : Pointer) (q : MemoryPool) : Type 0 where
  pub next : pointer ≡ record { block = p.current_block + 1; index = 0 }
  pub too_long : p.pool_size < pointer.index + n
  pub in_block : pointer.block < q.blocks
  pub past_end : q.current_index ≡ n % u64_mod

allocate_fitting :
    (p : MemoryPool) (n : ℕ) {pointer : Pointer} {q : MemoryPool}
    → IsValid p
    → n ≤ p.pool_size
    → allocate p n ≡ some (pointer, q)
    → IsAllocated p n pointer q
unfolding allocate allocate_new_block
allocate_fitting p n v h e = elim (Bool-cases (is_full p n)) [
  | inl full ↦
      let (inside, at, after) = hand_out-eq-some (allocate_new_block p) n (rw full at e) in
      rw (at, after)
        (record {
          in_block = inside;
          fits = omega arith;
          fresh = inl (ground arith);
          next_block = refl;
          next_index = ground arith;
          valid = record {
            sized = v.sized;
            within = ground arith;
            few = ground arith;
            near = ground arith;
          };
          same_size = refl;
        })
  | inr room ↦
      let (inside, at, after) = hand_out-eq-some p n (rw room at e) in
      rw (at, after)
        (record {
          in_block = inside;
          fits = ground arith;
          fresh = inr (refl, omega arith);
          next_block = refl;
          next_index = ground arith;
          valid = record { sized = v.sized; within = ground arith; few = v.few; near = v.near };
          same_size = refl;
        })
]

allocate-IsOversized :
    (p : MemoryPool) (n : ℕ) {pointer : Pointer} {q : MemoryPool}
    → IsValid p
    → p.pool_size < n
    → allocate p n ≡ some (pointer, q)
    → IsOversized p n pointer q
unfolding allocate allocate_new_block
allocate-IsOversized p n v h e =
    let full : is_full p n ≡ true = ground arith in
    let next_lem : add64 p.current_block 1 ≡ p.current_block + 1 = omega arith in
    let (inside, at, after) = hand_out-eq-some (allocate_new_block p) n (rw full at e) in
    rw (at, after)
      (record {
        next = ap (λ b. record { block = b; index = 0 }) next_lem;
        too_long = omega arith;
        in_block = inside;
        past_end = omega arith;
      })

-- An allocation from a valid pool that does not read out of bounds. Of no more objects than a block holds it
-- hands out room of that size within one block that the pool has, behind all that it handed out
-- since its last reset, and leaves the pool valid with that room taken. Of more it still hands out the
-- start of the next block, whose end they pass.
pub allocate-IsAllocated :
    (p : MemoryPool) (n : ℕ) {pointer : Pointer} {q : MemoryPool}
    → IsValid p
    → allocate p n ≡ some (pointer, q)
    → (n ≤ p.pool_size) × IsAllocated p n pointer q ⊎ (p.pool_size < n) × IsOversized p n pointer q
allocate-IsAllocated p n v e = elim (Bool-cases (leb n p.pool_size)) [
  | inl small ↦ let h : n ≤ p.pool_size = ground arith in inl (h, allocate_fitting p n v h e)
  | inr large ↦ let h : p.pool_size < n = ground arith in inr (h, allocate-IsOversized p n v h e)
]

-- In a new pool, of whatever size, the first allocation reads out of bounds.
pub create-allocate : (pool_size n : ℕ) → allocate (create pool_size) n ≡ none
unfolding create allocate allocate_new_block hand_out
create-allocate pool_size n = ground arith
