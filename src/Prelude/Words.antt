-- ===== src/Prelude/Words.antt =====
-- The fixed-width unsigned integers of the source, as numbers kept below a modulus.
use Prim.Native.Nat.{ℕ, ◌+◌, ◌-◌, ◌*◌, ◌%◌}

-- The number of values of `uint32_t`.
abbrev pub u32_mod : ℕ
u32_mod = 0x1_0000_0000

-- The number of values of `uint64_t`.
abbrev pub u64_mod : ℕ
u64_mod = 0x1_0000_0000_0000_0000

-- Arithmetic of `uint32_t` and `uint64_t`. Subtraction adds the modulus first.
abbrev pub add32 : ℕ → ℕ → ℕ
add32 a b = (a + b) % u32_mod

abbrev pub sub32 : ℕ → ℕ → ℕ
sub32 a b = (a + u32_mod - b) % u32_mod

abbrev pub mul32 : ℕ → ℕ → ℕ
mul32 a b = a * b % u32_mod

abbrev pub add64 : ℕ → ℕ → ℕ
add64 a b = (a + b) % u64_mod
