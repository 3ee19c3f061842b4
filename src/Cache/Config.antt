-- ===== src/Cache/Config.antt =====
-- `CacheConfig` and its `validate` of src/core/cache.h. The numbers of a configuration are of type `int`, and
-- their product wraps around. A division by zero ends the program, and so does an assertion that fails.
use Prim.Native.Nat.{bit_and}
use cache_simulator.Prelude.{
  ℕ, zero, suc, ◌-◌, ◌*◌, ◌/◌, ◌%◌, Bool, true, false, ◌==◌, ltb, if◌then◌else◌, u32_mod,
}
use cache_simulator.Replacement.Policy.{ReplacementPolicy}

-- A signed number: `pos n` is n and `negsuc n` is -(n + 1).
pub data ℤ : Type 0 where
  pos : ℕ → ℤ
  negsuc : ℕ → ℤ

pub data WritePolicy : Type 0 where
  write_back write_through : WritePolicy

pub record CacheConfig : Type 0 where
  pub size : ℤ
  pub associativity : ℤ
  pub block_size : ℤ
  pub prefetch_enabled : Bool
  pub prefetch_distance : ℤ
  pub replacement_policy : ReplacementPolicy
  pub write_policy : WritePolicy

-- The messages of `CacheConfigError`.
pub data ConfigError : Type 0 where
  size_not_positive associativity_not_positive block_size_not_power size_not_divisible : ConfigError
  prefetch_distance_negative no_sets stride_table_not_positive : ConfigError

pub data Result {ℓ} (A : Type ℓ) : Type ℓ where
  ok : A → Result A
  throw : ConfigError → Result A
  abort : Result A

infixl 5 ◌>>=◌ ◌>>◌
abbrev pub ◌>>=◌ {ℓ κ} : {A : Type ℓ} {B : Type κ} → Result A → (A → Result B) → Result B
ok a >>= f = f a
throw e >>= f = throw e
abort >>= f = abort

abbrev pub ◌>>◌ {ℓ} : {B : Type ℓ} → Result (Unit {0}) → Result B → Result B
m >> k = m >>= λ _. k

-- The value of a positive number; what is not positive is refused.
abbrev pub positive : ℤ → ConfigError → Result ℕ
positive (pos zero) e = throw e
positive (pos (suc n)) e = ok (suc n)
positive (negsuc n) e = throw e

abbrev pub non_negative : ℤ → ConfigError → Result ℕ
non_negative (pos n) e = ok n
non_negative (negsuc n) e = throw e

abbrev pub guard : Bool → ConfigError → Result (Unit {0})
guard true e = ok tt
guard false e = throw e

-- A configuration that passed, as the numbers that the constructor of `Cache` computes with.
pub record Geometry : Type 0 where
  pub size : ℕ
  pub associativity : ℕ
  pub block_size : ℕ
  pub prefetch_distance : ℕ

-- The `int` of a number that may be too large for one.
unfoldable pub as_int : ℕ → ℤ
as_int n = let w = n % u32_mod in if ltb w 0x8000_0000 then pos w else negsuc (u32_mod - w - 1)

-- `associativity * blockSize`.
unfoldable pub set_bytes : ℕ → ℕ → ℤ
unfolding as_int
set_bytes associativity block_size = as_int (associativity * block_size)

abbrev pub negated : ℕ → ℤ
negated zero = pos zero
negated (suc n) = negsuc n

-- `/` and `%` of an `int` that is not negative: the quotient has the sign of the divisor, and the
-- remainder none.
abbrev pub quotient : ℕ → ℤ → Result ℤ
quotient n (pos zero) = abort
quotient n (pos (suc m)) = ok (pos (n / suc m))
quotient n (negsuc m) = ok (negated (n / suc m))

abbrev pub remainder : ℕ → ℤ → Result ℕ
remainder n (pos zero) = abort
remainder n (pos (suc m)) = ok (n % suc m)
remainder n (negsuc m) = ok (n % suc m)

unfoldable pub check : ℤ → ℤ → ℤ → ℤ → Result Geometry
unfolding set_bytes
check size associativity block_size prefetch_distance = do
  s ← positive size size_not_positive
  a ← positive associativity associativity_not_positive
  b ← positive block_size block_size_not_power
  guard (bit_and b (b - 1) == 0) block_size_not_power
  r ← remainder s (set_bytes a b)
  guard (r == 0) size_not_divisible
  d ← non_negative prefetch_distance prefetch_distance_negative
  ok (record { size = s; associativity = a; block_size = b; prefetch_distance = d })

unfoldable pub validate : CacheConfig → Result Geometry
unfolding check
validate c = check c.size c.associativity c.block_size c.prefetch_distance
