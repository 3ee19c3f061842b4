-- ===== src/WritePolicy/Policies.antt =====
-- The four write policies of src/core/write_policy.h and src/core/write_policy.cpp. The next level is an optional
-- state `N` with its write access `write`, a call of `nextLevel->access` whose result is dropped.
use cache_simulator.Prelude.{ℕ, Bool, true, false, Option, none, some}

pub data WriteAllocationPolicy : Type 0 where
  write_allocate no_write_allocate : WriteAllocationPolicy

pub data WriteUpdatePolicy : Type 0 where
  write_back write_through : WriteUpdatePolicy

pub data WritePolicy : Type 0 where
  write_through_policy write_through_no_allocate_policy : WritePolicy
  write_back_policy write_back_no_allocate_policy : WritePolicy

-- `WritePolicyFactory::create`
unfoldable pub create : WriteUpdatePolicy → WriteAllocationPolicy → WritePolicy
create write_through write_allocate = write_through_policy
create write_through no_write_allocate = write_through_no_allocate_policy
create write_back write_allocate = write_back_policy
create write_back no_write_allocate = write_back_no_allocate_policy

unfoldable pub requires_writeback : WritePolicy → Bool
requires_writeback write_through_policy = false
requires_writeback write_through_no_allocate_policy = false
requires_writeback write_back_policy = true
requires_writeback write_back_no_allocate_policy = true

unfoldable pub requires_allocation : WritePolicy → Bool
requires_allocation write_through_policy = true
requires_allocation write_through_no_allocate_policy = false
requires_allocation write_back_policy = true
requires_allocation write_back_no_allocate_policy = false

module _ {ℓ} {N : Type ℓ} (write : N → ℕ → N) where
  -- The number of writes performed, and the next level afterwards.
  unfoldable pub handle_write : WritePolicy → ℕ → Option N → Bool → ℕ × Option N
  handle_write write_through_policy address (some next) hit = (2, some (write next address))
  handle_write write_through_policy address none hit = (1, none)
  handle_write write_through_no_allocate_policy address (some next) true =
      (2, some (write next address))
  handle_write write_through_no_allocate_policy address none true = (1, none)
  handle_write write_through_no_allocate_policy address (some next) false =
      (1, some (write next address))
  handle_write write_through_no_allocate_policy address none false = (0, none)
  handle_write write_back_policy address next hit = (1, next)
  handle_write write_back_no_allocate_policy address next true = (1, next)
  handle_write write_back_no_allocate_policy address (some next) false =
      (1, some (write next address))
  handle_write write_back_no_allocate_policy address none false = (0, none)
