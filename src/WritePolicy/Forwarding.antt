-- ===== src/WritePolicy/Forwarding.antt =====
-- Which writes reach the next level.
use cache_simulator.Prelude.{
  ℕ, ◌+◌, ◌≡◌, refl, Bool, true, false, not, ◌&&◌, ◌||◌, Option, none, some, if◌then◌else◌,
}
use cache_simulator.WritePolicy.Policies.{
  WritePolicy, write_through_policy, write_through_no_allocate_policy, write_back_policy,
  write_back_no_allocate_policy, requires_writeback, requires_allocation, handle_write,
}

-- Write-through sends every write on, and a policy without allocation sends on what misses.
abbrev pub forwards : WritePolicy → Bool → Bool
forwards p hit = not (requires_writeback p) || (not hit && not (requires_allocation p))

-- The cache itself is written on a hit and where the miss allocates.
abbrev pub writes_here : WritePolicy → Bool → Bool
writes_here p hit = hit || requires_allocation p

abbrev pub one : Bool → ℕ
one true = 1
one false = 0

module _ {ℓ} {N : Type ℓ} (write : N → ℕ → N) where
  abbrev pub sent : Bool → ℕ → Option N → ℕ × Option N
  sent forward address none = (0, none)
  sent forward address (some next) =
      if forward then (1, some (write next address)) else (0, some next)

  -- For each of the four policies: the next level is written exactly where the policy forwards the
  -- write, and the number returned is that of the levels written.
  pub handle_write-forwards :
      (p : WritePolicy) (address : ℕ) (next : Option N) (hit : Bool)
      → let (below, next') = sent (forwards p hit) address next in
        handle_write write p address next hit ≡ (one (writes_here p hit) + below, next')
  unfolding requires_writeback requires_allocation handle_write
  handle_write-forwards write_through_policy address none true = refl
  handle_write-forwards write_through_policy address none false = refl
  handle_write-forwards write_through_policy address (some next) true = refl
  handle_write-forwards write_through_policy address (some next) false = refl
  handle_write-forwards write_through_no_allocate_policy address none true = refl
  handle_write-forwards write_through_no_allocate_policy address none false = refl
  handle_write-forwards write_through_no_allocate_policy address (some next) true = refl
  handle_write-forwards write_through_no_allocate_policy address (some next) false = refl
  handle_write-forwards write_back_policy address none true = refl
  handle_write-forwards write_back_policy address none false = refl
  handle_write-forwards write_back_policy address (some next) true = refl
  handle_write-forwards write_back_policy address (some next) false = refl
  handle_write-forwards write_back_no_allocate_policy address none true = refl
  handle_write-forwards write_back_no_allocate_policy address none false = refl
  handle_write-forwards write_back_no_allocate_policy address (some next) true = refl
  handle_write-forwards write_back_no_allocate_policy address (some next) false = refl
