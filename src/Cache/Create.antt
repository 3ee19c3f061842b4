-- ===== src/Cache/Create.antt =====
-- The constructor of a cache: what it refuses, and the cache that it builds.
use Prim.Native.Nat.{bit_and}
use native.Mathlib.Nat.{div-add-mod'}
use cache_simulator.Prelude.{
  Bool, true, false, ◌==◌, ==_iff, subst, ◌≤◌, ◌≢◌, some, none, Option-cases, ◌⊎◌, inl, inr, ℕ,
  zero, suc, ◌*◌, ◌/◌, ◌<◌, ◌≡◌, refl, ap, [], arith, get_or, replicate, length-replicate,
  get_or-replicate, ◌%◌, ◌-◌,
}
use cache_simulator.Cache.Config.{
  CacheConfig, Geometry, Result, ok, throw, abort, ◌>>=◌, ConfigError, positive, negated,
  non_negative, guard, size_not_positive, associativity_not_positive, block_size_not_power,
  size_not_divisible, prefetch_distance_negative, validate, pos, negsuc, check, ℤ, set_bytes,
  as_int, remainder, no_sets,
}
use cache_simulator.Replacement.Policy.{Policy, ReplacementPolicy, plru}
use cache_simulator.Replacement.Policy as Policies
use cache_simulator.Cache.State.{empty_block, build, create}
use cache_simulator.Cache.Lookup.{holds}
use cache_simulator.Cache.Shape.{WellFormed}

-- Reading past the end gives the same empty block as reading inside.
get_or-empty : (n j : ℕ) → get_or (replicate n empty_block) j empty_block ≡ empty_block
get_or-empty zero j = refl
get_or-empty (suc n) zero = refl
get_or-empty (suc n) (suc j) = get_or-empty n j

pub build-WellFormed :
    (config : CacheConfig) (g : Geometry) (n : ℕ) (policy : Policy)
    → 0 < g.associativity
    → 0 < g.block_size
    → 0 < n
    → WellFormed (build config g n policy)
unfolding build
build-WellFormed config g n policy ways bytes sets =
    let empty_set = replicate g.associativity empty_block in
    record {
      some_sets = sets;
      some_ways = ways;
      some_bytes = bytes;
      set_count = length-replicate n empty_set;
      policy_count = length-replicate n policy;
      ways = λ i hi.
          rw (get_or-replicate n i empty_set [] hi) (length-replicate g.associativity empty_block);
      unique = λ i hi t j k hj hk. absurd (
          cc (
            ap (holds t) (get_or-empty g.associativity j),
            rw (get_or-replicate n i empty_set [] hi) at hj,
          ));
    }

-- What the validation reads from the numbers of a configuration.
pub record Accepted (size ways bytes distance : ℤ) (g : Geometry) : Type 0 where
  pub size_lem : (size ≡ pos g.size) × (0 < g.size)
  pub ways_lem : (ways ≡ pos g.associativity) × (0 < g.associativity)
  pub bytes_lem : (bytes ≡ pos g.block_size) × (0 < g.block_size)
  pub divides : remainder g.size (set_bytes g.associativity g.block_size) ≡ ok 0
  pub distance_lem : distance ≡ pos g.prefetch_distance

-- A chain of results that ends well has gone well in each of its steps.
pub bind-ok {ℓ κ} :
    {A : Type ℓ} {B : Type κ} (r : Result A) (f : A → Result B) {b : B}
    → (r >>= f) ≡ ok b
    → (a : A) × (r ≡ ok a) × (f a ≡ ok b)
bind-ok (ok a) f e = (a, refl, e)
bind-ok (throw x) f e = absurd (cc)
bind-ok abort f e = absurd (cc)

pub ok-injective {ℓ} : {A : Type ℓ} {a b : A} → ok a ≡ ok b → a ≡ b
ok-injective e = cc

positive-ok : (z : ℤ) (x : ConfigError) {n : ℕ} → positive z x ≡ ok n → (z ≡ pos n) × (0 < n)
positive-ok (pos zero) x e = absurd (cc)
positive-ok (pos (suc n)) x e = ground arith
positive-ok (negsuc n) x e = absurd (cc)

non_negative-ok : (z : ℤ) (x : ConfigError) {n : ℕ} → non_negative z x ≡ ok n → z ≡ pos n
non_negative-ok (pos n) x e = ground arith
non_negative-ok (negsuc n) x e = absurd (cc)

positive-pos : (n : ℕ) (x : ConfigError) → 0 < n → positive (pos n) x ≡ ok n
positive-pos zero x h = absurd (omega arith)
positive-pos (suc n) x h = refl

positive-negated : (n : ℕ) (x : ConfigError) → positive (negated n) x ≡ throw x
positive-negated zero x = refl
positive-negated (suc n) x = refl

guard-ok : (b : Bool) (x : ConfigError) → guard b x ≡ ok tt → b ≡ true
guard-ok true x e = refl
guard-ok false x e = absurd (cc)

pub validate-Accepted :
    (c : CacheConfig) (g : Geometry)
    → validate c ≡ ok g
    → Accepted c.size c.associativity c.block_size c.prefetch_distance g
unfolding validate check
validate-Accepted c g e =
    let (s, s_lem, e1) = bind-ok (positive c.size size_not_positive) _ e in
    let (a, a_lem, e2) = bind-ok (positive c.associativity associativity_not_positive) _ e1 in
    let (b, b_lem, e3) = bind-ok (positive c.block_size block_size_not_power) _ e2 in
    let (_, _, e4) = bind-ok (guard (bit_and b (b - 1) == 0) block_size_not_power) _ e3 in
    let (r, r_lem, e5) = bind-ok (remainder s (set_bytes a b)) _ e4 in
    let (_, none_left, e6) = bind-ok (guard (r == 0) size_not_divisible) _ e5 in
    let (d, d_lem, e7) =
      bind-ok (non_negative c.prefetch_distance prefetch_distance_negative) _ e6 in
    let none_left' : r ≡ 0 = (==_iff r 0).0 (guard-ok (r == 0) size_not_divisible none_left) in
    subst (Accepted c.size c.associativity c.block_size c.prefetch_distance) (ok-injective e7)
      (record {
        size_lem = positive-ok c.size size_not_positive s_lem;
        ways_lem = positive-ok c.associativity associativity_not_positive a_lem;
        bytes_lem = positive-ok c.block_size block_size_not_power b_lem;
        divides = subst (λ n. remainder s (set_bytes a b) ≡ ok n) none_left' r_lem;
        distance_lem = non_negative-ok c.prefetch_distance prefetch_distance_negative d_lem;
      })

-- The product of the associativity and the block size is too large for an `int`.
abbrev pub Overflows : CacheConfig → Type 0
Overflows c =
    (a : ℕ) × (b : ℕ) × (c.associativity ≡ pos a) × (c.block_size ≡ pos b) × (0x8000_0000 ≤ a * b)

pub set_bytes-negsuc : (a b k : ℕ) → set_bytes a b ≡ negsuc k → 0x8000_0000 ≤ a * b
unfolding set_bytes as_int
set_bytes-negsuc a b k e = ground arith

quotient_pos : (s k : ℕ) → 0 < s → s % k ≡ 0 → 0 < s / k
quotient_pos s k some_bytes e = go (s / k) refl
  where
    go : (q : ℕ) → s / k ≡ q → 0 < s / k
    go zero h = absurd (omega (arith, div-add-mod' s k, ap (λ x. x * k) h))
    go (suc q) h = omega arith

-- What the constructor does with a configuration that passed, by the bytes `m` of a set, as an `int`.
abbrev pub Outcome : (ℕ → ℕ) → CacheConfig → Geometry → ℤ → Type 0
Outcome draws config g (pos m) =
    ((policy : Policy) × (Policies.create draws config.replacement_policy g.associativity
        ≡ some policy)
      × (create draws config ≡ ok (build config g (g.size / m) policy))
      × WellFormed (build config g (g.size / m) policy))
    ⊎ (config.replacement_policy ≡ plru)
      × (bit_and g.associativity (g.associativity - 1) ≢ 0)
      × (create draws config ≡ abort)
Outcome draws config g (negsuc k) = create draws config ≡ throw no_sets

plru-abort :
    (draws : ℕ → ℕ) (kind : ReplacementPolicy) (n : ℕ)
    → Policies.create draws kind n ≡ none
    → (kind ≡ plru) × (bit_and n (n - 1) ≢ 0)
unfolding Policies.create
plru-abort draws plru n e = (refl, λ z. absurd (ground arith))
plru-abort draws _ n e = absurd (cc)

module _ (draws : ℕ → ℕ) (config : CacheConfig) (g : Geometry)
    (passed : validate config ≡ ok g) where
  create-Outcome_at :
      (m : ℤ) → set_bytes g.associativity g.block_size ≡ m → Outcome draws config g m
  unfolding create
  create-Outcome_at (pos zero) e =
      let a = validate-Accepted config g passed in absurd (cc (ap (remainder g.size) e, a.divides))
  create-Outcome_at (negsuc k) e =
      rw (create, passed, e, positive-negated (g.size / suc k) no_sets) refl
  create-Outcome_at (pos (suc m)) e =
      let a = validate-Accepted config g passed in
      let left : g.size % suc m ≡ 0 =
        ok-injective (subst (λ z. remainder g.size z ≡ ok 0) e a.divides) in
      let sets = quotient_pos g.size (suc m) a.size_lem.1 left in
      elim (Option-cases (Policies.create draws config.replacement_policy g.associativity)) [
        | inl failed ↦
            let (kind, odd) = plru-abort draws config.replacement_policy g.associativity failed in
            inr (
              kind,
              odd,
              rw (create, passed, e, positive-pos (g.size / suc m) no_sets sets, failed) refl,
            )
        | inr (policy, made) ↦ inl (
          policy,
          made,
          rw (create, passed, e, positive-pos (g.size / suc m) no_sets sets, made) refl,
          build-WellFormed config g (g.size / suc m) policy a.ways_lem.1 a.bytes_lem.1 sets,
        )
      ]

-- What the constructor makes of a configuration that validates, whose product of associativity and
-- block size is, as an `int`, a number `m`. Where `m` is positive it builds a well-formed cache of the size over
-- `m` sets, and only a PLRU policy over a number of ways that is no power of two fails its assertion
-- instead. Where `m` is negative, after an overflow, it throws since there are no sets.
pub create-Outcome :
    (draws : ℕ → ℕ) (config : CacheConfig) (g : Geometry)
    → validate config ≡ ok g
    → Outcome draws config g (set_bytes g.associativity g.block_size)
create-Outcome draws config g passed = create-Outcome_at draws config g passed _ refl
