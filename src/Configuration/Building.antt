-- ===== src/Configuration/Building.antt =====
-- The configurations that `parseConfigString` of src/utils/config_utils.cpp accepts, and the constructors of
-- `Cache` and `MemoryHierarchy`.
use cache_simulator.Prelude.{
  ℕ, ◌≡◌, refl, sym, ap, subst, ◌⊎◌, Bool, List, ◌∷◌, Option, none, some, inl, inr, Bool-cases,
}
use cache_simulator.Trace.Text.{Text}
use cache_simulator.Replacement.Policy.{lru}
use cache_simulator.Cache.Config.{
  ℤ, pos, negsuc, CacheConfig, Geometry, ok, throw, abort, Result, no_sets, set_bytes, validate,
}
use cache_simulator.Cache.Create.{
  bind-ok, ok-injective, validate-Accepted, Overflows, set_bytes-negsuc, Outcome, create-Outcome,
}
use cache_simulator.Cache.State
use cache_simulator.Cache.State.{Cache}
use cache_simulator.Hierarchy.State.{MemoryHierarchyConfig, MemoryHierarchy}
use cache_simulator.Hierarchy.State as Hierarchy
use cache_simulator.Configuration.Numbers.{stoi, split, is_positive}
use cache_simulator.Configuration.State.{SimulatorConfig, new_config, cache_config}
use cache_simulator.Configuration.Validation.{ValidationError, validate_config}
use cache_simulator.Configuration.Quick.{
  ◌>>=◌, caught, distance_of, quick_l2, quick_levels, is_enabled, quick_hierarchy, validated,
  accept_valid, parse_tokens, parse_config_string,
}
use cache_simulator.Configuration.CommandLine.{
  accept, is_accepted, command_config, create_from_command_line,
}

bind-some {ℓ κ} :
    {A : Type ℓ} {B : Type κ} (o : Option A) (f : A → Option B) {b : B}
    → (o >>= f) ≡ some b
    → (a : A) × (o ≡ some a) × (f a ≡ some b)
bind-some none f e = absurd (cc)
bind-some (some a) f e = (a, refl, e)

some-injective {ℓ} : {A : Type ℓ} {a b : A} → some a ≡ some b → a ≡ b
some-injective e = cc

caught-ok {ℓ} : {A : Type ℓ} (r : Result A) {a : A} → caught r ≡ some a → r ≡ ok a
caught-ok (ok a) e = cc
caught-ok (throw x) e = absurd (cc)
caught-ok abort e = absurd (cc)

-- What the constructor of `CacheConfig` lets through validates.
new_config-validate :
    (s a b : ℤ) (enabled : Bool) (d : ℤ) {config : CacheConfig}
    → new_config s a b enabled d ≡ ok config
    → (g : Geometry) × (validate config ≡ ok g)
unfolding new_config
new_config-validate s a b enabled d e =
    let (g, v, same) = bind-ok (validate (cache_config s a b enabled d)) _ e in
    (g, subst (λ c. validate c ≡ ok g) (ok-injective same) v)

new_config-lru :
    (s a b : ℤ) (enabled : Bool) (d : ℤ) {config : CacheConfig}
    → new_config s a b enabled d ≡ ok config
    → config.replacement_policy ≡ lru
unfolding new_config cache_config
new_config-lru s a b enabled d e =
    let (g, v, same) = bind-ok (validate (cache_config s a b enabled d)) _ e in
    ap (λ c. c.replacement_policy) (sym (ok-injective same))

-- A level that validates, with the policy LRU.
abbrev IsLevel : CacheConfig → Type 0
IsLevel c = ((g : Geometry) × (validate c ≡ ok g)) × (c.replacement_policy ≡ lru)

-- A cache is built, or its constructor throws after an overflow.
abbrev Attempt : (ℕ → ℕ) → CacheConfig → Type 0
Attempt draws c =
    ((cache : Cache) × (State.create draws c ≡ ok cache))
    ⊎ (State.create draws c ≡ throw no_sets) × Overflows c

Outcome-Attempt :
    (draws : ℕ → ℕ) (c : CacheConfig) (g : Geometry) (m : ℤ)
    → c.replacement_policy ≡ lru
    → validate c ≡ ok g
    → set_bytes g.associativity g.block_size ≡ m
    → Outcome draws c g m
    → Attempt draws c
Outcome-Attempt draws c g (pos m) e v at (inl (policy, made, built, good)) = inl (_, built)
Outcome-Attempt draws c g (pos m) e v at (inr (plru_policy, odd, failed)) = absurd (cc)
Outcome-Attempt draws c g (negsuc k) e v at thrown =
    let a = validate-Accepted c g v in
    inr (
      thrown,
      (g.associativity, g.block_size, a.ways_lem.0, a.bytes_lem.0, set_bytes-negsuc _ _ k at),
    )

IsLevel-Attempt : (draws : ℕ → ℕ) (c : CacheConfig) → IsLevel c → Attempt draws c
IsLevel-Attempt draws c ((g, v), e) =
    Outcome-Attempt draws c g _ e v refl (create-Outcome draws c g v)

distance_lem : (c : CacheConfig) → IsLevel c → (n : ℕ) × (c.prefetch_distance ≡ pos n)
distance_lem c ((g, v), _) = (g.prefetch_distance, (validate-Accepted c g v).distance_lem)

abbrev Validated : Option CacheConfig → Type 0
Validated none = Unit
Validated (some config) = IsLevel config

quick_l2-Validated :
    (s a b : ℤ) (enabled : Bool) (d : ℤ) {l2 : Option CacheConfig}
    → quick_l2 s a b enabled d ≡ some l2
    → Validated l2
unfolding quick_l2
quick_l2-Validated s a b enabled d {l2} e = elim (Bool-cases (is_positive s)) [
  | inl p ↦
      let (config, made, last) = bind-some (caught (new_config s a b enabled d)) _ (rw p at e) in
      subst Validated (some-injective last) (
        new_config-validate s a b enabled d (caught-ok _ made),
        new_config-lru s a b enabled d (caught-ok _ made),
      )
  | inr n ↦ subst Validated (some-injective (rw n at e)) tt
]

-- The constructor of the hierarchy takes the configuration, or it throws since the product of the
-- associativity and the block size of a level is too large for an `int`.
abbrev pub SomeOverflows : MemoryHierarchyConfig → Type 0
SomeOverflows config =
    Overflows config.l1_config ⊎ (c : CacheConfig) × (config.l2_config ≡ some c) × Overflows c

abbrev pub IsBuilt : (ℕ → ℕ) → MemoryHierarchyConfig → Type 0
IsBuilt draws config =
    ((h : MemoryHierarchy) × (Hierarchy.create draws config ≡ ok h))
    ⊎ (Hierarchy.create draws config ≡ throw no_sets) × SomeOverflows config

-- The results that count as built.
abbrev Ends : {A : Type 0} → Type 0 → Result A → Type 0
Ends P (ok a) = Unit
Ends P (throw no_sets) = P
Ends P _ = ⊥

Ends-ok :
    {A : Type 0} (P : Type 0) (r : Result A)
    → Ends P r
    → ((a : A) × (r ≡ ok a)) ⊎ (r ≡ throw no_sets) × P
Ends-ok P (ok a) h = inl (a, refl)
Ends-ok P (throw no_sets) h = inr (refl, h)
Ends-ok P (throw _) h = elim h [ ]
Ends-ok P abort h = elim h [ ]

quick_hierarchy-Ends :
    (draws : ℕ → ℕ) (l1 : CacheConfig) (l2 : Option CacheConfig) (enabled : Bool)
    → IsLevel l1
    → Validated l2
    → Ends
        (SomeOverflows (quick_hierarchy l1 l2 enabled))
        (Hierarchy.create draws (quick_hierarchy l1 l2 enabled))
unfolding Hierarchy.create
quick_hierarchy-Ends draws l1 none enabled v w =
    let (n, d) = distance_lem l1 v in
    elim (IsLevel-Attempt draws l1 v) [
      | inl (_, e) ↦ rw (e, d) tt
      | inr (e, over) ↦ rw e (inl over)
    ]
quick_hierarchy-Ends draws l1 (some l2) enabled v w =
    let (n, d) = distance_lem l1 v in
    elim (IsLevel-Attempt draws l1 v) [
      | inr (e, over) ↦ rw e (inl over)
      | inl (_, e) ↦ elim (IsLevel-Attempt draws l2 w) [
        | inl (_, e') ↦ rw (e, d, e') tt
        | inr (e', over) ↦ rw (e, d, e') (inr (l2, refl, over))
      ]
    ]

quick_levels-IsBuilt :
    (draws : ℕ → ℕ) (s1 a1 s2 a2 b : ℤ) (enabled : Bool) (d : ℤ) {h : MemoryHierarchyConfig}
    → quick_levels s1 a1 s2 a2 b enabled d ≡ some h
    → IsBuilt draws h
unfolding quick_levels
quick_levels-IsBuilt draws s1 a1 s2 a2 b enabled d e =
    let (l1, m1, e1) = bind-some (caught (new_config s1 a1 b enabled d)) _ e in
    let (l2, m2, e2) = bind-some (quick_l2 s2 a2 b enabled d) _ e1 in
    subst (IsBuilt draws) (some-injective e2) (
      Ends-ok _ _ (
        quick_hierarchy-Ends draws l1 l2 enabled
          (
            new_config-validate s1 a1 b enabled d (caught-ok _ m1),
            new_config-lru s1 a1 b enabled d (caught-ok _ m1),
          )
          (quick_l2-Validated s2 a2 b enabled d m2)))

accept_valid-some :
    {A : Type 0} (a : A) (o : Option ValidationError) {b : A}
    → accept_valid a o ≡ some b
    → (a ≡ b) × (o ≡ none)
accept_valid-some a none e = (some-injective e, refl)
accept_valid-some a (some x) e = absurd (cc)

validated-some :
    {Double : Type 0} (h : MemoryHierarchyConfig) {config : SimulatorConfig Double}
    → validated h ≡ some config
    → (h ≡ config.hierarchy_config) × (validate_config config ≡ none)
unfolding validated
validated-some h e =
    let (same, valid) = accept_valid-some _ _ e in
    (ap (λ c. c.hierarchy_config) same, subst (λ c. validate_config c ≡ none) same valid)

-- A configuration passes the validation, and its hierarchy is built or throws after an overflow.
abbrev pub Buildable : {Double : Type 0} → (ℕ → ℕ) → SimulatorConfig Double → Type 0
Buildable draws config = (validate_config config ≡ none) × IsBuilt draws config.hierarchy_config

parse_tokens-Buildable :
    {Double : Type 0} (draws : ℕ → ℕ) (tokens : List Text) {config : SimulatorConfig Double}
    → parse_tokens tokens ≡ some config
    → Buildable draws config
unfolding parse_tokens
parse_tokens-Buildable draws (t0 ∷ t1 ∷ t2 ∷ t3 ∷ t4 ∷ t5 ∷ more) e =
    let (s1, _, e1) = bind-some (stoi t0) _ e in
    let (a1, _, e2) = bind-some (stoi t1) _ e1 in
    let (s2, _, e3) = bind-some (stoi t2) _ e2 in
    let (a2, _, e4) = bind-some (stoi t3) _ e3 in
    let (b, _, e5) = bind-some (stoi t4) _ e4 in
    let (d, _, e6) = bind-some (distance_of more) _ e5 in
    let (h, made, e7) = bind-some (quick_levels s1 a1 s2 a2 b (is_enabled t5) d) _ e6 in
    let (same, valid) = validated-some h e7 in
    (
      valid,
      subst (IsBuilt draws) same (quick_levels-IsBuilt draws s1 a1 s2 a2 b (is_enabled t5) d made),
    )
parse_tokens-Buildable draws _ e = absurd (cc)

-- Every configuration that the parser returns passes the validation of configurations, and the
-- constructor of the memory hierarchy accepts it: it throws only where, in a level, the product of the
-- associativity and the block size is 2 ^ 31 or more, and then that there are no sets.
pub parse_config_string-Buildable :
    {Double : Type 0} (draws : ℕ → ℕ) (cs : Text) {config : SimulatorConfig Double}
    → parse_config_string cs ≡ some config
    → Buildable draws config
unfolding parse_config_string
parse_config_string-Buildable draws cs e = parse_tokens-Buildable draws (split b':' cs) e

-- Whatever the arguments, a configuration that the command line gives is accepted by the constructor
-- of the memory hierarchy, less such an overflow.
pub create_from_command_line-IsBuilt :
    {Double : Type 0} (draws : ℕ → ℕ) (arguments : List Text) {config : SimulatorConfig Double}
    → create_from_command_line arguments ≡ some config
    → IsBuilt draws config.hierarchy_config
unfolding create_from_command_line command_config
create_from_command_line-IsBuilt draws (t1 ∷ t2 ∷ t3 ∷ t4 ∷ t5 ∷ t6 ∷ t7 ∷ more) e =
    let (b, _, e1) = bind-some (stoi t1) _ e in
    let (s1, _, e2) = bind-some (stoi t2) _ e1 in
    let (a1, _, e3) = bind-some (stoi t3) _ e2 in
    let (s2, _, e4) = bind-some (stoi t4) _ e3 in
    let (a2, _, e5) = bind-some (stoi t5) _ e4 in
    let (p, _, e6) = bind-some (stoi t6) _ e5 in
    let (d, _, e7) = bind-some (stoi t7) _ e6 in
    let (_, _, e8) = bind-some (accept (is_accepted b s1 a1 s2 a2 (is_positive p) d)) _ e7 in
    let (h, made, e9) = bind-some (quick_levels s1 a1 s2 a2 b (is_positive p) d) _ e8 in
    subst (IsBuilt draws) (ap (λ c. c.hierarchy_config) (some-injective e9))
      (quick_levels-IsBuilt draws s1 a1 s2 a2 b (is_positive p) d made)
create_from_command_line-IsBuilt draws _ e = absurd (cc)
