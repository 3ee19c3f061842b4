-- ===== src/Configuration/Changes.antt =====
-- What `compareConfigs` of src/utils/config_utils.cpp finds after one parameter of a configuration is set.
use cache_simulator.Prelude.{
  ◌≡◌, refl, Bool, true, false, List, [], ◌∷◌, ◌++◌, Option, none, some, if◌then◌else◌, arith, ap,
  ◌∙◌,
}
use cache_simulator.Cache.Config.{ℤ, pos, negsuc, CacheConfig}
use cache_simulator.Hierarchy.State.{MemoryHierarchyConfig}
use cache_simulator.Configuration.Numbers.{is_equal, is_positive}
use cache_simulator.Configuration.State.{ParameterValue, int_value, bool_value}
use cache_simulator.Configuration.Comparison.{
  Difference, l1_sizes, l1_associativities, block_sizes, prefetch_distances, l2_sizes,
  l2_associativities, prefetching, l2_presence, stride_prediction, adaptive_prefetching, is_same,
  int_difference, bool_difference, compare_l1, compare_l2, compare_prefetching, compare_hierarchies,
}
use cache_simulator.Configuration.Sweep.{
  Parameter, l1_size, l1_assoc, l2_size, l2_assoc, block_size, prefetch, prefetch_distance,
  change_l1, change_l2, set_block_size, set_prefetching, set_distance, with_size,
  with_associativity, with_block_size, with_prefetching, with_distance, change_option,
}

-- Where L2 is made, resized, or removed.
abbrev pub l2_size_difference : Option CacheConfig → ℤ → List Difference
l2_size_difference none n = if is_positive n then l2_presence false true ∷ [] else []
l2_size_difference (some l2) n =
    if is_positive n then int_difference l2_sizes l2.size n else l2_presence true false ∷ []

abbrev l2_associativity_difference : Option CacheConfig → ℤ → List Difference
l2_associativity_difference none n = []
l2_associativity_difference (some l2) n = int_difference l2_associativities l2.associativity n

-- The difference between a hierarchy and the one with the parameter set: none but of this parameter, and
-- to this value.
unfoldable pub difference_of :
    {Double : Type 0} → Parameter → ParameterValue Double → MemoryHierarchyConfig → List Difference
difference_of l1_size (int_value n) h = int_difference l1_sizes h.l1_config.size n
difference_of l1_assoc (int_value n) h =
    int_difference l1_associativities h.l1_config.associativity n
difference_of l2_size (int_value n) h = l2_size_difference h.l2_config n
difference_of l2_assoc (int_value n) h = l2_associativity_difference h.l2_config n
difference_of block_size (int_value n) h = int_difference block_sizes h.l1_config.block_size n
difference_of prefetch (bool_value b) h =
    bool_difference prefetching h.l1_config.prefetch_enabled b
    ++ (bool_difference stride_prediction h.use_stride_prediction b
        ++ bool_difference adaptive_prefetching h.use_adaptive_prefetching b)
difference_of prefetch_distance (int_value n) h =
    int_difference prefetch_distances h.l1_config.prefetch_distance n
difference_of _ _ h = []

pub is_equal_refl : (n : ℤ) → is_equal n n ≡ true
is_equal_refl (pos n) = ground arith
is_equal_refl (negsuc n) = ground arith

is_same_refl : (b : Bool) → is_same b b ≡ true
is_same_refl true = refl
is_same_refl false = refl

pub int_same : (kind : ℤ → ℤ → Difference) (n : ℤ) → int_difference kind n n ≡ []
int_same kind n = rw (is_equal_refl n) refl

bool_same : (kind : Bool → Bool → Difference) (b : Bool) → bool_difference kind b b ≡ []
bool_same kind b = rw (is_same_refl b) refl

pub append_empty {ℓ} : {A : Type ℓ} (xs : List A) → xs ++ [] ≡ xs
append_empty [] = refl
append_empty (x ∷ xs) = ap (x ∷◌) (append_empty xs)

compare_l2_same : (o : Option CacheConfig) → compare_l2 o o ≡ []
unfolding compare_l2
compare_l2_same none = refl
compare_l2_same (some c) =
    rw (int_same l2_sizes c.size, int_same l2_associativities c.associativity) refl

compare_l1_same : (c : CacheConfig) → compare_l1 c c ≡ []
unfolding compare_l1
compare_l1_same c = simp (int_same, bool_same)

with_size_lem :
    (c : CacheConfig) (n : ℤ) → compare_l1 c (with_size n c) ≡ int_difference l1_sizes c.size n
unfolding compare_l1
with_size_lem c n = simp (int_same, bool_same, append_empty)

with_associativity_lem :
    (c : CacheConfig) (n : ℤ)
    → compare_l1 c (with_associativity n c) ≡ int_difference l1_associativities c.associativity n
unfolding compare_l1
with_associativity_lem c n = simp (int_same, bool_same, append_empty)

with_block_size_lem :
    (c : CacheConfig) (n : ℤ)
    → compare_l1 c (with_block_size n c) ≡ int_difference block_sizes c.block_size n
unfolding compare_l1
with_block_size_lem c n = simp (int_same, bool_same, append_empty)

with_prefetching_lem :
    (c : CacheConfig) (b : Bool)
    → compare_l1 c (with_prefetching b c) ≡ bool_difference prefetching c.prefetch_enabled b
unfolding compare_l1
with_prefetching_lem c b = simp (int_same, bool_same, append_empty)

with_distance_lem :
    (c : CacheConfig) (n : ℤ)
    → compare_l1 c (with_distance n c) ≡ int_difference prefetch_distances c.prefetch_distance n
unfolding compare_l1
with_distance_lem c n = simp (int_same, bool_same, append_empty)

strategies_same : (h : MemoryHierarchyConfig) → compare_prefetching h h ≡ []
unfolding compare_prefetching
strategies_same h = simp bool_same

-- A change of L1 that leaves the size and the associativity of L2.
compare_parts :
    (a b : MemoryHierarchyConfig) {ds es fs : List Difference}
    → compare_l1 a.l1_config b.l1_config ≡ ds
    → compare_l2 a.l2_config b.l2_config ≡ es
    → compare_prefetching a b ≡ fs
    → compare_hierarchies a b ≡ ds ++ (es ++ fs)
unfolding compare_hierarchies
compare_parts a b p q r = rw (p, q, r) refl

pub l1_size_changed :
    (h : MemoryHierarchyConfig) (n : ℤ)
    → compare_hierarchies h (change_l1 (with_size n) h) ≡ int_difference l1_sizes h.l1_config.size n
unfolding compare_prefetching
l1_size_changed h n =
    compare_parts h (change_l1 (with_size n) h) (with_size_lem h.l1_config n)
      (compare_l2_same h.l2_config) (strategies_same h)
    ∙ append_empty _

pub l1_associativity_changed :
    (h : MemoryHierarchyConfig) (n : ℤ)
    → compare_hierarchies h (change_l1 (with_associativity n) h)
      ≡ int_difference l1_associativities h.l1_config.associativity n
unfolding compare_prefetching
l1_associativity_changed h n =
    compare_parts h (change_l1 (with_associativity n) h) (with_associativity_lem h.l1_config n)
      (compare_l2_same h.l2_config) (strategies_same h)
    ∙ append_empty _

compare_l2_associativity :
    (o : Option CacheConfig) (n : ℤ)
    → compare_l2 o (change_option (with_associativity n) o) ≡ l2_associativity_difference o n
unfolding compare_l2
compare_l2_associativity none n = refl
compare_l2_associativity (some c) n = rw (int_same l2_sizes c.size) refl

pub l2_associativity_changed :
    (h : MemoryHierarchyConfig) (n : ℤ)
    → compare_hierarchies h (change_l2 (with_associativity n) h)
      ≡ l2_associativity_difference h.l2_config n
unfolding compare_prefetching
l2_associativity_changed h n =
    compare_parts h (change_l2 (with_associativity n) h) (compare_l1_same h.l1_config)
      (compare_l2_associativity h.l2_config n) (strategies_same h)
    ∙ append_empty _

compare_l2_kept :
    (f : CacheConfig → CacheConfig)
    → ((c : CacheConfig) → ((f c).size ≡ c.size) × ((f c).associativity ≡ c.associativity))
    → (o : Option CacheConfig) → compare_l2 o (change_option f o) ≡ []
unfolding compare_l2
compare_l2_kept f kept none = refl
compare_l2_kept f kept (some c) =
    rw
      (
        (kept c).0,
        (kept c).1,
        int_same l2_sizes c.size,
        int_same l2_associativities c.associativity,
      )
      refl

pub block_size_changed :
    (h : MemoryHierarchyConfig) (n : ℤ)
    → compare_hierarchies h (set_block_size n h)
      ≡ int_difference block_sizes h.l1_config.block_size n
unfolding compare_prefetching
block_size_changed h n =
    compare_parts h (set_block_size n h) (with_block_size_lem h.l1_config n)
      (compare_l2_kept (with_block_size n) (λ c. (refl, refl)) h.l2_config) (strategies_same h)
    ∙ append_empty _

pub prefetching_changed :
    (h : MemoryHierarchyConfig) (b : Bool)
    → compare_hierarchies h (set_prefetching b h)
      ≡ bool_difference prefetching h.l1_config.prefetch_enabled b
        ++ (bool_difference stride_prediction h.use_stride_prediction b
            ++ bool_difference adaptive_prefetching h.use_adaptive_prefetching b)
unfolding compare_prefetching
prefetching_changed h b =
    compare_parts h (set_prefetching b h) (with_prefetching_lem h.l1_config b)
      (compare_l2_kept (with_prefetching b) (λ c. (refl, refl)) h.l2_config) refl

pub distance_changed :
    (h : MemoryHierarchyConfig) (n : ℤ)
    → compare_hierarchies h (set_distance n h)
      ≡ int_difference prefetch_distances h.l1_config.prefetch_distance n
unfolding compare_prefetching
distance_changed h n =
    compare_parts h (set_distance n h) (with_distance_lem h.l1_config n)
      (compare_l2_kept (with_distance n) (λ c. (refl, refl)) h.l2_config) (strategies_same h)
    ∙ append_empty _

pub nothing_changed : (h : MemoryHierarchyConfig) → compare_hierarchies h h ≡ []
nothing_changed h =
    compare_parts h h (compare_l1_same h.l1_config) (compare_l2_same h.l2_config)
      (strategies_same h)

pub l2_size_changed :
    (h : MemoryHierarchyConfig) (l2 : Option CacheConfig) (ds : List Difference)
    → compare_l2 h.l2_config l2 ≡ ds
    → compare_hierarchies h (record h { l2_config = l2 }) ≡ ds
unfolding compare_prefetching
l2_size_changed h l2 ds e =
    compare_parts h (record h { l2_config = l2 }) (compare_l1_same h.l1_config) e
      (strategies_same h)
    ∙ append_empty _
