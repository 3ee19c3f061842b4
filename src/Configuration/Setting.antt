-- ===== src/Configuration/Setting.antt =====
-- What setting one parameter in `generateParameterSweep` of src/utils/config_utils.cpp makes of a valid hierarchy.
use cache_simulator.Prelude.{
  ◌≡◌, refl, Bool, true, false, List, Option, none, some, arith, if◌then◌else◌, Bool-cases, inl,
  inr,
}
use cache_simulator.Cache.Config.{ℤ, pos, CacheConfig}
use cache_simulator.Hierarchy.State.{MemoryHierarchyConfig}
use cache_simulator.Configuration.Numbers.{is_positive}
use cache_simulator.Configuration.State.{
  ParameterValue, int_value, bool_value, double_value, string_value, new_config_lem, cache_config,
}
use cache_simulator.Configuration.Validation.{is_valid_size, validate_l2, validate_hierarchy}
use cache_simulator.Configuration.Comparison.{
  l2_associativities, Difference, compare_l2, compare_hierarchies,
}
use cache_simulator.Configuration.Changes.{
  difference_of, int_same, append_empty, l2_size_difference, is_equal_refl, l1_size_changed,
  l1_associativity_changed, l2_associativity_changed, l2_size_changed, block_size_changed,
  prefetching_changed, distance_changed, nothing_changed,
}
use cache_simulator.Configuration.Quick.{◌>>=◌}
use cache_simulator.Configuration.Sweep.{
  l1_size, l1_assoc, l2_size, l2_assoc, block_size, prefetch, prefetch_distance, extra_option,
  Parameter, set_parameter, get_int, get_bool, with_size, resize_l2, set_l2_size,
}
use cache_simulator.Configuration.Fitting.{
  fits, int_passes, bool_passes, has_room, l2_size_fits, change_l1_size, set_block_size_lem,
  change_l1_associativity, change_l2_associativity, set_prefetching_lem, set_distance_lem,
  validate_hierarchy-l2, replace_l2,
}

-- L2 as the sweep leaves it.
abbrev Resized : ℤ → CacheConfig → Option CacheConfig → Type 0
Resized n l1 o =
    (l2 : Option CacheConfig) × (resize_l2 n l1 o ≡ some l2)
    × (validate_l2 l1.block_size l2 ≡ none)
    × (compare_l2 o l2 ≡ l2_size_difference o n)

made_l2 :
    (n : ℤ) (l1 : CacheConfig)
    → is_positive n ≡ true
    → is_valid_size n ≡ true
    → has_room n l1 none ≡ true
    → Resized n l1 none
unfolding resize_l2 validate_l2 compare_l2
made_l2 n l1 p size room = (
  some (cache_config n (pos 8) l1.block_size l1.prefetch_enabled l1.prefetch_distance),
  rw (p, new_config_lem n (pos 8) l1.block_size l1.prefetch_enabled l1.prefetch_distance room) refl,
  rw (size, is_equal_refl l1.block_size) refl,
  rw p refl,
)

existing_l2 :
    (n : ℤ) (l1 c : CacheConfig)
    → is_positive n ≡ true
    → is_valid_size n ≡ true
    → validate_l2 l1.block_size (some c) ≡ none
    → Resized n l1 (some c)
unfolding resize_l2 validate_l2 compare_l2
existing_l2 n l1 c p size v = (
  some (with_size n c),
  rw p refl,
  ground arith,
  rw (p, int_same l2_associativities c.associativity) (append_empty _),
)

removed_l2 :
    (n : ℤ) (l1 : CacheConfig) (o : Option CacheConfig) → is_positive n ≡ false → Resized n l1 o
unfolding resize_l2 validate_l2 compare_l2
removed_l2 n l1 none p = (none, rw p refl, refl, rw p refl)
removed_l2 n l1 (some c) p = (none, rw p refl, refl, rw p refl)

resize_l2-Resized :
    (n : ℤ) (l1 : CacheConfig) (o : Option CacheConfig)
    → l2_size_fits n l1 o ≡ true
    → validate_l2 l1.block_size o ≡ none
    → Resized n l1 o
resize_l2-Resized n l1 none fit v = elim (Bool-cases (is_positive n)) [
  | inr p ↦ removed_l2 n l1 none p
  | inl p ↦ made_l2 n l1 p (ground arith) (ground arith)
]
resize_l2-Resized n l1 (some c) fit v = elim (Bool-cases (is_positive n)) [
  | inr p ↦ removed_l2 n l1 (some c) p
  | inl p ↦ existing_l2 n l1 c p (ground arith) v
]

-- The hierarchy is there and valid, and differs from the first as stated.
abbrev pub IsChanged :
    MemoryHierarchyConfig → List Difference → Option MemoryHierarchyConfig → Type 0
IsChanged h ds none = ⊥
IsChanged h ds (some changed) =
    (validate_hierarchy changed ≡ none) × (compare_hierarchies h changed ≡ ds)

set_l2_size-IsChanged :
    (h : MemoryHierarchyConfig) (n : ℤ)
    → l2_size_fits n h.l1_config h.l2_config ≡ true
    → validate_hierarchy h ≡ none
    → IsChanged h (l2_size_difference h.l2_config n) (set_l2_size n h)
unfolding set_l2_size
set_l2_size-IsChanged h n fit v =
    let (l2, made, valid, changed) =
      resize_l2-Resized n h.l1_config h.l2_config fit (validate_hierarchy-l2 h v) in
    rw made (replace_l2 h l2 v valid, l2_size_changed h l2 _ changed)

module _ {Double : Type 0} (h : MemoryHierarchyConfig) (param : Parameter) where
  int_lem :
      (p : ℤ → Bool) (k : ℤ → Option MemoryHierarchyConfig)
      → ((n : ℤ)
          → p n ≡ true
          → IsChanged h (difference_of {Double = Double} param (int_value n) h) (k n))
      → (value : ParameterValue Double) → int_passes p value ≡ true
      → IsChanged h (difference_of param value h) (get_int value >>= k)
  int_lem p k good (int_value n) fit = good n fit
  int_lem p k good (bool_value b) fit = absurd (cc)
  int_lem p k good (double_value d) fit = absurd (cc)
  int_lem p k good (string_value cs) fit = absurd (cc)

  bool_lem :
      (p : Bool → Bool) (k : Bool → Option MemoryHierarchyConfig)
      → ((b : Bool)
          → p b ≡ true
          → IsChanged h (difference_of {Double = Double} param (bool_value b) h) (k b))
      → (value : ParameterValue Double) → bool_passes p value ≡ true
      → IsChanged h (difference_of param value h) (get_bool value >>= k)
  bool_lem p k good (bool_value b) fit = good b fit
  bool_lem p k good (int_value n) fit = absurd (cc)
  bool_lem p k good (double_value d) fit = absurd (cc)
  bool_lem p k good (string_value cs) fit = absurd (cc)

pub set_parameter-IsChanged :
    {Double : Type 0} (param : Parameter) (value : ParameterValue Double)
    (h : MemoryHierarchyConfig)
    → validate_hierarchy h ≡ none
    → fits h param value ≡ true
    → IsChanged h (difference_of param value h) (set_parameter param value h)
unfolding set_parameter fits difference_of
set_parameter-IsChanged l1_size value h v =
    int_lem h l1_size is_valid_size _ (λ n fit. (change_l1_size h n fit v, l1_size_changed h n))
      value
set_parameter-IsChanged l1_assoc value h v =
    int_lem h l1_assoc is_positive _
      (λ n fit. (change_l1_associativity h n fit v, l1_associativity_changed h n)) value
set_parameter-IsChanged l2_size value h v =
    int_lem h l2_size (λ n. l2_size_fits n h.l1_config h.l2_config) _
      (λ n fit. set_l2_size-IsChanged h n fit v) value
set_parameter-IsChanged l2_assoc value h v =
    int_lem h l2_assoc is_positive _
      (λ n fit. (change_l2_associativity h n fit v, l2_associativity_changed h n)) value
set_parameter-IsChanged block_size value h v =
    int_lem h block_size is_valid_size _
      (λ n fit. (set_block_size_lem h n fit v, block_size_changed h n)) value
set_parameter-IsChanged prefetch value h v =
    bool_lem h prefetch (λ b. if b then is_positive h.l1_config.prefetch_distance else true) _
      (λ b fit. (set_prefetching_lem h b fit v, prefetching_changed h b)) value
set_parameter-IsChanged prefetch_distance value h v =
    int_lem h prefetch_distance is_positive _
      (λ n fit. (set_distance_lem h n fit v, distance_changed h n)) value
set_parameter-IsChanged extra_option value h v = λ _. (v, nothing_changed h)

pub IsChanged-some :
    (h : MemoryHierarchyConfig) (ds : List Difference) (o : Option MemoryHierarchyConfig)
    → IsChanged h ds o
    → (changed : MemoryHierarchyConfig) × (o ≡ some changed) × IsChanged h ds (some changed)
IsChanged-some h ds none is = elim is [ ]
IsChanged-some h ds (some changed) is = (changed, refl, is)
