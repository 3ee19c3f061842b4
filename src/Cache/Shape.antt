-- ===== src/Cache/Shape.antt =====
-- The invariant of a cache: the sizes of its tables, and that no set holds a tag twice.
use cache_simulator.Prelude.{
  ℕ, ◌<◌, ◌≡◌, sym, ◌∙◌, inl, inr, true, List, [], arith, ◌==◌, length, get_or, set, Bool-cases,
  length-set, get_or-set_self, get_or-set_ne, if◌then◌else◌,
}
use cache_simulator.Replacement.Policy.{Policy}
use cache_simulator.Cache.State.{Cache, CacheBlock, empty_block}
use cache_simulator.Cache.Lookup.{holds}

-- Every tag is held by one way at most.
abbrev pub UniqueTags : List CacheBlock → Type 0
UniqueTags blocks =
    (t j k : ℕ)
    → holds t (get_or blocks j empty_block) ≡ true
    → holds t (get_or blocks k empty_block) ≡ true
    → j ≡ k

-- The tables of a cache with `n` sets of `a` ways.
pub record Shape (n a b : ℕ) (sets : List (List CacheBlock)) (policies : List Policy) : Type 0 where
  pub some_sets : 0 < n
  pub some_ways : 0 < a
  pub some_bytes : 0 < b
  pub set_count : length sets ≡ n
  pub policy_count : length policies ≡ n
  pub ways : (i : ℕ) → i < n → length (get_or sets i []) ≡ a
  pub unique : (i : ℕ) → i < n → UniqueTags (get_or sets i [])

abbrev pub WellFormed : Cache → Type 0
WellFormed c = Shape c.num_sets c.associativity c.block_size c.sets c.replacement_policies

-- No way but `way` holds a tag that `b` holds.
abbrev pub Fits : List CacheBlock → ℕ → CacheBlock → Type 0
Fits blocks way b =
    (t j : ℕ) → holds t b ≡ true → holds t (get_or blocks j empty_block) ≡ true → j ≡ way

set-UniqueTags :
    (blocks : List CacheBlock) (way : ℕ) (b : CacheBlock)
    → way < length blocks
    → UniqueTags blocks
    → Fits blocks way b
    → UniqueTags (set blocks way b)
set-UniqueTags blocks way b lt u f t j k hj hk = ground (
  arith,
  get_or-set_self blocks way b empty_block lt,
  get_or-set_ne blocks way j b empty_block,
  get_or-set_ne blocks way k b empty_block,
  u t j k,
  f t j,
  f t k,
)

module _ {n a b : ℕ} {sets : List (List CacheBlock)} {ps : List Policy}
    (s : Shape n a b sets ps) where
  pub set_policy-Shape : (i : ℕ) (p : Policy) → Shape n a b sets (set ps i p)
  set_policy-Shape i p = record {
    some_sets = s.some_sets;
    some_ways = s.some_ways;
    some_bytes = s.some_bytes;
    set_count = s.set_count;
    policy_count = length-set ps i p ∙ s.policy_count;
    ways = s.ways;
    unique = s.unique;
  }

  -- The set that a write leaves behind at each index.
  pub set_at_written :
      (i j : ℕ) (blocks : List CacheBlock)
      → i < n
      → get_or (set sets i blocks) j [] ≡ (if i == j then blocks else get_or sets j [])
  set_at_written i j blocks hi =
      ground
        (arith, s.set_count, get_or-set_self sets i blocks [], get_or-set_ne sets i j blocks [])

  pub set_block-Shape :
      (i way : ℕ) (blk : CacheBlock)
      → i < n
      → way < a
      → Fits (get_or sets i []) way blk
      → Shape n a b (set sets i (set (get_or sets i []) way blk)) ps
  set_block-Shape i way blk hi hw f = record {
    some_sets = s.some_sets;
    some_ways = s.some_ways;
    some_bytes = s.some_bytes;
    set_count = length-set sets i (set (get_or sets i []) way blk) ∙ s.set_count;
    policy_count = s.policy_count;
    ways = λ j hj. ground (
      arith,
      set_at_written i j (set (get_or sets i []) way blk) hi,
      length-set (get_or sets i []) way blk,
      s.ways i hi,
      s.ways j hj,
    );
    unique = λ j hj. elim (Bool-cases (i == j)) [
      | inl e ↦
          rw (set_at_written i j (set (get_or sets i []) way blk) hi, e)
            (set-UniqueTags (get_or sets i []) way blk (omega (arith, s.ways i hi)) (s.unique i hi)
              f)
      | inr ne ↦ rw (set_at_written i j (set (get_or sets i []) way blk) hi, ne) (s.unique j hj)
    ];
  }

  -- A block may be replaced by one with the same tag and validity.
  pub retouch-Shape :
      (i way : ℕ) (blk : CacheBlock)
      → i < n
      → way < a
      → ((t : ℕ) → holds t blk ≡ holds t (get_or (get_or sets i []) way empty_block))
      → Shape n a b (set sets i (set (get_or sets i []) way blk)) ps
  retouch-Shape i way blk hi hw same =
      set_block-Shape i way blk hi hw (λ t j hb hj. s.unique i hi t j way hj (sym (same t) ∙ hb))
