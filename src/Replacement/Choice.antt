-- ===== src/Replacement/Choice.antt =====
-- The choices of the policies of src/core/replacement_policy.h against the mask of valid ways.
use native.Mathlib.Nat.{mod-lt}
use cache_simulator.Prelude.{
  All-get_or, replicate, length-replicate, get_or-replicate, All-map, ℕ, zero, suc, ◌+◌, ◌-◌, ◌%◌,
  ◌<◌, ◌≡◌, refl, subst, inl, inr, Bool, true, false, ◌&&◌, List, [], ◌∷◌, Option, none, some,
  arith, ltb, length, get_or, reverse, u64_mod, first_valid-IsValidAt, IsValidAt, Bool-cases, All,
}
use cache_simulator.Replacement.Lru
use cache_simulator.Replacement.Fifo.Oldest
use cache_simulator.Replacement.Random
use cache_simulator.Replacement.Plru
use cache_simulator.Replacement.Nru.Referenced
use cache_simulator.Replacement.Policy
use cache_simulator.Replacement.Policy.{
  Policy, lru_policy, fifo_policy, random_policy, plru_policy, nru_policy,
}

first_valid_of-IsValidAt :
    (valid : List Bool) (is : List ℕ) (r : ℕ)
    → Lru.first_valid_of valid is ≡ some r
    → IsValidAt valid r
unfolding Lru.first_valid_of
first_valid_of-IsValidAt valid [] r e = absurd (cc)
first_valid_of-IsValidAt valid (i ∷ is) r e =
    elim (Bool-cases (ltb i (length valid) && get_or valid i false)) [
      | inl y ↦
          let e' : i ≡ r = ground arith in subst (IsValidAt valid) e' (ground arith, ground arith)
      | inr n ↦ first_valid_of-IsValidAt valid is r (ground arith)
    ]

lru_choice :
    (p : Lru.LruPolicy) (valid : List Bool) (j : ℕ)
    → get_or valid j false ≡ true
    → IsValidAt valid (Lru.select_victim p valid)
lru_choice p valid j h = go (Lru.first_valid_of valid (reverse p.lru_order)) refl
  where
    go :
        (o : Option ℕ)
        → Lru.first_valid_of valid (reverse p.lru_order) ≡ o
        → IsValidAt valid (Lru.select_victim p valid)
    go (some r) e =
        unfold Lru.select_victim in
        rw (e, Lru.select_victim) (first_valid_of-IsValidAt valid (reverse p.lru_order) r e)
    go none e =
        unfold Lru.select_victim in rw (e, Lru.select_victim) (first_valid-IsValidAt valid j h)

plru_choice :
    (p : Plru.PlruPolicy) (valid : List Bool) (j : ℕ)
    → get_or valid j false ≡ true
    → IsValidAt valid (Plru.select_victim p valid)
unfolding Plru.select_victim
plru_choice p valid j h = ground (arith, first_valid-IsValidAt valid j h)

-- What a collected index stands for.
abbrev Marks : List Bool → ℕ → ℕ → Type 0
Marks bs i r = (k : ℕ) × (r ≡ i + k) × IsValidAt bs k

shifted :
    (i : ℕ) (b : Bool) (bs : List Bool) (is : List ℕ)
    → All (Marks bs (i + 1)) is
    → All (Marks (b ∷ bs) i) is
shifted i b bs is h =
    All-map (Marks bs (i + 1)) (Marks (b ∷ bs) i)
      (λ r m. (suc m.0, omega (arith, m.1), (omega (arith, m.2.0), m.2.1))) is h

All-valid_indices : (i : ℕ) (bs : List Bool) → All (Marks bs i) (Random.valid_indices i bs)
unfolding Random.valid_indices
All-valid_indices i [] = tt
All-valid_indices i (true ∷ bs) = (
  (0, omega arith, (omega arith, refl)),
  shifted i true bs (Random.valid_indices (i + 1) bs) (All-valid_indices (i + 1) bs),
)
All-valid_indices i (false ∷ bs) =
    shifted i false bs (Random.valid_indices (i + 1) bs) (All-valid_indices (i + 1) bs)

valid_indices_some :
    (i j : ℕ) (bs : List Bool) → get_or bs j false ≡ true → 0 < length (Random.valid_indices i bs)
unfolding Random.valid_indices
valid_indices_some i j [] h = absurd (cc)
valid_indices_some i j (true ∷ bs) h = omega arith
valid_indices_some i zero (false ∷ bs) h = absurd (cc)
valid_indices_some i (suc j) (false ∷ bs) h = valid_indices_some (i + 1) j bs h

pick_choice :
    (p : Random.RandomPolicy) (valid : List Bool) (is : List ℕ)
    → 0 < length is
    → All (Marks valid 0) is
    → IsValidAt valid (Random.pick p is).1
unfolding Random.pick
pick_choice p valid [] pos h = absurd (omega arith)
pick_choice p valid (i ∷ is) pos h =
    let size = length (i ∷ is) in
    let below : p.draws p.drawn % size < size = mod-lt (p.draws p.drawn) pos in
    let (k, e, ok) = All-get_or (Marks valid 0) (i ∷ is) (p.draws p.drawn % size) 0 h below in
    let e' : k ≡ get_or (i ∷ is) (p.draws p.drawn % size) 0 = omega arith in
    subst (IsValidAt valid) e' ok

random_choice :
    (p : Random.RandomPolicy) (valid : List Bool) (j : ℕ)
    → get_or valid j false ≡ true
    → IsValidAt valid (Random.select_victim p valid).1
unfolding Random.select_victim
random_choice p valid j h =
    pick_choice p valid (Random.valid_indices 0 valid) (valid_indices_some 0 j valid h)
      (All-valid_indices 0 valid)

-- No stamp of a FIFO policy is the largest value of its type, which the scan starts from.
abbrev pub HasRoom : Policy → Type 0
HasRoom (fifo_policy p) = (j : ℕ) → get_or p.fifo_order j 0 < u64_mod - 1
HasRoom _ = Unit {0}

-- Each of the five policies answers with a valid way if the mask has one (a FIFO policy provided
-- that its stamps stay below the largest value of their type).
pub select_victim-IsValidAt :
    (p : Policy) (valid : List Bool) (j : ℕ)
    → HasRoom p
    → get_or valid j false ≡ true
    → IsValidAt valid (Policy.select_victim p valid).1
unfolding Policy.select_victim
select_victim-IsValidAt (lru_policy p) valid j room h = lru_choice p valid j h
select_victim-IsValidAt (fifo_policy p) valid j room h =
    let (lt, ok, least) = Oldest.select_victim-oldest p valid j h (room j) in (lt, ok)
select_victim-IsValidAt (random_policy p) valid j room h = random_choice p valid j h
select_victim-IsValidAt (plru_policy p) valid j room h = plru_choice p valid j h
select_victim-IsValidAt (nru_policy p) valid j room h =
    Referenced.select_victim-IsValidAt p valid j h

-- With every way valid the answer is in range, whatever the state of the policy.
pub select_victim-lt :
    (p : Policy) (n : ℕ) → 0 < n → (Policy.select_victim p (replicate n true)).1 < n
unfolding Policy.select_victim
select_victim-lt (fifo_policy p) n pos = omega (
  arith,
  length-replicate n true,
  Oldest.select_victim-lt p (replicate n true) (omega (arith, length-replicate n true)),
)
select_victim-lt (lru_policy p) n pos = omega (
  arith,
  length-replicate n true,
  (lru_choice p (replicate n true) 0 (get_or-replicate n 0 true false pos)).0,
)
select_victim-lt (random_policy p) n pos = omega (
  arith,
  length-replicate n true,
  (random_choice p (replicate n true) 0 (get_or-replicate n 0 true false pos)).0,
)
select_victim-lt (plru_policy p) n pos = omega (
  arith,
  length-replicate n true,
  (plru_choice p (replicate n true) 0 (get_or-replicate n 0 true false pos)).0,
)
select_victim-lt (nru_policy p) n pos = omega (
  arith,
  length-replicate n true,
  (Referenced.select_victim-IsValidAt p (replicate n true) 0
      (get_or-replicate n 0 true false pos)).0,
)
