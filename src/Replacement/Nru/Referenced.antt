-- ===== src/Replacement/Nru/Referenced.antt =====
-- The victim of `NRUPolicy`, by the reference bits.
use native.Mathlib.Nat.{zero-add}
use cache_simulator.Prelude.{
  ◌⊎◌, ℕ, zero, suc, ◌+◌, ◌≡◌, refl, subst, inl, inr, Bool, true, false, not, ◌&&◌, List, [], ◌∷◌,
  Option, none, some, arith, get_or, first_valid, first_valid-IsValidAt, IsValidAt, Bool-cases,
}
use cache_simulator.Replacement.Nru.{NruPolicy, reset, select_victim, unreferenced_from}

-- A way that is valid and whose bit is clear.
abbrev pub IsIdle : List Bool → List Bool → ℕ → Type 0
IsIdle valid bits k = (get_or valid k false ≡ true) × (get_or bits k false ≡ false)

found_idle :
    (valid bits : List Bool) (i r : ℕ)
    → unreferenced_from valid bits i ≡ some r
    → (k : ℕ) × (r ≡ i + k) × IsValidAt valid k × (get_or bits r false ≡ false)
unfolding unreferenced_from
found_idle [] bits i r e = absurd (cc)
found_idle (b ∷ bs) bits i r e = elim (Bool-cases (b && not (get_or bits i false))) [
  | inl y ↦ (0, ground arith, (omega arith, ground arith), ground arith)
  | inr n ↦
      let (k, e', ok, clear) = found_idle bs bits (i + 1) r (ground arith) in
      (suc k, omega arith, (omega arith, ok.1), clear)
]

finds_idle :
    (valid bits : List Bool) (i j : ℕ)
    → get_or valid j false ≡ true
    → get_or bits (i + j) false ≡ false
    → (r : ℕ) × (unreferenced_from valid bits i ≡ some r)
unfolding unreferenced_from
finds_idle [] bits i j h c = absurd (cc)
finds_idle (b ∷ bs) bits i zero h c =
    let e : i + 0 ≡ i = omega arith in
    (
      i,
      let c' : get_or bits i false ≡ false = subst (λ k. get_or bits k false ≡ false) e c in
          ground arith,
    )
finds_idle (b ∷ bs) bits i (suc j) h c = elim (Bool-cases (b && not (get_or bits i false))) [
  | inl y ↦ (i, ground arith)
  | inr n ↦
      let e : i + suc j ≡ i + 1 + j = omega arith in
      rw n (finds_idle bs bits (i + 1) j h (subst (λ k. get_or bits k false ≡ false) e c))
]

none_idle :
    (valid bits : List Bool) (i : ℕ)
    → ((j : ℕ) → get_or valid j false ≡ true → get_or bits (i + j) false ≡ true)
    → unreferenced_from valid bits i ≡ none
unfolding unreferenced_from
none_idle [] bits i h = refl
none_idle (b ∷ bs) bits i h =
    let here : b ≡ true → get_or bits i false ≡ true =
      λ e. subst (λ k. get_or bits k false ≡ true) (omega arith) (h 0 e) in
    let later =
      none_idle bs bits (i + 1)
        (λ j hj. subst (λ k. get_or bits k false ≡ true) (omega arith) (h (suc j) hj)) in
    ground arith

-- Where some valid way has a clear bit the victim is such a way, and no bit changes.
pub select_victim-idle :
    (p : NruPolicy) (valid : List Bool) (j : ℕ)
    → IsIdle valid p.reference_bits j
    → let r = select_victim p valid in
      (r.0 ≡ p) × IsValidAt valid r.1 × (get_or p.reference_bits r.1 false ≡ false)
unfolding select_victim
select_victim-idle p valid j h =
    let (r, found) = finds_idle valid p.reference_bits 0 j h.0 (rw zero-add h.1) in
    let (k, e, ok, clear) = found_idle valid p.reference_bits 0 r found in
    let e' : k ≡ r = omega arith in
    rw (found, select_victim) (refl, subst (IsValidAt valid) e' ok, clear)

-- Where every valid way has its bit set, all bits and the counter are reset and the first valid way
-- is the victim.
pub select_victim-all_referenced :
    (p : NruPolicy) (valid : List Bool)
    → ((j : ℕ) → get_or valid j false ≡ true → get_or p.reference_bits j false ≡ true)
    → select_victim p valid ≡ (reset p, first_valid valid)
unfolding select_victim
select_victim-all_referenced p valid h =
    rw (none_idle valid p.reference_bits 0 (λ j v. rw zero-add (h j v)), select_victim)

-- Which of the two it is.
pub IsIdle-or_referenced :
    (valid bits : List Bool)
    → ((j : ℕ) × IsIdle valid bits j)
      ⊎ ((j : ℕ) → get_or valid j false ≡ true → get_or bits j false ≡ true)
IsIdle-or_referenced valid bits = go (unreferenced_from valid bits 0) refl
  where
    go :
        (o : Option ℕ)
        → unreferenced_from valid bits 0 ≡ o
        → ((j : ℕ) × IsIdle valid bits j)
          ⊎ ((j : ℕ) → get_or valid j false ≡ true → get_or bits j false ≡ true)
    go (some r) e =
        let (k, e', ok, clear) = found_idle valid bits 0 r e in
        let e'' : r ≡ k = omega arith in
        inl (k, (ok.1, subst (λ i. get_or bits i false ≡ false) e'' clear))
    go none e = inr (λ j v. elim (Bool-cases (get_or bits j false)) [
      | inl y ↦ y
      | inr n ↦ let (r, found) = finds_idle valid bits 0 j v (rw zero-add n) in absurd (cc)
    ])

-- The victim is a valid way if there is one.
pub select_victim-IsValidAt :
    (p : NruPolicy) (valid : List Bool) (j : ℕ)
    → get_or valid j false ≡ true
    → IsValidAt valid (select_victim p valid).1
select_victim-IsValidAt p valid j h = elim (IsIdle-or_referenced valid p.reference_bits) [
  | inl (k, idle) ↦ (select_victim-idle p valid k idle).1
  | inr all ↦ rw (select_victim-all_referenced p valid all) (first_valid-IsValidAt valid j h)
]
