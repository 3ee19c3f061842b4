-- ===== src/VictimCache/Slots.antt =====
-- Searches in the slots of a victim cache after one of them is written.
use cache_simulator.Prelude.{
  ℕ, zero, suc, ◌+◌, ◌≡◌, ◌<◌, refl, ap, ◌∙◌, arith, inl, inr, Bool, true, false, List, [], ◌∷◌,
  ◌++◌, none, some, set, length, find_index, Bool-cases,
}

module _ {ℓ} {A : Type ℓ} (q p : A → Bool) (weaker : (x : A) → q x ≡ false → p x ≡ false) (b : A)
    (found : p b ≡ true) where
  -- The first element that passes `q` becomes the first that passes `p`.
  pub set_first :
      (i k : ℕ) (xs : List A)
      → find_index q i xs ≡ some (i + k)
      → find_index p i (set xs k b) ≡ some (i + k)
  set_first i k [] e = absurd (cc)
  set_first i zero (x ∷ xs) e = rw found (ground arith)
  set_first i (suc k) (x ∷ xs) e = elim (Bool-cases (q x)) [
    | inl y ↦ let same : some i ≡ some (i + suc k) = ground arith in absurd (ground arith)
    | inr n ↦
        let rest : find_index q (i + 1) xs ≡ some (i + 1 + k) = ground arith in
        rw (weaker x n) (set_first (i + 1) k xs rest ∙ ap some (omega arith))
  ]

  -- Where no element passes `q`, the one that is written is the first that passes `p`.
  pub set_only :
      (i k : ℕ) (xs : List A)
      → k < length xs
      → find_index q i xs ≡ none
      → find_index p i (set xs k b) ≡ some (i + k)
  set_only i k [] lt e = absurd (omega arith)
  set_only i zero (x ∷ xs) lt e = rw found (ground arith)
  set_only i (suc k) (x ∷ xs) lt e =
      let n : q x ≡ false = ground arith in
      let rest : find_index q (i + 1) xs ≡ none = ground arith in
      rw (weaker x n) (set_only (i + 1) k xs (omega arith) rest ∙ ap some (omega arith))

  pub append_only :
      (i : ℕ) (xs : List A)
      → find_index q i xs ≡ none
      → find_index p i (xs ++ (b ∷ [])) ≡ some (i + length xs)
  append_only i [] e = rw found (ground arith)
  append_only i (x ∷ xs) e =
      let n : q x ≡ false = ground arith in
      let rest : find_index q (i + 1) xs ≡ none = ground arith in
      rw (weaker x n) (append_only (i + 1) xs rest ∙ ap some (omega arith))

-- An element that fails in the place of one that fails leaves a search without result.
pub set-none {ℓ} :
    {A : Type ℓ} (q : A → Bool) (i k : ℕ) (xs : List A) (b : A)
    → q b ≡ false
    → find_index q i xs ≡ none
    → find_index q i (set xs k b) ≡ none
set-none q i k [] b h e = refl
set-none q i zero (x ∷ xs) b h e = ground arith
set-none q i (suc k) (x ∷ xs) b h e =
    let n : q x ≡ false = ground arith in rw n (set-none q (i + 1) k xs b h (ground arith))
