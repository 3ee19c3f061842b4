-- ===== src/Prelude/Search.antt =====
-- Searches of the standard library over vectors: `std::find`, `erase`, `std::iota` and loops over
-- a vector of flags.
use Prim.Native.Nat.{ℕ, zero, suc, ◌+◌, ◌≤◌, ◌<◌}
use mathlib.Core.Path.{◌≡◌, refl, sym, subst, ap, ◌∙◌}
use mathlib.Core.Logic.{◌≢◌, inl, inr}
use mathlib.Core.Bool.{Bool, true, false, ◌||◌}
use mathlib.Core.List.{List, [], ◌∷◌, ◌++◌, reverse, append_assoc, reverse-cons}
use mathlib.Core.Option.{Option, none, some}
use native.Mathlib.Omega.{arith}
use cache_simulator.Prelude.Tests.{◌==◌, if◌then◌else◌, Bool-cases}
use cache_simulator.Prelude.Lists.{length, length-append, get_or, replicate}

-- A step of a reversal that goes onto a list.
pub reverse_onto {ℓ} :
    {A : Type ℓ} (x : A) (xs l : List A) → reverse (x ∷ xs) ++ l ≡ reverse xs ++ (x ∷ l)
reverse_onto x xs l = ap (λ r. r ++ l) (reverse-cons x xs) ∙ append_assoc (reverse xs) (x ∷ []) l

-- A predicate holds of every element.
abbrev pub All {ℓ κ} : {A : Type ℓ} → (A → Type κ) → List A → Type κ
All P [] = Unit
All P (x ∷ xs) = P x × All P xs

abbrev pub contains : ℕ → List ℕ → Bool
contains x [] = false
contains x (y ∷ ys) = (y == x) || contains x ys

-- The first occurrence is erased, if there is one.
abbrev pub erase : ℕ → List ℕ → List ℕ
erase x [] = []
erase x (y ∷ ys) = if y == x then ys else y ∷ erase x ys

-- Every occurrence is dropped.
abbrev pub without : ℕ → List ℕ → List ℕ
without x [] = []
without x (y ∷ ys) = let rest = without x ys in if y == x then rest else y ∷ rest

-- `n` numbers from `i` on, as `std::iota` writes them.
abbrev pub iota : ℕ → ℕ → List ℕ
iota i zero = []
iota i (suc n) = i ∷ iota (i + 1) n

-- How many entries of a history, newest first, are more recent than the last use of `j`.
abbrev pub age : ℕ → List ℕ → ℕ
age j [] = 0
age j (x ∷ xs) = if x == j then 0 else suc (age j xs)

-- The index of the first element that passes the test, counted from `i`.
abbrev pub find_index {ℓ} : {A : Type ℓ} → (A → Bool) → ℕ → List A → Option ℕ
find_index p i [] = none
find_index p i (x ∷ xs) = if p x then some i else find_index p (i + 1) xs

-- The first valid block, or 0: the loop that the replacement policies end with.
abbrev pub first_valid : List Bool → ℕ
first_valid valid = elim (find_index (λ b. b) 0 valid) [ some i ↦ i | none ↦ 0 ]

pub get_or-replicate {ℓ} : {A : Type ℓ} (n i : ℕ) (b c : A) → i < n → get_or (replicate n b) i c ≡ b
get_or-replicate zero i b c h = elim h [ ]
get_or-replicate (suc n) zero b c h = refl
get_or-replicate (suc n) (suc i) b c h = get_or-replicate n i b c (omega arith)

pub contains-iota : (j i n : ℕ) → i ≤ j → j < i + n → contains j (iota i n) ≡ true
contains-iota j i zero h k = absurd (omega arith)
contains-iota j i (suc n) h k = ground (arith, contains-iota j (i + 1) n)

pub contains-iota_below : (j i n : ℕ) → j < i → contains j (iota i n) ≡ false
contains-iota_below j i zero h = refl
contains-iota_below j i (suc n) h = ground (arith, contains-iota_below j (i + 1) n)

pub All-iota : (i n m : ℕ) → i + n ≤ m → All (λ j. j < m) (iota i n)
All-iota i zero m h = tt
All-iota i (suc n) m h = (omega arith, All-iota (i + 1) n m (omega arith))

pub All-append {ℓ κ} :
    {A : Type ℓ} (P : A → Type κ) (xs ys : List A) → All P xs → All P ys → All P (xs ++ ys)
All-append P [] ys h k = k
All-append P (x ∷ xs) ys h k = (h.0, All-append P xs ys h.1 k)

pub All-without {κ} : (P : ℕ → Type κ) (x : ℕ) (xs : List ℕ) → All P xs → All P (without x xs)
All-without P x [] h = tt
All-without P x (y ∷ ys) h = elim (Bool-cases (y == x)) [
  | inl e ↦ rw e (All-without P x ys h.1)
  | inr e ↦ rw e (h.0, All-without P x ys h.1)
]

pub All-get_or {ℓ κ} :
    {A : Type ℓ} (P : A → Type κ) (xs : List A) (k : ℕ) (d : A)
    → All P xs
    → k < length xs
    → P (get_or xs k d)
All-get_or P [] k d h lt = elim lt [ ]
All-get_or P (x ∷ xs) zero d h lt = h.0
All-get_or P (x ∷ xs) (suc k) d h lt = All-get_or P xs k d h.1 (omega arith)

pub All-map {ℓ κ ι} :
    {A : Type ℓ} (P : A → Type κ) (Q : A → Type ι)
    → ((x : A) → P x → Q x)
    → (xs : List A) → All P xs
    → All Q xs
All-map P Q f [] h = tt
All-map P Q f (x ∷ xs) h = (f x h.0, All-map P Q f xs h.1)

pub without_absent : (x : ℕ) (xs : List ℕ) → contains x xs ≡ false → without x xs ≡ xs
without_absent x [] h = refl
without_absent x (y ∷ ys) h = ground (arith, without_absent x ys)

pub contains-without_self : (x : ℕ) (xs : List ℕ) → contains x (without x xs) ≡ false
contains-without_self x [] = refl
contains-without_self x (y ∷ ys) = ground (arith, contains-without_self x ys)

pub contains-without_ne :
    (x z : ℕ) (xs : List ℕ) → x ≢ z → contains z (without x xs) ≡ contains z xs
contains-without_ne x z [] h = refl
contains-without_ne x z (y ∷ ys) h = ground (arith, contains-without_ne x z ys h)

-- No element stands twice.
abbrev pub Distinct : List ℕ → Type 0
Distinct [] = Unit {0}
Distinct (x ∷ xs) = (contains x xs ≡ false) × Distinct xs

pub without-Distinct : (x : ℕ) (xs : List ℕ) → Distinct xs → Distinct (without x xs)
without-Distinct x [] d = tt
without-Distinct x (y ∷ ys) d =
    ground (arith, without-Distinct x ys d.1, contains-without_ne x y ys)

-- On a list with no repetition the two ways to remove agree.
pub erase-eq-without : (x : ℕ) (xs : List ℕ) → Distinct xs → erase x xs ≡ without x xs
erase-eq-without x [] d = refl
erase-eq-without x (y ∷ ys) d = ground (arith, erase-eq-without x ys d.1, without_absent x ys)

pub All-contains {κ} :
    (P : ℕ → Type κ) (x : ℕ) (xs : List ℕ) → All P xs → contains x xs ≡ true → P x
All-contains P x [] h c = absurd (ground arith)
All-contains P x (y ∷ ys) h c = elim (Bool-cases (y == x)) [
  | inl e ↦ let e' : y ≡ x = ground arith in subst P e' h.0
  | inr e ↦ All-contains P x ys h.1 (ground arith)
]

pub contains-append :
    (x : ℕ) (xs ys : List ℕ) → contains x (xs ++ ys) ≡ (contains x xs || contains x ys)
contains-append x [] ys = refl
contains-append x (z ∷ zs) ys = ground (arith, contains-append x zs ys)

pub length-reverse {ℓ} : {A : Type ℓ} (xs : List A) → length (reverse xs) ≡ length xs
length-reverse [] = refl
length-reverse (x ∷ xs) =
    omega
      (arith, ap length (reverse-cons x xs), length-append (reverse xs) (x ∷ []), length-reverse xs)

-- What a search finds, and what it means to find nothing. `d` stands for what is read out of range.
module _ {ℓ} {A : Type ℓ} (p : A → Bool) (d : A) where
  pub find_index-some :
      (i r : ℕ) (xs : List A)
      → find_index p i xs ≡ some r
      → (k : ℕ) × (r ≡ i + k) × (k < length xs) × (p (get_or xs k d) ≡ true)
  find_index-some i r [] e = absurd (cc)
  find_index-some i r (x ∷ xs) e = elim (Bool-cases (p x)) [
    | inl y ↦ (0, ground arith, omega arith, y)
    | inr n ↦
        let (k, e', lt, y) = find_index-some (i + 1) r xs (ground arith) in
        (suc k, omega arith, omega arith, y)
  ]

  pub find_index-none :
      (i j : ℕ) (xs : List A) → p d ≡ false → find_index p i xs ≡ none → p (get_or xs j d) ≡ false
  find_index-none i j [] out e = out
  find_index-none i zero (x ∷ xs) out e = ground arith
  find_index-none i (suc j) (x ∷ xs) out e = find_index-none (i + 1) j xs out (ground arith)

  pub find_index-finds :
      (i k : ℕ) (xs : List A)
      → p d ≡ false
      → p (get_or xs k d) ≡ true
      → (r : ℕ) × (find_index p i xs ≡ some r)
  find_index-finds i k xs out h = go (find_index p i xs) refl
    where
      go : (o : Option ℕ) → find_index p i xs ≡ o → (r : ℕ) × (find_index p i xs ≡ some r)
      go (some r) e = (r, e)
      go none e = let no_hit = find_index-none i k xs out e in absurd (cc)

-- A way that a mask marks valid.
abbrev pub IsValidAt : List Bool → ℕ → Type 0
IsValidAt valid i = (i < length valid) × (get_or valid i false ≡ true)

pub IsValidAt-of_get : (valid : List Bool) (i : ℕ) → get_or valid i false ≡ true → IsValidAt valid i
IsValidAt-of_get [] i h = absurd (cc)
IsValidAt-of_get (b ∷ bs) zero h = (omega arith, h)
IsValidAt-of_get (b ∷ bs) (suc i) h = let r = IsValidAt-of_get bs i h in (omega arith, r.1)

-- The fallback finds a valid way if there is one.
pub first_valid-IsValidAt :
    (valid : List Bool) (j : ℕ) → get_or valid j false ≡ true → IsValidAt valid (first_valid valid)
first_valid-IsValidAt valid j h =
    let (r, found) = find_index-finds (λ b. b) false 0 j valid refl h in
    let (k, e, lt, ok) = find_index-some (λ b. b) false 0 r valid found in
    let e' : r ≡ k = omega arith in
    subst (IsValidAt valid)
      (sym (ap (λ o. elim o as (λ x. ℕ) [ some i ↦ i | none ↦ 0 ]) found ∙ e')) (lt, ok)
