-- ===== src/Replacement/Lru/Recency.antt =====
-- The order of `LRUPolicy` against the history of accesses: the most recent use of each block.
use mathlib.Core.List.{reverse-cons, reverse-reverse}
use cache_simulator.Prelude.{
  ℕ, zero, suc, ◌+◌, ◌≡◌, refl, sym, ap, ◌∙◌, ◌<◌, ◌≤◌, inl, inr, true, false, List, [], ◌∷◌, ◌++◌,
  arith, ◌==◌, reverse, replicate, Bool-cases, contains, without, iota, age, reverse_onto, Distinct,
  without-Distinct, erase-eq-without, All, get_or-replicate, length-replicate, contains-iota,
  contains-iota_below, All-iota, All-without, All-contains, contains-append, subst, without_absent,
  contains-without_self, contains-without_ne,
}
use cache_simulator.Replacement.Lru.{
  LruPolicy, create, move_to_front, on_access, first_valid_of, select_victim,
}

-- The first occurrence of each element is kept.
unfoldable pub dedup : List ℕ → List ℕ
dedup [] = []
dedup (x ∷ xs) = x ∷ without x (dedup xs)

contains-dedup : (j : ℕ) (l : List ℕ) → contains j (dedup l) ≡ contains j l
unfolding dedup
contains-dedup j [] = refl
contains-dedup j (x ∷ xs) = ground (arith, contains-dedup j xs, contains-without_ne x j (dedup xs))

dedup-Distinct : (l : List ℕ) → Distinct (dedup l)
unfolding dedup
dedup-Distinct [] = tt
dedup-Distinct (x ∷ xs) =
    (contains-without_self x (dedup xs), without-Distinct x (dedup xs) (dedup-Distinct xs))

-- One access makes its block the newest entry of the history.
move_to_front-dedup :
    (i : ℕ) (l : List ℕ) → contains i l ≡ true → move_to_front i (dedup l) ≡ dedup (i ∷ l)
unfolding move_to_front dedup
move_to_front-dedup i l h =
    rw (contains-dedup i l, h) (ap (◌∷◌ i) (erase-eq-without i (dedup l) (dedup-Distinct l)))

-- A block that is in the history stays there.
contains_push : (i j : ℕ) (l : List ℕ) → contains j l ≡ true → contains j (i ∷ l) ≡ true
contains_push i j l h = ground arith

-- The policy after the accesses of a list, oldest first.
unfoldable pub run : List ℕ → LruPolicy → LruPolicy
run [] p = p
run (x ∷ xs) p = run xs (on_access p x)

run-dedup :
    (n : ℕ) (xs l : List ℕ) (p : LruPolicy)
    → All (λ x. x < n) xs
    → ((j : ℕ) → j < n → contains j l ≡ true)
    → p.lru_order ≡ dedup l
    → (run xs p).lru_order ≡ dedup (reverse xs ++ l)
unfolding run on_access
run-dedup n [] l p h k e = e
run-dedup n (x ∷ xs) l p h k e =
    run-dedup n xs (x ∷ l) (on_access p x) h.1 (λ j b. contains_push x j l (k j b))
      (rw e (move_to_front-dedup x l (k x h.0)))
    ∙ ap dedup (sym (reverse_onto x xs l))

dedup-iota : (i n : ℕ) → dedup (iota i n) ≡ iota i n
unfolding dedup
dedup-iota i zero = refl
dedup-iota i (suc n) = ap (◌∷◌ i) (
    ap (without i) (dedup-iota (i + 1) n)
    ∙ without_absent i (iota (i + 1) n) (contains-iota_below i (i + 1) n (omega arith)))

-- Nothing in the list is more recent than what stands before it.
abbrev Sorted : List ℕ → List ℕ → Type 0
Sorted l [] = Unit {0}
Sorted l (x ∷ xs) = All (λ y. age x l ≤ age y l) xs × Sorted l xs

Sorted-without : (x : ℕ) (l d : List ℕ) → Sorted l d → Sorted (x ∷ l) (without x d)
Sorted-without x l [] s = tt
Sorted-without x l (y ∷ ys) s = elim (Bool-cases (y == x)) [
  | inl e ↦ rw e (Sorted-without x l ys s.1)
  | inr e ↦ rw e (later y e ys s.0, Sorted-without x l ys s.1)
]
  where
    later :
        (y : ℕ)
        → (y == x) ≡ false
        → (ys : List ℕ) → All (λ z. age y l ≤ age z l) ys
        → All (λ z. age y (x ∷ l) ≤ age z (x ∷ l)) (without x ys)
    later y e [] h = tt
    later y e (z ∷ zs) h = elim (Bool-cases (z == x)) [
      | inl e' ↦ rw e' (later y e zs h.1)
      | inr e' ↦ rw e' (ground arith, later y e zs h.1)
    ]

-- The order runs from the youngest use to the oldest.
dedup-Sorted : (l : List ℕ) → Sorted l (dedup l)
unfolding dedup
dedup-Sorted [] = tt
dedup-Sorted (x ∷ xs) = (
  All-of (λ y. ground arith) (without x (dedup xs)),
  Sorted-without x xs (dedup xs) (dedup-Sorted xs),
)
  where
    All-of : {P : ℕ → Type 0} → ((y : ℕ) → P y) → (ys : List ℕ) → All P ys
    All-of f [] = tt
    All-of f (y ∷ ys) = (f y, All-of f ys)

Sorted-last :
    (l xs : List ℕ) (v : ℕ) → Sorted l (xs ++ v ∷ []) → All (λ y. age y l ≤ age v l) (xs ++ v ∷ [])
Sorted-last l [] v s = (omega arith, tt)
Sorted-last l (x ∷ xs) v s = (last xs s.0, Sorted-last l xs v s.1)
  where
    last : (ys : List ℕ) → All (λ y. age x l ≤ age y l) (ys ++ v ∷ []) → age x l ≤ age v l
    last [] h = h.0
    last (y ∷ ys) h = last ys h.1

-- With every way valid the victim is the last block of the order.
select_victim-last :
    (n v : ℕ) (rest : List ℕ) (p : LruPolicy)
    → reverse p.lru_order ≡ v ∷ rest
    → v < n
    → select_victim p (replicate n true) ≡ v
unfolding select_victim
select_victim-last n v rest p e h =
    rw (e, select_victim, first_valid_of)
      (ground (arith, get_or-replicate n v true false, length-replicate n true))

module _ (n : ℕ) (xs : List ℕ) (h : All (λ x. x < n) xs) where
  order_lem : (run xs (create n)).lru_order ≡ dedup (reverse xs ++ iota 0 n)
  unfolding create
  order_lem =
      run-dedup n xs (iota 0 n) (create n) h
        (λ j b. contains-iota j 0 n (omega arith) (omega arith)) (sym (dedup-iota 0 n))

  dedup-bounded : (l : List ℕ) → All (λ x. x < n) l → All (λ x. x < n) (dedup l)
  unfolding dedup
  dedup-bounded [] b = tt
  dedup-bounded (x ∷ l) b = (b.0, All-without (λ y. y < n) x (dedup l) (dedup-bounded l b.1))

  All-reverse :
      (l ys : List ℕ)
      → All (λ x. x < n) l
      → All (λ x. x < n) ys
      → All (λ x. x < n) (reverse l ++ ys)
  All-reverse [] ys b c = c
  All-reverse (x ∷ l) ys b c =
      let e : reverse (x ∷ l) ++ ys ≡ reverse l ++ (x ∷ ys) = reverse_onto x l ys in
      rw e (All-reverse l (x ∷ ys) b.1 (b.0, c))

  -- The order as the reverse of what the victim search walks.
  oldest :
      (v : ℕ) (rest : List ℕ)
      → reverse (run xs (create n)).lru_order ≡ v ∷ rest
      → dedup (reverse xs ++ iota 0 n) ≡ reverse rest ++ v ∷ []
  oldest v rest e =
      sym order_lem
      ∙ sym (reverse-reverse (run xs (create n)).lru_order)
      ∙ ap reverse e
      ∙ reverse-cons v rest

  member : (j : ℕ) → j < n → contains j (dedup (reverse xs ++ iota 0 n)) ≡ true
  member j b = ground (
    arith,
    contains-dedup j (reverse xs ++ iota 0 n),
    contains-append j (reverse xs) (iota 0 n),
    contains-iota j 0 n,
  )

  victim_cases :
      (r : List ℕ)
      → 0 < n
      → reverse (run xs (create n)).lru_order ≡ r
      → let l = reverse xs ++ iota 0 n in
        let v = select_victim (run xs (create n)) (replicate n true) in
        (v < n) × ((j : ℕ) → j < n → age j l ≤ age v l)
  victim_cases [] pos e =
      let none_left : dedup (reverse xs ++ iota 0 n) ≡ [] =
        sym order_lem ∙ sym (reverse-reverse (run xs (create n)).lru_order) ∙ ap reverse e in
      absurd (cc (ap (contains 0) none_left, member 0 pos))
  victim_cases (v ∷ rest) pos e =
      let l = reverse xs ++ iota 0 n in
      let split = oldest v rest e in
      let bounded : All (λ x. x < n) (dedup l) =
        dedup-bounded l (All-reverse xs (iota 0 n) h (All-iota 0 n n (omega arith))) in
      let here : contains v (dedup l) ≡ true =
        rw split (ground (arith, contains-append v (reverse rest) (v ∷ []))) in
      let small : v < n = All-contains (λ x. x < n) v (dedup l) bounded here in
      let sorted : All (λ y. age y l ≤ age v l) (dedup l) =
        rw split (Sorted-last l (reverse rest) v (subst (Sorted l) split (dedup-Sorted l))) in
      rw (select_victim-last n v rest (run xs (create n)) e small)
        (small, λ j b. All-contains (λ y. age y l ≤ age v l) j (dedup l) sorted (member j b))

  -- After any history of accesses the victim among all-valid ways is a way whose last use is the
  -- oldest. The history, newest first, ends with the initial order; `age` counts how many entries
  -- are newer than the last use.
  pub select_victim-least_recent :
      0 < n
      → let l = reverse xs ++ iota 0 n in
        let v = select_victim (run xs (create n)) (replicate n true) in
        (v < n) × ((j : ℕ) → j < n → age j l ≤ age v l)
  select_victim-least_recent pos = victim_cases (reverse (run xs (create n)).lru_order) pos refl
