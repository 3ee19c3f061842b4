-- ===== src/Replacement/Fifo/Oldest.antt =====
-- The victim of `FIFOPolicy`, by stamps and by the history of installations.
use mathlib.Core.List.{append-nil}
use native.Mathlib.Nat.{zero-add}
use cache_simulator.Prelude.{
  ℕ, zero, suc, ◌+◌, ◌-◌, ◌≤◌, ◌<◌, ◌≡◌, refl, sym, ap, subst, ◌∙◌, ◌⊎◌, inl, inr, Bool, true,
  false, ◌&&◌, List, [], ◌∷◌, ◌++◌, Option, none, some, arith, ltb, length, get_or, replicate,
  reverse, All, contains, age, u64_mod, length-set, length-map, length-reverse, length-replicate,
  get_or-replicate, get_or-set_self, get_or-set_ne, reverse_onto, Bool-cases,
}
use cache_simulator.Replacement.Fifo.{FifoPolicy, create, oldest_from, on_install, select_victim}

module _ (order : List ℕ) where
  abbrev stamp : ℕ → ℕ
  stamp j = get_or order j 0

  -- The best block so far and its stamp.
  abbrev Seen : Option ℕ → ℕ → Type 0
  Seen none t = Unit {0}
  Seen (some u) t = stamp u ≡ t

  taken :
      (b : Bool) (bs : List Bool) (i t : ℕ) (v : Option ℕ)
      → (b && ltb (stamp i) t) ≡ true
      → oldest_from (b ∷ bs) order i v t ≡ oldest_from bs order (i + 1) (some i) (stamp i)
  unfolding oldest_from
  taken b bs i t v y = rw y

  kept :
      (b : Bool) (bs : List Bool) (i t : ℕ) (v : Option ℕ)
      → (b && ltb (stamp i) t) ≡ false
      → oldest_from (b ∷ bs) order i v t ≡ oldest_from bs order (i + 1) v t
  unfolding oldest_from
  kept b bs i t v n = rw n

  -- What the scan of `bs` from index `i` on has found: a block no younger than any valid one,
  -- which is valid itself or was the best one before.
  abbrev Best : List Bool → ℕ → ℕ → Option ℕ → ℕ → Type 0
  Best bs i t v r =
      (stamp r ≤ t)
      × ((j : ℕ) → get_or bs j false ≡ true → stamp r ≤ stamp (i + j))
      × ((v ≡ some r) ⊎ ((k : ℕ) × (k < length bs) × (r ≡ i + k) × (get_or bs k false ≡ true)))

  Best-taken :
      (b : Bool) (bs : List Bool) (i t r : ℕ) (v : Option ℕ)
      → (b && ltb (stamp i) t) ≡ true
      → Best bs (i + 1) (stamp i) (some i) r
      → Best (b ∷ bs) i t v r
  Best-taken b bs i t r v y (le, least, found) = (ground arith, younger, where_found found)
    where
      younger : (j : ℕ) → get_or (b ∷ bs) j false ≡ true → stamp r ≤ stamp (i + j)
      younger zero h = let e : i + 0 ≡ i = omega arith in rw e le
      younger (suc j) h = let e : i + suc j ≡ i + 1 + j = omega arith in rw e (least j h)

      where_found :
          (some i ≡ some r)
            ⊎ ((k : ℕ) × (k < length bs) × (r ≡ i + 1 + k) × (get_or bs k false ≡ true))
          → (v ≡ some r)
            ⊎ ((k : ℕ) × (k < suc (length bs)) × (r ≡ i + k) × (get_or (b ∷ bs) k false ≡ true))
      where_found (inl e) = inr (0, omega arith, ground arith, ground arith)
      where_found (inr (k, lt, e, h)) = inr (suc k, omega arith, omega arith, h)

  Best-kept :
      (b : Bool) (bs : List Bool) (i t r : ℕ) (v : Option ℕ)
      → (b && ltb (stamp i) t) ≡ false
      → Best bs (i + 1) t v r
      → Best (b ∷ bs) i t v r
  Best-kept b bs i t r v n (le, least, found) = (le, younger, where_found found)
    where
      younger : (j : ℕ) → get_or (b ∷ bs) j false ≡ true → stamp r ≤ stamp (i + j)
      younger zero h = let e : i + 0 ≡ i = omega arith in rw e (ground arith)
      younger (suc j) h = let e : i + suc j ≡ i + 1 + j = omega arith in rw e (least j h)

      where_found :
          (v ≡ some r) ⊎ ((k : ℕ) × (k < length bs) × (r ≡ i + 1 + k) × (get_or bs k false ≡ true))
          → (v ≡ some r)
            ⊎ ((k : ℕ) × (k < suc (length bs)) × (r ≡ i + k) × (get_or (b ∷ bs) k false ≡ true))
      where_found (inl e) = inl e
      where_found (inr (k, lt, e, h)) = inr (suc k, omega arith, omega arith, h)

  scan-Best :
      (bs : List Bool) (i t r : ℕ) (v : Option ℕ)
      → Seen v t
      → oldest_from bs order i v t ≡ some r
      → Best bs i t v r
  scan-Best [] i t r none s e = absurd (unfold oldest_from in cc)
  scan-Best [] i t r (some u) s e =
      let e' : u ≡ r = unfold oldest_from in cc in
      (omega (arith, ap stamp e'), λ j h. absurd (cc), inl (ap some e'))
  scan-Best (b ∷ bs) i t r v s e = elim (Bool-cases (b && ltb (stamp i) t)) [
    | inl y ↦
        Best-taken b bs i t r v y
          (scan-Best bs (i + 1) (stamp i) r (some i) refl (sym (taken b bs i t v y) ∙ e))
    | inr n ↦ Best-kept b bs i t r v n (scan-Best bs (i + 1) t r v s (sym (kept b bs i t v n) ∙ e))
  ]

  -- The scan finds a block once it has one, or where one has a stamp below the best so far.
  scan_some : (bs : List Bool) (i t u : ℕ) → (r : ℕ) × (oldest_from bs order i (some u) t ≡ some r)
  unfolding oldest_from
  scan_some [] i t u = (u, refl)
  scan_some (b ∷ bs) i t u = elim (Bool-cases (b && ltb (stamp i) t)) [
    | inl y ↦ rw y (scan_some bs (i + 1) (stamp i) i)
    | inr n ↦ rw n (scan_some bs (i + 1) t u)
  ]

  scan_finds :
      (bs : List Bool) (i t j : ℕ) (v : Option ℕ)
      → get_or bs j false ≡ true
      → stamp (i + j) < t
      → (r : ℕ) × (oldest_from bs order i v t ≡ some r)
  scan_finds [] i t j v h lt = absurd (cc)
  scan_finds (b ∷ bs) i t zero v h lt =
      let e : stamp (i + 0) ≡ stamp i = ap stamp (omega arith) in
      let (r, found) = scan_some bs (i + 1) (stamp i) i in
      (r, taken b bs i t v (ground arith) ∙ found)
  scan_finds (b ∷ bs) i t (suc j) v h lt = elim (Bool-cases (b && ltb (stamp i) t)) [
    | inl y ↦ let (r, found) = scan_some bs (i + 1) (stamp i) i in (r, taken b bs i t v y ∙ found)
    | inr n ↦
        let e : stamp (i + suc j) ≡ stamp (i + 1 + j) = ap stamp (omega arith) in
        let (r, found) = scan_finds bs (i + 1) t j v h (omega arith) in
        (r, kept b bs i t v n ∙ found)
  ]

select_victim_found :
    (p : FifoPolicy) (valid : List Bool) (r : ℕ)
    → oldest_from valid p.fifo_order 0 none (u64_mod - 1) ≡ some r
    → select_victim p valid ≡ r
unfolding select_victim
select_victim_found p valid r e = rw (e, select_victim)

-- Where some valid block has a stamp below the largest one, the victim is a valid block, and no
-- valid block has a smaller stamp.
pub select_victim-oldest :
    (p : FifoPolicy) (valid : List Bool) (j : ℕ)
    → get_or valid j false ≡ true
    → get_or p.fifo_order j 0 < u64_mod - 1
    → let v = select_victim p valid in
      (v < length valid)
      × (get_or valid v false ≡ true)
      × ((k : ℕ) → get_or valid k false ≡ true → get_or p.fifo_order v 0 ≤ get_or p.fifo_order k 0)
select_victim-oldest p valid j h lt =
    let order = p.fifo_order in
    let (r, found) = scan_finds order valid 0 (u64_mod - 1) j none h (rw zero-add lt) in
    let best = scan-Best order valid 0 (u64_mod - 1) r none tt found in
    rw (select_victim_found p valid r found)
      (here best.2, there best.2, λ k hk. rw zero-add at (best.1 k hk))
  where
    here :
        {r : ℕ}
        → (none ≡ some r)
          ⊎ ((k : ℕ) × (k < length valid) × (r ≡ 0 + k) × (get_or valid k false ≡ true))
        → r < length valid
    here (inl e) = absurd (cc)
    here (inr (k, less, e, hk)) = omega arith

    there :
        {r : ℕ}
        → (none ≡ some r)
          ⊎ ((k : ℕ) × (k < length valid) × (r ≡ 0 + k) × (get_or valid k false ≡ true))
        → get_or valid r false ≡ true
    there (inl e) = absurd (cc)
    there {r} (inr (k, less, e, hk)) = let e' : r ≡ k = omega arith in rw e' hk

-- Whatever the stamps, the victim is in range.
pub select_victim-lt :
    (p : FifoPolicy) (valid : List Bool) → 0 < length valid → select_victim p valid < length valid
select_victim-lt p valid pos = go (oldest_from valid p.fifo_order 0 none (u64_mod - 1)) refl
  where
    go :
        (o : Option ℕ)
        → oldest_from valid p.fifo_order 0 none (u64_mod - 1) ≡ o
        → select_victim p valid < length valid
    go none e = unfold select_victim in rw (e, select_victim) pos
    go (some r) e =
        rw (select_victim_found p valid r e)
          (within (scan-Best p.fifo_order valid 0 (u64_mod - 1) r none tt e).2)
      where
        within :
            (none ≡ some r)
              ⊎ ((k : ℕ) × (k < length valid) × (r ≡ 0 + k) × (get_or valid k false ≡ true))
            → r < length valid
        within (inl e) = absurd (cc)
        within (inr (k, less, e, hk)) = omega arith

-- The policy after installations, oldest first.
unfoldable pub install_all : List ℕ → FifoPolicy → FifoPolicy
install_all [] p = p
install_all (x ∷ xs) p = install_all xs (on_install p x)

-- `l` is the history of the installations, newest first: each stamp is the time of the last one.
record Stamped (n : ℕ) (p : FifoPolicy) (l : List ℕ) : Type 0 where
  width : length p.fifo_order ≡ n
  counted : p.install_counter ≡ length l
  stamps : (j : ℕ) → j < n → contains j l ≡ true → get_or p.fifo_order j 0 + age j l + 1 ≡ length l

on_install-Stamped :
    (n x : ℕ) (p : FifoPolicy) (l : List ℕ)
    → x < n
    → length l + 1 < u64_mod
    → Stamped n p l
    → Stamped n (on_install p x) (x ∷ l)
unfolding on_install
on_install-Stamped n x p l h room s = record {
  width = length-set p.fifo_order x p.install_counter ∙ s.width;
  counted = omega (arith, s.counted);
  stamps = λ j b c. ground (
    arith,
    s.counted,
    s.width,
    s.stamps j,
    get_or-set_self p.fifo_order x p.install_counter 0,
    get_or-set_ne p.fifo_order x j p.install_counter 0,
  );
}

install_all-Stamped :
    (n : ℕ) (xs l : List ℕ) (p : FifoPolicy)
    → All (λ x. x < n) xs
    → length xs + length l < u64_mod
    → Stamped n p l
    → Stamped n (install_all xs p) (reverse xs ++ l)
unfolding install_all
install_all-Stamped n [] l p h room s = s
install_all-Stamped n (x ∷ xs) l p h room s = rw (reverse_onto x xs l) (
    install_all-Stamped n xs (x ∷ l) (on_install p x) h.1 (omega arith)
      (on_install-Stamped n x p l h.0 (omega arith) s))

create-Stamped : (n : ℕ) → Stamped n (create n) []
unfolding create
create-Stamped n = record {
  width = length-map (replicate n 0) (λ t. 0) ∙ length-replicate n 0;
  counted = refl;
  stamps = λ j b c. absurd (cc);
}

-- After any history that installs every block, the victim among all-valid ways is a way whose last
-- installation is the oldest; `age` counts how many installations are newer. The history is
-- shorter than the counter's range.
pub select_victim-first_in :
    (n : ℕ) (xs : List ℕ)
    → 0 < n
    → All (λ x. x < n) xs
    → length xs + 1 < u64_mod
    → ((j : ℕ) → j < n → contains j (reverse xs) ≡ true)
    → let v = select_victim (install_all xs (create n)) (replicate n true) in
      (v < n) × ((j : ℕ) → j < n → age j (reverse xs) ≤ age v (reverse xs))
select_victim-first_in n xs pos h room full =
    let p = install_all xs (create n) in
    let l = reverse xs in
    let s : Stamped n p l =
      subst (Stamped n p) (append-nil l)
        (install_all-Stamped n xs [] (create n) h (omega arith) (create-Stamped n)) in
    let size : length l ≡ length xs = length-reverse xs in
    let (less, valid, least) =
      select_victim-oldest p (replicate n true) 0 (get_or-replicate n 0 true false pos)
        (omega (arith, s.stamps 0 pos (full 0 pos))) in
    let v = select_victim p (replicate n true) in
    let small : v < n = omega (arith, length-replicate n true) in
    (
      small,
      λ j b. omega (
        arith,
        least j (get_or-replicate n j true false b),
        s.stamps j b (full j b),
        s.stamps v small (full v small),
      ),
    )
