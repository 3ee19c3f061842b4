-- ===== src/Interconnect/Ring/Shortest.antt =====
-- `calculateHops` of `RingInterconnect` of src/core/multiprocessor/interconnect.h against walks on the ring.
use cache_simulator.Prelude.{
  ℕ, zero, suc, ◌+◌, ◌-◌, ◌≤◌, ◌<◌, ◌≡◌, refl, subst, ◌⊎◌, inl, inr, ltb, min, Bool-cases, arith,
  u32_mod,
}
use cache_simulator.Interconnect.Mesh.{distance}
use cache_simulator.Interconnect.Ring.{calculate_hops}

-- One link clockwise, and one in either direction, on a ring of `n` nodes.
abbrev pub Clockwise : ℕ → ℕ → ℕ → Type 0
Clockwise n a b = (a + 1 ≡ b) ⊎ ((a + 1 ≡ n) × (b ≡ 0))

abbrev pub RingLink : ℕ → ℕ → ℕ → Type 0
RingLink n a b = Clockwise n a b ⊎ Clockwise n b a

-- A walk over `k` links.
abbrev pub Walk : ℕ → ℕ → ℕ → ℕ → Type 0
Walk n zero a b = a ≡ b
Walk n (suc k) a b = (c : ℕ) × (c < n) × RingLink n a c × Walk n k c b

-- For two nodes of the ring the unsigned arithmetic does not wrap.
calculate_hops_lem :
    (n a b : ℕ)
    → n < u32_mod
    → a < n
    → b < n
    → calculate_hops n a b ≡ min (distance a b) (n - distance a b)
unfolding calculate_hops
calculate_hops_lem n a b hn ha hb = ground arith

-- Clockwise without passing the end of the numbering, and passing it once.
ascend : (n k a b : ℕ) → b < n → a + k ≡ b → Walk n k a b
ascend n zero a b hb h = omega arith
ascend n (suc k) a b hb h =
    (a + 1, omega arith, inl (inl refl), ascend n k (a + 1) b hb (omega arith))

ascend_around : (n k a b : ℕ) → a < n → b < n → a + k ≡ b + n → Walk n k a b
ascend_around n zero a b ha hb h = absurd (omega arith)
ascend_around n (suc k) a b ha hb h = elim (Bool-cases (ltb (a + 1) n)) [
  | inl more ↦
      let m : a + 1 < n = ground arith in
      (a + 1, m, inl (inl refl), ascend_around n k (a + 1) b m hb (omega arith))
  | inr last ↦
      let e : a + 1 ≡ n = ground arith in
      (0, omega arith, inl (inr (e, refl)), ascend n k 0 b hb (omega arith))
]

-- The same counter-clockwise.
descend : (n k a b : ℕ) → a < n → b + k ≡ a → Walk n k a b
descend n zero a b ha h = omega arith
descend n (suc k) a b ha h =
    (a - 1, omega arith, inr (inl (omega arith)), descend n k (a - 1) b (omega arith) (omega arith))

descend_around : (n k a b : ℕ) → a < n → b < n → b + k ≡ a + n → Walk n k a b
descend_around n zero a b ha hb h = absurd (omega arith)
descend_around n (suc k) zero b ha hb h = (
  n - 1,
  omega arith,
  inr (inr (omega arith, refl)),
  descend n k (n - 1) b (omega arith) (omega arith),
)
descend_around n (suc k) (suc a) b ha hb h =
    (a, omega arith, inr (inl (omega arith)), descend_around n k a b (omega arith) hb (omega arith))

min_walk : (n x y a b : ℕ) → Walk n x a b → Walk n y a b → Walk n (min x y) a b
min_walk n x y a b p q = elim (Bool-cases (ltb x y)) [
  | inl less ↦ let e : x ≡ min x y = ground arith in subst (λ k. Walk n k a b) e p
  | inr more ↦ let e : y ≡ min x y = ground arith in subst (λ k. Walk n k a b) e q
]

-- Each of the two ways round is a walk, and so is the shorter one.
shorter_way : (n a b : ℕ) → a < n → b < n → Walk n (min (distance a b) (n - distance a b)) a b
shorter_way n a b ha hb = elim (Bool-cases (ltb a b)) [
  | inl up ↦
      let lt : a < b = ground arith in
      rw up (
        min_walk n (b - a) (n - (b - a)) a b (ascend n (b - a) a b hb (omega arith))
          (descend_around n (n - (b - a)) a b ha hb (omega arith)))
  | inr down ↦
      let le : b ≤ a = ground arith in
      rw down (
        min_walk n (a - b) (n - (a - b)) a b (descend n (a - b) a b ha (omega arith))
          (ascend_around n (n - (a - b)) a b ha hb (omega arith)))
]

-- A link changes the number of hops by at most one.
hops-link :
    (n a b c : ℕ)
    → a < n
    → b < n
    → c < n
    → RingLink n a c
    → min (distance a b) (n - distance a b) ≤ suc (min (distance c b) (n - distance c b))
hops-link n a b c ha hb hc (inl (inl e)) = ground arith
hops-link n a b c ha hb hc (inl (inr (e, e'))) = ground arith
hops-link n a b c ha hb hc (inr (inl e)) = ground arith
hops-link n a b c ha hb hc (inr (inr (e, e'))) = ground arith

no_walk_shorter :
    (n k a b : ℕ) → a < n → b < n → Walk n k a b → min (distance a b) (n - distance a b) ≤ k
no_walk_shorter n zero a b ha hb walk = ground arith
no_walk_shorter n (suc k) a b ha hb (c, hc, link, rest) =
    omega (arith, hops-link n a b c ha hb hc link, no_walk_shorter n k c b hc hb rest)

-- Between two nodes of a ring whose size fits in 32 bits the number of hops is the length of a
-- walk over the links of the ring, and no walk is shorter.
pub calculate_hops-shortest :
    (n a b : ℕ)
    → n < u32_mod
    → a < n
    → b < n
    → Walk n (calculate_hops n a b) a b × ((k : ℕ) → Walk n k a b → calculate_hops n a b ≤ k)
calculate_hops-shortest n a b hn ha hb =
    rw (calculate_hops_lem n a b hn ha hb)
      (shorter_way n a b ha hb, λ k walk. no_walk_shorter n k a b ha hb walk)
