-- ===== src/Coherence/Safety.antt =====
-- The contract of a snooping protocol of src/core: caches that read and write one line, each of them
-- telling the others, never hold a copy to write beside another copy. Which states may be written
-- without telling (`sole`) is the protocols' documentation: Modified and Exclusive.
use cache_simulator.Prelude.{
  ℕ, ◌≡◌, ◌≢◌, ◌<◌, sym, ◌∙◌, arith, inl, inr, Bool, true, false, not, ◌&&◌, ◌||◌, ◌==◌, Bool-cases,
  if◌then◌else◌,
}
use cache_simulator.Coherence.Protocol.{CoherenceProtocol}

-- The states of one line in the caches, by the caches' numbers.
pub record Bus (P : CoherenceProtocol) : Type 0 where
  pub objects : ℕ → P.Object
  pub states : ℕ → ℕ

unfoldable pub idle : (P : CoherenceProtocol) → Bus P
idle P = record { objects = λ j. P.start; states = λ j. P.invalid_state }

abbrev pub reads : (P : CoherenceProtocol) → Bus P → ℕ → Bool → ℕ → P.Object × ℕ
reads P b i copy j =
    if j == i
    then P.handle_local_read (b.objects j) (b.states j) copy
    else P.handle_remote_read (b.objects j) (b.states j)

abbrev pub writes : (P : CoherenceProtocol) → Bus P → ℕ → ℕ → P.Object × ℕ
writes P b i j =
    if j == i
    then P.handle_local_write (b.objects j) (b.states j)
    else P.handle_remote_write (b.objects j) (b.states j)

-- A read or a write of cache `i`, which every other cache sees.
unfoldable pub read : (P : CoherenceProtocol) → Bus P → ℕ → Bool → Bus P
read P b i copy = record {
  objects = λ j. (reads P b i copy j).0;
  states = λ j. (reads P b i copy j).1;
}

unfoldable pub write : (P : CoherenceProtocol) → Bus P → ℕ → Bus P
write P b i = record { objects = λ j. (writes P b i j).0; states = λ j. (writes P b i j).1 }

unfoldable pub drop_copy : (P : CoherenceProtocol) → Bus P → ℕ → Bus P
drop_copy P b i = record b { states = λ j. if j == i then P.invalid_state else b.states j }

-- The buses that reads, writes and evictions lead to. A read is told of a copy wherever there is one.
pub data Reachable (P : CoherenceProtocol) : Bus P → Type 0 where
  started : Reachable P (idle P)
  after_read :
      (b : Bus P) (i : ℕ) (copy : Bool)
      → Reachable P b
      → ((j : ℕ) → j ≢ i → P.is_valid (b.states j) ≡ true → copy ≡ true)
      → Reachable P (read P b i copy)
  after_write : (b : Bus P) (i : ℕ) → Reachable P b → Reachable P (write P b i)
  after_drop : (b : Bus P) (i : ℕ) → Reachable P b → Reachable P (drop_copy P b i)

-- Beside a copy that may be written stands no other, and one copy at most is to be written back.
abbrev pub compatible : (P : CoherenceProtocol) → (ℕ → Bool) → ℕ → ℕ → Bool
compatible P sole s t =
    (not (sole s) || not (P.is_valid t))
    && (not (P.requires_writeback s) || not (P.requires_writeback t))

abbrev pub Friends : (P : CoherenceProtocol) → (ℕ → Bool) → ℕ → ℕ → Type 0
Friends P sole s t = (compatible P sole s t ≡ true) × (compatible P sole t s ≡ true)

-- What a protocol with `n` states keeps for two caches.
pub record SafeProtocol (P : CoherenceProtocol) (sole : ℕ → Bool) (n : ℕ) : Type 0 where
  pub invalid_friend : (t : ℕ) → t < n → (P.invalid_state < n) × Friends P sole P.invalid_state t
  pub read_pair :
      (o p : P.Object) (s t : ℕ) (copy : Bool)
      → s < n
      → t < n
      → Friends P sole s t
      → (P.is_valid t ≡ true → copy ≡ true)
      → Friends P sole (P.handle_local_read o s copy).1 (P.handle_remote_read p t).1
  pub snoop_pair :
      (o p : P.Object) (s t : ℕ)
      → s < n
      → t < n
      → Friends P sole s t
      → Friends P sole (P.handle_remote_read o s).1 (P.handle_remote_read p t).1
  pub write_pair :
      (o p : P.Object) (s t : ℕ)
      → s < n
      → t < n
      → Friends P sole (P.handle_local_write o s).1 (P.handle_remote_write p t).1
        × Friends P sole (P.handle_remote_write o s).1 (P.handle_remote_write p t).1
  pub in_range :
      (o : P.Object) (s : ℕ) (copy : Bool)
      → s < n
      → ((P.handle_local_read o s copy).1 < n)
        × ((P.handle_local_write o s).1 < n)
        × ((P.handle_remote_read o s).1 < n)
        × ((P.handle_remote_write o s).1 < n)

abbrev pub IsCoherent : (P : CoherenceProtocol) → (ℕ → Bool) → ℕ → Bus P → Type 0
IsCoherent P sole n b =
    ((j : ℕ) → b.states j < n) × ((j k : ℕ) → j ≢ k → Friends P sole (b.states j) (b.states k))

module _ (P : CoherenceProtocol) (sole : ℕ → Bool) (n : ℕ) (safe : SafeProtocol P sole n)
    (some_states : 0 < n) where
  idle-IsCoherent : IsCoherent P sole n (idle P)
  unfolding idle
  idle-IsCoherent =
      let start = (safe.invalid_friend 0 some_states).0 in
      (λ j. start, λ j k ne. (safe.invalid_friend P.invalid_state start).1)

  -- Friends are so in both orders.
  swap : (s t : ℕ) → Friends P sole s t → Friends P sole t s
  swap s t (h, k) = (k, h)

  -- A step in which one cache acts and the others look on.
  step-IsCoherent :
      (act look : ℕ → P.Object × ℕ) (i : ℕ)
      → ((act i).1 < n)
      → ((j : ℕ) → (look j).1 < n)
      → ((j : ℕ) → j ≢ i → Friends P sole (act i).1 (look j).1)
      → ((j k : ℕ) → j ≢ k → Friends P sole (look j).1 (look k).1)
      → ((j : ℕ) → (if j == i then act j else look j).1 < n)
        × ((j k : ℕ)
            → j ≢ k
            → Friends P sole
                (if j == i then act j else look j).1
                (if k == i then act k else look k).1)
  step-IsCoherent act look i acts looks pair pairs = (
    λ j. elim (Bool-cases (j == i)) [
      | inl y ↦ let here : j ≡ i = ground arith in rw (y, here) acts
      | inr x ↦ rw x (looks j)
    ],
    λ j k ne. elim (Bool-cases (j == i)) [
      | inl y ↦
          let here : j ≡ i = ground arith in
          let far : k ≢ i = λ e. ne (here ∙ sym e) in
          let there : (k == i) ≡ false = ground arith in rw (y, there, here) (pair k far)
      | inr x ↦ elim (Bool-cases (k == i)) [
        | inl y ↦
            let here : k ≡ i = ground arith in
            let far : j ≢ i = λ e. ne (e ∙ sym here) in
            rw (x, y, here) (swap (act i).1 (look j).1 (pair j far))
        | inr z ↦ rw (x, z) (pairs j k ne)
      ]
    ],
  )

  read-IsCoherent :
      (b : Bus P) (i : ℕ) (copy : Bool)
      → ((j : ℕ) → j ≢ i → P.is_valid (b.states j) ≡ true → copy ≡ true)
      → IsCoherent P sole n b
      → IsCoherent P sole n (read P b i copy)
  unfolding read
  read-IsCoherent b i copy told (range, friends) =
      step-IsCoherent (λ j. P.handle_local_read (b.objects j) (b.states j) copy)
        (λ j. P.handle_remote_read (b.objects j) (b.states j)) i
        (safe.in_range (b.objects i) (b.states i) copy (range i)).0
        (λ j. (safe.in_range (b.objects j) (b.states j) copy (range j)).2)
        (λ j ne.
          safe.read_pair (b.objects i) (b.objects j) (b.states i) (b.states j) copy (range i)
            (range j) (friends i j (λ e. ne (sym e))) (told j ne))
        (λ j k ne.
          safe.snoop_pair (b.objects j) (b.objects k) (b.states j) (b.states k) (range j) (range k)
            (friends j k ne))

  write-IsCoherent : (b : Bus P) (i : ℕ) → IsCoherent P sole n b → IsCoherent P sole n (write P b i)
  unfolding write
  write-IsCoherent b i (range, friends) =
      step-IsCoherent (λ j. P.handle_local_write (b.objects j) (b.states j))
        (λ j. P.handle_remote_write (b.objects j) (b.states j)) i
        (safe.in_range (b.objects i) (b.states i) true (range i)).1
        (λ j. (safe.in_range (b.objects j) (b.states j) true (range j)).3)
        (λ j ne.
          (safe.write_pair (b.objects i) (b.objects j) (b.states i) (b.states j) (range i)
            (range j)).0)
        (λ j k ne.
          (safe.write_pair (b.objects j) (b.objects k) (b.states j) (b.states k) (range j)
            (range k)).1)

  drop_copy-IsCoherent :
      (b : Bus P) (i : ℕ) → IsCoherent P sole n b → IsCoherent P sole n (drop_copy P b i)
  unfolding drop_copy
  drop_copy-IsCoherent b i (range, friends) = (
    λ j. elim (Bool-cases (j == i)) [
      | inl y ↦ rw y (safe.invalid_friend 0 some_states).0
      | inr x ↦ rw x (range j)
    ],
    λ j k ne. elim (Bool-cases (j == i)) [
      | inl y ↦
          let here : j ≡ i = ground arith in
          let far : k ≢ i = λ e. ne (here ∙ sym e) in
          let there : (k == i) ≡ false = ground arith in
          rw (y, there) (safe.invalid_friend (b.states k) (range k)).1
      | inr x ↦ elim (Bool-cases (k == i)) [
        | inl y ↦
            rw (x, y)
              (swap P.invalid_state (b.states j) (safe.invalid_friend (b.states j) (range j)).1)
        | inr z ↦ rw (x, z) (friends j k ne)
      ]
    ],
  )

  -- Every bus that reads, writes and evictions lead to is coherent.
  pub Reachable-IsCoherent : (b : Bus P) → Reachable P b → IsCoherent P sole n b
  Reachable-IsCoherent b started = idle-IsCoherent
  Reachable-IsCoherent b (after_read c i copy r told) =
      read-IsCoherent c i copy told (Reachable-IsCoherent c r)
  Reachable-IsCoherent b (after_write c i r) = write-IsCoherent c i (Reachable-IsCoherent c r)
  Reachable-IsCoherent b (after_drop c i r) = drop_copy-IsCoherent c i (Reachable-IsCoherent c r)
