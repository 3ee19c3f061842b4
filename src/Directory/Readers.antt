-- ===== src/Directory/Readers.antt =====
-- What a read request gives the reader, what it leaves to the others, and a read after the owner has
-- dropped its copy.
use cache_simulator.Prelude.{
  ℕ, ◌≡◌, ◌≢◌, refl, sym, ap, subst, arith, ◌∙◌, inl, inr, true, ◌||◌, List, ◌==◌, contains,
  without, Bool-cases,
}
use cache_simulator.Coherence.Mesi.{MesiState, modified, exclusive, shared, invalid, is_valid}
use cache_simulator.Directory.State.{
  DirectoryEntry, no_owner, read_request, or_new, CoherenceRequest, CoherenceController,
  get_or_create_entry, put_entry,
}
use cache_simulator.Directory.Requests.{
  insert, read_owned, read_entry, serve, process_request, update_cache_state, line_state,
  get_cache_line_state,
}
use cache_simulator.Directory.Ownership.{process_request_lem}
use cache_simulator.Directory.Writers.{line_lem}

abbrev pub read_by : ℕ → ℕ → CoherenceRequest
read_by p a = record { requestor_id = p; address = a; type = read_request }

contains-insert : (p o : ℕ) (xs : List ℕ) → contains o (insert p xs) ≡ (contains o xs || o == p)
contains-insert p o xs = elim (Bool-cases (contains p xs)) [
  | inl y ↦ elim (Bool-cases (o == p)) [
    | inl e ↦ let same : o ≡ p = ground arith in rw (y, same) (ground arith)
    | inr n ↦ rw y (ground arith)
  ]
  | inr n ↦ rw n (ground arith)
]

exclusive_not_invalid : exclusive ≢ invalid
exclusive_not_invalid e = absurd (cc)

exclusive_not_shared : exclusive ≢ shared
exclusive_not_shared e = absurd (cc)

invalid_line : (e : DirectoryEntry) (o : ℕ) → line_state invalid e o ≡ invalid
unfolding line_state
invalid_line e o = refl

sharer_line :
    (e : DirectoryEntry) (o : ℕ) → line_state shared e o ≢ invalid → contains o e.sharers ≡ true
unfolding line_state
sharer_line e o h = elim (Bool-cases (contains o e.sharers)) [
  | inl y ↦ y
  | inr n ↦ absurd (h (rw n refl))
]

shared_not_invalid : shared ≢ invalid
shared_not_invalid e = absurd (cc)

shared_line :
    (e : DirectoryEntry) (o : ℕ) → contains o e.sharers ≡ true → line_state shared e o ≡ shared
unfolding line_state
shared_line e o h = rw h refl

-- The reader's line and the line of another processor after a read.
abbrev Reads : ℕ → ℕ → MesiState → DirectoryEntry → MesiState → Type 0
Reads p o old e' new_state =
    (line_state new_state e' p ≢ invalid)
    × (o ≢ p → old ≢ invalid → line_state new_state e' o ≡ shared)

owned_line :
    (s : MesiState) (e : DirectoryEntry) (p : ℕ)
    → s ≢ invalid
    → s ≢ shared
    → e.owner ≡ p
    → line_state s e p ≡ s
unfolding line_state
owned_line invalid e p v u h = absurd (v refl)
owned_line shared e p v u h = absurd (u refl)
owned_line exclusive e p v u h = let same : (e.owner == p) ≡ true = ground arith in rw same refl
owned_line modified e p v u h = let same : (e.owner == p) ≡ true = ground arith in rw same refl

line_owner :
    (s : MesiState) (e : DirectoryEntry) (p : ℕ)
    → s ≢ shared
    → line_state s e p ≢ invalid
    → e.owner ≡ p
unfolding line_state
line_owner invalid e p u h = absurd (h refl)
line_owner shared e p u h = absurd (u refl)
line_owner exclusive e p u h = elim (Bool-cases (e.owner == p)) [
  | inl y ↦ ground arith
  | inr n ↦ absurd (h (rw n refl))
]
line_owner modified e p u h = elim (Bool-cases (e.owner == p)) [
  | inl y ↦ ground arith
  | inr n ↦ absurd (h (rw n refl))
]

read_owned_lines :
    (e : DirectoryEntry) (p o latency : ℕ)
    → e.state ≢ invalid
    → e.state ≢ shared
    → Reads p o (line_state e.state e o) (read_owned e p latency).0 (read_owned e p latency).0.state
unfolding read_owned
read_owned_lines e p o latency v u = elim (Bool-cases (e.owner == p)) [
  | inl y ↦
      let mine : e.owner ≡ p = ground arith in
      rw (y, read_owned)
        (
          (λ i. v (sym (owned_line e.state e p v u mine) ∙ i)),
          (λ ne h. absurd (ne (sym (line_owner e.state e o u h) ∙ mine))),
        )
  | inr n ↦
      let e' = record e {
        state = shared;
        sharers = insert p (insert e.owner e.sharers);
        owner = no_owner;
      } in
      let reader : contains p e'.sharers ≡ true =
        ground (arith, contains-insert p p (insert e.owner e.sharers)) in
      let owner : e.owner ≡ o → contains o e'.sharers ≡ true = λ same. ground (
        arith,
        contains-insert p o (insert e.owner e.sharers),
        contains-insert e.owner o e.sharers,
      ) in
      rw (n, read_owned)
        (
          (λ i. shared_not_invalid (sym (shared_line e' p reader) ∙ i)),
          (λ ne h. shared_line e' o (owner (line_owner e.state e o u h))),
        )
]

read_entry_lines :
    (s : MesiState) (e : DirectoryEntry) (p o latency : ℕ)
    → e.state ≡ s
    → Reads p o (line_state s e o) (read_entry s e p latency).0 (read_entry s e p latency).0.state
unfolding read_entry
read_entry_lines invalid e p o latency same =
    let e' = record e { state = exclusive; owner = p } in
    (
      λ i.
          exclusive_not_invalid
            (sym (owned_line exclusive e' p exclusive_not_invalid exclusive_not_shared refl) ∙ i),
      λ ne h. absurd (h (invalid_line e o)),
    )
read_entry_lines exclusive e p o latency same =
    subst
      (λ s.
        Reads p o (line_state s e o) (read_owned e p latency).0 (read_owned e p latency).0.state)
      same (read_owned_lines e p o latency (λ i. absurd (cc)) (λ i. absurd (cc)))
read_entry_lines modified e p o latency same =
    subst
      (λ s.
        Reads p o (line_state s e o) (read_owned e p latency).0 (read_owned e p latency).0.state)
      same (read_owned_lines e p o latency (λ i. absurd (cc)) (λ i. absurd (cc)))
read_entry_lines shared e p o latency same =
    let e' = record e { sharers = insert p e.sharers } in
    let reader : contains p e'.sharers ≡ true = ground (arith, contains-insert p p e.sharers) in
    subst (λ s. Reads p o (line_state shared e o) e' s) (sym same)
      (
        (λ i. shared_not_invalid (sym (shared_line e' p reader) ∙ i)),
        (λ ne h.
            shared_line e' o (ground (arith, contains-insert p o e.sharers, sharer_line e o h))),
      )

read_entry_at :
    (c : CoherenceController) (p a : ℕ)
    → get_or_create_entry (process_request c (read_by p a)).0 a
      ≡ (read_entry
          (get_or_create_entry c a).state
          (get_or_create_entry c a)
          p
          c.interconnect_latency).0
unfolding get_or_create_entry serve
read_entry_at c p a =
    let here : (a == a) ≡ true = ground arith in
    ap or_new (process_request_lem c (read_by p a) a) ∙ rw here refl

-- A read request gives its processor a copy, and every other processor that had one before, the owner
-- of a modified line included, has a shared copy afterwards.
pub process_request-shared :
    (c : CoherenceController) (p a : ℕ)
    → let c' = (process_request c (read_by p a)).0 in
      (get_cache_line_state c' p a ≢ invalid)
      × ((o : ℕ)
          → o ≢ p
          → get_cache_line_state c o a ≢ invalid
          → get_cache_line_state c' o a ≡ shared)
process_request-shared c p a =
    let e = get_or_create_entry c a in
    let (e', r) = read_entry e.state e p c.interconnect_latency in
    let c' = (process_request c (read_by p a)).0 in
    let at : (o : ℕ) → get_cache_line_state c' o a ≡ line_state e'.state e' o = λ o.
      line_lem c' o a ∙ ap (λ (d : DirectoryEntry). line_state d.state d o) (read_entry_at c p a) in
    (
      λ i. (read_entry_lines e.state e p p c.interconnect_latency refl).0 (sym (at p) ∙ i),
      λ o ne h.
          at o
          ∙ (read_entry_lines e.state e p o c.interconnect_latency refl).1 ne
              (λ i. h (line_lem c o a ∙ i)),
    )

update_cache_state_at :
    (c : CoherenceController) (p a : ℕ) (s : MesiState)
    → (get_or_create_entry c a).owner ≡ p
    → get_or_create_entry (update_cache_state c p a s invalid) a
      ≡ record (get_or_create_entry c a) {
        sharers = without p (get_or_create_entry c a).sharers;
        owner = no_owner;
      }
unfolding get_or_create_entry update_cache_state put_entry is_valid
update_cache_state_at c p a s mine =
    let here : (a == a) ≡ true = ground arith in
    let same : ((get_or_create_entry c a).owner == p) ≡ true = ground arith in rw (here, same) refl

-- When the owner of an exclusive line reports that it has dropped its copy, the next read of a
-- processor makes the number of no processor, the owner -1, a sharer of the line.
pub process_request-no_owner :
    (c : CoherenceController) (p r a : ℕ) (s : MesiState)
    → (get_or_create_entry c a).state ≡ exclusive
    → (get_or_create_entry c a).owner ≡ p
    → r ≢ no_owner
    → get_cache_line_state
        (process_request (update_cache_state c p a s invalid) (read_by r a)).0
        no_owner
        a
      ≡ shared
process_request-no_owner c p r a s state mine ne =
    let c1 = update_cache_state c p a s invalid in
    let c2 = (process_request c1 (read_by r a)).0 in
    let e = get_or_create_entry c1 a in
    let dropped = update_cache_state_at c p a s mine in
    let left : e.state ≡ exclusive = ap (λ (d : DirectoryEntry). d.state) dropped ∙ state in
    let none_left : e.owner ≡ no_owner = ap (λ (d : DirectoryEntry). d.owner) dropped in
    let before : line_state e.state e no_owner ≢ invalid = λ i. exclusive_not_invalid (
      sym left
      ∙ sym (owned_line e.state e no_owner (λ j. absurd (cc)) (λ j. absurd (cc)) none_left)
      ∙ i) in
    (process_request-shared c1 r a).1 no_owner (λ j. ne (sym j))
      (λ i. before (sym (line_lem c1 no_owner a) ∙ i))
