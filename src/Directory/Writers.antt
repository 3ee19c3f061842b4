-- ===== src/Directory/Writers.antt =====
-- What a write request gives the writer, and what it takes from the others.
use cache_simulator.Prelude.{
  ℕ, ◌≡◌, ◌≢◌, refl, sym, ap, arith, ◌∙◌, inl, inr, true, false, not, ◌&&◌, [], ◌∷◌, ◌==◌, contains,
  without, Bool-cases, Option-cases, if◌then◌else◌, contains-append, contains-without_ne,
}
use cache_simulator.Coherence.Mesi.{MesiState, modified, exclusive, shared, invalid}
use cache_simulator.Directory.State.{
  DirectoryEntry, write_request, or_new, CoherenceRequest, CoherenceController, get_or_create_entry,
}
use cache_simulator.Directory.Requests.{
  invalidate_sharers, is_owned, write_owned, write_entry, serve, process_request, line_state,
  get_cache_line_state,
}
use cache_simulator.Directory.Ownership.{process_request_lem}

write_owned_lem :
    (e : DirectoryEntry) (p latency : ℕ)
    → ((write_owned e p latency).0.state ≡ modified) × ((write_owned e p latency).0.owner ≡ p)
unfolding write_owned
write_owned_lem e p latency = elim (Bool-cases (e.owner == p)) [
  | inl y ↦ let same : e.owner ≡ p = ground arith in rw (y, write_owned) (refl, same)
  | inr n ↦ rw (n, write_owned) (refl, refl)
]

write_entry_lem :
    (s : MesiState) (e : DirectoryEntry) (p latency : ℕ)
    → ((write_entry s e p latency).0.state ≡ modified) × ((write_entry s e p latency).0.owner ≡ p)
unfolding write_entry
write_entry_lem invalid e p latency = (refl, refl)
write_entry_lem exclusive e p latency = write_owned_lem e p latency
write_entry_lem modified e p latency = write_owned_lem e p latency
write_entry_lem shared e p latency = (refl, refl)

write_owned_invalidates :
    (e : DirectoryEntry) (p o latency : ℕ)
    → o ≢ p
    → e.owner ≡ o
    → contains o (write_owned e p latency).1.invalidated_processors ≡ true
unfolding write_owned
write_owned_invalidates e p o latency ne same =
    let differ : (e.owner == p) ≡ false = ground arith in rw (differ, write_owned) (ground arith)

invalidate_sharers-contains :
    (e : DirectoryEntry) (p o : ℕ)
    → o ≢ p
    → contains o e.sharers ≡ true
    → contains o (invalidate_sharers e p) ≡ true
unfolding invalidate_sharers
invalidate_sharers-contains e p o ne h =
    let others = without p e.sharers in
    let kept : contains o others ≡ true = contains-without_ne p o e.sharers (λ q. ne (sym q)) ∙ h in
    elim (Bool-cases (is_owned e && not (e.owner == p))) [
      | inl y ↦ rw (y, invalidate_sharers, contains-append o others (e.owner ∷ []), kept) refl
      | inr n ↦ rw (n, invalidate_sharers) kept
    ]

write_entry_invalidates :
    (s : MesiState) (e : DirectoryEntry) (p o latency : ℕ)
    → o ≢ p
    → line_state s e o ≢ invalid
    → contains o (write_entry s e p latency).1.invalidated_processors ≡ true
unfolding write_entry line_state
write_entry_invalidates invalid e p o latency ne h = absurd (h refl)
write_entry_invalidates exclusive e p o latency ne h = elim (Bool-cases (e.owner == o)) [
  | inl y ↦ write_owned_invalidates e p o latency ne (ground arith)
  | inr n ↦ absurd (h (rw (n, line_state) refl))
]
write_entry_invalidates modified e p o latency ne h = elim (Bool-cases (e.owner == o)) [
  | inl y ↦ write_owned_invalidates e p o latency ne (ground arith)
  | inr n ↦ absurd (h (rw (n, line_state) refl))
]
write_entry_invalidates shared e p o latency ne h = elim (Bool-cases (contains o e.sharers)) [
  | inl y ↦ invalidate_sharers-contains e p o ne y
  | inr n ↦ absurd (h (rw (n, line_state) refl))
]

-- The line of a directory as an entry's: a line without an entry is invalid.
pub line_lem :
    (c : CoherenceController) (p a : ℕ)
    → get_cache_line_state c p a
      ≡ line_state (get_or_create_entry c a).state (get_or_create_entry c a) p
unfolding get_cache_line_state get_or_create_entry line_state
line_lem c p a = elim (Option-cases (c.directory a)) [
  | inl e ↦ rw (e, get_cache_line_state) refl
  | inr (d, e) ↦ rw (e, get_cache_line_state) refl
]

-- A line that is modified for its owner.
modified_lines :
    (e : DirectoryEntry) (p o : ℕ)
    → e.state ≡ modified
    → e.owner ≡ p
    → line_state e.state e o ≡ (if p == o then modified else invalid)
unfolding line_state
modified_lines e p o s w = rw (s, w) refl

abbrev pub write_by : ℕ → ℕ → CoherenceRequest
write_by p a = record { requestor_id = p; address = a; type = write_request }

written_entry :
    (c : CoherenceController) (p a : ℕ)
    → get_or_create_entry (process_request c (write_by p a)).0 a
      ≡ (write_entry
          (get_or_create_entry c a).state
          (get_or_create_entry c a)
          p
          c.interconnect_latency).0
unfolding get_or_create_entry serve
written_entry c p a =
    let here : (a == a) ≡ true = ground arith in
    ap or_new (process_request_lem c (write_by p a) a) ∙ rw here refl

-- A write request makes its processor the one with a copy: the line is modified for it and invalid
-- for every other, and each processor that had a copy before is among those that the answer names
-- for invalidation.
pub process_request-modified :
    (c : CoherenceController) (p a : ℕ)
    → let (c', response) = process_request c (write_by p a) in
      ((o : ℕ) → get_cache_line_state c' o a ≡ (if p == o then modified else invalid))
      × ((o : ℕ)
          → o ≢ p
          → get_cache_line_state c o a ≢ invalid
          → contains o response.invalidated_processors ≡ true)
unfolding process_request serve
process_request-modified c p a =
    let q = write_by p a in
    let e = get_or_create_entry c a in
    let c' = (process_request c q).0 in
    let e' = (write_entry e.state e p c.interconnect_latency).0 in
    let wrote = write_entry_lem e.state e p c.interconnect_latency in
    (
      λ o.
          let here : get_or_create_entry c' a ≡ e' = written_entry c p a in
          line_lem c' o a
          ∙ ap (λ (d : DirectoryEntry). line_state d.state d o) here
          ∙ modified_lines e' p o wrote.0 wrote.1,
      λ o ne h.
          write_entry_invalidates e.state e p o c.interconnect_latency ne
            (λ i. h (line_lem c o a ∙ i)),
    )
