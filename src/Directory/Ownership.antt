-- ===== src/Directory/Ownership.antt =====
-- The invariant of a directory entry, and the copies that it promises.
use cache_simulator.Prelude.{
  ℕ, ◌≡◌, ◌≢◌, ◌<◌, ◌^◌, refl, sym, ap, subst, arith, inl, inr, true, false, List, [], ◌∷◌, Option,
  some, ◌==◌, Bool-cases, if◌then◌else◌,
}
use cache_simulator.Coherence.Mesi.{MesiState, modified, exclusive, shared, invalid}
use cache_simulator.Directory.State.{
  DirectoryEntry, no_owner, CoherenceRequestType, read_request, write_request, invalidate_request,
  or_new, writeback_request, share_request, flush_request, CoherenceRequest, CoherenceResponse,
  CoherenceController, get_or_create_entry, put_entry,
}
use cache_simulator.Directory.Requests.{
  insert, read_owned, read_entry, write_owned, write_entry, serve, count_request, process_request,
  handle_writeback,
}

-- A processor's number is positive as an `int32_t`, so that it is no owner's -1.
abbrev pub IsProcessor : ℕ → Type 0
IsProcessor p = p < 2 ^ 31

-- The sharers and the owner that go with a state.
abbrev pub Agrees : MesiState → DirectoryEntry → Type 0
Agrees invalid e = (e.owner ≡ no_owner) × (e.sharers ≡ [])
Agrees exclusive e = IsProcessor e.owner × (e.sharers ≡ [])
Agrees modified e = IsProcessor e.owner × (e.sharers ≡ [])
Agrees shared e = (e.owner ≡ no_owner) × (e.sharers ≢ [])

abbrev pub IsConsistent : DirectoryEntry → Type 0
IsConsistent e = Agrees e.state e

insert_not_empty : (p : ℕ) (sharers : List ℕ) → insert p sharers ≢ []
insert_not_empty p [] e = absurd (cc)
insert_not_empty p (s ∷ rest) e = ground arith

read_owned-IsConsistent :
    (e : DirectoryEntry) (p latency : ℕ) → IsConsistent e → IsConsistent (read_owned e p latency).0
unfolding read_owned
read_owned-IsConsistent e p latency h = elim (Bool-cases (e.owner == p)) [
  | inl y ↦ rw (y, read_owned) h
  | inr n ↦ rw (n, read_owned) (refl, insert_not_empty p (insert e.owner e.sharers))
]

read_entry-IsConsistent :
    (s : MesiState) (e : DirectoryEntry) (p latency : ℕ)
    → e.state ≡ s
    → IsProcessor p
    → IsConsistent e
    → IsConsistent (read_entry s e p latency).0
unfolding read_entry
read_entry-IsConsistent invalid e p latency same hp h = (hp, (subst (λ s. Agrees s e) same h).1)
read_entry-IsConsistent exclusive e p latency same hp h = read_owned-IsConsistent e p latency h
read_entry-IsConsistent modified e p latency same hp h = read_owned-IsConsistent e p latency h
read_entry-IsConsistent shared e p latency same hp h =
    rw same ((subst (λ s. Agrees s e) same h).0, insert_not_empty p e.sharers)

write_owned-IsConsistent :
    (e : DirectoryEntry) (p latency : ℕ)
    → IsProcessor p
    → e.sharers ≡ []
    → IsConsistent (write_owned e p latency).0
unfolding write_owned
write_owned-IsConsistent e p latency hp none_shared = elim (Bool-cases (e.owner == p)) [
  | inl y ↦
      let same : e.owner ≡ p = ground arith in
      rw (y, write_owned) (subst IsProcessor (sym same) hp, none_shared)
  | inr n ↦ rw (n, write_owned) (hp, none_shared)
]

write_entry-IsConsistent :
    (s : MesiState) (e : DirectoryEntry) (p latency : ℕ)
    → e.state ≡ s
    → IsProcessor p
    → IsConsistent e
    → IsConsistent (write_entry s e p latency).0
unfolding write_entry
write_entry-IsConsistent invalid e p latency same hp h = (hp, (subst (λ s. Agrees s e) same h).1)
write_entry-IsConsistent exclusive e p latency same hp h =
    write_owned-IsConsistent e p latency hp (subst (λ s. Agrees s e) same h).1
write_entry-IsConsistent modified e p latency same hp h =
    write_owned-IsConsistent e p latency hp (subst (λ s. Agrees s e) same h).1
write_entry-IsConsistent shared e p latency same hp h = (hp, refl)

cleaned-Agrees :
    (s : MesiState) (e : DirectoryEntry) → Agrees s e → Agrees s (record e { dirty = false })
cleaned-Agrees invalid e h = h
cleaned-Agrees exclusive e h = h
cleaned-Agrees modified e h = h
cleaned-Agrees shared e h = h

pub serve-IsConsistent :
    (t : CoherenceRequestType) (e : DirectoryEntry) (p latency : ℕ)
    → IsProcessor p
    → IsConsistent e
    → IsConsistent (serve t e p latency).0
unfolding serve
serve-IsConsistent read_request e p latency hp h =
    read_entry-IsConsistent e.state e p latency refl hp h
serve-IsConsistent write_request e p latency hp h =
    write_entry-IsConsistent e.state e p latency refl hp h
serve-IsConsistent invalidate_request e p latency hp h = (refl, refl)
serve-IsConsistent writeback_request e p latency hp h = elim (Bool-cases (e.owner == p)) [
  | inl y ↦ rw (y, serve) (cleaned-Agrees e.state e h)
  | inr n ↦ rw (n, serve) h
]
serve-IsConsistent share_request e p latency hp h = h
serve-IsConsistent flush_request e p latency hp h = h

-- Every line of the directory is consistent.
abbrev pub DirectoryIsConsistent : CoherenceController → Type 0
DirectoryIsConsistent c = (a : ℕ) → IsConsistent (or_new (c.directory a))

count_request_lem :
    (t : CoherenceRequestType) (c : CoherenceController) (r : CoherenceResponse)
    → (count_request t c r).directory ≡ c.directory
unfolding count_request
count_request_lem read_request c r = refl
count_request_lem write_request c r = refl
count_request_lem invalidate_request c r = refl
count_request_lem writeback_request c r = refl
count_request_lem share_request c r = refl
count_request_lem flush_request c r = refl

-- A request replaces the entry of its address.
pub process_request_lem :
    (c : CoherenceController) (q : CoherenceRequest) (a : ℕ)
    → (process_request c q).0.directory a ≡ (
        if a == q.address
        then some
            (serve q.type (get_or_create_entry c q.address) q.requestor_id c.interconnect_latency).0
        else c.directory a)
unfolding process_request put_entry
process_request_lem c q a =
    let (e, r) =
      serve q.type (get_or_create_entry c q.address) q.requestor_id c.interconnect_latency in
    ap (λ (d : ℕ → Option DirectoryEntry). d a)
      (count_request_lem q.type (put_entry c q.address e) r)

-- A request keeps every line of the directory consistent, whatever its type and outcome.
pub process_request-DirectoryIsConsistent :
    (c : CoherenceController) (q : CoherenceRequest)
    → IsProcessor q.requestor_id
    → DirectoryIsConsistent c
    → DirectoryIsConsistent (process_request c q).0
unfolding get_or_create_entry
process_request-DirectoryIsConsistent c q hp h a =
    let served =
      serve-IsConsistent q.type (or_new (c.directory q.address)) q.requestor_id
        c.interconnect_latency hp (h q.address) in
    elim (Bool-cases (a == q.address)) [
      | inl y ↦ rw (process_request_lem c q a, y) served
      | inr n ↦ rw (process_request_lem c q a, n) (h a)
    ]

-- So does a write-back that the directory is told of.
pub handle_writeback-DirectoryIsConsistent :
    (c : CoherenceController) (p address : ℕ)
    → DirectoryIsConsistent c
    → DirectoryIsConsistent (handle_writeback c p address)
unfolding handle_writeback get_or_create_entry put_entry
handle_writeback-DirectoryIsConsistent c p address h a =
    let e = or_new (c.directory address) in
    let cleaned : IsConsistent (if e.owner == p then record e { dirty = false } else e) =
      elim (e.owner == p) as (λ b. IsConsistent (if b then record e { dirty = false } else e)) [
        | true ↦ cleaned-Agrees e.state e (h address)
        | false ↦ h address
      ] in
    elim (Bool-cases (a == address)) [ inl y ↦ rw y cleaned | inr n ↦ rw n (h a) ]
