-- ===== src/Prefetch/Learning.antt =====
-- What a stride predictor learns.
use cache_simulator.Prelude.{
  ℕ, ◌+◌, ◌%◌, ◌≡◌, ◌<◌, ◌≤◌, ◌≢◌, refl, ap, ◌∙◌, arith, inl, inr, true, ◌&&◌, List, leb, ◌==◌,
  length, get_or, set, min, Bool-cases, if◌then◌else◌, length-set, get_or-set_self, get_or-set_ne,
}
use native.Mathlib.Nat.{mod-lt}
use cache_simulator.Prefetch.StridePredictor.{
  Entry, empty_entry, StridePredictor, stride_between, train, slot, update_valid, update,
  get_stride,
}

abbrev pub entry_at : StridePredictor → ℕ → Entry
entry_at p i = get_or p.table i empty_entry

-- Every confidence is at most 3.
abbrev pub IsBounded : StridePredictor → Type 0
IsBounded p = (i : ℕ) → (entry_at p i).confidence ≤ 3

train-confidence_le : (e : Entry) (a : ℕ) → e.confidence ≤ 3 → (train e a).confidence ≤ 3
unfolding train
train-confidence_le e a h = ground arith

slot-lt : (p : StridePredictor) (a : ℕ) → 0 < length p.table → slot p a < length p.table
unfolding slot
slot-lt p a h = mod-lt a h

-- The entry of an access afterwards.
abbrev seen : Entry → ℕ → Entry
seen e a =
    if e.valid
    then train e a
    else record e { valid = true; stride = 0; confidence = 0; last_address = a }

update_lem :
    (p : StridePredictor) (a : ℕ)
    → (update p a).table ≡ set p.table (slot p a) (seen (entry_at p (slot p a)) a)
unfolding update update_valid
update_lem p a = elim (Bool-cases (entry_at p (slot p a)).valid) [
  | inl y ↦ rw (y, update) refl
  | inr n ↦ rw (n, update) refl
]

seen-confidence_le : (e : Entry) (a : ℕ) → e.confidence ≤ 3 → (seen e a).confidence ≤ 3
unfolding train
seen-confidence_le e a h = ground arith

-- An entry that sees its stride once more.
seen_again :
    (e : Entry) (a : ℕ)
    → e.valid ≡ true
    → stride_between e.last_address a ≡ e.stride
    → seen e a ≡ record e { confidence = min (e.confidence + 1) 3; last_address = a }
unfolding train
seen_again e a valid again =
    let same : (stride_between e.last_address a == e.stride) ≡ true = ground arith in
    rw (valid, same, train) refl

-- The slot of an address does not move, and it holds what has been seen.
same_slot : (p : StridePredictor) (a : ℕ) → slot (update p a) a ≡ slot p a
unfolding slot
same_slot p a =
    ap (λ n. a % n)
      (ap length (update_lem p a) ∙ length-set p.table (slot p a) (seen (entry_at p (slot p a)) a))

seen_at :
    (p : StridePredictor) (a : ℕ)
    → 0 < length p.table
    → entry_at (update p a) (slot (update p a) a) ≡ seen (entry_at p (slot p a)) a
seen_at p a h =
    let e' = seen (entry_at p (slot p a)) a in
    ap (λ i. entry_at (update p a) i) (same_slot p a)
    ∙ ap (λ (t : List Entry). get_or t (slot p a) empty_entry) (update_lem p a)
    ∙ get_or-set_self p.table (slot p a) e' empty_entry (slot-lt p a h)

predicts :
    (p : StridePredictor) (a : ℕ) (e : Entry)
    → entry_at p (slot p a) ≡ e
    → e.valid ≡ true
    → 2 ≤ e.confidence
    → get_stride p a ≡ e.stride
unfolding get_stride
predicts p a e here valid confident =
    let sure : (e.valid && leb 2 e.confidence) ≡ true = ground arith in
    let taken : (if e.valid && leb 2 e.confidence then e.stride else 0) ≡ e.stride = ground arith in
    ap (λ (d : Entry). if d.valid && leb 2 d.confidence then d.stride else 0) here ∙ taken

-- An update keeps every confidence at 3 or below, and an entry that sees its stride once more, with some
-- confidence in it already, predicts that stride.
pub update-get_stride :
    (p : StridePredictor) (a : ℕ)
    → 0 < length p.table
    → IsBounded p
    → IsBounded (update p a)
      × ((entry_at p (slot p a)).valid ≡ true
          → stride_between (entry_at p (slot p a)).last_address a ≡ (entry_at p (slot p a)).stride
          → 1 ≤ (entry_at p (slot p a)).confidence
          → get_stride (update p a) a ≡ (entry_at p (slot p a)).stride)
update-get_stride p a some_slots bounded =
    let i = slot p a in
    let e = entry_at p i in
    let lt = slot-lt p a some_slots in
    (
      λ j. elim (Bool-cases (i == j)) [
        | inl y ↦
            let here : i ≡ j = ground arith in
            rw (update_lem p a, ← here, get_or-set_self p.table i (seen e a) empty_entry lt)
              (seen-confidence_le e a (bounded i))
        | inr n ↦
            let other : i ≢ j = λ same. absurd (ground arith) in
            rw (update_lem p a, get_or-set_ne p.table i j (seen e a) empty_entry other) (bounded j)
      ],
      λ valid again confident.
          predicts (update p a) a
            (record e { confidence = min (e.confidence + 1) 3; last_address = a })
            (seen_at p a some_slots ∙ seen_again e a valid again) valid (ground arith),
    )
