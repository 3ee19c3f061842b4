-- ===== src/WritePolicy/Buffered.antt =====
-- What a write-combining buffer holds after a write.
use cache_simulator.Prelude.{
  ℕ, zero, suc, ◌+◌, ◌%◌, ◌≡◌, ◌<◌, ◌≤◌, refl, arith, inl, inr, true, false, not, List, [], ◌∷◌,
  ltb, get_or, set, length, contains, find_index, Bool-cases, Option-cases, find_index-some,
  find_index-none, get_or-set_self, get_or_in_range, u64_mod,
}
use cache_simulator.WritePolicy.Combining.{
  Entry, WriteCombiningBuffer, new_entry, is_for, oldest_from, oldest, try_write, flushed, flush,
}

oldest_from-lt :
    (best time i n : ℕ) (xs : List Entry)
    → best < n
    → i + length xs ≤ n
    → oldest_from best time i xs < n
oldest_from-lt best time i n [] h k = h
oldest_from-lt best time i n (e ∷ rest) h k = elim (Bool-cases (ltb e.timestamp time)) [
  | inl y ↦ rw y (oldest_from-lt i e.timestamp (i + 1) n rest (omega arith) (omega arith))
  | inr x ↦ rw x (oldest_from-lt best time (i + 1) n rest h (omega arith))
]

oldest-lt : (xs : List Entry) → 0 < length xs → oldest xs < length xs
unfolding oldest
oldest-lt [] h = h
oldest-lt (e ∷ rest) h = oldest_from-lt 0 e.timestamp 1 (length (e ∷ rest)) rest h (omega arith)

flushed_holds :
    (a k : ℕ) (xs : List Entry)
    → is_for a (get_or xs k new_entry) ≡ true
    → contains a (flushed xs) ≡ true
flushed_holds a k [] h = absurd (ground arith)
flushed_holds a zero (e ∷ rest) h = ground arith
flushed_holds a (suc k) (e ∷ rest) h = ground (arith, flushed_holds a k rest h)

-- A written address is in a buffer that has a slot, so that a flush that follows writes it out;
-- the answer is false only where every entry was valid and none was for the address.
pub try_write-flush :
    (b : WriteCombiningBuffer) (a : ℕ)
    → 0 < length b.entries
    → (contains a (flush (try_write b a).0).1 ≡ true)
      × ((try_write b a).1 ≡ false
          → (j : ℕ) → j < length b.entries
          → ((get_or b.entries j new_entry).valid ≡ true)
            × (is_for a (get_or b.entries j new_entry) ≡ false))
unfolding try_write flush
try_write-flush b a some_slots =
    let now = (b.current_time + 1) % u64_mod in
    elim (Option-cases (find_index (is_for a) 0 b.entries)) [
      | inr (r, held) ↦
          let (k, e, lt, y) = find_index-some (is_for a) new_entry 0 r b.entries held in
          let same : r ≡ k = omega arith in
          let renewed = record (get_or b.entries k new_entry) { timestamp = now } in
          rw (held, try_write, same)
            (
              flushed_holds a k (set b.entries k renewed)
                  (rw (get_or-set_self b.entries k renewed new_entry lt) y),
              λ refused. absurd (cc),
            )
      | inl absent ↦ elim (Option-cases (find_index (λ e. not e.valid) 0 b.entries)) [
        | inr (r, room) ↦
            let (k, e, lt, y) =
              find_index-some (λ e. not e.valid) (record new_entry { valid = true }) 0 r b.entries
                room in
            let same : r ≡ k = omega arith in
            let written : Entry = record { address = a; valid = true; timestamp = now } in
            rw (absent, try_write, room, same)
              (
                flushed_holds a k (set b.entries k written)
                    (rw (get_or-set_self b.entries k written new_entry lt) (ground arith)),
                λ refused. absurd (cc),
              )
        | inl full ↦
            let d = record new_entry { valid = true } in
            let valid : (j : ℕ)
                → j < length b.entries
                → (get_or b.entries j new_entry).valid ≡ true =
              λ j lt.
                let y = find_index-none (λ e. not e.valid) d 0 j b.entries refl full in
                rw (get_or_in_range b.entries j new_entry d lt) (ground arith) in
            let k = oldest b.entries in
            let lt = oldest-lt b.entries some_slots in
            let old = get_or b.entries k new_entry in
            let placed = record old { address = a; timestamp = now } in
            let y : is_for a placed ≡ true = ground (arith, valid k lt) in
            rw (absent, try_write, full)
              (
                flushed_holds a k (set b.entries k placed)
                    (rw (get_or-set_self b.entries k placed new_entry lt) y),
                λ refused j hj. (
                  valid j hj,
                  find_index-none (is_for a) new_entry 0 j b.entries (ground arith) absent,
                ),
              )
      ]
    ]
