-- ===== src/Prefetch/Capacity.antt =====
-- The room of a stream buffer.
use cache_simulator.Prelude.{
  ℕ, suc, ◌+◌, ◌≡◌, ◌<◌, ◌≤◌, refl, ap, arith, inl, inr, true, false, List, [], ◌∷◌, none, ◌==◌,
  length, find_index, Option-cases, find_index-some, length-drop,
}
use cache_simulator.Prefetch.StreamBuffer.{StreamBuffer, access, prefetch, sequential, shift}

length-sequential : (a i : ℕ) (xs : List ℕ) → length (sequential a i xs) ≡ length xs
unfolding sequential
length-sequential a i [] = refl
length-sequential a i (x ∷ xs) = ap suc (length-sequential a (i + 1) xs)

access_room : (s : StreamBuffer) (a : ℕ) → length (access s a).0.buffer ≡ length s.buffer
unfolding access
access_room s a = elim (Option-cases (find_index (λ b. b == a) 0 s.buffer)) [
  | inl absent ↦ rw (absent, access) refl
  | inr (r, found) ↦ rw (found, access) refl
]

shift_room : (s : StreamBuffer) → length (shift s).buffer ≤ length s.buffer
unfolding shift
shift_room s = elim (Option-cases s.last_accessed_index) [
  | inl e ↦ rw (e, shift) (omega arith)
  | inr (i, e) ↦ rw (e, shift) (omega (arith, length-drop (suc i) s.buffer))
]

hit_found :
    (s : StreamBuffer) (a : ℕ)
    → find_index (λ b. b == a) 0 s.buffer ≡ none
    → ¬ ((access s a).1 ≡ true)
unfolding access
hit_found s a absent was_hit =
    let missed : (access s a).1 ≡ false = rw (absent, access) refl in absurd (cc)

-- A lookup and a prefetch keep the number of slots of a stream buffer; a shift never adds one, and
-- the shift after a hit leaves fewer.
pub shift-shrinks :
    (s : StreamBuffer) (a : ℕ)
    → (length (access s a).0.buffer ≡ length s.buffer)
      × (length (prefetch s a).buffer ≡ length s.buffer)
      × (length (shift s).buffer ≤ length s.buffer)
      × ((access s a).1 ≡ true → length (shift (access s a).0).buffer < length s.buffer)
unfolding access prefetch shift
shift-shrinks s a = (
  access_room s a,
  length-sequential a 0 s.buffer,
  shift_room s,
  λ was_hit. elim (Option-cases (find_index (λ b. b == a) 0 s.buffer)) [
    | inl absent ↦ absurd (hit_found s a absent was_hit)
    | inr (r, found) ↦
        let (k, e, lt, y) = find_index-some (λ b. b == a) (a + 1) 0 r s.buffer found in
        rw (found, access, shift)
          (omega (arith, length-drop (suc r) (access s a).0.buffer, access_room s a))
  ],
)
