-- ===== src/WritePolicy/Combining.antt =====
-- `WriteCombiningBuffer` of src/core/write_policy.h. The clock is a `uint64_t`, and a new entry's time stamp,
-- which the source leaves uninitialised, is 0 here: no entry is compared before all are written.
use cache_simulator.Prelude.{
  ℕ, ◌+◌, ◌%◌, Bool, true, false, not, ◌&&◌, List, [], ◌∷◌, none, some, ◌==◌, ltb, get_or, set,
  replicate, find_index, if◌then◌else◌, u64_mod,
}

pub record Entry : Type 0 where
  pub address : ℕ
  pub valid : Bool
  pub timestamp : ℕ

abbrev pub new_entry : Entry
new_entry = record { address = 0; valid = false; timestamp = 0 }

pub record WriteCombiningBuffer : Type 0 where
  pub entries : List Entry
  pub current_time : ℕ

unfoldable pub create : ℕ → WriteCombiningBuffer
create size = record { entries = replicate size new_entry; current_time = 0 }

abbrev pub is_for : ℕ → Entry → Bool
is_for address e = e.valid && e.address == address

-- `std::min_element`: the first of the least, `best` being the one found so far.
abbrev pub oldest_from : ℕ → ℕ → ℕ → List Entry → ℕ
oldest_from best time i [] = best
oldest_from best time i (e ∷ rest) =
    let later = oldest_from best time (i + 1) rest in
    let here = oldest_from i e.timestamp (i + 1) rest in
    if ltb e.timestamp time then here else later

unfoldable pub oldest : List Entry → ℕ
oldest [] = 0
oldest (e ∷ rest) = oldest_from 0 e.timestamp 1 rest

unfoldable pub try_write : WriteCombiningBuffer → ℕ → WriteCombiningBuffer × Bool
unfolding oldest
try_write b address =
    let now = (b.current_time + 1) % u64_mod in
    let written : Entry = record { address = address; valid = true; timestamp = now } in
    elim (find_index (is_for address) 0 b.entries) [
      | some i ↦ (
        record {
          entries = set b.entries i (record (get_or b.entries i new_entry) { timestamp = now });
          current_time = now;
        },
        true,
      )
      | none ↦ elim (find_index (λ e. not e.valid) 0 b.entries) [
        | some i ↦ (record { entries = set b.entries i written; current_time = now }, true)
        | none ↦
            (let i = oldest b.entries in
              let e = get_or b.entries i new_entry in
              (
                record {
                  entries = set b.entries i (record e { address = address; timestamp = now });
                  current_time = now;
                },
                false,
              ))
      ]
    ]

abbrev pub flushed : List Entry → List ℕ
flushed [] = []
flushed (e ∷ rest) = if e.valid then e.address ∷ flushed rest else flushed rest

abbrev pub emptied : List Entry → List Entry
emptied [] = []
emptied (e ∷ rest) = record e { valid = false } ∷ emptied rest

unfoldable pub flush : WriteCombiningBuffer → WriteCombiningBuffer × List ℕ
flush b = (record b { entries = emptied b.entries }, flushed b.entries)

abbrev pub count_valid : List Entry → ℕ
count_valid [] = 0
count_valid (e ∷ rest) = if e.valid then count_valid rest + 1 else count_valid rest

unfoldable pub get_occupancy : WriteCombiningBuffer → ℕ
get_occupancy b = count_valid b.entries
