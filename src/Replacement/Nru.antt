-- ===== src/Replacement/Nru.antt =====
-- `NRUPolicy` of src/core/replacement_policy.h: one reference bit for each block.
pub mod Referenced
use cache_simulator.Prelude.{
  ℕ, ◌+◌, ◌*◌, Bool, true, false, not, ◌&&◌, List, [], ◌∷◌, Option, none, some, leb, get_or, set,
  replicate, if◌then◌else◌, map, first_valid,
}

pub record NruPolicy : Type 0 where
  pub reference_bits : List Bool
  pub access_counter : ℕ
  pub clear_interval : ℕ

unfoldable pub create : ℕ → NruPolicy
create n = record { reference_bits = replicate n false; access_counter = 0; clear_interval = n * 4 }

unfoldable pub reset : NruPolicy → NruPolicy
reset p = record p { reference_bits = map (λ b. false) p.reference_bits; access_counter = 0 }

unfoldable pub on_access : NruPolicy → ℕ → NruPolicy
unfolding reset
on_access p i =
    let marked = record p {
      reference_bits = set p.reference_bits i true;
      access_counter = p.access_counter + 1;
    } in
    if leb p.clear_interval (p.access_counter + 1) then reset marked else marked

unfoldable pub on_install : NruPolicy → ℕ → NruPolicy
on_install p i = record p { reference_bits = set p.reference_bits i true }

-- The first loop of `selectVictim`: a valid block whose bit is clear.
unfoldable pub unreferenced_from : List Bool → List Bool → ℕ → Option ℕ
unreferenced_from [] bits i = none
unreferenced_from (valid ∷ rest) bits i =
    if valid && not (get_or bits i false) then some i else unreferenced_from rest bits (i + 1)

unfoldable pub select_victim : NruPolicy → List Bool → NruPolicy × ℕ
unfolding unreferenced_from reset
select_victim p valid = elim (unreferenced_from valid p.reference_bits 0) [
  | some i ↦ (p, i)
  | none ↦ (reset p, first_valid valid)
]
