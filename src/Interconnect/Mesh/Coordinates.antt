-- ===== src/Interconnect/Mesh/Coordinates.antt =====
-- The coordinates of `MeshInterconnect` of src/core/multiprocessor/interconnect.cpp on a full grid.
use native.Mathlib.Nat.{
  mul-add-mod_self_right, mul-add-div_right, mul-le-mul_right, div-lt_iff_lt-mul, mod-eq_of_lt,
  div-eq_of_lt,
}
use cache_simulator.Prelude.{ℕ, suc, ◌+◌, ◌*◌, ◌/◌, ◌%◌, ◌≤◌, ◌<◌, ◌≡◌, ◌∙◌, arith, u32_mod}
use cache_simulator.Interconnect.Mesh.{coordinates_to_id}

-- A grid of `w` columns and `h` rows whose nodes fit in 32 bits.
module _ (w h : ℕ) (fits : w * h ≤ u32_mod) where
  module _ {x y : ℕ} (hx : x < w) (hy : y < h) where
    pub id-lt : y * w + x < w * h
    id-lt = let rows : suc y * w ≤ h * w = mul-le-mul_right w hy in grind arith

    pub coordinates_to_id_lem : coordinates_to_id w x y ≡ y * w + x
    unfolding coordinates_to_id
    coordinates_to_id_lem =
        let below : y * w + x < u32_mod = omega (arith, id-lt) in
        let row : y * w % u32_mod ≡ y * w = mod-eq_of_lt (omega arith) in
        rw (row, mod-eq_of_lt below)

    pub coordinates_to_id-mod : coordinates_to_id w x y % w ≡ x
    coordinates_to_id-mod =
        rw coordinates_to_id_lem (mul-add-mod_self_right y w x ∙ mod-eq_of_lt hx)

    pub coordinates_to_id-div : coordinates_to_id w x y / w ≡ y
    coordinates_to_id-div =
        let whole : (y * w + x) / w ≡ y + x / w = mul-add-div_right (omega arith) y x in
        let rest : x / w ≡ 0 = div-eq_of_lt hx in rw coordinates_to_id_lem (omega arith)

    pub coordinates_to_id-lt : coordinates_to_id w x y < w * h
    coordinates_to_id-lt = rw coordinates_to_id_lem id-lt

  -- The row of a node is a row of the grid.
  pub row-lt : (n : ℕ) → 0 < w → n < w * h → n / w < h
  row-lt n pos below = (div-lt_iff_lt-mul pos).1 (grind arith)
