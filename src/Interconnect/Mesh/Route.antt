-- ===== src/Interconnect/Mesh/Route.antt =====
-- The XY routing of `MeshInterconnect` of src/core/multiprocessor/interconnect.cpp.
use native.Mathlib.Nat.{mod-lt, div-add-mod'}
use cache_simulator.Prelude.{
  ℕ, zero, suc, ◌+◌, ◌*◌, ◌/◌, ◌%◌, ◌≤◌, ◌<◌, ◌≡◌, refl, sym, ap, subst, ◌∙◌, ◌⊎◌, inl, inr, true,
  false, List, [], ◌∷◌, ◌++◌, length, length-append, ◌==◌, ltb, Bool-cases, All, All-append, arith,
  u32_mod,
}
use cache_simulator.Interconnect.Mesh.{
  coordinates_to_id, toward, route_dimension, distance, calculate_route,
}
use cache_simulator.Interconnect.Mesh.Coordinates.{
  coordinates_to_id_lem, coordinates_to_id-mod, coordinates_to_id-div, coordinates_to_id-lt, row-lt,
}

-- One of two numbers follows the other.
abbrev pub Adjacent : ℕ → ℕ → Type 0
Adjacent a b = (a + 1 ≡ b) ⊎ (b + 1 ≡ a)

-- Two nodes of a mesh of `w` columns that a link joins: in one row, or in one column.
abbrev pub IsLink : ℕ → ℕ → ℕ → Type 0
IsLink w a b =
    ((a / w ≡ b / w) × Adjacent (a % w) (b % w)) ⊎ ((a % w ≡ b % w) × Adjacent (a / w) (b / w))

-- From `a` over the nodes of the list to `b`, along links.
abbrev pub IsPath : ℕ → ℕ → List ℕ → ℕ → Type 0
IsPath w a [] b = a ≡ b
IsPath w a (c ∷ route) b = IsLink w a c × IsPath w c route b

pub IsPath-append :
    (w a b c : ℕ) (xs ys : List ℕ) → IsPath w a xs b → IsPath w b ys c → IsPath w a (xs ++ ys) c
IsPath-append w a b c [] ys p q = subst (λ n. IsPath w n ys c) (sym p) q
IsPath-append w a b c (n ∷ xs) ys p q = (p.0, IsPath-append w n b c xs ys p.1 q)

-- A round moves to the next coordinate, which stays within the bound and is nearer.
pub toward_lem :
    (s d bound fuel : ℕ)
    → s < bound
    → d < bound
    → distance s d ≡ suc fuel
    → Adjacent s (toward s d) × (toward s d < bound) × (distance (toward s d) d ≡ fuel)
unfolding toward
toward_lem s d bound fuel hs hd far = elim (Bool-cases (ltb s d)) [
  | inl up ↦ (inl (ground arith), ground arith, ground arith)
  | inr down ↦ (inr (ground arith), ground arith, ground arith)
]

-- A dimension, whose coordinates below `bound` are nodes: the links between them, and what holds of each.
module _ (w bound : ℕ) (node : ℕ → ℕ)
    (link : (a b : ℕ) → a < bound → b < bound → Adjacent a b → IsLink w (node a) (node b))
    (limit : ℕ) (inside : (a : ℕ) → a < bound → node a < limit) where
  -- The loop ends at its target, along links, after as many rounds as the distance.
  route_dimension_lem :
      (fuel s d : ℕ)
      → s < bound
      → d < bound
      → distance s d ≡ fuel
      → IsPath w (node s) (route_dimension node fuel s d) (node d)
        × (length (route_dimension node fuel s d) ≡ fuel)
        × All (λ n. n < limit) (route_dimension node fuel s d)
  unfolding route_dimension
  route_dimension_lem zero s d hs hd near = (ap node (ground arith), refl, tt)
  route_dimension_lem (suc fuel) s d hs hd near =
      let (step, within, nearer) = toward_lem s d bound fuel hs hd near in
      let (path, count, all) = route_dimension_lem fuel (toward s d) d within hd nearer in
      let apart : (s == d) ≡ false = ground arith in
      rw apart ((link s (toward s d) hs within step, path), ap suc count, (inside _ within, all))

-- What a route of the whole grid is: it starts at its source, follows links to its destination, stays
-- within the grid, and takes as many links as rows and columns lie between the two.
abbrev pub IsRoute : ℕ → ℕ → ℕ → ℕ → List ℕ → Type 0
IsRoute w h source dest [] = ⊥
IsRoute w h source dest (node ∷ rest) =
    (node ≡ source)
    × IsPath w source rest dest
    × (length rest ≡ distance (source % w) (dest % w) + distance (source / w) (dest / w))
    × All (λ n. n < w * h) rest

module _ (w h : ℕ) (fits : w * h ≤ u32_mod) where
  coordinates_of : (n : ℕ) → 0 < w → n < w * h → coordinates_to_id w (n % w) (n / w) ≡ n
  coordinates_of n pos below =
      coordinates_to_id_lem w h fits (mod-lt n pos) (row-lt w h fits n pos below) ∙ div-add-mod' n w

  IsLink-of_row :
      (y : ℕ)
      → y < h
      → (a b : ℕ) → a < w
      → b < w
      → Adjacent a b
      → IsLink w (coordinates_to_id w a y) (coordinates_to_id w b y)
  IsLink-of_row y hy a b ha hb adj =
      rw
        (
          coordinates_to_id-mod w h fits ha hy,
          coordinates_to_id-mod w h fits hb hy,
          coordinates_to_id-div w h fits ha hy,
          coordinates_to_id-div w h fits hb hy,
        )
        (inl (refl, adj))

  IsLink-of_column :
      (x : ℕ)
      → x < w
      → (a b : ℕ) → a < h
      → b < h
      → Adjacent a b
      → IsLink w (coordinates_to_id w x a) (coordinates_to_id w x b)
  IsLink-of_column x hx a b ha hb adj =
      rw
        (
          coordinates_to_id-mod w h fits hx ha,
          coordinates_to_id-mod w h fits hx hb,
          coordinates_to_id-div w h fits hx ha,
          coordinates_to_id-div w h fits hx hb,
        )
        (inr (refl, adj))

  calculate_route_self : (n : ℕ) → IsRoute w h n n (calculate_route w n n)
  unfolding calculate_route
  calculate_route_self n =
      let same : (n == n) ≡ true = ground arith in rw same (refl, refl, ground arith, tt)

  module _ (source dest : ℕ) (pos : 0 < w) (hs : source < w * h) (hd : dest < w * h) where
    row_of_source : source / w < h
    row_of_source = row-lt w h fits source pos hs

    row_of_dest : dest / w < h
    row_of_dest = row-lt w h fits dest pos hd

    -- The corner of the route: the row of the source, the column of the destination.
    corner : ℕ
    corner = coordinates_to_id w (dest % w) (source / w)

    along_row : List ℕ
    along_row =
        route_dimension (λ x. coordinates_to_id w x (source / w)) (distance (source % w) (dest % w))
          (source % w) (dest % w)

    along_column : List ℕ
    along_column =
        route_dimension (λ y. coordinates_to_id w (dest % w) y) (distance (source / w) (dest / w))
          (source / w) (dest / w)

    along_row_lem :
        IsPath w source along_row corner
        × (length along_row ≡ distance (source % w) (dest % w))
        × All (λ n. n < w * h) along_row
    unfolding corner along_row
    along_row_lem =
        let (path, count, all) =
          route_dimension_lem w w (λ x. coordinates_to_id w x (source / w))
            (IsLink-of_row (source / w) row_of_source) (w * h)
            (λ x hx. coordinates_to_id-lt w h fits hx row_of_source)
            (distance (source % w) (dest % w)) (source % w) (dest % w) (mod-lt source pos)
            (mod-lt dest pos) refl in
        (subst (λ n. IsPath w n along_row corner) (coordinates_of source pos hs) path, count, all)

    along_column_lem :
        IsPath w corner along_column dest
        × (length along_column ≡ distance (source / w) (dest / w))
        × All (λ n. n < w * h) along_column
    unfolding corner along_column
    along_column_lem =
        let (path, count, all) =
          route_dimension_lem w h (λ y. coordinates_to_id w (dest % w) y)
            (IsLink-of_column (dest % w) (mod-lt dest pos)) (w * h)
            (λ y hy. coordinates_to_id-lt w h fits (mod-lt dest pos) hy)
            (distance (source / w) (dest / w)) (source / w) (dest / w) row_of_source row_of_dest
            refl in
        (subst (λ n. IsPath w corner along_column n) (coordinates_of dest pos hd) path, count, all)

    calculate_route_far :
        (source == dest) ≡ false
        → calculate_route w source dest ≡ source ∷ (along_row ++ along_column)
    unfolding calculate_route along_row along_column
    calculate_route_far apart = rw apart

    -- On a full grid of `w` columns and `h` rows, whose numbers fit in 32 bits, the route between two
    -- nodes starts at the source and follows links to the destination, within the grid and with
    -- no detour.
    pub calculate_route-IsRoute : IsRoute w h source dest (calculate_route w source dest)
    calculate_route-IsRoute = elim (Bool-cases (source == dest)) [
      | inl same ↦
          let e : source ≡ dest = ground arith in
          subst (λ d. IsRoute w h source d (calculate_route w source d)) e
            (calculate_route_self source)
      | inr apart ↦
          let (p, n, a) = along_row_lem in
          let (q, m, b) = along_column_lem in
          rw (calculate_route_far apart) (
            refl,
            IsPath-append w source corner dest along_row along_column p q,
            omega (arith, length-append along_row along_column),
            All-append (λ n. n < w * h) along_row along_column a b,
          )
    ]
