-- ===== src/Rings.antt =====
-- Tests on rings: the point-in-ring kernels of simd/mod.rs and simd/fallback.rs, and the area sum of
-- util.rs.
pub mod Rotate
mod Tests
use geo_repair.Prelude.{
  ℕ, zero, suc, Bool, true, false, not, ◌&&◌, ◌||◌, List, [], ◌∷◌, length, ltb, if◌then◌else◌,
}
use geo_repair.Geo.{Coord}
use geo_repair.Floats.{Floats, coord_eq}

-- `i32`, which a ring of less than 2 ^ 31 coordinates does not leave
pub data ℤ : Type 0 where
  pos : ℕ → ℤ
  negsuc : ℕ → ℤ

abbrev pub succ_int : ℤ → ℤ
succ_int (pos n) = pos (suc n)
succ_int (negsuc zero) = pos 0
succ_int (negsuc (suc n)) = negsuc n

abbrev pub pred_int : ℤ → ℤ
pred_int (pos zero) = negsuc 0
pred_int (pos (suc n)) = pos n
pred_int (negsuc n) = negsuc (suc n)

abbrev pub nonzero : ℤ → Bool
nonzero (pos zero) = false
nonzero (pos (suc _)) = true
nonzero (negsuc _) = true

-- `1e-12`
abbrev pub ring_eps : ℕ
ring_eps = 0x3d71_9799_812d_ea11

module _ (f : Floats) where
  unfoldable pub shoelace_from : ℕ → List Coord → ℕ
  shoelace_from sum [] = sum
  shoelace_from sum (a ∷ []) = sum
  shoelace_from sum (a ∷ b ∷ cs) =
      shoelace_from (f.add sum (f.sub (f.mul a.x b.y) (f.mul b.x a.y))) (b ∷ cs)

  unfoldable pub shoelace_sum : List Coord → ℕ
  shoelace_sum = shoelace_from 0

  -- the test `o` of the kernels
  abbrev pub side : Coord → Coord → Coord → ℕ
  side pt a b =
      f.sub (f.mul (f.sub b.x a.x) (f.sub pt.y a.y)) (f.mul (f.sub b.y a.y) (f.sub pt.x a.x))

  -- `(lo - hi).abs() > eps && v > lo.min(hi) + eps && v < lo.max(hi) - eps`
  unfoldable pub between : ℕ → ℕ → ℕ → Bool
  between v a b =
      f.lt ring_eps (f.abs (f.sub a b))
      && f.lt (f.add (f.min a b) ring_eps) v
      && f.lt v (f.sub (f.max a b) ring_eps)

  unfoldable pub on_segment : Coord → Coord → Coord → Bool
  on_segment pt a b =
      f.le (f.abs (side pt a b)) ring_eps
      && (between pt.x a.x b.x || between pt.y a.y b.y || coord_eq f pt a || coord_eq f pt b)

  unfoldable pub on_boundary : Coord → List Coord → Bool
  on_boundary pt [] = false
  on_boundary pt (a ∷ []) = false
  on_boundary pt (a ∷ b ∷ cs) = on_segment pt a b || on_boundary pt (b ∷ cs)

  unfoldable pub crossing : Coord → Coord → Coord → ℤ → ℤ
  crossing pt p1 p2 wn =
      if f.le p1.y pt.y
      then if f.lt pt.y p2.y && f.lt 0 (side pt p1 p2) then succ_int wn else wn
      else if f.le p2.y pt.y && f.lt (side pt p1 p2) 0
      then pred_int wn
      else wn

  unfoldable pub point_in_ring_scalar_loop : Coord → List Coord → ℤ → ℤ
  point_in_ring_scalar_loop pt [] wn = wn
  point_in_ring_scalar_loop pt (a ∷ []) wn = wn
  point_in_ring_scalar_loop pt (a ∷ b ∷ cs) wn =
      point_in_ring_scalar_loop pt (b ∷ cs) (crossing pt a b wn)

  unfoldable pub point_in_ring_exclusive : Coord → List Coord → Bool
  point_in_ring_exclusive pt coords =
      if ltb (length coords) 3
      then false
      else if on_boundary pt coords
      then false
      else nonzero (point_in_ring_scalar_loop pt coords (pos 0))

  unfoldable pub point_in_ring_inclusive : Coord → List Coord → Bool
  point_in_ring_inclusive pt coords =
      if ltb (length coords) 3
      then false
      else if on_boundary pt coords
      then true
      else point_in_ring_exclusive pt coords
