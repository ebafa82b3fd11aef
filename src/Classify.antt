-- ===== src/Classify.antt =====
-- structure/classify.rs: which holes of a polygon lie inside its shell, with the bounding box of
-- simd/fallback.rs. `from_usize` is the cast of a length to f64. A coordinate's bits are its numbers
-- here. `sort_unstable` on pairs of numbers is a stable sort, which gives the same list.
pub mod Agree
pub mod RingSet
mod Tests
use geo_repair.Prelude.{
  ℕ, suc, Bool, true, false, not, ◌&&◌, ◌||◌, List, [], ◌∷◌, ◌++◌, Option, none, some, length,
  last_or, drop_last, sort_onto, ltb, ◌==◌, if◌then◌else◌,
}
use geo_repair.Geo.{Coord, LineString}
use geo_repair.Floats.{Floats}
use geo_repair.Rings.{point_in_ring_exclusive, point_in_ring_inclusive}

-- `(min_x, max_x, min_y, max_y)`
pub record Bbox : Type 0 where
  pub min_x : ℕ
  pub max_x : ℕ
  pub min_y : ℕ
  pub max_y : ℕ

-- the box of no coordinates, from `f64::MAX` and `f64::MIN`
abbrev pub no_box : Bbox
no_box = record {
  min_x = 0x7fef_ffff_ffff_ffff;
  max_x = 0xffef_ffff_ffff_ffff;
  min_y = 0x7fef_ffff_ffff_ffff;
  max_y = 0xffef_ffff_ffff_ffff;
}

abbrev same_coord : Coord → Coord → Bool
same_coord a b = a.x == b.x && a.y == b.y

abbrev less_coord : Coord → Coord → Bool
less_coord a b = ltb a.x b.x || (a.x == b.x && ltb a.y b.y)

abbrev same_coords : List Coord → List Coord → Bool
same_coords [] [] = true
same_coords [] (_ ∷ _) = false
same_coords (_ ∷ _) [] = false
same_coords (a ∷ rest) (b ∷ rest') = let same = same_coords rest rest' in same_coord a b && same

-- without the last coordinate of a ring that ends where it starts
abbrev pub open_set : List Coord → List Coord
open_set [] = []
open_set (c ∷ cs) = if same_coord c (last_or c cs) then drop_last (c ∷ cs) else c ∷ cs

unfoldable pub ring_set_equal : LineString → LineString → Bool
ring_set_equal a b =
    if not (length a == length b)
    then false
    else if not (length (open_set a) == length (open_set b))
    then false
    else same_coords (sort_onto less_coord (open_set a) []) (sort_onto less_coord (open_set b) [])

module _ (f : Floats) (from_usize : ℕ → ℕ) where
  unfoldable pub aabb_from : Bbox → List Coord → Bbox
  aabb_from b [] = b
  aabb_from b (c ∷ cs) =
      aabb_from
        (record {
          min_x = f.min b.min_x c.x;
          max_x = f.max b.max_x c.x;
          min_y = f.min b.min_y c.y;
          max_y = f.max b.max_y c.y;
        })
        cs

  unfoldable pub aabb_minmax : List Coord → Bbox
  aabb_minmax = aabb_from no_box

  unfoldable pub bboxes_overlap : Bbox → Bbox → Bool
  bboxes_overlap a b =
      f.le a.min_x b.max_x && f.le b.min_x a.max_x && f.le a.min_y b.max_y && f.le b.min_y a.max_y

  unfoldable pub sum_coords : Coord → List Coord → Coord
  sum_coords acc [] = acc
  sum_coords acc (c ∷ cs) = sum_coords (record { x = f.add acc.x c.x; y = f.add acc.y c.y }) cs

  unfoldable pub mean_of : List Coord → Coord
  mean_of cs =
      let sum = sum_coords (record { x = 0; y = 0 }) cs in
      record { x = f.div sum.x (from_usize (length cs)); y = f.div sum.y (from_usize (length cs)) }

  -- the loop over the vertices: `none` where it returns, and else `any_outside`
  unfoldable pub scan_hole : LineString → List Coord → Bool → Option Bool
  scan_hole shell [] any_outside = some any_outside
  scan_hole shell (pt ∷ pts) any_outside =
      let rest =
        scan_hole shell pts (if point_in_ring_inclusive f pt shell then any_outside else true) in
      if point_in_ring_exclusive f pt shell then none else rest

  unfoldable pub is_hole_outside : LineString → LineString → Bool
  is_hole_outside [] shell = true
  is_hole_outside (first ∷ pts) shell =
      if point_in_ring_exclusive f first shell
      then false
      else elim (scan_hole shell (first ∷ pts) false) [
        | none ↦ false
        | some any_outside ↦
            if not any_outside && not (ring_set_equal (first ∷ pts) shell)
            then not (point_in_ring_exclusive f (mean_of (first ∷ pts)) shell)
            else true
      ]

  -- how the loops of `classify_holes` test a hole
  unfoldable pub is_outer : LineString → LineString → Bool
  is_outer shell hole =
      if not (bboxes_overlap (aabb_minmax shell) (aabb_minmax hole))
      then true
      else is_hole_outside hole shell

  -- the loop without threads: the inner holes and the outer ones
  unfoldable pub classify_holes : LineString → List LineString → List LineString × List LineString
  classify_holes shell [] = ([], [])
  classify_holes shell (hole ∷ holes) =
      let rest = classify_holes shell holes in
      if is_outer shell hole then (rest.0, hole ∷ rest.1) else (hole ∷ rest.0, rest.1)

  -- with threads: first each hole with its test, then the two lists
  unfoldable pub test_holes : LineString → List LineString → List (LineString × Bool)
  test_holes shell [] = []
  test_holes shell (hole ∷ holes) = (hole, is_outer shell hole) ∷ test_holes shell holes

  unfoldable pub part_holes :
      List (LineString × Bool)
      → List LineString × List LineString
      → List LineString × List LineString
  part_holes [] acc = acc
  part_holes (tested ∷ rest) acc =
      part_holes rest
        (if tested.1 then (acc.0, acc.1 ++ tested.0 ∷ []) else (acc.0 ++ tested.0 ∷ [], acc.1))

  unfoldable pub classify_holes_parallel :
      LineString → List LineString → List LineString × List LineString
  classify_holes_parallel shell holes = part_holes (test_holes shell holes) ([], [])
