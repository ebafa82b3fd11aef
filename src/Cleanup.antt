-- ===== src/Cleanup.antt =====
-- cleanup.rs: removal of repeated points, and `remove_consecutive_duplicates` of noding/mod.rs, which
-- it calls. `out.last()` is passed along as the last coordinate that was kept.
pub mod Kept
pub mod Ends
mod Tests
use geo_repair.Prelude.{
  drop_last, ℕ, zero, suc, Bool, true, false, not, ◌&&◌, ◌||◌, List, [], ◌∷◌, ◌++◌, Option, none,
  some, map, length, last_or, ltb, leb, if◌then◌else◌,
}
use geo_repair.Geo.{
  Coord, LineString, Polygon, Geometry, Geometries, Platform, polygon_new, no_geometries, also,
  point, line, line_string, polygon, multi_point, multi_line_string, multi_polygon,
  geometry_collection, rect, triangle,
}
use geo_repair.Floats.{Floats, finite_coord, coord_eq}

-- a loop that keeps each element that `skip` does not drop behind the last one kept
module _ {ℓ} {A : Type ℓ} (skip : A → A → Bool) where
  unfoldable pub keep_from : A → List A → List A
  keep_from last [] = []
  keep_from last (c ∷ cs) =
      let rest = keep_from (if skip last c then last else c) cs in
      if skip last c then rest else c ∷ rest

  unfoldable pub thin : List A → List A
  thin [] = []
  thin (c ∷ cs) = c ∷ keep_from c cs

-- `filter_map`
unfoldable pub filter_map {ℓ κ} : {A : Type ℓ} {B : Type κ} → (A → Option B) → List A → List B
filter_map f [] = []
filter_map f (x ∷ xs) = let rest = filter_map f xs in elim (f x) [ none ↦ rest | some y ↦ y ∷ rest ]

abbrev pub ring_min : ℕ
ring_min = 3

abbrev pub line_min : ℕ
line_min = 2

module _ (f : Floats) where
  unfoldable pub remove_consecutive_duplicates : List Coord → List Coord
  remove_consecutive_duplicates = thin (coord_eq f)

  -- `(c.x - p.x).powi(2) + (c.y - p.y).powi(2) <= tolerance * tolerance`
  unfoldable pub within : ℕ → Coord → Coord → Bool
  within tolerance p c =
      let dx = f.sub c.x p.x in
      let dy = f.sub c.y p.y in f.le (f.add (f.mul dx dx) (f.mul dy dy)) (f.mul tolerance tolerance)

  unfoldable pub is_repeated : ℕ → Coord → Coord → Bool
  is_repeated tolerance p c = coord_eq f c p || within tolerance p c

  unfoldable pub remove_repeated_coords : List Coord → ℕ → List Coord
  remove_repeated_coords coords tolerance =
      if f.eq tolerance 0
      then remove_consecutive_duplicates coords
      else thin (is_repeated tolerance) coords

  -- the filter of `edit_sequence`: invalid coordinates and repeated ones
  unfoldable pub is_skipped : ℕ → Coord → Coord → Bool
  is_skipped tolerance p c = not (finite_coord c) || is_repeated tolerance p c

  unfoldable pub filter_sequence : ℕ → List Coord → List Coord
  filter_sequence tolerance [] = []
  filter_sequence tolerance (c ∷ cs) =
      let rest = filter_sequence tolerance cs in
      if finite_coord c then thin (is_skipped tolerance) (c ∷ cs) else rest

  -- the repair of the end: a filtered sequence that is too short gets the original end
  unfoldable pub lengthen : ℕ → Coord → List Coord → List Coord
  lengthen min_len end filt =
      if ltb (length filt) min_len && finite_coord end then filt ++ end ∷ [] else filt

  -- and one that ends elsewhere ends there, in place of a coordinate that is near
  unfoldable pub restore_end : ℕ → Coord → List Coord → List Coord
  restore_end tolerance end filt =
      let last = last_or end filt in
      if finite_coord end && not (coord_eq f end last)
      then (if within tolerance last end then drop_last filt else filt) ++ end ∷ []
      else filt

  abbrev pub more_than_one : List Coord → Option (List Coord)
  more_than_one filt = if leb (length filt) 1 then none else some filt

  unfoldable pub edit_filtered : ℕ → ℕ → Coord → List Coord → Option (List Coord)
  edit_filtered min_len tolerance end filt =
      if leb (length filt) 1
      then none
      else more_than_one (restore_end tolerance end (lengthen min_len end filt))

  unfoldable pub edit_sequence : List Coord → ℕ → ℕ → Option (List Coord)
  edit_sequence [] min_len tolerance = some []
  edit_sequence (c ∷ cs) min_len tolerance =
      if leb (length (c ∷ cs)) min_len
      then some (c ∷ cs)
      else edit_filtered min_len tolerance (last_or c cs) (filter_sequence tolerance (c ∷ cs))

  abbrev pub empty_line : Geometry
  empty_line = line_string []

  module _ (p : Platform) where
    abbrev pub empty_polygon : Polygon
    empty_polygon = polygon_new p [] []

    unfoldable pub clean_polygon : ℕ → Polygon → Polygon
    clean_polygon tolerance g =
        let holes = filter_map (λ h. edit_sequence h ring_min tolerance) g.interiors in
        elim (edit_sequence g.exterior ring_min tolerance) [
          | none ↦ empty_polygon
          | some shell ↦ polygon_new p shell holes
        ]

    -- a part of a multi-polygon, left out where it is empty (`HasDimensions::is_empty`)
    unfoldable pub clean_part : ℕ → Polygon → Option Polygon
    clean_part tolerance g =
        let g' = clean_polygon tolerance g in elim g'.exterior [ [] ↦ none | _ ∷ _ ↦ some g' ]

    abbrev pub lines_or_empty : List LineString → Geometry
    lines_or_empty [] = empty_line
    lines_or_empty (l ∷ ls) = multi_line_string (l ∷ ls)

    abbrev pub polygons_or_empty : List Polygon → Geometry
    polygons_or_empty [] = polygon empty_polygon
    polygons_or_empty (g ∷ gs) = multi_polygon (g ∷ gs)

    unfoldable mutual
      pub remove_repeated_points : ℕ → Geometry → Geometry
      remove_repeated_points tolerance (point c) = point c
      remove_repeated_points tolerance (line_string ls) =
          elim (edit_sequence ls line_min tolerance) [
            | none ↦ empty_line
            | some cs ↦ line_string cs
          ]
      remove_repeated_points tolerance (multi_line_string lss) =
          lines_or_empty (filter_map (λ ls. edit_sequence ls line_min tolerance) lss)
      remove_repeated_points tolerance (polygon g) = polygon (clean_polygon tolerance g)
      remove_repeated_points tolerance (multi_polygon gs) =
          polygons_or_empty (filter_map (clean_part tolerance) gs)
      remove_repeated_points tolerance (geometry_collection gs) =
          geometry_collection (remove_all_repeated tolerance gs)
      remove_repeated_points tolerance (multi_point cs) = multi_point cs
      remove_repeated_points tolerance (line a b) = line a b
      remove_repeated_points tolerance (rect lo hi) = rect lo hi
      remove_repeated_points tolerance (triangle a b c) = triangle a b c

      pub remove_all_repeated : ℕ → Geometries → Geometries
      remove_all_repeated tolerance no_geometries = no_geometries
      remove_all_repeated tolerance (also g gs) =
          also (remove_repeated_points tolerance g) (remove_all_repeated tolerance gs)
