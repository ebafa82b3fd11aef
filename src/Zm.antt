-- ===== src/Zm.antt =====
-- zm.rs: how many coordinates a geometry has.
pub mod Preserve
pub mod Origin
mod Tests
use geo_repair.Prelude.{ℕ, ◌+◌, length, sum_by}
use geo_repair.Geo.{
  Polygon, Geometry, Geometries, no_geometries, also, point, line, line_string, polygon,
  multi_point, multi_line_string, multi_polygon, geometry_collection, rect, triangle,
}

abbrev pub count_polygon_coords : Polygon → ℕ
count_polygon_coords g = length g.exterior + sum_by length g.interiors

unfoldable mutual
  pub count_coords : Geometry → ℕ
  count_coords (point _) = 1
  count_coords (multi_point ps) = length ps
  count_coords (line_string ls) = length ls
  count_coords (multi_line_string lss) = sum_by length lss
  count_coords (polygon g) = count_polygon_coords g
  count_coords (multi_polygon gs) = sum_by count_polygon_coords gs
  count_coords (line _ _) = 2
  count_coords (rect _ _) = 5
  count_coords (triangle _ _ _) = 4
  count_coords (geometry_collection gs) = count_all_coords gs

  pub count_all_coords : Geometries → ℕ
  count_all_coords no_geometries = 0
  count_all_coords (also g gs) = count_coords g + count_all_coords gs
