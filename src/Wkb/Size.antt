-- ===== src/Wkb/Size.antt =====
-- io/wkb/write.rs, the size computation, which the writers reserve and check in debug builds.
mod Length
pub mod Total
use geo_repair.Prelude.{ℕ, ◌+◌, ◌*◌, Bool, true, false, ◌&&◌, List, [], ◌∷◌, length, if◌then◌else◌}
use geo_repair.Geo.{
  Coord, LineString, Polygon, Geometry, Geometries, no_geometries, also, point, line, line_string,
  polygon, multi_point, multi_line_string, multi_polygon, geometry_collection, rect, triangle,
}
use geo_repair.Wkb.Types.{Dims, xy, coord_count}
use geo_repair.Wkb.Write.{is_empty}

abbrev pub header_size : Bool → ℕ
header_size has_srid = 1 + 4 + (if has_srid then 4 else 0)

abbrev pub coord_bytes : Dims → ℕ
coord_bytes dims = coord_count dims * 8

-- the loop over the interior rings, and over the parts of each multi-geometry, from `sz` on
unfoldable pub add_rings : ℕ → ℕ → List LineString → ℕ
add_rings cb sz [] = sz
add_rings cb sz (h ∷ rest) = add_rings cb (sz + (4 + length h * cb)) rest

unfoldable pub add_points : ℕ → ℕ → List Coord → ℕ
add_points cb sz [] = sz
add_points cb sz (_ ∷ rest) = add_points cb (sz + (5 + cb)) rest

unfoldable pub add_linestrings : ℕ → ℕ → List LineString → ℕ
add_linestrings cb sz [] = sz
add_linestrings cb sz (ls ∷ rest) = add_linestrings cb (sz + (5 + 4 + length ls * cb)) rest

-- one round of the loop over polygons; `continue` leaves the rings out
unfoldable pub add_polygon : ℕ → ℕ → Polygon → ℕ
unfolding add_rings
add_polygon cb sz g =
    if is_empty g.exterior && is_empty g.interiors
    then sz + (5 + 4)
    else add_rings cb (sz + (5 + 4) + (4 + length g.exterior * cb)) g.interiors

unfoldable pub add_polygons : ℕ → ℕ → List Polygon → ℕ
unfolding add_polygon
add_polygons cb sz [] = sz
add_polygons cb sz (g ∷ rest) = add_polygons cb (add_polygon cb sz g) rest

unfoldable pub polygon_size : ℕ → ℕ → Polygon → ℕ
unfolding add_rings
polygon_size cb header g =
    if is_empty g.exterior && is_empty g.interiors
    then header + 4
    else add_rings cb (header + 4 + (4 + length g.exterior * cb)) g.interiors

unfoldable mutual
  pub ewkb_size : Dims → Bool → Geometry → ℕ
  ewkb_size dims has_srid (point _) = header_size has_srid + coord_bytes dims
  ewkb_size dims has_srid (line_string ls) = header_size has_srid + 4 + length ls * coord_bytes dims
  ewkb_size dims has_srid (polygon g) = polygon_size (coord_bytes dims) (header_size has_srid) g
  ewkb_size dims has_srid (multi_point cs) =
      add_points (coord_bytes dims) (header_size has_srid + 4) cs
  ewkb_size dims has_srid (multi_line_string lss) =
      add_linestrings (coord_bytes dims) (header_size has_srid + 4) lss
  ewkb_size dims has_srid (multi_polygon gs) =
      add_polygons (coord_bytes dims) (header_size has_srid + 4) gs
  ewkb_size dims has_srid (geometry_collection gs) =
      add_geometries dims (header_size has_srid + 4) gs
  ewkb_size dims has_srid (line _ _) = header_size has_srid + 4 + 2 * coord_bytes dims
  ewkb_size dims has_srid (rect _ _) = header_size has_srid + 4 + (4 + 5 * coord_bytes dims)
  ewkb_size dims has_srid (triangle _ _ _) = header_size has_srid + 4 + (4 + 4 * coord_bytes dims)

  pub add_geometries : Dims → ℕ → Geometries → ℕ
  add_geometries dims sz no_geometries = sz
  add_geometries dims sz (also g gs) = add_geometries dims (sz + ewkb_size dims false g) gs

unfoldable pub wkb_size : Geometry → ℕ
unfolding ewkb_size
wkb_size g = ewkb_size xy false g
