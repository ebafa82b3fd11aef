-- ===== src/Wkb/Fits.antt =====
-- The geometries that the WKB formats can express within the reader's limits, and what the reader
-- makes of each: lines, rectangles and triangles come back as line strings and polygons.
use geo_repair.Prelude.{ℕ, suc, ◌<◌, List, [], ◌∷◌, length, All}
use geo_repair.Words.{u32_mod}
use geo_repair.Geo.{
  Coord, LineString, Polygon, Geometry, Geometries, Platform, polygon_new, count_geometries,
  no_geometries, also, point, line, line_string, polygon, multi_point, multi_line_string,
  multi_polygon, geometry_collection, rect, triangle,
}
use geo_repair.Wkb.Types.{
  Dims, wkb_point, wkb_linestring, wkb_polygon, wkb_multipoint, wkb_multilinestring,
  wkb_multipolygon, wkb_geometrycollection,
}
use geo_repair.Wkb.Write.{rect_ring, triangle_ring}
use geo_repair.Wkb.Coords.{CoordFits}
use geo_repair.Wkb.Rings.{LineFits, PolygonFits}

-- `Fits p dims left g`: with `left` levels of nesting to spend, `g` can be written and read.
mutual
  pub data Fits (p : Platform) (dims : Dims) : ℕ → Geometry → Type 0 where
    fits_point : {left : ℕ} {c : Coord} → CoordFits dims c → Fits p dims (suc left) (point c)
    fits_line :
        {left : ℕ} {a b : Coord}
        → CoordFits dims a
        → CoordFits dims b
        → Fits p dims (suc left) (line a b)
    fits_line_string :
        {left : ℕ} {ls : LineString} → LineFits dims ls → Fits p dims (suc left) (line_string ls)
    fits_polygon :
        {left : ℕ} {g : Polygon} → PolygonFits p dims g → Fits p dims (suc left) (polygon g)
    fits_multi_point :
        {left : ℕ} {cs : List Coord}
        → All (CoordFits dims) cs
        → length cs < u32_mod
        → Fits p dims (suc (suc left)) (multi_point cs)
    fits_multi_line_string :
        {left : ℕ} {lss : List LineString}
        → All (LineFits dims) lss
        → length lss < u32_mod
        → Fits p dims (suc (suc left)) (multi_line_string lss)
    fits_multi_polygon :
        {left : ℕ} {gs : List Polygon}
        → All (PolygonFits p dims) gs
        → length gs < u32_mod
        → Fits p dims (suc (suc left)) (multi_polygon gs)
    fits_geometry_collection :
        {left : ℕ} {gs : Geometries}
        → AllFit p dims left gs
        → count_geometries gs < u32_mod
        → Fits p dims (suc left) (geometry_collection gs)
    fits_rect :
        {left : ℕ} {lo hi : Coord}
        → All (CoordFits dims) (rect_ring lo hi)
        → Fits p dims (suc left) (rect lo hi)
    fits_triangle :
        {left : ℕ} {v1 v2 v3 : Coord}
        → All (CoordFits dims) (triangle_ring v1 v2 v3)
        → Fits p dims (suc left) (triangle v1 v2 v3)

  pub data AllFit (p : Platform) (dims : Dims) : ℕ → Geometries → Type 0 where
    fits_none : {left : ℕ} → AllFit p dims left no_geometries
    fits_also :
        {left : ℕ} {g : Geometry} {gs : Geometries}
        → Fits p dims left g
        → AllFit p dims left gs
        → AllFit p dims left (also g gs)

unfoldable mutual
  pub as_read : Platform → Geometry → Geometry
  as_read p (line a b) = line_string (a ∷ b ∷ [])
  as_read p (rect lo hi) = polygon (polygon_new p (rect_ring lo hi) [])
  as_read p (triangle v1 v2 v3) = polygon (polygon_new p (triangle_ring v1 v2 v3) [])
  as_read p (geometry_collection gs) = geometry_collection (as_read_all p gs)
  as_read p (point c) = point c
  as_read p (line_string ls) = line_string ls
  as_read p (polygon g) = polygon g
  as_read p (multi_point cs) = multi_point cs
  as_read p (multi_line_string lss) = multi_line_string lss
  as_read p (multi_polygon gs) = multi_polygon gs

  pub as_read_all : Platform → Geometries → Geometries
  as_read_all p no_geometries = no_geometries
  as_read_all p (also g gs) = also (as_read p g) (as_read_all p gs)

-- the base type code that a geometry is written under
abbrev pub base_code : Geometry → ℕ
base_code (point _) = wkb_point
base_code (line _ _) = wkb_linestring
base_code (line_string _) = wkb_linestring
base_code (polygon _) = wkb_polygon
base_code (rect _ _) = wkb_polygon
base_code (triangle _ _ _) = wkb_polygon
base_code (multi_point _) = wkb_multipoint
base_code (multi_line_string _) = wkb_multilinestring
base_code (multi_polygon _) = wkb_multipolygon
base_code (geometry_collection _) = wkb_geometrycollection
