-- ===== src/Geo.antt =====
-- The geometry types of the `geo` crate, with the parts that the code reads, and what the code
-- takes from outside itself: the byte order of the target, the bits of `f64::NAN`, and what
-- `Polygon::new` does to a ring. An f64 is its bit pattern (below 2 ^ 64).
use geo_repair.Prelude.{ℕ, suc, ◌%◌, ◌^◌, Bool, List, [], ◌∷◌, map, ltb}

pub record Coord : Type 0 where
  pub x : ℕ
  pub y : ℕ

abbrev pub LineString : Type 0
LineString = List Coord

pub record Polygon : Type 0 where
  pub exterior : LineString
  pub interiors : List LineString

mutual
  pub data Geometry : Type 0 where
    point : Coord → Geometry
    line : Coord → Coord → Geometry
    line_string : LineString → Geometry
    polygon : Polygon → Geometry
    multi_point : List Coord → Geometry
    multi_line_string : List LineString → Geometry
    multi_polygon : List Polygon → Geometry
    geometry_collection : Geometries → Geometry
    rect : Coord → Coord → Geometry
    triangle : Coord → Coord → Coord → Geometry

  pub data Geometries : Type 0 where
    no_geometries : Geometries
    also : Geometry → Geometries → Geometries

-- a `Vec<Geometry>` as the collection's list
abbrev pub to_geometries : List Geometry → Geometries
to_geometries [] = no_geometries
to_geometries (g ∷ gs) = also g (to_geometries gs)

-- `gc.0.len()`
abbrev pub count_geometries : Geometries → ℕ
count_geometries no_geometries = 0
count_geometries (also _ gs) = suc (count_geometries gs)

-- What the crate is built against. `close_ring` is what `Polygon::new` makes of each ring.
pub record Platform : Type 0 where
  pub target_le : Bool
  pub nan : ℕ
  pub close_ring : LineString → LineString

-- `Polygon::new`
abbrev pub polygon_new : Platform → LineString → List LineString → Polygon
polygon_new p exterior interiors = record {
  exterior = p.close_ring exterior;
  interiors = map p.close_ring interiors;
}

-- `f64::is_nan`: all exponent bits set and a fraction that is not zero
unfoldable pub is_nan : ℕ → Bool
is_nan bits = ltb 0x7ff0_0000_0000_0000 (bits % 2 ^ 63)
