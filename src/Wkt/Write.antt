-- ===== src/Wkt/Write.antt =====
-- io/wkt/write.rs and what it takes from io/wkt/mod.rs. A writer takes the extra ordinates that are
-- not used yet and gives the text that it appends to `s` and those that are still unused. `format` is
-- what the `ryu` crate makes of an f64, `display` what `core` makes of an SRID.
use Prim.Native.String.{◌++◌}
use geo_repair.Prelude.{
  ℕ, Bool, true, false, not, ◌&&◌, List, [], ◌∷◌, Option, none, some, String, if◌then◌else◌, any,
}
use geo_repair.Geo.{
  Coord, LineString, Polygon, Geometry, Geometries, Platform, no_geometries, also, point, line,
  line_string, polygon, multi_point, multi_line_string, multi_polygon, geometry_collection, rect,
  triangle, is_nan,
}
use geo_repair.Wkb.Types.{Dims, xy}
use geo_repair.Wkb.Write.{is_empty, rect_ring, triangle_ring}

pub record WktGeometry : Type 0 where
  pub geometry : Geometry
  pub dims : Dims
  pub extra_coords : List ℕ

abbrev pub modifier : Dims → Option String
modifier d =
    if d.has_z
    then (if d.has_m then some "ZM" else some "Z")
    else (if d.has_m then some "M" else none)

abbrev pub Pen : Type 0
Pen = List ℕ → String × List ℕ

abbrev pub push : String → Pen
push s unused = (s, unused)

infixr 5 ◌>>>◌
abbrev pub ◌>>>◌ : Pen → Pen → Pen
◌>>>◌ v w unused = let (a, rest) = v unused in let (b, rest') = w rest in (a ++ b, rest')

unfoldable pub write_header : String → Dims → Pen
write_header name dims = elim (modifier dims) [
  | none ↦ push name
  | some m ↦ push name >>> push " " >>> push m
]

-- the separator in front of every element but the first
abbrev pub separator : Bool → Pen
separator first = if first then push "" else push ", "

module _ (p : Platform) (format : ℕ → String) where
  unfoldable pub write_f64 : ℕ → Pen
  write_f64 v = push (format v)

  -- past the end of `extra` it is NaN
  unfoldable pub take_extra : Pen
  take_extra [] = (format p.nan, [])
  take_extra (e ∷ rest) = (format e, rest)

  unfoldable pub write_extra : Bool → Pen
  write_extra flag = if flag then (push " " >>> take_extra) else push ""

  unfoldable pub write_coord : Dims → Coord → Pen
  write_coord dims c =
      write_f64 c.x
      >>> push " "
      >>> write_f64 c.y
      >>> write_extra dims.has_z
      >>> write_extra dims.has_m

  -- the elements of a list with separators
  unfoldable pub write_coords : Dims → Bool → List Coord → Pen
  write_coords dims first [] = push ""
  write_coords dims first (c ∷ cs) =
      separator first >>> write_coord dims c >>> write_coords dims false cs

  unfoldable pub write_coord_list : Dims → List Coord → Pen
  write_coord_list dims cs = write_coords dims true cs

  unfoldable pub write_holes : Dims → List LineString → Pen
  write_holes dims [] = push ""
  write_holes dims (h ∷ hs) =
      (if is_empty h then push "" else (push ", (" >>> write_coord_list dims h >>> push ")"))
      >>> write_holes dims hs

  unfoldable pub write_polygon_rings : Dims → Polygon → Pen
  write_polygon_rings dims g =
      push "(("
      >>> write_coord_list dims g.exterior
      >>> push ")"
      >>> write_holes dims g.interiors
      >>> push ")"

  unfoldable pub write_lines : Dims → Bool → List LineString → Pen
  write_lines dims first [] = push ""
  write_lines dims first (ls ∷ rest) =
      separator first
      >>> push "("
      >>> write_coord_list dims ls
      >>> push ")"
      >>> write_lines dims false rest

  -- a part without a shell is left out
  unfoldable pub write_members : Dims → Bool → List Polygon → Pen
  write_members dims first [] = push ""
  write_members dims first (g ∷ gs) =
      if is_empty g.exterior
      then write_members dims first gs
      else (separator first >>> write_polygon_rings dims g >>> write_members dims false gs)

  -- ` EMPTY`, or a list in brackets
  abbrev pub bracketed : Bool → Pen → Pen
  bracketed empty body = if empty then push " EMPTY" else (push " (" >>> body >>> push ")")

  abbrev pub no_parts : Geometries → Bool
  no_parts no_geometries = true
  no_parts (also _ _) = false

  unfoldable mutual
    pub write_geom : Dims → Geometry → Pen
    write_geom dims (point c) =
        write_header "POINT" dims >>> bracketed (is_nan c.x && is_nan c.y) (write_coord dims c)
    write_geom dims (line_string ls) =
        write_header "LINESTRING" dims >>> bracketed (is_empty ls) (write_coord_list dims ls)
    write_geom dims (polygon g) =
        write_header "POLYGON" dims
        >>> (if is_empty g.exterior
            then push " EMPTY"
            else (push " " >>> write_polygon_rings dims g))
    write_geom dims (multi_point cs) =
        write_header "MULTIPOINT" dims >>> bracketed (is_empty cs) (write_coords dims true cs)
    write_geom dims (multi_line_string lss) =
        write_header "MULTILINESTRING" dims >>> bracketed (is_empty lss) (write_lines dims true lss)
    write_geom dims (multi_polygon gs) =
        write_header "MULTIPOLYGON" dims
        >>> bracketed (not (any (λ g. not (is_empty g.exterior)) gs)) (write_members dims true gs)
    write_geom dims (geometry_collection gs) =
        write_header "GEOMETRYCOLLECTION" dims
        >>> bracketed (no_parts gs) (write_geoms dims true gs)
    write_geom dims (line a b) =
        write_header "LINESTRING" dims
        >>> push " ("
        >>> write_coord dims a
        >>> push ", "
        >>> write_coord dims b
        >>> push ")"
    write_geom dims (rect lo hi) =
        write_header "POLYGON" dims
        >>> push " (("
        >>> write_coords dims true (rect_ring lo hi)
        >>> push "))"
    write_geom dims (triangle v1 v2 v3) =
        write_header "POLYGON" dims
        >>> push " (("
        >>> write_coords dims true (triangle_ring v1 v2 v3)
        >>> push "))"

    pub write_geoms : Dims → Bool → Geometries → Pen
    write_geoms dims first no_geometries = push ""
    write_geoms dims first (also g gs) =
        separator first >>> write_geom dims g >>> write_geoms dims false gs

  unfoldable pub write_wkt : Geometry → String
  write_wkt g = (write_geom xy g []).0

  unfoldable pub write_wkt_zm : WktGeometry → String
  write_wkt_zm w = (write_geom w.dims w.geometry w.extra_coords).0

  unfoldable pub write_ewkt : (display : ℕ → String) → WktGeometry → Option ℕ → String
  write_ewkt display w (some s) = "SRID=" ++ (display s ++ (";" ++ write_wkt_zm w))
  write_ewkt display w none = write_wkt_zm w
