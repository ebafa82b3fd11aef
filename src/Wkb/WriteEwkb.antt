-- ===== src/Wkb/WriteEwkb.antt =====
-- io/wkb/write.rs, the EWKB and ISO writer. A writer gives the bytes that it appends
-- and takes ordinates off `extra[*offset..]`, the extra ordinates that are not used yet.
use geo_repair.Prelude.{
  ℕ, ◌+◌, ◌^◌, Bool, true, false, ◌&&◌, List, [], ◌∷◌, ◌++◌, Option, none, some, length,
  if◌then◌else◌,
}
use geo_repair.Words.{Bytes}
use geo_repair.Geo.{
  Coord, LineString, Polygon, Geometry, Geometries, Platform, count_geometries, is_nan,
  no_geometries, also, point, line, line_string, polygon, multi_point, multi_line_string,
  multi_polygon, geometry_collection, rect, triangle,
}
use geo_repair.Wkb.Types.{
  Dims, EwkbGeometry, wkb_point, wkb_linestring, wkb_polygon, wkb_multipoint, wkb_multilinestring,
  wkb_multipolygon, wkb_geometrycollection, wkb_z_bit, wkb_m_bit, wkb_srid_bit,
}
use geo_repair.Wkb.Read.{has_bit}
use geo_repair.Wkb.Write.{
  as_u32, is_empty, order_byte, write_u32, write_f64, rect_ring, triangle_ring,
}

pub data Encoding : Type 0 where
  iso ewkb : Encoding

pub record Codec : Type 0 where
  pub le : Bool
  pub enc : Encoding

abbrev pub W : Type 0
W = List ℕ → Bytes × List ℕ

abbrev pub emit : Bytes → W
emit bytes unused = (bytes, unused)

infixr 5 ◌>>>◌
abbrev pub ◌>>>◌ : W → W → W
◌>>>◌ v w unused = let (a, rest) = v unused in let (b, rest') = w rest in (a ++ b, rest')

-- `flags |= 1 << k`
abbrev pub set_bit : ℕ → ℕ → ℕ
set_bit k v = if has_bit k v then v else v + 2 ^ k

abbrev pub set_bit_if : Bool → ℕ → ℕ → ℕ
set_bit_if flag k v = if flag then set_bit k v else v

-- the thousands of an ISO type code
abbrev pub iso_dim : Bool → Bool → ℕ
iso_dim true true = 3000
iso_dim true false = 1000
iso_dim false true = 2000
iso_dim false false = 0

unfoldable pub type_code : ℕ → Dims → Bool → Encoding → ℕ
type_code base dims has_srid iso = base + iso_dim dims.has_z dims.has_m
type_code base dims has_srid ewkb =
    set_bit_if has_srid wkb_srid_bit
      (set_bit_if dims.has_m wkb_m_bit (set_bit_if dims.has_z wkb_z_bit base))

abbrev pub is_some {ℓ} : {A : Type ℓ} → Option A → Bool
is_some none = false
is_some (some _) = true

unfoldable pub write_srid : Bool → Option ℕ → Bytes
write_srid le none = []
write_srid le (some s) = write_u32 le s

-- the byte order, the type code and the SRID field
unfoldable pub write_header : ℕ → Dims → Option ℕ → Codec → Bytes
unfolding write_srid
write_header base dims srid codec =
    order_byte codec.le
    ++ (write_u32 codec.le (type_code base dims (is_some srid) codec.enc)
        ++ write_srid codec.le srid)

-- `c.x.is_nan() && c.y.is_nan()`
unfoldable pub is_empty_coord : Coord → Bool
is_empty_coord c = is_nan c.x && is_nan c.y

-- a loop over parts
unfoldable pub write_each {ℓ} : {A : Type ℓ} → (A → W) → List A → W
write_each f [] = emit []
write_each f (a ∷ as') = f a >>> write_each f as'

-- the header and the count of a container
unfoldable pub write_container : Codec → Dims → Option ℕ → ℕ → ℕ → Bytes
unfolding write_header
write_container codec dims srid base n =
    write_header base dims srid codec ++ write_u32 codec.le (as_u32 n)

module _ (p : Platform) where
  -- the closure `next`; past the end of `extra` it writes NaN
  unfoldable pub next_ordinate : Bool → Bool → W
  next_ordinate le true unused = (write_f64 le p.nan, unused)
  next_ordinate le false [] = (write_f64 le p.nan, [])
  next_ordinate le false (e ∷ rest) = (write_f64 le e, rest)

  unfoldable pub next_if : Bool → Bool → Bool → W
  unfolding next_ordinate
  next_if flag le empty = if flag then next_ordinate le empty else emit []

  unfoldable pub write_coord_ewkb : Dims → Bool → Coord → W
  unfolding next_if
  write_coord_ewkb dims le c =
      emit (write_f64 le c.x)
      >>> emit (write_f64 le c.y)
      >>> next_if dims.has_z le (is_empty_coord c)
      >>> next_if dims.has_m le (is_empty_coord c)

  unfoldable pub write_coords_ewkb : Dims → Bool → List Coord → W
  write_coords_ewkb dims le [] = emit []
  write_coords_ewkb dims le (c ∷ cs) = write_coord_ewkb dims le c >>> write_coords_ewkb dims le cs

  unfoldable pub write_linestring_ewkb : Dims → Bool → LineString → W
  write_linestring_ewkb dims le ls =
      emit (write_u32 le (as_u32 (length ls))) >>> write_coords_ewkb dims le ls

  unfoldable pub write_linestrings_ewkb : Dims → Bool → List LineString → W
  write_linestrings_ewkb dims le [] = emit []
  write_linestrings_ewkb dims le (ls ∷ rest) =
      write_linestring_ewkb dims le ls >>> write_linestrings_ewkb dims le rest

  unfoldable pub write_polygon_ewkb : Dims → Bool → Polygon → W
  write_polygon_ewkb dims le g =
      if is_empty g.exterior && is_empty g.interiors
      then emit (write_u32 le 0)
      else (emit (write_u32 le (as_u32 (1 + length g.interiors)))
          >>> write_linestring_ewkb dims le g.exterior
          >>> write_linestrings_ewkb dims le g.interiors)

  -- The arms of points, line strings and polygons, which the multi-geometries call for each part.
  unfoldable pub write_point_geometry : Codec → Dims → Option ℕ → Coord → W
  write_point_geometry codec dims srid c =
      emit (write_header wkb_point dims srid codec) >>> write_coord_ewkb dims codec.le c

  unfoldable pub write_linestring_geometry : Codec → Dims → Option ℕ → LineString → W
  write_linestring_geometry codec dims srid ls =
      emit (write_header wkb_linestring dims srid codec) >>> write_linestring_ewkb dims codec.le ls

  unfoldable pub write_polygon_geometry : Codec → Dims → Option ℕ → Polygon → W
  write_polygon_geometry codec dims srid g =
      emit (write_header wkb_polygon dims srid codec) >>> write_polygon_ewkb dims codec.le g

  unfoldable mutual
    pub write_geometry_ewkb : Codec → Dims → Option ℕ → Geometry → W
    write_geometry_ewkb codec dims srid (point c) = write_point_geometry codec dims srid c
    write_geometry_ewkb codec dims srid (line_string ls) =
        write_linestring_geometry codec dims srid ls
    write_geometry_ewkb codec dims srid (polygon g) = write_polygon_geometry codec dims srid g
    write_geometry_ewkb codec dims srid (multi_point cs) =
        emit (write_container codec dims srid wkb_multipoint (length cs))
        >>> write_each (write_point_geometry codec dims none) cs
    write_geometry_ewkb codec dims srid (multi_line_string lss) =
        emit (write_container codec dims srid wkb_multilinestring (length lss))
        >>> write_each (write_linestring_geometry codec dims none) lss
    write_geometry_ewkb codec dims srid (multi_polygon gs) =
        emit (write_container codec dims srid wkb_multipolygon (length gs))
        >>> write_each (write_polygon_geometry codec dims none) gs
    write_geometry_ewkb codec dims srid (geometry_collection gs) =
        emit (write_container codec dims srid wkb_geometrycollection (count_geometries gs))
        >>> write_geometries_ewkb codec dims gs
    write_geometry_ewkb codec dims srid (line a b) =
        emit (write_container codec dims srid wkb_linestring 2)
        >>> write_coords_ewkb dims codec.le (a ∷ b ∷ [])
    write_geometry_ewkb codec dims srid (rect lo hi) =
        emit (write_container codec dims srid wkb_polygon 1 ++ write_u32 codec.le 5)
        >>> write_coords_ewkb dims codec.le (rect_ring lo hi)
    write_geometry_ewkb codec dims srid (triangle v1 v2 v3) =
        emit (write_container codec dims srid wkb_polygon 1 ++ write_u32 codec.le 4)
        >>> write_coords_ewkb dims codec.le (triangle_ring v1 v2 v3)

    pub write_geometries_ewkb : Codec → Dims → Geometries → W
    write_geometries_ewkb codec dims no_geometries = emit []
    write_geometries_ewkb codec dims (also g gs) =
        write_geometry_ewkb codec dims none g >>> write_geometries_ewkb codec dims gs

  unfoldable pub write_ewkb : EwkbGeometry → Bytes
  unfolding write_geometry_ewkb
  write_ewkb e =
      (write_geometry_ewkb (record { le = true; enc = ewkb }) e.dims e.srid e.geometry
        e.extra_coords).0

  unfoldable pub write_wkb_iso : EwkbGeometry → Bytes
  unfolding write_geometry_ewkb
  write_wkb_iso e =
      (write_geometry_ewkb (record { le = true; enc = iso }) e.dims none e.geometry
        e.extra_coords).0
