-- ===== src/Wkb/Write.antt =====
-- io/wkb/write.rs, the plain 2D writer. Each writer gives the bytes that it appends to `buf`.
use geo_repair.Prelude.{
  ℕ, ◌+◌, ◌%◌, Bool, true, false, ◌&&◌, List, [], ◌∷◌, ◌++◌, length, if◌then◌else◌,
}
use geo_repair.Words.{Bytes, word_bytes, u32_mod}
use geo_repair.Geo.{
  Coord, LineString, Polygon, Geometry, Geometries, Platform, count_geometries, no_geometries, also,
  point, line, line_string, polygon, multi_point, multi_line_string, multi_polygon,
  geometry_collection, rect, triangle,
}
use geo_repair.Wkb.Types.{
  Endianness, little_endian, big_endian, WriteOptions, default_options, wkb_point, wkb_linestring,
  wkb_polygon, wkb_multipoint, wkb_multilinestring, wkb_multipolygon, wkb_geometrycollection,
}

-- `as u32` of a length
abbrev pub as_u32 : ℕ → ℕ
as_u32 n = n % u32_mod

abbrev pub is_empty {ℓ} : {A : Type ℓ} → List A → Bool
is_empty [] = true
is_empty (_ ∷ _) = false

-- the byte that states the byte order
abbrev pub order_byte : Bool → Bytes
order_byte le = (if le then 1 else 0) ∷ []

abbrev pub is_little : Endianness → Bool
is_little little_endian = true
is_little big_endian = false

unfoldable pub write_u32 : Bool → ℕ → Bytes
write_u32 le v = word_bytes le 4 v

unfoldable pub write_f64 : Bool → ℕ → Bytes
write_f64 le v = word_bytes le 8 v

unfoldable pub write_coord : Bool → Coord → Bytes
write_coord le c = write_f64 le c.x ++ write_f64 le c.y

unfoldable pub write_coords : Bool → List Coord → Bytes
write_coords le [] = []
write_coords le (c ∷ cs) = write_coord le c ++ write_coords le cs

-- the ring that a rectangle is written as
abbrev pub rect_ring : Coord → Coord → List Coord
rect_ring lo hi =
    lo ∷ (record { x = hi.x; y = lo.y }) ∷ hi ∷ (record { x = lo.x; y = hi.y }) ∷ lo ∷ []

-- the ring that a triangle is written as
abbrev pub triangle_ring : Coord → Coord → Coord → List Coord
triangle_ring v1 v2 v3 = v1 ∷ v2 ∷ v3 ∷ v1 ∷ []

module _ (p : Platform) where
  -- the coordinates as they lie in memory
  unfoldable pub write_coords_le_bulk : List Coord → Bytes
  write_coords_le_bulk [] = []
  write_coords_le_bulk (c ∷ cs) =
      word_bytes p.target_le 8 c.x ++ (word_bytes p.target_le 8 c.y ++ write_coords_le_bulk cs)

  unfoldable pub write_point : Bool → Coord → Bytes
  write_point le c = if le then write_coords_le_bulk (c ∷ []) else write_coord le c

  unfoldable pub write_linestring : Bool → LineString → Bytes
  write_linestring le ls =
      write_u32 le (as_u32 (length ls))
      ++ (if le then write_coords_le_bulk ls else write_coords le ls)

  unfoldable pub write_linestrings : Bool → List LineString → Bytes
  write_linestrings le [] = []
  write_linestrings le (ls ∷ rest) = write_linestring le ls ++ write_linestrings le rest

  unfoldable pub write_polygon : Bool → Polygon → Bytes
  write_polygon le g =
      if is_empty g.exterior && is_empty g.interiors
      then write_u32 le 0
      else write_u32 le (as_u32 (1 + length g.interiors))
        ++ (write_linestring le g.exterior ++ write_linestrings le g.interiors)

  -- the loops over the parts of a multi-geometry
  unfoldable pub write_point_parts : Bool → List Coord → Bytes
  write_point_parts le [] = []
  write_point_parts le (c ∷ cs) =
      order_byte le ++ (write_u32 le wkb_point ++ (write_point le c ++ write_point_parts le cs))

  unfoldable pub write_linestring_parts : Bool → List LineString → Bytes
  write_linestring_parts le [] = []
  write_linestring_parts le (ls ∷ rest) =
      order_byte le
      ++ (write_u32 le wkb_linestring ++ (write_linestring le ls ++ write_linestring_parts le rest))

  unfoldable pub write_polygon_parts : Bool → List Polygon → Bytes
  write_polygon_parts le [] = []
  write_polygon_parts le (g ∷ gs) =
      order_byte le
      ++ (write_u32 le wkb_polygon ++ (write_polygon le g ++ write_polygon_parts le gs))

  unfoldable mutual
    pub write_geometry : Bool → Geometry → Bytes
    write_geometry le (point c) = order_byte le ++ (write_u32 le wkb_point ++ write_point le c)
    write_geometry le (line_string ls) =
        order_byte le ++ (write_u32 le wkb_linestring ++ write_linestring le ls)
    write_geometry le (polygon g) =
        order_byte le ++ (write_u32 le wkb_polygon ++ write_polygon le g)
    write_geometry le (multi_point cs) =
        order_byte le
        ++ (write_u32 le wkb_multipoint
            ++ (write_u32 le (as_u32 (length cs)) ++ write_point_parts le cs))
    write_geometry le (multi_line_string lss) =
        order_byte le
        ++ (write_u32 le wkb_multilinestring
            ++ (write_u32 le (as_u32 (length lss)) ++ write_linestring_parts le lss))
    write_geometry le (multi_polygon gs) =
        order_byte le
        ++ (write_u32 le wkb_multipolygon
            ++ (write_u32 le (as_u32 (length gs)) ++ write_polygon_parts le gs))
    write_geometry le (geometry_collection gs) =
        order_byte le
        ++ (write_u32 le wkb_geometrycollection
            ++ (write_u32 le (as_u32 (count_geometries gs)) ++ write_geometries le gs))
    write_geometry le (line a b) =
        order_byte le
        ++ (write_u32 le wkb_linestring ++ (write_u32 le 2 ++ write_coords le (a ∷ b ∷ [])))
    write_geometry le (rect lo hi) =
        order_byte le
        ++ (write_u32 le wkb_polygon
            ++ (write_u32 le 1 ++ (write_u32 le 5 ++ write_coords le (rect_ring lo hi))))
    write_geometry le (triangle v1 v2 v3) =
        order_byte le
        ++ (write_u32 le wkb_polygon
            ++ (write_u32 le 1 ++ (write_u32 le 4 ++ write_coords le (triangle_ring v1 v2 v3))))

    pub write_geometries : Bool → Geometries → Bytes
    write_geometries le no_geometries = []
    write_geometries le (also g gs) = write_geometry le g ++ write_geometries le gs

  unfoldable pub write_wkb_with_opts : Geometry → WriteOptions → Bytes
  unfolding write_geometry
  write_wkb_with_opts g opts = write_geometry (is_little opts.endianness) g

  unfoldable pub write_wkb : Geometry → Bytes
  unfolding write_wkb_with_opts
  write_wkb g = write_wkb_with_opts g default_options
