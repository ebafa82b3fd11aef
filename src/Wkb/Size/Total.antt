-- ===== src/Wkb/Size/Total.antt =====
-- The computed size of io/wkb/write.rs against the number of bytes written, for each geometry.
use geo_repair.Prelude.{
  ℕ, ◌+◌, ◌*◌, ◌≡◌, refl, sym, ◌∙◌, true, false, ◌&&◌, List, [], ◌∷◌, ◌++◌, Option, none, arith,
  length, length-append, Bool-cases, inl, inr, sum_by,
}
use geo_repair.Geo.{
  Coord, LineString, Polygon, Platform, Geometry, Geometries, count_geometries, no_geometries, also,
  point, line, line_string, polygon, multi_point, multi_line_string, multi_polygon,
  geometry_collection, rect, triangle,
}
use geo_repair.Wkb.Types.{
  Dims, EwkbGeometry, wkb_point, wkb_linestring, wkb_polygon, wkb_multipoint, wkb_multilinestring,
  wkb_multipolygon, wkb_geometrycollection,
}
use geo_repair.Wkb.Write.{write_u32, is_empty, rect_ring, triangle_ring}
use geo_repair.Wkb.WriteEwkb.{
  W, emit, ◌>>>◌, Codec, iso, ewkb, is_some, write_header, write_container, write_each,
  write_coord_ewkb, write_coords_ewkb, write_linestring_ewkb, write_polygon_ewkb,
  write_point_geometry, write_linestring_geometry, write_polygon_geometry, write_geometry_ewkb,
  write_geometries_ewkb, write_ewkb, write_wkb_iso,
}
use geo_repair.Wkb.Size.{
  header_size, coord_bytes, add_rings, add_points, add_linestrings, add_polygon, add_polygons,
  polygon_size, ewkb_size, add_geometries,
}
use geo_repair.Wkb.Size.Length.{
  Gives, Gives-seq, length-u32, length-header, length-container, coord-Gives, coords-Gives,
  line_size, linestring-Gives, each-Gives, rings_size, polygon-Gives,
}

module _ (dims : Dims) where
  abbrev cb : ℕ
  cb = coord_bytes dims

  add_rings-sum :
      (sz : ℕ) (rings : List LineString)
      → add_rings cb sz rings ≡ sz + sum_by (line_size dims) rings
  unfolding add_rings
  add_rings-sum sz [] = omega arith
  add_rings-sum sz (r ∷ rings) = add_rings-sum (sz + line_size dims r) rings ∙ omega arith

  add_points-sum : (sz : ℕ) (cs : List Coord) → add_points cb sz cs ≡ sz + sum_by (λ _. 5 + cb) cs
  unfolding add_points
  add_points-sum sz [] = omega arith
  add_points-sum sz (c ∷ cs) = add_points-sum (sz + (5 + cb)) cs ∙ omega arith

  add_linestrings-sum :
      (sz : ℕ) (lss : List LineString)
      → add_linestrings cb sz lss ≡ sz + sum_by (λ ls. 5 + line_size dims ls) lss
  unfolding add_linestrings
  add_linestrings-sum sz [] = omega arith
  add_linestrings-sum sz (ls ∷ lss) =
      add_linestrings-sum (sz + (5 + 4 + length ls * cb)) lss ∙ omega arith

  add_polygon-sum : (sz : ℕ) (g : Polygon) → add_polygon cb sz g ≡ sz + (5 + rings_size dims g)
  unfolding add_polygon
  add_polygon-sum sz g = elim (Bool-cases (is_empty g.exterior && is_empty g.interiors)) [
    | inl e ↦ rw e (omega arith)
    | inr ne ↦
        rw ne
          (add_rings-sum (sz + (5 + 4) + (4 + length g.exterior * cb)) g.interiors ∙ omega arith)
  ]

  polygon_size-sum :
      (header : ℕ) (g : Polygon) → polygon_size cb header g ≡ header + rings_size dims g
  unfolding polygon_size
  polygon_size-sum header g = elim (Bool-cases (is_empty g.exterior && is_empty g.interiors)) [
    | inl e ↦ rw e
    | inr ne ↦
        rw ne (add_rings-sum (header + 4 + (4 + length g.exterior * cb)) g.interiors ∙ omega arith)
  ]

  add_polygons-sum :
      (sz : ℕ) (gs : List Polygon)
      → add_polygons cb sz gs ≡ sz + sum_by (λ g. 5 + rings_size dims g) gs
  unfolding add_polygons
  add_polygons-sum sz [] = omega arith
  add_polygons-sum sz (g ∷ gs) =
      add_polygons-sum (add_polygon cb sz g) gs ∙ omega (arith, add_polygon-sum sz g)

  add_geometries-sum :
      (sz : ℕ) (gs : Geometries) → add_geometries dims sz gs ≡ sz + add_geometries dims 0 gs
  unfolding add_geometries
  add_geometries-sum sz no_geometries = omega arith
  add_geometries-sum sz (also g gs) = omega (
    arith,
    add_geometries-sum (sz + ewkb_size dims false g) gs,
    add_geometries-sum (0 + ewkb_size dims false g) gs,
  )

module _ (p : Platform) (codec : Codec) (dims : Dims) where
  point-Gives :
      (srid : Option ℕ) (c : Coord)
      → Gives
          (write_point_geometry p codec dims srid c)
          (header_size (is_some srid) + coord_bytes dims)
  unfolding write_point_geometry
  point-Gives srid c =
      Gives-seq (emit (write_header wkb_point dims srid codec)) (write_coord_ewkb p dims codec.le c)
        (header_size (is_some srid)) (coord_bytes dims)
        (λ u. length-header wkb_point dims srid codec) (coord-Gives p dims codec.le c)

  line_string-Gives :
      (srid : Option ℕ) (ls : LineString)
      → Gives
          (write_linestring_geometry p codec dims srid ls)
          (header_size (is_some srid) + line_size dims ls)
  unfolding write_linestring_geometry
  line_string-Gives srid ls =
      Gives-seq (emit (write_header wkb_linestring dims srid codec))
        (write_linestring_ewkb p dims codec.le ls) (header_size (is_some srid)) (line_size dims ls)
        (λ u. length-header wkb_linestring dims srid codec) (linestring-Gives p dims codec.le ls)

  polygon_geometry-Gives :
      (srid : Option ℕ) (g : Polygon)
      → Gives
          (write_polygon_geometry p codec dims srid g)
          (header_size (is_some srid) + rings_size dims g)
  unfolding write_polygon_geometry
  polygon_geometry-Gives srid g =
      Gives-seq (emit (write_header wkb_polygon dims srid codec))
        (write_polygon_ewkb p dims codec.le g) (header_size (is_some srid)) (rings_size dims g)
        (λ u. length-header wkb_polygon dims srid codec) (polygon-Gives p dims codec.le g)

  container-Gives :
      (srid : Option ℕ) (base n size : ℕ) (parts : W)
      → Gives parts size
      → Gives
          (emit (write_container codec dims srid base n) >>> parts)
          (header_size (is_some srid) + 4 + size)
  container-Gives srid base n size parts h =
      Gives-seq (emit (write_container codec dims srid base n)) parts
        (header_size (is_some srid) + 4) size (λ u. length-container base n dims srid codec) h

  -- a container with a second count behind its own
  ring-Gives :
      (srid : Option ℕ) (n : ℕ) (ring : List Coord)
      → Gives
          (emit (write_container codec dims srid wkb_polygon 1 ++ write_u32 codec.le n)
            >>> write_coords_ewkb p dims codec.le ring)
          (header_size (is_some srid) + 4 + 4 + length ring * coord_bytes dims)
  ring-Gives srid n ring =
      let front = write_container codec dims srid wkb_polygon 1 in
      Gives-seq (emit (front ++ write_u32 codec.le n)) (write_coords_ewkb p dims codec.le ring)
        (header_size (is_some srid) + 4 + 4) (length ring * coord_bytes dims)
        (λ u. omega (
          arith,
          length-append front (write_u32 codec.le n),
          length-u32 codec.le n,
          length-container wkb_polygon 1 dims srid codec,
        ))
        (coords-Gives p dims codec.le ring)

  mutual
    unfolding ewkb_size write_geometry_ewkb

    pub geometry-Gives :
        (g : Geometry) (srid : Option ℕ)
        → Gives (write_geometry_ewkb p codec dims srid g) (ewkb_size dims (is_some srid) g)
    geometry-Gives (point c) srid u = point-Gives srid c u
    geometry-Gives (line_string ls) srid u = line_string-Gives srid ls u ∙ omega arith
    geometry-Gives (polygon g) srid u =
        polygon_geometry-Gives srid g u ∙ sym (polygon_size-sum dims (header_size (is_some srid)) g)
    geometry-Gives (multi_point cs) srid u =
        container-Gives srid wkb_multipoint (length cs) (sum_by (λ _. 5 + coord_bytes dims) cs)
          (write_each (write_point_geometry p codec dims none) cs)
          (each-Gives p (write_point_geometry p codec dims none) (λ _. 5 + coord_bytes dims) cs
            (point-Gives none))
          u
        ∙ sym (add_points-sum dims (header_size (is_some srid) + 4) cs)
    geometry-Gives (multi_line_string lss) srid u =
        container-Gives srid wkb_multilinestring (length lss)
          (sum_by (λ ls. 5 + line_size dims ls) lss)
          (write_each (write_linestring_geometry p codec dims none) lss)
          (each-Gives p (write_linestring_geometry p codec dims none) (λ ls. 5 + line_size dims ls)
            lss (line_string-Gives none))
          u
        ∙ sym (add_linestrings-sum dims (header_size (is_some srid) + 4) lss)
    geometry-Gives (multi_polygon gs) srid u =
        container-Gives srid wkb_multipolygon (length gs) (sum_by (λ g. 5 + rings_size dims g) gs)
          (write_each (write_polygon_geometry p codec dims none) gs)
          (each-Gives p (write_polygon_geometry p codec dims none) (λ g. 5 + rings_size dims g) gs
            (polygon_geometry-Gives none))
          u
        ∙ sym (add_polygons-sum dims (header_size (is_some srid) + 4) gs)
    geometry-Gives (geometry_collection gs) srid u =
        container-Gives srid wkb_geometrycollection (count_geometries gs) (add_geometries dims 0 gs)
          (write_geometries_ewkb p codec dims gs) (geometries-Gives gs) u
        ∙ sym (add_geometries-sum dims (header_size (is_some srid) + 4) gs)
    geometry-Gives (line a b) srid u =
        container-Gives srid wkb_linestring 2 (2 * coord_bytes dims)
          (write_coords_ewkb p dims codec.le (a ∷ b ∷ []))
          (coords-Gives p dims codec.le (a ∷ b ∷ [])) u
    geometry-Gives (rect lo hi) srid u = ring-Gives srid 5 (rect_ring lo hi) u ∙ omega arith
    geometry-Gives (triangle v1 v2 v3) srid u =
        ring-Gives srid 4 (triangle_ring v1 v2 v3) u ∙ omega arith

    geometries-Gives :
        (gs : Geometries) → Gives (write_geometries_ewkb p codec dims gs) (add_geometries dims 0 gs)
    geometries-Gives no_geometries u = refl
    geometries-Gives (also g gs) u =
        Gives-seq (write_geometry_ewkb p codec dims none g) (write_geometries_ewkb p codec dims gs)
          (ewkb_size dims false g) (add_geometries dims 0 gs) (geometry-Gives g none)
          (geometries-Gives gs) u
        ∙ omega (arith, add_geometries-sum dims (0 + ewkb_size dims false g) gs)

-- The size that `write_ewkb` reserves is the number of bytes that it writes.
pub length-write_ewkb :
    (p : Platform) (e : EwkbGeometry)
    → length (write_ewkb p e) ≡ ewkb_size e.dims (is_some e.srid) e.geometry
unfolding write_ewkb
length-write_ewkb p e =
    geometry-Gives p (record { le = true; enc = ewkb }) e.dims e.geometry e.srid e.extra_coords

-- The size that `write_wkb_iso` reserves is the number of bytes that it writes.
pub length-write_wkb_iso :
    (p : Platform) (e : EwkbGeometry)
    → length (write_wkb_iso p e) ≡ ewkb_size e.dims false e.geometry
unfolding write_wkb_iso
length-write_wkb_iso p e =
    geometry-Gives p (record { le = true; enc = iso }) e.dims e.geometry none e.extra_coords
