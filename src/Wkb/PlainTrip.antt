-- ===== src/Wkb/PlainTrip.antt =====
-- The plain writer of io/wkb/write.rs against the EWKB writer, the reader and the size computation.
use mathlib.Core.Path.{subst}
use geo_repair.Prelude.{
  ℕ, ◌≡◌, refl, ap, sym, ◌∙◌, Bool, true, List, [], ◌∷◌, ◌++◌, none, append-nil, length,
  length-append, arith, ==_refl, ==_lt,
}
use geo_repair.Words.{Bytes}
use geo_repair.Geo.{
  Platform, Geometry, Geometries, count_geometries, no_geometries, also, point, line, line_string,
  polygon, multi_point, multi_line_string, multi_polygon, geometry_collection, rect, triangle,
}
use geo_repair.Wkb.Types.{
  ok, err, trailing_bytes, xy, WriteOptions, wkb_point, wkb_linestring, wkb_polygon, wkb_multipoint,
  wkb_multilinestring, wkb_multipolygon, wkb_geometrycollection,
}
use geo_repair.Wkb.Cursor.{start}
use geo_repair.Wkb.Reader.{read_top, read_wkb, estimate_wkb_size}
use geo_repair.Wkb.Write.{
  is_little, write_coord, write_coords, write_linestring, write_polygon, write_point_parts,
  write_linestring_parts, write_polygon_parts, write_geometry, write_geometries,
  write_wkb_with_opts, rect_ring, triangle_ring,
}
use geo_repair.Wkb.WriteEwkb.{
  ewkb, Codec, write_each, write_coord_ewkb, write_coords_ewkb, write_linestring_ewkb,
  write_polygon_ewkb, write_point_geometry, write_linestring_geometry, write_polygon_geometry,
  write_geometry_ewkb, write_geometries_ewkb,
}
use geo_repair.Wkb.Plain.{
  Plain, Plain-seq, coord-Plain, coords-Plain, point-eq, linestring-Plain, polygon-Plain,
  headed-Plain, counted-Plain, ring-Plain, point_parts-Plain, linestring_parts-Plain,
  polygon_parts-Plain,
}
use geo_repair.Wkb.Fits.{Fits, as_read, base_code}
use geo_repair.Wkb.Size.{wkb_size}
use geo_repair.Wkb.Size.Total.{geometry-Gives}
use geo_repair.Wkb.Inverse.{levels, Written-read_top}

module _ (p : Platform) (little : p.target_le ≡ true) (codec : Codec) where
  mutual
    unfolding write_geometry write_geometry_ewkb write_point_geometry write_linestring_geometry
        write_polygon_geometry

    geometry-Plain :
        (g : Geometry) → Plain (write_geometry_ewkb p codec xy none g) (write_geometry p codec.le g)
    geometry-Plain (point c) u =
        headed-Plain p little codec wkb_point (write_coord_ewkb p xy codec.le c)
          (write_coord codec.le c) (coord-Plain p little codec c) u
        ∙ rw (point-eq p little codec codec.le c)
    geometry-Plain (line_string ls) u =
        headed-Plain p little codec wkb_linestring (write_linestring_ewkb p xy codec.le ls)
          (write_linestring p codec.le ls) (linestring-Plain p little codec ls) u
    geometry-Plain (polygon g) u =
        headed-Plain p little codec wkb_polygon (write_polygon_ewkb p xy codec.le g)
          (write_polygon p codec.le g) (polygon-Plain p little codec g) u
    geometry-Plain (multi_point cs) u =
        counted-Plain p little codec wkb_multipoint (length cs)
          (write_each (write_point_geometry p codec xy none) cs) (write_point_parts p codec.le cs)
          (point_parts-Plain p little codec cs) u
    geometry-Plain (multi_line_string lss) u =
        counted-Plain p little codec wkb_multilinestring (length lss)
          (write_each (write_linestring_geometry p codec xy none) lss)
          (write_linestring_parts p codec.le lss) (linestring_parts-Plain p little codec lss) u
    geometry-Plain (multi_polygon gs) u =
        counted-Plain p little codec wkb_multipolygon (length gs)
          (write_each (write_polygon_geometry p codec xy none) gs)
          (write_polygon_parts p codec.le gs) (polygon_parts-Plain p little codec gs) u
    geometry-Plain (geometry_collection gs) u =
        counted-Plain p little codec wkb_geometrycollection (count_geometries gs)
          (write_geometries_ewkb p codec xy gs) (write_geometries p codec.le gs)
          (geometries-Plain gs) u
    geometry-Plain (line a b) u =
        counted-Plain p little codec wkb_linestring 2 (write_coords_ewkb p xy codec.le (a ∷ b ∷ []))
          (write_coords codec.le (a ∷ b ∷ [])) (coords-Plain p little codec (a ∷ b ∷ [])) u
    geometry-Plain (rect lo hi) u = ring-Plain p little codec 5 (rect_ring lo hi) u
    geometry-Plain (triangle v1 v2 v3) u = ring-Plain p little codec 4 (triangle_ring v1 v2 v3) u

    geometries-Plain :
        (gs : Geometries)
        → Plain (write_geometries_ewkb p codec xy gs) (write_geometries p codec.le gs)
    geometries-Plain no_geometries u = refl
    geometries-Plain (also g gs) u =
        Plain-seq (write_geometry_ewkb p codec xy none g) (write_geometries_ewkb p codec xy gs)
          (write_geometry p codec.le g) (write_geometries p codec.le gs) (geometry-Plain g)
          (geometries-Plain gs) u

-- On a little-endian target the two writers agree: without Z, M and SRID the EWKB and the ISO
-- writer give the bytes of the plain one, in either byte order, and use no extra ordinate.
pub write_geometry_ewkb-write_geometry :
    (p : Platform) (codec : Codec) (g : Geometry) (unused : List ℕ)
    → p.target_le ≡ true
    → write_geometry_ewkb p codec xy none g unused ≡ (write_geometry p codec.le g, unused)
write_geometry_ewkb-write_geometry p codec g unused little = geometry-Plain p little codec g unused

-- the bytes of the plain writer, read at depth 0, with bytes behind them
Plain-read_top :
    (p : Platform) (g : Geometry) (le : Bool) (behind : Bytes)
    → p.target_le ≡ true
    → Fits p xy levels g
    → read_top p (start (write_geometry p le g ++ behind))
      ≡ ok (
        (as_read p g, none, xy, base_code g),
        record { pos = length (write_geometry p le g); unread = behind; extra_coords = [] },
      )
Plain-read_top p g le behind little h =
    let codec : Codec = record { le = le; enc = ewkb } in
    let same_bytes : (write_geometry_ewkb p codec xy none g []).0 ≡ write_geometry p le g =
      ap (λ r. r.0) (geometry-Plain p little codec g []) in
    subst
      (λ b.
        read_top p (start (b ++ behind))
        ≡ ok (
          (as_read p g, none, xy, base_code g),
          record { pos = length b; unread = behind; extra_coords = [] },
        ))
      same_bytes (Written-read_top p codec xy none g [] behind h tt (omega arith) tt)

-- On a little-endian target `read_wkb` gives back what `write_wkb_with_opts` was given, in either
-- byte order, for every geometry that fits the format: lines, rectangles and triangles as line
-- strings and polygons, all else as it was.
pub read_wkb-write_wkb_with_opts :
    (p : Platform) (g : Geometry) (opts : WriteOptions)
    → p.target_le ≡ true
    → Fits p xy levels g
    → read_wkb p (write_wkb_with_opts p g opts) ≡ ok (as_read p g)
unfolding read_wkb write_wkb_with_opts
read_wkb-write_wkb_with_opts p g opts little h =
    let out = write_geometry p (is_little opts.endianness) g in
    let whole = Plain-read_top p g (is_little opts.endianness) [] little h in
    let read =
      subst
        (λ b.
          read_top p (start b)
          ≡ ok (
            (as_read p g, none, xy, base_code g),
            record { pos = length out; unread = []; extra_coords = [] },
          ))
        (append-nil out) whole in
    rw read (rw (==_refl (length out)))

-- With a byte or more behind what was written, `read_wkb` reports where the geometry ended and how
-- long the input is.
pub read_wkb_trailing :
    (p : Platform) (g : Geometry) (opts : WriteOptions) (b : ℕ) (behind : Bytes)
    → p.target_le ≡ true
    → Fits p xy levels g
    → let out = write_wkb_with_opts p g opts in
      read_wkb p (out ++ b ∷ behind)
      ≡ err (trailing_bytes (length out) (length (out ++ b ∷ behind)))
unfolding read_wkb write_wkb_with_opts
read_wkb_trailing p g opts b behind little h =
    let out = write_geometry p (is_little opts.endianness) g in
    rw (Plain-read_top p g (is_little opts.endianness) (b ∷ behind) little h) (
      rw (
        ==_lt (length out) (length (out ++ b ∷ behind))
          (omega (arith, length-append out (b ∷ behind)))))

-- The computed size is the number of bytes written, in either byte order.
pub length-write_wkb_with_opts :
    (p : Platform) (g : Geometry) (opts : WriteOptions)
    → p.target_le ≡ true
    → length (write_wkb_with_opts p g opts) ≡ wkb_size g
unfolding write_wkb_with_opts wkb_size
length-write_wkb_with_opts p g opts little =
    let codec : Codec = record { le = is_little opts.endianness; enc = ewkb } in
    ap length (sym (ap (λ r. r.0) (geometry-Plain p little codec g [])))
    ∙ geometry-Gives p codec xy g none []

-- `estimate_wkb_size` finds the size of a written geometry at the front of any bytes.
pub estimate_wkb_size-write_wkb_with_opts :
    (p : Platform) (g : Geometry) (opts : WriteOptions) (behind : Bytes)
    → p.target_le ≡ true
    → Fits p xy levels g
    → estimate_wkb_size p (write_wkb_with_opts p g opts ++ behind) ≡ ok (wkb_size g)
unfolding estimate_wkb_size write_wkb_with_opts
estimate_wkb_size-write_wkb_with_opts p g opts behind little h =
    rw (Plain-read_top p g (is_little opts.endianness) behind little h)
      (ap ok (length-write_wkb_with_opts p g opts little))
