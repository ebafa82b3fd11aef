-- ===== src/Wkb/Parts.antt =====
-- Each kind of geometry as it is written and read: points, line strings and polygons with their
-- headers, figures of one ring, and containers of parts.
use mathlib.Core.Path.{subst}
use geo_repair.Prelude.{
  ℕ, suc, ◌+◌, ◌*◌, ◌<◌, ◌≡◌, ◌≢◌, refl, List, [], ◌∷◌, ◌++◌, Option, append-nil, arith, length,
  All,
}
use geo_repair.Words.{u32_mod}
use geo_repair.Geo.{
  Coord, LineString, Polygon, Geometry, Platform, polygon_new, point, line_string, polygon,
}
use geo_repair.Wkb.Types.{Dims, coord_count, wkb_point, wkb_linestring, wkb_polygon}
use geo_repair.Wkb.Cursor.{M, pure, ◌>>=◌}
use geo_repair.Wkb.Read.{
  Read, read_coords_batch, swap_remove_first, read_point_inner, read_linestring_inner,
  read_polygon_inner, read_ring, read_rings, repeat,
}
use geo_repair.Wkb.Reader.{read_body, read_parts, read_geometry_inner}
use geo_repair.Wkb.Write.{as_u32, write_u32}
use geo_repair.Wkb.WriteEwkb.{
  W, emit, ◌>>>◌, Codec, write_header, write_container, write_coord_ewkb, write_coords_ewkb,
  write_linestring_ewkb, write_polygon_ewkb, write_point_geometry, write_linestring_geometry,
  write_polygon_geometry,
}
use geo_repair.Wkb.Header.{SridFits}
use geo_repair.Wkb.Trips.{
  RoundTrips, RoundTrips-then, RoundTrips-emit_append, RoundTrips-counted, RoundTrips-header,
}
use geo_repair.Wkb.Coords.{CoordFits, extra_count, RoundTrips-coords}
use geo_repair.Wkb.Rings.{
  LineFits, PolygonFits, as_u32-eq, RoundTrips-linestring, RoundTrips-open_ring, RoundTrips-polygon,
  read_rings-suc,
}
use geo_repair.Zm.{count_polygon_coords}

seq-emit_nil : (w : W) → (w >>> emit []) ≡ w
seq-emit_nil w = λ i u. (append-nil (w u).0 i, (w u).1)

module _ (p : Platform) (codec : Codec) (dims : Dims) (srid : Option ℕ)
    (fits : SridFits codec.enc srid) where
  RoundTrips-point_inner :
      (c : Coord)
      → CoordFits dims c
      → RoundTrips
          (write_coord_ewkb p dims codec.le c)
          (read_point_inner p codec.le (coord_count dims))
          c
          (extra_count dims)
          0
  unfolding read_point_inner
  RoundTrips-point_inner c h =
      let one : length (c ∷ []) * extra_count dims ≡ extra_count dims = omega arith in
      subst
        (λ k.
          RoundTrips (write_coord_ewkb p dims codec.le c)
            (read_coords_batch p 1 codec.le (coord_count dims) >>= swap_remove_first) c k 0)
        one
        (RoundTrips-then (write_coord_ewkb p dims codec.le c)
          (read_coords_batch p 1 codec.le (coord_count dims)) swap_remove_first (c ∷ []) c
          (length (c ∷ []) * extra_count dims) 0 (unfold swap_remove_first in λ cur. refl)
          (rw (← seq-emit_nil (write_coord_ewkb p dims codec.le c))
            (unfold write_coords_ewkb in RoundTrips-coords p codec.le dims (c ∷ []) (h, tt))))

  pub RoundTrips-point_geometry :
      (left : ℕ) (c : Coord)
      → CoordFits dims c
      → RoundTrips
          (write_point_geometry p codec dims srid c)
          (read_geometry_inner p (suc left))
          (point c, srid, dims, wkb_point)
          (extra_count dims)
          5
  unfolding write_point_geometry
  RoundTrips-point_geometry left c h =
      RoundTrips-header p codec left wkb_point dims srid (write_coord_ewkb p dims codec.le c)
        (point c) (extra_count dims) 0 (omega arith) fits
        (unfold read_body in
          RoundTrips-then (write_coord_ewkb p dims codec.le c)
            (read_point_inner p codec.le (coord_count dims)) (λ c'. pure (point c')) c (point c)
            (extra_count dims) 0 (λ cur. refl) (RoundTrips-point_inner c h))

  pub RoundTrips-linestring_geometry :
      (left : ℕ) (ls : LineString)
      → LineFits dims ls
      → RoundTrips
          (write_linestring_geometry p codec dims srid ls)
          (read_geometry_inner p (suc left))
          (line_string ls, srid, dims, wkb_linestring)
          (length ls * extra_count dims)
          5
  unfolding write_linestring_geometry
  RoundTrips-linestring_geometry left ls h =
      let w = write_linestring_ewkb p dims codec.le ls in
      RoundTrips-header p codec left wkb_linestring dims srid w (line_string ls)
        (length ls * extra_count dims) 4 (omega arith) fits
        (unfold read_body in
          RoundTrips-then w (read_linestring_inner p codec.le (coord_count dims))
            (λ l. pure (line_string l)) ls (line_string ls) (length ls * extra_count dims) 4
            (λ cur. refl) (RoundTrips-linestring p codec dims ls h))

  -- A line is written with its count of two behind the header.
  pub RoundTrips-line :
      (left : ℕ) (a b : Coord)
      → LineFits dims (a ∷ b ∷ [])
      → RoundTrips
          (emit (write_container codec dims srid wkb_linestring 2)
            >>> write_coords_ewkb p dims codec.le (a ∷ b ∷ []))
          (read_geometry_inner p (suc left))
          (line_string (a ∷ b ∷ []), srid, dims, wkb_linestring)
          (2 * extra_count dims)
          5
  unfolding write_container write_linestring_geometry write_linestring_ewkb
  RoundTrips-line left a b h =
      RoundTrips-emit_append (write_coords_ewkb p dims codec.le (a ∷ b ∷ []))
        (read_geometry_inner p (suc left)) (line_string (a ∷ b ∷ []), srid, dims, wkb_linestring)
        (write_header wkb_linestring dims srid codec) (write_u32 codec.le 2) (2 * extra_count dims)
        5 (RoundTrips-linestring_geometry left (a ∷ b ∷ []) h)

  pub RoundTrips-polygon_geometry :
      (left : ℕ) (g : Polygon)
      → PolygonFits p dims g
      → RoundTrips
          (write_polygon_geometry p codec dims srid g)
          (read_geometry_inner p (suc left))
          (polygon g, srid, dims, wkb_polygon)
          (count_polygon_coords g * extra_count dims)
          5
  unfolding write_polygon_geometry
  RoundTrips-polygon_geometry left g h =
      let w = write_polygon_ewkb p dims codec.le g in
      RoundTrips-header p codec left wkb_polygon dims srid w (polygon g)
        (count_polygon_coords g * extra_count dims) 4 (omega arith) fits
        (unfold read_body in
          RoundTrips-then w (read_polygon_inner p codec.le (coord_count dims))
            (λ q. pure (polygon q)) g (polygon g) (count_polygon_coords g * extra_count dims) 4
            (λ cur. refl) (RoundTrips-polygon p codec dims g h))

  -- A container whose parts are read by `part`.
  pub RoundTrips-container {ℓ} :
      {A : Type ℓ} (left base n : ℕ) (parts : W) (part : M A) (wrap : List A → Geometry)
      (as' : List A) (k : ℕ)
      → base < 1000
      → n < u32_mod
      → length as' ≡ n
      → read_body p (read_geometry_inner p left) codec.le (coord_count dims) base
        ≡ (read_parts p codec.le part >>= λ xs. pure (wrap xs))
      → RoundTrips parts (repeat n part) as' k (n * 5)
      → RoundTrips
          (emit (write_container codec dims srid base n) >>> parts)
          (read_geometry_inner p (suc left))
          (wrap as', srid, dims, base)
          k
          5
  unfolding write_container
  RoundTrips-container left base n parts part wrap as' k small room len body t =
      let w = emit (write_u32 codec.le (as_u32 n)) >>> parts in
      RoundTrips-emit_append parts (read_geometry_inner p (suc left)) (wrap as', srid, dims, base)
        (write_header base dims srid codec) (write_u32 codec.le (as_u32 n)) k 5
        (RoundTrips-header p codec left base dims srid w (wrap as') k (4 + n * 5) small fits (
          rw (body, as_u32-eq n room)
            (RoundTrips-then (emit (write_u32 codec.le n) >>> parts) (read_parts p codec.le part)
              (λ xs. pure (wrap xs)) as' (wrap as') k (4 + n * 5) (λ cur. refl)
              (unfold read_parts in
                RoundTrips-counted p codec 5 n parts (λ m. repeat m part) as' k (n * 5) room
                  (λ total h. omega arith) t))))

  -- A figure that is written as a polygon of one ring.
  pub RoundTrips-one_ring :
      (left : ℕ) (ring : LineString)
      → All (CoordFits dims) ring
      → length ring < u32_mod
      → length ring ≢ 1
      → length ring ≢ 2
      → RoundTrips
          (emit (
              write_container codec dims srid wkb_polygon 1
              ++ write_u32 codec.le (as_u32 (length ring)))
            >>> write_coords_ewkb p dims codec.le ring)
          (read_geometry_inner p (suc left))
          (polygon (polygon_new p ring []), srid, dims, wkb_polygon)
          (length ring * extra_count dims)
          5
  unfolding write_container
  RoundTrips-one_ring left ring h room one two =
      let le = codec.le in
      let dim = coord_count dims in
      let k = length ring * extra_count dims in
      let g : Polygon = polygon_new p ring [] in
      let coords = write_coords_ewkb p dims le ring in
      let w = emit (write_u32 le (as_u32 (length ring))) >>> coords in
      let shell : RoundTrips w (read_ring p le dim) ring k 4 =
        unfold write_linestring_ewkb in RoundTrips-open_ring p codec dims ring (h, room) one two in
      let build : RoundTrips w (read_rings p le dim 1) g k 4 = rw (read_rings-suc p codec dims 0) (
        RoundTrips-then w (read_ring p le dim)
          (λ e. repeat 0 (read_ring p le dim) >>= λ hs. pure (polygon_new p e hs)) ring g k 4
          (unfold repeat in λ cur. refl) shell) in
      let body : RoundTrips (emit (write_u32 le 1) >>> w)
          (read_body p (read_geometry_inner p left) le dim wkb_polygon) (polygon g) k (4 + 4) =
        unfold read_body read_polygon_inner in
        RoundTrips-then (emit (write_u32 le 1) >>> w) (read_polygon_inner p le dim)
          (λ q. pure (polygon q)) g (polygon g) k (4 + 4) (λ cur. refl)
          (RoundTrips-counted p codec 4 1 w (read_rings p le dim) g k 4 (omega arith)
            (λ total r. omega arith) build) in
      let header = write_header wkb_polygon dims srid codec in
      let m = read_geometry_inner p (suc left) in
      let r : Read = (polygon g, srid, dims, wkb_polygon) in
      RoundTrips-emit_append coords m r (header ++ write_u32 le 1)
        (write_u32 le (as_u32 (length ring))) k 5
        (RoundTrips-emit_append w m r header (write_u32 le 1) k 5 (
          RoundTrips-header p codec left wkb_polygon dims srid (emit (write_u32 le 1) >>> w)
            (polygon g) k (4 + 4) (omega arith) fits body))
