-- ===== src/Wkb/Inverse.antt =====
-- The reader of io/wkb/read.rs on what the EWKB and ISO writers of io/wkb/write.rs give.
use mathlib.Core.Path.{subst}
use native.Mathlib.Nat.{zero-add}
use geo_repair.Prelude.{
  ℕ, suc, ◌+◌, ◌*◌, ◌≡◌, ap, ◌∙◌, true, List, [], ◌∷◌, ◌++◌, Option, none, append-nil, arith,
  length, All,
}
use geo_repair.Words.{Bytes}
use geo_repair.Geo.{Geometry, Geometries, Platform, count_geometries}
use geo_repair.Geo.{also, point, geometry_collection}
use geo_repair.Zm.{count_coords}
use geo_repair.Wkb.Types.{ok, Dims, EwkbGeometry}
use geo_repair.Wkb.Cursor.{start}
use geo_repair.Wkb.Read.{max_wkb_nesting, repeat}
use geo_repair.Wkb.Reader.{read_geometry_inner, read_top, read_ewkb}
use geo_repair.Wkb.Write.{rect_ring, triangle_ring}
use geo_repair.Wkb.WriteEwkb.{write_point_geometry}
use geo_repair.Wkb.Types.{wkb_point}
use geo_repair.Wkb.WriteEwkb.{
  ◌>>>◌, iso, ewkb, Codec, write_geometry_ewkb, write_geometries_ewkb, write_ewkb, write_wkb_iso,
}
use geo_repair.Wkb.Header.{SridFits}
use geo_repair.Wkb.Trips.{IsF64, RoundTrips, RoundTrips-cost}
use geo_repair.Wkb.Coords.{extra_count}
use geo_repair.Wkb.Parts.{
  RoundTrips-point_geometry, RoundTrips-linestring_geometry, RoundTrips-polygon_geometry,
  RoundTrips-one_ring, RoundTrips-line,
}
use geo_repair.Wkb.Fits.{
  Fits, AllFit, fits_point, fits_line, fits_line_string, fits_polygon, fits_multi_point,
  fits_multi_line_string, fits_multi_polygon, fits_geometry_collection, fits_rect, fits_triangle,
  fits_none, fits_also, as_read, base_code,
}
use geo_repair.Wkb.RoundTrip.{
  any_part, RoundTrips-also, RoundTrips-none, as_read_list, RoundTrips-multi_point,
  RoundTrips-multi_line_string, RoundTrips-multi_polygon, RoundTrips-collection,
}

module _ (p : Platform) (codec : Codec) (dims : Dims) where
  mutual
    unfolding write_geometry_ewkb count_coords as_read

    RoundTrips-geometry :
        {left : ℕ} {g : Geometry}
        → Fits p dims left g
        → (srid : Option ℕ) → SridFits codec.enc srid
        → RoundTrips
            (write_geometry_ewkb p codec dims srid g)
            (read_geometry_inner p left)
            (as_read p g, srid, dims, base_code g)
            (count_coords g * extra_count dims)
            5
    RoundTrips-geometry (fits_point {left} {c} h) srid f =
        RoundTrips-cost (write_point_geometry p codec dims srid c)
          (read_geometry_inner p (suc left)) (point c, srid, dims, wkb_point) (extra_count dims)
          (1 * extra_count dims) 5 (omega arith)
          (RoundTrips-point_geometry p codec dims srid f left c h)
    RoundTrips-geometry (fits_line {left} {a} {b} h h') srid f =
        RoundTrips-line p codec dims srid f left a b ((h, (h', tt)), omega arith)
    RoundTrips-geometry (fits_line_string {left} {ls} h) srid f =
        RoundTrips-linestring_geometry p codec dims srid f left ls h
    RoundTrips-geometry (fits_polygon {left} {g} h) srid f =
        RoundTrips-polygon_geometry p codec dims srid f left g h
    RoundTrips-geometry (fits_multi_point {left} {cs} h room) srid f =
        RoundTrips-multi_point p codec dims srid f left cs h room
    RoundTrips-geometry (fits_multi_line_string {left} {lss} h room) srid f =
        RoundTrips-multi_line_string p codec dims srid f left lss h room
    RoundTrips-geometry (fits_multi_polygon {left} {gs} h room) srid f =
        RoundTrips-multi_polygon p codec dims srid f left gs h room
    RoundTrips-geometry (fits_geometry_collection {left} {gs} h room) srid f =
        RoundTrips-collection p codec dims srid f left gs room (RoundTrips-geometries h)
    RoundTrips-geometry (fits_rect {left} {lo} {hi} h) srid f =
        RoundTrips-one_ring p codec dims srid f left (rect_ring lo hi) h (omega arith) (omega arith)
          (omega arith)
    RoundTrips-geometry (fits_triangle {left} {v1} {v2} {v3} h) srid f =
        RoundTrips-one_ring p codec dims srid f left (triangle_ring v1 v2 v3) h (omega arith)
          (omega arith) (omega arith)

    RoundTrips-geometries :
        {left : ℕ} {gs : Geometries}
        → AllFit p dims left gs
        → RoundTrips
            (write_geometries_ewkb p codec dims gs)
            (repeat (count_geometries gs) (any_part (read_geometry_inner p left)))
            (as_read_list p gs)
            (count_coords (geometry_collection gs) * extra_count dims)
            (count_geometries gs * 5)
    RoundTrips-geometries (fits_none {left}) =
        RoundTrips-none (any_part (read_geometry_inner p left)) (0 * extra_count dims) (omega arith)
    RoundTrips-geometries (fits_also {left} {g} {gs} h hs) =
        let m = read_geometry_inner p left in
        let n = count_geometries gs in
        let w = write_geometry_ewkb p codec dims none g >>> write_geometries_ewkb p codec dims gs in
        let k = extra_count dims in
        let one = count_coords g * k in
        let all = count_coords (geometry_collection gs) * k in
        RoundTrips-cost w (repeat (suc n) (any_part m)) (as_read p g ∷ as_read_list p gs)
          (one + all) (count_coords (geometry_collection (also g gs)) * k) (suc n * 5) (omega arith)
          (RoundTrips-also (write_geometry_ewkb p codec dims none g)
            (write_geometries_ewkb p codec dims gs) m (as_read p g) dims (base_code g)
            (as_read_list p gs) n one all (RoundTrips-geometry h none tt)
            (RoundTrips-geometries hs))

-- The levels of nesting that a read at depth 0 has.
abbrev pub levels : ℕ
levels = suc max_wkb_nesting

-- A geometry with everything that its formats carry within bounds, and with one extra ordinate for
-- each coordinate and each of Z and M.
pub record EwkbFits (p : Platform) (e : EwkbGeometry) : Type 0 where
  pub geometry_fits : Fits p e.dims levels e.geometry
  pub srid_fits : SridFits ewkb e.srid
  pub extra_count_eq : length e.extra_coords ≡ count_coords e.geometry * extra_count e.dims
  pub extra_fits : All IsF64 e.extra_coords

-- What a read at depth 0 makes of the bytes of a writer, with bytes behind them.
pub Written-read_top :
    (p : Platform) (codec : Codec) (dims : Dims) (srid : Option ℕ) (g : Geometry) (es : List ℕ)
    (behind : Bytes)
    → Fits p dims levels g
    → SridFits codec.enc srid
    → length es ≡ count_coords g * extra_count dims
    → All IsF64 es
    → let out = (write_geometry_ewkb p codec dims srid g es).0 in
      read_top p (start (out ++ behind))
      ≡ ok (
        (as_read p g, srid, dims, base_code g),
        record { pos = length out; unread = behind; extra_coords = es },
      )
unfolding read_top
Written-read_top p codec dims srid g es behind h f len all =
    let (b, written, lo, reads) = RoundTrips-geometry p codec dims h srid f es [] len all in
    let out : (write_geometry_ewkb p codec dims srid g es).0 ≡ b =
      ap (λ r. r.0)
        (subst (λ xs. write_geometry_ewkb p codec dims srid g xs ≡ (b, [])) (append-nil es)
          written) in
    rw out (
      reads 0 behind []
      ∙ ap
          (λ n. ok (
            (as_read p g, srid, dims, base_code g),
            record { pos = n; unread = behind; extra_coords = es },
          ))
          (zero-add (length b)))

-- The same with nothing behind the bytes.
pub Written-read_top_alone :
    (p : Platform) (codec : Codec) (dims : Dims) (srid : Option ℕ) (g : Geometry) (es : List ℕ)
    → Fits p dims levels g
    → SridFits codec.enc srid
    → length es ≡ count_coords g * extra_count dims
    → All IsF64 es
    → let out = (write_geometry_ewkb p codec dims srid g es).0 in
      read_top p (start out)
      ≡ ok (
        (as_read p g, srid, dims, base_code g),
        record { pos = length out; unread = []; extra_coords = es },
      )
Written-read_top_alone p codec dims srid g es h f len all =
    let out = (write_geometry_ewkb p codec dims srid g es).0 in
    subst
      (λ b.
        read_top p (start b)
        ≡ ok (
          (as_read p g, srid, dims, base_code g),
          record { pos = length out; unread = []; extra_coords = es },
        ))
      (append-nil out) (Written-read_top p codec dims srid g es [] h f len all)

-- `read_ewkb` gives back what `write_ewkb` was given, within the bounds of `EwkbFits`: the SRID, the
-- dimensions and the extra ordinates as they were, and the geometry as the format can state it.
pub read_ewkb-write_ewkb :
    (p : Platform) (e : EwkbGeometry)
    → EwkbFits p e
    → read_ewkb p (write_ewkb p e) ≡ ok (record e { geometry = as_read p e.geometry })
unfolding read_ewkb write_ewkb
read_ewkb-write_ewkb p e h = rw (
    Written-read_top_alone p (record { le = true; enc = ewkb }) e.dims e.srid e.geometry
      e.extra_coords h.geometry_fits h.srid_fits h.extra_count_eq h.extra_fits)

-- From the ISO form `read_ewkb` gives the same, but for the SRID, which that form has no field for.
pub read_ewkb-write_wkb_iso :
    (p : Platform) (e : EwkbGeometry)
    → EwkbFits p e
    → read_ewkb p (write_wkb_iso p e)
      ≡ ok (record e { geometry = as_read p e.geometry; srid = none })
unfolding read_ewkb write_wkb_iso
read_ewkb-write_wkb_iso p e h = rw (
    Written-read_top_alone p (record { le = true; enc = iso }) e.dims none e.geometry e.extra_coords
      h.geometry_fits tt h.extra_count_eq h.extra_fits)
