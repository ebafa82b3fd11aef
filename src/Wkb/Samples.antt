-- ===== src/Wkb/Samples.antt =====
-- A target and geometries for the tests of io/wkb.
use geo_repair.Prelude.{
  ℕ, suc, Bool, true, ◌&&◌, List, [], ◌∷◌, ◌++◌, some, arith, refl, if◌then◌else◌, ◌==◌,
}
use geo_repair.Geo.{
  Coord, LineString, Geometry, Platform, also, no_geometries, point, polygon, line, multi_point,
  geometry_collection, rect, is_nan,
}
use geo_repair.Wkb.Types.{EwkbGeometry, Dims, xy, xyz}
use geo_repair.Wkb.WriteEwkb.{is_empty_coord}
use geo_repair.Zm.{count_coords}
use geo_repair.Wkb.Coords.{CoordFits}
use geo_repair.Wkb.Rings.{RingFits}
use geo_repair.Wkb.Fits.{
  Fits, fits_point, fits_polygon, fits_line, fits_multi_point, fits_rect, fits_geometry_collection,
  fits_also, fits_none,
}
use geo_repair.Wkb.Inverse.{levels, EwkbFits}

abbrev same_coord : Coord → Coord → Bool
same_coord a b = (a.x == b.x) && (a.y == b.y)

abbrev last_coord : Coord → List Coord → Coord
last_coord c [] = c
last_coord _ (c ∷ cs) = last_coord c cs

abbrev close : LineString → LineString
close [] = []
close (c ∷ cs) = if same_coord c (last_coord c cs) then c ∷ cs else (c ∷ cs) ++ (c ∷ [])

abbrev pub x86 : Platform
x86 = record { target_le = true; nan = 0x7ff8_0000_0000_0000; close_ring = close }

-- 0.0, 1.0 and 2.0
abbrev c00 : Coord
c00 = record { x = 0; y = 0 }

abbrev pub c12 : Coord
c12 = record { x = 0x3ff0_0000_0000_0000; y = 0x4000_0000_0000_0000 }

abbrev c20 : Coord
c20 = record { x = 0x4000_0000_0000_0000; y = 0 }

abbrev triangular : LineString
triangular = c00 ∷ c20 ∷ c12 ∷ c00 ∷ []

-- a point, a polygon and a multi point
abbrev pub parts : Geometry
parts = geometry_collection (
    also (point c12) (
      also (polygon (record { exterior = triangular; interiors = triangular ∷ [] }))
        (also (multi_point (c00 ∷ c20 ∷ [])) no_geometries)))

-- these and what the format has no type for
abbrev pub shapes : Geometry
shapes = geometry_collection (also (line c00 c12) (also (rect c00 c12) (also parts no_geometries)))

-- the parts with heights and an SRID
abbrev pub heights : EwkbGeometry
heights = record {
  geometry = parts;
  srid = some 4326;
  dims = xyz;
  extra_coords = 1 ∷ 2 ∷ 3 ∷ 4 ∷ 5 ∷ 6 ∷ 7 ∷ 8 ∷ 9 ∷ 10 ∷ 11 ∷ [];
}

c00-CoordFits : CoordFits xyz c00
unfolding is_empty_coord is_nan
c00-CoordFits = (omega arith, omega arith, refl)

c20-CoordFits : CoordFits xyz c20
unfolding is_empty_coord is_nan
c20-CoordFits = (omega arith, omega arith, refl)

c12-CoordFits : CoordFits xyz c12
unfolding is_empty_coord is_nan
c12-CoordFits = (omega arith, omega arith, refl)

module _ (d : Dims) (h00 : CoordFits d c00) (h20 : CoordFits d c20) (h12 : CoordFits d c12) where
  triangular-RingFits : RingFits x86 d triangular
  triangular-RingFits = (((h00, (h20, (h12, (h00, tt)))), omega arith), cc, cc, refl)

  parts-Fits : (left : ℕ) → Fits x86 d (suc (suc (suc left))) parts
  parts-Fits left =
      fits_geometry_collection
        (fits_also (fits_point h12) (
          fits_also (fits_polygon (triangular-RingFits, (triangular-RingFits, tt), omega arith))
            (fits_also (fits_multi_point (h00, (h20, tt)) (omega arith)) fits_none)))
        (omega arith)

pub shapes-Fits : Fits x86 xy levels shapes
shapes-Fits =
    let h00 : CoordFits xy c00 = (omega arith, omega arith, refl) in
    let h20 : CoordFits xy c20 = (omega arith, omega arith, refl) in
    let h12 : CoordFits xy c12 = (omega arith, omega arith, refl) in
    let h10 : CoordFits xy (record { x = c12.x; y = 0 }) = (omega arith, omega arith, refl) in
    let h02 : CoordFits xy (record { x = 0; y = c12.y }) = (omega arith, omega arith, refl) in
    fits_geometry_collection
      (fits_also (fits_line h00 h12) (
        fits_also (fits_rect (h00, (h10, (h12, (h02, (h00, tt))))))
          (fits_also (parts-Fits xy h00 h20 h12 253) fits_none)))
      (omega arith)

pub heights-EwkbFits : EwkbFits x86 heights
unfolding count_coords
heights-EwkbFits = record {
  geometry_fits = parts-Fits xyz c00-CoordFits c20-CoordFits c12-CoordFits 254;
  srid_fits = omega arith;
  extra_count_eq = refl;
  extra_fits = ground arith;
}
