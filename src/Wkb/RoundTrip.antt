-- ===== src/Wkb/RoundTrip.antt =====
-- The round trip through the reader and the EWKB and ISO writers, by induction on the geometry.
use mathlib.Core.Path.{subst}
use geo_repair.Prelude.{
  ℕ, suc, ◌+◌, ◌*◌, ◌<◌, ◌≡◌, refl, ap, List, [], ◌∷◌, Option, none, arith, length, All, sum_by,
}
use geo_repair.Words.{u32_mod}
use geo_repair.Geo.{
  Coord, LineString, Polygon, Geometry, Geometries, Platform, to_geometries, count_geometries,
  no_geometries, also, point, line_string, polygon, multi_point, multi_line_string, multi_polygon,
  geometry_collection,
}
use geo_repair.Zm.{count_polygon_coords, count_coords}
use geo_repair.Wkb.Types.{
  ok, Dims, wkb_point, wkb_linestring, wkb_polygon, wkb_multipoint, wkb_multilinestring,
  wkb_multipolygon, wkb_geometrycollection,
}
use geo_repair.Wkb.Cursor.{Cursor, M, pure, ◌>>=◌}
use geo_repair.Wkb.Read.{Read, repeat, expect_point, expect_linestring, expect_polygon}
use geo_repair.Wkb.Reader.{read_part, read_body, read_geometry_inner}
use geo_repair.Wkb.WriteEwkb.{
  W, emit, ◌>>>◌, Codec, write_each, write_point_geometry, write_linestring_geometry,
  write_polygon_geometry, write_geometry_ewkb, write_geometries_ewkb,
}
use geo_repair.Wkb.Reads.{Reads-pure}
use geo_repair.Wkb.Header.{SridFits}
use geo_repair.Wkb.Trips.{
  RoundTrips, RoundTrips-emit, RoundTrips-cost, RoundTrips-le, RoundTrips-then, RoundTrips-seq,
  RoundTrips-each,
}
use geo_repair.Wkb.Coords.{CoordFits, extra_count}
use geo_repair.Wkb.Rings.{LineFits, PolygonFits, sum_by-mul}
use geo_repair.Wkb.Parts.{
  RoundTrips-point_geometry, RoundTrips-linestring_geometry, RoundTrips-polygon_geometry,
  RoundTrips-container,
}
use geo_repair.Wkb.Fits.{as_read, as_read_all}

abbrev pub as_read_list : Platform → Geometries → List Geometry
as_read_list p no_geometries = []
as_read_list p (also g gs) = as_read p g ∷ as_read_list p gs

to_geometries-as_read_list :
    (p : Platform) (gs : Geometries) → to_geometries (as_read_list p gs) ≡ as_read_all p gs
unfolding as_read
to_geometries-as_read_list p no_geometries = refl
to_geometries-as_read_list p (also g gs) = ap (also (as_read p g)) (to_geometries-as_read_list p gs)

length-as_read_list :
    (p : Platform) (gs : Geometries) → length (as_read_list p gs) ≡ count_geometries gs
length-as_read_list p no_geometries = refl
length-as_read_list p (also g gs) = ap suc (length-as_read_list p gs)

sum_by-one {ℓ} : {A : Type ℓ} (k : ℕ) (xs : List A) → sum_by (λ x. k) xs ≡ length xs * k
sum_by-one k [] = omega arith
sum_by-one k (x ∷ xs) = omega (arith, sum_by-one k xs)

-- an element of a collection, of any kind
abbrev pub any_part : M Read → M Geometry
any_part m = read_part m (λ g _. pure g)

pub RoundTrips-none : (m : M Geometry) (k : ℕ) → 0 ≡ k → RoundTrips (emit []) (repeat 0 m) [] k 0
unfolding repeat
RoundTrips-none m k e =
    RoundTrips-cost (emit []) (pure []) [] 0 k 0 e
      (RoundTrips-emit (pure []) [] [] 0 (omega arith) (Reads-pure []))

-- One more geometry in front of those of a collection.
pub RoundTrips-also :
    (w w' : W) (m : M Read) (g : Geometry) (dims : Dims) (code : ℕ) (gs : List Geometry) (n a b : ℕ)
    → RoundTrips w m (g, none, dims, code) a 5
    → RoundTrips w' (repeat n (any_part m)) gs b (n * 5)
    → RoundTrips (w >>> w') (repeat (suc n) (any_part m)) (g ∷ gs) (a + b) (suc n * 5)
unfolding repeat read_part
RoundTrips-also w w' m g dims code gs n a b t t' =
    let first : RoundTrips w (any_part m) g a 5 =
      RoundTrips-then w m (λ ((g', _, _, _) : Read). pure g') (g, none, dims, code) g a 5
        (λ cur. refl) t in
    let rest : RoundTrips w' (repeat n (any_part m) >>= λ xs. pure (g ∷ xs)) (g ∷ gs) b (n * 5) =
      RoundTrips-then w' (repeat n (any_part m)) (λ xs. pure (g ∷ xs)) gs (g ∷ gs) b (n * 5)
        (λ cur. refl) t' in
    RoundTrips-le (w >>> w') (repeat (suc n) (any_part m)) (g ∷ gs) (a + b) (5 + n * 5) (suc n * 5)
      (omega arith)
      (RoundTrips-seq w w' (any_part m) (λ x. repeat n (any_part m) >>= λ xs. pure (x ∷ xs)) g
        (g ∷ gs) a b 5 (n * 5) first rest)

module _ (p : Platform) (codec : Codec) (dims : Dims) where
  abbrev pub k : ℕ
  k = extra_count dims

  abbrev pub sub : ℕ → M Read
  sub left = read_geometry_inner p (suc left)

  -- a part of a multi-geometry
  pub RoundTrips-part {ℓ} :
      {A : Type ℓ} (left : ℕ) (w : W) (g : Geometry) (code n : ℕ) (expect : Geometry → ℕ → M A)
      (a : A)
      → ((cur : Cursor) → expect g code cur ≡ ok (a, cur))
      → RoundTrips w (sub left) (g, none, dims, code) n 5
      → RoundTrips w (read_part (sub left) expect) a n 5
  unfolding read_part
  RoundTrips-part left w g code n expect a h t =
      RoundTrips-then w (sub left) (λ ((g', _, _, code') : Read). expect g' code')
        (g, none, dims, code) a n 5 h t

  module _ (srid : Option ℕ) (fits : SridFits codec.enc srid) where
    pub RoundTrips-multi_point :
        (left : ℕ) (cs : List Coord)
        → All (CoordFits dims) cs
        → length cs < u32_mod
        → RoundTrips
            (write_geometry_ewkb p codec dims srid (multi_point cs))
            (read_geometry_inner p (suc (suc left)))
            (multi_point cs, srid, dims, wkb_multipoint)
            (length cs * k)
            5
    unfolding write_geometry_ewkb
    RoundTrips-multi_point left cs h room =
        let part = read_part (sub left) expect_point in
        let each =
          RoundTrips-each (CoordFits dims) (write_point_geometry p codec dims none) part (λ _. k) 5
            cs
            (λ c hc.
              RoundTrips-part left (write_point_geometry p codec dims none c) (point c) wkb_point k
                expect_point c (unfold expect_point in λ cur. refl)
                (RoundTrips-point_geometry p codec dims none tt left c hc))
            h in
        subst
          (λ n.
            RoundTrips (write_geometry_ewkb p codec dims srid (multi_point cs))
              (read_geometry_inner p (suc (suc left))) (multi_point cs, srid, dims, wkb_multipoint)
              n 5)
          (sum_by-one k cs)
          (RoundTrips-container p codec dims srid fits (suc left) wkb_multipoint (length cs)
            (write_each (write_point_geometry p codec dims none) cs) part multi_point cs
            (sum_by (λ _. k) cs) (omega arith) room refl (unfold read_body in refl) each)

    pub RoundTrips-multi_line_string :
        (left : ℕ) (lss : List LineString)
        → All (LineFits dims) lss
        → length lss < u32_mod
        → RoundTrips
            (write_geometry_ewkb p codec dims srid (multi_line_string lss))
            (read_geometry_inner p (suc (suc left)))
            (multi_line_string lss, srid, dims, wkb_multilinestring)
            (sum_by length lss * k)
            5
    unfolding write_geometry_ewkb
    RoundTrips-multi_line_string left lss h room =
        let part = read_part (sub left) expect_linestring in
        let each =
          RoundTrips-each (LineFits dims) (write_linestring_geometry p codec dims none) part
            (λ ls. length ls * k) 5 lss
            (λ ls hl.
              RoundTrips-part left (write_linestring_geometry p codec dims none ls) (line_string ls)
                wkb_linestring (length ls * k) expect_linestring ls
                (unfold expect_linestring in λ cur. refl)
                (RoundTrips-linestring_geometry p codec dims none tt left ls hl))
            h in
        subst
          (λ n.
            RoundTrips (write_geometry_ewkb p codec dims srid (multi_line_string lss))
              (read_geometry_inner p (suc (suc left)))
              (multi_line_string lss, srid, dims, wkb_multilinestring) n 5)
          (sum_by-mul length k lss)
          (RoundTrips-container p codec dims srid fits (suc left) wkb_multilinestring (length lss)
            (write_each (write_linestring_geometry p codec dims none) lss) part multi_line_string
            lss (sum_by (λ ls. length ls * k) lss) (omega arith) room refl
            (unfold read_body in refl) each)

    pub RoundTrips-multi_polygon :
        (left : ℕ) (gs : List Polygon)
        → All (PolygonFits p dims) gs
        → length gs < u32_mod
        → RoundTrips
            (write_geometry_ewkb p codec dims srid (multi_polygon gs))
            (read_geometry_inner p (suc (suc left)))
            (multi_polygon gs, srid, dims, wkb_multipolygon)
            (sum_by count_polygon_coords gs * k)
            5
    unfolding write_geometry_ewkb
    RoundTrips-multi_polygon left gs h room =
        let part = read_part (sub left) expect_polygon in
        let each =
          RoundTrips-each (PolygonFits p dims) (write_polygon_geometry p codec dims none) part
            (λ g. count_polygon_coords g * k) 5 gs
            (λ g hg.
              RoundTrips-part left (write_polygon_geometry p codec dims none g) (polygon g)
                wkb_polygon (count_polygon_coords g * k) expect_polygon g
                (unfold expect_polygon in λ cur. refl)
                (RoundTrips-polygon_geometry p codec dims none tt left g hg))
            h in
        subst
          (λ n.
            RoundTrips (write_geometry_ewkb p codec dims srid (multi_polygon gs))
              (read_geometry_inner p (suc (suc left)))
              (multi_polygon gs, srid, dims, wkb_multipolygon) n 5)
          (sum_by-mul count_polygon_coords k gs)
          (RoundTrips-container p codec dims srid fits (suc left) wkb_multipolygon (length gs)
            (write_each (write_polygon_geometry p codec dims none) gs) part multi_polygon gs
            (sum_by (λ g. count_polygon_coords g * k) gs) (omega arith) room refl
            (unfold read_body in refl) each)

    pub RoundTrips-collection :
        (left : ℕ) (gs : Geometries)
        → count_geometries gs < u32_mod
        → RoundTrips
            (write_geometries_ewkb p codec dims gs)
            (repeat (count_geometries gs) (any_part (read_geometry_inner p left)))
            (as_read_list p gs)
            (count_coords (geometry_collection gs) * k)
            (count_geometries gs * 5)
        → RoundTrips
            (write_geometry_ewkb p codec dims srid (geometry_collection gs))
            (read_geometry_inner p (suc left))
            (as_read p (geometry_collection gs), srid, dims, wkb_geometrycollection)
            (count_coords (geometry_collection gs) * k)
            5
    unfolding write_geometry_ewkb as_read
    RoundTrips-collection left gs room parts =
        let n = count_coords (geometry_collection gs) * k in
        subst
          (λ xs.
            RoundTrips (write_geometry_ewkb p codec dims srid (geometry_collection gs))
              (read_geometry_inner p (suc left))
              (geometry_collection xs, srid, dims, wkb_geometrycollection) n 5)
          (to_geometries-as_read_list p gs)
          (RoundTrips-container p codec dims srid fits left wkb_geometrycollection
            (count_geometries gs) (write_geometries_ewkb p codec dims gs)
            (any_part (read_geometry_inner p left)) (λ xs. geometry_collection (to_geometries xs))
            (as_read_list p gs) n (omega arith) room (length-as_read_list p gs)
            (unfold read_body in refl) parts)
