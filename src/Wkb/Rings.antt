-- ===== src/Wkb/Rings.antt =====
-- Line strings, rings and polygons as the EWKB writer writes them and the reader reads them.
use mathlib.Core.Path.{subst}
use geo_repair.Prelude.{
  ◌⊎◌, ℕ, suc, ◌+◌, ◌-◌, ◌*◌, ◌<◌, ◌≡◌, ◌≢◌, refl, sym, ap, ◌∙◌, false, ◌&&◌, List, [], ◌∷◌, ◌++◌,
  append-nil, map, arith, length, All, sum_by, ◌==◌, inl, inr,
}
use geo_repair.Words.{u32_mod}
use geo_repair.Geo.{LineString, Polygon, Platform, polygon_new}
use geo_repair.Zm.{count_polygon_coords}
use geo_repair.Wkb.Types.{ok, Dims, coord_count}
use geo_repair.Wkb.Cursor.{Cursor, pure, ◌>>=◌}
use geo_repair.Wkb.Read.{
  read_u32, read_coords_batch, read_linestring_inner, check_ring, read_ring, read_rings,
  read_polygon_inner, repeat, read_bounded_count,
}
use geo_repair.Wkb.Write.{as_u32, is_empty, write_u32}
use geo_repair.Wkb.WriteEwkb.{
  emit, ◌>>>◌, Codec, write_coords_ewkb, write_linestring_ewkb, write_linestrings_ewkb, write_each,
  write_polygon_ewkb,
}
use geo_repair.Wkb.Reads.{
  Reads, Reads-bind, Reads-pure, Reads-bytes, cursor, read_u32-Reads, read_bounded_count-Reads,
}
use geo_repair.Wkb.Trips.{
  RoundTrips, RoundTrips-emit, RoundTrips-le, RoundTrips-prefix, RoundTrips-seq, RoundTrips-then,
  RoundTrips-each, RoundTrips-counted, length-write_u32,
}
use geo_repair.Wkb.Coords.{CoordFits, extra_count, RoundTrips-coords}

-- A line string whose length fits its field.
abbrev pub LineFits : Dims → LineString → Type 0
LineFits dims ls = All (CoordFits dims) ls × (length ls < u32_mod)

-- A ring that `Polygon::new` leaves as it is and that has none of the lengths the reader refuses.
abbrev pub RingFits : Platform → Dims → LineString → Type 0
RingFits p dims ring =
    LineFits dims ring × (length ring ≢ 1) × (length ring ≢ 2) × (p.close_ring ring ≡ ring)

abbrev pub PolygonFits : Platform → Dims → Polygon → Type 0
PolygonFits p dims g =
    RingFits p dims g.exterior
    × All (RingFits p dims) g.interiors
    × (suc (length g.interiors) < u32_mod)

pub sum_by-mul {ℓ} :
    {A : Type ℓ} (f : A → ℕ) (k : ℕ) (xs : List A) → sum_by (λ x. f x * k) xs ≡ sum_by f xs * k
sum_by-mul f k [] = omega arith
sum_by-mul f k (x ∷ xs) = omega (arith, sum_by-mul f k xs)

pub as_u32-eq : (n : ℕ) → n < u32_mod → as_u32 n ≡ n
as_u32-eq n h = omega arith

map_closed :
    (p : Platform) (dims : Dims) (rings : List LineString)
    → All (RingFits p dims) rings
    → map p.close_ring rings ≡ rings
map_closed p dims [] h = refl
map_closed p dims (r ∷ rings) (hr, h) = rw (hr.3, map_closed p dims rings h)

module _ (p : Platform) (codec : Codec) (dims : Dims) where
  pub RoundTrips-linestring :
      (ls : LineString)
      → LineFits dims ls
      → RoundTrips
          (write_linestring_ewkb p dims codec.le ls)
          (read_linestring_inner p codec.le (coord_count dims))
          ls
          (length ls * extra_count dims)
          4
  unfolding write_linestring_ewkb read_linestring_inner
  RoundTrips-linestring ls (h, fits) =
      let le = codec.le in
      let n = length ls in
      let batch = λ (m : ℕ). read_coords_batch p m le (coord_count dims) in
      let w = write_coords_ewkb p dims le ls in
      rw (as_u32-eq n fits) (
        RoundTrips-le (emit (write_u32 le n) >>> w) (read_u32 p le >>= batch) ls
          (n * extra_count dims) (length (write_u32 le n) + 0) 4
          (omega (arith, length-write_u32 le n))
          (RoundTrips-prefix w (batch n) (read_u32 p le >>= batch) ls ls (write_u32 le n)
            (n * extra_count dims) 0
            (λ b es len.
              Reads-bind (read_u32 p le) batch n ls (write_u32 le n) b [] es
                (read_u32-Reads p le n fits))
            (RoundTrips-coords p le dims ls h)))

  check_ring-eq :
      (ring : LineString) (cur : Cursor)
      → length ring ≢ 1
      → length ring ≢ 2
      → check_ring ring cur ≡ ok (ring, cur)
  unfolding check_ring
  check_ring-eq ring cur h k = ground arith

  -- a ring before `Polygon::new` sees it
  pub RoundTrips-open_ring :
      (ring : LineString)
      → LineFits dims ring
      → length ring ≢ 1
      → length ring ≢ 2
      → RoundTrips
          (write_linestring_ewkb p dims codec.le ring)
          (read_ring p codec.le (coord_count dims))
          ring
          (length ring * extra_count dims)
          4
  unfolding read_ring
  RoundTrips-open_ring ring fits one two =
      RoundTrips-then (write_linestring_ewkb p dims codec.le ring)
        (read_linestring_inner p codec.le (coord_count dims)) check_ring ring ring
        (length ring * extra_count dims) 4 (λ cur. check_ring-eq ring cur one two)
        (RoundTrips-linestring ring fits)

  RoundTrips-ring :
      (ring : LineString)
      → RingFits p dims ring
      → RoundTrips
          (write_linestring_ewkb p dims codec.le ring)
          (read_ring p codec.le (coord_count dims))
          ring
          (length ring * extra_count dims)
          4
  RoundTrips-ring ring (fits, one, two, closed) = RoundTrips-open_ring ring fits one two

  write_linestrings_ewkb-each :
      (rings : List LineString)
      → write_linestrings_ewkb p dims codec.le rings
        ≡ write_each (write_linestring_ewkb p dims codec.le) rings
  unfolding write_linestrings_ewkb write_each
  write_linestrings_ewkb-each [] = refl
  write_linestrings_ewkb-each (r ∷ rings) =
      ap (λ w. write_linestring_ewkb p dims codec.le r >>> w) (write_linestrings_ewkb-each rings)

  abbrev cost : LineString → ℕ
  cost ring = length ring * extra_count dims

  pub read_rings-suc :
      (n : ℕ)
      → read_rings p codec.le (coord_count dims) (suc n) ≡ (
          read_ring p codec.le (coord_count dims) >>= λ exterior.
          repeat n (read_ring p codec.le (coord_count dims)) >>= λ holes.
          pure (polygon_new p exterior holes))
  unfolding read_rings
  read_rings-suc n =
      let test : (suc n == 0) ≡ false = ground arith in
      let less : suc n - 1 ≡ n = omega arith in rw (test, less)

  RoundTrips-rings :
      (g : Polygon)
      → PolygonFits p dims g
      → RoundTrips
          (write_linestring_ewkb p dims codec.le g.exterior
            >>> write_linestrings_ewkb p dims codec.le g.interiors)
          (read_rings p codec.le (coord_count dims) (suc (length g.interiors)))
          g
          (cost g.exterior + sum_by cost g.interiors)
          (4 + length g.interiors * 4)
  RoundTrips-rings g (he, hi, fits) =
      let dim = coord_count dims in
      let ring = read_ring p codec.le dim in
      let n = length g.interiors in
      let shell = write_linestring_ewkb p dims codec.le g.exterior in
      let holes = write_each (write_linestring_ewkb p dims codec.le) g.interiors in
      let closed : polygon_new p g.exterior g.interiors ≡ g =
        λ i. record { exterior = he.3 i; interiors = map_closed p dims g.interiors hi i } in
      let build = λ (e : LineString) (hs : List LineString). pure (polygon_new p e hs) in
      rw (read_rings-suc n, write_linestrings_ewkb-each g.interiors)
        (RoundTrips-seq shell holes ring (λ e. repeat n ring >>= build e) g.exterior g
          (cost g.exterior) (sum_by cost g.interiors) 4 (n * 4) (RoundTrips-ring g.exterior he)
          (RoundTrips-then holes (repeat n ring) (build g.exterior) g.interiors g
            (sum_by cost g.interiors) (n * 4) (λ cur. ap (λ q. ok (q, cur)) closed)
            (RoundTrips-each (RingFits p dims) (write_linestring_ewkb p dims codec.le) ring cost 4
              g.interiors RoundTrips-ring hi)))

  RoundTrips-no_rings :
      PolygonFits p dims (record { exterior = []; interiors = [] })
      → RoundTrips
          (emit (write_u32 codec.le 0))
          (read_polygon_inner p codec.le (coord_count dims))
          (record { exterior = []; interiors = [] })
          0
          4
  unfolding read_polygon_inner read_rings
  RoundTrips-no_rings (he, hi, fits) =
      let le = codec.le in
      let nothing : Polygon = record { exterior = []; interiors = [] } in
      let rings = read_rings p le (coord_count dims) in
      let m = read_bounded_count p le 4 >>= rings in
      let no_rings : Reads (rings 0) nothing [] [] = λ pos rest extra.
        Reads-pure (polygon_new p [] []) pos rest extra
        ∙ ap
            (λ e. ok (record { exterior = e; interiors = [] }, cursor (pos + 0) rest (extra ++ [])))
            he.3 in
      RoundTrips-emit m nothing (write_u32 le 0) 4 (omega (arith, length-write_u32 le 0)) (
        Reads-bytes m nothing [] (append-nil (write_u32 le 0)) (
          read_bounded_count-Reads p le 4 0 rings nothing [] [] (omega arith)
            (λ total h. omega arith) no_rings))

  is_empty-cases :
      (g : Polygon)
      → (g ≡ record { exterior = []; interiors = [] })
        ⊎ ((is_empty g.exterior && is_empty g.interiors) ≡ false)
  is_empty-cases g = ground arith

  RoundTrips-filled :
      (g : Polygon)
      → (is_empty g.exterior && is_empty g.interiors) ≡ false
      → PolygonFits p dims g
      → RoundTrips
          (write_polygon_ewkb p dims codec.le g)
          (read_polygon_inner p codec.le (coord_count dims))
          g
          (cost g.exterior + sum_by cost g.interiors)
          4
  unfolding write_polygon_ewkb read_polygon_inner
  RoundTrips-filled g ne h =
      let n = length g.interiors in
      let k = cost g.exterior + sum_by cost g.interiors in
      let count : as_u32 (1 + n) ≡ suc n = omega (arith, h.2) in
      let w =
        write_linestring_ewkb p dims codec.le g.exterior
        >>> write_linestrings_ewkb p dims codec.le g.interiors in
      let rings = read_rings p codec.le (coord_count dims) in
      rw (ne, count)
        (RoundTrips-le (emit (write_u32 codec.le (suc n)) >>> w)
          (read_bounded_count p codec.le 4 >>= rings) g k (4 + (4 + n * 4)) 4 (omega arith)
          (RoundTrips-counted p codec 4 (suc n) w rings g k (4 + n * 4) h.2
            (λ total room. omega arith) (RoundTrips-rings g h)))

  -- A polygon is read as it was written, with the extra ordinates of all its rings.
  pub RoundTrips-polygon :
      (g : Polygon)
      → PolygonFits p dims g
      → RoundTrips
          (write_polygon_ewkb p dims codec.le g)
          (read_polygon_inner p codec.le (coord_count dims))
          g
          (count_polygon_coords g * extra_count dims)
          4
  RoundTrips-polygon g h =
      let w = λ (q : Polygon). write_polygon_ewkb p dims codec.le q in
      let m = read_polygon_inner p codec.le (coord_count dims) in
      let nothing : Polygon = record { exterior = []; interiors = [] } in
      let no_cost : 0 ≡ count_polygon_coords nothing * extra_count dims = omega arith in
      let total : cost g.exterior + sum_by cost g.interiors
          ≡ count_polygon_coords g * extra_count dims =
        omega (arith, sum_by-mul length (extra_count dims) g.interiors) in
      elim (is_empty-cases g) [
        | inl e ↦
            subst (λ q. RoundTrips (w q) m q (count_polygon_coords q * extra_count dims) 4) (sym e)
              (subst (λ k. RoundTrips (w nothing) m nothing k 4) no_cost
                (unfold write_polygon_ewkb in RoundTrips-no_rings (subst (PolygonFits p dims) e h)))
        | inr ne ↦ subst (λ k. RoundTrips (w g) m g k 4) total (RoundTrips-filled g ne h)
      ]
