-- ===== src/Wkb/Plain.antt =====
-- The parts of the plain writer of io/wkb/write.rs against those of the EWKB writer.
use native.Mathlib.Nat.{add-zero}
use geo_repair.Prelude.{
  ℕ, ◌+◌, ◌≡◌, refl, ap, ◌∙◌, Bool, true, false, ◌&&◌, List, [], ◌∷◌, ◌++◌, none, append-nil,
  append_assoc, length, Bool-cases, inl, inr, if◌then◌else◌,
}
use geo_repair.Words.{Bytes}
use geo_repair.Geo.{Coord, LineString, Polygon, Platform}
use geo_repair.Wkb.Types.{xy, wkb_point, wkb_linestring, wkb_polygon}
use geo_repair.Wkb.Write.{
  as_u32, is_empty, order_byte, write_u32, write_f64, write_coord, write_coords,
  write_coords_le_bulk, write_point, write_linestring, write_linestrings, write_polygon,
  write_point_parts, write_linestring_parts, write_polygon_parts,
}
use geo_repair.Wkb.WriteEwkb.{
  W, emit, ◌>>>◌, Encoding, iso, ewkb, Codec, type_code, write_srid, write_header, write_container,
  write_each, next_if, write_coord_ewkb, write_coords_ewkb, write_linestring_ewkb,
  write_linestrings_ewkb, write_polygon_ewkb, write_point_geometry, write_linestring_geometry,
  write_polygon_geometry,
}

-- `w` gives these bytes and takes no ordinate.
abbrev pub Plain : W → Bytes → Type 0
Plain w b = (u : List ℕ) → w u ≡ (b, u)

pub Plain-seq : (w w' : W) (b b' : Bytes) → Plain w b → Plain w' b' → Plain (w >>> w') (b ++ b')
Plain-seq w w' b b' h h' u = rw (h u, h' u)

plain_code : (base : ℕ) (enc : Encoding) → type_code base xy false enc ≡ base
unfolding type_code
plain_code base iso = add-zero base
plain_code base ewkb = refl

plain_header :
    (base : ℕ) (codec : Codec)
    → write_header base xy none codec ≡ order_byte codec.le ++ write_u32 codec.le base
unfolding write_header write_srid
plain_header base codec = rw (plain_code base codec.enc) (rw append-nil)

plain_container :
    (base n : ℕ) (codec : Codec)
    → write_container codec xy none base n
      ≡ order_byte codec.le ++ (write_u32 codec.le base ++ write_u32 codec.le (as_u32 n))
unfolding write_container
plain_container base n codec =
    let count = write_u32 codec.le (as_u32 n) in
    ap (λ h. h ++ count) (plain_header base codec)
    ∙ append_assoc (order_byte codec.le) (write_u32 codec.le base) count

module _ (p : Platform) (little : p.target_le ≡ true) (codec : Codec) where
  abbrev pub le : Bool
  le = codec.le

  bulk-write_coords : (cs : List Coord) → write_coords_le_bulk p cs ≡ write_coords true cs
  unfolding write_coords_le_bulk write_coords write_coord write_f64
  bulk-write_coords [] = refl
  bulk-write_coords (c ∷ cs) = rw (little, bulk-write_coords cs) (rw append_assoc)

  either_coords :
      (l : Bool) (cs : List Coord)
      → (if l then write_coords_le_bulk p cs else write_coords l cs) ≡ write_coords l cs
  either_coords true cs = bulk-write_coords cs
  either_coords false cs = refl

  pub coord-Plain : (c : Coord) → Plain (write_coord_ewkb p xy le c) (write_coord le c)
  unfolding write_coord_ewkb next_if write_coord
  coord-Plain c u = rw append-nil

  pub coords-Plain : (cs : List Coord) → Plain (write_coords_ewkb p xy le cs) (write_coords le cs)
  unfolding write_coords_ewkb write_coords
  coords-Plain [] = λ u. refl
  coords-Plain (c ∷ cs) =
      Plain-seq (write_coord_ewkb p xy le c) (write_coords_ewkb p xy le cs) (write_coord le c)
        (write_coords le cs) (coord-Plain c) (coords-Plain cs)

  pub point-eq : (l : Bool) (c : Coord) → write_point p l c ≡ write_coord l c
  unfolding write_point
  point-eq true c =
      bulk-write_coords (c ∷ []) ∙ unfold write_coords in append-nil (write_coord true c)
  point-eq false c = refl

  pub linestring-Plain :
      (ls : LineString) → Plain (write_linestring_ewkb p xy le ls) (write_linestring p le ls)
  unfolding write_linestring_ewkb write_linestring
  linestring-Plain ls = rw (either_coords le ls) (
      Plain-seq (emit (write_u32 le (as_u32 (length ls)))) (write_coords_ewkb p xy le ls)
        (write_u32 le (as_u32 (length ls))) (write_coords le ls) (λ u. refl) (coords-Plain ls))

  linestrings-Plain :
      (rings : List LineString)
      → Plain (write_linestrings_ewkb p xy le rings) (write_linestrings p le rings)
  unfolding write_linestrings_ewkb write_linestrings
  linestrings-Plain [] = λ u. refl
  linestrings-Plain (r ∷ rings) =
      Plain-seq (write_linestring_ewkb p xy le r) (write_linestrings_ewkb p xy le rings)
        (write_linestring p le r) (write_linestrings p le rings) (linestring-Plain r)
        (linestrings-Plain rings)

  pub polygon-Plain : (g : Polygon) → Plain (write_polygon_ewkb p xy le g) (write_polygon p le g)
  unfolding write_polygon_ewkb write_polygon
  polygon-Plain g = elim (Bool-cases (is_empty g.exterior && is_empty g.interiors)) [
    | inl e ↦ rw e (λ u. refl)
    | inr ne ↦
        let n = write_u32 le (as_u32 (1 + length g.interiors)) in
        rw ne (
          Plain-seq (emit n)
            (write_linestring_ewkb p xy le g.exterior
              >>> write_linestrings_ewkb p xy le g.interiors)
            n (write_linestring p le g.exterior ++ write_linestrings p le g.interiors) (λ u. refl)
            (Plain-seq (write_linestring_ewkb p xy le g.exterior)
              (write_linestrings_ewkb p xy le g.interiors) (write_linestring p le g.exterior)
              (write_linestrings p le g.interiors) (linestring-Plain g.exterior)
              (linestrings-Plain g.interiors)))
  ]

  -- a geometry behind its plain header
  pub headed-Plain :
      (base : ℕ) (w : W) (b : Bytes)
      → Plain w b
      → Plain
          (emit (write_header base xy none codec) >>> w)
          (order_byte le ++ (write_u32 le base ++ b))
  headed-Plain base w b h u = rw (plain_header base codec) (rw (h u))

  pub counted-Plain :
      (base n : ℕ) (w : W) (b : Bytes)
      → Plain w b
      → Plain
          (emit (write_container codec xy none base n) >>> w)
          (order_byte le ++ (write_u32 le base ++ (write_u32 le (as_u32 n) ++ b)))
  counted-Plain base n w b h u = rw (plain_container base n codec) (rw (h u) (simp append_assoc))

  pub ring-Plain :
      (n : ℕ) (ring : List Coord)
      → Plain
          (emit (write_container codec xy none wkb_polygon 1 ++ write_u32 le n)
            >>> write_coords_ewkb p xy le ring)
          (order_byte le
            ++ (write_u32 le wkb_polygon
                ++ (write_u32 le 1 ++ (write_u32 le n ++ write_coords le ring))))
  ring-Plain n ring u =
      rw (plain_container wkb_polygon 1 codec) (rw (coords-Plain ring u) (simp append_assoc))

  pub point_parts-Plain :
      (cs : List Coord)
      → Plain (write_each (write_point_geometry p codec xy none) cs) (write_point_parts p le cs)
  unfolding write_each write_point_geometry write_point_parts
  point_parts-Plain [] = λ u. refl
  point_parts-Plain (c ∷ cs) = λ u.
      Plain-seq (emit (write_header wkb_point xy none codec) >>> write_coord_ewkb p xy le c)
        (write_each (write_point_geometry p codec xy none) cs)
        (order_byte le ++ (write_u32 le wkb_point ++ write_coord le c)) (write_point_parts p le cs)
        (headed-Plain wkb_point (write_coord_ewkb p xy le c) (write_coord le c) (coord-Plain c))
        (point_parts-Plain cs) u
      ∙ rw (point-eq le c) (simp append_assoc)

  pub linestring_parts-Plain :
      (lss : List LineString)
      → Plain
          (write_each (write_linestring_geometry p codec xy none) lss)
          (write_linestring_parts p le lss)
  unfolding write_each write_linestring_geometry write_linestring_parts
  linestring_parts-Plain [] = λ u. refl
  linestring_parts-Plain (ls ∷ lss) = λ u.
      Plain-seq
        (emit (write_header wkb_linestring xy none codec) >>> write_linestring_ewkb p xy le ls)
        (write_each (write_linestring_geometry p codec xy none) lss)
        (order_byte le ++ (write_u32 le wkb_linestring ++ write_linestring p le ls))
        (write_linestring_parts p le lss)
        (headed-Plain wkb_linestring (write_linestring_ewkb p xy le ls) (write_linestring p le ls)
          (linestring-Plain ls))
        (linestring_parts-Plain lss) u
      ∙ simp append_assoc

  pub polygon_parts-Plain :
      (gs : List Polygon)
      → Plain (write_each (write_polygon_geometry p codec xy none) gs) (write_polygon_parts p le gs)
  unfolding write_each write_polygon_geometry write_polygon_parts
  polygon_parts-Plain [] = λ u. refl
  polygon_parts-Plain (g ∷ gs) = λ u.
      Plain-seq (emit (write_header wkb_polygon xy none codec) >>> write_polygon_ewkb p xy le g)
        (write_each (write_polygon_geometry p codec xy none) gs)
        (order_byte le ++ (write_u32 le wkb_polygon ++ write_polygon p le g))
        (write_polygon_parts p le gs)
        (headed-Plain wkb_polygon (write_polygon_ewkb p xy le g) (write_polygon p le g)
          (polygon-Plain g))
        (polygon_parts-Plain gs) u
      ∙ simp append_assoc
