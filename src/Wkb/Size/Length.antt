-- ===== src/Wkb/Size/Length.antt =====
-- The number of bytes that each EWKB writer gives, whatever extra ordinates there are.
use geo_repair.Prelude.{
  ℕ, ◌+◌, ◌*◌, ◌≡◌, refl, ◌∙◌, Bool, true, false, ◌&&◌, List, [], ◌∷◌, Option, none, some, arith,
  length, length-append, Bool-cases, inl, inr, if◌then◌else◌, sum_by,
}
use geo_repair.Words.{length-word_bytes}
use geo_repair.Geo.{Coord, LineString, Polygon, Platform}
use geo_repair.Wkb.Types.{Dims, coord_count}
use geo_repair.Wkb.Write.{write_u32, write_f64, is_empty, as_u32}
use geo_repair.Wkb.WriteEwkb.{
  W, emit, ◌>>>◌, Codec, is_some, is_empty_coord, write_srid, write_header, type_code,
  next_ordinate, next_if, write_coord_ewkb, write_coords_ewkb, write_linestring_ewkb,
  write_linestrings_ewkb, write_polygon_ewkb, write_each, write_container,
}

-- `w` always gives `n` bytes.
abbrev pub Gives : W → ℕ → Type 0
Gives w n = (unused : List ℕ) → length (w unused).0 ≡ n

pub Gives-seq : (w w' : W) (n n' : ℕ) → Gives w n → Gives w' n' → Gives (w >>> w') (n + n')
Gives-seq w w' n n' h h' unused =
    omega (arith, h unused, h' (w unused).1, length-append (w unused).0 (w' (w unused).1).0)

pub length-u32 : (le : Bool) (v : ℕ) → length (write_u32 le v) ≡ 4
unfolding write_u32
length-u32 le v = length-word_bytes le 4 v

length-f64 : (le : Bool) (v : ℕ) → length (write_f64 le v) ≡ 8
unfolding write_f64
length-f64 le v = length-word_bytes le 8 v

length-write_srid :
    (le : Bool) (srid : Option ℕ) → length (write_srid le srid) ≡ (if is_some srid then 4 else 0)
unfolding write_srid
length-write_srid le none = refl
length-write_srid le (some s) = length-u32 le s

pub length-header :
    (base : ℕ) (dims : Dims) (srid : Option ℕ) (codec : Codec)
    → length (write_header base dims srid codec) ≡ 1 + 4 + (if is_some srid then 4 else 0)
unfolding write_header
length-header base dims srid codec =
    let raw = type_code base dims (is_some srid) codec.enc in
    omega (
      arith,
      length-append (write_u32 codec.le raw) (write_srid codec.le srid),
      length-u32 codec.le raw,
      length-write_srid codec.le srid,
    )

pub length-container :
    (base n : ℕ) (dims : Dims) (srid : Option ℕ) (codec : Codec)
    → length (write_container codec dims srid base n) ≡ 1 + 4 + (if is_some srid then 4 else 0) + 4
unfolding write_container
length-container base n dims srid codec = omega (
  arith,
  length-header base dims srid codec,
  length-u32 codec.le (as_u32 n),
  length-append (write_header base dims srid codec) (write_u32 codec.le (as_u32 n)),
)

abbrev pub line_size : Dims → LineString → ℕ
line_size dims ls = 4 + length ls * (coord_count dims * 8)

-- the bytes of a polygon behind its header
abbrev pub rings_size : Dims → Polygon → ℕ
rings_size dims g =
    if is_empty g.exterior && is_empty g.interiors
    then 4
    else 4 + (line_size dims g.exterior + sum_by (line_size dims) g.interiors)

module _ (p : Platform) where
  next_ordinate-Gives : (le empty : Bool) → Gives (next_ordinate p le empty) 8
  unfolding next_ordinate
  next_ordinate-Gives le true unused = length-f64 le p.nan
  next_ordinate-Gives le false [] = length-f64 le p.nan
  next_ordinate-Gives le false (e ∷ rest) = length-f64 le e

  next_if-Gives : (flag le empty : Bool) → Gives (next_if p flag le empty) (if flag then 8 else 0)
  unfolding next_if
  next_if-Gives true le empty = next_ordinate-Gives le empty
  next_if-Gives false le empty = λ unused. refl

  pub coord-Gives :
      (dims : Dims) (le : Bool) (c : Coord)
      → Gives (write_coord_ewkb p dims le c) (coord_count dims * 8)
  unfolding write_coord_ewkb
  coord-Gives dims le c unused =
      let z = next_if p dims.has_z le (is_empty_coord c) in
      let m = next_if p dims.has_m le (is_empty_coord c) in
      let zm = z >>> m in
      let y = emit (write_f64 le c.y) in
      let sizes =
        Gives-seq (emit (write_f64 le c.x)) (y >>> zm) 8
          (8 + ((if dims.has_z then 8 else 0) + (if dims.has_m then 8 else 0)))
          (λ u. length-f64 le c.x)
          (Gives-seq y zm 8 _ (λ u. length-f64 le c.y)
            (Gives-seq z m _ _ (next_if-Gives dims.has_z le (is_empty_coord c))
              (next_if-Gives dims.has_m le (is_empty_coord c))))
          unused in
      sizes ∙ ground arith

  pub coords-Gives :
      (dims : Dims) (le : Bool) (cs : List Coord)
      → Gives (write_coords_ewkb p dims le cs) (length cs * (coord_count dims * 8))
  unfolding write_coords_ewkb
  coords-Gives dims le [] unused = omega arith
  coords-Gives dims le (c ∷ cs) unused =
      Gives-seq (write_coord_ewkb p dims le c) (write_coords_ewkb p dims le cs)
        (coord_count dims * 8) (length cs * (coord_count dims * 8)) (coord-Gives dims le c)
        (coords-Gives dims le cs) unused
      ∙ omega arith

  pub linestring-Gives :
      (dims : Dims) (le : Bool) (ls : LineString)
      → Gives (write_linestring_ewkb p dims le ls) (line_size dims ls)
  unfolding write_linestring_ewkb
  linestring-Gives dims le ls =
      Gives-seq (emit (write_u32 le (as_u32 (length ls)))) (write_coords_ewkb p dims le ls) 4
        (length ls * (coord_count dims * 8)) (λ u. length-u32 le (as_u32 (length ls)))
        (coords-Gives dims le ls)

  pub each-Gives {ℓ} :
      {A : Type ℓ} (f : A → W) (size : A → ℕ) (xs : List A)
      → ((a : A) → Gives (f a) (size a))
      → Gives (write_each f xs) (sum_by size xs)
  unfolding write_each
  each-Gives f size [] h = λ u. refl
  each-Gives f size (x ∷ xs) h =
      Gives-seq (f x) (write_each f xs) (size x) (sum_by size xs) (h x) (each-Gives f size xs h)

  linestrings-Gives :
      (dims : Dims) (le : Bool) (rings : List LineString)
      → Gives (write_linestrings_ewkb p dims le rings) (sum_by (line_size dims) rings)
  unfolding write_linestrings_ewkb
  linestrings-Gives dims le [] = λ u. refl
  linestrings-Gives dims le (r ∷ rings) =
      Gives-seq (write_linestring_ewkb p dims le r) (write_linestrings_ewkb p dims le rings)
        (line_size dims r) (sum_by (line_size dims) rings) (linestring-Gives dims le r)
        (linestrings-Gives dims le rings)

  pub polygon-Gives :
      (dims : Dims) (le : Bool) (g : Polygon)
      → Gives (write_polygon_ewkb p dims le g) (rings_size dims g)
  unfolding write_polygon_ewkb
  polygon-Gives dims le g = elim (Bool-cases (is_empty g.exterior && is_empty g.interiors)) [
    | inl e ↦ rw e (λ u. length-u32 le 0)
    | inr ne ↦ rw ne (
        Gives-seq (emit (write_u32 le (as_u32 (1 + length g.interiors))))
          (write_linestring_ewkb p dims le g.exterior
            >>> write_linestrings_ewkb p dims le g.interiors)
          4 (line_size dims g.exterior + sum_by (line_size dims) g.interiors)
          (λ u. length-u32 le (as_u32 (1 + length g.interiors)))
          (Gives-seq (write_linestring_ewkb p dims le g.exterior)
            (write_linestrings_ewkb p dims le g.interiors) (line_size dims g.exterior)
            (sum_by (line_size dims) g.interiors) (linestring-Gives dims le g.exterior)
            (linestrings-Gives dims le g.interiors)))
  ]
