-- ===== src/Wkb/SoundReader.antt =====
-- The whole reader on any bytes.
use geo_repair.Prelude.{
  ℕ, zero, suc, ◌/◌, ◌%◌, ◌^◌, ◌≤◌, ◌≡◌, refl, ◌⊎◌, Bool, true, false, arith, leb, none, some,
  Bool-cases, inl, inr, if◌then◌else◌, ◌==◌,
}
use geo_repair.Geo.{
  Geometry, Platform, point, line_string, polygon, multi_point, multi_line_string, multi_polygon,
  geometry_collection, to_geometries,
}
use geo_repair.Wkb.Types.{
  WkbError, Result, ok, err, Dims, coord_count, unexpected_eof, unknown_type_code,
  unexpected_geometry_type, wkb_point, wkb_linestring, wkb_polygon, wkb_multipoint,
  wkb_multilinestring, wkb_multipolygon, wkb_geometrycollection, wkb_srid_bit, wkb_z_bit, wkb_m_bit,
}
use geo_repair.Wkb.Cursor.{M, pure, fail, lift, ◌>>=◌}
use geo_repair.Wkb.Read.{
  Read, read_byte_order, read_u32, has_bit, iso_dims, type_header, read_bounded_count, repeat,
  expect_point, expect_linestring, expect_polygon, read_point_inner, read_linestring_inner,
  read_polygon_inner,
}
use geo_repair.Wkb.Reader.{
  read_srid, read_part, read_parts, read_body, read_typed, read_geometry_inner,
}
use geo_repair.Wkb.Sound.{
  refuses, Sound, Sound-pure, Sound-fail, Sound-le, Sound-bind, Sound-lift, Sound-repeat,
  read_byte_order-Sound, read_u32-Sound, read_bounded_count-Sound,
}
use geo_repair.Wkb.SoundCoords.{
  read_point_inner-Sound, read_linestring_inner-Sound, read_polygon_inner-Sound,
}

-- a result that is no fault
abbrev Settles {ℓ} : {A : Type ℓ} → Result A → Type ℓ
Settles {A} r = ((a : A) × (r ≡ ok a)) ⊎ ((e : WkbError) × (r ≡ err e))

iso_dims-Settles : (z m : Bool) (code : ℕ) → Settles (iso_dims z m code)
unfolding iso_dims
iso_dims-Settles z m code = elim (Bool-cases (code / 1000 == 1)) [
  | inl one ↦ rw one (inl (_, refl))
  | inr not_one ↦ elim (Bool-cases (code / 1000 == 2)) [
    | inl two ↦ rw (not_one, two) (inl (_, refl))
    | inr not_two ↦ elim (Bool-cases (code / 1000 == 3)) [
      | inl three ↦ rw (not_one, not_two, three) (inl (_, refl))
      | inr not_three ↦ rw (not_one, not_two, not_three) (inr (_, refl))
    ]
  ]
]

type_header-Settles : (raw : ℕ) → Settles (type_header raw)
unfolding type_header
type_header-Settles raw = elim (Bool-cases (leb 1000 (raw % 2 ^ wkb_srid_bit))) [
  | inl iso ↦
      rw iso
        (iso_dims-Settles (has_bit wkb_z_bit raw) (has_bit wkb_m_bit raw) (raw % 2 ^ wkb_srid_bit))
  | inr plain ↦ rw plain (inl (_, refl))
]

expect_point-Sound : (g : Geometry) (code : ℕ) → Sound 0 (expect_point g code)
unfolding expect_point
expect_point-Sound (point c) code = Sound-pure c
expect_point-Sound _ code = Sound-fail (unexpected_geometry_type "Point" (code % 256))

expect_linestring-Sound : (g : Geometry) (code : ℕ) → Sound 0 (expect_linestring g code)
unfolding expect_linestring
expect_linestring-Sound (line_string ls) code = Sound-pure ls
expect_linestring-Sound _ code = Sound-fail (unexpected_geometry_type "LineString" (code % 256))

expect_polygon-Sound : (g : Geometry) (code : ℕ) → Sound 0 (expect_polygon g code)
unfolding expect_polygon
expect_polygon-Sound (polygon q) code = Sound-pure q
expect_polygon-Sound _ code = Sound-fail (unexpected_geometry_type "Polygon" (code % 256))

-- a reader whose value is wrapped
Sound-map {ℓ κ} :
    {A : Type ℓ} {B : Type κ} (m : M A) (f : A → B) → Sound 0 m → Sound 0 (m >>= λ a. pure (f a))
Sound-map m f s = Sound-bind m (λ a. pure (f a)) 0 0 s (λ a. Sound-pure (f a))

module _ (p : Platform) where
  read_srid-Sound : (has le : Bool) → Sound 0 (read_srid p has le)
  unfolding read_srid
  read_srid-Sound true le =
      Sound-map (read_u32 p le) some
        (Sound-le (read_u32 p le) 4 0 (omega arith) (read_u32-Sound p le))
  read_srid-Sound false le = Sound-pure none

  read_parts-Sound {ℓ} :
      {A : Type ℓ} (le : Bool) (part : M A) → Sound 0 part → Sound 0 (read_parts p le part)
  unfolding read_parts
  read_parts-Sound le part s =
      Sound-bind (read_bounded_count p le 5) (λ n. repeat n part) 0 0
        (Sound-le (read_bounded_count p le 5) 4 0 (omega arith) (read_bounded_count-Sound p le 5))
        (λ n. Sound-repeat part n s)

  read_part-Sound {ℓ} :
      {A : Type ℓ} (sub : M Read) (expect : Geometry → ℕ → M A)
      → Sound 0 sub
      → ((g : Geometry) (code : ℕ) → Sound 0 (expect g code))
      → Sound 0 (read_part sub expect)
  unfolding read_part
  read_part-Sound sub expect s h =
      Sound-bind sub (λ ((g, _, _, code) : Read). expect g code) 0 0 s (λ r. h r.0 r.3)

  -- one alternative of the match on the type code
  choose : (b : Bool) (m n : M Geometry) → Sound 0 m → Sound 0 n → Sound 0 (if b then m else n)
  choose true m n s t = s
  choose false m n s t = t

  -- the alternatives of the containers
  containers : M Read → Bool → ℕ → M Geometry
  containers sub le code =
      if code == wkb_multipoint
      then (read_parts p le (read_part sub expect_point) >>= λ ps. pure (multi_point ps))
      else if code == wkb_multilinestring
      then (read_parts p le (read_part sub expect_linestring) >>= λ ls. pure (multi_line_string ls))
      else if code == wkb_multipolygon
      then (read_parts p le (read_part sub expect_polygon) >>= λ gs. pure (multi_polygon gs))
      else if code == wkb_geometrycollection
      then (read_parts p le (read_part sub λ g _. pure g) >>= λ gs.
          pure (geometry_collection (to_geometries gs)))
      else fail (unknown_type_code code)

  containers-Sound :
      (sub : M Read) (le : Bool) (code : ℕ) → Sound 0 sub → Sound 0 (containers sub le code)
  unfolding containers
  containers-Sound sub le code s =
      choose (code == wkb_multipoint) _ _
        (Sound-map (read_parts p le (read_part sub expect_point)) multi_point (
          read_parts-Sound le (read_part sub expect_point)
            (read_part-Sound sub expect_point s expect_point-Sound)))
        (choose (code == wkb_multilinestring) _ _
          (Sound-map (read_parts p le (read_part sub expect_linestring)) multi_line_string (
            read_parts-Sound le (read_part sub expect_linestring)
              (read_part-Sound sub expect_linestring s expect_linestring-Sound)))
          (choose (code == wkb_multipolygon) _ _
            (Sound-map (read_parts p le (read_part sub expect_polygon)) multi_polygon (
              read_parts-Sound le (read_part sub expect_polygon)
                (read_part-Sound sub expect_polygon s expect_polygon-Sound)))
            (choose (code == wkb_geometrycollection) _ _
              (Sound-map (read_parts p le (read_part sub λ g _. pure g))
                (λ gs. geometry_collection (to_geometries gs))
                (read_parts-Sound le (read_part sub λ g _. pure g)
                  (read_part-Sound sub (λ g _. pure g) s (λ g _. Sound-pure g))))
              (Sound-fail (unknown_type_code code)))))

  read_body-Sound :
      (sub : M Read) (le : Bool) (dims code : ℕ)
      → 2 ≤ dims
      → Sound 0 sub
      → Sound 0 (read_body p sub le dims code)
  unfolding read_body containers
  read_body-Sound sub le dims code h s =
      choose (code == wkb_point) _ _
        (Sound-map (read_point_inner p le dims) point (read_point_inner-Sound p le dims h))
        (choose (code == wkb_linestring) _ _
          (Sound-map (read_linestring_inner p le dims) line_string (
            Sound-le (read_linestring_inner p le dims) 4 0 (omega arith)
              (read_linestring_inner-Sound p le dims h)))
          (choose (code == wkb_polygon) _ _
            (Sound-map (read_polygon_inner p le dims) polygon (
              Sound-le (read_polygon_inner p le dims) 4 0 (omega arith)
                (read_polygon_inner-Sound p le dims h)))
            (containers-Sound sub le code s)))

  read_typed-Sound :
      (sub : M Read) (le : Bool) (raw : ℕ) → Sound 0 sub → Sound 0 (read_typed p sub le raw)
  unfolding read_typed
  read_typed-Sound sub le raw s =
      Sound-bind (lift (type_header raw)) _ 0 0
        (Sound-lift (type_header raw) (type_header-Settles raw))
        (λ ((z, m, code) : Bool × Bool × ℕ).
          let dims : Dims = record { has_z = z; has_m = m } in
          Sound-bind (read_srid p (has_bit wkb_srid_bit raw) le)
            (λ srid. read_body p sub le (coord_count dims) code >>= λ g. pure (g, srid, dims, code))
            0 0 (read_srid-Sound (has_bit wkb_srid_bit raw) le)
            (λ srid.
              Sound-map (read_body p sub le (coord_count dims) code) (λ g. (g, srid, dims, code))
                (read_body-Sound sub le (coord_count dims) code (omega arith) s)))

  -- On any bytes, from anywhere in a buffer, a read refuses its input or takes at least five bytes.
  pub read_geometry_inner-Sound : (left : ℕ) → Sound 5 (read_geometry_inner p left)
  unfolding read_geometry_inner
  read_geometry_inner-Sound zero = λ unread. refuses unexpected_eof (λ pos extra. refl)
  read_geometry_inner-Sound (suc left) =
      let sub = read_geometry_inner p left in
      Sound-bind read_byte_order (λ le. read_u32 p le >>= read_typed p sub le) 1 4
        read_byte_order-Sound
        (λ le. Sound-bind (read_u32 p le) (read_typed p sub le) 4 0 (read_u32-Sound p le) (λ raw.
          read_typed-Sound sub le raw
            (Sound-le sub 5 0 (omega arith) (read_geometry_inner-Sound left))))
