-- ===== src/Wkb/Reader.antt =====
-- io/wkb/read.rs, from one geometry up to the entry points.
use geo_repair.Prelude.{
  ℕ, zero, suc, Bool, List, [], ◌∷◌, Option, none, some, length, ltb, ◌==◌, if◌then◌else◌,
}
use geo_repair.Words.{Bytes}
use geo_repair.Geo.{
  Geometry, Platform, to_geometries, point, line_string, polygon, multi_point, multi_line_string,
  multi_polygon, geometry_collection,
}
use geo_repair.Wkb.Types.{
  Result, ok, err, fault, bind, unexpected_eof, unknown_type_code, trailing_bytes, Dims,
  coord_count, EwkbGeometry, wkb_point, wkb_linestring, wkb_polygon, wkb_multipoint,
  wkb_multilinestring, wkb_multipolygon, wkb_geometrycollection, wkb_srid_bit,
}
use geo_repair.Wkb.Cursor.{Cursor, start, M, pure, fail, lift, ◌>>=◌}
use geo_repair.Wkb.Read.{
  Read, max_wkb_nesting, read_byte_order, read_u32, has_bit, type_header, read_bounded_count,
  repeat, expect_point, expect_linestring, expect_polygon, read_point_inner, read_linestring_inner,
  read_polygon_inner,
}

-- one element of a multi-geometry, read by `sub` and checked for its kind
unfoldable pub read_part {ℓ} : {A : Type ℓ} → M Read → (Geometry → ℕ → M A) → M A
read_part sub expect = sub >>= λ (g, _, _, code). expect g code

module _ (p : Platform) where
  unfoldable pub read_srid : Bool → Bool → M (Option ℕ)
  read_srid has_srid le = if has_srid then (read_u32 p le >>= λ s. pure (some s)) else pure none

  -- the count and the elements of a container
  unfoldable pub read_parts {ℓ} : {A : Type ℓ} → Bool → M A → M (List A)
  read_parts le part = read_bounded_count p le 5 >>= λ n. repeat n part

  -- the `match` on the base type code
  unfoldable pub read_body : M Read → Bool → ℕ → ℕ → M Geometry
  read_body sub le dims code =
      if code == wkb_point
      then (read_point_inner p le dims >>= λ c. pure (point c))
      else if code == wkb_linestring
      then (read_linestring_inner p le dims >>= λ ls. pure (line_string ls))
      else if code == wkb_polygon
      then (read_polygon_inner p le dims >>= λ g. pure (polygon g))
      else if code == wkb_multipoint
      then (read_parts le (read_part sub expect_point) >>= λ ps. pure (multi_point ps))
      else if code == wkb_multilinestring
      then (read_parts le (read_part sub expect_linestring) >>= λ ls. pure (multi_line_string ls))
      else if code == wkb_multipolygon
      then (read_parts le (read_part sub expect_polygon) >>= λ gs. pure (multi_polygon gs))
      else if code == wkb_geometrycollection
      then (read_parts le (read_part sub λ g _. pure g) >>= λ gs.
          pure (geometry_collection (to_geometries gs)))
      else fail (unknown_type_code code)

  -- after the byte order and the raw type field
  unfoldable pub read_typed : M Read → Bool → ℕ → M Read
  read_typed sub le raw = lift (type_header raw) >>= λ (has_z, has_m, code).
      read_srid (has_bit wkb_srid_bit raw) le >>= λ srid.
      let dims : Dims = record { has_z = has_z; has_m = has_m } in
      read_body sub le (coord_count dims) code >>= λ g. pure (g, srid, dims, code)

  unfoldable pub read_geometry_inner : ℕ → M Read
  read_geometry_inner zero c = err unexpected_eof
  read_geometry_inner (suc left) c =
      (read_byte_order >>= λ le.
      read_u32 p le >>= λ raw. read_typed (read_geometry_inner left) le raw)
        c

  -- a read at depth 0
  unfoldable pub read_top : M Read
  read_top = read_geometry_inner (suc max_wkb_nesting)

  unfoldable pub read_wkb : Bytes → Result Geometry
  read_wkb buf = bind (read_top (start buf)) λ ((g, _, _, _), c).
      if c.pos == length buf then ok g else err (trailing_bytes c.pos (length buf))

  -- `source` is what `read_to_end` gave
  unfoldable pub read_wkb_from : Result Bytes → Result Geometry
  read_wkb_from source = bind source read_wkb

  unfoldable pub read_ewkb : Bytes → Result EwkbGeometry
  read_ewkb buf = bind (read_top (start buf)) λ ((g, srid, dims, _), c).
      ok (record { geometry = g; srid = srid; dims = dims; extra_coords = c.extra_coords })

  unfoldable pub estimate_wkb_size : Bytes → Result ℕ
  estimate_wkb_size buf = bind (read_top (start buf)) λ (_, c). ok c.pos

  -- `while offset < buf.len()`, with a fresh vector of extra ordinates in each round. Each round
  -- takes at least five bytes, so the bytes that are left bound the rounds.
  unfoldable pub concat_loop : ℕ → Cursor → Result (List Geometry)
  concat_loop zero c = if ltb 0 (length c.unread) then fault else ok []
  concat_loop (suc fuel) c =
      let rest =
        bind (read_top (record c { extra_coords = [] }))
          (λ ((g, _, _, _), c'). bind (concat_loop fuel c') (λ gs. ok (g ∷ gs))) in
      if ltb 0 (length c.unread) then rest else ok []

  unfoldable pub read_wkb_concat : Bytes → Result (List Geometry)
  read_wkb_concat buf = concat_loop (length buf) (start buf)
