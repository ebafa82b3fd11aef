-- ===== src/Wkb/Read.antt =====
-- io/wkb/read.rs. The nesting bound is the recursion's own: `read_geometry_inner` is given the
-- number of levels left, MAX_WKB_NESTING + 1 - depth, and none left is `depth > MAX_WKB_NESTING`.
-- Sizes are `usize` of 64 bits, where n * stride and the positions do not wrap.
use geo_repair.Prelude.{
  ℕ, zero, suc, ◌+◌, ◌-◌, ◌*◌, ◌/◌, ◌%◌, ◌^◌, max, Bool, true, false, ◌&&◌, ◌||◌, List, [], ◌∷◌,
  ◌++◌, Option, length, drop, ltb, leb, ◌==◌, same, if◌then◌else◌,
}
use geo_repair.Words.{Bytes, word_value, to_order}
use geo_repair.Geo.{
  Coord, LineString, Polygon, Geometry, Platform, polygon_new, point, line_string, polygon,
}
use geo_repair.Wkb.Types.{
  Result, ok, err, fault, bind, unexpected_eof, invalid_byte_order, unexpected_geometry_type,
  invalid_ring, Dims, wkb_z_bit, wkb_m_bit, wkb_srid_bit,
}
use geo_repair.Wkb.Cursor.{buf_len, advance, M, pure, fail, ◌>>=◌, peek}

abbrev pub max_wkb_nesting : ℕ
max_wkb_nesting = 256

unfoldable pub byte_order : Bytes → M Bool
byte_order [] c = err unexpected_eof
byte_order (b ∷ _) c =
    if b == 0
    then ok (false, advance 1 c)
    else if b == 1
    then ok (true, advance 1 c)
    else err (invalid_byte_order b)

unfoldable pub read_byte_order : M Bool
unfolding byte_order
read_byte_order c = byte_order c.unread c

-- `v & (1 << k) != 0`
abbrev pub has_bit : ℕ → ℕ → Bool
has_bit k v = v / 2 ^ k % 2 == 1

-- The flags Z and M and the base type code that a raw type field states, in either form.
unfoldable pub iso_dims : Bool → Bool → ℕ → Result (Bool × Bool × ℕ)
iso_dims has_z has_m code =
    if code / 1000 == 1
    then ok (true, has_m, code % 1000)
    else if code / 1000 == 2
    then ok (has_z, true, code % 1000)
    else if code / 1000 == 3
    then ok (true, true, code % 1000)
    else err (unexpected_geometry_type "OGC geometry type" code)

unfoldable pub type_header : ℕ → Result (Bool × Bool × ℕ)
type_header raw =
    let has_z = has_bit wkb_z_bit raw in
    let has_m = has_bit wkb_m_bit raw in
    let code = raw % 2 ^ wkb_srid_bit in
    if leb 1000 code then iso_dims has_z has_m code else ok (has_z, has_m, code)

-- `for _ in 0..n` with a push in each round
unfoldable pub repeat {ℓ} : {A : Type ℓ} → ℕ → M A → M (List A)
repeat zero p = pure []
repeat (suc n) p = p >>= λ a. repeat n p >>= λ as'. pure (a ∷ as')

-- What a nested read gives: the geometry, its SRID and dimensions, and its base type code.
abbrev pub Read : Type 0
Read = Geometry × Option ℕ × Dims × ℕ

unfoldable pub expect_point : Geometry → ℕ → M Coord
expect_point (point c) code = pure c
expect_point _ code = fail (unexpected_geometry_type "Point" (code % 256))

unfoldable pub expect_linestring : Geometry → ℕ → M LineString
expect_linestring (line_string ls) code = pure ls
expect_linestring _ code = fail (unexpected_geometry_type "LineString" (code % 256))

unfoldable pub expect_polygon : Geometry → ℕ → M Polygon
expect_polygon (polygon p) code = pure p
expect_polygon _ code = fail (unexpected_geometry_type "Polygon" (code % 256))

-- `batch.swap_remove(0)` of a batch of one
unfoldable pub swap_remove_first : List Coord → M Coord
swap_remove_first [] c = fault
swap_remove_first (a ∷ _) c = ok (a, c)

unfoldable pub check_ring : LineString → M LineString
check_ring ring =
    let n = length ring in if n == 1 || n == 2 then fail (invalid_ring n) else pure ring

module _ (p : Platform) where
  unfoldable pub read_u32 : Bool → M ℕ
  read_u32 le c =
      if ltb (buf_len c) (c.pos + 4)
      then err unexpected_eof
      else bind (peek 0 4 c.unread)
          λ bytes. ok (to_order p.target_le le 4 (word_value p.target_le bytes), advance 4 c)

  unfoldable pub check_count : ℕ → ℕ → M ℕ
  check_count min_bytes n c =
      if ltb ((buf_len c - c.pos) / max min_bytes 1) n then err unexpected_eof else ok (n, c)

  unfoldable pub read_bounded_count : Bool → ℕ → M ℕ
  read_bounded_count le min_bytes = read_u32 le >>= check_count min_bytes

  -- an f64 at offset `k`, swapped where the data's order is not the target's
  unfoldable pub f64_at : Bool → ℕ → Bytes → Result ℕ
  f64_at le k bytes =
      bind (peek k 8 bytes) λ b. ok (to_order p.target_le le 8 (word_value p.target_le b))

  -- the copy of `n` coordinates as they lie in memory
  unfoldable pub bulk_coords : ℕ → Bytes → Result (List Coord)
  bulk_coords zero bytes = ok []
  bulk_coords (suc n) bytes = bind (peek 0 8 bytes) λ bx. bind (peek 8 8 bytes) λ by'.
      bind (bulk_coords n (drop 16 bytes))
        λ cs. ok (record { x = word_value p.target_le bx; y = word_value p.target_le by' } ∷ cs)

  -- the measure, after the z that was read
  unfoldable pub push_m : Bool → ℕ → Bytes → List ℕ → ℕ → Result (List ℕ)
  push_m le dims bytes extra z =
      if ltb 3 dims
      then bind (f64_at le 24 bytes) (λ m. ok (extra ++ z ∷ m ∷ []))
      else ok (extra ++ z ∷ [])

  unfoldable pub push_extra : Bool → ℕ → Bytes → List ℕ → Result (List ℕ)
  push_extra le dims bytes extra =
      if ltb 2 dims then bind (f64_at le 16 bytes) (push_m le dims bytes extra) else ok extra

  unfoldable pub coord_loop : Bool → ℕ → ℕ → Bytes → List ℕ → Result (List Coord × List ℕ)
  coord_loop le dims zero bytes extra = ok ([], extra)
  coord_loop le dims (suc n) bytes extra = bind (f64_at le 0 bytes) λ cx.
      bind (f64_at le 8 bytes) λ cy. bind (push_extra le dims bytes extra) λ extra'.
        bind (coord_loop le dims n (drop (dims * 8) bytes) extra')
          λ (cs, out). ok (record { x = cx; y = cy } ∷ cs, out)

  -- the two ways to decode a batch whose bytes are there: one copy, or a loop
  unfoldable pub decode_batch : ℕ → Bool → ℕ → M (List Coord)
  decode_batch n le dims c =
      if same le p.target_le && dims == 2
      then bind (bulk_coords n c.unread) (λ cs. ok (cs, advance (n * (dims * 8)) c))
      else bind (coord_loop le dims n c.unread c.extra_coords)
          (λ (cs, extra). ok (cs, record (advance (n * (dims * 8)) c) { extra_coords = extra }))

  unfoldable pub read_coords_batch : ℕ → Bool → ℕ → M (List Coord)
  read_coords_batch n le dims c =
      if ltb (buf_len c) (c.pos + n * (dims * 8))
      then err unexpected_eof
      else decode_batch n le dims c

  unfoldable pub read_point_inner : Bool → ℕ → M Coord
  read_point_inner le dims = read_coords_batch 1 le dims >>= swap_remove_first

  unfoldable pub read_linestring_inner : Bool → ℕ → M LineString
  read_linestring_inner le dims = read_u32 le >>= λ n. read_coords_batch n le dims

  unfoldable pub read_ring : Bool → ℕ → M LineString
  read_ring le dims = read_linestring_inner le dims >>= check_ring

  unfoldable pub read_rings : Bool → ℕ → ℕ → M Polygon
  read_rings le dims n =
      if n == 0
      then pure (polygon_new p [] [])
      else (read_ring le dims >>= λ exterior.
          repeat (n - 1) (read_ring le dims) >>= λ holes. pure (polygon_new p exterior holes))

  unfoldable pub read_polygon_inner : Bool → ℕ → M Polygon
  read_polygon_inner le dims = read_bounded_count le 4 >>= read_rings le dims
