-- ===== src/Wkb/Header.antt =====
-- The header that the writer puts before each geometry, and what the reader makes of it.
use geo_repair.Prelude.{
  ℕ, suc, ◌+◌, ◌^◌, ◌<◌, ◌≡◌, refl, ap, sym, Bool, true, false, List, [], ◌++◌, Option, none, some,
  append_assoc, arith, if◌then◌else◌,
}
use geo_repair.Words.{Bytes, u32_mod}
use geo_repair.Geo.{Geometry, Platform}
use geo_repair.Wkb.Types.{ok, Dims, coord_count, wkb_z_bit, wkb_m_bit, wkb_srid_bit}
use geo_repair.Wkb.Cursor.{M, pure, ◌>>=◌}
use geo_repair.Wkb.Read.{Read, read_byte_order, read_u32, has_bit, iso_dims, type_header}
use geo_repair.Wkb.Reader.{read_srid, read_body, read_typed, read_geometry_inner}
use geo_repair.Wkb.Write.{order_byte, write_u32}
use geo_repair.Wkb.WriteEwkb.{
  Encoding, iso, ewkb, Codec, type_code, iso_dim, is_some, write_srid, write_header,
}
use geo_repair.Wkb.Reads.{
  Reads, Reads-bind, Reads-then, Reads-pure, Reads-bytes, read_byte_order-Reads, read_u32-Reads,
}

-- The SRID fits its field, and only EWKB has one.
abbrev pub SridFits : Encoding → Option ℕ → Type 0
SridFits enc none = Unit
SridFits iso (some s) = ⊥
SridFits ewkb (some s) = s < u32_mod

SridFits-lt : (enc : Encoding) (s : ℕ) → SridFits enc (some s) → s < u32_mod
SridFits-lt iso s h = absurd h
SridFits-lt ewkb s h = h

-- what the flags add to the base type code
abbrev flag : Bool → ℕ → ℕ
flag b k = if b then 2 ^ k else 0

abbrev flags : Bool → Bool → Bool → Encoding → ℕ
flags z m s iso = iso_dim z m
flags z m s ewkb = flag z wkb_z_bit + flag m wkb_m_bit + flag s wkb_srid_bit

module _ (base : ℕ) (small : base < 1000) where
  type_code-flags :
      (dims : Dims) (s : Bool) (enc : Encoding)
      → type_code base dims s enc ≡ base + flags dims.has_z dims.has_m s enc
  unfolding type_code
  type_code-flags dims s iso = refl
  type_code-flags dims s ewkb = ground arith

  type_header-flags :
      (z m s : Bool) (enc : Encoding) → type_header (base + flags z m s enc) ≡ ok (z, m, base)
  unfolding type_header iso_dims
  type_header-flags true true s iso = ground arith
  type_header-flags true false s iso = ground arith
  type_header-flags false true s iso = ground arith
  type_header-flags false false s iso = ground arith
  type_header-flags true true true ewkb = ground arith
  type_header-flags true false true ewkb = ground arith
  type_header-flags false true true ewkb = ground arith
  type_header-flags false false true ewkb = ground arith
  type_header-flags true true false ewkb = ground arith
  type_header-flags true false false ewkb = ground arith
  type_header-flags false true false ewkb = ground arith
  type_header-flags false false false ewkb = ground arith

  -- For each base code below 1000, the reader takes the dimensions and the base code out of the type
  -- field that the writer composed of them, in the ISO and the EWKB form, with an SRID or without.
  pub type_header-type_code :
      (dims : Dims) (s : Bool) (enc : Encoding)
      → type_header (type_code base dims s enc) ≡ ok (dims.has_z, dims.has_m, base)
  type_header-type_code dims s enc =
      rw (type_code-flags dims s enc) (type_header-flags dims.has_z dims.has_m s enc)

  has_bit-flags :
      (z m : Bool) (srid : Option ℕ) (enc : Encoding)
      → SridFits enc srid
      → has_bit wkb_srid_bit (base + flags z m (is_some srid) enc) ≡ is_some srid
  has_bit-flags z m (some s) iso h = absurd h
  has_bit-flags true true none iso h = ground arith
  has_bit-flags true false none iso h = ground arith
  has_bit-flags false true none iso h = ground arith
  has_bit-flags false false none iso h = ground arith
  has_bit-flags z m none ewkb h = ground arith
  has_bit-flags z m (some s) ewkb h = ground arith

  pub has_bit-type_code :
      (dims : Dims) (srid : Option ℕ) (enc : Encoding)
      → SridFits enc srid
      → has_bit wkb_srid_bit (type_code base dims (is_some srid) enc) ≡ is_some srid
  has_bit-type_code dims srid enc h =
      rw (type_code-flags dims (is_some srid) enc) (has_bit-flags dims.has_z dims.has_m srid enc h)

  flags-lt : (z m s : Bool) (enc : Encoding) → base + flags z m s enc < u32_mod
  flags-lt true true s iso = omega arith
  flags-lt true false s iso = omega arith
  flags-lt false true s iso = omega arith
  flags-lt false false s iso = omega arith
  flags-lt z m s ewkb = ground arith

  pub type_code-lt : (dims : Dims) (s : Bool) (enc : Encoding) → type_code base dims s enc < u32_mod
  type_code-lt dims s enc = rw (type_code-flags dims s enc) (flags-lt dims.has_z dims.has_m s enc)

module _ (p : Platform) (codec : Codec) where
  read_srid-Reads :
      (srid : Option ℕ)
      → SridFits codec.enc srid
      → Reads (read_srid p (is_some srid) codec.le) srid (write_srid codec.le srid) []
  unfolding read_srid write_srid
  read_srid-Reads none h = Reads-pure none
  read_srid-Reads (some s) h =
      Reads-then (read_u32 p codec.le) (λ s'. pure (some s')) s (some s) (write_u32 codec.le s) []
        (read_u32-Reads p codec.le s (SridFits-lt codec.enc s h)) (λ cur. refl)

  read_typed-eq :
      (sub : M Read) (raw code : ℕ) (srid : Option ℕ) (dims : Dims)
      → type_header raw ≡ ok (dims.has_z, dims.has_m, code)
      → has_bit wkb_srid_bit raw ≡ is_some srid
      → read_typed p sub codec.le raw ≡ (
          read_srid p (is_some srid) codec.le >>= λ s.
          read_body p sub codec.le (coord_count dims) code >>= λ g. pure (g, s, dims, code))
  unfolding read_typed
  read_typed-eq sub raw code srid dims h e = rw (h, e)

  -- A header and a body behind it, read as one geometry.
  pub read_geometry_inner-Reads :
      (left base : ℕ) (dims : Dims) (srid : Option ℕ) (g : Geometry) (b : Bytes) (es : List ℕ)
      → base < 1000
      → SridFits codec.enc srid
      → Reads (read_body p (read_geometry_inner p left) codec.le (coord_count dims) base) g b es
      → Reads
          (read_geometry_inner p (suc left))
          (g, srid, dims, base)
          (write_header base dims srid codec ++ b)
          es
  unfolding write_header read_geometry_inner
  read_geometry_inner-Reads left base dims srid g b es small h body =
      let le = codec.le in
      let raw = type_code base dims (is_some srid) codec.enc in
      let sub = read_geometry_inner p left in
      let fields =
        Reads-bind (read_srid p (is_some srid) le)
          (λ s. read_body p sub le (coord_count dims) base >>= λ g'. pure (g', s, dims, base)) srid
          (g, srid, dims, base) (write_srid le srid) b [] es (read_srid-Reads srid h)
          (Reads-then (read_body p sub le (coord_count dims) base)
            (λ g'. pure (g', srid, dims, base)) g (g, srid, dims, base) b es body (λ cur. refl)) in
      let typed : Reads (read_typed p sub le raw) (g, srid, dims, base) (write_srid le srid ++ b)
          es =
        rw
          (read_typed-eq sub raw base srid dims
            (type_header-type_code base small dims (is_some srid) codec.enc)
            (has_bit-type_code base small dims srid codec.enc h))
          fields in
      Reads-bytes (read_geometry_inner p (suc left)) (g, srid, dims, base) es
        (ap (λ t. order_byte le ++ t)
          (sym (append_assoc (write_u32 le raw) (write_srid le srid) b)))
        (Reads-bind read_byte_order (λ le'. read_u32 p le' >>= read_typed p sub le') le
          (g, srid, dims, base) (order_byte le) (write_u32 le raw ++ (write_srid le srid ++ b)) []
          es (read_byte_order-Reads le)
          (Reads-bind (read_u32 p le) (read_typed p sub le) raw (g, srid, dims, base)
            (write_u32 le raw) (write_srid le srid ++ b) [] es
            (read_u32-Reads p le raw (type_code-lt base small dims (is_some srid) codec.enc))
            typed))
