-- ===== src/Wkb/Types.antt =====
-- io/wkb/mod.rs and io/dims.rs: errors, dimension flags, the EWKB record, byte order and constants.
use geo_repair.Prelude.{ℕ, ◌+◌, Bool, true, false, Option, List, String, ◌≡◌, refl, if◌then◌else◌}
use geo_repair.Geo.{Geometry}

pub data WkbError : Type 0 where
  unexpected_eof : WkbError
  invalid_byte_order : ℕ → WkbError
  unknown_type_code : ℕ → WkbError
  unexpected_geometry_type : String → ℕ → WkbError
  unsupported_dimension : ℕ → WkbError
  trailing_bytes : ℕ → ℕ → WkbError
  invalid_ring : ℕ → WkbError
  io_error : String → WkbError

-- `fault` is a panic, or a read through a raw pointer outside the buffer.
pub data Result {ℓ} (A : Type ℓ) : Type ℓ where
  ok : A → Result A
  err : WkbError → Result A
  fault : Result A

abbrev pub bind {ℓ κ} : {A : Type ℓ} {B : Type κ} → Result A → (A → Result B) → Result B
bind (ok a) f = f a
bind (err e) f = err e
bind fault f = fault

pub bind_assoc {ℓ κ ι} :
    {A : Type ℓ} {B : Type κ} {C : Type ι} (r : Result A) (f : A → Result B) (g : B → Result C)
    → bind (bind r f) g ≡ bind r (λ a. bind (f a) g)
bind_assoc (ok a) f g = refl
bind_assoc (err e) f g = refl
bind_assoc fault f g = refl

pub record Dims : Type 0 where
  pub has_z : Bool
  pub has_m : Bool

abbrev pub xy : Dims
xy = record { has_z = false; has_m = false }

abbrev pub xyz : Dims
xyz = record { has_z = true; has_m = false }

abbrev pub xym : Dims
xym = record { has_z = false; has_m = true }

abbrev pub xyzm : Dims
xyzm = record { has_z = true; has_m = true }

abbrev pub bit : Bool → ℕ
bit b = if b then 1 else 0

-- 2 for XY, 3 for XYZ and XYM, 4 for XYZM
abbrev pub coord_count : Dims → ℕ
coord_count d = bit d.has_z + bit d.has_m + 2

-- The SRID is the bit pattern of an i32: `as i32` and `as u32` keep it.
pub record EwkbGeometry : Type 0 where
  pub geometry : Geometry
  pub srid : Option ℕ
  pub dims : Dims
  pub extra_coords : List ℕ

pub data Endianness : Type 0 where
  little_endian big_endian : Endianness

pub record WriteOptions : Type 0 where
  pub endianness : Endianness

abbrev pub default_options : WriteOptions
default_options = record { endianness = little_endian }

abbrev pub wkb_point : ℕ
wkb_point = 1

abbrev pub wkb_linestring : ℕ
wkb_linestring = 2

abbrev pub wkb_polygon : ℕ
wkb_polygon = 3

abbrev pub wkb_multipoint : ℕ
wkb_multipoint = 4

abbrev pub wkb_multilinestring : ℕ
wkb_multilinestring = 5

abbrev pub wkb_multipolygon : ℕ
wkb_multipolygon = 6

abbrev pub wkb_geometrycollection : ℕ
wkb_geometrycollection = 7

-- The flags of EWKB, as positions of their one bit: 0x80000000, 0x40000000, 0x20000000.
abbrev pub wkb_z_bit : ℕ
wkb_z_bit = 31

abbrev pub wkb_m_bit : ℕ
wkb_m_bit = 30

abbrev pub wkb_srid_bit : ℕ
wkb_srid_bit = 29
