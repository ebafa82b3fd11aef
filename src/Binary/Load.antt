-- ===== src/Binary/Load.antt =====
-- io/binary.rs: `load_bin`, from what reading the file gave. The closures' `buf` and `pos` are kept
-- as the bytes from `pos` on.
use geo_repair.Prelude.{ℕ, zero, suc, List, [], ◌∷◌, String, length, take, drop, ltb, if◌then◌else◌}
use geo_repair.Words.{Bytes, le_value}
use geo_repair.Geo.{Coord, LineString, Polygon, Platform, polygon_new}

-- `Result<A, String>`
pub data Loaded {ℓ} (A : Type ℓ) : Type ℓ where
  loaded : A → Loaded A
  failed : String → Loaded A

abbrev pub and_then {ℓ κ} : {A : Type ℓ} {B : Type κ} → Loaded A → (A → Loaded B) → Loaded B
and_then (loaded a) f = f a
and_then (failed e) f = failed e

-- `let a = l(buf, pos)?; ...`
abbrev pub next_read {ℓ κ} :
    {A : Type ℓ} {B : Type κ}
    → (Bytes → Loaded (A × Bytes))
    → (A → Bytes → Loaded (B × Bytes))
    → Bytes
    → Loaded (B × Bytes)
next_read l f bytes = and_then (l bytes) λ (a, rest). f a rest

-- `for _ in 0..n { v.push(l(buf, pos)?) }`
unfoldable pub load_list {ℓ} :
    {A : Type ℓ} → (Bytes → Loaded (A × Bytes)) → ℕ → Bytes → Loaded (List A × Bytes)
load_list l zero = λ bytes. loaded ([], bytes)
load_list l (suc n) = next_read l λ a. next_read (load_list l n) λ xs bytes. loaded (a ∷ xs, bytes)

-- a word of `k` bytes, least significant byte first
unfoldable pub read_word : ℕ → String → Bytes → Loaded (ℕ × Bytes)
read_word k message bytes =
    if ltb (length bytes) k then failed message else loaded (le_value (take k bytes), drop k bytes)

unfoldable pub read_u32 : Bytes → Loaded (ℕ × Bytes)
read_u32 = read_word 4 "unexpected EOF reading u32"

unfoldable pub read_f64 : Bytes → Loaded (ℕ × Bytes)
read_f64 = read_word 8 "unexpected EOF reading f64"

unfoldable pub read_coord : Bytes → Loaded (Coord × Bytes)
read_coord =
    next_read read_f64 λ x. next_read read_f64 λ y bytes. loaded (record { x = x; y = y }, bytes)

unfoldable pub read_ring : Bytes → Loaded (LineString × Bytes)
read_ring = next_read read_u32 λ n. load_list read_coord n

module _ (p : Platform) where
  unfoldable pub load_polygon : Bytes → Loaded (Polygon × Bytes)
  load_polygon = next_read read_ring λ ext. next_read read_u32 λ n_holes.
      next_read (load_list read_ring n_holes) λ holes bytes. loaded (polygon_new p ext holes, bytes)

  -- `file` is the content of the file, or the message of `open` or `read_to_end`.
  unfoldable pub load_bin : Loaded Bytes → Loaded (List Polygon)
  load_bin file =
      and_then file
        λ buf. and_then (next_read read_u32 (load_list load_polygon) buf) λ (polys, _). loaded polys
