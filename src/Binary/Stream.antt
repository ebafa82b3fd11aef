-- ===== src/Binary/Stream.antt =====
-- io/binary.rs: `load_bin_stream`, the iterator. `left` is what a failed `read_exact` leaves of the
-- reader, which std does not say.
use geo_repair.Prelude.{
  ℕ, zero, suc, Bool, true, false, Option, none, some, List, [], ◌∷◌, length, take, drop, ltb, leb,
  ◌==◌, if◌then◌else◌,
}
use geo_repair.Words.{Bytes, le_value}
use geo_repair.Geo.{Coord, LineString, Polygon, Platform, polygon_new}

pub record LoadBinStream : Type 0 where
  pub reader : Bytes
  pub header_read : Bool
  pub total_polys : ℕ
  pub polys_yielded : ℕ

-- a read that may fail, and the reader behind it
abbrev pub S {ℓ} : Type ℓ → Type ℓ
S A = Bytes → Option A × Bytes

module _ {ℓ κ} {A : Type ℓ} {B : Type κ} where
  abbrev pub on_some : (A → S B) → Option A × Bytes → Option B × Bytes
  on_some f (some a, r) = f a r
  on_some f (none, r) = (none, r)

  -- `let a = s(r)?; ...`
  abbrev pub try_read : S A → (A → S B) → S B
  try_read s f r = on_some f (s r)

unfoldable pub stream_list {ℓ} : {A : Type ℓ} → S A → ℕ → S (List A)
stream_list s zero = λ r. (some [], r)
stream_list s (suc n) = try_read s λ a. try_read (stream_list s n) λ xs r. (some (a ∷ xs), r)

module _ (left : Bytes → Bytes) where
  unfoldable pub read_exact : ℕ → S ℕ
  read_exact k r =
      if ltb (length r) k then (none, left r) else (some (le_value (take k r)), drop k r)

  unfoldable pub read_u32 : S ℕ
  read_u32 = read_exact 4

  unfoldable pub read_f64 : S ℕ
  read_f64 = read_exact 8

  unfoldable pub read_coord : S Coord
  read_coord = try_read read_f64 λ x. try_read read_f64 λ y r. (some (record { x = x; y = y }), r)

  unfoldable pub read_ring : S LineString
  read_ring = try_read read_u32 λ n. stream_list read_coord n

-- `for polygon in stream { seen.push(polygon) }`, one round of it
abbrev pub keep : (LoadBinStream → List Polygon) → Option Polygon × LoadBinStream → List Polygon
keep more (some g, s) = g ∷ more s
keep more (none, s) = []

module _ (p : Platform) (left : Bytes → Bytes) where
  unfoldable pub stream_polygon : S Polygon
  stream_polygon = try_read (read_ring left) λ ext. try_read (read_u32 left) λ n_holes.
      try_read (stream_list (read_ring left) n_holes) λ holes r. (some (polygon_new p ext holes), r)

  -- the part of `next` behind the header
  unfoldable pub next_polygon : LoadBinStream → Option Polygon × LoadBinStream
  next_polygon s =
      let out = stream_polygon s.reader in
      if leb s.total_polys s.polys_yielded
      then (none, s)
      else (out.0, record s { reader = out.1; polys_yielded = suc s.polys_yielded })

  -- the header just read
  unfoldable pub next_header : LoadBinStream → Option ℕ × Bytes → Option Polygon × LoadBinStream
  next_header s (none, r) = (none, record s { reader = r })
  next_header s (some n, r) =
      let s' : LoadBinStream = record s { reader = r; total_polys = n; header_read = true } in
      if n == 0 then (none, s') else next_polygon s'

  unfoldable pub next : LoadBinStream → Option Polygon × LoadBinStream
  next s = if s.header_read then next_polygon s else next_header s (read_u32 left s.reader)

  -- what a loop that asks for the next polygon until there is none has seen, in `fuel` rounds
  unfoldable pub collect : ℕ → LoadBinStream → List Polygon
  collect zero s = []
  collect (suc fuel) s = keep (collect fuel) (next s)

unfoldable pub load_bin_stream : Bytes → LoadBinStream
load_bin_stream reader = record {
  reader = reader;
  header_read = false;
  total_polys = 0;
  polys_yielded = 0;
}
