-- ===== src/Binary/RoundTrip.antt =====
-- The loader on what the writer wrote.
use geo_repair.Prelude.{
  ℕ, ◌<◌, ◌%◌, ◌^◌, ◌≡◌, refl, ap, List, [], ◌∷◌, ◌++◌, map, arith, append_assoc, length,
  length-append, take-length_append, drop-length_append, ltb-false, String, All,
}
use mathlib.Core.Path.{subst}
use geo_repair.Words.{Bytes, le_bytes, u32_mod, u64_mod, length-le_bytes, le_value-le_bytes}
use geo_repair.Geo.{Coord, LineString, Polygon, Platform, polygon_new}
use geo_repair.Binary.Load.{
  Loaded, loaded, next_read, load_list, read_word, read_u32, read_f64, read_coord, read_ring,
  load_polygon, load_bin,
}
use geo_repair.Binary.Write.{count_bytes, each, write_pair, write_ring, write_poly, write_bin}

-- From the bytes `b`, whatever follows them, `l` reads `a` and stops behind them.
abbrev Loads {ℓ} : {A : Type ℓ} → (Bytes → Loaded (A × Bytes)) → A → Bytes → Type ℓ
Loads l a b = (rest : Bytes) → l (b ++ rest) ≡ loaded (a, rest)

Loads-next {ℓ κ} :
    {A : Type ℓ} {B : Type κ} (l : Bytes → Loaded (A × Bytes)) (f : A → Bytes → Loaded (B × Bytes))
    (a : A) (c : B) (b1 b2 : Bytes)
    → Loads l a b1
    → Loads (f a) c b2
    → Loads (next_read l f) c (b1 ++ b2)
Loads-next l f a c b1 b2 h h' rest = rw (append_assoc b1 b2 rest, h (b2 ++ rest)) (h' rest)

-- the last read, of a value that is then wrapped up
Loads-last {ℓ κ} :
    {A : Type ℓ} {B : Type κ} (l : Bytes → Loaded (A × Bytes)) (g : A → B) (a : A) (b : Bytes)
    → Loads l a b
    → Loads (next_read l (λ x bytes. loaded (g x, bytes))) (g a) b
Loads-last l g a b h rest = rw (h rest)

Loads-list {ℓ} :
    {A : Type ℓ} (l : Bytes → Loaded (A × Bytes)) (w : A → Bytes) (g : A → A) (P : A → Type 0)
    → ((a : A) → P a → Loads l (g a) (w a))
    → (xs : List A) → All P xs
    → Loads (load_list l (length xs)) (map g xs) (each w xs)
unfolding load_list each
Loads-list l w g P each_one [] h = λ rest. refl
Loads-list l w g P each_one (x ∷ xs) (h, hs) =
    Loads-next l (λ a. next_read (load_list l (length xs)) λ ys bytes. loaded (a ∷ ys, bytes)) (g x)
      (g x ∷ map g xs) (w x) (each w xs) (each_one x h)
      (Loads-last (load_list l (length xs)) (◌∷◌ (g x)) (map g xs) (each w xs)
        (Loads-list l w g P each_one xs hs))

read_word-le_bytes :
    (k : ℕ) (message : String) (v : ℕ) → v < 256 ^ k → Loads (read_word k message) v (le_bytes k v)
unfolding read_word
read_word-le_bytes k message v h rest =
    let b = le_bytes k v in
    let len : length b ≡ k = length-le_bytes k v in
    rw (
      ltb-false (length (b ++ rest)) k (omega (arith, length-append b rest)),
      take-length_append k b rest len,
      drop-length_append k b rest len,
      le_value-le_bytes k v h,
    )

read_u32-count_bytes : (n : ℕ) → n < u32_mod → Loads read_u32 n (count_bytes n)
unfolding read_u32 count_bytes
read_u32-count_bytes n h =
    let small : n % u32_mod ≡ n = omega arith in
    rw small (read_word-le_bytes 4 "unexpected EOF reading u32" n h)

abbrev pub PairFits : Coord → Type 0
PairFits c = (c.x < u64_mod) × (c.y < u64_mod)

-- Ordinates are bit patterns and a ring has fewer than 2 ^ 32 points.
abbrev pub BinRingFits : LineString → Type 0
BinRingFits ring = (length ring < u32_mod) × All PairFits ring

abbrev pub BinPolygonFits : Polygon → Type 0
BinPolygonFits g =
    BinRingFits g.exterior × (length g.interiors < u32_mod) × All BinRingFits g.interiors

map-id {ℓ} : {A : Type ℓ} (xs : List A) → map (λ x. x) xs ≡ xs
map-id [] = refl
map-id (x ∷ xs) = ap (◌∷◌ x) (map-id xs)

read_coord-write_pair : (c : Coord) → PairFits c → Loads read_coord c (write_pair c)
unfolding read_coord write_pair read_f64
read_coord-write_pair c (hx, hy) =
    let message : String = "unexpected EOF reading f64" in
    Loads-next (read_word 8 message) _ c.x c (le_bytes 8 c.x) (le_bytes 8 c.y)
      (read_word-le_bytes 8 message c.x hx)
      (Loads-last (read_word 8 message) (λ y. record { x = c.x; y = y }) c.y (le_bytes 8 c.y)
        (read_word-le_bytes 8 message c.y hy))

read_ring-write_ring :
    (ring : LineString) → BinRingFits ring → Loads read_ring ring (write_ring ring)
unfolding read_ring write_ring
read_ring-write_ring ring (few, h) =
    Loads-next read_u32 (load_list read_coord) (length ring) ring (count_bytes (length ring))
      (each write_pair ring) (read_u32-count_bytes (length ring) few)
      (subst (λ xs. Loads (load_list read_coord (length ring)) xs (each write_pair ring))
        (map-id ring)
        (Loads-list read_coord write_pair (λ c. c) PairFits read_coord-write_pair ring h))

module _ (p : Platform) where
  -- a polygon as `Polygon::new` makes it from its own rings
  abbrev pub rebuilt : Polygon → Polygon
  rebuilt g = polygon_new p g.exterior g.interiors

  load_polygon-write_poly :
      (g : Polygon) → BinPolygonFits g → Loads (load_polygon p) (rebuilt g) (write_poly g)
  unfolding load_polygon write_poly
  load_polygon-write_poly g (ext, few, h) =
      let n = length g.interiors in
      let holes = each write_ring g.interiors in
      let with_holes = λ (ext : LineString) (k : ℕ).
        next_read (load_list read_ring k) λ hs bytes. loaded (polygon_new p ext hs, bytes) in
      Loads-next read_ring (λ ext. next_read read_u32 (with_holes ext)) g.exterior (rebuilt g)
        (write_ring g.exterior) (count_bytes n ++ holes) (read_ring-write_ring g.exterior ext)
        (Loads-next read_u32 (with_holes g.exterior) n (rebuilt g) (count_bytes n) holes
          (read_u32-count_bytes n few)
          (Loads-last (load_list read_ring n) (polygon_new p g.exterior) g.interiors holes (
            subst (λ xs. Loads (load_list read_ring n) xs holes) (map-id g.interiors)
              (Loads-list read_ring write_ring (λ r. r) BinRingFits read_ring-write_ring g.interiors
                h))))

  -- `load_bin` gives back what `write_bin` wrote, whatever follows it in the file: each polygon as
  -- `Polygon::new` makes it from its rings. It asks for ordinates of 64 bits and counts of 32.
  pub load_bin-write_bin :
      (polys : List Polygon) (behind : Bytes)
      → length polys < u32_mod
      → All BinPolygonFits polys
      → load_bin p (loaded (write_bin polys ++ behind)) ≡ loaded (map rebuilt polys)
  unfolding load_bin write_bin
  load_bin-write_bin polys behind few h =
      rw
        (Loads-next read_u32 (load_list (load_polygon p)) (length polys) (map rebuilt polys)
          (count_bytes (length polys)) (each write_poly polys)
          (read_u32-count_bytes (length polys) few)
          (Loads-list (load_polygon p) write_poly rebuilt BinPolygonFits load_polygon-write_poly
            polys h)
          behind)
        refl
