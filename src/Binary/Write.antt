-- ===== src/Binary/Write.antt =====
-- io/binary.rs: `write_bin`, up to the bytes that the file is given.
use geo_repair.Prelude.{ℕ, ◌%◌, List, [], ◌∷◌, ◌++◌, length}
use geo_repair.Words.{Bytes, le_bytes, u32_mod}
use geo_repair.Geo.{Coord, LineString, Polygon}

-- `(n as u32).to_le_bytes()`
unfoldable pub count_bytes : ℕ → Bytes
count_bytes n = le_bytes 4 (n % u32_mod)

-- `buf.extend_from_slice(..)` in a loop
unfoldable pub each {ℓ} : {A : Type ℓ} → (A → Bytes) → List A → Bytes
each w [] = []
each w (x ∷ xs) = w x ++ each w xs

unfoldable pub write_pair : Coord → Bytes
write_pair c = le_bytes 8 c.x ++ le_bytes 8 c.y

unfoldable pub write_ring : LineString → Bytes
write_ring ring = count_bytes (length ring) ++ each write_pair ring

unfoldable pub write_poly : Polygon → Bytes
write_poly g =
    write_ring g.exterior ++ (count_bytes (length g.interiors) ++ each write_ring g.interiors)

unfoldable pub write_bin : List Polygon → Bytes
write_bin polys = count_bytes (length polys) ++ each write_poly polys
