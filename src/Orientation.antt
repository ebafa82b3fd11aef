-- ===== src/Orientation.antt =====
-- The winding of a ring: util.rs and the functions of make_valid/strip.rs that turn a ring.
-- `orient2d` is `robust::orient2d`.
pub mod Least
mod Tests
use geo_repair.Prelude.{
  ℕ, zero, suc, ◌+◌, ◌-◌, ◌%◌, Bool, true, false, not, ◌&&◌, ◌||◌, List, [], ◌∷◌, reverse, length,
  drop_last, get_or, ltb, ◌==◌, if◌then◌else◌,
}
use geo_repair.Geo.{Coord, LineString, is_nan}
use geo_repair.Floats.{Floats}
use geo_repair.Rings.{shoelace_sum}

-- `1e-15`
abbrev pub orient_eps : ℕ
orient_eps = 0x3cd2_03af_9ee7_5616

abbrev pub vertex : List Coord → ℕ → Coord
vertex ring i = get_or ring i (record { x = 0; y = 0 })

-- the index before one, counted round
abbrev pub index_before : ℕ → ℕ → ℕ
index_before n i = if i == 0 then n - 1 else i - 1

module _ (f : Floats) where
  -- the loop, at the coordinate with index `i`
  unfoldable pub least_from : List Coord → ℕ → ℕ → ℕ → ℕ → ℕ
  least_from [] i min_idx min_x min_y = min_idx
  least_from (c ∷ cs) i min_idx min_x min_y =
      let less = f.lt c.x min_x || (f.eq c.x min_x && f.lt c.y min_y) in
      least_from cs (suc i) (if less then i else min_idx) (if less then c.x else min_x)
        (if less then c.y else min_y)

  abbrev pub least_vertex : List Coord → ℕ
  least_vertex [] = 0
  least_vertex (c ∷ cs) = least_from (drop_last cs) 1 0 c.x c.y

  unfoldable pub min_x_vertex : List Coord → ℕ
  min_x_vertex ring = if ltb (length ring) 4 then 0 else least_vertex ring

  module _ (orient2d : Coord → Coord → Coord → ℕ) where
    unfoldable pub robust_is_ccw_at : List Coord → ℕ → Bool
    robust_is_ccw_at ring min_idx =
        let interior_n = length ring - 1 in
        let prev = vertex ring (index_before interior_n min_idx) in
        let orient =
          orient2d prev (vertex ring min_idx) (vertex ring ((min_idx + 1) % interior_n)) in
        if ltb (length ring) 4
        then false
        else if f.le (f.abs orient) orient_eps || is_nan orient
        then f.lt 0 (shoelace_sum f ring)
        else f.lt 0 orient

    unfoldable pub robust_is_ccw : List Coord → Bool
    robust_is_ccw ring =
        if ltb (length ring) 4 then false else robust_is_ccw_at ring (min_x_vertex ring)

    unfoldable pub robust_is_ccw_with_index : List Coord → Bool × ℕ
    robust_is_ccw_with_index ring = let idx = min_x_vertex ring in (robust_is_ccw_at ring idx, idx)

    -- the ring, the index and whether the ring was turned
    abbrev turned : LineString → ℕ → Bool → LineString × ℕ × Bool
    turned ring idx reversed = (if reversed then reverse ring else ring, idx, reversed)

    unfoldable pub enforce_ccw : LineString → LineString × ℕ × Bool
    enforce_ccw ring =
        let found = robust_is_ccw_with_index ring in turned ring found.1 (not found.0)

    unfoldable pub enforce_ccw_with_idx : LineString → ℕ → LineString × ℕ × Bool
    enforce_ccw_with_idx ring idx = turned ring idx (not (robust_is_ccw_at ring idx))

    unfoldable pub enforce_cw : LineString → LineString × ℕ × Bool
    enforce_cw ring = let found = robust_is_ccw_with_index ring in turned ring found.1 found.0

    unfoldable pub enforce_cw_with_idx : LineString → ℕ → LineString × ℕ × Bool
    enforce_cw_with_idx ring idx = turned ring idx (robust_is_ccw_at ring idx)
