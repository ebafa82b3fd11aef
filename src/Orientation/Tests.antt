-- ===== src/Orientation/Tests.antt =====
-- A ring of which the third vertex has the least x.
use geo_repair.Prelude.{◌+◌, ◌<◌, ◌≡◌, refl, List, [], ◌∷◌, length, arith, drop_last, ltb, ◌==◌}
use geo_repair.Geo.{Coord}
use geo_repair.Floats.{IsOrder, Respects}
use geo_repair.Floats.Whole.{whole}
use geo_repair.Orientation.{vertex, min_x_vertex}
use geo_repair.Orientation.Least.{IsLeast, min_x_vertex_lem}

abbrev ring : List Coord
ring =
    record { x = 5; y = 0 }
    ∷ record { x = 9; y = 4 }
    ∷ record { x = 1; y = 3 }
    ∷ record { x = 5; y = 0 }
    ∷ []

least_sample : min_x_vertex whole ring ≡ 2
unfolding min_x_vertex geo_repair.Orientation.least_from
least_sample = refl

whole-IsOrder : IsOrder ltb
whole-IsOrder = record { irreflexive = λ a. ground arith; transitive = λ a b c h k. ground arith }

whole-Respects : Respects ◌==◌ ltb
whole-Respects = record {
  equal = λ a b c h k. ground arith;
  before = λ a b c h k. ground arith;
  behind = λ a b c h k. ground arith;
}

min_x_vertex_lem_example :
    (min_x_vertex whole ring < 3)
    × (length (drop_last ring) + 1 ≡ 4)
    × IsLeast whole (vertex ring (min_x_vertex whole ring)) (drop_last ring)
min_x_vertex_lem_example = min_x_vertex_lem whole whole-IsOrder whole-Respects ring (omega arith)
