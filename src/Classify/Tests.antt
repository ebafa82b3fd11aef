-- ===== src/Classify/Tests.antt =====
-- Two holes of a shell, of which one lies inside.
use geo_repair.Prelude.{ℕ, ◌≡◌, refl, ◌⊎◌, true, false, not, [], ◌∷◌, All, filter}
use mathlib.Core.List.{Memᴰ, Permᴰ}
use geo_repair.Geo.{Coord, LineString}
use geo_repair.Floats.Whole.{whole}
use geo_repair.Rings.{point_in_ring_exclusive, point_in_ring_inclusive}
use geo_repair.Classify.{
  open_set, ring_set_equal, mean_of, is_hole_outside, is_outer, classify_holes,
  classify_holes_parallel,
}
use geo_repair.Classify.RingSet.{ring_set_equal_lem}
use geo_repair.Classify.Agree.{classify_holes_parallel-classify_holes, is_hole_outside_lem}

abbrev at : ℕ → ℕ → Coord
at x y = record { x = x; y = y }

abbrev shell : LineString
shell = at 0 0 ∷ at 100 100 ∷ at 0 100 ∷ at 0 0 ∷ []

abbrev inner_hole : LineString
inner_hole = at 10 20 ∷ at 60 70 ∷ at 10 70 ∷ at 10 20 ∷ []

abbrev outer_hole : LineString
outer_hole = at 200 200 ∷ at 300 300 ∷ at 200 300 ∷ at 200 200 ∷ []

inner_hole_sample : is_hole_outside whole (λ n. n) inner_hole shell ≡ false
unfolding is_hole_outside point_in_ring_exclusive geo_repair.Rings.on_boundary
    geo_repair.Rings.on_segment geo_repair.Rings.between geo_repair.Floats.coord_eq
    geo_repair.Rings.point_in_ring_scalar_loop geo_repair.Rings.crossing
inner_hole_sample = refl

same_ring_sample :
    ring_set_equal (at 1 2 ∷ at 3 4 ∷ at 5 6 ∷ at 1 2 ∷ []) (at 5 6 ∷ at 3 4 ∷ at 1 2 ∷ at 5 6 ∷ [])
    ≡ true
unfolding ring_set_equal
same_ring_sample = refl

classify_holes_parallel-classify_holes_example :
    (classify_holes_parallel whole (λ n. n) shell (inner_hole ∷ outer_hole ∷ [])
      ≡ classify_holes whole (λ n. n) shell (inner_hole ∷ outer_hole ∷ []))
    × (classify_holes whole (λ n. n) shell (inner_hole ∷ outer_hole ∷ []) ≡ (
      filter (λ h. not (is_outer whole (λ n. n) shell h)) (inner_hole ∷ outer_hole ∷ []),
      filter (is_outer whole (λ n. n) shell) (inner_hole ∷ outer_hole ∷ []),
    ))
classify_holes_parallel-classify_holes_example =
    classify_holes_parallel-classify_holes whole (λ n. n) shell (inner_hole ∷ outer_hole ∷ [])

is_hole_outside_lem_example :
    (is_hole_outside whole (λ n. n) inner_hole shell ≡ true
      → All (λ pt. point_in_ring_exclusive whole pt shell ≡ false) inner_hole)
    × (is_hole_outside whole (λ n. n) inner_hole shell ≡ false
        → ((pt : Coord) × Memᴰ pt inner_hole × (point_in_ring_exclusive whole pt shell ≡ true))
          ⊎ (All (λ pt. point_in_ring_inclusive whole pt shell ≡ true) inner_hole
              × (ring_set_equal inner_hole shell ≡ false)
              × (point_in_ring_exclusive whole (mean_of whole (λ n. n) inner_hole) shell ≡ true)))
is_hole_outside_lem_example = is_hole_outside_lem whole (λ n. n) shell inner_hole

ring_set_equal_lem_example :
    (ring_set_equal shell shell ≡ true)
    × (ring_set_equal shell inner_hole ≡ true → Permᴰ (open_set shell) (open_set inner_hole))
ring_set_equal_lem_example = ring_set_equal_lem shell inner_hole
