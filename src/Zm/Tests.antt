-- ===== src/Zm/Tests.antt =====
-- The theorems on zm.rs at a sample: two points of which one has moved.
use geo_repair.Prelude.{
  ℕ, ◌≡◌, ◌≢◌, refl, ◌⊎◌, true, false, List, [], ◌∷◌, zip, replicate, arith, ltb,
}
use geo_repair.Geo.{Coord, Geometry, multi_point, line_string, point}
use geo_repair.Floats.{IsOrder}
use geo_repair.Floats.Whole.{whole}
use geo_repair.Zm.{count_coords}
use geo_repair.Zm.Preserve.{
  ZmValue, no_zm, z_only, is_near, is_farther, min_by, match_one, preserve_zm, topology_unchanged,
}
use geo_repair.Zm.Origin.{Compares, Nearest, Matched, match_one_lem, preserve_zm_lem}

abbrev coords : Geometry → List Coord
coords (multi_point cs) = cs
coords (line_string cs) = cs
coords (point c) = c ∷ []
coords _ = []

abbrev at : ℕ → Coord
at n = record { x = n; y = n }

abbrev before_repair : Geometry
before_repair = multi_point (at 3 ∷ at 900 ∷ [])

abbrev after_repair : Geometry
after_repair = line_string (at 3 ∷ at 905 ∷ [])

abbrev values : List ZmValue
values = z_only 7 ∷ z_only 8 ∷ []

whole-IsOrder : IsOrder ltb
whole-IsOrder = record { irreflexive = λ a. ground arith; transitive = λ a b c h k. ground arith }

whole-Compares : Compares whole
whole-Compares a b = (λ h. ground arith, λ h. ground arith)

-- both original coordinates are within the tolerance, and the first is nearer
first_nearest : match_one whole (zip (coords before_repair) values) (at 3) ≡ z_only 7
unfolding match_one min_by geo_repair.Zm.Preserve.min_from is_near is_farther
first_nearest = refl

match_one_lem_example :
    Nearest whole
      (zip (coords before_repair) values)
      (at 3)
      (match_one whole (zip (coords before_repair) values) (at 3))
match_one_lem_example =
    match_one_lem whole whole-IsOrder whole-Compares (zip (coords before_repair) values) (at 3)

preserve_zm_lem_example :
    ((2 ≢ count_coords before_repair)
      → preserve_zm whole coords before_repair values after_repair
        ≡ replicate (count_coords after_repair) no_zm)
    × ((2 ≡ count_coords before_repair)
        → (count_coords before_repair ≡ count_coords after_repair)
        → (topology_unchanged before_repair after_repair ≡ true)
        → preserve_zm whole coords before_repair values after_repair ≡ values)
    × ((2 ≡ count_coords before_repair)
        → ((count_coords before_repair ≢ count_coords after_repair)
            ⊎ (topology_unchanged before_repair after_repair ≡ false))
        → Matched
            (Nearest whole (zip (coords before_repair) values))
            (coords after_repair)
            (preserve_zm whole coords before_repair values after_repair))
preserve_zm_lem_example =
    preserve_zm_lem whole whole-IsOrder whole-Compares coords before_repair after_repair values
