-- ===== src/Rings/Tests.antt =====
-- The point-in-ring kernels at a sample ring.
use geo_repair.Prelude.{◌≡◌, refl, true, [], ◌∷◌}
use geo_repair.Geo.{Coord}
use geo_repair.Floats.Whole.{whole}
use geo_repair.Rings.{point_in_ring_exclusive, point_in_ring_inclusive}
use geo_repair.Rings.Rotate.{point_in_ring_rotate}

abbrev low : Coord
low = record { x = 0; y = 0 }

abbrev far : Coord
far = record { x = 100; y = 100 }

abbrev high : Coord
high = record { x = 0; y = 100 }

abbrev inside : Coord
inside = record { x = 1; y = 50 }

inside_sample : point_in_ring_exclusive whole inside (low ∷ far ∷ high ∷ low ∷ []) ≡ true
unfolding point_in_ring_exclusive geo_repair.Rings.on_boundary geo_repair.Rings.on_segment
    geo_repair.Rings.between geo_repair.Floats.coord_eq geo_repair.Rings.point_in_ring_scalar_loop
    geo_repair.Rings.crossing
inside_sample = refl

point_in_ring_rotate_example :
    (point_in_ring_exclusive whole inside (low ∷ far ∷ high ∷ low ∷ [])
      ≡ point_in_ring_exclusive whole inside (far ∷ high ∷ low ∷ far ∷ []))
    × (point_in_ring_inclusive whole inside (low ∷ far ∷ high ∷ low ∷ [])
        ≡ point_in_ring_inclusive whole inside (far ∷ high ∷ low ∷ far ∷ []))
point_in_ring_rotate_example = point_in_ring_rotate whole inside low far (high ∷ [])
