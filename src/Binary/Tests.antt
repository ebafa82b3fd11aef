-- ===== src/Binary/Tests.antt =====
-- The theorems on io/binary.rs at samples.
use geo_repair.Prelude.{◌≡◌, List, [], ◌∷◌, ◌++◌, map, arith}
use geo_repair.Geo.{LineString, Polygon}
use geo_repair.Binary.Load.{loaded, load_bin}
use geo_repair.Binary.Write.{write_bin}
use geo_repair.Binary.Stream.{collect, load_bin_stream}
use geo_repair.Binary.RoundTrip.{BinRingFits, rebuilt, load_bin-write_bin}
use geo_repair.Binary.Agree.{collect-load_bin}
use geo_repair.Wkb.Samples.{x86, c12}

abbrev ring : LineString
ring = (record { x = 0; y = 0 }) ∷ (record { x = 0x4000_0000_0000_0000; y = 0 }) ∷ c12 ∷ []

abbrev two_polygons : List Polygon
two_polygons =
    (record { exterior = ring; interiors = ring ∷ [] })
    ∷ (record { exterior = ring; interiors = [] })
    ∷ []

ring-BinRingFits : BinRingFits ring
ring-BinRingFits = ground arith

load_bin-write_bin_example :
    load_bin x86 (loaded (write_bin two_polygons ++ 0 ∷ []))
    ≡ loaded (map (rebuilt x86) two_polygons)
load_bin-write_bin_example = load_bin-write_bin x86 two_polygons (0 ∷ []) (omega arith) (
  (ring-BinRingFits, omega arith, (ring-BinRingFits, tt)),
  ((ring-BinRingFits, omega arith, tt), tt),
)

collect-load_bin_example :
    collect x86 (λ _. []) 3 (load_bin_stream (write_bin two_polygons ++ 0 ∷ []))
    ≡ map (rebuilt x86) two_polygons
collect-load_bin_example =
    collect-load_bin (λ _. []) x86 (write_bin two_polygons ++ 0 ∷ [])
      (map (rebuilt x86) two_polygons) 3 load_bin-write_bin_example (omega arith)
