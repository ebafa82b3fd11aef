-- ===== src/Wkt/Tests.antt =====
-- The theorem on io/wkt at a sample.
use geo_repair.Prelude.{ℕ, ◌≡◌, refl, [], ◌∷◌, ◌++◌, String}
use geo_repair.Geo.{is_nan}
use geo_repair.Wkb.Types.{xyz}
use geo_repair.Wkb.Samples.{x86, parts, heights}
use geo_repair.Wkt.Write.{write_geom}
use geo_repair.Wkt.Uses.{written_coords}
use geo_repair.Wkt.Ordinates.{write_geom-Uses}

abbrev digits : ℕ → String
digits _ = "1.0"

write_geom-Uses_example :
    (write_geom x86 digits xyz parts (heights.extra_coords ++ 99 ∷ [])).1 ≡ 99 ∷ []
unfolding written_coords is_nan
write_geom-Uses_example = write_geom-Uses x86 digits xyz parts heights.extra_coords (99 ∷ []) refl
