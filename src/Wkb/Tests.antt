-- ===== src/Wkb/Tests.antt =====
-- The theorems on io/wkb at samples.
use geo_repair.Prelude.{
  ◌≡◌, ◌≤◌, ◌*◌, refl, List, [], ◌∷◌, ◌++◌, none, true, false, ℕ, arith, length,
}
use geo_repair.Wkb.Types.{ok, err, bind, trailing_bytes, big_endian, xyz, wkb_polygon, WriteOptions}
use geo_repair.Wkb.Cursor.{start, advance}
use geo_repair.Wkb.Read.{type_header, decode_batch, coord_loop}
use geo_repair.Wkb.Reader.{read_wkb, read_ewkb, estimate_wkb_size, read_wkb_concat}
use geo_repair.Wkb.Write.{write_wkb_with_opts, write_geometry}
use geo_repair.Wkb.WriteEwkb.{ewkb, type_code, write_ewkb, write_wkb_iso, write_geometry_ewkb}
use geo_repair.Wkb.Size.{ewkb_size, wkb_size}
use geo_repair.Wkb.Size.Total.{length-write_ewkb, length-write_wkb_iso}
use geo_repair.Wkb.Header.{type_header-type_code}
use geo_repair.Wkb.Batch.{decode_batch-coord_loop}
use geo_repair.Wkb.Fits.{as_read}
use geo_repair.Wkb.Inverse.{read_ewkb-write_ewkb, read_ewkb-write_wkb_iso}
use geo_repair.Wkb.PlainTrip.{
  read_wkb-write_wkb_with_opts, read_wkb_trailing, length-write_wkb_with_opts,
  estimate_wkb_size-write_wkb_with_opts, write_geometry_ewkb-write_geometry,
}
use geo_repair.Wkb.Robust.{Settles, estimate_wkb_size-Settles, read_ewkb-Settles, read_wkb-Settles}
use geo_repair.Wkb.Concat.{
  read_wkb_concat-Settles, read_wkb_concat-append, write_all, read_wkb_concat-write_all,
}
use geo_repair.Wkb.Samples.{x86, parts, shapes, heights, shapes-Fits, heights-EwkbFits}

abbrev big : WriteOptions
big = record { endianness = big_endian }

read_ewkb-write_ewkb_example :
    read_ewkb x86 (write_ewkb x86 heights) ≡ ok (record heights { geometry = as_read x86 parts })
read_ewkb-write_ewkb_example = read_ewkb-write_ewkb x86 heights heights-EwkbFits

-- a collection of points, polygons and multi points is read as it was
heights-as_read : read_ewkb x86 (write_ewkb x86 heights) ≡ ok heights
unfolding as_read
heights-as_read = read_ewkb-write_ewkb x86 heights heights-EwkbFits

read_ewkb-write_wkb_iso_example :
    read_ewkb x86 (write_wkb_iso x86 heights)
    ≡ ok (record heights { geometry = as_read x86 parts; srid = none })
read_ewkb-write_wkb_iso_example = read_ewkb-write_wkb_iso x86 heights heights-EwkbFits

read_wkb-write_wkb_with_opts_example :
    read_wkb x86 (write_wkb_with_opts x86 shapes big) ≡ ok (as_read x86 shapes)
read_wkb-write_wkb_with_opts_example = read_wkb-write_wkb_with_opts x86 shapes big refl shapes-Fits

read_wkb_trailing_example :
    read_wkb x86 (write_wkb_with_opts x86 shapes big ++ 7 ∷ 9 ∷ [])
    ≡ err (
        trailing_bytes
          (length (write_wkb_with_opts x86 shapes big))
          (length (write_wkb_with_opts x86 shapes big ++ 7 ∷ 9 ∷ [])))
read_wkb_trailing_example = read_wkb_trailing x86 shapes big 7 (9 ∷ []) refl shapes-Fits

length-write_wkb_with_opts_example : length (write_wkb_with_opts x86 shapes big) ≡ wkb_size shapes
length-write_wkb_with_opts_example = length-write_wkb_with_opts x86 shapes big refl

estimate_wkb_size-write_wkb_with_opts_example :
    estimate_wkb_size x86 (write_wkb_with_opts x86 shapes big ++ 7 ∷ []) ≡ ok (wkb_size shapes)
estimate_wkb_size-write_wkb_with_opts_example =
    estimate_wkb_size-write_wkb_with_opts x86 shapes big (7 ∷ []) refl shapes-Fits

write_geometry_ewkb-write_geometry_example :
    write_geometry_ewkb x86
      (record { le = true; enc = ewkb })
      (record { has_z = false; has_m = false })
      none
      shapes
      (5 ∷ [])
    ≡ (write_geometry x86 true shapes, 5 ∷ [])
write_geometry_ewkb-write_geometry_example =
    write_geometry_ewkb-write_geometry x86 (record { le = true; enc = ewkb }) shapes (5 ∷ []) refl

length-write_ewkb_example : length (write_ewkb x86 heights) ≡ ewkb_size xyz true parts
length-write_ewkb_example = length-write_ewkb x86 heights

length-write_wkb_iso_example : length (write_wkb_iso x86 heights) ≡ ewkb_size xyz false parts
length-write_wkb_iso_example = length-write_wkb_iso x86 heights

type_header-type_code_example :
    type_header (type_code wkb_polygon xyz true ewkb) ≡ ok (true, false, wkb_polygon)
type_header-type_code_example = type_header-type_code wkb_polygon (omega arith) xyz true ewkb

abbrev stray : List ℕ
stray = 1 ∷ 3 ∷ 0 ∷ 0 ∷ 0 ∷ 1 ∷ 0 ∷ 0 ∷ 0 ∷ 200 ∷ 0 ∷ 0 ∷ 0 ∷ []

estimate_wkb_size-Settles_example :
    Settles (λ n. (5 ≤ n) × (n ≤ length stray)) (estimate_wkb_size x86 stray)
estimate_wkb_size-Settles_example = estimate_wkb_size-Settles x86 stray

read_ewkb-Settles_example : Settles (λ _. 5 ≤ length stray) (read_ewkb x86 stray)
read_ewkb-Settles_example = read_ewkb-Settles x86 stray

read_wkb-Settles_example : Settles (λ _. 5 ≤ length stray) (read_wkb x86 stray)
read_wkb-Settles_example = read_wkb-Settles x86 stray

read_wkb_concat-Settles_example :
    Settles (λ gs. length gs * 5 ≤ length stray) (read_wkb_concat x86 stray)
read_wkb_concat-Settles_example = read_wkb_concat-Settles x86 stray

read_wkb_concat-append_example :
    read_wkb_concat x86 (write_wkb_with_opts x86 shapes big ++ stray)
    ≡ bind (read_wkb_concat x86 stray) (λ gs. ok (as_read x86 shapes ∷ gs))
read_wkb_concat-append_example =
    read_wkb_concat-append x86 (write_wkb_with_opts x86 shapes big) stray (as_read x86 shapes)
      (read_wkb-write_wkb_with_opts x86 shapes big refl shapes-Fits)

read_wkb_concat-write_all_example :
    read_wkb_concat x86 (write_all x86 (shapes ∷ shapes ∷ []) big)
    ≡ ok (as_read x86 shapes ∷ as_read x86 shapes ∷ [])
read_wkb_concat-write_all_example =
    read_wkb_concat-write_all x86 (shapes ∷ shapes ∷ []) big refl (shapes-Fits, (shapes-Fits, tt))

-- one coordinate with a height
decode_batch-coord_loop_example :
    decode_batch x86 1 true 3 (start (stray ++ stray))
    ≡ bind (coord_loop x86 true 3 1 (stray ++ stray) []) (λ (cs, extra).
      ok (cs, record (advance (1 * (3 * 8)) (start (stray ++ stray))) { extra_coords = extra }))
decode_batch-coord_loop_example = decode_batch-coord_loop x86 1 true 3 (start (stray ++ stray))
