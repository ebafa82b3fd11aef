-- ===== src/Zm/Preserve.antt =====
-- zm.rs: the Z and M values of a geometry, and how `preserve_zm` carries them over a repair. What
-- the f64 operations do and the coordinates that `geo` lists of a geometry are parameters.
use Prim.Native.Nat.{Ordering}
use geo_repair.Prelude.{
  ℕ, Bool, true, false, not, ◌&&◌, Option, none, some, List, [], ◌∷◌, map, length, ◌==◌,
  if◌then◌else◌, filter, zip, any, replicate,
}
use geo_repair.Geo.{
  Coord, Geometry, point, line, line_string, polygon, multi_point, multi_line_string, multi_polygon,
  geometry_collection, rect, triangle,
}
use geo_repair.Floats.{Floats}
use geo_repair.Zm.{count_coords}

pub record ZmValue : Type 0 where
  pub z : Option ℕ
  pub m : Option ℕ

abbrev pub no_zm : ZmValue
no_zm = record { z = none; m = none }

abbrev pub z_only : ℕ → ZmValue
z_only z = record { z = some z; m = none }

abbrev pub m_only : ℕ → ZmValue
m_only m = record { z = none; m = some m }

abbrev is_some {ℓ} : {A : Type ℓ} → Option A → Bool
is_some none = false
is_some (some _) = true

unfoldable pub value_has_z : ZmValue → Bool
value_has_z v = is_some v.z

unfoldable pub value_has_m : ZmValue → Bool
value_has_m v = is_some v.m

unfoldable pub value_is_empty : ZmValue → Bool
value_is_empty v = not (is_some v.z) && not (is_some v.m)

pub record ZmGeometry : Type 0 where
  pub geometry : Geometry
  pub zm : List ZmValue

unfoldable pub zm_new : Geometry → ZmGeometry
zm_new g = record { geometry = g; zm = replicate (count_coords g) no_zm }

unfoldable pub geometry_has_z : ZmGeometry → Bool
geometry_has_z g = any (λ v. is_some v.z) g.zm

unfoldable pub geometry_has_m : ZmGeometry → Bool
geometry_has_m g = any (λ v. is_some v.m) g.zm

-- `core::mem::discriminant`
abbrev discriminant : Geometry → ℕ
discriminant (point _) = 0
discriminant (line _ _) = 1
discriminant (line_string _) = 2
discriminant (polygon _) = 3
discriminant (multi_point _) = 4
discriminant (multi_line_string _) = 5
discriminant (multi_polygon _) = 6
discriminant (geometry_collection _) = 7
discriminant (rect _ _) = 8
discriminant (triangle _ _ _) = 9

unfoldable pub topology_unchanged : Geometry → Geometry → Bool
topology_unchanged a b = discriminant a == discriminant b

-- `unwrap_or(Ordering::Equal)` and the test for the second of the two in `min_by`
abbrev pub is_greater : Option Ordering → Bool
is_greater (some Ordering.gt) = true
is_greater (some _) = false
is_greater none = false

-- `Iterator::min_by`: of equal elements the first
module _ {ℓ} {A : Type ℓ} (greater : A → A → Bool) where
  unfoldable pub min_from : A → List A → A
  min_from x [] = x
  min_from x (y ∷ ys) = min_from (if greater x y then y else x) ys

  unfoldable pub min_by : List A → Option A
  min_by [] = none
  min_by (x ∷ xs) = some (min_from x xs)

-- 1e-10
abbrev tol : ℕ
tol = 0x3ddb_7cdf_d9d7_bdbb

-- `.map(|(_, zv)| *zv)` and `unwrap_or(ZmValue::NONE)`
abbrev pub value_or_none : Option (Coord × ZmValue) → ZmValue
value_or_none none = no_zm
value_or_none (some (_, v)) = v

module _ (f : Floats) where
  unfoldable pub is_near : Coord → Coord → Bool
  is_near new_c oc =
      let dx = f.sub oc.x new_c.x in
      let dy = f.sub oc.y new_c.y in f.lt (f.add (f.mul dx dx) (f.mul dy dy)) (f.mul tol tol)

  unfoldable pub is_farther : Coord → Coord → Coord → Bool
  is_farther new_c a b = is_greater (
      f.partial_cmp (f.hypot (f.sub a.x new_c.x) (f.sub a.y new_c.y))
        (f.hypot (f.sub b.x new_c.x) (f.sub b.y new_c.y)))

  -- one round of the loop
  unfoldable pub match_one : List (Coord × ZmValue) → Coord → ZmValue
  match_one candidates new_c =
      value_or_none
        (min_by (λ a b. is_farther new_c a.0 b.0) (filter (λ a. is_near new_c a.0) candidates))

  module _ (coords_iter : Geometry → List Coord) where
    unfoldable pub match_nearest : Geometry → List ZmValue → Geometry → List ZmValue
    match_nearest original original_zm repaired =
        map (match_one (zip (coords_iter original) original_zm)) (coords_iter repaired)

    unfoldable pub preserve_zm : Geometry → List ZmValue → Geometry → List ZmValue
    preserve_zm original original_zm repaired =
        let orig_count = count_coords original in
        let repaired_count = count_coords repaired in
        if not (length original_zm == orig_count)
        then replicate repaired_count no_zm
        else if (orig_count == repaired_count) && topology_unchanged original repaired
        then original_zm
        else match_nearest original original_zm repaired

    unfoldable pub zm_pairs : Geometry → List ZmValue → List (Coord × ZmValue)
    zm_pairs g zm = zip (coords_iter g) zm
