-- ===== src/Nesting/Shell.antt =====
-- structure/nesting.rs: the tests of a hole or a ring against a shell, and what is made of a shell that
-- collapsed.
pub mod Clear
pub mod Remnant
use geo_repair.Prelude.{
  ℕ, suc, ◌≤◌, ◌<◌, ◌≡◌, refl, sym, ap, ◌∙◌, ◌↔◌, ◌⊎◌, inl, inr, Bool, true, false, not, ◌&&◌, ◌||◌,
  List, [], ◌∷◌, Option, none, some, arith, All, length, filter, Bool-cases, ltb, ltb→lt, ltb→le,
  if◌then◌else◌,
}
use mathlib.Core.List.{Memᴰ}
use mathlib.Core.List.Memᴰ
use mathlib.Core.Path.{subst}
use geo_repair.Geo.{Coord, LineString, Geometry, point, line_string}
use geo_repair.Floats.{Floats, finite_coord, coord_eq}
use geo_repair.Rings.{ring_eps, point_in_ring_exclusive}
use geo_repair.Cleanup.{keep_from, thin}
use geo_repair.Cleanup.Kept.{Neighbours, thin-Neighbours}

-- `1.0`
abbrev pub float_one : ℕ
float_one = 0x3ff0_0000_0000_0000

abbrev all_of : (Coord → Bool) → List Coord → Bool
all_of test [] = true
all_of test (c ∷ cs) = let rest = all_of test cs in test c && rest

module _ (f : Floats) where
  -- `t.clamp(0.0, 1.0)`
  unfoldable pub clamp_unit : ℕ → ℕ
  clamp_unit t =
      let low = if f.lt t 0 then 0 else t in if f.lt float_one low then float_one else low

  -- within `1e-12 * len2` of a segment, which a segment of no length is not tested for
  unfoldable pub touches_segment : Coord → Coord → Coord → Bool
  touches_segment pt a b =
      let dx = f.sub b.x a.x in
      let dy = f.sub b.y a.y in
      let len2 = f.add (f.mul dx dx) (f.mul dy dy) in
      let t =
        clamp_unit (f.div (f.add (f.mul (f.sub pt.x a.x) dx) (f.mul (f.sub pt.y a.y) dy)) len2) in
      let px = f.add a.x (f.mul t dx) in
      let py = f.add a.y (f.mul t dy) in
      let d2 =
        f.add (f.mul (f.sub pt.x px) (f.sub pt.x px)) (f.mul (f.sub pt.y py) (f.sub pt.y py)) in
      not (coord_eq f a b) && not (f.eq len2 0) && f.le d2 (f.mul ring_eps len2)

  unfoldable pub touches_ring : Coord → List Coord → Bool
  touches_ring pt [] = false
  touches_ring pt (a ∷ []) = false
  touches_ring pt (a ∷ b ∷ cs) = touches_segment pt a b || touches_ring pt (b ∷ cs)

  unfoldable pub some_outside : List Coord → List Coord → Bool
  some_outside ring [] = false
  some_outside ring (pt ∷ pts) =
      let rest = some_outside ring pts in
      if point_in_ring_exclusive f pt ring
      then rest
      else if touches_ring pt ring
      then rest
      else true

  unfoldable pub hole_vertex_strictly_outside : LineString → LineString → Bool
  hole_vertex_strictly_outside hole shell =
      if ltb (length shell) 4 then false else some_outside shell hole

  unfoldable pub all_vertices_inside_ring : List Coord → List Coord → Bool
  all_vertices_inside_ring inner outer =
      if ltb (length inner) 4 || ltb (length outer) 4
      then false
      else all_of (λ pt. point_in_ring_exclusive f pt outer) inner

  abbrev pub point_or_line : List Coord → Option Geometry
  point_or_line [] = some (line_string [])
  point_or_line (c ∷ []) = some (point c)
  point_or_line (c ∷ d ∷ cs) = some (line_string (c ∷ d ∷ cs))

  abbrev pub collapse_of : List Coord → Option Geometry
  collapse_of [] = none
  collapse_of (c ∷ []) = some (point c)
  collapse_of (c ∷ d ∷ cs) = point_or_line (thin (coord_eq f) (c ∷ d ∷ cs))

  unfoldable pub handle_collapse_result : LineString → Option Geometry
  handle_collapse_result exterior = collapse_of (filter finite_coord exterior)
