-- ===== src/Nesting/Tests.antt =====
-- `resolve_nesting` at two holes, of which the second lies in the first.
use geo_repair.Prelude.{
  filter, ◌≤◌, ℕ, suc, ◌+◌, ◌<◌, ◌≡◌, refl, ◌↔◌, ◌⊎◌, true, false, List, [], ◌∷◌, Option, none,
  some, All, arith, length, get_or, ltb,
}
use mathlib.Core.List.{Memᴰ}
use geo_repair.Geo.{Coord, LineString, Platform}
use geo_repair.Floats.{Floats, IsOrder}
use geo_repair.Floats.Whole.{whole}
use geo_repair.Nesting.{
  HoleEnv, levels, float_max, hole_env, hole_envs, find_parent, parents, resolve_nesting,
}
use geo_repair.Floats.{finite_coord}
use geo_repair.Nesting.Shell.{hole_vertex_strictly_outside, handle_collapse_result}
use geo_repair.Nesting.Shell.Clear.{IsClear, hole_vertex_strictly_outside_lem}
use geo_repair.Nesting.Shell.Remnant.{IsRemnant, handle_collapse_result_lem}
use geo_repair.Nesting.Kids.{kids_from}
use geo_repair.Nesting.Levels.{Level}
use geo_repair.Nesting.Depths.{levels_lem}
use geo_repair.Nesting.Parent.{encloses, Smallest, find_parent_lem}
use geo_repair.Nesting.Resolve.{IsIsland, parts_of, resolve_nesting_lem}

abbrev outer_hole : LineString
outer_hole =
    record { x = 0; y = 0 }
    ∷ record { x = 100; y = 100 }
    ∷ record { x = 0; y = 100 }
    ∷ record { x = 0; y = 0 }
    ∷ []

abbrev inner_start : Coord
inner_start = record { x = 10; y = 20 }

abbrev inner_rest : List Coord
inner_rest = record { x = 60; y = 70 } ∷ record { x = 10; y = 70 } ∷ inner_start ∷ []

abbrev two_holes : List LineString
two_holes = outer_hole ∷ (inner_start ∷ inner_rest) ∷ []

-- a tree that visits all of its entries
abbrev everywhere : List HoleEnv → Coord → List HoleEnv
everywhere es _ = es

abbrev plain : Platform
plain = record { target_le = true; nan = 0x7ff8_0000_0000_0000; close_ring = λ ring. ring }

whole-IsOrder : IsOrder ltb
whole-IsOrder = record { irreflexive = λ a. ground arith; transitive = λ a b c h k. ground arith }

inner_parent : find_parent whole everywhere two_holes 1 ≡ some 0
unfolding find_parent geo_repair.Nesting.smallest_around hole_envs geo_repair.Nesting.hole_env
    geo_repair.Rings.point_in_ring_exclusive geo_repair.Rings.on_boundary
    geo_repair.Rings.on_segment geo_repair.Rings.between geo_repair.Floats.coord_eq
    geo_repair.Rings.point_in_ring_scalar_loop geo_repair.Rings.crossing
    geo_repair.Rings.shoelace_sum geo_repair.Rings.shoelace_from
inner_parent = refl

find_parent_lem_example :
    ((find_parent whole everywhere two_holes 1 ≡ none)
      × All
          (λ c.
            encloses whole everywhere two_holes 1 inner_start c ≡ true
            → ltb c.area float_max ≡ false)
          (hole_envs whole everywhere 0 two_holes))
    ⊎ ((e : HoleEnv) × (find_parent whole everywhere two_holes 1 ≡ some e.idx)
        × Memᴰ e (hole_envs whole everywhere 0 two_holes)
        × (hole_env whole everywhere e.idx (get_or two_holes e.idx []) ≡ some e)
        × (e.idx < 2)
        × (encloses whole everywhere two_holes 1 inner_start e ≡ true)
        × (ltb e.area float_max ≡ true)
        × Smallest whole everywhere two_holes 1 inner_start
            (hole_envs whole everywhere 0 two_holes)
            e)
find_parent_lem_example =
    find_parent_lem whole everywhere two_holes 1 inner_start inner_rest whole-IsOrder (λ _ _ m. m)
      refl

-- two holes in a chain below a third, and a cycle of two
abbrev chain : List (Option ℕ)
chain = none ∷ some 0 ∷ some 1 ∷ some 4 ∷ some 3 ∷ []

chain-levels : levels chain ≡ some (1 ∷ 2 ∷ 3 ∷ 0 ∷ 0 ∷ [])
unfolding levels geo_repair.Nesting.descend geo_repair.Nesting.link_all geo_repair.Nesting.link
    geo_repair.Nesting.pop geo_repair.Nesting.visit
chain-levels = refl

levels_lem_example :
    (depth : List ℕ) × (levels chain ≡ some depth)
    × (length depth ≡ 5)
    × ((i d : ℕ) → (get_or depth i 0 ≡ suc d) ↔ Level chain i (suc d))
levels_lem_example = levels_lem chain

resolve_nesting_lem_example :
    (outer : List ℕ) × (inner : List ℕ) × (resolve_nesting whole everywhere plain two_holes
      ≡ some (parts_of whole everywhere plain two_holes outer inner))
    × ((i : ℕ) → Memᴰ i inner ↔ IsIsland (parents whole everywhere two_holes) i)
    × ((i : ℕ) → Memᴰ i outer ↔ ((i < 2) × ¬ IsIsland (parents whole everywhere two_holes) i))
    × (length outer + length inner ≡ 2)
    × ((ii j : ℕ)
        → Memᴰ ii inner
        → Memᴰ j (kids_from 0 (parents whole everywhere two_holes) ii)
        → Memᴰ j outer)
resolve_nesting_lem_example = resolve_nesting_lem whole everywhere plain two_holes (omega arith)

hole_vertex_strictly_outside_lem_example :
    (hole_vertex_strictly_outside whole (inner_start ∷ []) outer_hole ≡ true) ↔ (
      (4 ≤ length outer_hole)
      × ((pt : Coord) × Memᴰ pt (inner_start ∷ []) × IsClear whole outer_hole pt))
hole_vertex_strictly_outside_lem_example =
    hole_vertex_strictly_outside_lem whole (inner_start ∷ []) outer_hole

handle_collapse_result_lem_example :
    IsRemnant whole
      (filter finite_coord (inner_start ∷ inner_start ∷ []))
      (handle_collapse_result whole (inner_start ∷ inner_start ∷ []))
handle_collapse_result_lem_example =
    handle_collapse_result_lem whole (inner_start ∷ inner_start ∷ [])
