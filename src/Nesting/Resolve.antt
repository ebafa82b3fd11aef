-- ===== src/Nesting/Resolve.antt =====
-- What `resolve_nesting` returns, by the depths of the holes.
use geo_repair.Prelude.{
  ℕ, zero, suc, ◌+◌, ◌<◌, ◌≤◌, ◌%◌, ◌≡◌, refl, sym, ap, ◌∙◌, ◌↔◌, inl, inr, Bool, true, false, List,
  [], ◌∷◌, Option, some, arith, length, length-map, length-range_from, range_from, get_or, map,
  map_ext, Bool-cases, leb-false,
}
use mathlib.Core.List.{Memᴰ}
use mathlib.Core.Path.{subst}
use geo_repair.Geo.{Coord, LineString, Polygon, Platform, polygon_new}
use geo_repair.Floats.{Floats}
use geo_repair.Nesting.{
  HoleEnv, levels, split_levels, island_holes, parents, hole_at, resolve_nesting, find_parent,
}
use geo_repair.Nesting.Kids.{kids_from}
use geo_repair.Nesting.Levels.{Level, below, kids_from-parent, parent-bound}
use geo_repair.Nesting.Depths.{levels_lem}
use geo_repair.Nesting.Split.{
  is_subtracted, Sorted, length-split_levels, split_levels_sound, split_levels_complete,
  island_holes-kids_from,
}

get_or-bound : (xs : List ℕ) (i d : ℕ) → get_or xs i 0 ≡ suc d → i < length xs
get_or-bound [] i d e = absurd (omega (arith, e))
get_or-bound (x ∷ xs) zero d e = omega arith
get_or-bound (x ∷ xs) (suc i) d e = omega (arith, get_or-bound xs i d e)

module _ (ps : List (Option ℕ)) where
  -- a hole at an even depth
  abbrev pub IsIsland : ℕ → Type 0
  IsIsland i = (d : ℕ) × Level ps i (suc d) × (suc d % 2 ≡ 0)

  module _ (depth : List ℕ) (size : length depth ≡ length ps)
      (found : (i d : ℕ) → (get_or depth i 0 ≡ suc d) ↔ Level ps i (suc d)) where
    island-depth : (d : ℕ) → is_subtracted d ≡ false → (k : ℕ) × (d ≡ suc k) × (suc k % 2 ≡ 0)
    island-depth zero e = absurd (ground arith)
    island-depth (suc k) e = (k, refl, ground arith)

    even-depth : (k : ℕ) → suc k % 2 ≡ 0 → is_subtracted (suc k) ≡ false
    even-depth k e = ground arith

    IsIsland-Level : (i : ℕ) → is_subtracted (get_or depth i 0) ≡ false → IsIsland i
    IsIsland-Level i e =
        let (k, at, even) = island-depth (get_or depth i 0) e in (k, (found i k).0 at, even)

    Level_island : (i : ℕ) → IsIsland i → is_subtracted (get_or depth i 0) ≡ false
    Level_island i (d, level, even) =
        subst (λ x. is_subtracted x ≡ false) (sym ((found i d).1 level)) (even-depth d even)

    Sorted-at :
        (side : Bool) (i : ℕ)
        → Sorted side 0 depth i
        → (i < length ps) × (is_subtracted (get_or depth i 0) ≡ side)
    Sorted-at side i (k, at, bound, e) = (
      omega (arith, at, bound, size),
      subst (λ x. is_subtracted (get_or depth x 0) ≡ side) (omega (arith, at)) e,
    )

    islands-IsIsland : (i : ℕ) → Memᴰ i (split_levels 0 depth).1 ↔ IsIsland i
    islands-IsIsland i = (
      λ m. IsIsland-Level i (Sorted-at false i ((split_levels_sound 0 depth i).1 m)).1,
      λ h.
          (split_levels_complete 0 depth i i (omega arith)
              (get_or-bound depth i h.0 ((found i h.0).1 h.1))).1
            (Level_island i h),
    )

    subtracted-IsIsland :
        (i : ℕ) → Memᴰ i (split_levels 0 depth).0 ↔ ((i < length ps) × ¬ IsIsland i)
    subtracted-IsIsland i = (
      λ m.
          let (bound, odd) = Sorted-at true i ((split_levels_sound 0 depth i).0 m) in
          (bound, λ h. let even = Level_island i h in absurd (cc)),
      λ h. elim (Bool-cases (is_subtracted (get_or depth i 0))) [
        | inl odd ↦
            (split_levels_complete 0 depth i i (omega arith) (omega (arith, h.0, size))).0 odd
        | inr even ↦ absurd (h.1 (IsIsland-Level i even))
      ],
    )

    kids-subtracted :
        (ii j : ℕ)
        → Memᴰ ii (split_levels 0 depth).1
        → Memᴰ j (kids_from 0 ps ii)
        → Memᴰ j (split_levels 0 depth).0
    kids-subtracted ii j m k =
        let (d, level, even) = (islands-IsIsland ii).0 m in
        let child = kids_from-parent ps ii j k in
        (subtracted-IsIsland j).1 (
          parent-bound ps j ii child,
          λ h.
              omega
                (arith, (found j (suc d)).1 (below child level), (found j h.0).1 h.1, even, h.2),
        )

    islands-kids_from :
        (ii : ℕ) → Memᴰ ii (split_levels 0 depth).1 → island_holes ps depth ii ≡ kids_from 0 ps ii
    islands-kids_from ii m =
        let (_, even) = Sorted-at false ii ((split_levels_sound 0 depth ii).1 m) in
        let (d, level, _) = IsIsland-Level ii even in
        island_holes-kids_from ps depth ii even
          (λ j child. (found j (suc d)).1 (below child level) ∙ ap suc (sym ((found ii d).1 level)))

module _ (f : Floats) (locate : List HoleEnv → Coord → List HoleEnv) (p : Platform) where
  -- the parts that are returned for the holes `outer` and `inner`
  abbrev pub parts_of : List LineString → List ℕ → List ℕ → List LineString × List Polygon
  parts_of holes outer inner = (
    map (hole_at f locate holes) outer,
    map
        (λ ii.
          polygon_new p (hole_at f locate holes ii)
            (map (hole_at f locate holes) (kids_from 0 (parents f locate holes) ii)))
        inner,
  )

  resolve_nesting-parts_of :
      (holes : List LineString) (depth : List ℕ)
      → 2 ≤ length holes
      → levels (parents f locate holes) ≡ some depth
      → ((ii : ℕ)
          → Memᴰ ii (split_levels 0 depth).1
          → island_holes (parents f locate holes) depth ii
            ≡ kids_from 0 (parents f locate holes) ii)
      → resolve_nesting f locate p holes
        ≡ some (parts_of holes (split_levels 0 depth).0 (split_levels 0 depth).1)
  unfolding resolve_nesting
  resolve_nesting-parts_of holes depth several ends interiors =
      rw (leb-false (length holes) 1 several, ends)
        (ap (λ islands. some (map (hole_at f locate holes) (split_levels 0 depth).0, islands))
          (map_ext _ _ (split_levels 0 depth).1 (λ ii m.
            ap (λ ks. polygon_new p (hole_at f locate holes ii) (map (hole_at f locate holes) ks))
              (interiors ii m))))

  -- For two holes or more the code returns the holes `outer` to be subtracted and a polygon for each
  -- of the holes `inner`. `inner` are the holes at even depths, `outer` all others: those at odd depths,
  -- deeper ones as well, and those without a depth. No hole is in both, and their numbers add up. The
  -- interior rings of an island are the holes whose parent it is, and each of them is in `outer` too, so
  -- that the code returns a hole at depth 3 twice, where its doc has it as an interior ring only.
  pub resolve_nesting_lem :
      (holes : List LineString)
      → 2 ≤ length holes
      → (outer : List ℕ) × (inner : List ℕ) × (resolve_nesting f locate p holes
          ≡ some (parts_of holes outer inner))
        × ((i : ℕ) → Memᴰ i inner ↔ IsIsland (parents f locate holes) i)
        × ((i : ℕ) → Memᴰ i outer ↔ ((i < length holes) × ¬ IsIsland (parents f locate holes) i))
        × (length outer + length inner ≡ length holes)
        × ((ii j : ℕ)
            → Memᴰ ii inner
            → Memᴰ j (kids_from 0 (parents f locate holes) ii)
            → Memᴰ j outer)
  unfolding parents
  resolve_nesting_lem holes several =
      let ps = parents f locate holes in
      let (depth, ends, size, found) = levels_lem ps in
      let parts = split_levels 0 depth in
      let count =
        length-map (find_parent f locate holes) (range_from 0 (length holes))
        ∙ length-range_from 0 (length holes) in
      (
        parts.0,
        parts.1,
        resolve_nesting-parts_of holes depth several ends (islands-kids_from ps depth size found),
        islands-IsIsland ps depth size found,
        subst (λ n. (i : ℕ) → Memᴰ i parts.0 ↔ ((i < n) × ¬ IsIsland ps i)) count
            (subtracted-IsIsland ps depth size found),
        length-split_levels 0 depth ∙ size ∙ count,
        kids-subtracted ps depth size found,
      )
