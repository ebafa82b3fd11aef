-- ===== src/Nesting.antt =====
-- structure/nesting.rs: how `resolve_nesting` sorts the holes of a shell by depth. An array that the
-- source indexes out of bounds is a panic there: here a read gives the default and a write nothing.
mod Kids
mod Link
mod Visit
mod Round
pub mod Depths
mod Split
pub mod Parent
pub mod Resolve
pub mod Shell
mod Tests
pub mod Levels
use geo_repair.Prelude.{
  ℕ, zero, suc, ◌+◌, ◌%◌, Bool, true, false, not, ◌&&◌, ◌||◌, List, [], ◌∷◌, ◌++◌, Option, none,
  some, map, length, filter, replicate, range_from, get_or, set, ltb, leb, ◌==◌, if◌then◌else◌,
}
use geo_repair.Geo.{Coord, LineString, Polygon, Platform, polygon_new}
use geo_repair.Floats.{Floats}
use geo_repair.Rings.{shoelace_sum, point_in_ring_exclusive}

-- `env` is given by the corners that `AABB::from_corners` takes.
pub record HoleEnv : Type 0 where
  pub idx : ℕ
  pub lower : Coord
  pub upper : Coord
  pub area : ℕ

-- The arrays of the search. `queue` is what the source's queue holds from `head` on.
pub record Forest : Type 0 where
  pub depth : List ℕ
  pub children : List (List ℕ)
  pub queue : List ℕ

abbrev pub blank : ℕ → Forest
blank n = record { depth = replicate n 0; children = replicate n []; queue = [] }

unfoldable pub link : ℕ → Option ℕ → Forest → Forest
link i (some p) s = record s { children = set s.children p (get_or s.children p [] ++ i ∷ []) }
link i none s = record s { depth = set s.depth i 1; queue = s.queue ++ i ∷ [] }

unfoldable pub link_all : ℕ → List (Option ℕ) → Forest → Forest
link_all i [] s = s
link_all i (p ∷ ps) s = link_all (suc i) ps (link i p s)

-- the loop over `children[p]`
unfoldable pub visit : ℕ → List ℕ → Forest → Forest
visit p [] s = s
visit p (child ∷ cs) s =
    visit p cs (record s {
      depth = set s.depth child (get_or s.depth p 0 + 1);
      queue = s.queue ++ child ∷ [];
    })

unfoldable pub pop : Forest → ℕ → List ℕ → Forest
pop s p rest = visit p (get_or s.children p []) (record s { queue = rest })

-- the `while` loop, on fuel
unfoldable pub descend : ℕ → Forest → Option (List ℕ)
descend zero s = elim s.queue [ [] ↦ some s.depth | _ ∷ _ ↦ none ]
descend (suc fuel) s = elim s.queue [ [] ↦ some s.depth | p ∷ rest ↦ descend fuel (pop s p rest) ]

unfoldable pub levels : List (Option ℕ) → Option (List ℕ)
levels parent_of = descend (length parent_of) (link_all 0 parent_of (blank (length parent_of)))

-- the holes to subtract and those that become islands
unfoldable pub split_levels : ℕ → List ℕ → List ℕ × List ℕ
split_levels i [] = ([], [])
split_levels i (d ∷ ds) =
    let rest = split_levels (suc i) ds in
    if d == 0 || d % 2 == 1 then (i ∷ rest.0, rest.1) else (rest.0, i ∷ rest.1)

abbrev pub is_child : List (Option ℕ) → ℕ → ℕ → Bool
is_child parent_of p j = elim (get_or parent_of j none) [ none ↦ false | some q ↦ q == p ]

-- the holes that are interior rings of the island `ii`
unfoldable pub island_holes : List (Option ℕ) → List ℕ → ℕ → List ℕ
island_holes parent_of depth ii =
    filter
      (λ j.
        is_child parent_of ii j
        && ltb (get_or depth ii 0) (get_or depth j 0)
        && get_or depth j 0 % 2 == 1)
      (range_from 0 (length parent_of))

-- `f64::MAX`
abbrev pub float_max : ℕ
float_max = 0x7fef_ffff_ffff_ffff

-- `2.0`
abbrev pub float_two : ℕ
float_two = 0x4000_0000_0000_0000

-- `locate` gives the entries of a tree that `locate_in_envelope_intersecting_int` visits for the
-- envelope of a point.
module _ (f : Floats) (locate : List HoleEnv → Coord → List HoleEnv) where
  unfoldable pub fold_corners : List Coord → Coord × Coord → Coord × Coord
  fold_corners [] b = b
  fold_corners (c ∷ cs) b = fold_corners cs (
    record { x = f.min b.0.x c.x; y = f.min b.0.y c.y },
    record { x = f.max b.1.x c.x; y = f.max b.1.y c.y },
  )

  unfoldable pub hole_env : ℕ → LineString → Option HoleEnv
  hole_env i [] = none
  hole_env i (first ∷ cs) =
      let b = fold_corners (first ∷ cs) (first, first) in
      some (record {
        idx = i;
        lower = b.0;
        upper = b.1;
        area = f.div (f.abs (shoelace_sum f (first ∷ cs))) float_two;
      })

  unfoldable pub hole_envs : ℕ → List LineString → List HoleEnv
  hole_envs i [] = []
  hole_envs i (h ∷ hs) =
      let rest = hole_envs (suc i) hs in elim (hole_env i h) [ none ↦ rest | some e ↦ e ∷ rest ]

  -- the visitor's `best` and `best_area`
  unfoldable pub smallest_around :
      List LineString → ℕ → Coord → List HoleEnv → Option ℕ → ℕ → Option ℕ
  smallest_around holes j pt [] best best_area = best
  smallest_around holes j pt (c ∷ cs) best best_area =
      let found =
        not (c.idx == j)
        && point_in_ring_exclusive f pt (get_or holes c.idx [])
        && f.lt c.area best_area in
      smallest_around holes j pt cs (if found then some c.idx else best)
        (if found then c.area else best_area)

  unfoldable pub find_parent : List LineString → ℕ → Option ℕ
  find_parent holes j = elim (get_or holes j []) [
    | [] ↦ none
    | pt ∷ _ ↦ smallest_around holes j pt (locate (hole_envs 0 holes) pt) none float_max
  ]

  unfoldable pub parents : List LineString → List (Option ℕ)
  parents holes = map (find_parent holes) (range_from 0 (length holes))

  abbrev pub hole_at : List LineString → ℕ → LineString
  hole_at holes i = get_or holes i []

  unfoldable pub resolve_nesting :
      Platform → List LineString → Option (List LineString × List Polygon)
  resolve_nesting p holes =
      if leb (length holes) 1 then some (holes, []) else elim (levels (parents holes)) [
        | none ↦ none
        | some depth ↦
            let parts = split_levels 0 depth in
            some (
              map (hole_at holes) parts.0,
              map
                  (λ ii.
                    polygon_new p (hole_at holes ii)
                      (map (hole_at holes) (island_holes (parents holes) depth ii)))
                  parts.1,
            )
      ]
