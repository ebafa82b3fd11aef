-- ===== src/RingGraph/Pinch.antt =====
-- `split_face_at_pinch_points` of structure/fix_ring_graph.rs: a face is cut where it meets a vertex
-- again. The source reads the first step of a face and its edge, and panics where one is missing: that
-- is `none` here.
mod Seen
pub mod Scan
pub mod Parts
use geo_repair.Prelude.{
  ℕ, zero, suc, ◌+◌, not, ◌&&◌, List, [], ◌∷◌, ◌++◌, map, max, Option, none, some, length, take,
  drop, replicate, get_or, get_elem?, set, last_or, ltb, leb, ◌==◌, if◌then◌else◌,
}
use geo_repair.RingGraph.{Edge, Step}

-- the start of the first step
unfoldable pub start_vert : List Edge → List Step → Option ℕ
start_vert edges [] = none
start_vert edges (s ∷ _) = elim (get_elem? edges s.0) [
  | none ↦ none
  | some e ↦ some (if e.1 == s.1 then e.0 else e.1)
]

-- the first edge between two vertices, as a step from `last_to` to `start`
unfoldable pub closing_edge : ℕ → List Edge → ℕ → ℕ → Option Step
closing_edge ei [] last_to start = none
closing_edge ei (e ∷ es) last_to start =
    let rest = closing_edge (suc ei) es last_to start in
    if e.0 == last_to && e.1 == start
    then some (ei, e.1)
    else if e.1 == last_to && e.0 == start
    then some (ei, e.0)
    else rest

unfoldable pub closing_step : List Edge → ℕ → List Step → Option Step
closing_step edges start face =
    let last_to = last_or start (map (λ s. s.1) face) in
    if leb 2 (length face) && not (last_to == start)
    then closing_edge 0 edges last_to start
    else none

abbrev pub max_of : ℕ → List ℕ → ℕ
max_of m [] = m
max_of m (v ∷ vs) = max_of (max m v) vs

-- the first vertex that is met again: where it was first seen, and where it is met; none in a face
-- of less than three steps
unfoldable pub find_pinch : ℕ → ℕ → List ℕ → List (Option ℕ) → Option (ℕ × ℕ)
find_pinch n j [] first_seen = none
find_pinch n j (v ∷ vs) first_seen =
    let again = find_pinch n (suc j) vs first_seen in
    let later = find_pinch n (suc j) vs (set first_seen v (some (j + 1))) in
    elim (get_or first_seen v none) [
      | none ↦ later
      | some i ↦ if i == 0 && suc j == n then again else some (i, j)
    ]

unfoldable pub pinch_of : ℕ → List Step → Option (ℕ × ℕ)
pinch_of start face =
    let to_verts = map (λ s. s.1) face in
    if ltb (length face) 3
    then none
    else find_pinch (length face) 0 to_verts
        (set (replicate (suc (max_of start to_verts)) none) start (some 0))

-- `sub1` and `sub2`
unfoldable pub cut : List Step → ℕ → ℕ → List Step × List Step
cut face i j =
    if i == 0
    then (take (suc j) face, drop (suc j) face)
    else (drop (suc i) (take (suc j) face), drop (suc j) face ++ take (suc i) face)

-- `result.extend`
abbrev pub both_parts :
    Option (List (List Step)) → Option (List (List Step)) → Option (List (List Step))
both_parts none second = none
both_parts (some parts) none = none
both_parts (some parts) (some more) = some (parts ++ more)

unfoldable pub split_face_at_pinch_points_depth :
    ℕ → List Edge → List Step → Option (List (List Step))
split_face_at_pinch_points_depth zero edges face = some (face ∷ [])
split_face_at_pinch_points_depth (suc depth) edges face = elim (start_vert edges face) [
  | none ↦ none
  | some start ↦ elim (closing_step edges start face) [
    | some s ↦ split_face_at_pinch_points_depth depth edges (face ++ s ∷ [])
    | none ↦ elim (pinch_of start face) [
      | none ↦ some (face ∷ [])
      | some (i, j) ↦
          both_parts (split_face_at_pinch_points_depth depth edges (cut face i j).0)
            (split_face_at_pinch_points_depth depth edges (cut face i j).1)
    ]
  ]
]

unfoldable pub split_face_at_pinch_points : List Step → List Edge → Option (List (List Step))
split_face_at_pinch_points face edges = split_face_at_pinch_points_depth 64 edges face
