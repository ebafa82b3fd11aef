-- ===== src/RingGraph.antt =====
-- structure/fix_ring_graph.rs: the graph of a ring's noded lines and `extract_all_faces_geos`. A
-- directed edge is a number below twice the edges: `e` for an edge forward, `n_edges + e` for it
-- backward. A `SmallVec` is a list. A read out of bounds, a panic in the source, gives a default,
-- but that of a vertex's adjacency list, which ends the extraction with `none`.
pub mod Walk
mod Links
pub mod Faces
pub mod Build
pub mod Pinch
mod Tests
use geo_repair.Prelude.{
  ℕ, zero, suc, ◌+◌, ◌*◌, ◌%◌, Bool, true, false, not, ◌&&◌, ◌||◌, List, [], ◌∷◌, ◌++◌, Option,
  none, some, reverse, length, replicate, get_or, get_elem?, set, any, last_or, range_from, ltb,
  leb, ◌==◌, if◌then◌else◌,
}
use geo_repair.Geo.{Coord}

abbrev pub Edge : Type 0
Edge = ℕ × ℕ

-- an edge and the end that the face goes to
abbrev pub Step : Type 0
Step = ℕ × ℕ

pub record Graph : Type 0 where
  pub verts : List Coord
  pub edges : List Edge
  pub sorted_adj : List (List (ℕ × ℕ))

abbrev pub n_edges : Graph → ℕ
n_edges g = length g.edges

abbrev pub edge_at : Graph → ℕ → Edge
edge_at g e = get_or g.edges e (0, 0)

unfoldable pub dir_at_v : Graph → ℕ → ℕ → ℕ × ℕ
dir_at_v g e v = if (edge_at g e).0 == v then (e, n_edges g + e) else (n_edges g + e, e)

-- step 1, at a node: each edge in and the edge out that follows its predecessor
unfoldable pub link_next : Graph → ℕ → ℕ → List (ℕ × ℕ) → List ℕ → List ℕ
link_next g v e_prev [] next = next
link_next g v e_prev (curr ∷ rest) next =
    link_next g v curr.1 rest (set next (dir_at_v g e_prev v).1 (dir_at_v g curr.1 v).0)

-- a node of one edge is the case where that edge is its own predecessor
unfoldable pub link_node : Graph → ℕ → List (ℕ × ℕ) → List ℕ → List ℕ
link_node g v [] next = next
link_node g v (a ∷ neighbors) next = link_next g v (last_or a neighbors).1 (a ∷ neighbors) next

unfoldable pub link_nodes : Graph → ℕ → List (List (ℕ × ℕ)) → List ℕ → List ℕ
link_nodes g v [] next = next
link_nodes g v (neighbors ∷ rest) next = link_nodes g (suc v) rest (link_node g v neighbors next)

unfoldable pub next_cw : Graph → List ℕ
next_cw g = link_nodes g 0 g.sorted_adj (replicate (n_edges g * 2) 0)

abbrev is_labelled : Option ℕ → Bool
is_labelled none = false
is_labelled (some _) = true

-- step 2: a label is `none` for the source's -1; `count` is `ring.len()`. On fuel.
unfoldable pub label_ring :
    ℕ → ℕ → List ℕ → ℕ → ℕ → ℕ → ℕ → List (Option ℕ) → Option (List (Option ℕ))
label_ring zero n next next_label start cur count label = none
label_ring (suc fuel) n next next_label start cur count label =
    let label' = set label cur (some next_label) in
    let nxt = get_or next cur 0 in
    let rest = label_ring fuel n next next_label start nxt (suc count) label' in
    if is_labelled (get_or label cur none)
    then some label
    else if nxt == cur || nxt == start || ltb (n * 2) (suc count)
    then some label'
    else rest

-- one ring more than there are directed edges is enough fuel
abbrev pub ring_fuel : ℕ → ℕ
ring_fuel n = suc (n * 2)

unfoldable pub label_rings : ℕ → List ℕ → ℕ → List ℕ → List (Option ℕ) → Option (List (Option ℕ))
label_rings n next next_label [] label = some label
label_rings n next next_label (start ∷ starts) label =
    if is_labelled (get_or label start none)
    then label_rings n next next_label starts label
    else elim (label_ring (ring_fuel n) n next next_label start start 0 label) [
      | none ↦ none
      | some label' ↦ label_rings n next (suc next_label) starts label'
    ]

-- step 3: the labels at a node, and for each the edges in that are linked to edges out
unfoldable pub add_label : Option ℕ → List ℕ → List ℕ
add_label none labels = labels
add_label (some l) labels = if any (λ k. k == l) labels then labels else labels ++ l ∷ []

unfoldable pub labels_at_node : Graph → List (Option ℕ) → ℕ → List (ℕ × ℕ) → List ℕ → List ℕ
labels_at_node g label v [] labels = labels
labels_at_node g label v (a ∷ rest) labels =
    let (de, sym_de) = dir_at_v g a.1 v in
    labels_at_node g label v rest
      (add_label (get_or label sym_de none) (add_label (get_or label de none) labels))

pub record Scan : Type 0 where
  pub first_out : Option ℕ
  pub prev_in : Option ℕ
  pub ccw_next : List ℕ

abbrev has_label : List (Option ℕ) → ℕ → ℕ → Bool
has_label label l d = elim (get_or label d none) [ none ↦ false | some k ↦ k == l ]

abbrev set_at : List ℕ → Option ℕ → ℕ → List ℕ
set_at xs none d = xs
set_at xs (some i) d = set xs i d

abbrev or_some : Option ℕ → ℕ → Option ℕ
or_some none d = some d
or_some (some i) d = some i

unfoldable pub scan_out : ℕ → Scan → Scan
scan_out de s = record {
  first_out = or_some s.first_out de;
  prev_in = none;
  ccw_next = set_at s.ccw_next s.prev_in de;
}

unfoldable pub scan_edges : Graph → List (Option ℕ) → ℕ → ℕ → List (ℕ × ℕ) → Scan → Scan
scan_edges g label v l [] s = s
scan_edges g label v l (a ∷ rest) s =
    let (de, sym_de) = dir_at_v g a.1 v in
    let s' = if has_label label l sym_de then record s { prev_in = some sym_de } else s in
    scan_edges g label v l rest (if has_label label l de then scan_out de s' else s')

unfoldable pub close_scan : Scan → List ℕ
close_scan s = elim s.first_out [ none ↦ s.ccw_next | some fo ↦ set_at s.ccw_next s.prev_in fo ]

unfoldable pub link_labels : Graph → List (Option ℕ) → ℕ → List (ℕ × ℕ) → List ℕ → List ℕ → List ℕ
link_labels g label v neighbors [] ccw_next = ccw_next
link_labels g label v neighbors (l ∷ ls) ccw_next = link_labels g label v neighbors ls (
    close_scan (
      scan_edges g label v l (reverse neighbors)
        (record { first_out = none; prev_in = none; ccw_next = ccw_next })))

-- `none` where a vertex has no adjacency list, on which the source panics
unfoldable pub ccw_nodes : Graph → List (Option ℕ) → List ℕ → List ℕ → Option (List ℕ)
ccw_nodes g label [] ccw_next = some ccw_next
ccw_nodes g label (v ∷ vs) ccw_next = elim (get_elem? g.sorted_adj v) [
  | none ↦ none
  | some neighbors ↦ ccw_nodes g label vs (
      if ltb (length neighbors) 2
      then ccw_next
      else link_labels g label v neighbors (labels_at_node g label v neighbors []) ccw_next)
]

-- `Option.map`
abbrev option_map {ℓ κ} : {A : Type ℓ} {B : Type κ} → (A → B) → Option A → Option B
option_map f none = none
option_map f (some x) = some (f x)

-- step 4: `face.push` for a directed edge
unfoldable pub step_of : Graph → ℕ → Step
step_of g cur =
    let e = cur % n_edges g in (e, if ltb cur (n_edges g) then (edge_at g e).1 else (edge_at g e).0)

unfoldable pub walk_ring :
    ℕ → Graph → List ℕ → ℕ → ℕ → List Bool → List Step → Option (List Bool × List Step)
walk_ring zero g ccw_next start cur used face = none
walk_ring (suc fuel) g ccw_next start cur used face =
    let used' = set used cur true in
    let face' = face ++ step_of g cur ∷ [] in
    let nxt = get_or ccw_next cur 0 in
    let rest = walk_ring fuel g ccw_next start nxt used' face' in
    if get_or used cur false
    then some (used, face)
    else if nxt == cur || nxt == start || ltb (n_edges g * 2) (length face')
    then some (used', face')
    else rest

unfoldable pub collect_faces : Graph → List ℕ → List ℕ → List Bool → Option (List (List Step))
collect_faces g ccw_next [] used = some []
collect_faces g ccw_next (start ∷ starts) used =
    if get_or used start false
    then collect_faces g ccw_next starts used
    else elim (walk_ring (ring_fuel (n_edges g)) g ccw_next start start used []) [
      | none ↦ none
      | some found ↦ elim (collect_faces g ccw_next starts found.0) [
        | none ↦ none
        | some faces ↦ some (if leb 3 (length found.1) then found.1 ∷ faces else faces)
      ]
    ]

unfoldable pub label_all : Graph → Option (List (Option ℕ))
label_all g =
    label_rings (n_edges g) (next_cw g) 1 (range_from 0 (n_edges g * 2))
      (replicate (n_edges g * 2) none)

unfoldable pub ccw_next_of : Graph → List (Option ℕ) → Option (List ℕ)
ccw_next_of g label = ccw_nodes g label (range_from 0 (length g.verts)) (next_cw g)

unfoldable pub collect_all : Graph → List ℕ → Option (List (List Step))
collect_all g ccw_next =
    collect_faces g ccw_next (range_from 0 (n_edges g * 2)) (replicate (n_edges g * 2) false)

abbrev pub some_faces : List (List Step) → Option (List (List Step))
some_faces [] = none
some_faces (face ∷ faces) = some (face ∷ faces)

-- the outer `none` is for fuel that ran out or a vertex without an adjacency list
unfoldable pub extract_all_faces_geos : Graph → Option (Option (List (List Step)))
extract_all_faces_geos g = elim (label_all g) [
  | none ↦ none
  | some label ↦ elim (ccw_next_of g label) [
    | none ↦ none
    | some ccw_next ↦ option_map some_faces (collect_all g ccw_next)
  ]
]
