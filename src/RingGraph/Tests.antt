-- ===== src/RingGraph/Tests.antt =====
-- Two triangles that meet at a vertex, as a graph and as one face.
use geo_repair.Prelude.{
  ℕ, ◌*◌, ◌≤◌, ◌≡◌, refl, List, [], ◌∷◌, Option, none, some, All, arith, length, sum_by,
}
use geo_repair.Geo.{Coord}
use geo_repair.Floats.Whole.{whole}
use geo_repair.RingGraph.{Edge, Step, Graph, n_edges, extract_all_faces_geos}
use geo_repair.RingGraph.Links.{IsGraph}
use geo_repair.RingGraph.Faces.{IsFace, faces_of, extract_all_faces_geos_lem}
use geo_repair.RingGraph.Build.{Casts, Segment, build_graph}
use geo_repair.RingGraph.Build.Sound.{
  IsEdge, build_graph-IsGraph, extract_all_faces_geos-build_graph,
}
use geo_repair.RingGraph.Pinch.{cut, split_face_at_pinch_points_depth, split_face_at_pinch_points}

abbrev at : ℕ → Coord
at n = record { x = n; y = n }

-- adjacency lists of the two triangles 0 1 4 and 1 2 3
abbrev two_triangles : Graph
two_triangles = record {
  verts = at 0 ∷ at 1 ∷ at 2 ∷ at 3 ∷ at 4 ∷ [];
  edges = (0, 1) ∷ (1, 2) ∷ (2, 3) ∷ (3, 1) ∷ (1, 4) ∷ (4, 0) ∷ [];
  sorted_adj =
      ((1, 0) ∷ (4, 5) ∷ [])
      ∷ ((0, 0) ∷ (2, 1) ∷ (3, 3) ∷ (4, 4) ∷ [])
      ∷ ((1, 1) ∷ (3, 2) ∷ [])
      ∷ ((2, 2) ∷ (1, 3) ∷ [])
      ∷ ((1, 4) ∷ (0, 5) ∷ [])
      ∷ [];
}

two_triangles-IsGraph : IsGraph two_triangles
two_triangles-IsGraph = record {
  named = (
    (omega arith, (omega arith, tt)),
    (
      (omega arith, (omega arith, (omega arith, (omega arith, tt)))),
      (
        (omega arith, (omega arith, tt)),
        ((omega arith, (omega arith, tt)), ((omega arith, (omega arith, tt)), tt)),
      ),
    ),
  );
  each = refl;
}

-- without the adjacency list of a vertex
short_adjacency_panics : extract_all_faces_geos (record two_triangles { sorted_adj = [] }) ≡ none
unfolding extract_all_faces_geos geo_repair.RingGraph.label_all geo_repair.RingGraph.label_rings
    geo_repair.RingGraph.label_ring geo_repair.RingGraph.next_cw geo_repair.RingGraph.link_nodes
    geo_repair.RingGraph.ccw_next_of geo_repair.RingGraph.ccw_nodes
short_adjacency_panics = refl

extract_all_faces_geos_lem_example :
    (found : Option (List (List Step))) × (extract_all_faces_geos two_triangles ≡ some found)
    × All (IsFace two_triangles) (faces_of found)
    × (sum_by length (faces_of found) ≤ n_edges two_triangles * 2)
extract_all_faces_geos_lem_example = extract_all_faces_geos_lem two_triangles two_triangles-IsGraph

abbrev casts : Casts
casts = record { to_i64 = λ v. v; from_i64 = λ v. v; atan2 = λ y x. y }

abbrev triangle_lines : List Segment
triangle_lines = (at 1, at 2) ∷ (at 2, at 3) ∷ (at 3, at 1) ∷ []

build_graph-IsGraph_example :
    IsGraph (build_graph whole casts triangle_lines)
    × All
        (IsEdge (length (build_graph whole casts triangle_lines).verts))
        (build_graph whole casts triangle_lines).edges
    × (n_edges (build_graph whole casts triangle_lines) ≤ 3)
build_graph-IsGraph_example = build_graph-IsGraph whole casts triangle_lines

extract_all_faces_geos-build_graph_example :
    (found : Option (List (List Step))) × (extract_all_faces_geos
        (build_graph whole casts triangle_lines)
      ≡ some found)
    × All (IsFace (build_graph whole casts triangle_lines)) (faces_of found)
    × (sum_by length (faces_of found) ≤ 6)
extract_all_faces_geos-build_graph_example =
    extract_all_faces_geos-build_graph whole casts triangle_lines

abbrev figure_eight : List Step
figure_eight = (0, 1) ∷ (1, 2) ∷ (2, 3) ∷ (3, 1) ∷ (4, 4) ∷ (5, 0) ∷ []

-- next to the two triangles, the edge 1 to 2 there and back
figure_eight_split :
    split_face_at_pinch_points figure_eight two_triangles.edges
    ≡ some (
        ((2, 3) ∷ (3, 1) ∷ (1, 2) ∷ [])
        ∷ ((4, 4) ∷ (5, 0) ∷ (0, 1) ∷ [])
        ∷ ((1, 2) ∷ (1, 1) ∷ [])
        ∷ [])
unfolding split_face_at_pinch_points split_face_at_pinch_points_depth
    geo_repair.RingGraph.Pinch.closing_step geo_repair.RingGraph.Pinch.start_vert
    geo_repair.RingGraph.Pinch.pinch_of geo_repair.RingGraph.Pinch.find_pinch
    geo_repair.RingGraph.Pinch.cut geo_repair.RingGraph.Pinch.closing_edge
figure_eight_split = refl

-- the panic of the source on a face without steps
empty_face_panics : split_face_at_pinch_points [] two_triangles.edges ≡ none
unfolding split_face_at_pinch_points split_face_at_pinch_points_depth
    geo_repair.RingGraph.Pinch.start_vert
empty_face_panics = refl
