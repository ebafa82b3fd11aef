-- ===== src/RingGraph/Build/Sound.antt =====
-- The graph that `build_graph` of fix_ring_graph.rs makes is one that the face walks can take.
use geo_repair.Prelude.{
  Option-cases, insert_by, sort_onto, ℕ, suc, ◌+◌, ◌*◌, ◌<◌, ◌≤◌, ◌≡◌, ◌≢◌, refl, ap, ◌∙◌, inl, inr,
  Bool, ◌&&◌, List, [], ◌∷◌, ◌++◌, Option, none, some, arith, All, All-append, All-get_or, All-set,
  All-replicate, length, length-append, length-set, length-replicate, replicate, get_or, sum_by,
  Bool-cases, ◌==◌, ==_false, if◌then◌else◌,
}
use mathlib.Core.Option.{some-injective}
use geo_repair.Geo.{Coord}
use geo_repair.Floats.{Floats}
use geo_repair.RingGraph.{Step, Edge, n_edges, extract_all_faces_geos}
use geo_repair.RingGraph.Links.{IsGraph}
use geo_repair.RingGraph.Faces.{IsFace, faces_of, extract_all_faces_geos_lem}
use geo_repair.RingGraph.Build.{
  Key, Segment, Casts, Vertices, look_up, push_at, link_edges, angle_less, snap_key, key_to_coord,
  get_vert, add_lines, sort_adj, build_graph,
}

-- the map's indices are those of vertices
abbrev IsMapped : Vertices → Type 0
IsMapped s = All (λ e. e.1 < length s.verts) s.key_to_idx

-- an edge between two vertices
abbrev pub IsEdge : ℕ → Edge → Type 0
IsEdge n e = (e.0 < n) × (e.1 < n) × (e.0 ≢ e.1)

look_up-bound :
    (key : Key) (n i : ℕ) (entries : List (Key × ℕ))
    → All (λ e. e.1 < n) entries
    → look_up key entries ≡ some i
    → i < n
look_up-bound key n i [] h = λ e. absurd (cc)
look_up-bound key n i (entry ∷ entries) (bound, h) =
    elim (Bool-cases (entry.0.0 == key.0 && entry.0.1 == key.1)) [
      | inl found ↦ rw found (λ e. omega (arith, bound, some-injective entry.1 i e))
      | inr other ↦ rw other (look_up-bound key n i entries h)
    ]

All-weaken :
    (m n : ℕ) (entries : List (Key × ℕ))
    → m ≤ n
    → All (λ e. e.1 < m) entries
    → All (λ e. e.1 < n) entries
All-weaken m n [] le h = tt
All-weaken m n (e ∷ es) le (p, h) = (omega (arith, p), All-weaken m n es le h)

module _ (f : Floats) (casts : Casts) where
  -- a vertex of the state behind, which has all vertices of the one before
  record Got (s : Vertices) (result : ℕ × Vertices) : Type 0 where
    here : result.0 < length result.1.verts
    more : length s.verts ≤ length result.1.verts
    mapped : IsMapped result.1

  get_vert_old :
      (c : Coord) (s : Vertices) (i : ℕ)
      → look_up (snap_key f casts c) s.key_to_idx ≡ some i
      → get_vert f casts c s ≡ (i, s)
  unfolding get_vert
  get_vert_old c s i e = rw (e, get_vert) refl

  get_vert_new :
      (c : Coord) (s : Vertices)
      → look_up (snap_key f casts c) s.key_to_idx ≡ none
      → get_vert f casts c s ≡ (
        length s.verts,
        record {
          key_to_idx = (snap_key f casts c, length s.verts) ∷ s.key_to_idx;
          verts = s.verts ++ key_to_coord f casts (snap_key f casts c) ∷ [];
        },
      )
  unfolding get_vert
  get_vert_new c s e = rw (e, get_vert) refl

  get_vert-Got : (c : Coord) (s : Vertices) → IsMapped s → Got s (get_vert f casts c s)
  get_vert-Got c s h = elim (Option-cases (look_up (snap_key f casts c) s.key_to_idx)) [
    | inl new ↦
        let longer = length-append s.verts (key_to_coord f casts (snap_key f casts c) ∷ []) in
        rw (get_vert_new c s new) (record {
          here = omega (arith, longer);
          more = omega (arith, longer);
          mapped = (
            omega (arith, longer),
            All-weaken (length s.verts) _ s.key_to_idx (omega (arith, longer)) h,
          );
        })
    | inr (i, old) ↦ rw (get_vert_old c s i old) (record {
      here = look_up-bound (snap_key f casts c) (length s.verts) i s.key_to_idx h old;
      more = omega arith;
      mapped = h;
    })
  ]

  -- the edges that lines add
  record Added (s : Vertices) (lines : List Segment) (result : Vertices × List Edge) : Type 0 where
    more : length s.verts ≤ length result.0.verts
    edges : All (IsEdge (length result.0.verts)) result.1
    count : length result.1 ≤ length lines

  keep_edge :
      (n fi ti : ℕ) (es : List Edge)
      → fi < n
      → ti < n
      → All (IsEdge n) es
      → All (IsEdge n) (if fi == ti then es else (fi, ti) ∷ es)
  keep_edge n fi ti es p q h = elim (Bool-cases (fi == ti)) [
    | inl same ↦ rw same h
    | inr apart ↦ rw apart ((p, q, ==_false fi ti apart), h)
  ]

  keep_edge_count :
      (fi ti n : ℕ) (es : List Edge)
      → length es ≤ n
      → length (if fi == ti then es else (fi, ti) ∷ es) ≤ suc n
  keep_edge_count fi ti n es h = elim (Bool-cases (fi == ti)) [
    | inl same ↦ rw same (omega arith)
    | inr apart ↦ rw apart (omega arith)
  ]

  add_lines-Added :
      (lines : List Segment) (s : Vertices) → IsMapped s → Added s lines (add_lines f casts lines s)
  unfolding add_lines
  add_lines-Added [] s h = record { more = omega arith; edges = tt; count = omega arith }
  add_lines-Added (line ∷ lines) s h =
      let first = get_vert-Got line.0 s h in
      let s1 = (get_vert f casts line.0 s).1 in
      let second = get_vert-Got line.1 s1 (first.mapped) in
      let s2 = (get_vert f casts line.1 s1).1 in
      let rest = add_lines-Added lines s2 (second.mapped) in
      let fi = (get_vert f casts line.0 s).0 in
      let ti = (get_vert f casts line.1 s1).0 in
      let es = (add_lines f casts lines s2).1 in
      record {
        more = omega (arith, first.more, second.more, rest.more);
        edges =
            keep_edge _ fi ti es (omega (arith, first.here, second.more, rest.more))
              (omega (arith, second.here, rest.more)) (rest.edges);
        count = keep_edge_count fi ti (length lines) es (rest.count);
      }

module _ (g : ℕ) where
  abbrev Below : ℕ × ℕ → Type 0
  Below a = a.1 < g

  push_at-Below :
      (adj : List (List (ℕ × ℕ))) (v : ℕ) (a : ℕ × ℕ)
      → Below a
      → All (All Below) adj
      → All (All Below) (push_at adj v a)
  push_at-Below adj v a p h =
      All-set (All Below) adj v _
        (All-append Below (get_or adj v []) (a ∷ []) (All-get_or (All Below) adj v [] tt h) (p, tt))
        h

  link_edges-Below :
      (ei : ℕ) (es : List Edge) (adj : List (List (ℕ × ℕ)))
      → ei + length es ≤ g
      → All (All Below) adj
      → All (All Below) (link_edges ei es adj)
  unfolding link_edges
  link_edges-Below ei [] adj h k = k
  link_edges-Below ei (e ∷ es) adj h k = link_edges-Below (suc ei) es _ (omega arith) (
      push_at-Below (push_at adj e.0 (e.1, ei)) e.1 (e.0, ei) (omega arith)
        (push_at-Below adj e.0 (e.1, ei) (omega arith) k))

  module _ (less : ℕ × ℕ → ℕ × ℕ → Bool) where
    insert_by-Below :
        (x : ℕ × ℕ) (ys : List (ℕ × ℕ)) → Below x → All Below ys → All Below (insert_by less x ys)
    insert_by-Below x [] p h = (p, tt)
    insert_by-Below x (y ∷ ys) p (q, h) = elim (Bool-cases (less x y)) [
      | inl before ↦ rw before (p, (q, h))
      | inr behind ↦ rw behind (q, insert_by-Below x ys p h)
    ]

    sort_onto-Below :
        (xs ys : List (ℕ × ℕ)) → All Below xs → All Below ys → All Below (sort_onto less xs ys)
    sort_onto-Below [] ys h k = k
    sort_onto-Below (x ∷ xs) ys (p, h) k =
        sort_onto-Below xs (insert_by less x ys) h (insert_by-Below x ys p k)

  sort_adj-Below :
      (f : Floats) (casts : Casts) (verts : List Coord) (vi : ℕ) (adj : List (List (ℕ × ℕ)))
      → All (All Below) adj
      → All (All Below) (sort_adj f casts verts vi adj)
  unfolding sort_adj
  sort_adj-Below f casts verts vi [] h = tt
  sort_adj-Below f casts verts vi (neighbors ∷ rest) (h, k) = (
    sort_onto-Below (angle_less f casts verts vi) neighbors [] h tt,
    sort_adj-Below f casts verts (suc vi) rest k,
  )

length-link_edges :
    (ei : ℕ) (es : List Edge) (adj : List (List (ℕ × ℕ)))
    → length (link_edges ei es adj) ≡ length adj
unfolding link_edges
length-link_edges ei [] adj = refl
length-link_edges ei (e ∷ es) adj =
    let once = push_at adj e.0 (e.1, ei) in
    length-link_edges (suc ei) es _ ∙ length-set once e.1 _ ∙ length-set adj e.0 _

length-sort_adj :
    (f : Floats) (casts : Casts) (verts : List Coord) (vi : ℕ) (adj : List (List (ℕ × ℕ)))
    → length (sort_adj f casts verts vi adj) ≡ length adj
unfolding sort_adj
length-sort_adj f casts verts vi [] = refl
length-sort_adj f casts verts vi (neighbors ∷ rest) =
    ap suc (length-sort_adj f casts verts (suc vi) rest)

module _ (f : Floats) (casts : Casts) where
  -- The graph of any lines has at most one edge for each line, each between two different vertices of
  -- the graph, and an adjacency list for each vertex; these lists name only its edges.
  pub build_graph-IsGraph :
      (lines : List Segment)
      → IsGraph (build_graph f casts lines)
        × All (IsEdge (length (build_graph f casts lines).verts)) (build_graph f casts lines).edges
        × (n_edges (build_graph f casts lines) ≤ length lines)
  unfolding build_graph
  build_graph-IsGraph lines =
      let built = add_lines-Added f casts lines (record { key_to_idx = []; verts = [] }) tt in
      let result = add_lines f casts lines (record { key_to_idx = []; verts = [] }) in
      (
        record {
          named = sort_adj-Below (length result.1) f casts result.0.verts 0 _ (
              link_edges-Below (length result.1) 0 result.1 (replicate (length result.0.verts) [])
                (omega arith)
                (All-replicate (All (Below (length result.1))) (length result.0.verts) [] tt));
          each =
              length-sort_adj f casts result.0.verts 0 _
              ∙ length-link_edges 0 result.1 (replicate (length result.0.verts) [])
              ∙ length-replicate (length result.0.verts) [];
        },
        built.edges,
        built.count,
      )

  -- For any lines the faces of their graph are found within the bound of the walks: each has three
  -- edges or more, and together they have at most twice as many steps as there are lines.
  pub extract_all_faces_geos-build_graph :
      (lines : List Segment)
      → (found : Option (List (List Step))) × (extract_all_faces_geos (build_graph f casts lines)
          ≡ some found)
        × All (IsFace (build_graph f casts lines)) (faces_of found)
        × (sum_by length (faces_of found) ≤ length lines * 2)
  extract_all_faces_geos-build_graph lines =
      let (graph, edges, few) = build_graph-IsGraph lines in
      let (found, e, faces, count) = extract_all_faces_geos_lem (build_graph f casts lines) graph in
      (found, e, faces, omega (arith, few, count))
