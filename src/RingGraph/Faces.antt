-- ===== src/RingGraph/Faces.antt =====
-- What `extract_all_faces_geos` of fix_ring_graph.rs returns.
use geo_repair.Prelude.{
  ℕ, zero, suc, ◌+◌, ◌*◌, ◌<◌, ◌≤◌, ◌≡◌, refl, sym, ap, ◌∙◌, inl, inr, Bool, true, false, List, [],
  ◌∷◌, Option, none, some, arith, All, length, length-replicate, get_or, replicate, range_from,
  sum_by, Bool-cases, leb, leb→le, if◌then◌else◌,
}
use mathlib.Core.Path.{subst}
use geo_repair.RingGraph.{
  Graph, Step, n_edges, is_labelled, ring_fuel, label_rings, next_cw, walk_ring, collect_faces,
  label_all, ccw_next_of, collect_all, some_faces, extract_all_faces_geos,
}
use geo_repair.RingGraph.Walk.{unused, IsStep, label_ring_ends, walk_ring_ends}
use geo_repair.RingGraph.Links.{IsGraph, Directed, next_cw-Directed, ccw_nodes-Directed}

unused-replicate : (n : ℕ) → unused (replicate n false) ≡ n
unused-replicate zero = refl
unused-replicate (suc n) = ap suc (unused-replicate n)

unused-length : (us : List Bool) → unused us ≤ length us
unused-length [] = omega arith
unused-length (true ∷ us) = omega (arith, unused-length us)
unused-length (false ∷ us) = omega (arith, unused-length us)

range_from-All :
    (n : ℕ) (P : ℕ → Type 0) (i k : ℕ)
    → i + k ≤ n
    → ((x : ℕ) → x < n → P x)
    → All P (range_from i k)
range_from-All n P i zero h p = tt
range_from-All n P i (suc k) h p = (p i (omega arith), range_from-All n P (suc i) k (omega arith) p)

label_rings_ends :
    (n : ℕ) (next : List ℕ) (next_label : ℕ) (starts : List ℕ) (label : List (Option ℕ))
    → (label' : List (Option ℕ)) × (label_rings n next next_label starts label ≡ some label')
unfolding label_rings
label_rings_ends n next next_label [] label = (label, refl)
label_rings_ends n next next_label (start ∷ starts) label =
    elim (Bool-cases (is_labelled (get_or label start none))) [
      | inl old ↦
          let (label', e) = label_rings_ends n next next_label starts label in (label', rw old e)
      | inr new ↦
          let (ring, walked) =
            label_ring_ends n next next_label start (ring_fuel n) start 0 label (omega arith)
              (omega arith) in
          let (label', e) = label_rings_ends n next (suc next_label) starts ring in
          (label', rw (new, walked) e)
    ]

-- the faces of the result
abbrev pub faces_of : Option (List (List Step)) → List (List Step)
faces_of none = []
faces_of (some faces) = faces

module _ (g : Graph) where
  -- faces of three edges or more, each edge one of the graph, with an end of it
  abbrev pub IsFace : List Step → Type 0
  IsFace face = (3 ≤ length face) × All (IsStep g) face

  keep_face : List Step → List (List Step) → List (List Step)
  keep_face face faces = if leb 3 (length face) then face ∷ faces else faces

  keep_face_lem :
      (face : List Step) (faces : List (List Step))
      → All (IsStep g) face
      → All IsFace faces
      → All IsFace (keep_face face faces)
        × (sum_by length (keep_face face faces) ≤ length face + sum_by length faces)
  unfolding keep_face
  keep_face_lem face faces steps h = elim (Bool-cases (leb 3 (length face))) [
    | inl long ↦ rw long (((leb→le 3 (length face) long, steps), h), omega arith)
    | inr short ↦ rw short (h, omega arith)
  ]

  abbrev Collected : List Bool → Option (List (List Step)) → Type 0
  Collected used result =
      (faces : List (List Step)) × (result ≡ some faces)
      × All IsFace faces
      × (sum_by length faces ≤ unused used)

  module _ (ccw_next : List ℕ) (inside : All (Directed g) ccw_next) where
    collect_more :
        (start : ℕ) (starts : List ℕ) (used used' : List Bool) (face : List Step)
        (faces : List (List Step))
        → get_or used start false ≡ false
        → walk_ring (ring_fuel (n_edges g)) g ccw_next start start used [] ≡ some (used', face)
        → collect_faces g ccw_next starts used' ≡ some faces
        → collect_faces g ccw_next (start ∷ starts) used ≡ some (keep_face face faces)
    unfolding collect_faces keep_face
    collect_more start starts used used' face faces new walked more = rw (new, walked, more) refl

    collect_old :
        (start : ℕ) (starts : List ℕ) (used : List Bool)
        → get_or used start false ≡ true
        → collect_faces g ccw_next (start ∷ starts) used ≡ collect_faces g ccw_next starts used
    unfolding collect_faces
    collect_old start starts used old = rw old refl

    collect_faces-Collected :
        (starts : List ℕ) (used : List Bool)
        → All (Directed g) starts
        → length used ≡ n_edges g * 2
        → Collected used (collect_faces g ccw_next starts used)
    unfolding collect_faces
    collect_faces-Collected [] used bounds size = ([], refl, tt, omega arith)
    collect_faces-Collected (start ∷ starts) used (bound, bounds) size =
        elim (Bool-cases (get_or used start false)) [
          | inl old ↦
              let (faces, e, h, count) = collect_faces-Collected starts used bounds size in
              (faces, collect_old start starts used old ∙ e, h, count)
          | inr new ↦
              let (used', face, walked, size', count, steps) =
                walk_ring_ends g ccw_next start inside (ring_fuel (n_edges g)) start used [] size
                  bound (omega (arith, unused-length used, size)) tt in
              let (faces, e, h, rest) =
                collect_faces-Collected starts used' bounds (size' ∙ size) in
              let (kept, less) = keep_face_lem face faces steps h in
              (
                keep_face face faces,
                collect_more start starts used used' face faces new walked e,
                kept,
                omega (arith, count, rest, less),
              )
        ]

  extract-some_faces :
      (label : List (Option ℕ)) (ccw_next : List ℕ) (faces : List (List Step))
      → label_all g ≡ some label
      → ccw_next_of g label ≡ some ccw_next
      → collect_all g ccw_next ≡ some faces
      → extract_all_faces_geos g ≡ some (some_faces faces)
  unfolding extract_all_faces_geos
  extract-some_faces label ccw_next faces labelled linked e =
      rw (labelled, linked, e, extract_all_faces_geos) refl

  faces_of-some_faces : (faces : List (List Step)) → faces_of (some_faces faces) ≡ faces
  faces_of-some_faces [] = refl
  faces_of-some_faces (face ∷ faces) = refl

  -- In a graph in which every vertex has an adjacency list and these lists name only edges of it, no
  -- vertex lacks its list and the walks all end within their bound. The faces that are returned have
  -- three edges or more, each with an end of it, and at most as many steps in all as there are directed
  -- edges.
  pub extract_all_faces_geos_lem :
      IsGraph g
      → (found : Option (List (List Step))) × (extract_all_faces_geos g ≡ some found)
        × All IsFace (faces_of found)
        × (sum_by length (faces_of found) ≤ n_edges g * 2)
  unfolding label_all ccw_next_of collect_all
  extract_all_faces_geos_lem graph =
      let m = n_edges g * 2 in
      let (label, labelled) =
        label_rings_ends (n_edges g) (next_cw g) 1 (range_from 0 m) (replicate m none) in
      let (ccw_next, linked, inside) =
        ccw_nodes-Directed g label (range_from 0 (length g.verts)) (next_cw g) graph
          (range_from-All (length g.verts) (λ v. v < length g.verts) 0 (length g.verts)
            (omega arith) (λ x p. p))
          (next_cw-Directed g graph) in
      let (faces, e, h, count) =
        collect_faces-Collected ccw_next inside (range_from 0 m) (replicate m false)
          (range_from-All m (Directed g) 0 m (omega arith) (λ x p. p)) (length-replicate m false) in
      let same = faces_of-some_faces faces in
      (
        some_faces faces,
        extract-some_faces label ccw_next faces labelled linked e,
        subst (All IsFace) (sym same) h,
        omega (arith, ap (sum_by length) same, count, unused-replicate m),
      )
