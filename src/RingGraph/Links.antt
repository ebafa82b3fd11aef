-- ===== src/RingGraph/Links.antt =====
-- The links between directed edges that fix_ring_graph.rs computes stay within the directed edges.
use geo_repair.Prelude.{
  ℕ, zero, suc, ◌*◌, ◌<◌, ◌≤◌, ◌≡◌, refl, ◌∙◌, inl, inr, Bool, true, false, List, [], ◌∷◌, Option,
  none, some, arith, All, All-set, get_elem?, last_or, reverse, length, replicate, Bool-cases, ltb,
  ◌==◌, if◌then◌else◌,
}
use mathlib.Core.List.{reverse_aux}
use geo_repair.RingGraph.{
  Graph, n_edges, edge_at, dir_at_v, link_next, link_node, link_nodes, next_cw, labels_at_node,
  Scan, has_label, set_at, or_some, scan_out, scan_edges, close_scan, link_labels, ccw_nodes,
}

module _ (g : Graph) where
  -- an entry of an adjacency list names an edge
  abbrev pub Named : ℕ × ℕ → Type 0
  Named a = a.1 < n_edges g

  -- every vertex has an adjacency list, and these lists name only edges of the graph
  pub record IsGraph : Type 0 where
    pub named : All (All Named) g.sorted_adj
    pub each : length g.sorted_adj ≡ length g.verts

  abbrev pub Directed : ℕ → Type 0
  Directed d = d < n_edges g * 2

  dir_at_v-Directed :
      (e v : ℕ) → e < n_edges g → Directed (dir_at_v g e v).0 × Directed (dir_at_v g e v).1
  unfolding dir_at_v
  dir_at_v-Directed e v h = elim (Bool-cases ((edge_at g e).0 == v)) [
    | inl forward ↦ rw forward (omega arith, omega arith)
    | inr backward ↦ rw backward (omega arith, omega arith)
  ]

  link_next-Directed :
      (v e_prev : ℕ) (neighbors : List (ℕ × ℕ)) (next : List ℕ)
      → All Named neighbors
      → All Directed next
      → All Directed (link_next g v e_prev neighbors next)
  unfolding link_next
  link_next-Directed v e_prev [] next named h = h
  link_next-Directed v e_prev (a ∷ rest) next (edge, named) h =
      link_next-Directed v a.1 rest _ named (
        All-set Directed next (dir_at_v g e_prev v).1 (dir_at_v g a.1 v).0
          ((dir_at_v-Directed a.1 v edge).0) h)

  link_node-Directed :
      (v : ℕ) (neighbors : List (ℕ × ℕ)) (next : List ℕ)
      → All Named neighbors
      → All Directed next
      → All Directed (link_node g v neighbors next)
  unfolding link_node
  link_node-Directed v [] next named h = h
  link_node-Directed v (a ∷ rest) next named h =
      link_next-Directed v (last_or a rest).1 (a ∷ rest) next named h

  link_nodes-Directed :
      (v : ℕ) (adj : List (List (ℕ × ℕ))) (next : List ℕ)
      → All (All Named) adj
      → All Directed next
      → All Directed (link_nodes g v adj next)
  unfolding link_nodes
  link_nodes-Directed v [] next named h = h
  link_nodes-Directed v (neighbors ∷ rest) next (here, named) h =
      link_nodes-Directed (suc v) rest (link_node g v neighbors next) named
        (link_node-Directed v neighbors next here h)

  All-zeros : (n : ℕ) → n ≤ n_edges g * 2 → All Directed (replicate n 0)
  All-zeros zero h = tt
  All-zeros (suc n) h = (omega arith, All-zeros n (omega arith))

  pub next_cw-Directed : IsGraph → All Directed (next_cw g)
  unfolding next_cw
  next_cw-Directed h =
      link_nodes-Directed 0 g.sorted_adj (replicate (n_edges g * 2) 0) (h.named)
        (All-zeros (n_edges g * 2) (omega arith))

  AtMost : Option ℕ → Type 0
  AtMost o = elim o [ none ↦ Unit | some d ↦ Directed d ]

  -- the first edge out and the links of a scan
  record Scanned (s : Scan) : Type 0 where
    first : AtMost s.first_out
    links : All Directed s.ccw_next

  set_at-Directed :
      (xs : List ℕ) (i : Option ℕ) (d : ℕ)
      → Directed d
      → All Directed xs
      → All Directed (set_at xs i d)
  set_at-Directed xs none d p h = h
  set_at-Directed xs (some i) d p h = All-set Directed xs i d p h

  or_some-AtMost : (o : Option ℕ) (d : ℕ) → Directed d → AtMost o → AtMost (or_some o d)
  unfolding AtMost
  or_some-AtMost none d p h = p
  or_some-AtMost (some i) d p h = h

  scan_out-Scanned : (de : ℕ) (s : Scan) → Directed de → Scanned s → Scanned (scan_out de s)
  unfolding scan_out
  scan_out-Scanned de s p h = record {
    first = or_some-AtMost s.first_out de p (h.first);
    links = set_at-Directed s.ccw_next s.prev_in de p (h.links);
  }

  in-Scanned :
      (found : Bool) (d : ℕ) (s : Scan)
      → Scanned s
      → Scanned (if found then record s { prev_in = some d } else s)
  in-Scanned true d s h = record { first = h.first; links = h.links }
  in-Scanned false d s h = h

  out-Scanned :
      (found : Bool) (d : ℕ) (s : Scan)
      → Directed d
      → Scanned s
      → Scanned (if found then scan_out d s else s)
  out-Scanned true d s p h = scan_out-Scanned d s p h
  out-Scanned false d s p h = h

  scan_edges-Scanned :
      (label : List (Option ℕ)) (v l : ℕ) (neighbors : List (ℕ × ℕ)) (s : Scan)
      → All Named neighbors
      → Scanned s
      → Scanned (scan_edges g label v l neighbors s)
  unfolding scan_edges
  scan_edges-Scanned label v l [] s named h = h
  scan_edges-Scanned label v l (a ∷ rest) s (edge, named) h =
      let (de, sym_de) = dir_at_v g a.1 v in
      scan_edges-Scanned label v l rest _ named (
        out-Scanned (has_label label l de) de _ ((dir_at_v-Directed a.1 v edge).0)
          (in-Scanned (has_label label l sym_de) sym_de s h))

  close_at-Directed :
      (o prev_in : Option ℕ) (xs : List ℕ)
      → AtMost o
      → All Directed xs
      → All Directed (elim o [ none ↦ xs | some fo ↦ set_at xs prev_in fo ])
  unfolding AtMost
  close_at-Directed none prev_in xs p h = h
  close_at-Directed (some fo) prev_in xs p h = set_at-Directed xs prev_in fo p h

  close_scan-Directed : (s : Scan) → Scanned s → All Directed (close_scan s)
  unfolding close_scan
  close_scan-Directed s h = close_at-Directed s.first_out s.prev_in s.ccw_next (h.first) (h.links)

  All-reverse_aux :
      (xs ys : List (ℕ × ℕ)) → All Named xs → All Named ys → All Named (reverse_aux xs ys)
  All-reverse_aux [] ys h k = k
  All-reverse_aux (x ∷ xs) ys (p, h) k = All-reverse_aux xs (x ∷ ys) h (p, k)

  link_labels-Directed :
      (label : List (Option ℕ)) (v : ℕ) (neighbors : List (ℕ × ℕ)) (ls ccw_next : List ℕ)
      → All Named neighbors
      → All Directed ccw_next
      → All Directed (link_labels g label v neighbors ls ccw_next)
  unfolding link_labels AtMost
  link_labels-Directed label v neighbors [] ccw_next named h = h
  link_labels-Directed label v neighbors (l ∷ ls) ccw_next named h =
      link_labels-Directed label v neighbors ls _ named (
        close_scan-Directed _ (
          scan_edges-Scanned label v l (reverse neighbors) _ (All-reverse_aux neighbors [] named tt)
            (record { first = tt; links = h })))

  if-Directed :
      (test : Bool) (xs ys : List ℕ)
      → All Directed xs
      → All Directed ys
      → All Directed (if test then xs else ys)
  if-Directed true xs ys h k = h
  if-Directed false xs ys h k = k

  get_elem-Named :
      (adj : List (List (ℕ × ℕ))) (v : ℕ)
      → v < length adj
      → All (All Named) adj
      → (neighbors : List (ℕ × ℕ)) × (get_elem? adj v ≡ some neighbors) × All Named neighbors
  get_elem-Named [] v h named = absurd (omega arith)
  get_elem-Named (x ∷ adj) zero h (here, named) = (x, refl, here)
  get_elem-Named (x ∷ adj) (suc v) h (here, named) = get_elem-Named adj v (omega arith) named

  ccw_nodes_step :
      (label : List (Option ℕ)) (v : ℕ) (vs ccw_next : List ℕ) (neighbors : List (ℕ × ℕ))
      → get_elem? g.sorted_adj v ≡ some neighbors
      → ccw_nodes g label (v ∷ vs) ccw_next
        ≡ ccw_nodes g label vs (
            if ltb (length neighbors) 2
            then ccw_next
            else link_labels g label v neighbors (labels_at_node g label v neighbors []) ccw_next)
  unfolding ccw_nodes
  ccw_nodes_step label v vs ccw_next neighbors e = rw (e, ccw_nodes) refl

  -- every vertex is found, and what is linked is a directed edge
  pub ccw_nodes-Directed :
      (label : List (Option ℕ)) (vs ccw_next : List ℕ)
      → IsGraph
      → All (λ v. v < length g.verts) vs
      → All Directed ccw_next
      → (next : List ℕ) × (ccw_nodes g label vs ccw_next ≡ some next) × All Directed next
  unfolding ccw_nodes
  ccw_nodes-Directed label [] ccw_next graph bounds h = (ccw_next, refl, h)
  ccw_nodes-Directed label (v ∷ vs) ccw_next graph (bound, bounds) h =
      let (neighbors, at, named) =
        get_elem-Named g.sorted_adj v (omega (arith, bound, graph.each)) (graph.named) in
      let linked = if-Directed (ltb (length neighbors) 2) ccw_next _ h (
        link_labels-Directed label v neighbors (labels_at_node g label v neighbors []) ccw_next
          named h) in
      let (next, e, inside) = ccw_nodes-Directed label vs _ graph bounds linked in
      (next, ccw_nodes_step label v vs ccw_next neighbors at ∙ e, inside)
