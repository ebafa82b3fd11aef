-- ===== src/RingGraph/Walk.antt =====
-- The rings of directed edges that fix_ring_graph.rs walks along end.
use geo_repair.Prelude.{
  ℕ, zero, suc, ◌+◌, ◌*◌, ◌<◌, ◌≤◌, ◌≡◌, refl, ◌∙◌, ◌⊎◌, inl, inr, Bool, true, false, ◌||◌, List,
  [], ◌∷◌, ◌++◌, Option, none, some, arith, All, All-append, All-get_or, length, length-append,
  length-set, get_or, set, Bool-cases, ltb, ltb→le, ◌==◌,
}
use geo_repair.RingGraph.{
  Graph, Step, n_edges, edge_at, is_labelled, label_ring, step_of, walk_ring,
}

-- the directed edges that no face has taken
abbrev pub unused : List Bool → ℕ
unused [] = 0
unused (true ∷ us) = unused us
unused (false ∷ us) = suc (unused us)

pub unused-set :
    (us : List Bool) (i : ℕ)
    → i < length us
    → get_or us i false ≡ false
    → unused (set us i true) + 1 ≡ unused us
unused-set [] i h e = absurd (omega arith)
unused-set (true ∷ us) zero h e = absurd (cc)
unused-set (false ∷ us) zero h e = omega arith
unused-set (true ∷ us) (suc i) h e = unused-set us i (omega arith) e
unused-set (false ∷ us) (suc i) h e = omega (arith, unused-set us i (omega arith) e)

-- an edge of the graph and an end of it
abbrev pub IsStep : Graph → Step → Type 0
IsStep g s = (s.0 < n_edges g) × ((s.1 ≡ (edge_at g s.0).0) ⊎ (s.1 ≡ (edge_at g s.0).1))

step_of-IsStep : (g : Graph) (cur : ℕ) → cur < n_edges g * 2 → IsStep g (step_of g cur)
unfolding step_of
step_of-IsStep g cur h = elim (Bool-cases (ltb cur (n_edges g))) [
  | inl forward ↦ rw forward (omega arith, inr refl)
  | inr backward ↦ rw backward (omega arith, inl refl)
]

third_false : (a b c : Bool) → (a || b || c) ≡ false → c ≡ false
third_false true b c e = absurd (cc)
third_false false true c e = absurd (cc)
third_false false false c e = e

module _ (n : ℕ) (next : List ℕ) (next_label start : ℕ) where
  label_ring_on :
      (fuel cur count : ℕ) (label : List (Option ℕ))
      → is_labelled (get_or label cur none) ≡ false
      → (get_or next cur 0 == cur || get_or next cur 0 == start || ltb (n * 2) (suc count)) ≡ false
      → label_ring (suc fuel) n next next_label start cur count label
        ≡ label_ring fuel n next next_label start
            (get_or next cur 0)
            (suc count)
            (set label cur (some next_label))
  unfolding label_ring
  label_ring_on fuel cur count label new on = rw (new, on) refl

  pub label_ring_ends :
      (fuel cur count : ℕ) (label : List (Option ℕ))
      → count ≤ n * 2
      → n * 2 < fuel + count
      → (label' : List (Option ℕ)) × (label_ring fuel n next next_label start cur count label
          ≡ some label')
  unfolding label_ring
  label_ring_ends zero cur count label h k = absurd (omega arith)
  label_ring_ends (suc fuel) cur count label h k =
      elim (Bool-cases (is_labelled (get_or label cur none))) [
        | inl old ↦ (label, rw old refl)
        | inr new ↦
            elim (Bool-cases
              (get_or next cur 0 == cur || get_or next cur 0 == start || ltb (n * 2) (suc count))) [
                | inl stop ↦ (set label cur (some next_label), rw (new, stop) refl)
                | inr on ↦
                    let room = ltb→le (n * 2) (suc count) (
                      third_false (get_or next cur 0 == cur) (get_or next cur 0 == start)
                        (ltb (n * 2) (suc count)) on) in
                    let (label', e) =
                      label_ring_ends fuel (get_or next cur 0) (suc count)
                        (set label cur (some next_label)) room (omega arith) in
                    (label', label_ring_on fuel cur count label new on ∙ e)
              ]
      ]

module _ (g : Graph) (ccw_next : List ℕ) (start : ℕ)
    (inside : All (λ d. d < n_edges g * 2) ccw_next) where
  -- what a walk gives: the edges it marks are those of its face
  abbrev pub Walked : List Bool → List Step → Option (List Bool × List Step) → Type 0
  Walked used face result =
      (used' : List Bool) × (face' : List Step) × (result ≡ some (used', face'))
      × (length used' ≡ length used)
      × (unused used' + length face' ≡ unused used + length face)
      × All (IsStep g) face'

  abbrev stops : ℕ → List Step → Bool
  stops cur face =
      get_or ccw_next cur 0 == cur
      || get_or ccw_next cur 0 == start
      || ltb (n_edges g * 2) (length (face ++ step_of g cur ∷ []))

  walk_ring_on :
      (fuel cur : ℕ) (used : List Bool) (face : List Step)
      → get_or used cur false ≡ false
      → stops cur face ≡ false
      → walk_ring (suc fuel) g ccw_next start cur used face
        ≡ walk_ring fuel g ccw_next start
            (get_or ccw_next cur 0)
            (set used cur true)
            (face ++ step_of g cur ∷ [])
  unfolding walk_ring
  walk_ring_on fuel cur used face new on = rw (new, on) refl

  walk_ring_stop :
      (fuel cur : ℕ) (used : List Bool) (face : List Step)
      → get_or used cur false ≡ false
      → stops cur face ≡ true
      → walk_ring (suc fuel) g ccw_next start cur used face
        ≡ some (set used cur true, face ++ step_of g cur ∷ [])
  unfolding walk_ring
  walk_ring_stop fuel cur used face new stop = rw (new, stop) refl

  walk_ring_old :
      (fuel cur : ℕ) (used : List Bool) (face : List Step)
      → get_or used cur false ≡ true
      → walk_ring (suc fuel) g ccw_next start cur used face ≡ some (used, face)
  unfolding walk_ring
  walk_ring_old fuel cur used face old = rw old refl

  pub walk_ring_ends :
      (fuel cur : ℕ) (used : List Bool) (face : List Step)
      → length used ≡ n_edges g * 2
      → cur < n_edges g * 2
      → unused used < fuel
      → All (IsStep g) face
      → Walked used face (walk_ring fuel g ccw_next start cur used face)
  walk_ring_ends zero cur used face size bound enough steps = absurd (omega arith)
  walk_ring_ends (suc fuel) cur used face size bound enough steps =
      elim (Bool-cases (get_or used cur false)) [
        | inl old ↦ (used, face, walk_ring_old fuel cur used face old, refl, refl, steps)
        | inr new ↦
            let used' = set used cur true in
            let face' = face ++ step_of g cur ∷ [] in
            let size' = length-set used cur true in
            let count = unused-set used cur (omega (arith, size)) new in
            let longer = length-append face (step_of g cur ∷ []) in
            let steps' =
              All-append (IsStep g) face (step_of g cur ∷ []) steps
                (step_of-IsStep g cur bound, tt) in
            elim (Bool-cases (stops cur face)) [
              | inl stop ↦ (
                used',
                face',
                walk_ring_stop fuel cur used face new stop,
                size',
                omega (arith, count, longer),
                steps',
              )
              | inr on ↦
                  let (used_end, face_end, e, size_end, count_end, steps_end) =
                    walk_ring_ends fuel (get_or ccw_next cur 0) used' face' (size' ∙ size)
                      (All-get_or (λ d. d < n_edges g * 2) ccw_next cur 0 (omega arith) inside)
                      (omega (arith, count)) steps' in
                  (
                    used_end,
                    face_end,
                    walk_ring_on fuel cur used face new on ∙ e,
                    size_end ∙ size',
                    omega (arith, count, longer, count_end),
                    steps_end,
                  )
            ]
      ]
