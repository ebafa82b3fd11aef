-- ===== src/Classify/Agree.antt =====
-- What `classify_holes` of structure/classify.rs gives.
use geo_repair.Prelude.{
  Option-cases, ℕ, ◌≡◌, refl, sym, ap, ◌∙◌, ◌⊎◌, inl, inr, Bool, true, false, not, ◌&&◌, List, [],
  ◌∷◌, ◌++◌, append_assoc, append-nil, none, some, All, filter, Bool-cases, if◌then◌else◌,
}
use mathlib.Core.List.{Memᴰ}
use mathlib.Core.Option.{some-injective}
use geo_repair.Geo.{Coord, LineString}
use geo_repair.Floats.{Floats}
use geo_repair.Rings.{point_in_ring_exclusive, point_in_ring_inclusive}
use geo_repair.Classify.{
  ring_set_equal, mean_of, scan_hole, is_hole_outside, is_outer, classify_holes, test_holes,
  part_holes, classify_holes_parallel,
}

module _ (f : Floats) (from_usize : ℕ → ℕ) (shell : LineString) where
  abbrev is_inner : LineString → Bool
  is_inner hole = not (is_outer f from_usize shell hole)

  part-filter :
      (holes inner outer : List LineString)
      → part_holes f from_usize (test_holes f from_usize shell holes) (inner, outer)
        ≡ (inner ++ filter is_inner holes, outer ++ filter (is_outer f from_usize shell) holes)
  unfolding part_holes test_holes
  part-filter [] inner outer =
      ap (λ xs. (xs, outer)) (sym (append-nil inner))
      ∙ ap (λ ys. (inner ++ [], ys)) (sym (append-nil outer))
  part-filter (hole ∷ holes) inner outer = elim (Bool-cases (is_outer f from_usize shell hole)) [
    | inl out ↦ rw out (
        part-filter holes inner (outer ++ hole ∷ [])
        ∙ ap (λ ys. (inner ++ filter is_inner holes, ys))
            (append_assoc outer (hole ∷ []) (filter (is_outer f from_usize shell) holes)))
    | inr within ↦ rw within (
        part-filter holes (inner ++ hole ∷ []) outer
        ∙ ap (λ xs. (xs, outer ++ filter (is_outer f from_usize shell) holes))
            (append_assoc inner (hole ∷ []) (filter is_inner holes)))
  ]

  classify-filter :
      (holes : List LineString)
      → classify_holes f from_usize shell holes
        ≡ (filter is_inner holes, filter (is_outer f from_usize shell) holes)
  unfolding classify_holes
  classify-filter [] = refl
  classify-filter (hole ∷ holes) = elim (Bool-cases (is_outer f from_usize shell hole)) [
    | inl outer ↦ rw (outer, classify-filter holes) refl
    | inr inner ↦ rw (inner, classify-filter holes) refl
  ]

  -- The loop with threads gives what the loop without them gives: the inner holes and the outer
  -- holes, both in their order.
  pub classify_holes_parallel-classify_holes :
      (holes : List LineString)
      → (classify_holes_parallel f from_usize shell holes ≡ classify_holes f from_usize shell holes)
        × (classify_holes f from_usize shell holes ≡ (
          filter (λ h. not (is_outer f from_usize shell h)) holes,
          filter (is_outer f from_usize shell) holes,
        ))
  unfolding classify_holes_parallel
  classify_holes_parallel-classify_holes holes =
      (part-filter holes [] [] ∙ sym (classify-filter holes), classify-filter holes)

  AllOutside : List Coord → Type 0
  AllOutside pts = All (λ pt. point_in_ring_exclusive f pt shell ≡ false) pts

  AllTouching : List Coord → Type 0
  AllTouching pts = All (λ pt. point_in_ring_inclusive f pt shell ≡ true) pts

  -- the end of the loop: no vertex is inside, and without `any_outside` all are on the boundary
  Scanned : List Coord → Bool → Bool → Type 0
  Scanned pts any_outside b = AllOutside pts × (b ≡ false → (any_outside ≡ false) × AllTouching pts)

  scan_hole_step :
      (pt : Coord) (pts : List Coord) (any_outside : Bool)
      → point_in_ring_exclusive f pt shell ≡ false
      → scan_hole f from_usize shell (pt ∷ pts) any_outside
        ≡ scan_hole f from_usize shell pts
            (if point_in_ring_inclusive f pt shell then any_outside else true)
  unfolding scan_hole
  scan_hole_step pt pts any_outside e = rw (e, scan_hole) refl

  scan_hole_stop :
      (pt : Coord) (pts : List Coord) (any_outside : Bool)
      → point_in_ring_exclusive f pt shell ≡ true
      → scan_hole f from_usize shell (pt ∷ pts) any_outside ≡ none
  unfolding scan_hole
  scan_hole_stop pt pts any_outside e = rw (e, scan_hole) refl

  Scanned-nil :
      (any_outside b : Bool)
      → scan_hole f from_usize shell [] any_outside ≡ some b
      → Scanned [] any_outside b
  unfolding scan_hole Scanned AllOutside AllTouching
  Scanned-nil any_outside b e = (tt, λ q. (some-injective any_outside b e ∙ q, tt))

  scan_nil_some : (any_outside : Bool) → ¬ (scan_hole f from_usize shell [] any_outside ≡ none)
  unfolding scan_hole
  scan_nil_some any_outside = λ e. absurd (cc)

  Scanned-cons :
      (pt : Coord) (pts : List Coord) (any_outside b : Bool)
      → point_in_ring_exclusive f pt shell ≡ false
      → Scanned pts (if point_in_ring_inclusive f pt shell then any_outside else true) b
      → Scanned (pt ∷ pts) any_outside b
  unfolding Scanned AllOutside AllTouching
  Scanned-cons pt pts any_outside b e = elim (Bool-cases (point_in_ring_inclusive f pt shell)) [
    | inl touching ↦ rw touching (λ h. ((e, h.0), λ q. ((h.1 q).0, (refl, (h.1 q).1))))
    | inr apart ↦ rw apart (λ h. ((e, h.0), λ q. let (no_end, _) = h.1 q in absurd (cc)))
  ]

  scan_hole-Scanned :
      (pts : List Coord) (any_outside b : Bool)
      → scan_hole f from_usize shell pts any_outside ≡ some b
      → Scanned pts any_outside b
  scan_hole-Scanned [] any_outside b e = Scanned-nil any_outside b e
  scan_hole-Scanned (pt ∷ pts) any_outside b e =
      elim (Bool-cases (point_in_ring_exclusive f pt shell)) [
        | inl inside ↦ let stop = scan_hole_stop pt pts any_outside inside in absurd (cc)
        | inr outside ↦
            Scanned-cons pt pts any_outside b outside
              (scan_hole-Scanned pts _ b (sym (scan_hole_step pt pts any_outside outside) ∙ e))
      ]

  scan_hole-none :
      (pts : List Coord) (any_outside : Bool)
      → scan_hole f from_usize shell pts any_outside ≡ none
      → (pt : Coord) × Memᴰ pt pts × (point_in_ring_exclusive f pt shell ≡ true)
  scan_hole-none [] any_outside e = absurd (scan_nil_some any_outside e)
  scan_hole-none (pt ∷ pts) any_outside e = elim (Bool-cases (point_in_ring_exclusive f pt shell)) [
    | inl inside ↦ (pt, Memᴰ.head refl, inside)
    | inr outside ↦
        let (at, m, inside) =
          scan_hole-none pts _ (sym (scan_hole_step pt pts any_outside outside) ∙ e) in
        (at, Memᴰ.tail m, inside)
  ]

  -- how the test of a hole ends
  data Verdict (first : Coord) (pts : List Coord) : Type 0 where
    vertex_inside :
        is_hole_outside f from_usize (first ∷ pts) shell ≡ false
        → (pt : Coord) × Memᴰ pt (first ∷ pts) × (point_in_ring_exclusive f pt shell ≡ true)
        → Verdict first pts
    by_mean :
        is_hole_outside f from_usize (first ∷ pts) shell
          ≡ not (point_in_ring_exclusive f (mean_of f from_usize (first ∷ pts)) shell)
        → AllOutside (first ∷ pts)
        → AllTouching (first ∷ pts)
        → ring_set_equal (first ∷ pts) shell ≡ false
        → Verdict first pts
    apart :
        is_hole_outside f from_usize (first ∷ pts) shell ≡ true
        → AllOutside (first ∷ pts)
        → Verdict first pts

  both_false : (a b : Bool) → (not a && not b) ≡ true → (a ≡ false) × (b ≡ false)
  both_false true b e = absurd (cc)
  both_false false true e = absurd (cc)
  both_false false false e = (refl, refl)

  verdict : (first : Coord) (pts : List Coord) → Verdict first pts
  unfolding is_hole_outside Scanned
  verdict first pts = elim (Bool-cases (point_in_ring_exclusive f first shell)) [
    | inl inside ↦ vertex_inside (rw (inside, is_hole_outside) refl) (first, Memᴰ.head refl, inside)
    | inr outside ↦ elim (Option-cases (scan_hole f from_usize shell (first ∷ pts) false)) [
      | inl stop ↦
          vertex_inside (rw (outside, stop, is_hole_outside) refl)
            (scan_hole-none (first ∷ pts) false stop)
      | inr (any_outside, ends) ↦
          let scanned = scan_hole-Scanned (first ∷ pts) false any_outside ends in
          elim (Bool-cases (not any_outside && not (ring_set_equal (first ∷ pts) shell))) [
            | inl touching ↦
                let (all, other) =
                  both_false any_outside (ring_set_equal (first ∷ pts) shell) touching in
                by_mean (rw (outside, ends, touching, is_hole_outside) refl) (scanned.0)
                  ((scanned.1 all).1) other
            | inr kept ↦ apart (rw (outside, ends, kept, is_hole_outside) refl) (scanned.0)
          ]
    ]
  ]

  not-false : (b : Bool) → not b ≡ false → b ≡ true
  not-false true e = refl
  not-false false e = absurd (cc)

  -- A hole that is taken to be outside has no vertex strictly inside the shell. One that is not has
  -- such a vertex, or all of its vertices are inside or on the boundary, it is another ring than the
  -- shell, and the mean of its vertices is strictly inside.
  pub is_hole_outside_lem :
      (hole : LineString)
      → (is_hole_outside f from_usize hole shell ≡ true
          → All (λ pt. point_in_ring_exclusive f pt shell ≡ false) hole)
        × (is_hole_outside f from_usize hole shell ≡ false
            → ((pt : Coord) × Memᴰ pt hole × (point_in_ring_exclusive f pt shell ≡ true))
              ⊎ (All (λ pt. point_in_ring_inclusive f pt shell ≡ true) hole
                  × (ring_set_equal hole shell ≡ false)
                  × (point_in_ring_exclusive f (mean_of f from_usize hole) shell ≡ true)))
  unfolding is_hole_outside AllOutside AllTouching
  is_hole_outside_lem [] = (λ _. tt, λ e. absurd (cc))
  is_hole_outside_lem (first ∷ pts) = elim (verdict first pts) [
    | vertex_inside e found ↦ (λ out. absurd (cc), λ _. inl found)
    | by_mean e outside touching other ↦
        (λ _. outside, λ within. inr (touching, other, not-false _ (sym e ∙ within)))
    | apart e outside ↦ (λ _. outside, λ within. absurd (cc))
  ]
