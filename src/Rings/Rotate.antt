-- ===== src/Rings/Rotate.antt =====
-- The point-in-ring kernels of simd/ do not depend on where a closed ring starts.
use geo_repair.Prelude.{
  zero, suc, ◌≡◌, refl, sym, ap, ◌∙◌, inl, inr, Bool, true, false, ◌&&◌, ◌||◌, List, [], ◌∷◌, ◌++◌,
  Bool-cases, length, length-append, arith,
}
use geo_repair.Geo.{Coord}
use geo_repair.Floats.{Floats}
use geo_repair.Rings.{
  ℤ, pos, negsuc, succ_int, pred_int, side, crossing, on_segment, on_boundary,
  point_in_ring_scalar_loop, point_in_ring_exclusive, point_in_ring_inclusive,
}

succ_int-pred_int : (w : ℤ) → succ_int (pred_int w) ≡ pred_int (succ_int w)
succ_int-pred_int (pos zero) = refl
succ_int-pred_int (pos (suc n)) = refl
succ_int-pred_int (negsuc zero) = refl
succ_int-pred_int (negsuc (suc n)) = refl

-- what an edge does to the winding number
data Move : Type 0 where
  up : Move
  down : Move
  stay : Move

abbrev move : Move → ℤ → ℤ
move up w = succ_int w
move down w = pred_int w
move stay w = w

move-move : (m n : Move) (w : ℤ) → move m (move n w) ≡ move n (move m w)
move-move up up w = refl
move-move up down w = succ_int-pred_int w
move-move up stay w = refl
move-move down up w = sym (succ_int-pred_int w)
move-move down down w = refl
move-move down stay w = refl
move-move stay n w = refl

module _ (f : Floats) (pt : Coord) where
  crossing-Move : (a b : Coord) → (m : Move) × ((w : ℤ) → crossing f pt a b w ≡ move m w)
  unfolding crossing
  crossing-Move a b = elim (Bool-cases (f.le a.y pt.y)) [
    | inl below ↦ elim (Bool-cases (f.lt pt.y b.y && f.lt 0 (side f pt a b))) [
      | inl left ↦ (up, λ w. rw (below, left) refl)
      | inr right ↦ (stay, λ w. rw (below, right) refl)
    ]
    | inr above ↦ elim (Bool-cases (f.le b.y pt.y && f.lt (side f pt a b) 0)) [
      | inl right ↦ (down, λ w. rw (above, right) refl)
      | inr left ↦ (stay, λ w. rw (above, left) refl)
    ]
  ]

  crossing-crossing :
      (a b c d : Coord) (w : ℤ)
      → crossing f pt a b (crossing f pt c d w) ≡ crossing f pt c d (crossing f pt a b w)
  crossing-crossing a b c d w =
      let (m, first) = crossing-Move a b in
      let (n, second) = crossing-Move c d in
      rw (second w, first w, first (move n w), second (move m w)) (move-move m n w)

  loop-crossing :
      (a b : Coord) (cs : List Coord) (w : ℤ)
      → point_in_ring_scalar_loop f pt cs (crossing f pt a b w)
        ≡ crossing f pt a b (point_in_ring_scalar_loop f pt cs w)
  unfolding point_in_ring_scalar_loop
  loop-crossing a b [] w = refl
  loop-crossing a b (c ∷ []) w = refl
  loop-crossing a b (c ∷ d ∷ cs) w =
      ap (point_in_ring_scalar_loop f pt (d ∷ cs)) (crossing-crossing c d a b w)
      ∙ loop-crossing a b (d ∷ cs) (crossing f pt c d w)

  loop-append :
      (cs : List Coord) (a b : Coord) (w : ℤ)
      → point_in_ring_scalar_loop f pt (cs ++ a ∷ b ∷ []) w
        ≡ crossing f pt a b (point_in_ring_scalar_loop f pt (cs ++ a ∷ []) w)
  unfolding point_in_ring_scalar_loop
  loop-append [] a b w = refl
  loop-append (c ∷ []) a b w = refl
  loop-append (c ∷ d ∷ cs) a b w = loop-append (d ∷ cs) a b (crossing f pt c d w)

  ||_assoc : (a b c : Bool) → (a || (b || c)) ≡ ((a || b) || c)
  ||_assoc true b c = refl
  ||_assoc false b c = refl

  ||_comm : (a b : Bool) → (a || b) ≡ (b || a)
  ||_comm true true = refl
  ||_comm true false = refl
  ||_comm false true = refl
  ||_comm false false = refl

  ||_false : (a : Bool) → (a || false) ≡ a
  ||_false true = refl
  ||_false false = refl

  on_boundary-append :
      (cs : List Coord) (a b : Coord)
      → on_boundary f pt (cs ++ a ∷ b ∷ [])
        ≡ (on_boundary f pt (cs ++ a ∷ []) || on_segment f pt a b)
  unfolding on_boundary
  on_boundary-append [] a b = ||_false (on_segment f pt a b)
  on_boundary-append (c ∷ []) a b =
      rw (||_false (on_segment f pt c a), ||_false (on_segment f pt a b)) refl
  on_boundary-append (c ∷ d ∷ cs) a b =
      ap (λ rest. on_segment f pt c d || rest) (on_boundary-append (d ∷ cs) a b)
      ∙ ||_assoc (on_segment f pt c d) (on_boundary f pt (d ∷ cs ++ a ∷ [])) (on_segment f pt a b)

  -- the closed ring through `a ∷ b ∷ cs`, started at `a` or at `b`
  loop_rotate :
      (a b : Coord) (cs : List Coord)
      → point_in_ring_scalar_loop f pt (a ∷ b ∷ cs ++ a ∷ []) (pos 0)
        ≡ point_in_ring_scalar_loop f pt (b ∷ cs ++ a ∷ b ∷ []) (pos 0)
  unfolding point_in_ring_scalar_loop
  loop_rotate a b cs =
      loop-crossing a b (b ∷ cs ++ a ∷ []) (pos 0) ∙ sym (loop-append (b ∷ cs) a b (pos 0))

  on_boundary_rotate :
      (a b : Coord) (cs : List Coord)
      → on_boundary f pt (a ∷ b ∷ cs ++ a ∷ []) ≡ on_boundary f pt (b ∷ cs ++ a ∷ b ∷ [])
  unfolding on_boundary
  on_boundary_rotate a b cs =
      ||_comm (on_segment f pt a b) (on_boundary f pt (b ∷ cs ++ a ∷ []))
      ∙ sym (on_boundary-append (b ∷ cs) a b)

  length_rotate :
      (a b : Coord) (cs : List Coord)
      → length (a ∷ b ∷ cs ++ a ∷ []) ≡ length (b ∷ cs ++ a ∷ b ∷ [])
  length_rotate a b cs = omega (arith, length-append cs (a ∷ []), length-append cs (a ∷ b ∷ []))

  exclusive_rotate :
      (a b : Coord) (cs : List Coord)
      → point_in_ring_exclusive f pt (a ∷ b ∷ cs ++ a ∷ [])
        ≡ point_in_ring_exclusive f pt (b ∷ cs ++ a ∷ b ∷ [])
  unfolding point_in_ring_exclusive
  exclusive_rotate a b cs =
      rw (length_rotate a b cs, on_boundary_rotate a b cs, loop_rotate a b cs) refl

  -- A closed ring that starts one coordinate later has the same points inside, with and without its
  -- boundary.
  pub point_in_ring_rotate :
      (a b : Coord) (cs : List Coord)
      → (point_in_ring_exclusive f pt (a ∷ b ∷ cs ++ a ∷ [])
          ≡ point_in_ring_exclusive f pt (b ∷ cs ++ a ∷ b ∷ []))
        × (point_in_ring_inclusive f pt (a ∷ b ∷ cs ++ a ∷ [])
            ≡ point_in_ring_inclusive f pt (b ∷ cs ++ a ∷ b ∷ []))
  unfolding point_in_ring_inclusive
  point_in_ring_rotate a b cs = (
    exclusive_rotate a b cs,
    rw (length_rotate a b cs, on_boundary_rotate a b cs, exclusive_rotate a b cs) refl,
  )
