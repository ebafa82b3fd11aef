-- ===== src/Nesting/Shell/Clear.antt =====
-- When a vertex of a hole is found outside a shell.
use geo_repair.Prelude.{
  ◌≤◌, ◌≡◌, refl, ◌↔◌, inl, inr, true, false, List, [], ◌∷◌, arith, length, Bool-cases, ltb, ltb→lt,
  ltb→le,
}
use mathlib.Core.List.{Memᴰ}
use mathlib.Core.List.Memᴰ
use mathlib.Core.Path.{subst}
use geo_repair.Geo.{Coord, LineString}
use geo_repair.Floats.{Floats}
use geo_repair.Rings.{point_in_ring_exclusive}
use geo_repair.Nesting.Shell.{touches_ring, some_outside, hole_vertex_strictly_outside}

module _ (f : Floats) where
  -- a vertex neither inside a ring nor on it
  abbrev pub IsClear : List Coord → Coord → Type 0
  IsClear ring pt = (point_in_ring_exclusive f pt ring ≡ false) × (touches_ring f pt ring ≡ false)

  ClearOne : List Coord → List Coord → Type 0
  ClearOne ring pts = (pt : Coord) × Memᴰ pt pts × IsClear ring pt

  ClearOne-cons :
      (ring : List Coord) (pt : Coord) (pts : List Coord)
      → ClearOne ring pts
      → ClearOne ring (pt ∷ pts)
  unfolding ClearOne
  ClearOne-cons ring pt pts (at, m, clear) = (at, Memᴰ.tail m, clear)

  ClearOne-head :
      (ring : List Coord) (pt : Coord) (pts : List Coord)
      → point_in_ring_exclusive f pt ring ≡ false
      → touches_ring f pt ring ≡ false
      → ClearOne ring (pt ∷ pts)
  unfolding ClearOne
  ClearOne-head ring pt pts outside free = (pt, Memᴰ.head refl, (outside, free))

  some_outside_sound : (ring pts : List Coord) → some_outside f ring pts ≡ true → ClearOne ring pts
  unfolding some_outside
  some_outside_sound ring [] = λ e. absurd (cc)
  some_outside_sound ring (pt ∷ pts) = elim (Bool-cases (point_in_ring_exclusive f pt ring)) [
    | inl inside ↦ rw inside (λ e. ClearOne-cons ring pt pts (some_outside_sound ring pts e))
    | inr outside ↦ elim (Bool-cases (touches_ring f pt ring)) [
      | inl touching ↦
          rw (outside, touching) (λ e. ClearOne-cons ring pt pts (some_outside_sound ring pts e))
      | inr free ↦ λ _. ClearOne-head ring pt pts outside free
    ]
  ]

  some_outside_here :
      (ring : List Coord) (pt : Coord) (pts : List Coord)
      → IsClear ring pt
      → some_outside f ring (pt ∷ pts) ≡ true
  unfolding some_outside
  some_outside_here ring pt pts (outside, free) = rw (outside, free) refl

  some_outside_cons :
      (ring : List Coord) (pt : Coord) (pts : List Coord)
      → some_outside f ring pts ≡ true
      → some_outside f ring (pt ∷ pts) ≡ true
  unfolding some_outside
  some_outside_cons ring pt pts e = elim (Bool-cases (point_in_ring_exclusive f pt ring)) [
    | inl inside ↦ rw inside e
    | inr outside ↦ elim (Bool-cases (touches_ring f pt ring)) [
      | inl touching ↦ rw (outside, touching) e
      | inr free ↦ rw (outside, free) refl
    ]
  ]

  some_outside_complete :
      (ring pts : List Coord) (pt : Coord)
      → Memᴰ pt pts
      → IsClear ring pt
      → some_outside f ring pts ≡ true
  some_outside_complete ring [] pt m clear = absurd (Memᴰ.not-nil m)
  some_outside_complete ring (x ∷ xs) pt m clear = elim (Memᴰ.cases_cons m) [
    | inl here ↦ some_outside_here ring x xs (subst (IsClear ring) here clear)
    | inr later ↦ some_outside_cons ring x xs (some_outside_complete ring xs pt later clear)
  ]

  -- A vertex of the hole is found outside just where the shell has four coordinates or more and some
  -- vertex of the hole is neither strictly inside the shell nor on it.
  pub hole_vertex_strictly_outside_lem :
      (hole shell : LineString)
      → (hole_vertex_strictly_outside f hole shell ≡ true)
        ↔ ((4 ≤ length shell) × ((pt : Coord) × Memᴰ pt hole × IsClear shell pt))
  unfolding hole_vertex_strictly_outside ClearOne
  hole_vertex_strictly_outside_lem hole shell = elim (Bool-cases (ltb (length shell) 4)) [
    | inl short ↦
        rw short (λ e. absurd (cc), λ h. absurd (omega (arith, h.0, ltb→lt (length shell) 4 short)))
    | inr long ↦ rw long (
      λ e. (ltb→le (length shell) 4 long, some_outside_sound shell hole e),
      λ h.
          let (_, one) = h in
          let (pt, m, clear) = one in some_outside_complete shell hole pt m clear,
    )
  ]
