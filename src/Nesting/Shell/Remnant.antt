-- ===== src/Nesting/Shell/Remnant.antt =====
-- What is made of a shell that collapsed.
use geo_repair.Prelude.{
  ◌≡◌, refl, ◌⊎◌, inl, inr, Bool, true, false, List, [], ◌∷◌, Option, none, some, All, filter,
  Bool-cases,
}
use mathlib.Core.List.{Memᴰ}
use geo_repair.Geo.{Coord, LineString, Geometry, point, line_string}
use geo_repair.Floats.{Floats, finite_coord, coord_eq}
use geo_repair.Cleanup.{keep_from, thin}
use geo_repair.Cleanup.Kept.{Neighbours, thin-Neighbours, Covered, keep_from-Covered}
use geo_repair.Nesting.Shell.{point_or_line, collapse_of, handle_collapse_result}

module _ (f : Floats) where
  -- what a collapsed shell becomes: nothing without coordinates, a point if all the others are equal
  -- to the first, and else a line from the first through some of the others
  abbrev pub IsRemnant : List Coord → Option Geometry → Type 0
  IsRemnant [] result = result ≡ none
  IsRemnant (c ∷ cs) result =
      ((result ≡ some (point c)) × All (λ d. coord_eq f c d ≡ true) cs)
      ⊎ ((d : Coord) × (more : List Coord) × (result ≡ some (line_string (c ∷ d ∷ more)))
          × All (λ e. Memᴰ e cs) (d ∷ more)
          × Neighbours (λ p e. coord_eq f p e ≡ false) (c ∷ d ∷ more)
          × All (Covered (coord_eq f) (c ∷ d ∷ more)) cs)

  keep_from-All :
      (P : Coord → Type 0) (skip : Coord → Coord → Bool) (last : Coord) (cs : List Coord)
      → All P cs
      → All P (keep_from skip last cs)
  unfolding keep_from
  keep_from-All P skip last [] h = tt
  keep_from-All P skip last (c ∷ cs) (p, h) = elim (Bool-cases (skip last c)) [
    | inl drop ↦ rw drop (keep_from-All P skip last cs h)
    | inr keep ↦ rw keep (p, keep_from-All P skip c cs h)
  ]

  keep_from_nil :
      (skip : Coord → Coord → Bool) (last : Coord) (cs : List Coord)
      → keep_from skip last cs ≡ []
      → All (λ d. skip last d ≡ true) cs
  unfolding keep_from
  keep_from_nil skip last [] = λ e. tt
  keep_from_nil skip last (c ∷ cs) = elim (Bool-cases (skip last c)) [
    | inl drop ↦ rw drop (λ e. (refl, keep_from_nil skip last cs e))
    | inr keep ↦ rw keep (λ e. absurd (cc))
  ]

  All-mem :
      (whole cs : List Coord)
      → ((c : Coord) → Memᴰ c cs → Memᴰ c whole)
      → All (λ c. Memᴰ c whole) cs
  All-mem whole [] h = tt
  All-mem whole (c ∷ cs) h = (h c (Memᴰ.head refl), All-mem whole cs (λ d m. h d (Memᴰ.tail m)))

  point_or_line-IsRemnant :
      (c : Coord) (cs kept : List Coord)
      → (kept ≡ [] → All (λ d. coord_eq f c d ≡ true) cs)
      → All (λ e. Memᴰ e cs) kept
      → Neighbours (λ p e. coord_eq f p e ≡ false) (c ∷ kept)
      → All (Covered (coord_eq f) (c ∷ kept)) cs
      → IsRemnant (c ∷ cs) (point_or_line f (c ∷ kept))
  point_or_line-IsRemnant c cs [] same all apart covered = inl (refl, same refl)
  point_or_line-IsRemnant c cs (d ∷ more) same all apart covered =
      inr (d, more, refl, all, apart, covered)

  collapse_of-IsRemnant : (cs : List Coord) → IsRemnant cs (collapse_of f cs)
  unfolding thin
  collapse_of-IsRemnant [] = refl
  collapse_of-IsRemnant (c ∷ []) = inl (refl, tt)
  collapse_of-IsRemnant (c ∷ d ∷ cs) =
      let rest = d ∷ cs in
      point_or_line-IsRemnant c rest (keep_from (coord_eq f) c rest)
        (keep_from_nil (coord_eq f) c rest)
        (keep_from-All (λ e. Memᴰ e rest) (coord_eq f) c rest (All-mem rest rest (λ e m. m)))
        (thin-Neighbours (coord_eq f) (c ∷ rest)) (keep_from-Covered (coord_eq f) c rest)

  -- A collapsed shell without finite coordinates gives nothing. If its finite coordinates after the
  -- first are all `==` to the first, it gives the point there. Otherwise it gives a line of two
  -- coordinates or more: it starts at the first finite one and goes on with later ones, none `==` to the
  -- one before it on the line, and each finite coordinate is on the line or `==` to one that is.
  pub handle_collapse_result_lem :
      (exterior : LineString)
      → IsRemnant (filter finite_coord exterior) (handle_collapse_result f exterior)
  unfolding handle_collapse_result
  handle_collapse_result_lem exterior = collapse_of-IsRemnant (filter finite_coord exterior)
