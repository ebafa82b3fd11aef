-- ===== src/Classify/RingSet.antt =====
-- What `ring_set_equal` of structure/classify.rs tells of two rings.
use geo_repair.Prelude.{
  both_true, ◌≡◌, refl, sym, ap, ◌∙◌, inl, inr, Bool, true, false, List, [], ◌∷◌, ◌++◌, append-nil,
  Bool-cases, insert_by, sort_onto, length, ◌==◌, ==→eq, ==_refl, if◌then◌else◌,
}
use mathlib.Core.List.{Permᴰ}
use mathlib.Core.List.Permᴰ
use mathlib.Core.Path.{subst}
use geo_repair.Geo.{Coord, LineString}
use geo_repair.Classify.{same_coord, same_coords, less_coord, open_set, ring_set_equal}

same_coord_lem : (a b : Coord) → same_coord a b ≡ true → a ≡ b
same_coord_lem a b e =
    let (p, q) = both_true (a.x == b.x) (a.y == b.y) e in
    ap (λ v. record { x = v; y = a.y }) (==→eq a.x b.x p)
    ∙ ap (λ v. record { x = b.x; y = v }) (==→eq a.y b.y q)

same_coords_lem : (cs ds : List Coord) → same_coords cs ds ≡ true → cs ≡ ds
same_coords_lem [] [] e = refl
same_coords_lem [] (d ∷ ds) e = absurd (cc)
same_coords_lem (c ∷ cs) [] e = absurd (cc)
same_coords_lem (c ∷ cs) (d ∷ ds) e =
    let (p, q) = both_true (same_coord c d) (same_coords cs ds) e in
    ap (λ v. v ∷ cs) (same_coord_lem c d p) ∙ ap (◌∷◌ d) (same_coords_lem cs ds q)

same_coords_refl : (cs : List Coord) → same_coords cs cs ≡ true
same_coords_refl [] = refl
same_coords_refl (c ∷ cs) = rw (==_refl c.x, ==_refl c.y) (same_coords_refl cs)

module _ {ℓ} {A : Type ℓ} (less : A → A → Bool) where
  insert_by-Permᴰ : (x : A) (ys : List A) → Permᴰ (x ∷ ys) (insert_by less x ys)
  insert_by-Permᴰ x [] = Permᴰ.refl (x ∷ [])
  insert_by-Permᴰ x (y ∷ ys) = elim (Bool-cases (less x y)) [
    | inl before ↦ rw before (Permᴰ.refl (x ∷ y ∷ ys))
    | inr behind ↦
        rw behind (Permᴰ.trans (Permᴰ.swap refl refl) (Permᴰ.cons refl (insert_by-Permᴰ x ys)))
  ]

  sort_onto-Permᴰ : (xs ys : List A) → Permᴰ (xs ++ ys) (sort_onto less xs ys)
  sort_onto-Permᴰ [] ys = Permᴰ.refl ys
  sort_onto-Permᴰ (x ∷ xs) ys = Permᴰ.trans (Permᴰ.symm (Permᴰ.middle x xs ys)) (
      Permᴰ.trans (Permᴰ.append_left xs (insert_by-Permᴰ x ys))
        (sort_onto-Permᴰ xs (insert_by less x ys)))

third_true : (p q r : Bool) → (if p then false else if q then false else r) ≡ true → r ≡ true
third_true true q r e = absurd (cc)
third_true false true r e = absurd (cc)
third_true false false r e = e

sorted-Permᴰ : (cs : List Coord) → Permᴰ cs (sort_onto less_coord cs [])
sorted-Permᴰ cs =
    subst (λ xs. Permᴰ xs (sort_onto less_coord cs [])) (append-nil cs)
      (sort_onto-Permᴰ less_coord cs [])

-- A ring is equal to itself, and rings that are found equal have the same coordinates, as often,
-- apart from a closing one.
pub ring_set_equal_lem :
    (a b : LineString)
    → (ring_set_equal a a ≡ true) × (ring_set_equal a b ≡ true → Permᴰ (open_set a) (open_set b))
unfolding ring_set_equal
ring_set_equal_lem a b = (
  rw (==_refl (length a), ==_refl (length (open_set a)))
      (same_coords_refl (sort_onto less_coord (open_set a) [])),
  λ e.
      let sorted =
        same_coords_lem (sort_onto less_coord (open_set a) [])
          (sort_onto less_coord (open_set b) []) (third_true _ _ _ e) in
      Permᴰ.trans (sorted-Permᴰ (open_set a))
        (subst (λ xs. Permᴰ xs (open_set b)) (sym sorted) (Permᴰ.symm (sorted-Permᴰ (open_set b)))),
)
