-- ===== src/Cleanup/Kept.antt =====
-- What the loops of cleanup.rs keep of a sequence.
use geo_repair.Prelude.{
  ℕ, ◌≡◌, refl, ap, ◌⊎◌, inl, inr, Bool, true, false, List, [], ◌∷◌, All, Bool-cases, if◌then◌else◌,
}
use mathlib.Core.List.{Memᴰ}
use geo_repair.Geo.{Coord}
use geo_repair.Floats.{Floats, coord_eq}
use geo_repair.Cleanup.{
  keep_from, thin, remove_consecutive_duplicates, is_repeated, remove_repeated_coords,
}

-- every element and the one behind it
abbrev pub Neighbours {ℓ κ} : {A : Type ℓ} → (A → A → Type κ) → List A → Type κ
Neighbours R [] = Unit
Neighbours R (x ∷ []) = Unit
Neighbours R (x ∷ y ∷ xs) = R x y × Neighbours R (y ∷ xs)

module _ {ℓ} {A : Type ℓ} (skip : A → A → Bool) where
  abbrev Apart : A → A → Type 0
  Apart p c = skip p c ≡ false

  keep_from-Neighbours : (last : A) (cs : List A) → Neighbours Apart (last ∷ keep_from skip last cs)
  unfolding keep_from
  keep_from-Neighbours last [] = tt
  keep_from-Neighbours last (c ∷ cs) = elim (Bool-cases (skip last c)) [
    | inl drop ↦ rw drop (keep_from-Neighbours last cs)
    | inr keep ↦ rw keep (keep, keep_from-Neighbours c cs)
  ]

  pub thin-Neighbours : (cs : List A) → Neighbours Apart (thin skip cs)
  unfolding thin
  thin-Neighbours [] = tt
  thin-Neighbours (c ∷ cs) = keep_from-Neighbours c cs

  keep_from-Apart :
      (last : A) (cs : List A) → Neighbours Apart (last ∷ cs) → keep_from skip last cs ≡ cs
  unfolding keep_from
  keep_from-Apart last [] h = refl
  keep_from-Apart last (c ∷ cs) (apart, h) = rw apart (ap (◌∷◌ c) (keep_from-Apart c cs h))

  thin-Apart : (cs : List A) → Neighbours Apart cs → thin skip cs ≡ cs
  unfolding thin
  thin-Apart [] h = refl
  thin-Apart (c ∷ cs) h = ap (◌∷◌ c) (keep_from-Apart c cs h)

  thin-thin : (cs : List A) → thin skip (thin skip cs) ≡ thin skip cs
  thin-thin cs = thin-Apart (thin skip cs) (thin-Neighbours cs)

  -- in the list, or dropped behind an element of it
  abbrev pub Covered : List A → A → Type ℓ
  Covered out c = Memᴰ c out ⊎ ((p : A) × Memᴰ p out × (skip p c ≡ true))

  Covered-cons : (x : A) (out : List A) (c : A) → Covered out c → Covered (x ∷ out) c
  Covered-cons x out c (inl m) = inl (Memᴰ.tail m)
  Covered-cons x out c (inr (p, m, e)) = inr (p, Memᴰ.tail m, e)

  All-Covered-cons : (x : A) (out cs : List A) → All (Covered out) cs → All (Covered (x ∷ out)) cs
  All-Covered-cons x out [] h = tt
  All-Covered-cons x out (c ∷ cs) (h, hs) = (Covered-cons x out c h, All-Covered-cons x out cs hs)

  keep_from_dropped :
      (last c : A) (cs : List A)
      → skip last c ≡ true
      → keep_from skip last (c ∷ cs) ≡ keep_from skip last cs
  unfolding keep_from
  keep_from_dropped last c cs drop = rw drop refl

  keep_from_kept :
      (last c : A) (cs : List A)
      → skip last c ≡ false
      → keep_from skip last (c ∷ cs) ≡ c ∷ keep_from skip c cs
  unfolding keep_from
  keep_from_kept last c cs keep = rw keep refl

  CoversAll : List A → List A → Type ℓ
  CoversAll out cs = All (Covered out) cs

  CoversAll-dropped :
      (last c : A) (out cs : List A)
      → skip last c ≡ true
      → CoversAll (last ∷ out) cs
      → CoversAll (last ∷ out) (c ∷ cs)
  unfolding CoversAll
  CoversAll-dropped last c out cs drop h = (inr (last, Memᴰ.head refl, drop), h)

  CoversAll-kept :
      (last c : A) (out cs : List A) → CoversAll (c ∷ out) cs → CoversAll (last ∷ c ∷ out) (c ∷ cs)
  unfolding CoversAll
  CoversAll-kept last c out cs h =
      (inl (Memᴰ.tail (Memᴰ.head refl)), All-Covered-cons last (c ∷ out) cs h)

  keep_from-CoversAll_cons :
      (last c : A) (cs : List A)
      → CoversAll (last ∷ keep_from skip last cs) cs
      → CoversAll (c ∷ keep_from skip c cs) cs
      → CoversAll (last ∷ keep_from skip last (c ∷ cs)) (c ∷ cs)
  keep_from-CoversAll_cons last c cs dropped kept = elim (Bool-cases (skip last c)) [
    | inl drop ↦
        rw (keep_from_dropped last c cs drop)
          (CoversAll-dropped last c (keep_from skip last cs) cs drop dropped)
    | inr keep ↦
        rw (keep_from_kept last c cs keep) (CoversAll-kept last c (keep_from skip c cs) cs kept)
  ]

  keep_from-CoversAll : (last : A) (cs : List A) → CoversAll (last ∷ keep_from skip last cs) cs
  unfolding CoversAll
  keep_from-CoversAll last [] = tt
  keep_from-CoversAll last (c ∷ cs) =
      keep_from-CoversAll_cons last c cs (keep_from-CoversAll last cs) (keep_from-CoversAll c cs)

  pub keep_from-Covered :
      (last : A) (cs : List A) → All (Covered (last ∷ keep_from skip last cs)) cs
  unfolding CoversAll
  keep_from-Covered last cs = keep_from-CoversAll last cs

  thin-Covered : (cs : List A) → All (Covered (thin skip cs)) cs
  unfolding thin CoversAll
  thin-Covered [] = tt
  thin-Covered (c ∷ cs) = (inl (Memᴰ.head refl), keep_from-CoversAll c cs)

module _ (f : Floats) (tolerance : ℕ) where
  -- which test drops a coordinate behind another at this tolerance
  abbrev pub drops : Coord → Coord → Bool
  drops = if f.eq tolerance 0 then coord_eq f else is_repeated f tolerance

  remove_repeated_coords-thin :
      (cs : List Coord) → remove_repeated_coords f cs tolerance ≡ thin drops cs
  unfolding remove_repeated_coords remove_consecutive_duplicates
  remove_repeated_coords-thin cs = elim (Bool-cases (f.eq tolerance 0)) [
    | inl zero_tolerance ↦ rw zero_tolerance refl
    | inr some_tolerance ↦ rw some_tolerance refl
  ]

  -- A second pass changes nothing.
  pub remove_repeated_coords-remove_repeated_coords :
      (cs : List Coord)
      → remove_repeated_coords f (remove_repeated_coords f cs tolerance) tolerance
        ≡ remove_repeated_coords f cs tolerance
  remove_repeated_coords-remove_repeated_coords cs =
      rw
        (
          remove_repeated_coords-thin (remove_repeated_coords f cs tolerance),
          remove_repeated_coords-thin cs,
        )
        (thin-thin drops cs)

  -- What is left has no coordinate behind one that drops it, and each coordinate of the input is
  -- left or is dropped by a coordinate that is left.
  pub remove_repeated_coords-Covered :
      (cs : List Coord)
      → Neighbours (λ p c. drops p c ≡ false) (remove_repeated_coords f cs tolerance)
        × All
            (λ c.
              Memᴰ c (remove_repeated_coords f cs tolerance)
              ⊎ ((p : Coord) × Memᴰ p (remove_repeated_coords f cs tolerance) × (drops p c ≡ true)))
            cs
  remove_repeated_coords-Covered cs =
      rw (remove_repeated_coords-thin cs) (thin-Neighbours drops cs, thin-Covered drops cs)
